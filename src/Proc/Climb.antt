-- ===== src/Proc/Climb.antt =====
-- `get_top_pcb` of student-distrib/pcb.c on the stack of a terminal.
use unix_like_os.Base.{
  ℕ, zero, suc, ◌<◌, ◌≡◌, ap, refl, sym, ◌∙◌, subst, false, some, List, [], ◌∷◌, arith, ◌==◌,
  length, ==_iff, ==_ne,
}
use unix_like_os.Proc.{Procs, climb, get_cur_pcb, get_top_pcb, max_processes}
use unix_like_os.Proc.Inv.{IsValid, live_count-le}
use unix_like_os.Proc.Chain.{Chain, Among-Live, Chain-Distinct, Distinct-length}

-- the last of a list, or `d`
abbrev pub last_or : ℕ → List ℕ → ℕ
last_or d [] = d
last_or d (x ∷ l) = last_or x l

climb_lem :
    (p : Procs) (fuel i j : ℕ) (l : List ℕ)
    → Chain p i (j ∷ l)
    → length l < fuel
    → climb p.pcbs fuel i ≡ some (last_or i l)
unfolding climb
climb_lem p zero i j l c h = absurd (omega arith)
climb_lem p (suc fuel) i j [] (e, live, z) h = rw ((==_iff _ _).1 z) refl
climb_lem p (suc fuel) i j (x ∷ l) (e, live, (e', live', c)) h =
    let up : ((p.pcbs i).parent_id == 0) ≡ false = ==_ne _ _ (λ z. omega (arith, z, live'.low)) in
    rw (up, e') (climb_lem p fuel (p.pcbs i).parent_id x l (e', live', c) (omega arith))

-- In a well-formed table, with the process that runs on top of a stack of processes, `get_top_pcb` ends,
-- after fewer rounds than there are blocks, with the root of the stack.
pub get_top_pcb-root :
    (t : ℕ) (p : Procs) (j : ℕ) (l : List ℕ)
    → IsValid t p
    → Chain p p.current (j ∷ l)
    → get_top_pcb p ≡ some (last_or j l)
unfolding get_top_pcb get_cur_pcb
get_top_pcb-root t p j l v c =
    let on_top : Chain p (p.terminal_info t).top_process_id (j ∷ l) =
      subst (λ k. Chain p k (j ∷ l)) v.current_top c in
    let few =
      Distinct-length p.pcbs (j ∷ l) (Chain-Distinct t p v t (j ∷ l) v.on_screen on_top) (λ k m.
        let live = Among-Live p p.current k (j ∷ l) c m in
        (live.low, omega (arith, live.high), λ z. omega (arith, z, live.id, live.low))) in
    climb_lem p max_processes p.current j l c (omega (arith, few, live_count-le p.pcbs 6))
    ∙ ap (λ k. some (last_or k l)) (sym c.0)
