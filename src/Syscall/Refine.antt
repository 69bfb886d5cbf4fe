-- ===== src/Syscall/Refine.antt =====
-- The processes of student-distrib/pcb.c as three stacks of numbers, one for each terminal: `execute`
-- pushes, `halt` pops.
use unix_like_os.Base.{
  ℕ, ◌<◌, ◌≡◌, ◌≢◌, inl, inr, ap, refl, sym, ◌∙◌, subst, some, List, [], ◌∷◌, update, update_self,
  update-ne,
}
use native.Mathlib.Decide.{ℕ_discrete}
use unix_like_os.Proc.{Pcb, Procs, TerminalInfo, pcb_destroy}
use unix_like_os.Proc.Inv.{Live, IsValid}
use unix_like_os.Proc.Chain.{Chain, Among, Among-Live, Among-parent, Chain-agree}
use unix_like_os.Proc.Destroy.{destroy_other, destroy-Live, top_here, top_there, not_top, top_low}
use unix_like_os.Syscall.Execute.{start_process}
use unix_like_os.Syscall.Start.{Started, start_process-Started}
use unix_like_os.Syscall.Tree.{new_Live, old_other, old_Live, old_parent, old_top}

-- What the process table stands for: the stack of each terminal, the process on top first.
abbrev pub Stacks : Type 0
Stacks = ℕ → List ℕ

abbrev pub push : ℕ → ℕ → Stacks → Stacks
push t n s = update s t (n ∷ s t)

abbrev pub drop_first : List ℕ → List ℕ
drop_first [] = []
drop_first (_ ∷ l) = l

abbrev pub pop : ℕ → Stacks → Stacks
pop t s = update s t (drop_first (s t))

abbrev pub Implements : Procs → Stacks → Type 0
Implements p s = (u : ℕ) → u < 3 → Chain p (p.terminal_info u).top_process_id (s u)

module _ (t : ℕ) (p q : Procs) (n : ℕ) (v : IsValid t p) (st : Started t p q n) where
  kept : (i : ℕ) (l : List ℕ) → Chain p i l → Chain q i l
  kept i l = Chain-agree p q i l (λ k m live.
      (old_Live t p q n v st k live, old_parent t p q n v st k (old_other t p q n v st k live)))

  pushed : (s : Stacks) → Implements p s → Implements q (push t n s)
  pushed s imp u h = elim (ℕ_discrete u t) [
    | yes e ↦
        let below : Chain q (q.pcbs n).parent_id (s t) =
          subst (λ k. Chain q k (s t)) (sym (st.its_parent ∙ v.current_top))
            (kept _ (s t) (imp t v.on_screen)) in
        let here : Chain q (q.terminal_info t).top_process_id (n ∷ s t) =
          subst (λ k. Chain q k (n ∷ s t)) (sym st.top_here) (refl, new_Live t p q n v st, below) in
        subst (λ k. Chain q (q.terminal_info k).top_process_id (push t n s k)) (sym e)
          (subst (λ l. Chain q (q.terminal_info t).top_process_id l)
            (sym (update_self s t (n ∷ s t))) here)
    | no d ↦
        let there : Chain q (q.terminal_info u).top_process_id (s u) =
          subst (λ k. Chain q k (s u)) (sym (old_top t p q n v st u d)) (kept _ (s u) (imp u h)) in
        subst (λ l. Chain q (q.terminal_info u).top_process_id l)
          (sym (update-ne s t u (n ∷ s t) d)) there
  ]

-- In a well-formed table with a place left, whose processes stand for `s`: `execute` makes a process, which
-- is in none of the stacks, and the table then stands for `s` with this process pushed on the stack of
-- the current terminal.
pub start_process_refines :
    (t : ℕ) (p : Procs) (s : Stacks)
    → IsValid t p
    → p.process_number < 6
    → Implements p s
    → (n : ℕ) × (q : Procs) × (start_process t p ≡ some (n, q))
      × ((u : ℕ) → u < 3 → ¬ Among n (s u))
      × Implements q (push t n s)
start_process_refines t p s v h imp =
    let (q, e, st, _, _, _) = start_process-Started t p v h in
    (
      _,
      q,
      e,
      λ u a m. old_other t p q _ v st _ (Among-Live p _ _ (s u) (imp u a) m) refl,
      pushed t p q _ v st s imp,
    )

module _ (t : ℕ) (p : Procs) (v : IsValid t p) (running : Live p p.current) where
  open p use {current as n}

  -- chains without the process that goes
  kept_without : (i : ℕ) (l : List ℕ) → ¬ Among n l → Chain p i l → Chain (pcb_destroy t n p) i l
  kept_without i l absent = Chain-agree p (pcb_destroy t n p) i l (λ k m live.
      let ne : k ≢ n = λ e. absent (subst (λ x. Among x l) e m) in
      (destroy-Live t n p k live ne, ap (λ (q : Pcb). q.parent_id) (destroy_other t n p k ne)))

  behind_top : (i j : ℕ) (l : List ℕ) → Chain p i (j ∷ l) → ¬ Among n l
  behind_top i j l c m =
      let (d, live, _, is, ne) = Among-parent p i n j l c m in
      not_top t p v running d live (λ z. ne (sym is ∙ z)) is

  elsewhere :
      (u : ℕ) (l : List ℕ)
      → u < 3
      → u ≢ t
      → Chain p (p.terminal_info u).top_process_id l
      → ¬ Among n l
  elsewhere u [] h d c m = m
  elsewhere u (j ∷ l) h d c (inl e) =
      v.tops_differ t u v.on_screen h (λ x. d (sym x))
        (λ z. top_low t p v running (v.current_top ∙ z)) (sym v.current_top ∙ e ∙ c.0)
  elsewhere u (j ∷ l) h d c (inr m) = behind_top _ j l c m

  popped_here :
      (l : List ℕ)
      → Chain p (p.terminal_info t).top_process_id l
      → Chain (pcb_destroy t n p) (p.pcbs n).parent_id (drop_first l)
  popped_here [] c = absurd (top_low t p v running (v.current_top ∙ c))
  popped_here (j ∷ l) c =
      kept_without _ l (behind_top _ j l c)
        (subst (λ k. Chain p (p.pcbs k).parent_id l) (sym v.current_top) c.2)

  -- In a well-formed table whose processes stand for `s`: `pcb_destroy` of the process that runs pops the
  -- stack of the current terminal, and leaves the other two.
  pub pcb_destroy_refines : (s : Stacks) → Implements p s → Implements (pcb_destroy t n p) (pop t s)
  pcb_destroy_refines s imp u h =
      let after = pcb_destroy t n p in
      elim (ℕ_discrete u t) [
        | yes e ↦
            let here : Chain after (after.terminal_info t).top_process_id (drop_first (s t)) =
              subst (λ k. Chain after k (drop_first (s t))) (sym (top_here t p v running))
                (popped_here (s t) (imp t v.on_screen)) in
            subst (λ k. Chain after (after.terminal_info k).top_process_id (pop t s k)) (sym e)
              (subst (λ l. Chain after (after.terminal_info t).top_process_id l)
                (sym (update_self s t (drop_first (s t)))) here)
        | no d ↦
            let there : Chain after (after.terminal_info u).top_process_id (s u) =
              subst (λ k. Chain after k (s u))
                (sym (ap (λ (k : TerminalInfo). k.top_process_id) (top_there t p v running u d)))
                (kept_without _ (s u) (elsewhere u (s u) h d (imp u h)) (imp u h)) in
            subst (λ l. Chain after (after.terminal_info u).top_process_id l)
              (sym (update-ne s t u (drop_first (s t)) d)) there
      ]
