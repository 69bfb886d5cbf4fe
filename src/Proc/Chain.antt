-- ===== src/Proc/Chain.antt =====
-- The processes of a terminal as a stack: the process on top, its parent, and so on to the root.
use unix_like_os.Base.{
  ℕ, ◌<◌, ◌≤◌, ◌≡◌, ◌≢◌, ◌⊎◌, inl, inr, ap, refl, sym, ◌∙◌, subst, List, [], ◌∷◌, arith, length,
  update, update-ne,
}
use unix_like_os.Proc.{Pcb, Procs}
use unix_like_os.Proc.Inv.{Live, IsValid, live_count, live_count-update_gone}

-- The numbers of the processes from `i` up its parents; 0 is no process.
abbrev pub Chain : Procs → ℕ → List ℕ → Type 0
Chain p i [] = i ≡ 0
Chain p i (j ∷ l) = (j ≡ i) × Live p i × Chain p (p.pcbs i).parent_id l

abbrev pub Among : ℕ → List ℕ → Type 0
Among k [] = ⊥
Among k (j ∷ l) = (k ≡ j) ⊎ Among k l

abbrev pub Distinct : List ℕ → Type 0
Distinct [] = Unit
Distinct (j ∷ l) = ¬ Among j l × Distinct l

pub Among-Live : (p : Procs) (i k : ℕ) (l : List ℕ) → Chain p i l → Among k l → Live p k
Among-Live p i k [] c m = absurd m
Among-Live p i k (j ∷ l) (e, live, c) (inl h) = subst (Live p) (sym (h ∙ e)) live
Among-Live p i k (j ∷ l) (e, live, c) (inr m) = Among-Live p (p.pcbs i).parent_id k l c m

-- A table in which the processes of a chain have the same parents has the same chain.
pub Chain-agree :
    (p q : Procs) (i : ℕ) (l : List ℕ)
    → ((k : ℕ) → Among k l → Live p k → Live q k × ((q.pcbs k).parent_id ≡ (p.pcbs k).parent_id))
    → Chain p i l
    → Chain q i l
Chain-agree p q i [] h c = c
Chain-agree p q i (j ∷ l) h (e, live, c) =
    let (live', same) = h i (inl (sym e)) live in
    (
      e,
      live',
      subst (λ x. Chain q x l) (sym same)
          (Chain-agree p q (p.pcbs i).parent_id l (λ k m. h k (inr m)) c),
    )

-- What stands behind the top of a chain is the parent of one that stands before it.
pub Among-parent :
    (p : Procs) (i k j : ℕ) (l : List ℕ)
    → Chain p i (j ∷ l)
    → Among k l
    → (c : ℕ) × Live p c × Among c (j ∷ l) × ((p.pcbs c).parent_id ≡ k) × (k ≢ 0)
Among-parent p i k j [] c m = absurd m
Among-parent p i k j (x ∷ l) (e, live, (e', live', c)) (inl h) =
    (i, live, inl (sym e), sym (h ∙ e'), λ z. omega (arith, z, h, e', live'.low))
Among-parent p i k j (x ∷ l) (e, live, c) (inr m) =
    let (d, dl, among, is, ne) = Among-parent p (p.pcbs i).parent_id k x l c m in
    (d, dl, inr among, is, ne)

-- what a process says of the chain behind it: it is nobody's parent, or that of one that is not there
abbrev OneChild : Procs → ℕ → List ℕ → Type 0
OneChild p i l =
    ((d : ℕ) → Live p d → (p.pcbs d).parent_id ≢ i)
    ⊎ ((d : ℕ) × Live p d × ((p.pcbs d).parent_id ≡ i) × ¬ Among d l)

module _ (t : ℕ) (p : Procs) (v : IsValid t p) where
  not_again : (i j : ℕ) (l : List ℕ) → Chain p i (j ∷ l) → OneChild p i (j ∷ l) → ¬ Among j l
  not_again i j l (e, live, c) (inl nobody) m =
      let (d, dl, among, is, ne) = Among-parent p i j j l (e, live, c) m in nobody d dl (is ∙ e)
  not_again i j l (e, live, c) (inr (d', dl', is', absent)) m =
      let (d, dl, among, is, ne) = Among-parent p i j j l (e, live, c) m in
      let same : d ≡ d' = v.one_child d d' dl dl' (λ z. ne (sym is ∙ z)) (is ∙ e ∙ sym is') in
      absent (subst (λ k. Among k (j ∷ l)) same among)

  Chain-Distinct_from : (i : ℕ) (l : List ℕ) → Chain p i l → OneChild p i l → Distinct l
  Chain-Distinct_from i [] c h = tt
  Chain-Distinct_from i (j ∷ l) (e, live, c) h =
      let fresh = not_again i j l (e, live, c) h in
      (
        fresh,
        Chain-Distinct_from (p.pcbs i).parent_id l c
            (inr (i, live, refl, λ m. fresh (subst (λ k. Among k l) (sym e) m))),
      )

  -- No process stands twice in the stack of a terminal.
  pub Chain-Distinct :
      (u : ℕ) (l : List ℕ) → u < 3 → Chain p (p.terminal_info u).top_process_id l → Distinct l
  Chain-Distinct u [] h c = tt
  Chain-Distinct u (j ∷ l) h (e, live, c) =
      Chain-Distinct_from (p.terminal_info u).top_process_id (j ∷ l) (e, live, c)
        (inl (λ d dl is. v.top_leaf u d h dl (λ z. omega (arith, z, is, live.low)) is))

-- Distinct processes of a table are no more than its count.
pub Distinct-length :
    (pcbs : ℕ → Pcb) (l : List ℕ)
    → Distinct l
    → ((k : ℕ) → Among k l → (1 ≤ k) × (k ≤ 6) × ((pcbs k).program_id ≢ 0))
    → length l ≤ live_count pcbs 6
Distinct-length pcbs [] d h = omega arith
Distinct-length pcbs (j ∷ l) (fresh, d) h =
    let (lo, hi, live) = h j (inl refl) in
    let gone : Pcb = record (pcbs j) { program_id = 0 } in
    let rest = Distinct-length (update pcbs j gone) l d (λ k m.
      let (a, b, c) = h k (inr m) in
      let ne : k ≢ j = λ e. fresh (subst (λ x. Among x l) e m) in
      (a, b, λ z. c (sym (ap (λ (q : Pcb). q.program_id) (update-ne pcbs j k gone ne)) ∙ z))) in
    omega (arith, rest, live_count-update_gone pcbs j gone 6 lo hi live refl)
