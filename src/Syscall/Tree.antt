-- ===== src/Syscall/Tree.antt =====
-- The process that `execute` of student-distrib/syscall.c starts, in the tree of parents.
use unix_like_os.Base.{ℕ, ◌<◌, ◌≤◌, ◌≡◌, ◌≢◌, ◌⊎◌, inl, inr, ap, sym, ◌∙◌, subst, some, arith}
use native.Mathlib.Decide.{ℕ_discrete}
use unix_like_os.Proc.{null_pcb, Pcb, Procs, TerminalInfo, find_free_pcb}
use unix_like_os.Proc.Inv.{Live, IsValid}
use unix_like_os.Syscall.Execute.{start_process}
use unix_like_os.Syscall.Start.{Started, start_process-Started, start_process_first-Started}

-- `q` is the table `p` of a well-formed system with a process started in block `n`.
module _ (t : ℕ) (p q : Procs) (n : ℕ) (v : IsValid t p) (s : Started t p q n) where
  pub new_Live : Live q n
  new_Live = record { low = s.low; high = s.high; id = s.its_id }

  pub old_other : (i : ℕ) → Live p i → i ≢ n
  old_other i l e =
      omega (arith, l.low, l.id, subst (λ k. (p.pcbs k).program_id ≡ 0) (sym e) s.fresh)

  pub old_Live : (i : ℕ) → Live p i → Live q i
  old_Live i l = record {
    low = l.low;
    high = l.high;
    id = ap (λ (k : Pcb). k.program_id) (s.others i (old_other i l)) ∙ l.id;
  }

  is_old : (i : ℕ) → Live q i → i ≢ n → Live p i
  is_old i l d = record {
    low = l.low;
    high = l.high;
    id = sym (ap (λ (k : Pcb). k.program_id) (s.others i d)) ∙ l.id;
  }

  pub old_parent : (i : ℕ) → i ≢ n → (q.pcbs i).parent_id ≡ (p.pcbs i).parent_id
  old_parent i d = ap (λ (k : Pcb). k.parent_id) (s.others i d)

  pub old_top :
      (u : ℕ) → u ≢ t → (q.terminal_info u).top_process_id ≡ (p.terminal_info u).top_process_id
  old_top u d = ap (λ (k : TerminalInfo). k.top_process_id) (s.top_there u d)

  kept_or_zero : (i : ℕ) → (i ≡ 0) ⊎ Live p i → (i ≡ 0) ⊎ Live q i
  kept_or_zero i (inl z) = inl z
  kept_or_zero i (inr l) = inr (old_Live i l)

  not_new : (i : ℕ) → (i ≡ 0) ⊎ Live p i → i ≢ n
  not_new i (inl z) e = omega (arith, z, e, s.low)
  not_new i (inr l) e = old_other i l e

  top_before :
      (u : ℕ)
      → u < 3
      → ((p.terminal_info u).top_process_id ≡ 0) ⊎ Live p (p.terminal_info u).top_process_id
  top_before u h = v.top_live u h

  current_before : (p.current ≡ 0) ⊎ Live p p.current
  current_before = subst (λ k. (k ≡ 0) ⊎ Live p k) (sym v.current_top) (v.top_live t v.on_screen)

  ids_after : (i : ℕ) → 1 ≤ i → i < 7 → ((q.pcbs i).program_id ≡ 0) ⊎ Live q i
  ids_after i a b = elim (ℕ_discrete i n) [
    | yes e ↦ inr (subst (Live q) (sym e) new_Live)
    | no d ↦ elim (v.ids i a b) [
      | inl z ↦ inl (ap (λ (k : Pcb). k.program_id) (s.others i d) ∙ z)
      | inr l ↦ inr (old_Live i l)
    ]
  ]

  tops_ok :
      (u : ℕ)
      → u < 3
      → ((q.terminal_info u).top_process_id ≡ 0) ⊎ Live q (q.terminal_info u).top_process_id
  tops_ok u h = elim (ℕ_discrete u t) [
    | yes e ↦ inr (rw (e, s.top_here) new_Live)
    | no d ↦ rw (old_top u d) (kept_or_zero _ (v.top_live u h))
  ]

  parents_ok : (i : ℕ) → Live q i → ((q.pcbs i).parent_id ≡ 0) ⊎ Live q (q.pcbs i).parent_id
  parents_ok i l = elim (ℕ_discrete i n) [
    | yes e ↦ rw (e, s.its_parent) (kept_or_zero _ current_before)
    | no d ↦ rw (old_parent i d) (kept_or_zero _ (v.parent_live i (is_old i l d)))
  ]

  -- no old process has the caller as its parent
  caller_leaf :
      (i : ℕ) → Live q i → i ≢ n → (q.pcbs i).parent_id ≢ 0 → (q.pcbs i).parent_id ≢ p.current
  caller_leaf i l d nz e =
      v.top_leaf t i v.on_screen (is_old i l d) (λ z. nz (old_parent i d ∙ z))
        (sym (old_parent i d) ∙ e ∙ v.current_top)

  one_child_after :
      (i j : ℕ)
      → Live q i
      → Live q j
      → (q.pcbs i).parent_id ≢ 0
      → (q.pcbs i).parent_id ≡ (q.pcbs j).parent_id
      → i ≡ j
  one_child_after i j li lj nz e = elim (ℕ_discrete i n) [
    | yes ei ↦ elim (ℕ_discrete j n) [
      | yes ej ↦ ei ∙ sym ej
      | no dj ↦ absurd (
          caller_leaf j lj dj (λ z. nz (e ∙ z))
            (sym e ∙ ap (λ k. (q.pcbs k).parent_id) ei ∙ s.its_parent))
    ]
    | no di ↦ elim (ℕ_discrete j n) [
      | yes ej ↦
          absurd (caller_leaf i li di nz (e ∙ ap (λ k. (q.pcbs k).parent_id) ej ∙ s.its_parent))
      | no dj ↦
          v.one_child i j (is_old i li di) (is_old j lj dj) (λ z. nz (old_parent i di ∙ z))
            (sym (old_parent i di) ∙ e ∙ old_parent j dj)
    ]
  ]

  parent_before : (i : ℕ) → Live q i → (((q.pcbs i).parent_id ≡ 0) ⊎ Live p (q.pcbs i).parent_id)
  parent_before i l = elim (ℕ_discrete i n) [
    | yes e ↦ rw (e, s.its_parent) current_before
    | no d ↦ rw (old_parent i d) (v.parent_live i (is_old i l d))
  ]

  top_leaf_after :
      (u i : ℕ)
      → u < 3
      → Live q i
      → (q.pcbs i).parent_id ≢ 0
      → (q.pcbs i).parent_id ≢ (q.terminal_info u).top_process_id
  top_leaf_after u i h l nz e = elim (ℕ_discrete u t) [
    | yes eu ↦
        not_new _ (parent_before i l)
          (e ∙ ap (λ k. (q.terminal_info k).top_process_id) eu ∙ s.top_here)
    | no du ↦ elim (ℕ_discrete i n) [
      | yes ei ↦
          let c : (q.pcbs i).parent_id ≡ p.current =
            ap (λ k. (q.pcbs k).parent_id) ei ∙ s.its_parent in
          v.tops_differ t u v.on_screen h (λ x. du (sym x)) (λ z. nz (c ∙ v.current_top ∙ z))
            (sym v.current_top ∙ sym c ∙ e ∙ old_top u du)
      | no di ↦
          v.top_leaf u i h (is_old i l di) (λ z. nz (old_parent i di ∙ z))
            (sym (old_parent i di) ∙ e ∙ old_top u du)
    ]
  ]

  tops_differ_after :
      (a b : ℕ)
      → a < 3
      → b < 3
      → a ≢ b
      → (q.terminal_info a).top_process_id ≢ 0
      → (q.terminal_info a).top_process_id ≢ (q.terminal_info b).top_process_id
  tops_differ_after a b ha hb ne nz e = elim (ℕ_discrete a t) [
    | yes ea ↦
        let eb : b ≢ t = λ z. ne (ea ∙ sym z) in
        not_new _ (v.top_live b hb) (
          sym (old_top b eb) ∙ sym e ∙ ap (λ k. (q.terminal_info k).top_process_id) ea ∙ s.top_here)
    | no da ↦ elim (ℕ_discrete b t) [
      | yes eb ↦
          not_new _ (v.top_live a ha)
            (sym (old_top a da) ∙ e ∙ ap (λ k. (q.terminal_info k).top_process_id) eb ∙ s.top_here)
      | no db ↦
          v.tops_differ a b ha hb ne (λ z. nz (old_top a da ∙ z))
            (sym (old_top a da) ∙ e ∙ old_top b db)
    ]
  ]

  pub Started-IsValid : IsValid t q
  Started-IsValid = record {
    none_at_zero =
        ap (λ (k : Pcb). k.program_id) (s.others 0 (λ e. omega (arith, e, s.low))) ∙ v.none_at_zero;
    ids = ids_after;
    counted = omega (arith, s.number, s.counted, v.counted);
    on_screen = v.on_screen;
    current_top = s.is_current ∙ sym s.top_here;
    top_live = tops_ok;
    parent_live = parents_ok;
    one_child = one_child_after;
    top_leaf = top_leaf_after;
    tops_differ = tops_differ_after;
  }

-- In a well-formed table with a place left, `execute` makes a process in a free block, with the number
-- of its block and the caller as its parent; it runs, on top of its terminal, and the table stays well
-- formed.
pub start_process-IsValid :
    (t : ℕ) (p : Procs)
    → IsValid t p
    → p.process_number < 6
    → (n : ℕ) × (q : Procs) × (start_process t p ≡ some (n, q))
      × ((p.pcbs n).program_id ≡ 0)
      × IsValid t q
      × Live q n
      × (q.current ≡ n)
      × ((q.pcbs n).parent_id ≡ p.current)
start_process-IsValid t p v h =
    let (q, e, s, _, _, _) = start_process-Started t p v h in
    (
      find_free_pcb p,
      q,
      e,
      s.fresh,
      Started-IsValid t p q _ v s,
      new_Live t p q _ v s,
      s.is_current,
      s.its_parent,
    )

-- The first `execute`, which has no caller: from a table that is well formed but for the missing process that
-- runs, it makes a process with no parent in a free block, and the table is well formed.
pub start_process_first-IsValid :
    (t : ℕ) (p : Procs)
    → p.current ≡ null_pcb
    → IsValid t (record p { current = 0 })
    → p.process_number < 6
    → (n : ℕ) × (q : Procs) × (start_process t p ≡ some (n, q))
      × ((p.pcbs n).program_id ≡ 0)
      × IsValid t q
      × Live q n
      × (q.current ≡ n)
      × ((q.pcbs n).parent_id ≡ 0)
start_process_first-IsValid t p none_yet v h =
    let p0 : Procs = record p { current = 0 } in
    let (q, e, s) = start_process_first-Started t p none_yet v h in
    (
      find_free_pcb p,
      q,
      e,
      s.fresh,
      Started-IsValid t p0 q _ v s,
      new_Live t p0 q _ v s,
      s.is_current,
      s.its_parent,
    )
