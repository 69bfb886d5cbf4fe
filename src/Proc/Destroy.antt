-- ===== src/Proc/Destroy.antt =====
-- `pcb_destroy` of student-distrib/pcb.c and the invariant of the process table.
use unix_like_os.Base.{
  ℕ, ◌+◌, ◌<◌, ◌≡◌, ◌≢◌, ◌⊎◌, inl, inr, ap, refl, sym, ◌∙◌, subst, arith, sub32, update-ne,
}
use native.Mathlib.Decide.{ℕ_discrete}
use unix_like_os.Proc.{Pcb, Procs, TerminalInfo, pcb_destroy}
use unix_like_os.Proc.Inv.{Live, IsValid, live_count, live_count-update_gone, live_count-le}

module _ (t n : ℕ) (p : Procs) where
  abbrev pub after : Procs
  after = pcb_destroy t n p

  pub destroy_other : (i : ℕ) → i ≢ n → after.pcbs i ≡ p.pcbs i
  unfolding pcb_destroy
  destroy_other i h = update-ne p.pcbs n i _ h

  destroy_id : (after.pcbs n).program_id ≡ 0
  unfolding pcb_destroy
  destroy_id = ground arith

  pub destroy-Live : (i : ℕ) → Live p i → i ≢ n → Live after i
  destroy-Live i l h = record { low = l.low; high = l.high; id = rw (destroy_other i h) l.id }

  Live-destroy : (i : ℕ) → Live after i → Live p i × (i ≢ n)
  Live-destroy i l = elim (ℕ_discrete i n) [
    | yes e ↦
        absurd (
          omega (arith, l.low, l.id, subst (λ k. (after.pcbs k).program_id ≡ 0) (sym e) destroy_id))
    | no h ↦ (record { low = l.low; high = l.high; id = rw (← destroy_other i h) l.id }, h)
  ]

module _ (t : ℕ) (p : Procs) (v : IsValid t p) (running : Live p p.current) where
  open p use {current as n}

  -- the terminal's entry after the call, and the other terminals'
  pub top_here : ((after t n p).terminal_info t).top_process_id ≡ (p.pcbs n).parent_id
  unfolding pcb_destroy
  top_here = ground arith

  pub top_there : (u : ℕ) → u ≢ t → (after t n p).terminal_info u ≡ p.terminal_info u
  unfolding pcb_destroy
  top_there u h = update-ne p.terminal_info t u _ h

  current_after : (after t n p).current ≡ (p.pcbs n).parent_id
  unfolding pcb_destroy
  current_after = refl

  number_after : (after t n p).process_number ≡ sub32 p.process_number 1
  unfolding pcb_destroy
  number_after = refl

  count_after : live_count (after t n p).pcbs 6 + 1 ≡ live_count p.pcbs 6
  unfolding pcb_destroy
  count_after =
      live_count-update_gone p.pcbs n _ 6 running.low (omega (arith, running.high))
        (λ e. omega (arith, running.low, running.id)) refl

  -- the parent of the process that goes is another process, or none
  parent_other : (p.pcbs n).parent_id ≢ 0 → (p.pcbs n).parent_id ≢ n
  parent_other h e = v.top_leaf t n v.on_screen running h (e ∙ v.current_top)

  pub top_low : n ≢ 0
  top_low e = omega (arith, running.low)

  pub not_top : (i : ℕ) → Live p i → (p.pcbs i).parent_id ≢ 0 → (p.pcbs i).parent_id ≢ n
  not_top i l h e = v.top_leaf t i v.on_screen l h (e ∙ v.current_top)

  tops_ok :
      (u : ℕ)
      → u < 3
      → (((after t n p).terminal_info u).top_process_id ≡ 0)
        ⊎ Live (after t n p) ((after t n p).terminal_info u).top_process_id
  tops_ok u h = elim (ℕ_discrete u t) [
    | yes e ↦
        rw (e, top_here)
          (elim (v.parent_live n running) [
            | inl z ↦ inl z
            | inr l ↦ inr (destroy-Live t n p _ l (parent_other (λ z. omega (arith, l.low))))
          ])
    | no d ↦ rw (top_there u d) (elim (v.top_live u h) [
      | inl z ↦ inl z
      | inr l ↦ inr (
          destroy-Live t n p _ l (λ e.
            v.tops_differ t u v.on_screen h (λ x. d (sym x)) (λ z. top_low (v.current_top ∙ z))
              (sym v.current_top ∙ sym e)))
    ])
  ]

  parents_ok :
      (i : ℕ)
      → Live (after t n p) i
      → (((after t n p).pcbs i).parent_id ≡ 0) ⊎ Live (after t n p) ((after t n p).pcbs i).parent_id
  parents_ok i l' =
      let (l, h) = Live-destroy t n p i l' in
      rw (destroy_other t n p i h) (elim (v.parent_live i l) [
        | inl z ↦ inl z
        | inr m ↦ inr (destroy-Live t n p _ m (not_top i l (λ z. omega (arith, m.low))))
      ])

  parent_after :
      (i : ℕ) → Live (after t n p) i → ((after t n p).pcbs i).parent_id ≡ (p.pcbs i).parent_id
  parent_after i l' =
      ap (λ (q : Pcb). q.parent_id) (destroy_other t n p i (Live-destroy t n p i l').1)

  top_leaf_after :
      (u i : ℕ)
      → u < 3
      → Live (after t n p) i
      → ((after t n p).pcbs i).parent_id ≢ 0
      → ((after t n p).pcbs i).parent_id ≢ ((after t n p).terminal_info u).top_process_id
  top_leaf_after u i h l' ne e =
      let (l, other) = Live-destroy t n p i l' in
      let ne' : (p.pcbs i).parent_id ≢ 0 = λ z. ne (parent_after i l' ∙ z) in
      elim (ℕ_discrete u t) [
        | yes same ↦
            let e' : (p.pcbs i).parent_id ≡ (p.pcbs n).parent_id =
              sym (parent_after i l')
              ∙ e
              ∙ ap (λ k. ((after t n p).terminal_info k).top_process_id) same
              ∙ top_here in
            other (v.one_child i n l running ne' e')
        | no d ↦ v.top_leaf u i h l ne' (
            sym (parent_after i l')
            ∙ e
            ∙ ap (λ (k : TerminalInfo). k.top_process_id) (top_there u d))
      ]

  tops_differ_after :
      (a b : ℕ)
      → a < 3
      → b < 3
      → a ≢ b
      → ((after t n p).terminal_info a).top_process_id ≢ 0
      → ((after t n p).terminal_info a).top_process_id
        ≢ ((after t n p).terminal_info b).top_process_id
  tops_differ_after a b ha hb ne = elim (ℕ_discrete a t) [
    | yes ea ↦
        rw (ea, top_here, top_there b (λ eb. ne (ea ∙ sym eb))) (λ nz. v.top_leaf b n hb running nz)
    | no da ↦ rw (top_there a da) (elim (ℕ_discrete b t) [
      | yes eb ↦ rw (eb, top_here) (λ nz e. v.top_leaf a n ha running (λ z. nz (e ∙ z)) (sym e))
      | no db ↦ rw (top_there b db) (λ nz. v.tops_differ a b ha hb ne nz)
    ])
  ]

  -- When the process that runs in a well-formed table is destroyed, the table stays well formed,
  -- with the process that then runs on top of the terminal.
  pub pcb_destroy-IsValid : IsValid t (pcb_destroy t n p)
  pcb_destroy-IsValid = record {
    none_at_zero = rw (destroy_other t n p 0 (λ e. top_low (sym e))) v.none_at_zero;
    ids = λ i a b. elim (ℕ_discrete i n) [
      | yes e ↦ inl (rw e (destroy_id t n p))
      | no h ↦ elim (v.ids i a b) [
        | inl z ↦ inl (rw (destroy_other t n p i h) z)
        | inr l ↦ inr (destroy-Live t n p i l h)
      ]
    ];
    counted = omega (arith, number_after, count_after, v.counted, live_count-le p.pcbs 6);
    on_screen = v.on_screen;
    current_top = current_after ∙ sym top_here;
    top_live = tops_ok;
    parent_live = parents_ok;
    one_child = λ i j li lj ne e.
        v.one_child i j (Live-destroy t n p i li).0 (Live-destroy t n p j lj).0
          (λ z. ne (parent_after i li ∙ z)) (sym (parent_after i li) ∙ e ∙ parent_after j lj);
    top_leaf = top_leaf_after;
    tops_differ = tops_differ_after;
  }
