-- ===== src/Syscall/Switch.antt =====
-- `switch_terminal` of student-distrib/terminal.c and the process table.
use unix_like_os.Base.{
  ℕ, ◌-◌, ◌<◌, ◌≡◌, ◌⊎◌, inl, inr, ap, refl, ◌∙◌, true, false, some, arith, ◌==◌, ◌>>=◌, sub32,
  ==_iff, ==_ne,
}
use unix_like_os.Proc.{Procs}
use unix_like_os.Proc.Inv.{Live, IsValid}
use unix_like_os.Paging.{Paging}
use unix_like_os.Syscall.Execute.{Machine, execute}
use unix_like_os.Syscall.Halt.{starts, selects, shell, switch_process}

-- The table with the process on top of terminal `u` as the one that runs.
abbrev pub shown : ℕ → Procs → Procs
shown u p = record p { current = (p.terminal_info u).top_process_id }

shown_or : {p : Procs} {u i : ℕ} → (i ≡ 0) ⊎ Live p i → (i ≡ 0) ⊎ Live (shown u p) i
shown_or (inl z) = inl z
shown_or (inr l) = inr (record { low = l.low; high = l.high; id = l.id })

shown-IsValid : (t u : ℕ) (p : Procs) → u < 3 → IsValid t p → IsValid u (shown u p)
shown-IsValid t u p h v = record {
  none_at_zero = v.none_at_zero;
  ids = λ i a b. elim (v.ids i a b) [
    | inl z ↦ inl z
    | inr l ↦ inr (record { low = l.low; high = l.high; id = l.id })
  ];
  counted = v.counted;
  on_screen = h;
  current_top = refl;
  top_live = λ w b. shown_or (v.top_live w b);
  parent_live =
      λ i l. shown_or (v.parent_live i (record { low = l.low; high = l.high; id = l.id }));
  one_child = λ i j a b.
      v.one_child i j (record { low = a.low; high = a.high; id = a.id })
        (record { low = b.low; high = b.high; id = b.id });
  top_leaf = λ w i b l. v.top_leaf w i b (record { low = l.low; high = l.high; id = l.id });
  tops_differ = v.tops_differ;
}

-- In a well-formed table, `switch_terminal` to terminal `u` makes the process on top of `u` the one that
-- runs, under its own page directory, and the table stays well formed. If `u` has no process, it starts
-- the shell from a well-formed table in which none runs.
pub switch_process_lem :
    (t u : ℕ) (m : Machine) (p : Procs) (g : Paging) (mem : ℕ → ℕ)
    → IsValid t p
    → u < 3
    → let top = (p.terminal_info u).top_process_id in
      IsValid u (shown u p)
      × (((top ≡ 0)
            × (switch_process u m p g mem
                ≡ (execute u m (some shell) (shown u p) g mem >>= λ e. some (starts e))))
          ⊎ (Live p top
              × (switch_process u m p g mem
                  ≡ some (selects (p.pcbs top).address (shown u p) (record g { cr3 = top - 1 })))))
unfolding switch_process
switch_process_lem t u m p g mem v h =
    let top = (p.terminal_info u).top_process_id in
    (
      shown-IsValid t u p h v,
      elim (v.top_live u h) [
        | inl z ↦
            let e : ((p.pcbs top).program_id == 0) ≡ true =
              (==_iff _ _).1 (ap (λ k. (p.pcbs k).program_id) z ∙ v.none_at_zero) in
            inl (z, rw e refl)
        | inr l ↦
            let e : ((p.pcbs top).program_id == 0) ≡ false =
              ==_ne _ _ (λ z. omega (arith, z, l.id, l.low)) in
            let d : sub32 (p.pcbs top).program_id 1 ≡ top - 1 =
              omega (arith, l.id, l.low, l.high) in
            inr (l, rw (e, d) refl)
      ],
    )
