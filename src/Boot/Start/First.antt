-- ===== src/Boot/Start/First.antt =====
-- The process table that the boot in student-distrib/kernel.c leaves, and the first process.
use unix_like_os.Base.{
  ℕ, zero, suc, ◌<◌, ◌≡◌, inl, ap, refl, sym, ◌∙◌, some, arith, for_range-update,
}
use unix_like_os.Proc.{Pcb, Procs, TerminalInfo, null_pcb, terminal_init}
use unix_like_os.Proc.Inv.{Live, IsValid, live_count}
use unix_like_os.Syscall.Execute.{start_process}
use unix_like_os.Syscall.Tree.{start_process_first-IsValid}
use unix_like_os.Boot.Start.{Board, Kernel, start_kernel}

-- Every block is free, and no process runs: how the memory of the kernel starts.
pub record AllFree (p : Procs) : Type 0 where
  pub free : (i : ℕ) → (p.pcbs i).program_id ≡ 0
  pub nobody : p.current ≡ null_pcb

no_Live : (p : Procs) (i : ℕ) → ((k : ℕ) → (p.pcbs k).program_id ≡ 0) → Live p i → ⊥
no_Live p i free l = omega (arith, l.low, l.id, free i)

live_count-free : (f : ℕ → Pcb) (n : ℕ) → ((k : ℕ) → (f k).program_id ≡ 0) → live_count f n ≡ 0
unfolding live_count
live_count-free f zero free = refl
live_count-free f (suc n) free = rw (live_count-free f n free, free (suc n)) refl

terminal_init-none :
    (p : Procs) (t : ℕ) → t < 3 → ((terminal_init p).terminal_info t).top_process_id ≡ 0
unfolding terminal_init
terminal_init-none p t h =
    ap (λ (k : TerminalInfo). k.top_process_id)
      ((for_range-update (λ _. record { top_process_id = 0; num_process = 0 }) p.terminal_info 3).0
        t h)

AllFree-IsValid :
    (p : Procs)
    → ((k : ℕ) → (p.pcbs k).program_id ≡ 0)
    → p.process_number ≡ 0
    → p.current ≡ 0
    → ((t : ℕ) → t < 3 → (p.terminal_info t).top_process_id ≡ 0)
    → IsValid 0 p
AllFree-IsValid p free none_yet here tops = record {
  none_at_zero = free 0;
  ids = λ i a b. inl (free i);
  counted = none_yet ∙ sym (live_count-free p.pcbs 6 free);
  on_screen = omega arith;
  current_top = here ∙ sym (tops 0 (omega arith));
  top_live = λ t h. inl (tops t h);
  parent_live = λ i l. absurd (no_Live p i free l);
  one_child = λ i j a b c d. absurd (no_Live p i free a);
  top_leaf = λ t i h l nz. absurd (no_Live p i free l);
  tops_differ = λ t u a b ne nz. absurd (nz (tops t a));
}

-- The kernel that starts with every block free: behind the initialisation the first `execute` makes a process with
-- no parent, which runs, and the table of processes is then well formed.
pub start_kernel-start_process :
    (b : Board) (k : Kernel)
    → AllFree k.procs
    → let p = (start_kernel b k).procs in
      (n : ℕ) × (q : Procs) × (start_process 0 p ≡ some (n, q))
      × IsValid 0 q
      × Live q n
      × (q.current ≡ n)
      × ((q.pcbs n).parent_id ≡ 0)
unfolding start_kernel
start_kernel-start_process b k a =
    let p = (start_kernel b k).procs in
    let v =
      AllFree-IsValid (record p { current = 0 }) a.free refl refl
        (λ t h. terminal_init-none k.procs t h) in
    let (n, q, e, fresh, w, live, cur, par) =
      start_process_first-IsValid 0 p a.nobody v (omega arith) in
    (n, q, e, w, live, cur, par)
