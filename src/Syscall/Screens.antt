-- ===== src/Syscall/Screens.antt =====
-- The whole of `switch_terminal` of student-distrib/terminal.c: the screens and the processes.
use unix_like_os.Base.{
  ℕ, ◌-◌, ◌<◌, ◌≡◌, ◌≢◌, ◌⊎◌, inl, inr, ap, refl, ◌∙◌, Option, none, some, ◌==◌, if◌then◌else◌,
  ◌>>=◌, ==_iff, ==_ne,
}
use unix_like_os.Terminal.{Terminal, swap_screen}
use unix_like_os.Terminal.Inv.{InScreen}
use unix_like_os.Terminal.Bounds.{swap_screen-InScreen}
use unix_like_os.Terminal.Switch.{swap_screen_lem}
use unix_like_os.Proc.{Procs}
use unix_like_os.Proc.Inv.{Live, IsValid}
use unix_like_os.Paging.{Paging}
use unix_like_os.Syscall.Execute.{Machine, Ended, execute}
use unix_like_os.Syscall.Halt.{Switched, starts, selects, shell, switch_process}
use unix_like_os.Syscall.Switch.{shown, switch_process_lem}

-- `switch_terminal(u)`: the terminals, and what becomes of the process, if it is another terminal
unfoldable pub switch_terminal :
    ℕ → Machine → Terminal → Procs → Paging → (ℕ → ℕ) → Option (Terminal × Option Switched)
unfolding swap_screen switch_process
switch_terminal u m s p g mem =
    if u == s.curr_terminal
    then some (s, none)
    else (switch_process u m p g mem >>= λ w. some (swap_screen u s, some w))

-- a change of terminal with what becomes of the process
abbrev with_screen : ℕ → Terminal → Option Switched → Option (Terminal × Option Switched)
with_screen u s r = r >>= λ w. some (swap_screen u s, some w)

other_terminal :
    (u : ℕ) (m : Machine) (s : Terminal) (p : Procs) (g : Paging) (mem : ℕ → ℕ)
    → u ≢ s.curr_terminal
    → switch_terminal u m s p g mem ≡ with_screen u s (switch_process u m p g mem)
unfolding switch_terminal
other_terminal u m s p g mem ne =
    ap (λ b. if b then some (s, none) else with_screen u s (switch_process u m p g mem))
      (==_ne u s.curr_terminal ne)

current_lem : (u : ℕ) (s : Terminal) → (swap_screen u s).curr_terminal ≡ u
unfolding swap_screen
current_lem u s = refl

started :
    (u : ℕ) (s : Terminal) (x : Option Ended)
    → with_screen u s (x >>= λ e. some (starts e))
      ≡ (x >>= λ e. some (swap_screen u s, some (starts e)))
started u s none = refl
started u s (some e) = refl

-- What a switch to another terminal comes to.
pub record SwitchedTo (u : ℕ) (m : Machine) (s : Terminal) (p : Procs) (g : Paging) (mem : ℕ → ℕ)
    (r : Option (Terminal × Option Switched)) : Type 0 where
  pub in_screen : InScreen (swap_screen u s)
  pub current : (swap_screen u s).curr_terminal ≡ u
  pub table : IsValid u (shown u p)
  pub now : (k : ℕ) → k < 2048 → (swap_screen u s).video k ≡ s.saved u k
  pub kept : (k : ℕ) → k < 2048 → (swap_screen u s).saved s.curr_terminal k ≡ s.video k
  pub others : (t k : ℕ) → t ≢ s.curr_terminal → (swap_screen u s).saved t k ≡ s.saved t k
  pub process :
      let top = (p.terminal_info u).top_process_id in
      ((top ≡ 0)
        × (r ≡ (
            execute u m (some shell) (shown u p) g mem >>= λ e.
            some (swap_screen u s, some (starts e)))))
      ⊎ (Live p top
          × (r
              ≡ some (
                swap_screen u s,
                some (selects (p.pcbs top).address (shown u p) (record g { cr3 = top - 1 })),
              )))

-- In a well-formed process table, and with cursor and line of every terminal in their bounds, `switch_terminal` to the
-- terminal that is shown changes nothing. For another one of the three, the screen that was left is kept and the 4 KB
-- kept for the new one are shown, those kept for the other terminals stay, and the bounds hold; the process on top of
-- the new terminal becomes `current_pcb`, with its page directory in cr3 and its kernel stack in the TSS, or, if the
-- terminal has none, the result is that of `execute` of the shell, whatever this is, called by the empty block 0; and the
-- process table that this starts from is well formed for the terminal that is now shown.
pub switch_terminal_lem :
    (u : ℕ) (m : Machine) (s : Terminal) (p : Procs) (g : Paging) (mem : ℕ → ℕ)
    → InScreen s
    → IsValid s.curr_terminal p
    → u < 3
    → let r = switch_terminal u m s p g mem in
      (u ≡ s.curr_terminal → r ≡ some (s, none))
      × (u ≢ s.curr_terminal → SwitchedTo u m s p g mem r)
unfolding switch_terminal
switch_terminal_lem u m s p g mem v w h = (
  λ e.
      ap (λ b. if b then some (s, none) else with_screen u s (switch_process u m p g mem))
        ((==_iff u s.curr_terminal).1 e),
  λ ne.
      let (now, kept, others) = swap_screen_lem u s ne in
      let (table, process) = switch_process_lem s.curr_terminal u m p g mem w h in
      let other = other_terminal u m s p g mem ne in
      record {
        in_screen = swap_screen-InScreen u s h v;
        current = current_lem u s;
        table = table;
        now = now;
        kept = kept;
        others = others;
        process = elim process [
          | inl (z, e) ↦ inl (z, other ∙ ap (with_screen u s) e ∙ started u s _)
          | inr (l, e) ↦ inr (l, other ∙ ap (with_screen u s) e)
        ];
      },
)
