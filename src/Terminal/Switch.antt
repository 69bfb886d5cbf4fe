-- ===== src/Terminal/Switch.antt =====
-- The copies of the screens in `switch_terminal` of student-distrib/terminal.c.
use unix_like_os.Base.{ℕ, ◌<◌, ◌≡◌, ◌≢◌, ap, refl, sym, ◌∙◌, arith}
use unix_like_os.Terminal.{Terminal, swap_screen, move_csr}

-- Leaving terminal `s.curr_terminal` for `b`, whatever `b` then does to the screen, and coming back
-- shows the 4 KB of the first screen as they were left, and keeps what `b` had on the screen.
pub swap_screen_back :
    (b : ℕ) (s s' : Terminal)
    → b ≢ s.curr_terminal
    → s'.curr_terminal ≡ b
    → s'.saved ≡ (swap_screen b s).saved
    → let back = swap_screen s.curr_terminal s' in
      ((k : ℕ) → k < 2048 → back.video k ≡ s.video k)
      × ((k : ℕ) → k < 2048 → back.saved b k ≡ s'.video k)
      × (back.curr_terminal ≡ s.curr_terminal)
unfolding swap_screen move_csr
swap_screen_back b s s' ne at kept =
    let other : s.curr_terminal ≢ s'.curr_terminal = λ e. ne (sym (e ∙ at)) in
    let left : (k : ℕ) → k < 2048 → s'.saved s.curr_terminal k ≡ s.video k =
      λ k h. ap (λ (f : ℕ → ℕ → ℕ). f s.curr_terminal k) kept ∙ ground arith in
    (λ k h. ground (arith, left k h), λ k h. ground (arith, at), refl)

-- A switch to another terminal `b` shows the 4 KB that were kept for it, and keeps the screen that
-- was left; what is kept for the other terminals stays.
pub swap_screen_lem :
    (b : ℕ) (s : Terminal)
    → b ≢ s.curr_terminal
    → let s' = swap_screen b s in
      ((k : ℕ) → k < 2048 → s'.video k ≡ s.saved b k)
      × ((k : ℕ) → k < 2048 → s'.saved s.curr_terminal k ≡ s.video k)
      × ((t k : ℕ) → t ≢ s.curr_terminal → s'.saved t k ≡ s.saved t k)
unfolding swap_screen move_csr
swap_screen_lem b s ne = (λ k h. ground arith, λ k h. ground arith, λ t k h. ground arith)
