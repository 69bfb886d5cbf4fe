-- ===== src/Terminal/Inv.antt =====
-- The bounds of cursor, line and buffer of every terminal of student-distrib/terminal.c.
use unix_like_os.Base.{
  ℕ, ◌+◌, ◌<◌, ◌≤◌, ◌≡◌, ◌≢◌, inl, inr, refl, Bool, arith, leb, Bool-cases, update,
}
use native.Mathlib.Decide.{ℕ_discrete}
use unix_like_os.Terminal.{
  Terminal, height, here, at_curr, scroll, move_csr, new_line, clear_buffer,
}

pub record InScreen (s : Terminal) : Type 0 where
  pub on_screen : s.curr_terminal < 3
  pub x_in : (t : ℕ) → t < 3 → s.csr_x t < 80
  pub y_in : (t : ℕ) → t < 3 → s.csr_y t < 25
  pub line_in : (t : ℕ) → t < 3 → s.line_y t < 25
  pub start_in : (t : ℕ) → t < 3 → s.line_beginning t < 80
  pub len_in : (t : ℕ) → t < 3 → s.buffer_len t ≤ 128

-- The fields that the bounds are about.
abbrev pub SameBounds : Terminal → Terminal → Type 0
SameBounds s s' =
    (s'.curr_terminal ≡ s.curr_terminal)
    × (s'.csr_x ≡ s.csr_x)
    × (s'.csr_y ≡ s.csr_y)
    × (s'.line_y ≡ s.line_y)
    × (s'.line_beginning ≡ s.line_beginning)
    × (s'.buffer_len ≡ s.buffer_len)

pub SameBounds-InScreen : (s s' : Terminal) → SameBounds s s' → InScreen s → InScreen s'
SameBounds-InScreen s s' (c, x, y, l, b, n) v = record {
  on_screen = rw c v.on_screen;
  x_in = rw x v.x_in;
  y_in = rw y v.y_in;
  line_in = rw l v.line_in;
  start_in = rw b v.start_in;
  len_in = rw n v.len_in;
}

-- A write to one terminal's entry keeps a bound on all.
pub update-bound :
    (f : ℕ → ℕ) (c v n : ℕ)
    → v < n
    → ((t : ℕ) → t < 3 → f t < n)
    → (t : ℕ) → t < 3
    → update f c v t < n
update-bound f c v n h k t lt = ground (arith, k t lt)

module _ (s : Terminal) where
  pub move_csr-InScreen : InScreen s → InScreen (move_csr s)
  unfolding move_csr
  move_csr-InScreen v = SameBounds-InScreen s (move_csr s) (refl, refl, refl, refl, refl, refl) v

  pub clear_buffer-InScreen : InScreen s → InScreen (clear_buffer s)
  unfolding clear_buffer
  clear_buffer-InScreen v = record {
    on_screen = v.on_screen;
    x_in = v.x_in;
    y_in = v.y_in;
    line_in = v.line_in;
    start_in = v.start_in;
    len_in = λ t h. ground (arith, v.len_in t h);
  }

  -- As InScreen, but the current cursor may stand one row or one column past the screen.
  pub record AtEdge (x y : ℕ) : Type 0 where
    pub on_screen : s.curr_terminal < 3
    pub x_in : (t : ℕ) → t < 3 → t ≢ s.curr_terminal → s.csr_x t < 80
    pub y_in : (t : ℕ) → t < 3 → t ≢ s.curr_terminal → s.csr_y t < 25
    pub x_here : here s.csr_x s ≤ x
    pub y_here : here s.csr_y s ≤ y
    pub line_in : (t : ℕ) → t < 3 → s.line_y t < 25
    pub start_in : (t : ℕ) → t < 3 → s.line_beginning t < 80
    pub len_in : (t : ℕ) → t < 3 → s.buffer_len t ≤ 128

  pub scroll-InScreen : AtEdge 79 25 → InScreen (scroll s)
  unfolding scroll
  scroll-InScreen v = elim (Bool-cases (leb height (here s.csr_y s))) [
    | inl out ↦ rw out (record {
      on_screen = v.on_screen;
      x_in = λ t h. ground (arith, v.x_in t h);
      y_in = λ t h. ground (arith, v.y_in t h);
      line_in = λ t h. ground (arith, v.line_in t h);
      start_in = v.start_in;
      len_in = v.len_in;
    })
    | inr inside ↦ rw inside (record {
      on_screen = v.on_screen;
      x_in = λ t h. elim (ℕ_discrete t s.curr_terminal) [
        | yes e ↦ rw e (omega (arith, v.x_here))
        | no d ↦ v.x_in t h d
      ];
      y_in = λ t h. elim (ℕ_discrete t s.curr_terminal) [
        | yes e ↦ rw e (ground (arith, v.y_here))
        | no d ↦ v.y_in t h d
      ];
      line_in = v.line_in;
      start_in = v.start_in;
      len_in = v.len_in;
    })
  ]

pub next_row-AtEdge :
    (s : Terminal)
    → InScreen s
    → AtEdge
        (record s { csr_y = at_curr s.csr_y (here s.csr_y s + 1) s; csr_x = at_curr s.csr_x 0 s })
        79
        25
next_row-AtEdge s v = record {
  on_screen = v.on_screen;
  x_in = λ t h d. ground (arith, v.x_in t h);
  y_in = λ t h d. ground (arith, v.y_in t h);
  x_here = ground arith;
  y_here = ground (arith, v.y_in s.curr_terminal v.on_screen);
  line_in = v.line_in;
  start_in = v.start_in;
  len_in = v.len_in;
}

pub line_y-InScreen :
    (s : Terminal) (y : ℕ)
    → y < 25
    → InScreen s
    → InScreen (record s { line_y = at_curr s.line_y y s })
line_y-InScreen s y h v = record {
  on_screen = v.on_screen;
  x_in = v.x_in;
  y_in = v.y_in;
  line_in = update-bound s.line_y s.curr_terminal y 25 h v.line_in;
  start_in = v.start_in;
  len_in = v.len_in;
}

pub line_beginning-InScreen :
    (s : Terminal) (x : ℕ)
    → x < 80
    → InScreen s
    → InScreen (record s { line_beginning = at_curr s.line_beginning x s })
line_beginning-InScreen s x h v = record {
  on_screen = v.on_screen;
  x_in = v.x_in;
  y_in = v.y_in;
  line_in = v.line_in;
  start_in = update-bound s.line_beginning s.curr_terminal x 80 h v.start_in;
  len_in = v.len_in;
}

pub cursor-InScreen :
    (s : Terminal) (x y : ℕ)
    → x < 80
    → y < 25
    → InScreen s
    → InScreen (record s { csr_x = at_curr s.csr_x x s; csr_y = at_curr s.csr_y y s })
cursor-InScreen s x y hx hy v = record {
  on_screen = v.on_screen;
  x_in = update-bound s.csr_x s.curr_terminal x 80 hx v.x_in;
  y_in = update-bound s.csr_y s.curr_terminal y 25 hy v.y_in;
  line_in = v.line_in;
  start_in = v.start_in;
  len_in = v.len_in;
}

pub new_line-InScreen : (reset : Bool) (s : Terminal) → InScreen s → InScreen (new_line reset s)
unfolding new_line
new_line-InScreen reset s v =
    let s2-in = move_csr-InScreen _ (scroll-InScreen _ (next_row-AtEdge s v)) in
    let s3-in = line_y-InScreen _ _ (s2-in.y_in _ s2-in.on_screen) s2-in in
    elim (Bool-cases reset) [ inl e ↦ rw e (clear_buffer-InScreen _ s3-in) | inr e ↦ rw e s3-in ]
