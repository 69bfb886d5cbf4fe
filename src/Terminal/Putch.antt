-- ===== src/Terminal/Putch.antt =====
-- `putch` of student-distrib/terminal.c and the bounds of the screen.
use unix_like_os.Base.{
  ℕ, ◌+◌, ◌-◌, ◌*◌, ◌≤◌, inl, inr, sym, subst, Bool, true, false, arith, ◌==◌, leb, ltb, ◌||◌,
  if◌then◌else◌, Bool-cases,
}
use unix_like_os.Terminal.{
  Terminal, width, newline, ascii_backspace, page_size_4kb, video_mem, cell, here, at_curr, scroll,
  move_csr, new_line, settle, put_cell, putch,
}
use unix_like_os.Terminal.Inv.{
  InScreen, AtEdge, update-bound, move_csr-InScreen, scroll-InScreen, new_line-InScreen,
}

wrapped : Terminal → Terminal
wrapped s = record s { csr_x = at_curr s.csr_x 0 s; csr_y = at_curr s.csr_y (here s.csr_y s + 1) s }

wrapped-AtEdge : (s : Terminal) → AtEdge s 80 24 → AtEdge (wrapped s) 79 25
unfolding wrapped
wrapped-AtEdge s v = record {
  on_screen = v.on_screen;
  x_in = λ t h d. ground (arith, v.x_in t h);
  y_in = λ t h d. ground (arith, v.y_in t h);
  x_here = ground arith;
  y_here = ground (arith, v.y_here);
  line_in = v.line_in;
  start_in = v.start_in;
  len_in = v.len_in;
}

-- The end of `putch` brings a cursor at the edge back onto the screen.
settle-InScreen : (s : Terminal) → AtEdge s 80 24 → InScreen (settle s)
unfolding settle wrapped
settle-InScreen s v =
    let done = λ (b : Bool). InScreen (move_csr (scroll (if b then wrapped s else s))) in
    elim (Bool-cases (leb width (here s.csr_x s))) [
      | inl e ↦
          subst done (sym e)
            (move_csr-InScreen _ (scroll-InScreen (wrapped s) (wrapped-AtEdge s v)))
      | inr e ↦ subst done (sym e) (
          move_csr-InScreen _ (
            scroll-InScreen s (record {
              on_screen = v.on_screen;
              x_in = v.x_in;
              y_in = v.y_in;
              x_here = ground arith;
              y_here = omega (arith, v.y_here);
              line_in = v.line_in;
              start_in = v.start_in;
              len_in = v.len_in;
            })))
    ]

InScreen-AtEdge :
    (s : Terminal) (x : ℕ)
    → x ≤ 80
    → InScreen s
    → AtEdge (record s { csr_x = at_curr s.csr_x x s }) 80 24
InScreen-AtEdge s x le v = record {
  on_screen = v.on_screen;
  x_in = λ t h d. ground (arith, v.x_in t h);
  y_in = λ t h d. v.y_in t h;
  x_here = ground arith;
  y_here = omega (arith, v.y_in s.curr_terminal v.on_screen);
  line_in = v.line_in;
  start_in = v.start_in;
  len_in = v.len_in;
}

-- A terminal on the screen may be settled as it stands.
settled : (s : Terminal) → InScreen s → InScreen (settle s)
settled s v = settle-InScreen s (record {
  on_screen = v.on_screen;
  x_in = λ t h d. v.x_in t h;
  y_in = λ t h d. v.y_in t h;
  x_here = omega (arith, v.x_in s.curr_terminal v.on_screen);
  y_here = omega (arith, v.y_in s.curr_terminal v.on_screen);
  line_in = v.line_in;
  start_in = v.start_in;
  len_in = v.len_in;
})

put_cell-AtEdge : (c : ℕ) (s : Terminal) → InScreen s → AtEdge (put_cell c s) 80 24
unfolding put_cell
put_cell-AtEdge c s v =
    let e =
      InScreen-AtEdge s (here s.csr_x s + 1) (omega (arith, v.x_in s.curr_terminal v.on_screen))
        v in
    record {
      on_screen = e.on_screen;
      x_in = e.x_in;
      y_in = e.y_in;
      x_here = e.x_here;
      y_here = e.y_here;
      line_in = e.line_in;
      start_in = e.start_in;
      len_in = e.len_in;
    }

backed-InScreen :
    (s : Terminal)
    → InScreen s
    → InScreen (
        if here s.csr_x s == 0
        then s
        else record s { csr_x = at_curr s.csr_x (here s.csr_x s - 1) s })
backed-InScreen s v = elim (Bool-cases (here s.csr_x s == 0)) [
  | inl e ↦ rw e v
  | inr e ↦ rw e (record {
    on_screen = v.on_screen;
    x_in =
        update-bound s.csr_x s.curr_terminal (here s.csr_x s - 1) 80
          (omega (arith, v.x_in s.curr_terminal v.on_screen)) v.x_in;
    y_in = v.y_in;
    line_in = v.line_in;
    start_in = v.start_in;
    len_in = v.len_in;
  })
]

-- The two choices of `putch` that return without a change, and the one that writes.
printed : ℕ → Terminal → Bool → Bool → Terminal
printed c s far out = if far then s else if out then s else settle (put_cell c s)

printed-InScreen :
    (c : ℕ) (s : Terminal) (far out : Bool) → InScreen s → InScreen (printed c s far out)
unfolding printed
printed-InScreen c s true out v = v
printed-InScreen c s false true v = v
printed-InScreen c s false false v = settle-InScreen _ (put_cell-AtEdge c s v)

-- `putch` by the outcome of its tests, in their order
chosen : ℕ → Terminal → Bool → Bool → Bool → Bool → Terminal
chosen c s nl bs visible null =
    if nl
    then settle (new_line true s)
    else if bs
    then settle (
        if here s.csr_x s == 0
        then s
        else record s { csr_x = at_curr s.csr_x (here s.csr_x s - 1) s })
    else if visible
    then printed c s (leb page_size_4kb (cell s)) (
        leb (video_mem + page_size_4kb) (video_mem + 2 * cell s)
        || ltb (video_mem + 2 * cell s) video_mem)
    else if null
    then s
    else settle s

chosen-InScreen :
    (c : ℕ) (s : Terminal) (nl bs visible null : Bool)
    → InScreen s
    → InScreen (chosen c s nl bs visible null)
unfolding chosen
chosen-InScreen c s true bs visible null v = settled _ (new_line-InScreen true s v)
chosen-InScreen c s false true visible null v = settled _ (backed-InScreen s v)
chosen-InScreen c s false false true null v = printed-InScreen c s _ _ v
chosen-InScreen c s false false false true v = v
chosen-InScreen c s false false false false v = settled s v

-- `putch` keeps cursor, line and buffer of the terminals in their bounds, whatever the character.
pub putch-InScreen : (c : ℕ) (s : Terminal) → InScreen s → InScreen (putch c s)
unfolding putch chosen printed
putch-InScreen c s v =
    chosen-InScreen c s (c == newline) (c == ascii_backspace) (leb 0x20 c) (c == 0) v
