-- ===== src/Terminal/SameLine.antt =====
-- The line buffers of student-distrib/terminal.c under the functions that show them.
use native.Mathlib.Decide.{dec_lt}
use unix_like_os.Base.{ℕ, zero, suc, ◌+◌, ◌<◌, ◌≤◌, ◌≡◌, refl, ◌∙◌, arith, ltb-true, ltb-false}
use unix_like_os.Terminal.{
  Terminal, here, at_curr, scroll, move_csr, settle, put_cell, putch, print_from, print_buffer,
}
use unix_like_os.Terminal.Line.{line}

-- the same terminal, with the same line buffers
pub record SameLine (s s' : Terminal) : Type 0 where
  pub curr : s'.curr_terminal ≡ s.curr_terminal
  pub buffer : s'.terminal_buffer ≡ s.terminal_buffer
  pub len : s'.buffer_len ≡ s.buffer_len

pub SameLine-trans : {a b c : Terminal} → SameLine a b → SameLine b c → SameLine a c
SameLine-trans p q = record {
  curr = q.curr ∙ p.curr;
  buffer = q.buffer ∙ p.buffer;
  len = q.len ∙ p.len;
}

scroll-SameLine : (s : Terminal) → SameLine s (scroll s)
unfolding scroll
scroll-SameLine s = ground arith

settle-SameLine : (s : Terminal) → SameLine s (settle s)
unfolding settle scroll move_csr
settle-SameLine s = ground arith

-- A visible character leaves the line buffers alone.
putch-SameLine : (c : ℕ) (s : Terminal) → 32 ≤ c → SameLine s (putch c s)
unfolding putch put_cell
putch-SameLine c s vis = ground (arith, settle-SameLine (put_cell c s))

-- The line buffer of the current terminal holds visible characters.
abbrev pub IsShowable : Terminal → Type 0
IsShowable s = (k : ℕ) → k < here s.buffer_len s → 32 ≤ line s k

pub SameLine-IsShowable : (s s' : Terminal) → SameLine s s' → IsShowable s → IsShowable s'
SameLine-IsShowable s s' p v = rw (p.curr, p.buffer, p.len) v

print_from-SameLine : (n i : ℕ) (s : Terminal) → IsShowable s → SameLine s (print_from n i s)
unfolding print_from
print_from-SameLine zero i s v = record { curr = refl; buffer = refl; len = refl }
print_from-SameLine (suc n) i s v = elim (dec_lt i (here s.buffer_len s)) [
  | yes p ↦
      let one = putch-SameLine (line s i) s (v i p) in
      rw (ltb-true i (here s.buffer_len s) p) (
        SameLine-trans one
          (print_from-SameLine n (i + 1) (putch (line s i) s) (SameLine-IsShowable s _ one v)))
  | no p ↦
      rw (ltb-false i (here s.buffer_len s) (omega arith))
        (record { curr = refl; buffer = refl; len = refl })
]

pub print_buffer-SameLine : (s : Terminal) → IsShowable s → SameLine s (print_buffer s)
unfolding print_buffer
print_buffer-SameLine s v =
    let s1 : Terminal = record s {
      csr_y = at_curr s.csr_y (here s.line_y s) s;
      csr_x = at_curr s.csr_x (here s.line_beginning s) s;
    } in
    let p = print_from-SameLine (here s.buffer_len s) 0 s1 v in
    record { curr = p.curr; buffer = p.buffer; len = p.len }
