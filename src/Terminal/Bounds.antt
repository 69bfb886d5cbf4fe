-- ===== src/Terminal/Bounds.antt =====
-- The operations of student-distrib/terminal.c that a caller sees, and the bounds of the screen.
use unix_like_os.Base.{
  ℕ, zero, suc, ◌+◌, ◌<◌, inl, inr, refl, true, Option, none, some, arith, ltb, Bool-cases,
}
use unix_like_os.Terminal.{
  Terminal, buff_len, rounds, here, blank, add_to_buffer, putch, print_from, print_buffer,
  clear_rows, clear_screen, write_from, terminal_write, read_line, swap_screen,
}
use unix_like_os.Terminal.Inv.{
  InScreen, SameBounds-InScreen, move_csr-InScreen, clear_buffer-InScreen, new_line-InScreen,
  line_y-InScreen, line_beginning-InScreen, cursor-InScreen,
}
use unix_like_os.Terminal.Putch.{putch-InScreen}

-- `add_to_buffer` keeps the bounds: a full buffer takes no character.
pub add_to_buffer-InScreen : (c : ℕ) (s : Terminal) → InScreen s → InScreen (add_to_buffer c s)
unfolding add_to_buffer
add_to_buffer-InScreen c s v = elim (Bool-cases (ltb (here s.buffer_len s) buff_len)) [
  | inr full ↦ rw full v
  | inl room ↦ rw room (record {
    on_screen = v.on_screen;
    x_in = v.x_in;
    y_in = v.y_in;
    line_in = v.line_in;
    start_in = v.start_in;
    len_in = λ t h. ground (arith, v.len_in t h);
  })
]

print_from-InScreen : (n i : ℕ) (s : Terminal) → InScreen s → InScreen (print_from n i s)
unfolding print_from
print_from-InScreen zero i s v = v
print_from-InScreen (suc n) i s v = elim (Bool-cases (ltb i (here s.buffer_len s))) [
  | inl go ↦ rw go (
      print_from-InScreen n (i + 1) (putch (s.terminal_buffer s.curr_terminal i) s)
        (putch-InScreen _ s v))
  | inr stop ↦ rw stop v
]

pub print_buffer-InScreen : (s : Terminal) → InScreen s → InScreen (print_buffer s)
unfolding print_buffer
print_buffer-InScreen s v =
    print_from-InScreen (here s.buffer_len s) 0 _
      (cursor-InScreen s _ _ (v.start_in _ v.on_screen) (v.line_in _ v.on_screen) v)

write_from-InScreen :
    (buf : ℕ → ℕ) (n i : ℕ) (s : Terminal) → InScreen s → InScreen (write_from buf n i s)
unfolding write_from
write_from-InScreen buf zero i s v = v
write_from-InScreen buf (suc n) i s v =
    write_from-InScreen buf n (i + 1) (putch (buf i) s) (putch-InScreen (buf i) s v)

-- `terminal_write` keeps the bounds, for every buffer and count, and returns the number of
-- characters that it was given, or -1 for a NULL buffer.
pub terminal_write-InScreen :
    (buf : Option (ℕ → ℕ)) (count : ℕ) (s : Terminal)
    → InScreen s
    → InScreen (terminal_write buf count s).1
unfolding terminal_write
terminal_write-InScreen none count s v = v
terminal_write-InScreen (some buf) count s v =
    let w = write_from-InScreen buf (rounds count) 0 s v in
    let b = line_beginning-InScreen _ _ (w.x_in _ w.on_screen) w in
    move_csr-InScreen _ (line_y-InScreen _ _ (w.y_in _ w.on_screen) b)

pub clear_screen-InScreen : (s : Terminal) → InScreen s → InScreen (clear_screen s)
unfolding clear_screen
clear_screen-InScreen s v =
    let a =
      SameBounds-InScreen s (record s { video = clear_rows (blank s) s.video })
        (refl, refl, refl, refl, refl, refl) v in
    let b = clear_buffer-InScreen _ a in
    move_csr-InScreen _
      (line_y-InScreen _ 0 (omega arith) (cursor-InScreen _ 0 0 (omega arith) (omega arith) b))

pub swap_screen-InScreen : (t : ℕ) (s : Terminal) → t < 3 → InScreen s → InScreen (swap_screen t s)
unfolding swap_screen
swap_screen-InScreen t s h v = move_csr-InScreen _ (record {
  on_screen = h;
  x_in = v.x_in;
  y_in = v.y_in;
  line_in = v.line_in;
  start_in = v.start_in;
  len_in = v.len_in;
})

pub read_line-InScreen :
    (count : ℕ) (buf : ℕ → ℕ) (s : Terminal) → InScreen s → InScreen (read_line count buf s).2
unfolding read_line
read_line-InScreen count buf s v = new_line-InScreen true s v
