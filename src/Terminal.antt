-- ===== src/Terminal.antt =====
-- The terminals of student-distrib/terminal.c behind `terminal_open`, which sets `terminal_ptr` to VIDEO_MEM: cursor, line buffer and screen of each of the three.
-- Arrays over the terminals and over screen cells are functions on indices. `video` is the screen
-- memory at `terminal_ptr`, that is at VIDEO_MEM, by 16-bit cells; `saved` is the memory that keeps
-- the screens of the other terminals; `ports` logs what `outb` writes, port and byte, the last first.
pub mod Scroll
pub mod Inv
pub mod Putch
pub mod Bounds
pub mod Write
pub mod Line
pub mod Switch
pub mod Display
pub mod SameLine
pub mod Editing
use unix_like_os.Base.{
  ℕ, zero, suc, ◌+◌, ◌-◌, ◌*◌, ◌/◌, ◌%◌, ◌^◌, ◌<◌, ◌≤◌, min, ◌≡◌, ◌≢◌, ◌⊎◌, ◌↔◌, inl, inr, ap, ap₂,
  refl, sym, ◌∙◌, fun_ext, subst, Bool, true, false, Option, none, some, List, [], ◌∷◌, ◌++◌, map,
  reverse, append-nil, append_assoc, arith, Bytes, ◌==◌, ltb, leb, if◌then◌else◌, ◌>>=◌, add32,
  sub32, minus_one, slt, sext8, ◌||◌, ◌&&◌, not, Bool-cases, All, length, get_elem?, get_or, set,
  replicate, update, update_self, update-ne, length-append, length-set, get_elem?-eq-get_or,
  get_or-set_self, get_or-set_ne, get_or_ext, for_range, for_range_inv, for_range-update,
  bit_or-zero, bit_or_disjoint, all_below, all_below_sound, ==_iff, ==_refl, ==_ne, ltb-true,
  ltb-false,
}
use Prim.Native.Nat.{bit_or}

abbrev pub height : ℕ
height = 25

abbrev pub width : ℕ
width = 80

abbrev pub buff_len : ℕ
buff_len = 128

abbrev pub max_terminals : ℕ
max_terminals = 3

abbrev pub video_mem : ℕ
video_mem = 0xB8000

abbrev pub page_size_4kb : ℕ
page_size_4kb = 0x1000

abbrev pub newline : ℕ
newline = 10

abbrev pub ascii_backspace : ℕ
ascii_backspace = 0x08

pub record Terminal : Type 0 where
  pub curr_terminal : ℕ
  pub attrib : ℕ
  pub terminal_buffer : ℕ → ℕ → ℕ
  pub buffer_len : ℕ → ℕ
  pub csr_x : ℕ → ℕ
  pub csr_y : ℕ → ℕ
  pub line_y : ℕ → ℕ
  pub line_beginning : ℕ → ℕ
  pub video : ℕ → ℕ
  pub saved : ℕ → ℕ → ℕ
  pub ports : List (ℕ × ℕ)
  -- the interrupt flag of the processor
  pub interrupts : Bool

-- what an array holds for the current terminal, and a write to it
abbrev pub here : (ℕ → ℕ) → Terminal → ℕ
here f s = f s.curr_terminal

abbrev pub at_curr : (ℕ → ℕ) → ℕ → Terminal → ℕ → ℕ
at_curr f v s = update f s.curr_terminal v

-- the character cell of a space in the current color
abbrev pub blank : Terminal → ℕ
blank s = bit_or 0x20 (s.attrib * 2 ^ 8) % 2 ^ 16

unfoldable pub move_csr : Terminal → Terminal
move_csr s =
    let loc = here s.csr_y s * width + here s.csr_x s in
    record s {
      ports = (0x3D5, loc % 256) ∷ (0x3D4, 15) ∷ (0x3D5, loc / 2 ^ 8 % 256) ∷ (0x3D4, 14) ∷ s.ports;
    }

-- the two nested loops of `scroll`, and the one that blanks the last row
unfoldable pub move_rows : (ℕ → ℕ) → ℕ → ℕ
move_rows =
    for_range (height - 1) 0
      (λ i v. for_range width 0 (λ j w. update w (i * width + j) (w ((i + 1) * width + j))) v)

unfoldable pub blank_row : ℕ → (ℕ → ℕ) → ℕ → ℕ
blank_row b = for_range width 0 (λ j v. update v ((height - 1) * width + j) b)

unfoldable pub scroll : Terminal → Terminal
scroll s =
    if leb height (here s.csr_y s)
    then record s {
      video = blank_row (blank s) (move_rows s.video);
      csr_y = at_curr s.csr_y (height - 1) s;
      line_y = at_curr s.line_y (height - 2) s;
      csr_x = at_curr s.csr_x 0 s;
      interrupts = true;
    }
    else record s { interrupts = true }

unfoldable pub clear_buffer : Terminal → Terminal
clear_buffer s = record s {
  terminal_buffer =
      update s.terminal_buffer s.curr_terminal
        (for_range buff_len 0 (λ i b. update b i 0) (s.terminal_buffer s.curr_terminal));
  buffer_len = at_curr s.buffer_len 0 s;
}

unfoldable pub new_line : Bool → Terminal → Terminal
unfolding scroll move_csr clear_buffer
new_line reset s =
    let s1 = record s {
      csr_y = at_curr s.csr_y (here s.csr_y s + 1) s;
      csr_x = at_curr s.csr_x 0 s;
    } in
    let s2 = move_csr (scroll s1) in
    let s3 = record s2 { line_y = at_curr s2.line_y (here s2.csr_y s2) s2 } in
    if reset then clear_buffer s3 else s3

unfoldable pub add_to_buffer : ℕ → Terminal → Terminal
add_to_buffer c s =
    let len = here s.buffer_len s in
    if ltb len buff_len
    then record s {
      terminal_buffer =
          update s.terminal_buffer s.curr_terminal
            (update (s.terminal_buffer s.curr_terminal) len c);
      buffer_len = at_curr s.buffer_len ((len + 1) % 2 ^ 16) s;
    }
    else s

-- `memset_word(terminal_ptr + i * WIDTH, blank, WIDTH)` for each row
unfoldable pub clear_rows : ℕ → (ℕ → ℕ) → ℕ → ℕ
clear_rows b = for_range height 0 (λ i v. for_range width 0 (λ j w. update w (i * width + j) b) v)

unfoldable pub clear_screen : Terminal → Terminal
unfolding clear_rows clear_buffer move_csr
clear_screen s =
    let s1 = clear_buffer (record s { video = clear_rows (blank s) s.video }) in
    move_csr (record s1 {
      csr_x = at_curr s1.csr_x 0 s1;
      csr_y = at_curr s1.csr_y 0 s1;
      line_y = at_curr s1.line_y 0 s1;
    })

-- the end of `putch`: to the next line at the edge, scroll, move the cursor
unfoldable pub settle : Terminal → Terminal
unfolding scroll move_csr
settle s =
    let s1 =
      if leb width (here s.csr_x s)
      then record s { csr_x = at_curr s.csr_x 0 s; csr_y = at_curr s.csr_y (here s.csr_y s + 1) s }
      else s in
    move_csr (scroll s1)

-- the cell that a printable character is written to
abbrev pub cell : Terminal → ℕ
cell s = here s.csr_y s * width + here s.csr_x s

unfoldable pub put_cell : ℕ → Terminal → Terminal
put_cell c s = record s {
  video = update s.video (cell s) (bit_or c (s.attrib * 2 ^ 8) % 2 ^ 16);
  csr_x = at_curr s.csr_x (here s.csr_x s + 1) s;
}

unfoldable pub putch : ℕ → Terminal → Terminal
unfolding new_line settle put_cell
putch c s =
    if c == newline
    then settle (new_line true s)
    else if c == ascii_backspace
    then settle (
        if here s.csr_x s == 0
        then s
        else record s { csr_x = at_curr s.csr_x (here s.csr_x s - 1) s })
    else if leb 0x20 c
    then (if leb page_size_4kb (cell s)
        then s
        else if leb (video_mem + page_size_4kb) (video_mem + 2 * cell s)
            || ltb (video_mem + 2 * cell s) video_mem
        then s
        else settle (put_cell c s))
    else if c == 0
    then s
    else settle s

-- the loop of `print_buffer`, with the rounds left; the length is read again in each
unfoldable pub print_from : ℕ → ℕ → Terminal → Terminal
print_from zero i s = s
print_from (suc n) i s =
    let rest = print_from n (i + 1) (putch (s.terminal_buffer s.curr_terminal i) s) in
    if ltb i (here s.buffer_len s) then rest else s

unfoldable pub print_buffer : Terminal → Terminal
unfolding print_from
print_buffer s = print_from (here s.buffer_len s) 0 (record s {
  csr_y = at_curr s.csr_y (here s.line_y s) s;
  csr_x = at_curr s.csr_x (here s.line_beginning s) s;
})

unfoldable pub backspace : Terminal → Terminal
backspace s =
    let len = here s.buffer_len s in
    let s1 = print_buffer (record s {
      terminal_buffer =
          update s.terminal_buffer s.curr_terminal
            (update (s.terminal_buffer s.curr_terminal) (len - 1) 0x20);
    }) in
    if ltb 0 len
    then move_csr (record s1 {
      buffer_len = at_curr s1.buffer_len ((here s1.buffer_len s1 + 2 ^ 16 - 1) % 2 ^ 16) s1;
    })
    else s

-- the loop of `terminal_write`
unfoldable pub write_from : (ℕ → ℕ) → ℕ → ℕ → Terminal → Terminal
write_from buf zero i s = s
write_from buf (suc n) i s = write_from buf n (i + 1) (putch (buf i) s)

-- the rounds of `for (i = 0; i < count; i++)` for an `int32_t` count
abbrev pub rounds : ℕ → ℕ
rounds count = if slt 0 count then count else 0

-- `terminal_write`; `none` is a NULL buffer
unfoldable pub terminal_write : Option (ℕ → ℕ) → ℕ → Terminal → ℕ × Terminal
unfolding write_from move_csr
terminal_write none count s = (minus_one, s)
terminal_write (some buf) count s =
    let s1 = write_from buf (rounds count) 0 s in
    (
      rounds count,
      move_csr (record s1 {
        line_beginning = at_curr s1.line_beginning (here s1.csr_x s1) s1;
        line_y = at_curr s1.line_y (here s1.csr_y s1) s1;
      }),
    )

-- the loop of `terminal_read` from index `i` on: where it stops, and the caller's buffer
unfoldable pub read_from : (ℕ → ℕ) → ℕ → ℕ → ℕ → (ℕ → ℕ) → ℕ × (ℕ → ℕ)
read_from line zero count i buf = (i, buf)
read_from line (suc n) count i buf =
    let rest = read_from line n count (i + 1) (update buf i (line i)) in
    if slt i count && not (line i == 0) && not (line i == newline) then rest else (i, buf)

-- `terminal_read` behind its wait: the result, the caller's buffer, and the terminal
unfoldable pub read_line : ℕ → (ℕ → ℕ) → Terminal → ℕ × (ℕ → ℕ) × Terminal
unfolding read_from new_line
read_line count buf s =
    let (i, buf') = read_from (s.terminal_buffer s.curr_terminal) buff_len count 0 buf in
    (i + 1, update buf' i newline, new_line true s)

-- `switch_terminal` up to the change of process: the two copies of 4 KB, and the cursor
unfoldable pub swap_screen : ℕ → Terminal → Terminal
unfolding move_csr
swap_screen t s =
    let saved' =
      update s.saved s.curr_terminal
        (λ k. if ltb k 2048 then s.video k else s.saved s.curr_terminal k) in
    move_csr (record s {
      saved = saved';
      video = λ k. if ltb k 2048 then saved' t k else s.video k;
      curr_terminal = t;
    })

-- `terminal_open`, but for `keyboard_init`
unfoldable pub terminal_open : Terminal → Terminal
unfolding clear_screen
terminal_open s =
    let zeroed = for_range max_terminals 0 (λ i f. update f i 0) in
    let s1 = clear_screen (record s {
      attrib = 0xF;
      curr_terminal = 0;
      line_beginning = zeroed s.line_beginning;
      csr_x = zeroed s.csr_x;
      csr_y = zeroed s.csr_y;
      line_y = zeroed s.line_y;
    }) in
    record s1 {
      saved =
          update (update s1.saved 1 (λ k. if ltb k 2048 then blank s1 else s1.saved 1 k)) 2
            (λ k. if ltb k 2048 then blank s1 else s1.saved 2 k);
    }

unfoldable pub terminal_close : ℕ
terminal_close = 0
