-- ===== src/Klib/Console.antt =====
-- The output of student-distrib/lib.c on the screen of the boot: `clear`, `putc`, `test_interrupts`, and
-- `puts`, which writes to the terminal. `video_mem` is a function on the bytes from 0xB8000 on.
use unix_like_os.Base.{
  ℕ, ◌+◌, ◌*◌, ◌/◌, ◌%◌, ◌<◌, ◌≡◌, ◌≢◌, refl, ◌∙◌, false, Option, none, some, [], ◌∷◌, arith, Bytes,
  ◌==◌, if◌then◌else◌, ◌||◌, All, length, update, for_range,
}
use unix_like_os.Terminal.{Terminal, putch}

abbrev pub num_cols : ℕ
num_cols = 80

abbrev pub num_rows : ℕ
num_rows = 25

abbrev pub attrib : ℕ
attrib = 7

-- `screen_x`, `screen_y` and the screen memory
pub record Console : Type 0 where
  pub screen_x : ℕ
  pub screen_y : ℕ
  pub video_mem : ℕ → ℕ

unfoldable pub clear : Console → Console
clear s = record s {
  video_mem =
      for_range (num_rows * num_cols) 0 (λ i v. update (update v (2 * i) 32) (2 * i + 1) attrib)
        s.video_mem;
}

unfoldable pub putc : ℕ → Console → Console
putc c s =
    let at = 2 * (num_cols * s.screen_y + s.screen_x) in
    let x = (s.screen_x + 1) % num_cols in
    if (c == 10) || (c == 13)
    then record s { screen_y = s.screen_y + 1; screen_x = 0 }
    else record s {
      video_mem = update (update s.video_mem at c) (at + 1) attrib;
      screen_x = x;
      screen_y = (s.screen_y + x / num_cols) % num_rows;
    }

unfoldable pub test_interrupts : Console → Console
test_interrupts s = record s {
  video_mem =
      for_range (num_rows * num_cols) 0 (λ i v. update v (2 * i) ((v (2 * i) + 1) % 256))
        s.video_mem;
}

-- `puts`, with the index from `index` on: the result and the terminal
unfoldable pub puts_from : Bytes → ℕ → Terminal → Option (ℕ × Terminal)
unfolding putch
puts_from [] index t = none
puts_from (c ∷ s) index t = if c == 0 then some (index, t) else puts_from s (index + 1) (putch c t)

unfoldable pub puts : Bytes → Terminal → Option (ℕ × Terminal)
unfolding puts_from
puts s t = puts_from s 0 t

-- a text that `putc` writes character by character
abbrev pub putc_all : Bytes → Console → Console
unfolding putc
putc_all [] s = s
putc_all (c ∷ cs) s = putc_all cs (putc c s)

putc_row :
    (c : ℕ) (s : Console)
    → (c ≢ 10) × (c ≢ 13)
    → s.screen_y < 25
    → ((putc c s).screen_y ≡ s.screen_y) × ((putc c s).screen_x ≡ (s.screen_x + 1) % 80)
unfolding putc
putc_row c s h y =
    let plain : ((c == 10) || (c == 13)) ≡ false = ground (arith, h.0, h.1) in
    rw plain (omega (arith, y), refl)

-- A text without an end of line never leaves its row, however long it is: `putc` starts the row again
-- where it should go on to the next.
pub putc_all_row :
    (text : Bytes) (s : Console)
    → All (λ c. (c ≢ 10) × (c ≢ 13)) text
    → s.screen_y < 25
    → s.screen_x < 80
    → ((putc_all text s).screen_y ≡ s.screen_y)
      × ((putc_all text s).screen_x ≡ (s.screen_x + length text) % 80)
unfolding putc
putc_all_row [] s h y x = (refl, omega arith)
putc_all_row (c ∷ text) s (h, hs) y x =
    let (same_row, next) = putc_row c s h y in
    let (row, column) =
      putc_all_row text (putc c s) hs (omega (arith, same_row, y)) (omega (arith, next)) in
    (row ∙ same_row, omega (arith, column, next))
