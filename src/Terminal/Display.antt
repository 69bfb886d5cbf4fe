-- ===== src/Terminal/Display.antt =====
-- What `putch` of student-distrib/terminal.c shows depends on the display alone: on the screen, the cursors, the colour
-- and the number of the terminal.
use unix_like_os.Base.{
  ℕ, zero, suc, ◌+◌, ◌-◌, ◌*◌, ◌^◌, ◌<◌, ◌≡◌, ap, ap₂, refl, sym, ◌∙◌, fun_ext, Bool, true, false,
  some, [], ◌∷◌, ◌++◌, arith, Bytes, ◌==◌, leb, if◌then◌else◌,
}
use unix_like_os.Terminal.{
  Terminal, here, at_curr, cell, move_csr, scroll, clear_buffer, new_line, settle, put_cell, putch,
  newline, ascii_backspace, page_size_4kb, video_mem, write_from, terminal_write, rounds,
}
use unix_like_os.Klib.Format.Emit.{emit, emit-append}
use unix_like_os.User.{first_bytes}

pub record Display : Type 0 where
  pub curr_terminal : ℕ
  pub attrib : ℕ
  pub csr_x : ℕ → ℕ
  pub csr_y : ℕ → ℕ
  pub video : ℕ → ℕ

unfoldable pub display : Terminal → Display
display s = record {
  curr_terminal = s.curr_terminal;
  attrib = s.attrib;
  csr_x = s.csr_x;
  csr_y = s.csr_y;
  video = s.video;
}

-- a terminal with a display, and nothing else
unfoldable pub bare : Display → Terminal
bare d = record {
  curr_terminal = d.curr_terminal;
  attrib = d.attrib;
  terminal_buffer = λ _ _. 0;
  buffer_len = λ _. 0;
  csr_x = d.csr_x;
  csr_y = d.csr_y;
  line_y = λ _. 0;
  line_beginning = λ _. 0;
  video = d.video;
  saved = λ _ _. 0;
  ports = [];
  interrupts = false;
}

display-bare : (d : Display) → display (bare d) ≡ d
unfolding display bare
display-bare d = refl

-- What `f` shows depends on the display alone.
abbrev ByDisplay : (Terminal → Terminal) → Type 0
ByDisplay f = (s : Terminal) → display (f s) ≡ display (f (bare (display s)))

∘-ByDisplay : (f g : Terminal → Terminal) → ByDisplay f → ByDisplay g → ByDisplay (λ s. g (f s))
∘-ByDisplay f g hf hg s =
    hg (f s) ∙ ap (λ d. display (g (bare d))) (hf s) ∙ sym (hg (f (bare (display s))))

module _ (s : Terminal) where
  move_csr-display : display (move_csr s) ≡ display s
  unfolding move_csr display
  move_csr-display = refl

scroll-ByDisplay : ByDisplay scroll
unfolding scroll display bare
scroll-ByDisplay s = ground arith

new_line-ByDisplay : ByDisplay (new_line true)
unfolding new_line display bare move_csr clear_buffer scroll
new_line-ByDisplay s = ground arith

settle-ByDisplay : ByDisplay settle
unfolding settle display bare move_csr scroll
settle-ByDisplay s = ground arith

put_cell-ByDisplay : (c : ℕ) → ByDisplay (put_cell c)
unfolding put_cell display bare
put_cell-ByDisplay c s = refl

backed : Terminal → Terminal
backed s =
    if here s.csr_x s == 0 then s else record s { csr_x = at_curr s.csr_x (here s.csr_x s - 1) s }

backed-ByDisplay : ByDisplay backed
unfolding backed display bare
backed-ByDisplay s = ground arith

-- `putch` by the outcome of its tests, in their order
chosen : ℕ → (newline_ back visible far out null : Bool) → Terminal → Terminal
chosen c true back visible far out null s = settle (new_line true s)
chosen c false true visible far out null s = settle (backed s)
chosen c false false true true out null s = s
chosen c false false true false true null s = s
chosen c false false true false false null s = settle (put_cell c s)
chosen c false false false far out true s = s
chosen c false false false far out false s = settle s

chosen-ByDisplay : (c : ℕ) (n b v f o z : Bool) → ByDisplay (chosen c n b v f o z)
unfolding chosen
chosen-ByDisplay c true b v f o z =
    ∘-ByDisplay (new_line true) settle new_line-ByDisplay settle-ByDisplay
chosen-ByDisplay c false true v f o z = ∘-ByDisplay backed settle backed-ByDisplay settle-ByDisplay
chosen-ByDisplay c false false true true o z = λ s. sym (display-bare (display s))
chosen-ByDisplay c false false true false true z = λ s. sym (display-bare (display s))
chosen-ByDisplay c false false true false false z =
    ∘-ByDisplay (put_cell c) settle (put_cell-ByDisplay c) settle-ByDisplay
chosen-ByDisplay c false false false f o true = λ s. sym (display-bare (display s))
chosen-ByDisplay c false false false f o false = settle-ByDisplay

putch-chosen :
    (c : ℕ) (s : Terminal)
    → putch c s
      ≡ chosen c
          (c == newline)
          (c == ascii_backspace)
          (leb 0x20 c)
          (leb page_size_4kb (cell s))
          (leb (video_mem + page_size_4kb) (video_mem + 2 * cell s))
          (c == 0)
          s
unfolding putch chosen backed
putch-chosen c s = ground arith

putch-ByDisplay : (c : ℕ) → ByDisplay (putch c)
unfolding display bare
putch-ByDisplay c s =
    ap display (putch-chosen c s)
    ∙ chosen-ByDisplay c _ _ _ _ _ _ s
    ∙ ap display (sym (putch-chosen c (bare (display s))))

emit-ByDisplay : (text : Bytes) → ByDisplay (emit text)
unfolding emit
emit-ByDisplay [] s = sym (display-bare (display s))
emit-ByDisplay (c ∷ text) s =
    ∘-ByDisplay (putch c) (emit text) (putch-ByDisplay c) (emit-ByDisplay text) s

-- the display after the characters of a text, one after the other
unfoldable pub shown : Bytes → Display → Display
shown text d = display (emit text (bare d))

pub emit-shown : (text : Bytes) (s : Terminal) → display (emit text s) ≡ shown text (display s)
unfolding shown
emit-shown text s = emit-ByDisplay text s

pub shown-nil : (d : Display) → shown [] d ≡ d
unfolding shown emit
shown-nil d = display-bare d

pub shown-append : (a b : Bytes) (d : Display) → shown (a ++ b) d ≡ shown b (shown a d)
unfolding shown
shown-append a b d = ap display (emit-append a b (bare d)) ∙ emit-ByDisplay b (emit a (bare d))

-- the loop of `terminal_write` on the characters from `i` on
write_from-emit :
    (buf : ℕ → ℕ) (n i : ℕ) (s : Terminal)
    → write_from buf n i s ≡ emit (first_bytes n (λ k. buf (i + k))) s
unfolding write_from emit first_bytes
write_from-emit buf zero i s = refl
write_from-emit buf (suc n) i s =
    let same : (λ (k : ℕ). buf (i + 1 + k)) ≡ (λ (k : ℕ). buf (i + (k + 1))) =
      fun_ext (λ k. ap buf (omega arith)) in
    write_from-emit buf n (i + 1) (putch (buf i) s)
    ∙ ap₂ (λ f c. emit (first_bytes n f) (putch c s)) same (ap buf (omega arith))

-- What `terminal_write` shows of a buffer is its first `count` characters, one after the other; it returns their
-- number.
pub terminal_write-shown :
    (buf : ℕ → ℕ) (count : ℕ) (s : Terminal)
    → count < 2 ^ 31
    → let (r, s') = terminal_write (some buf) count s in
      (r ≡ count) × (display s' ≡ shown (first_bytes count buf) (display s))
unfolding terminal_write display move_csr
terminal_write-shown buf count s h =
    let n : rounds count ≡ count = ground arith in
    rw n (
      refl,
      ap display (write_from-emit buf count 0 s)
          ∙ emit-shown (first_bytes count (λ k. buf (0 + k))) s
          ∙ ap (λ f. shown (first_bytes count f) (display s)) (fun_ext (λ k. ap buf (omega arith))),
    )
