-- ===== src/Terminal/Write.antt =====
-- What `terminal_write` of student-distrib/terminal.c puts on the screen.
use unix_like_os.Base.{
  ℕ, zero, suc, ◌+◌, ◌*◌, ◌%◌, ◌^◌, ◌<◌, ◌≤◌, ◌≡◌, ap, refl, sym, ◌∙◌, subst, true, false, some, [],
  ◌∷◌, arith, Bytes, ◌==◌, ltb, leb, All, length, get_or, update, update_self, update-ne,
  bit_or_disjoint_low,
}
use Prim.Native.Nat.{bit_or}
use unix_like_os.Terminal.{
  Terminal, width, here, cell, rounds, scroll, move_csr, settle, put_cell, putch, write_from,
  terminal_write,
}

-- a printable character
abbrev pub IsVisible : ℕ → Type 0
IsVisible c = (32 ≤ c) × (c < 256)

-- The cell of a character in a color: the character in the low byte, the color in the high byte.
cell_bits : (c a : ℕ) → c < 256 → a < 256 → bit_or c (a * 2 ^ 8) % 2 ^ 16 ≡ c + a * 256
cell_bits c a hc ha =
    omega (arith, bit_or_disjoint_low 8 a (a * 2 ^ 8) c (omega arith) (omega arith))

settle_inside :
    (s : Terminal)
    → here s.csr_x s < 80
    → here s.csr_y s < 25
    → settle s ≡ move_csr (record s { interrupts = true })
unfolding settle scroll
settle_inside s hx hy =
    let t : leb width (here s.csr_x s) ≡ false = ground arith in
    let u : leb 25 (here s.csr_y s) ≡ false = ground arith in rw (t, u)

record Printed (c : ℕ) (s s' : Terminal) : Type 0 where
  curr : s'.curr_terminal ≡ s.curr_terminal
  color : s'.attrib ≡ s.attrib
  x : here s'.csr_x s' ≡ here s.csr_x s + 1
  y : here s'.csr_y s' ≡ here s.csr_y s
  shown : s'.video ≡ update s.video (cell s) (bit_or c (s.attrib * 2 ^ 8) % 2 ^ 16)

putch_visible :
    (c : ℕ) (s : Terminal)
    → IsVisible c
    → here s.csr_x s < 80
    → here s.csr_y s < 25
    → putch c s ≡ settle (put_cell c s)
unfolding putch
putch_visible c s (lo, hi) hx hy =
    let n : (c == 10) ≡ false = ground arith in
    let b : (c == 8) ≡ false = ground arith in
    let v : leb 0x20 c ≡ true = ground arith in
    let room : cell s < 2000 = omega arith in
    let near : leb 0x1000 (cell s) ≡ false = ground arith in
    let inside : leb 0xB9000 (0xB8000 + 2 * cell s) ≡ false = ground arith in
    let above : ltb (0xB8000 + 2 * cell s) 0xB8000 ≡ false = ground arith in
    rw (n, b, v, near, inside, above)

putch-Printed :
    (c : ℕ) (s : Terminal)
    → IsVisible c
    → here s.csr_x s + 1 < 80
    → here s.csr_y s < 25
    → Printed c s (putch c s)
unfolding put_cell move_csr
putch-Printed c s vis hx hy =
    let moved = update_self s.csr_x s.curr_terminal (here s.csr_x s + 1) in
    rw
      (
        putch_visible c s vis (omega arith) hy,
        settle_inside (put_cell c s) (omega (arith, moved)) hy,
      )
      (record { curr = refl; color = refl; x = moved; y = refl; shown = refl })

-- The row and the cells behind a text that fits on the row.
record Shown (text : Bytes) (s s' : Terminal) : Type 0 where
  curr : s'.curr_terminal ≡ s.curr_terminal
  color : s'.attrib ≡ s.attrib
  x : here s'.csr_x s' ≡ here s.csr_x s + length text
  y : here s'.csr_y s' ≡ here s.csr_y s
  new : (k : ℕ) → k < length text → s'.video (cell s + k) ≡ get_or text k 0 + s.attrib * 256
  before : (k : ℕ) → k < cell s → s'.video k ≡ s.video k
  behind : (k : ℕ) → cell s + length text ≤ k → s'.video k ≡ s.video k

-- The buffer holds `text` from index `i` on.
abbrev HoldsAt : (ℕ → ℕ) → ℕ → Bytes → Type 0
HoldsAt buf i text = (k : ℕ) → k < length text → buf (i + k) ≡ get_or text k 0

extend_new :
    (c : ℕ) (text : Bytes) (s s1 s2 : Terminal)
    → c < 256
    → s.attrib < 256
    → Printed c s s1
    → Shown text s1 s2
    → cell s1 ≡ cell s + 1
    → (k : ℕ) → k < length (c ∷ text)
    → s2.video (cell s + k) ≡ get_or (c ∷ text) k 0 + s.attrib * 256
extend_new c text s s1 s2 hc ha p q moved zero lt =
    ap s2.video (omega arith)
    ∙ q.before (cell s) (omega (arith, moved))
    ∙ ap (λ (v : ℕ → ℕ). v (cell s)) p.shown
    ∙ update_self s.video (cell s) (bit_or c (s.attrib * 2 ^ 8) % 2 ^ 16)
    ∙ cell_bits c s.attrib hc ha
extend_new c text s s1 s2 hc ha p q moved (suc k) lt =
    ap s2.video (omega (arith, moved))
    ∙ q.new k (omega arith)
    ∙ ap (λ a. get_or text k 0 + a * 256) p.color

extend-Shown :
    (c : ℕ) (text : Bytes) (s s1 s2 : Terminal)
    → c < 256
    → s.attrib < 256
    → Printed c s s1
    → Shown text s1 s2
    → Shown (c ∷ text) s s2
extend-Shown c text s s1 s2 hc ha p q =
    let moved : cell s1 ≡ cell s + 1 = omega (arith, p.x, p.y) in
    record {
      curr = q.curr ∙ p.curr;
      color = q.color ∙ p.color;
      x = omega (arith, q.x, p.x);
      y = q.y ∙ p.y;
      new = λ k lt. extend_new c text s s1 s2 hc ha p q moved k lt;
      before = λ k lt.
          q.before k (omega (arith, moved))
          ∙ ap (λ (v : ℕ → ℕ). v k) p.shown
          ∙ update-ne s.video (cell s) k _ (λ e. omega (arith, e));
      behind = λ k le.
          q.behind k (omega (arith, moved))
          ∙ ap (λ (v : ℕ → ℕ). v k) p.shown
          ∙ update-ne s.video (cell s) k _ (λ e. omega (arith, e));
    }

write_from-Shown :
    (text : Bytes) (buf : ℕ → ℕ) (i : ℕ) (s : Terminal)
    → All IsVisible text
    → HoldsAt buf i text
    → s.attrib < 256
    → here s.csr_x s + length text < 80
    → here s.csr_y s < 25
    → Shown text s (write_from buf (length text) i s)
unfolding write_from
write_from-Shown [] buf i s vis holds ha hx hy = record {
  curr = refl;
  color = refl;
  x = omega arith;
  y = refl;
  new = λ k lt. absurd (omega arith);
  before = λ k lt. refl;
  behind = λ k le. refl;
}
write_from-Shown (c ∷ text) buf i s vis holds ha hx hy =
    let e : buf i ≡ c = ap buf (omega arith) ∙ holds 0 (omega arith) in
    let p = putch-Printed c s vis.0 (omega arith) hy in
    subst (λ d. Shown (c ∷ text) s (write_from buf (length text) (i + 1) (putch d s))) (sym e)
      (extend-Shown c text s (putch c s) (write_from buf (length text) (i + 1) (putch c s)) vis.0.1
        ha p
        (write_from-Shown text buf (i + 1) (putch c s) vis.1
          (λ k lt. ap buf (omega arith) ∙ holds (suc k) (omega arith)) (omega (arith, p.color))
          (omega (arith, p.x)) (omega (arith, p.y))))

-- A text of printable characters that fits on the row, written by `terminal_write`, stands on the
-- screen from the cursor on, each character with the current color; every other cell is as it was,
-- the cursor stands behind the text, and the next input line starts there. The result is the length
-- of the text.
pub terminal_write-Shown :
    (text : Bytes) (buf : ℕ → ℕ) (s : Terminal)
    → All IsVisible text
    → HoldsAt buf 0 text
    → s.attrib < 256
    → here s.csr_x s + length text < 80
    → here s.csr_y s < 25
    → let (r, s') = terminal_write (some buf) (length text) s in
      (r ≡ length text)
      × ((k : ℕ) → k < length text → s'.video (cell s + k) ≡ get_or text k 0 + s.attrib * 256)
      × ((k : ℕ) → k < cell s → s'.video k ≡ s.video k)
      × ((k : ℕ) → cell s + length text ≤ k → s'.video k ≡ s.video k)
      × (here s'.csr_x s' ≡ here s.csr_x s + length text)
      × (here s'.csr_y s' ≡ here s.csr_y s)
      × (here s'.line_beginning s' ≡ here s.csr_x s + length text)
      × (here s'.line_y s' ≡ here s.csr_y s)
unfolding terminal_write move_csr
terminal_write-Shown text buf s vis holds ha hx hy =
    let n : rounds (length text) ≡ length text = ground arith in
    let w = write_from-Shown text buf 0 s vis holds ha hx hy in
    let s1 = write_from buf (length text) 0 s in
    rw n (
      refl,
      w.new,
      w.before,
      w.behind,
      w.x,
      w.y,
      update_self s1.line_beginning s1.curr_terminal (here s1.csr_x s1) ∙ w.x,
      update_self s1.line_y s1.curr_terminal (here s1.csr_y s1) ∙ w.y,
    )
