-- ===== src/Terminal/Editing.antt =====
-- The line buffer of student-distrib/terminal.c as a text that is typed and erased.
use unix_like_os.Base.{
  get_or-snoc, ℕ, ◌-◌, ◌<◌, ◌≤◌, ◌≡◌, ap, refl, sym, ◌∙◌, subst, true, [], ◌∷◌, reverse, arith,
  Bytes, ◌==◌, ltb, if◌then◌else◌, length, get_or, update, update_self, update-ne, length-append,
  ==_iff, ==_ne, ltb-true,
}
use native.Mathlib.Decide.{dec_lt, ℕ_discrete}
use mathlib.Core.List.{reverse-cons}
use unix_like_os.Terminal.{Terminal, here, move_csr, print_buffer, backspace, add_to_buffer}
use unix_like_os.Terminal.Line.{line, add_to_buffer_lem}
use unix_like_os.Terminal.SameLine.{SameLine, IsShowable, print_buffer-SameLine}

-- Characters, the last one first, stand at the start of a buffer.
abbrev pub Holds : (ℕ → ℕ) → Bytes → Type 0
Holds f [] = Unit
Holds f (c ∷ text) = (f (length text) ≡ c) × (32 ≤ c) × Holds f text

pub Holds-agree :
    (f g : ℕ → ℕ) (text : Bytes)
    → ((k : ℕ) → k < length text → g k ≡ f k)
    → Holds f text
    → Holds g text
Holds-agree f g [] same h = tt
Holds-agree f g (c ∷ text) same (last, vis, h) = (
  same (length text) (omega arith) ∙ last,
  vis,
  Holds-agree f g text (λ k lt. same k (omega arith)) h,
)

pub Holds-showable : (f : ℕ → ℕ) (text : Bytes) (k : ℕ) → Holds f text → k < length text → 32 ≤ f k
Holds-showable f [] k h lt = absurd (omega arith)
Holds-showable f (c ∷ text) k (last, vis, h) lt = elim (dec_lt k (length text)) [
  | yes p ↦ Holds-showable f text k h p
  | no p ↦ let e : k ≡ length text = omega arith in omega (arith, ap f e, last, vis)
]

pub length-reverse : (a : Bytes) → length (reverse a) ≡ length a
length-reverse [] = refl
length-reverse (c ∷ a) =
    ap length (reverse-cons c a)
    ∙ length-append (reverse a) (c ∷ [])
    ∙ omega (arith, length-reverse a)

-- They are the text in its order.
pub Holds-get_or :
    (f : ℕ → ℕ) (text : Bytes) (k : ℕ)
    → Holds f text
    → k < length text
    → f k ≡ get_or (reverse text) k 0
Holds-get_or f [] k h lt = absurd (omega arith)
Holds-get_or f (c ∷ text) k (last, vis, h) lt =
    let whole =
      ap (λ l. get_or l k 0) (reverse-cons c text)
      ∙ get_or-snoc (reverse text) c 0 k
      ∙ ap (λ n. if k == n then c else get_or (reverse text) k 0) (length-reverse text) in
    elim (ℕ_discrete k (length text)) [
      | yes e ↦
          ap f e
          ∙ last
          ∙ sym (
              whole
              ∙ ap (λ b. if b then c else get_or (reverse text) k 0) ((==_iff k (length text)).1 e))
      | no d ↦
          Holds-get_or f text k h (omega (arith, lt, d))
          ∙ sym (
              whole
              ∙ ap (λ b. if b then c else get_or (reverse text) k 0) (==_ne k (length text) d))
    ]

-- The line buffer of the current terminal holds a text.
pub record LineIs (text : Bytes) (s : Terminal) : Type 0 where
  pub len : here s.buffer_len s ≡ length text
  pub chars : Holds (line s) text

LineIs-IsShowable : (text : Bytes) (s : Terminal) → LineIs text s → IsShowable s
LineIs-IsShowable text s h k lt = Holds-showable (line s) text k h.chars (omega (arith, lt, h.len))

SameLine-LineIs : (text : Bytes) (s s' : Terminal) → SameLine s s' → LineIs text s → LineIs text s'
SameLine-LineIs text s s' p h = record {
  len = rw (p.len, p.curr) h.len;
  chars = rw (p.buffer, p.curr) h.chars;
}

pub print_buffer-LineIs :
    (text : Bytes) (s : Terminal) → LineIs text s → LineIs text (print_buffer s)
print_buffer-LineIs text s h =
    SameLine-LineIs text s (print_buffer s) (print_buffer-SameLine s (LineIs-IsShowable text s h)) h

-- A character is added behind the text.
pub add_to_buffer-LineIs :
    (c : ℕ) (text : Bytes) (s : Terminal)
    → 32 ≤ c
    → length text < 128
    → LineIs text s
    → LineIs (c ∷ text) (add_to_buffer c s)
add_to_buffer-LineIs c text s vis room h =
    let (same, one, put) = add_to_buffer_lem c s (omega (arith, h.len)) in
    let f = line s in
    let n = here s.buffer_len s in
    record {
      len = omega (arith, one, h.len);
      chars =
          subst (λ g. Holds g (c ∷ text)) (sym put)
            (
              ap (update f n c) (sym h.len) ∙ update_self f n c,
              vis,
              Holds-agree f (update f n c) text
                  (λ k lt. update-ne f n k c (λ e. omega (arith, e, lt, h.len))) h.chars,
            );
    }

-- The backspace takes the last character away.
pub backspace-LineIs :
    (c : ℕ) (text : Bytes) (s : Terminal)
    → length text < 128
    → LineIs (c ∷ text) s
    → LineIs text (backspace s)
unfolding backspace move_csr
backspace-LineIs c text s room h =
    let len = here s.buffer_len s in
    let f = update (line s) (len - 1) 0x20 in
    let s0 : Terminal = record s { terminal_buffer = update s.terminal_buffer s.curr_terminal f } in
    let blanked : line s0 ≡ f = update_self s.terminal_buffer s.curr_terminal f in
    let kept =
      Holds-agree (line s) f text
        (λ k lt. update-ne (line s) (len - 1) k 0x20 (λ e. omega (arith, e, lt, h.len)))
        h.chars.2 in
    let showable : IsShowable s0 = λ k lt.
      subst (λ (g : ℕ → ℕ). 32 ≤ g k) (sym blanked)
        (elim (ℕ_discrete k (len - 1)) [
          | yes e ↦ omega (arith, ap f e ∙ update_self (line s) (len - 1) 0x20)
          | no d ↦ omega (
            arith,
            update-ne (line s) (len - 1) k 0x20 d,
            Holds-showable (line s) (c ∷ text) k h.chars (omega (arith, lt, h.len)),
          )
        ]) in
    let p = print_buffer-SameLine s0 showable in
    let s1 = print_buffer s0 in
    let some_char : ltb 0 len ≡ true = ltb-true 0 len (omega (arith, h.len)) in
    let same_len : here s1.buffer_len s1 ≡ len = rw (p.len, p.curr) refl in
    let same_line : line s1 ≡ f = rw (p.buffer, p.curr) blanked in
    rw some_char (record {
      len = update_self s1.buffer_len s1.curr_terminal _ ∙ omega (arith, same_len, h.len, room);
      chars = rw same_line kept;
    })

pub backspace-none : (s : Terminal) → LineIs [] s → backspace s ≡ s
unfolding backspace
backspace-none s h = rw h.len refl
