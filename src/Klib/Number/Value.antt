-- ===== src/Klib/Number/Value.antt =====
-- Digits of the table in `itoa` of student-distrib/lib.c, and the numbers that texts of them stand for.
use unix_like_os.Base.{
  ℕ, ◌+◌, ◌-◌, ◌*◌, ◌<◌, ◌≡◌, ◌≢◌, ap, refl, sym, ◌∙◌, subst, Bool, true, some, [], ◌∷◌, ◌++◌,
  reverse, arith, Bytes, ◌==◌, ltb, if◌then◌else◌, ◌&&◌, not, All, length, get_elem?, get_or,
  length-append, get_elem?-eq-get_or, all_below, all_below_sound,
}
use unix_like_os.Klib.Text.{IsText}
use unix_like_os.Klib.Number.{lookup}
use mathlib.Core.List.{reverse-cons}
use native.Mathlib.Nat.{mul_comm}

-- the value of a digit, a letter being one from 10 on
unfoldable pub digit_value : ℕ → ℕ
digit_value c = if ltb c 58 then c - 48 else c - 55

-- the number that a text stands for, its first digit the highest
unfoldable pub value_of : ℕ → ℕ → Bytes → ℕ
unfolding digit_value
value_of radix acc [] = acc
value_of radix acc (c ∷ text) = value_of radix (acc * radix + digit_value c) text

-- the same, the first digit the lowest
unfoldable pub low_value : ℕ → Bytes → ℕ
low_value radix [] = 0
low_value radix (c ∷ text) = digit_value c + radix * low_value radix text

value_of-append :
    (radix : ℕ) (text : Bytes) (acc c : ℕ)
    → value_of radix acc (text ++ (c ∷ [])) ≡ value_of radix acc text * radix + digit_value c
unfolding value_of
value_of-append radix [] acc c = refl
value_of-append radix (d ∷ text) acc c = value_of-append radix text (acc * radix + digit_value d) c

pub value_of-reverse :
    (radix : ℕ) (text : Bytes) → value_of radix 0 (reverse text) ≡ low_value radix text
unfolding low_value value_of
value_of-reverse radix [] = refl
value_of-reverse radix (c ∷ text) =
    ap (value_of radix 0) (reverse-cons c text)
    ∙ value_of-append radix (reverse text) 0 c
    ∙ ap (λ v. v * radix + digit_value c) (value_of-reverse radix text)
    ∙ omega (arith, mul_comm (low_value radix text) radix)

-- a digit in a radix: no NUL, a byte, and of a value below the radix
abbrev pub IsDigit : ℕ → ℕ → Type 0
IsDigit radix c = ((c ≢ 0) × (c < 256)) × (digit_value c < radix)

good_digit : ℕ → Bool
good_digit i = let c = get_or lookup i 0 in not (c == 0) && ltb c 256 && (digit_value c == i)

digit_table : all_below 36 good_digit ≡ true
unfolding all_below good_digit digit_value
digit_table = refl

-- what the table gives for a number below 36
pub record Looked (i : ℕ) : Type 0 where
  pub char : ℕ
  pub found : get_elem? lookup i ≡ some char
  pub text : (char ≢ 0) × (char < 256)
  pub value : digit_value char ≡ i

pub looked : (i : ℕ) → i < 36 → Looked i
unfolding good_digit
looked i h =
    let c = get_or lookup i 0 in
    let t = all_below_sound 36 good_digit i digit_table h in
    record {
      char = c;
      found = get_elem?-eq-get_or lookup i 0 (omega arith);
      text = ground (arith, t);
      value = ground (arith, t);
    }

-- the value of the first digit of a text
unfoldable pub first_value : Bytes → ℕ
unfolding digit_value
first_value text = digit_value (get_or text 0 48)

pub first_value-append :
    (text : Bytes) (c : ℕ) → first_value text ≢ 0 → first_value (text ++ (c ∷ [])) ≢ 0
unfolding first_value digit_value
first_value-append [] c h = absurd (h refl)
first_value-append (x ∷ text) c h = h

All-snoc : (P : ℕ → Type 0) (l : Bytes) (c : ℕ) → All P l → P c → All P (l ++ (c ∷ []))
All-snoc P [] c h p = (p, tt)
All-snoc P (x ∷ l) c h p = (h.0, All-snoc P l c h.1 p)

pub All-reverse : (P : ℕ → Type 0) (l : Bytes) → All P l → All P (reverse l)
All-reverse P [] h = tt
All-reverse P (c ∷ l) h =
    subst (All P) (sym (reverse-cons c l)) (All-snoc P (reverse l) c (All-reverse P l h.1) h.0)

pub length-reverse : (l : Bytes) → length (reverse l) ≡ length l
length-reverse [] = refl
length-reverse (c ∷ l) =
    ap length (reverse-cons c l)
    ∙ length-append (reverse l) (c ∷ [])
    ∙ omega (arith, length-reverse l)

pub All-IsText : (radix : ℕ) (l : Bytes) → All (IsDigit radix) l → IsText l
All-IsText radix [] h = tt
All-IsText radix (c ∷ l) h = (h.0.0, All-IsText radix l h.1)
