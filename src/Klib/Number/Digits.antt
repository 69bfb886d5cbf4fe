-- ===== src/Klib/Number/Digits.antt =====
-- `itoa` of student-distrib/lib.c: the characters and the number that they stand for.
use unix_like_os.Base.{
  ℕ, zero, suc, ◌+◌, ◌*◌, ◌/◌, ◌%◌, ◌^◌, ◌<◌, ◌≤◌, ◌≡◌, ◌≢◌, inl, inr, ap, ap₂, refl, sym, ◌∙◌,
  subst, false, Option, some, [], ◌∷◌, ◌++◌, reverse, append_assoc, arith, Bytes, ◌==◌, Bool-cases,
  All, length, length-append, ==_ne,
}
use unix_like_os.Klib.Text.{store}
use unix_like_os.Klib.Number.{itoa_from, digit_rounds, itoa, print_digits}
use unix_like_os.Klib.Number.Reverse.{store-append, strrev-reverse}
use mathlib.Core.List.{reverse-cons}
use unix_like_os.Base.{ℕ_discrete}
use native.Mathlib.Nat.{div-add-mod, mod-lt, pow-suc, pow-zero, add_comm, div-lt_iff_lt-mul}
use unix_like_os.Klib.Number.Value.{
  digit_value, value_of, low_value, value_of-reverse, IsDigit, Looked, looked, first_value,
  first_value-append, All-reverse, length-reverse, All-IsText,
}

-- what the loop leaves in the buffer behind the digits `done`
record Written (radix v n : ℕ) (done old : Bytes) (r : Option Bytes) : Type 0 where
  low : Bytes
  rest : Bytes
  result : r ≡ some (done ++ (low ++ (0 ∷ rest)))
  digits : All (IsDigit radix) low
  value : low_value radix low ≡ v
  short : length low ≤ n
  same_length : length low + suc (length rest) ≡ length old
  empty : v ≡ 0 → low ≡ []
  first : v ≢ 0 → first_value (reverse low) ≢ 0

module _ (radix : ℕ) (lo : 1 < radix) (hi : radix ≤ 36) where
  pos : 0 < radix
  pos = omega arith

  fewer : (v n : ℕ) → v < radix ^ suc n → v / radix < radix ^ n
  fewer v n lt =
      (div-lt_iff_lt-mul {k = radix} {x = v} {y = radix ^ n} pos).1
        (subst (λ m. v < m) (pow-suc radix n) lt)

  stop-Written :
      (v i n x : ℕ) (done old : Bytes)
      → i ≡ length done
      → v ≡ 0
      → Written radix v n done (x ∷ old) (store (done ++ (x ∷ old)) i 0)
  unfolding low_value
  stop-Written v i n x done old e z = record {
    low = [];
    rest = old;
    result = store-append done x 0 old i e;
    digits = tt;
    value = sym z;
    short = omega arith;
    same_length = omega arith;
    empty = λ _. refl;
    first = λ h. absurd (h z);
  }

  first_value-cons :
      (c v : ℕ) (low : Bytes)
      → digit_value c ≡ v % radix
      → v ≢ 0
      → (v / radix ≡ 0 → low ≡ [])
      → (v / radix ≢ 0 → first_value (reverse low) ≢ 0)
      → first_value (reverse (c ∷ low)) ≢ 0
  unfolding first_value digit_value
  first_value-cons c v low e h nothing more = elim (ℕ_discrete (v / radix) 0) [
    | yes z ↦
        let whole : radix * (v / radix) + v % radix ≡ v = div-add-mod v radix in
        let same : v % radix ≡ v = omega (arith, subst (λ q. radix * q + v % radix ≡ v) z whole) in
        rw (nothing z) (λ k. h (sym same ∙ sym e ∙ k))
    | no d ↦ rw (reverse-cons c low) (first_value-append (reverse low) c (more d))
  ]

  next-Written :
      (v n x : ℕ) (done old : Bytes) (r : Option Bytes) (d : Looked (v % radix))
      → v ≢ 0
      → Written radix (v / radix) n (done ++ (d.char ∷ [])) old r
      → Written radix v (suc n) done (x ∷ old) r
  unfolding low_value
  next-Written v n x done old r d h ih = record {
    low = d.char ∷ ih.low;
    rest = ih.rest;
    result = ih.result ∙ ap some (append_assoc done (d.char ∷ []) (ih.low ++ (0 ∷ ih.rest)));
    digits = ((d.text, omega (arith, d.value, mod-lt v pos)), ih.digits);
    value = ap₂ (λ a b. a + radix * b) d.value ih.value ∙ add_comm _ _ ∙ div-add-mod v radix;
    short = omega (arith, ih.short);
    same_length = omega (arith, ih.same_length);
    empty = λ z. absurd (h z);
    first = λ _. first_value-cons d.char v ih.low d.value h ih.empty ih.first;
  }

  itoa_from-Written :
      (rounds v i n : ℕ) (done old : Bytes)
      → i ≡ length done
      → v < radix ^ n
      → n < rounds
      → n < length old
      → Written radix v n done old (itoa_from rounds v i radix (done ++ old))
  unfolding itoa_from
  itoa_from-Written zero v i n done old e lt f room = absurd (omega (arith, f))
  itoa_from-Written (suc rounds) v i n done [] e lt f room = absurd (omega (arith, room))
  itoa_from-Written (suc rounds) v i zero done (x ∷ old) e lt f room =
      let z : v ≡ 0 = omega (arith, lt, pow-zero radix) in
      rw (ap (λ w. w == 0) z) (stop-Written v i 0 x done old e z)
  itoa_from-Written (suc rounds) v i (suc n) done (x ∷ old) e lt f room =
      elim (Bool-cases (v == 0)) [
        | inl z ↦ rw z (stop-Written v i (suc n) x done old e (ground (arith, z)))
        | inr go ↦
            let small : v % radix < 36 = omega (arith, mod-lt v pos) in
            let d = looked (v % radix) small in
            let down : v / radix < radix ^ n = fewer v n lt in
            let at : i + 1 ≡ length (done ++ (d.char ∷ [])) =
              omega (arith, e, length-append done (d.char ∷ [])) in
            let ih =
              itoa_from-Written rounds (v / radix) (i + 1) n (done ++ (d.char ∷ [])) old at down
                (omega arith) (omega (arith, room)) in
            rw
              (
                go,
                d.found,
                store-append done x d.char old i e,
                sym (append_assoc done (d.char ∷ []) old),
              )
              (next-Written v n x done old _ d (ground (arith, go)) ih)
      ]

print_digits-Written :
    (radix value n : ℕ) (buf : Bytes)
    → 1 < radix
    → radix ≤ 36
    → value < radix ^ n
    → n ≤ 32
    → n < length buf
    → Written radix value n [] buf (print_digits value radix buf)
unfolding print_digits
print_digits-Written radix value n buf lo hi lt few room =
    itoa_from-Written radix lo hi digit_rounds value 0 n [] buf refl lt (omega arith) room

-- What a text is in a radix for a number: the digits of the radix, their value, and no leading zero.
pub record Numeral (radix v : ℕ) (text : Bytes) : Type 0 where
  pub digits : All (IsDigit radix) text
  pub value : value_of radix 0 text ≡ v
  pub first : v ≢ 0 → first_value text ≢ 0

zero-Numeral : (radix value : ℕ) → 0 < radix → value ≡ 0 → Numeral radix value (48 ∷ [])
unfolding digit_value value_of first_value
zero-Numeral radix value lo z = record {
  digits = (((omega arith, omega arith), lo), tt);
  value = omega (arith, z);
  first = λ h. absurd (h z);
}

-- what `itoa` leaves in a buffer
pub record Printed (radix v n : ℕ) (buf : Bytes) (r : Option Bytes) : Type 0 where
  pub text : Bytes
  pub rest : Bytes
  pub result : r ≡ some (text ++ (0 ∷ rest))
  pub numeral : Numeral radix v text
  pub short : length text ≤ n
  pub same_length : length text + suc (length rest) ≡ length buf

-- `itoa` in a radix from 2 to 36 leaves in a buffer that has room for `n` digits and the NUL, for a
-- number below `radix ^ n`, the digits of the number in that radix and a NUL: their value is the number, and
-- the first is no zero unless the number is 0. The buffer keeps its length.
pub itoa-Printed :
    (value radix n : ℕ) (buf : Bytes)
    → 1 < radix
    → radix ≤ 36
    → 0 < n
    → n ≤ 32
    → value < radix ^ n
    → n < length buf
    → Printed radix value n buf (itoa value buf radix)
unfolding itoa
itoa-Printed value radix n [] lo hi some_digit few lt room = absurd (omega (arith, room))
itoa-Printed value radix n (x ∷ []) lo hi some_digit few lt room = absurd (omega arith)
itoa-Printed value radix n (x ∷ (y ∷ buf)) lo hi some_digit few lt room =
    elim (Bool-cases (value == 0)) [
      | inl z ↦ rw z (record {
        text = 48 ∷ [];
        rest = buf;
        result =
            rw (store-append [] x 48 (y ∷ buf) 0 refl, store-append (48 ∷ []) y 0 buf 1 refl) refl;
        numeral = zero-Numeral radix value (omega arith) (ground (arith, z));
        short = omega arith;
        same_length = omega arith;
      })
      | inr go ↦
          let w = print_digits-Written radix value n (x ∷ (y ∷ buf)) lo hi lt few room in
          let back =
            strrev-reverse w.low w.rest (All-IsText radix w.low w.digits)
              (omega (arith, w.short)) in
          let nonzero : radix == 0 ≡ false = ==_ne radix 0 (omega arith) in
          rw (go, nonzero, w.result)
            (record {
              text = reverse w.low;
              rest = w.rest;
              result = back;
              numeral = record {
                digits = All-reverse (IsDigit radix) w.low w.digits;
                value = value_of-reverse radix w.low ∙ w.value;
                first = w.first;
              };
              short = omega (arith, w.short, length-reverse w.low);
              same_length = omega (arith, w.same_length, length-reverse w.low);
            })
    ]
