-- ===== src/Klib/Text.antt =====
-- `strlen` and `strncmp` of student-distrib/lib.c. A pointer to characters is the list of the bytes
-- that may be read from it on; a read past them is the fault `none`.
use unix_like_os.Base.{
  ℕ, zero, suc, ◌+◌, ◌<◌, ◌≡◌, ◌≢◌, inl, inr, refl, Bool, true, false, Option, none, some, [], ◌∷◌,
  ◌++◌, arith, Bytes, ◌==◌, ltb, if◌then◌else◌, sub32, sext8, ◌||◌, ◌&&◌, not, Bool-cases, All,
  length, set,
}

-- `s[i] = c`
unfoldable pub store : Bytes → ℕ → ℕ → Option Bytes
store s i c = if ltb i (length s) then some (set s i c) else none

-- `while(s[len] != '\0') len++`
strlen_from : Bytes → ℕ → Option ℕ
strlen_from [] len = none
strlen_from (c ∷ s) len = if c == 0 then some len else strlen_from s (len + 1)

unfoldable pub strlen : Bytes → Option ℕ
unfolding strlen_from
strlen s = strlen_from s 0

-- The loop runs `n - i` more rounds; the lists are what is left from index `i` on.
strncmp_from : ℕ → Bytes → Bytes → Option ℕ
strncmp_from zero s1 s2 = some 0
strncmp_from (suc n) [] s2 = none
strncmp_from (suc n) (a ∷ s1) [] = none
strncmp_from (suc n) (a ∷ s1) (b ∷ s2) =
    if not (sext8 a == sext8 b) || (sext8 a == 0)
    then some (sub32 (sext8 a) (sext8 b))
    else strncmp_from n s1 s2

unfoldable pub strncmp : Bytes → Bytes → ℕ → Option ℕ
unfolding strncmp_from
strncmp s1 s2 n = strncmp_from n s1 s2

-- A text: bytes before any NUL.
abbrev pub IsText : Bytes → Type 0
IsText = All (λ c. (c ≢ 0) × (c < 256))

-- The name that a field of `n` bytes holds: the bytes before its first NUL.
unfoldable pub name_of : ℕ → Bytes → Bytes
name_of zero s = []
name_of (suc n) [] = []
name_of (suc n) (c ∷ s) = if c == 0 then [] else c ∷ name_of n s

-- An array of bytes from which `n` can be read, or as many as there are up to a NUL.
unfoldable pub readable : ℕ → Bytes → Bool
readable zero s = true
readable (suc n) [] = false
readable (suc n) (c ∷ s) = ltb c 256 && (c == 0 || readable n s)

-- `strlen` of a text with its NUL is the length of the text, whatever stands behind.
strlen_from-text :
    (text rest : Bytes) (len : ℕ)
    → IsText text
    → strlen_from (text ++ (0 ∷ rest)) len ≡ some (len + length text)
unfolding strlen_from
strlen_from-text [] rest len h = ground arith
strlen_from-text (c ∷ text) rest len h = ground (arith, strlen_from-text text rest (len + 1) h.1)

pub strlen-text :
    (text rest : Bytes) → IsText text → strlen (text ++ (0 ∷ rest)) ≡ some (length text)
unfolding strlen
strlen-text text rest h = ground (arith, strlen_from-text text rest 0 h)

sext8-injective : (a b : ℕ) → a < 256 → b < 256 → sext8 a ≡ sext8 b → a ≡ b
sext8-injective a b p q h = ground arith

-- What `strncmp` finds: nothing faults, and 0 is returned exactly for equal names.
pub record Compared (n : ℕ) (s1 s2 : Bytes) (r : Option ℕ) : Type 0 where
  pub value : ℕ
  pub returned : r ≡ some value
  pub same : value ≡ 0 → name_of n s1 ≡ name_of n s2
  pub zero_of_same : name_of n s1 ≡ name_of n s2 → value ≡ 0

cons_ne : (a b : ℕ) (s t : Bytes) → a ≢ b → (a ∷ s) ≢ (b ∷ t)
cons_ne a b s t h = ground arith

strncmp_from-Compared :
    (n : ℕ) (s1 s2 : Bytes)
    → readable n s1 ≡ true
    → readable n s2 ≡ true
    → Compared n s1 s2 (strncmp_from n s1 s2)
unfolding strncmp_from name_of readable
strncmp_from-Compared zero s1 s2 h k = record {
  value = 0;
  returned = refl;
  same = λ _. refl;
  zero_of_same = λ _. refl;
}
strncmp_from-Compared (suc n) [] s2 h k = cc
strncmp_from-Compared (suc n) (a ∷ s1) [] h k = cc
strncmp_from-Compared (suc n) (a ∷ s1) (b ∷ s2) h k =
    elim (Bool-cases (not (sext8 a == sext8 b) || (sext8 a == 0))) [
      | inl stop ↦ record {
        value = sub32 (sext8 a) (sext8 b);
        returned = ground arith;
        same = λ e. ground arith;
        zero_of_same = λ e. ground arith;
      }
      | inr go ↦
          let ih = strncmp_from-Compared n s1 s2 (ground arith) (ground arith) in
          record {
            value = ih.value;
            returned = ground (arith, ih);
            same = λ e. ground (arith, ih.same e);
            zero_of_same = λ e. ground (arith, ih.zero_of_same);
          }
    ]

-- Where both arrays can be read for `n` bytes or up to a NUL, `strncmp` does not fault, and returns
-- 0 exactly if the two names of at most `n` bytes are equal.
pub strncmp_lem :
    (n : ℕ) (s1 s2 : Bytes)
    → readable n s1 ≡ true
    → readable n s2 ≡ true
    → Compared n s1 s2 (strncmp s1 s2 n)
unfolding strncmp
strncmp_lem n s1 s2 h k = strncmp_from-Compared n s1 s2 h k
