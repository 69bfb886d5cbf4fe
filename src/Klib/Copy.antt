-- ===== src/Klib/Copy.antt =====
-- `strcpy` and `strncpy` of student-distrib/lib.c. The lists are what may be read or written from a
-- pointer on; a step past one is the fault `none`.
use unix_like_os.Base.{
  ℕ, zero, suc, ◌+◌, ◌≡◌, refl, Option, none, some, [], ◌∷◌, ◌++◌, arith, Bytes, ◌==◌,
  if◌then◌else◌, ◌>>=◌, length, replicate, ==_ne,
}
use unix_like_os.Klib.Text.{IsText}

unfoldable pub strcpy : Bytes → Bytes → Option Bytes
strcpy dest [] = none
strcpy [] (c ∷ src) = none
strcpy (d ∷ dest) (c ∷ src) =
    if c == 0 then some (0 ∷ dest) else (strcpy dest src >>= λ out. some (c ∷ out))

-- the second loop of `strncpy`
unfoldable pub pad : Bytes → ℕ → Option Bytes
pad dest zero = some dest
pad [] (suc n) = none
pad (d ∷ dest) (suc n) = pad dest n >>= λ out. some (0 ∷ out)

-- `strncpy`: the first loop reads the next character before it looks at the bound
unfoldable pub strncpy : Bytes → Bytes → ℕ → Option Bytes
unfolding pad
strncpy dest [] n = none
strncpy dest (c ∷ src) zero = some dest
strncpy [] (c ∷ src) (suc n) = pad [] (suc n)
strncpy (d ∷ dest) (c ∷ src) (suc n) =
    if c == 0 then pad (d ∷ dest) (suc n) else (strncpy dest src n >>= λ out. some (c ∷ out))

-- `strcpy` of a text puts it and its NUL at the start of a field with room for both, and keeps the rest.
pub strcpy_lem :
    (text rest field tail : Bytes)
    → IsText text
    → length field ≡ length text + 1
    → strcpy (field ++ tail) (text ++ (0 ∷ rest)) ≡ some (text ++ (0 ∷ tail))
unfolding strcpy
strcpy_lem [] rest [] tail h e = absurd (omega (arith, e))
strcpy_lem [] rest (f ∷ []) tail h e = refl
strcpy_lem [] rest (f ∷ (g ∷ field)) tail h e = absurd (omega (arith, e))
strcpy_lem (c ∷ text) rest [] tail h e = absurd (omega (arith, e))
strcpy_lem (c ∷ text) rest (f ∷ field) tail (h, hs) e =
    rw (==_ne c 0 h.0, strcpy_lem text rest field tail hs (omega (arith, e))) refl

pad_lem :
    (field tail : Bytes)
    → pad (field ++ tail) (length field) ≡ some (replicate (length field) 0 ++ tail)
unfolding pad
pad_lem [] tail = refl
pad_lem (f ∷ field) tail = rw (pad_lem field tail) refl

strncpy-nul :
    (rest gap tail : Bytes)
    → strncpy (gap ++ tail) (0 ∷ rest) (length gap) ≡ some (replicate (length gap) 0 ++ tail)
unfolding strncpy
strncpy-nul rest [] tail = refl
strncpy-nul rest (g ∷ gap) tail = pad_lem (g ∷ gap) tail

-- `strncpy` of a text with a bound that it does not reach puts the text there, fills up to the bound
-- with NULs, and keeps the rest.
pub strncpy_lem :
    (text rest field gap tail : Bytes)
    → IsText text
    → length field ≡ length text
    → strncpy (field ++ (gap ++ tail)) (text ++ (0 ∷ rest)) (length text + length gap)
      ≡ some (text ++ (replicate (length gap) 0 ++ tail))
unfolding strncpy
strncpy_lem [] rest [] gap tail h e =
    let n : 0 + length gap ≡ length gap = omega arith in rw n (strncpy-nul rest gap tail)
strncpy_lem [] rest (f ∷ field) gap tail h e = absurd (omega (arith, e))
strncpy_lem (c ∷ text) rest [] gap tail h e = absurd (omega (arith, e))
strncpy_lem (c ∷ text) rest (f ∷ field) gap tail (h, hs) e =
    let n : suc (length text) + length gap ≡ suc (length text + length gap) = omega arith in
    rw (n, ==_ne c 0 h.0, strncpy_lem text rest field gap tail hs (omega (arith, e))) refl
