-- ===== src/Klib/Number.antt =====
-- `strrev` and `itoa` of student-distrib/lib.c. A pointer to characters is the list of the bytes from it
-- on; a read or a write past them is the fault `none`.
pub mod Reverse
pub mod Value
pub mod Digits
use unix_like_os.Base.{
  ℕ, zero, suc, ◌+◌, ◌-◌, ◌*◌, ◌/◌, ◌%◌, ◌^◌, ◌<◌, ◌≤◌, min, ◌≡◌, ◌≢◌, ◌⊎◌, ◌↔◌, inl, inr, ap, ap₂,
  refl, sym, ◌∙◌, fun_ext, subst, Bool, true, false, Option, none, some, List, [], ◌∷◌, ◌++◌, map,
  reverse, append-nil, append_assoc, arith, Bytes, ◌==◌, ltb, leb, if◌then◌else◌, ◌>>=◌, add32,
  sub32, minus_one, slt, sext8, ◌||◌, ◌&&◌, not, Bool-cases, All, length, get_elem?, get_or, set,
  replicate, update, update_self, update-ne, length-append, length-set, get_elem?-eq-get_or,
  get_or-set_self, get_or-set_ne, get_or_ext, for_range, for_range_inv, for_range-update,
  bit_or-zero, bit_or_disjoint, all_below, all_below_sound, ==_iff, ==_refl, ==_ne, ltb-true,
  ltb-false,
}
use unix_like_os.Klib.Text.{strlen, store}

-- `while(beg < end)`: `beg` and `end` are `int32_t`, the first argument bounds the rounds
unfoldable pub rev_from : ℕ → ℕ → ℕ → Bytes → Option Bytes
unfolding store
rev_from zero beg end s = none
rev_from (suc rounds) beg end s =
    if slt beg end
    then (get_elem? s end >>= λ tmp. get_elem? s beg >>= λ c. store s end c >>= λ s1.
        store s1 beg tmp >>= λ s2. rev_from rounds (beg + 1) (sub32 end 1) s2)
    else some s

unfoldable pub strrev : Bytes → Option Bytes
unfolding rev_from strlen
strrev s = strlen s >>= λ n. rev_from (n + 1) 0 (sub32 n 1) s

-- `"0123456789ABCDEFGHIJKLMNOPQRSTUVWXYZ"`, its NUL included
abbrev pub lookup : Bytes
lookup =
    48 ∷ 49 ∷ 50 ∷ 51 ∷ 52 ∷ 53 ∷ 54 ∷ 55 ∷ 56 ∷ 57 ∷ 65 ∷ 66 ∷ 67 ∷ 68 ∷ 69 ∷ 70 ∷ 71 ∷ 72 ∷ 73
    ∷ 74 ∷ 75 ∷ 76 ∷ 77 ∷ 78 ∷ 79 ∷ 80 ∷ 81 ∷ 82 ∷ 83 ∷ 84 ∷ 85 ∷ 86 ∷ 87 ∷ 88 ∷ 89 ∷ 90 ∷ 0 ∷ []

-- `while(newval > 0)` and the NUL: `i` is `newbuf - buf`, the first argument bounds the rounds
unfoldable pub itoa_from : ℕ → ℕ → ℕ → ℕ → Bytes → Option Bytes
unfolding store
itoa_from zero newval i radix buf = none
itoa_from (suc rounds) newval i radix buf =
    if newval == 0
    then store buf i 0
    else (get_elem? lookup (newval % radix) >>= λ c.
        store buf i c >>= λ buf1. itoa_from rounds (newval / radix) (i + 1) radix buf1)

-- a 32-bit number has at most 32 digits in a radix from 2 on; with radix 0 the division faults, with
-- radix 1 the loop does not end
abbrev pub digit_rounds : ℕ
digit_rounds = 33

unfoldable pub print_digits : ℕ → ℕ → Bytes → Option Bytes
unfolding itoa_from
print_digits value radix buf = itoa_from digit_rounds value 0 radix buf

unfoldable pub itoa : ℕ → Bytes → ℕ → Option Bytes
unfolding store
itoa value buf radix =
    if value == 0
    then (store buf 0 48 >>= λ buf1. store buf1 1 0)
    else if radix == 0
    then none
    else (print_digits value radix buf >>= λ buf1. strrev buf1)
