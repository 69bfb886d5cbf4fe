-- ===== src/Base/Words.antt =====
-- C integers as bit patterns: a `uint32_t` and an `int32_t` are numbers below 2 ^ 32, a byte is one
-- below 2 ^ 8, and the arithmetic wraps.
use Prim.Native.Nat.{ℕ, ◌+◌, ◌-◌, ◌%◌, ◌^◌}
use mathlib.Core.Bool.{Bool}
use unix_like_os.Base.Tests.{ltb, if◌then◌else◌}

abbrev pub add32 : ℕ → ℕ → ℕ
add32 a b = (a + b) % 2 ^ 32

abbrev pub sub32 : ℕ → ℕ → ℕ
sub32 a b = (a + 2 ^ 32 - b) % 2 ^ 32

-- the pattern of -1
abbrev pub minus_one : ℕ
minus_one = 2 ^ 32 - 1

-- `<` on `int32_t`
abbrev pub slt : ℕ → ℕ → Bool
slt a b = ltb ((a + 2 ^ 31) % 2 ^ 32) ((b + 2 ^ 31) % 2 ^ 32)

-- an `int8_t` widened to `int32_t`
abbrev pub sext8 : ℕ → ℕ
sext8 c = if ltb c 128 then c else c + (2 ^ 32 - 256)
