-- ===== src/Rtc/Rate.antt =====
-- The frequencies of `rtc_write` of student-distrib/rtc.c.
use unix_like_os.Base.{
  ℕ, ◌-◌, ◌*◌, ◌/◌, ◌^◌, ◌<◌, ◌≤◌, ◌≡◌, refl, Bool, true, arith, ◌==◌, ltb, leb, ◌||◌, ◌&&◌,
  all_below, all_below_sound,
}
use Prim.Native.Nat.{bit_and}
use unix_like_os.Rtc.{rate_for}

-- the interrupts per second at a rate from 6 to 15: 32768 >> (rate - 1)
abbrev pub hertz : ℕ → ℕ
hertz rate = 2 ^ (16 - rate)

-- the table's test, with the rate and its frequency as variables
within : ℕ → ℕ → ℕ → Bool
within f r h = leb 6 r && ltb r 16 && leb f h && (leb f 2 || ltb h (2 * f)) && (ltb 2 f || (h == 2))

rate_table : all_below 1025 (λ f. within f (rate_for f) (hertz (rate_for f))) ≡ true
unfolding all_below rate_for within
rate_table = refl

within_true :
    (f r h : ℕ)
    → within f r h ≡ true
    → (6 ≤ r) × (r < 16) × (f ≤ h) × (2 < f → h < 2 * f) × (f ≤ 2 → h ≡ 2)
unfolding within
within_true f r h t = (
  ground (arith, t),
  ground (arith, t),
  ground (arith, t),
  (λ a. ground (arith, t, a)),
  (λ a. ground (arith, t, a)),
)

high_table : all_below 256 (λ a. bit_and a 0xF0 == a / 16 * 16) ≡ true
unfolding all_below
high_table = refl

-- The rate that is chosen is the least power of two that is no less than the frequency, and 2 at
-- least.
pub rate_for_lem :
    (f : ℕ)
    → f ≤ 1024
    → (6 ≤ rate_for f)
      × (rate_for f < 16)
      × (f ≤ hertz (rate_for f))
      × (2 < f → hertz (rate_for f) < 2 * f)
      × (f ≤ 2 → hertz (rate_for f) ≡ 2)
rate_for_lem f h = within_true f _ _ (all_below_sound 1025 _ f rate_table (omega arith))
