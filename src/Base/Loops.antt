-- ===== src/Base/Loops.antt =====
-- Counted loops, and their invariant rule.
use Prim.Native.Nat.{ℕ, zero, suc, ◌+◌, ◌<◌, ◌≤◌}
use mathlib.Core.Path.{◌≡◌, refl, ◌∙◌}
use native.Mathlib.Decide.{ℕ_discrete}
use unix_like_os.Base.Lists.{update, update_self, update-ne}
use native.Mathlib.Omega.{arith}

-- `for (k = first; k < first + rounds; k++) s = step k s`
unfoldable pub for_range {ℓ} : {A : Type ℓ} → (rounds first : ℕ) → (step : ℕ → A → A) → A → A
for_range zero first step a = a
for_range (suc rounds) first step a = for_range rounds (first + 1) step (step first a)

-- What holds at the start, and is carried through each round, holds at the end.
pub for_range_inv {ℓ κ} :
    {A : Type ℓ} (Holds : ℕ → A → Type κ) (step : ℕ → A → A) (rounds first last : ℕ) (a : A)
    → first + rounds ≡ last
    → ((k : ℕ) (t : A) → first ≤ k → k < last → Holds k t → Holds (k + 1) (step k t))
    → Holds first a
    → Holds last (for_range rounds first step a)
unfolding for_range
for_range_inv Holds step zero first last a e carry start =
    let same : first ≡ last = omega arith in rw (← same) start
for_range_inv Holds step (suc rounds) first last a e carry start =
    for_range_inv Holds step rounds (first + 1) last (step first a) (omega arith)
      (λ k t lo hi p. carry k t (omega arith) hi p)
      (carry first a (omega arith) (omega arith) start)

-- A loop that writes `v k` to each place `k` below `n` of an array leaves the others.
pub for_range-update {ℓ} :
    {A : Type ℓ} (v : ℕ → A) (f : ℕ → A) (n : ℕ)
    → ((k : ℕ) → k < n → for_range n 0 (λ i g. update g i (v i)) f k ≡ v k)
      × ((k : ℕ) → n ≤ k → for_range n 0 (λ i g. update g i (v i)) f k ≡ f k)
for_range-update {A} v f n =
    for_range_inv (λ i g. ((k : ℕ) → k < i → g k ≡ v k) × ((k : ℕ) → i ≤ k → g k ≡ f k))
      (λ i g. update g i (v i)) n 0 n f (omega arith)
      (λ i g a b h. (
        λ k lt. elim (ℕ_discrete k i) [
          | yes e ↦ rw e (update_self g i (v i))
          | no d ↦ update-ne g i k (v i) d ∙ h.0 k (omega arith)
        ],
        λ k le. update-ne g i k (v i) (λ e. omega (arith, e)) ∙ h.1 k (omega arith),
      ))
      (λ k h. absurd (omega arith), λ k h. refl)
