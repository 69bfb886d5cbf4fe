-- ===== src/Klib/Memory/Region.antt =====
-- Regions of bytes that a copy of student-distrib/lib.c has moved.
use unix_like_os.Base.{
  ℕ, ◌+◌, ◌-◌, ◌<◌, ◌≤◌, ◌≡◌, ◌⊎◌, inl, inr, ap, refl, sym, ◌∙◌, Bool, true, false, arith, ltb, leb,
  if◌then◌else◌, ◌&&◌, update, update_self, update-ne,
}
use unix_like_os.Klib.Memory.{Memory}

-- The `n` bytes from `d` on up are those that were at `s`, and the others are as before.
abbrev pub Copied : ℕ → ℕ → ℕ → Memory → Memory → Type 0
Copied d s n mem mem' =
    (k : ℕ) → mem' k ≡ (if leb d k && ltb k (d + n) then mem (s + (k - d)) else mem k)

-- An upward copy from `s` to `d` never reads what it has written.
abbrev pub UpOk : ℕ → ℕ → ℕ → Type 0
UpOk d s n = (d ≤ s) ⊎ (s + n ≤ d)

abbrev Within : ℕ → ℕ → ℕ → Type 0
Within d n k = (d ≤ k) × (k < d + n)

abbrev Outside : ℕ → ℕ → ℕ → Type 0
Outside d n k = (k < d) ⊎ (d + n ≤ k)

abbrev in_range : ℕ → ℕ → ℕ → Bool
in_range d n k = leb d k && ltb k (d + n)

region_cases : (d n k : ℕ) → Within d n k ⊎ Outside d n k
region_cases d n k = omega arith

in_range-true : (d n k : ℕ) → Within d n k → in_range d n k ≡ true
in_range-true d n k h = ground (arith, h)

in_range-false : (d n k : ℕ) → Outside d n k → in_range d n k ≡ false
in_range-false d n k h = ground (arith, h)

module _ (d s n : ℕ) (mem mem' : Memory) where
  Copied-moved : (k : ℕ) → Copied d s n mem mem' → Within d n k → mem' k ≡ mem (s + (k - d))
  Copied-moved k c h =
      c k ∙ ap (λ b. if b then mem (s + (k - d)) else mem k) (in_range-true d n k h)

  Copied-kept : (k : ℕ) → Copied d s n mem mem' → Outside d n k → mem' k ≡ mem k
  Copied-kept k c h =
      c k ∙ ap (λ b. if b then mem (s + (k - d)) else mem k) (in_range-false d n k h)

  Copied-by :
      ((k : ℕ) → Within d n k → mem' k ≡ mem (s + (k - d)))
      → ((k : ℕ) → Outside d n k → mem' k ≡ mem k)
      → Copied d s n mem mem'
  Copied-by f g k = elim (region_cases d n k) [
    | inl h ↦ f k h ∙ sym (ap (λ b. if b then mem (s + (k - d)) else mem k) (in_range-true d n k h))
    | inr h ↦
        g k h ∙ sym (ap (λ b. if b then mem (s + (k - d)) else mem k) (in_range-false d n k h))
  ]

pub Copied-none : (d s : ℕ) (mem : Memory) → Copied d s 0 mem mem
Copied-none d s mem = Copied-by d s 0 mem mem (λ k h. omega (arith, h)) (λ k h. refl)

pub Copied-single : (d s : ℕ) (mem : Memory) → Copied d s 1 mem (update mem d (mem s))
Copied-single d s mem =
    Copied-by d s 1 mem _
      (λ k h.
        let e : k ≡ d = omega arith in
        ap (update mem d (mem s)) e ∙ update_self mem d (mem s) ∙ ap mem (omega arith))
      (λ k h. update-ne mem d k (mem s) (omega arith))

module _ (d s a b n : ℕ) (m m1 m2 : Memory) (en : n ≡ a + b) where
  pub Copied-join :
      (d' s' : ℕ)
      → d' ≡ d + a
      → s' ≡ s + a
      → UpOk d s n
      → Copied d s a m m1
      → Copied d' s' b m1 m2
      → Copied d s n m m2
  Copied-join d' s' ed es up f h =
      Copied-by d s n m m2
        (λ k w. elim (region_cases d a k) [
          | inl u ↦ Copied-kept d' s' b m1 m2 k h (omega arith) ∙ Copied-moved d s a m m1 k f u
          | inr u ↦
              let e : s' + (k - d') ≡ s + (k - d) = omega arith in
              Copied-moved d' s' b m1 m2 k h (omega arith)
              ∙ ap m1 e
              ∙ Copied-kept d s a m m1 (s + (k - d)) f (omega arith)
        ])
        (λ k w.
          Copied-kept d' s' b m1 m2 k h (omega arith) ∙ Copied-kept d s a m m1 k f (omega arith))

  pub Copied-join_down :
      s < d → Copied (d + a) (s + a) b m m1 → Copied d s a m1 m2 → Copied d s n m m2
  Copied-join_down lt f h =
      Copied-by d s n m m2
        (λ k w. elim (region_cases d a k) [
          | inl u ↦
              Copied-moved d s a m1 m2 k h u
              ∙ Copied-kept (d + a) (s + a) b m m1 (s + (k - d)) f (omega arith)
          | inr u ↦
              let e : (s + a) + (k - (d + a)) ≡ s + (k - d) = omega arith in
              Copied-kept d s a m1 m2 k h u
              ∙ Copied-moved (d + a) (s + a) b m m1 k f (omega arith)
              ∙ ap m e
        ])
        (λ k w.
          Copied-kept d s a m1 m2 k h (omega arith)
          ∙ Copied-kept (d + a) (s + a) b m m1 k f (omega arith))
