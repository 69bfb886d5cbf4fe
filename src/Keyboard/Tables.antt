-- ===== src/Keyboard/Tables.antt =====
-- The two tables of keys of student-distrib/keyboard.c.
use unix_like_os.Base.{
  ℕ, ◌+◌, ◌-◌, ◌<◌, ◌≤◌, ◌≡◌, ◌≢◌, ◌↔◌, refl, Bool, true, false, arith, ◌==◌, leb, if◌then◌else◌,
  ◌||◌, ◌&&◌, not, get_or, all_below, all_below_sound,
}
use unix_like_os.Keyboard.{keys, cap_keys}

abbrev pub key : ℕ → ℕ
key i = get_or keys i 0

abbrev pub cap_key : ℕ → ℕ
cap_key i = get_or cap_keys i 0

-- the tests, with the keys as variables
distinct : ℕ → ℕ → ℕ → ℕ → Bool
distinct i j a b = (a == 0) || not (a == b) || (i == j)

shifted : ℕ → ℕ → Bool
shifted a c =
    ((if a == 0 then c == 0 else not (c == 0)) && (not (leb 97 a && leb a 122) || (c == a - 32)))

distinct-true : (i j a b : ℕ) → distinct i j a b ≡ true → a ≢ 0 → a ≡ b → i ≡ j
unfolding distinct
distinct-true i j a b t h e = ground (arith, t, h, e)

shifted-true :
    (a c : ℕ) → shifted a c ≡ true → ((a ≡ 0) ↔ (c ≡ 0)) × (97 ≤ a → a ≤ 122 → c + 32 ≡ a)
unfolding shifted
shifted-true a c t =
    ((λ e. ground (arith, t, e), λ e. ground (arith, t, e)), λ l h. ground (arith, t, l, h))

distinct_table :
    all_below 59 (λ i.
      all_below 59 (λ j. distinct i j (key i) (key j) && distinct i j (cap_key i) (cap_key j)))
    ≡ true
unfolding all_below distinct
distinct_table = refl

shifted_table : all_below 59 (λ i. shifted (key i) (cap_key i)) ≡ true
unfolding all_below shifted
shifted_table = refl

and_true : (a b : Bool) → (a && b) ≡ true → (a ≡ true) × (b ≡ true)
and_true true b h = (refl, h)
and_true false b h = absurd (cc h)

-- No two scan codes give the same character, with or without shift; a scan code has a character with
-- shift exactly when it has one without; and the letters become capitals.
pub keys_lem :
    (i j : ℕ)
    → i < 59
    → j < 59
    → (key i ≢ 0 → key i ≡ key j → i ≡ j)
      × (cap_key i ≢ 0 → cap_key i ≡ cap_key j → i ≡ j)
      × ((key i ≡ 0) ↔ (cap_key i ≡ 0))
      × (97 ≤ key i → key i ≤ 122 → cap_key i + 32 ≡ key i)
keys_lem i j hi hj =
    let d = and_true _ _ (all_below_sound 59 _ j (all_below_sound 59 _ i distinct_table hi) hj) in
    let (both, letters) =
      shifted-true (key i) (cap_key i) (all_below_sound 59 _ i shifted_table hi) in
    (distinct-true i j _ _ d.0, distinct-true i j _ _ d.1, both, letters)
