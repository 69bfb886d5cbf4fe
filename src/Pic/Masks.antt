-- ===== src/Pic/Masks.antt =====
-- `enable_irq` and `disable_irq` of student-distrib/i8259.c, by the bits of the masks.
use unix_like_os.Base.{
  ℕ, ◌-◌, ◌/◌, ◌%◌, ◌^◌, ◌<◌, ◌≡◌, inl, inr, refl, Bool, true, ◌∷◌, arith, ◌==◌, ltb, if◌then◌else◌,
  Bool-cases, all_below, all_below_sound, ==_iff,
}
use unix_like_os.Pic.{Pic, master_data, slave_data, clear_bit, set_bit, enable_irq, disable_irq}

-- bit `j` of a byte
abbrev pub bit : ℕ → ℕ → ℕ
bit x j = x / 2 ^ j % 2

-- a check of all bytes, and of all bits `k` and `j` of a byte
on_bytes : (ℕ → ℕ → ℕ → Bool) → Bool
unfolding all_below
on_bytes test = all_below 8 (λ k. all_below 8 (λ j. all_below 256 (λ x. test k j x)))

on_bytes_sound :
    (test : ℕ → ℕ → ℕ → Bool)
    → on_bytes test ≡ true
    → (k j x : ℕ) → k < 8
    → j < 8
    → x < 256
    → test k j x ≡ true
unfolding on_bytes
on_bytes_sound test h k j x hk hj hx =
    all_below_sound 256 (λ x. test k j x) x
      (all_below_sound 8 (λ j. all_below 256 (λ x. test k j x)) j
        (all_below_sound 8 (λ k. all_below 8 (λ j. all_below 256 (λ x. test k j x))) k h hk) hj)
      hx

clear_table : on_bytes (λ k j x. bit (clear_bit x k) j == (if j == k then 0 else bit x j)) ≡ true
unfolding on_bytes clear_bit
clear_table = refl

set_table : on_bytes (λ k j x. bit (set_bit x k) j == (if j == k then 1 else bit x j)) ≡ true
unfolding on_bytes set_bit
set_table = refl

-- a bit cleared or set in a byte gives a byte, and changes no other bit
cleared :
    (k x : ℕ)
    → k < 8
    → x < 256
    → (clear_bit x k % 256 ≡ clear_bit x k)
      × ((j : ℕ) → j < 8 → bit (clear_bit x k) j ≡ (if j == k then 0 else bit x j))
unfolding clear_bit
cleared k x hk hx =
    (omega arith, λ j h. (==_iff _ _).0 (on_bytes_sound _ clear_table k j x hk h hx))

was_set :
    (k x : ℕ)
    → k < 8
    → x < 256
    → (set_bit x k % 256 ≡ set_bit x k)
      × ((j : ℕ) → j < 8 → bit (set_bit x k) j ≡ (if j == k then 1 else bit x j))
unfolding set_bit
was_set k x hk hx = (omega arith, λ j h. (==_iff _ _).0 (on_bytes_sound _ set_table k j x hk h hx))

-- the data port of the controller of an interrupt
abbrev pub data_port : ℕ → ℕ
data_port irq = if ltb irq 8 then master_data else slave_data

module _ (inb : ℕ → ℕ) (irq : ℕ) (p : Pic) (small : irq < 16)
    (bytes : (port : ℕ) → inb port < 256) where
  -- the shape of both operations: a mask `m` from what was read, written to the same port
  abbrev Masked : ℕ → Pic → Type 0
  Masked value q =
      (m : ℕ) × (q.outs ≡ (data_port irq, m) ∷ p.outs)
      × ((j : ℕ) → j < 8 → bit m j ≡ (if j == irq % 8 then value else bit (inb (data_port irq)) j))

  -- `enable_irq`, for the interrupts 0 to 15: it writes to the data port of the interrupt's controller
  -- the mask that it reads there, with the bit of the interrupt cleared and no other bit changed.
  pub enable_irq-Masked : Masked 0 (enable_irq inb irq p)
  unfolding enable_irq
  enable_irq-Masked = elim (Bool-cases (ltb irq 8)) [
    | inl low ↦
        let e : irq % 8 ≡ irq = ground arith in
        let (byte, bits) = cleared irq (inb master_data) (ground arith) (bytes master_data) in
        rw (low, e) (clear_bit (inb master_data) irq, rw byte, bits)
    | inr high ↦
        let e : irq % 8 ≡ irq - 8 = ground arith in
        let (byte, bits) = cleared (irq - 8) (inb slave_data) (omega arith) (bytes slave_data) in
        rw (high, e) (clear_bit (inb slave_data) (irq - 8), rw byte, bits)
  ]

  -- `disable_irq`, for the interrupts 0 to 15: it writes to the data port of the interrupt's
  -- controller the mask that it reads there, with the bit of the interrupt set and no other bit
  -- changed.
  pub disable_irq-Masked : Masked 1 (disable_irq inb irq p)
  unfolding disable_irq
  disable_irq-Masked = elim (Bool-cases (ltb irq 8)) [
    | inl low ↦
        let e : irq % 8 ≡ irq = ground arith in
        let (byte, bits) = was_set irq (inb master_data) (ground arith) (bytes master_data) in
        rw (low, e) (set_bit (inb master_data) irq, rw byte, bits)
    | inr high ↦
        let e : irq % 8 ≡ irq - 8 = ground arith in
        let (byte, bits) = was_set (irq - 8) (inb slave_data) (omega arith) (bytes slave_data) in
        rw (high, e) (set_bit (inb slave_data) (irq - 8), rw byte, bits)
  ]
