-- ===== src/Pic.antt =====
-- The interrupt controllers of student-distrib/i8259.c. The log holds what `outb` writes, port and byte,
-- the last first; `inb` is what the controllers answer on a port.
pub mod Masks
use unix_like_os.Base.{
  ℕ, zero, suc, ◌+◌, ◌-◌, ◌*◌, ◌/◌, ◌%◌, ◌^◌, ◌<◌, ◌≤◌, min, ◌≡◌, ◌≢◌, ◌⊎◌, ◌↔◌, inl, inr, ap, ap₂,
  refl, sym, ◌∙◌, fun_ext, subst, Bool, true, false, Option, none, some, List, [], ◌∷◌, ◌++◌, map,
  reverse, append-nil, append_assoc, arith, Bytes, ◌==◌, ltb, leb, if◌then◌else◌, ◌>>=◌, add32,
  sub32, minus_one, slt, sext8, ◌||◌, ◌&&◌, not, Bool-cases, All, length, get_elem?, get_or, set,
  replicate, update, update_self, update-ne, length-append, length-set, get_elem?-eq-get_or,
  get_or-set_self, get_or-set_ne, get_or_ext, for_range, for_range_inv, for_range-update,
  bit_or-zero, bit_or_disjoint, all_below, all_below_sound, ==_iff, ==_refl, ==_ne, ltb-true,
  ltb-false,
}
use Prim.Native.Nat.{bit_and, bit_or}

-- `master_mask`, `slave_mask` and the log
pub record Pic : Type 0 where
  pub master_mask : ℕ
  pub slave_mask : ℕ
  pub outs : List (ℕ × ℕ)

abbrev pub master_port : ℕ
master_port = 0x20

abbrev pub slave_port : ℕ
slave_port = 0xA0

abbrev pub master_data : ℕ
master_data = 0x21

abbrev pub slave_data : ℕ
slave_data = 0xA1

abbrev pub max_irq : ℕ
max_irq = 8

unfoldable pub outb : ℕ → ℕ → Pic → Pic
outb byte port p = record p { outs = (port, byte % 256) ∷ p.outs }

unfoldable pub i8259_init : Pic → Pic
unfolding outb
i8259_init p =
    let icw1 = outb 0x11 slave_port (outb 0x11 master_port p) in
    let icw2 = outb 0x28 slave_data (outb 0x20 master_data icw1) in
    let icw3 = outb 0x02 slave_data (outb 0x04 master_data icw2) in
    let icw4 = outb 0x01 slave_data (outb 0x01 master_data icw3) in
    outb 0xFF slave_data (outb 0xFB master_data icw4)

-- `x & ~(1 << k)` and `x | (1 << k)`, stored in a byte
unfoldable pub clear_bit : ℕ → ℕ → ℕ
clear_bit x k = bit_and x (minus_one - 2 ^ k) % 256

unfoldable pub set_bit : ℕ → ℕ → ℕ
set_bit x k = bit_or x (2 ^ k) % 256

unfoldable pub enable_irq : (ℕ → ℕ) → ℕ → Pic → Pic
unfolding clear_bit outb
enable_irq inb irq p =
    if ltb irq max_irq
    then (let mask = clear_bit (inb master_data) irq in
        outb mask master_data (record p { master_mask = mask }))
    else (let mask = clear_bit (inb slave_data) (irq - max_irq) in
        outb mask slave_data (record p { slave_mask = mask }))

unfoldable pub disable_irq : (ℕ → ℕ) → ℕ → Pic → Pic
unfolding set_bit outb
disable_irq inb irq p =
    if ltb irq max_irq
    then (let mask = set_bit (inb master_data) irq in
        outb mask master_data (record p { master_mask = mask }))
    else (let mask = set_bit (inb slave_data) (irq - max_irq) in
        outb mask slave_data (record p { slave_mask = mask }))

unfoldable pub send_eoi : ℕ → Pic → Pic
unfolding outb
send_eoi irq p =
    if leb max_irq irq
    then outb (bit_or 0x60 2) master_port (outb (bit_or 0x60 (irq - max_irq)) slave_port p)
    else outb (bit_or 0x60 irq) master_port p
