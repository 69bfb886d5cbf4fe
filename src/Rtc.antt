-- ===== src/Rtc.antt =====
-- The clock of student-distrib/rtc.c. Ports are as for the interrupt controllers; the calls that wait
-- for an interrupt are steps of the module Handshake.
pub mod Rate
pub mod Handshake
use unix_like_os.Base.{
  ℕ, zero, suc, ◌+◌, ◌-◌, ◌*◌, ◌/◌, ◌%◌, ◌^◌, ◌<◌, ◌≤◌, min, ◌≡◌, ◌≢◌, ◌⊎◌, ◌↔◌, inl, inr, ap, ap₂,
  refl, sym, ◌∙◌, fun_ext, subst, Bool, true, false, Option, none, some, List, [], ◌∷◌, ◌++◌, map,
  reverse, append-nil, append_assoc, arith, Bytes, ◌==◌, ltb, leb, if◌then◌else◌, ◌>>=◌, add32,
  sub32, minus_one, slt, sext8, ◌||◌, ◌&&◌, not, Bool-cases, All, length, get_elem?, get_or, set,
  replicate, update, update_self, update-ne, length-append, length-set, get_elem?-eq-get_or,
  get_or-set_self, get_or-set_ne, get_or_ext, for_range, for_range_inv, for_range-update,
  bit_or-zero, bit_or_disjoint, all_below, all_below_sound, ==_iff, ==_refl, ==_ne, ltb-true,
  ltb-false,
}
use Prim.Native.Nat.{bit_and, bit_or}
use unix_like_os.Pic.{Pic, outb, enable_irq, disable_irq, send_eoi}

abbrev pub rtc_address : ℕ
rtc_address = 0x70

abbrev pub rtc_data : ℕ
rtc_data = 0x71

abbrev pub rtc_irq_num : ℕ
rtc_irq_num = 8

-- `rtc_sync_flag` and `rtc_read_flag`
pub record Flags : Type 0 where
  pub sync : Bool
  pub reading : Bool

-- `rtc_init`, but for the table of operations
unfoldable pub rtc_init : (ℕ → ℕ) → Pic → Flags × Pic
rtc_init inb p = (
  record { sync = false; reading = false },
  outb (bit_or (inb rtc_data % 256) 0x40) rtc_data
      (outb 0x8B rtc_address (outb 0x8B rtc_address p)),
)

-- `rtc_handler`
unfoldable pub rtc_handler : Flags → Pic → Flags × Pic
rtc_handler f p = (
  if f.reading then record f { sync = true } else f,
  outb 0x0C rtc_address (send_eoi rtc_irq_num p),
)

-- `rtc_open`
unfoldable pub rtc_open : (ℕ → ℕ) → Pic → ℕ × Pic
unfolding outb
rtc_open inb p =
    let save_a = inb rtc_data % 256 in
    (0, outb (bit_or save_a 0x0F) rtc_data (outb 0x0A rtc_address (outb 0x0A rtc_address p)))

-- the choice of `rtc_freq` for a frequency of 1024 at most
unfoldable pub rate_for : ℕ → ℕ
rate_for f =
    if leb f 1024 && ltb 512 f
    then 0x06
    else if leb f 512 && ltb 256 f
    then 0x07
    else if leb f 256 && ltb 128 f
    then 0x08
    else if leb f 128 && ltb 64 f
    then 0x09
    else if leb f 64 && ltb 32 f
    then 0x0A
    else if leb f 32 && ltb 16 f
    then 0x0B
    else if leb f 16 && ltb 8 f
    then 0x0C
    else if leb f 8 && ltb 4 f
    then 0x0D
    else if leb f 4 && ltb 2 f
    then 0x0E
    else 0x0F

-- `rtc_write`, with the frequency at `buf`
unfoldable pub rtc_write : (ℕ → ℕ) → ℕ → Pic → ℕ × Pic
unfolding rate_for outb
rtc_write inb new_freq p =
    if ltb 1024 new_freq
    then (minus_one, p)
    else (let save_a = inb rtc_data % 256 in
        let p1 = outb 0x8A rtc_address (outb 0x8A rtc_address (disable_irq inb rtc_irq_num p)) in
        (
          0,
          enable_irq inb rtc_irq_num
              (outb (bit_or (bit_and save_a 0xF0) (rate_for new_freq)) rtc_data p1),
        ))

unfoldable pub rtc_close : ℕ
rtc_close = 0
