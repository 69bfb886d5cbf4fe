-- ===== src/Idt.antt =====
-- The interrupt descriptor table of student-distrib/idt.c and the gates of student-distrib/x86_desc.h.
-- The addresses of the handlers are parameters.
pub mod Exceptions
pub mod Gates
use unix_like_os.Base.{
  ℕ, zero, suc, ◌+◌, ◌-◌, ◌*◌, ◌/◌, ◌%◌, ◌^◌, ◌<◌, ◌≤◌, min, ◌≡◌, ◌≢◌, ◌⊎◌, ◌↔◌, inl, inr, ap, ap₂,
  refl, sym, ◌∙◌, fun_ext, subst, Bool, true, false, Option, none, some, List, [], ◌∷◌, ◌++◌, map,
  reverse, append-nil, append_assoc, arith, Bytes, ◌==◌, ltb, leb, if◌then◌else◌, ◌>>=◌, add32,
  sub32, minus_one, slt, sext8, ◌||◌, ◌&&◌, not, Bool-cases, All, length, get_elem?, get_or, set,
  replicate, update, update_self, update-ne, length-append, length-set, get_elem?-eq-get_or,
  get_or-set_self, get_or-set_ne, get_or_ext, for_range, for_range_inv, for_range-update,
  bit_or-zero, bit_or_disjoint, all_below, all_below_sound, ==_iff, ==_refl, ==_ne, ltb-true,
  ltb-false,
}

-- the fields of an `idt_desc_t` with a width of more than a byte are numbers below 2 ^ 16
pub record Gate : Type 0 where
  pub offset_15_00 : ℕ
  pub seg_selector : ℕ
  pub reserved4 : ℕ
  pub reserved3 : ℕ
  pub reserved2 : ℕ
  pub reserved1 : ℕ
  pub size : ℕ
  pub reserved0 : ℕ
  pub dpl : ℕ
  pub present : ℕ
  pub offset_31_16 : ℕ

-- the addresses of the handlers: `idt_func`, and the four that have a vector of their own
pub record Handlers : Type 0 where
  pub idt_func : ℕ → ℕ
  pub keyboard_wrapper : ℕ
  pub rtc_handler : ℕ
  pub scheduler_wrapper : ℕ
  pub syscall_handler : ℕ

abbrev pub keyboard_port : ℕ
keyboard_port = 0x21

abbrev pub rtc_port : ℕ
rtc_port = 0x28

abbrev pub pit_port : ℕ
pit_port = 0x20

abbrev pub syscall_port : ℕ
syscall_port = 0x80

abbrev pub user_level : ℕ
user_level = 3

abbrev pub kernel_cs : ℕ
kernel_cs = 0x10

abbrev pub exceptions : ℕ
exceptions = 19

-- `SET_IDT_ENTRY`: the masks and the shift keep 16 bits each
unfoldable pub set_idt_entry : Gate → ℕ → Gate
set_idt_entry str handler = record str {
  offset_31_16 = handler / 2 ^ 16 % 2 ^ 16;
  offset_15_00 = handler % 2 ^ 16;
}

-- `idt_set` before the loop; `junk` is what the local variable holds before
unfoldable pub first_gate : Gate → Gate
first_gate junk = record junk {
  seg_selector = kernel_cs;
  reserved0 = 0;
  reserved1 = 1;
  reserved2 = 1;
  reserved4 = 0;
  present = 1;
  size = 1;
  dpl = 0;
}

-- the loop over the exceptions: `idt_set` and the table
unfoldable pub set_exceptions : Handlers → Gate × (ℕ → Gate) → Gate × (ℕ → Gate)
unfolding set_idt_entry for_range
set_exceptions h s =
    for_range exceptions 0
      (λ i (idt_set, idt).
        let set = set_idt_entry (record idt_set { reserved3 = 1 }) (h.idt_func i) in
        (set, update idt i set))
      s

-- the three devices and the system call
unfoldable pub set_devices : Handlers → Gate × (ℕ → Gate) → ℕ → Gate
unfolding set_idt_entry
set_devices h (set0, idt0) =
    let set1 = set_idt_entry (record set0 { reserved3 = 0 }) h.keyboard_wrapper in
    let idt1 = update idt0 keyboard_port set1 in
    let set2 = set_idt_entry set1 h.rtc_handler in
    let idt2 = update idt1 rtc_port set2 in
    let set3 = set_idt_entry set2 h.scheduler_wrapper in
    let idt3 = update idt2 pit_port set3 in
    let set4 = set_idt_entry (record set3 { reserved3 = 1; dpl = user_level }) h.syscall_handler in
    update idt3 syscall_port set4

unfoldable pub idt_init : Handlers → Gate → (ℕ → Gate) → ℕ → Gate
unfolding first_gate set_exceptions set_devices
idt_init h junk idt = set_devices h (set_exceptions h (first_gate junk, idt))
