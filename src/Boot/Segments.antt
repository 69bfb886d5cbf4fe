-- ===== src/Boot/Segments.antt =====
-- The descriptors of the LDT and of the TSS that `entry` of student-distrib/kernel.c makes, with the
-- macros of student-distrib/x86_desc.h.
use unix_like_os.Base.{ℕ, ◌+◌, ◌*◌, ◌/◌, ◌%◌, ◌^◌, ◌<◌, ◌≡◌, refl, arith}

-- the fields of a `seg_desc_t`
pub record Segment : Type 0 where
  pub seg_lim_15_00 : ℕ
  pub base_15_00 : ℕ
  pub base_23_16 : ℕ
  pub type : ℕ
  pub sys : ℕ
  pub dpl : ℕ
  pub present : ℕ
  pub seg_lim_19_16 : ℕ
  pub avail : ℕ
  pub reserved : ℕ
  pub opsize : ℕ
  pub granularity : ℕ
  pub base_31_24 : ℕ

-- `SET_LDT_PARAMS` and `SET_TSS_PARAMS`: each mask and shift keeps the bits of its field
unfoldable pub set_params : ℕ → ℕ → Segment → Segment
set_params addr lim str = record str {
  base_31_24 = addr / 2 ^ 24 % 2 ^ 8;
  base_23_16 = addr / 2 ^ 16 % 2 ^ 8;
  base_15_00 = addr % 2 ^ 16;
  seg_lim_19_16 = lim / 2 ^ 16 % 2 ^ 4;
  seg_lim_15_00 = lim % 2 ^ 16;
}

abbrev pub tss_size_constant : ℕ
tss_size_constant = 104

-- `the_ldt_desc`; `junk` is what the local variable holds before
unfoldable pub make_ldt_desc : ℕ → ℕ → Segment → Segment
unfolding set_params
make_ldt_desc ldt ldt_size junk = set_params ldt ldt_size (record junk {
  granularity = 0;
  opsize = 1;
  reserved = 0;
  avail = 0;
  present = 1;
  dpl = 0;
  sys = 0;
  type = 2;
})

-- `the_tss_desc`
unfoldable pub make_tss_desc : ℕ → ℕ → Segment → Segment
unfolding set_params
make_tss_desc tss tss_size junk = set_params tss tss_size (record junk {
  granularity = 0;
  opsize = 0;
  reserved = 0;
  avail = 0;
  seg_lim_19_16 = tss_size_constant / 2 ^ 16 * 2 ^ 16 % 2 ^ 4;
  present = 1;
  dpl = 0;
  sys = 0;
  type = 9;
  seg_lim_15_00 = tss_size_constant % 2 ^ 16;
})

-- what the processor reads from a descriptor: the base and the limit in bytes
abbrev pub base_of : Segment → ℕ
base_of d = d.base_31_24 * 2 ^ 24 + d.base_23_16 * 2 ^ 16 + d.base_15_00

abbrev pub limit_of : Segment → ℕ
limit_of d = d.seg_lim_19_16 * 2 ^ 16 + d.seg_lim_15_00

-- a present system descriptor of level 0 for the `lim + 1` bytes from `addr` on
abbrev pub Describes : ℕ → ℕ → ℕ → Segment → Type 0
Describes kind addr lim d =
    (base_of d ≡ addr)
    × (limit_of d ≡ lim)
    × (d.granularity ≡ 0)
    × (d.present ≡ 1)
    × (d.dpl ≡ 0)
    × (d.sys ≡ 0)
    × (d.type ≡ kind)

-- The two descriptors that the boot puts into the GDT stand for the LDT, as a system segment of type 2, and for
-- the TSS, as an available one of type 9, at their addresses and with their limits, present and of level 0.
pub make_ldt_desc-make_tss_desc :
    (ldt ldt_size tss tss_size : ℕ) (junk : Segment)
    → ldt < 2 ^ 32
    → tss < 2 ^ 32
    → ldt_size < 2 ^ 20
    → tss_size < 2 ^ 20
    → Describes 2 ldt ldt_size (make_ldt_desc ldt ldt_size junk)
      × Describes 9 tss tss_size (make_tss_desc tss tss_size junk)
unfolding make_ldt_desc make_tss_desc
make_ldt_desc-make_tss_desc ldt ldt_size tss tss_size junk a b c d = (
  (omega arith, omega arith, refl, refl, refl, refl, refl),
  (omega arith, omega arith, refl, refl, refl, refl, refl),
)
