-- ===== src/Klib/Memory.antt =====
-- The memory functions of student-distrib/lib.c, which are assembly: their loops and string instructions
-- on registers and a memory of bytes. A register is a number below 2 ^ 32.
pub mod Set
pub mod Region
pub mod Move
use unix_like_os.Base.{
  ℕ, zero, suc, ◌+◌, ◌-◌, ◌*◌, ◌/◌, ◌%◌, ◌^◌, ◌<◌, ◌≤◌, min, ◌≡◌, ◌≢◌, ◌⊎◌, ◌↔◌, inl, inr, ap, ap₂,
  refl, sym, ◌∙◌, fun_ext, subst, Bool, true, false, Option, none, some, List, [], ◌∷◌, ◌++◌, map,
  reverse, append-nil, append_assoc, arith, Bytes, ◌==◌, ltb, leb, if◌then◌else◌, ◌>>=◌, add32,
  sub32, minus_one, slt, sext8, ◌||◌, ◌&&◌, not, Bool-cases, All, length, get_elem?, get_or, set,
  replicate, update, update_self, update-ne, length-append, length-set, get_elem?-eq-get_or,
  get_or-set_self, get_or-set_ne, get_or_ext, for_range, for_range_inv, for_range-update,
  bit_or-zero, bit_or_disjoint, all_below, all_below_sound, ==_iff, ==_refl, ==_ne, ltb-true,
  ltb-false,
}
use Prim.Native.Nat.{bit_or, bit_and}

abbrev pub Memory : Type 0
Memory = ℕ → ℕ

-- what the loops of `memset` and `memcpy` leave in `ecx`, `edi`, `esi` and memory
pub record Registers : Type 0 where
  pub ecx : ℕ
  pub edi : ℕ
  pub esi : ℕ
  pub mem : Memory

-- a store of the `w` low bytes of `eax`, the lowest first
unfoldable pub store_bytes : ℕ → ℕ → ℕ → Memory → Memory
store_bytes zero eax edi mem = mem
store_bytes (suc w) eax edi mem =
    store_bytes w (eax / 256) (add32 edi 1) (update mem edi (eax % 256))

-- `cld; rep stosb`, `stosw` and `stosl`: `w` is the width in bytes
unfoldable pub rep_stos : ℕ → ℕ → ℕ → ℕ → Memory → ℕ × Memory
unfolding store_bytes
rep_stos w eax zero edi mem = (edi, mem)
rep_stos w eax (suc ecx) edi mem = rep_stos w eax ecx (add32 edi w) (store_bytes w eax edi mem)

-- the loop at `.memset_top`
unfoldable pub set_top : ℕ → ℕ → ℕ → Memory → Registers
set_top al zero edi mem = record { ecx = 0; edi = edi; esi = 0; mem = mem }
set_top al (suc ecx) edi mem =
    let rest = set_top al ecx (add32 edi 1) (update mem edi al) in
    if bit_and 3 edi == 0 then record { ecx = suc ecx; edi = edi; esi = 0; mem = mem } else rest

-- the loop at `.memset_bottom`
unfoldable pub set_bottom : ℕ → ℕ → ℕ → Memory → Memory
set_bottom al zero edi mem = mem
set_bottom al (suc edx) edi mem = set_bottom al edx (add32 edi 1) (update mem edi al)

-- `c << 24 | c << 16 | c << 8 | c`
abbrev pub four_times : ℕ → ℕ
four_times c = bit_or (bit_or (bit_or (c * 2 ^ 24) (c * 2 ^ 16)) (c * 2 ^ 8)) c % 2 ^ 32

unfoldable pub memset : ℕ → ℕ → ℕ → Memory → Memory
unfolding set_top set_bottom rep_stos
memset s c n mem =
    let eax = four_times (c % 256) in
    let top = set_top (eax % 256) n s mem in
    let (edi, middle) = rep_stos 4 eax (top.ecx / 4) top.edi top.mem in
    if top.ecx == 0 then top.mem else set_bottom (eax % 256) (bit_and 3 top.ecx) edi middle

unfoldable pub memset_word : ℕ → ℕ → ℕ → Memory → Memory
unfolding rep_stos
memset_word s c n mem = (rep_stos 2 c n s mem).1

unfoldable pub memset_dword : ℕ → ℕ → ℕ → Memory → Memory
unfolding rep_stos
memset_dword s c n mem = (rep_stos 4 c n s mem).1

-- a move of `w` bytes from `esi` to `edi`, all read before one is written
abbrev pub move_bytes : ℕ → ℕ → ℕ → Memory → Memory
move_bytes w edi esi mem k = if leb edi k && ltb k (edi + w) then mem (esi + (k - edi)) else mem k

-- `cld; rep movsb` and `movsl`
unfoldable pub rep_movs : ℕ → ℕ → ℕ → ℕ → Memory → Registers
rep_movs w zero edi esi mem = record { ecx = 0; edi = edi; esi = esi; mem = mem }
rep_movs w (suc ecx) edi esi mem =
    rep_movs w ecx (add32 edi w) (add32 esi w) (move_bytes w edi esi mem)

-- `std; rep movsb`
unfoldable pub rep_movsb_down : ℕ → ℕ → ℕ → Memory → Memory
rep_movsb_down zero edi esi mem = mem
rep_movsb_down (suc ecx) edi esi mem =
    rep_movsb_down ecx (sub32 edi 1) (sub32 esi 1) (update mem edi (mem esi))

-- the loop at `.memcpy_top`
unfoldable pub copy_top : ℕ → ℕ → ℕ → Memory → Registers
copy_top zero edi esi mem = record { ecx = 0; edi = edi; esi = esi; mem = mem }
copy_top (suc ecx) edi esi mem =
    let rest = copy_top ecx (add32 edi 1) (add32 esi 1) (update mem edi (mem esi)) in
    if bit_and 3 edi == 0 then record { ecx = suc ecx; edi = edi; esi = esi; mem = mem } else rest

-- the loop at `.memcpy_bottom`
unfoldable pub copy_bottom : ℕ → ℕ → ℕ → Memory → Memory
copy_bottom zero edi esi mem = mem
copy_bottom (suc edx) edi esi mem =
    copy_bottom edx (add32 edi 1) (add32 esi 1) (update mem edi (mem esi))

unfoldable pub memcpy : ℕ → ℕ → ℕ → Memory → Memory
unfolding copy_top copy_bottom rep_movs
memcpy dest src n mem =
    let top = copy_top n dest src mem in
    let middle = rep_movs 4 (top.ecx / 4) top.edi top.esi top.mem in
    if top.ecx == 0
    then top.mem
    else copy_bottom (bit_and 3 top.ecx) middle.edi middle.esi middle.mem

-- `memmove`: the direction flag and the memory after the call
unfoldable pub memmove : ℕ → ℕ → ℕ → Memory → Bool × Memory
unfolding rep_movs rep_movsb_down
memmove dest src n mem =
    if leb dest src
    then (false, (rep_movs 1 n dest src mem).mem)
    else (true, rep_movsb_down n (sub32 (add32 dest n) 1) (sub32 (add32 src n) 1) mem)
