-- ===== src/Boot/Report.antt =====
-- The part of `entry` of student-distrib/kernel.c that prints what the boot loader has passed, and keeps
-- the address of the file system. `terminal_ptr` is NULL until `terminal_open`, which `entry` calls later.
pub mod Prints
pub mod Modules
use unix_like_os.Base.{
  ℕ, zero, suc, ◌+◌, ◌-◌, ◌*◌, ◌/◌, ◌%◌, ◌^◌, ◌<◌, ◌≤◌, min, ◌≡◌, ◌≢◌, ◌⊎◌, ◌↔◌, inl, inr, ap, ap₂,
  refl, sym, ◌∙◌, fun_ext, subst, Bool, true, false, Option, none, some, List, [], ◌∷◌, ◌++◌, map,
  reverse, append-nil, append_assoc, arith, Bytes, ◌==◌, ltb, leb, if◌then◌else◌, ◌>>=◌, add32,
  sub32, minus_one, slt, sext8, ◌||◌, ◌&&◌, not, Bool-cases, All, length, get_elem?, get_or, set,
  replicate, update, update_self, update-ne, length-append, length-set, get_elem?-eq-get_or,
  get_or-set_self, get_or-set_ne, get_or_ext, for_range, for_range_inv, for_range-update,
  bit_or-zero, bit_or_disjoint, all_below, all_below_sound, ==_iff, ==_refl, ==_ne, ltb-true,
  ltb-false,
}
use unix_like_os.Base.Strings.{chars}
use unix_like_os.Terminal.{Terminal, putch}
use unix_like_os.Klib.Console.{Console, clear}
use unix_like_os.Klib.Format.{Frame, printf}

-- `module_t`: `mod_start` and `mod_end`
pub record Module : Type 0 where
  pub mod_start : ℕ
  pub mod_end : ℕ

pub record MemoryMap : Type 0 where
  pub size : ℕ
  pub base_addr_low : ℕ
  pub base_addr_high : ℕ
  pub length_low : ℕ
  pub length_high : ℕ
  pub type : ℕ

-- `multiboot_info_t`, with the modules at `mods_addr`, the entries of the memory map at their addresses, and
-- the bytes of memory
pub record MultibootInfo : Type 0 where
  pub flags : ℕ
  pub mem_lower : ℕ
  pub mem_upper : ℕ
  pub boot_device : ℕ
  pub cmdline : ℕ
  pub mods_count : ℕ
  pub mods : ℕ → Module
  pub elf_num : ℕ
  pub elf_size : ℕ
  pub elf_addr : ℕ
  pub elf_shndx : ℕ
  pub mmap_length : ℕ
  pub mmap_addr : ℕ
  pub mmap_at : ℕ → MemoryMap
  pub memory : ℕ → ℕ

abbrev pub multiboot_magic : ℕ
multiboot_magic = 0x2BADB002

-- `CHECK_FLAG`
abbrev pub check_flag : ℕ → ℕ → Bool
check_flag flags bit = flags / 2 ^ bit % 2 == 1

-- `putch` with `terminal_ptr` at NULL: a character that would be written lies below VIDEO_MEM, or behind the 4 KB, and
-- `putch` returns; any other moves the cursor, and `scroll` moves rows at the address 0, not those of the screen
unfoldable pub early_putch : ℕ → Terminal → Terminal
unfolding putch
early_putch c t = if leb 0x20 c then t else record (putch c t) { video = t.video }

-- the effect of a literal that is printed
unfoldable pub early_text : Bytes → Terminal → Terminal
unfolding early_putch
early_text [] t = t
early_text (c ∷ text) t = early_text text (early_putch c t)

-- `printf` of a literal with words behind it, with `terminal_ptr` at NULL. What the conversions print is taken to be
-- characters that `putch` drops: digits are, and the command line of the boot loader has no control characters.
unfoldable pub print : Frame → List ℕ → Bytes → Terminal → Option Terminal
unfolding printf early_text
print f args text t =
    printf (record f { args = λ k. get_or args k (f.args k) % 2 ^ 32 }) (text ++ (0 ∷ [])) t
    >>= λ _. some (early_text text t)

-- `clear` of the library, on the screen's memory
unfoldable pub clear_video : Terminal → Terminal
unfolding clear
clear_video t =
    let byte : ℕ → ℕ = λ b. if b % 2 == 0 then t.video (b / 2) % 256 else t.video (b / 2) / 256 in
    let c : Console = clear (record { screen_x = 0; screen_y = 0; video_mem = byte }) in
    record t { video = λ k. c.video_mem (2 * k) + 256 * c.video_mem (2 * k + 1) }

-- the loop over the first bytes of a module
unfoldable pub print_bytes : ℕ → ℕ → Frame → (ℕ → ℕ) → ℕ → Terminal → Option Terminal
print_bytes zero i f memory start t = some t
print_bytes (suc rounds) i f memory start t =
    print f (sext8 (memory (start + i)) ∷ []) (chars "0x%x ") t >>= λ t1.
    print_bytes rounds (i + 1) f memory start t1

-- the body of the loop over the modules
unfoldable pub print_module : Frame → (ℕ → ℕ) → ℕ → Module → Terminal → Option Terminal
unfolding print_bytes
print_module f memory n mod_ t =
    print f (n ∷ mod_.mod_start ∷ []) (chars "Module %d loaded at address: 0x%#x\n") t >>= λ t1.
    print f (n ∷ mod_.mod_end ∷ []) (chars "Module %d ends at address: 0x%#x\n") t1 >>= λ t2.
    print f [] (chars "First few bytes of module:\n") t2 >>= λ t3.
    print_bytes 16 0 f memory mod_.mod_start t3 >>= λ t4. print f [] (chars "\n") t4

-- the loop over the modules, with `mods_count - mod_count` rounds left: `fs_start` and the terminal
unfoldable pub report_modules : ℕ → ℕ → Frame → MultibootInfo → ℕ → Terminal → Option (ℕ × Terminal)
unfolding print_module
report_modules zero n f info fs_start t = some (fs_start, t)
report_modules (suc rounds) n f info fs_start t =
    print_module f info.memory n (info.mods n) t >>= λ t1.
    report_modules rounds (n + 1) f info (info.mods n).mod_start t1

-- the loop over the memory map; each entry takes more than one byte, so that the length is fuel enough
-- where the addresses do not wrap
unfoldable pub report_map : ℕ → Frame → MultibootInfo → ℕ → Terminal → Option Terminal
report_map zero f info mmap t =
    if ltb mmap (add32 info.mmap_addr info.mmap_length) then none else some t
report_map (suc fuel) f info mmap t =
    let m = info.mmap_at mmap in
    let shown =
      print f
        (m.size ∷ m.base_addr_high ∷ m.base_addr_low ∷ m.type ∷ m.length_high ∷ m.length_low ∷ [])
        (chars " size = 0x%x,     base_addr = 0x%#x%#x\n     type = 0x%x,  length    = 0x%#x%#x\n")
        t
      >>= λ t1. report_map fuel f info (add32 mmap (m.size + 4)) t1 in
    if ltb mmap (add32 info.mmap_addr info.mmap_length) then shown else some t

-- a step that is taken when a flag is set
abbrev pub when_flag : MultibootInfo → ℕ → Option Terminal → Terminal → Option Terminal
when_flag info bit step t = if check_flag info.flags bit then step else some t

-- the flags, the memory, the boot device and the command line
unfoldable pub report_loader : Frame → MultibootInfo → Terminal → Option Terminal
report_loader f info t = print f (info.flags ∷ []) (chars "flags = 0x%#x\n") t >>= λ t1.
    when_flag info 0
      (print f (info.mem_lower ∷ info.mem_upper ∷ []) (chars "mem_lower = %uKB, mem_upper = %uKB\n")
        t1)
      t1
    >>= λ t2.
        when_flag info 1 (print f (info.boot_device ∷ []) (chars "boot_device = 0x%#x\n") t2) t2
        >>= λ t3. when_flag info 2 (print f (info.cmdline ∷ []) (chars "cmdline = %s\n") t3) t3

-- the section headers and the memory map
unfoldable pub report_tables : Frame → MultibootInfo → Terminal → Option Terminal
report_tables f info t =
    when_flag info 5
      (print f (info.elf_num ∷ info.elf_size ∷ info.elf_addr ∷ info.elf_shndx ∷ [])
        (chars "elf_sec: num = %u, size = 0x%#x, addr = 0x%#x, shndx = 0x%#x\n") t)
      t
    >>= λ t1.
        when_flag info 6
          (print f (info.mmap_addr ∷ info.mmap_length ∷ [])
              (chars "mmap_addr = 0x%#x, mmap_length = 0x%x\n") t1
            >>= λ t2. report_map info.mmap_length f info info.mmap_addr t2)
          t1

-- `entry` up to the tables: whether it goes on, `fs_start`, and the terminal
unfoldable pub report : Frame → ℕ → MultibootInfo → ℕ → Terminal → Option (Bool × ℕ × Terminal)
report f magic info fs_start t =
    let t0 = clear_video t in
    if not (magic == multiboot_magic)
    then (print f (magic ∷ []) (chars "Invalid magic number: 0x%#x\n") t0 >>= λ t1.
        some (false, fs_start, t1))
    else (report_loader f info t0 >>= λ t1.
        (if check_flag info.flags 3
          then report_modules info.mods_count 0 f info fs_start t1
          else some (fs_start, t1))
        >>= λ (fs, t2).
            if check_flag info.flags 4 && check_flag info.flags 5
            then (print f [] (chars "Both bits 4 and 5 are set.\n") t2 >>= λ t3.
                some (false, fs, t3))
            else (report_tables f info t2 >>= λ t3. some (true, fs, t3)))
