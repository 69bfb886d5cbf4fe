-- ===== src/Boot/Report/Modules.antt =====
-- What `entry` of student-distrib/kernel.c keeps of the information of the boot loader.
use unix_like_os.Base.{
  ℕ, zero, suc, ◌+◌, ◌-◌, ◌%◌, ◌^◌, ◌<◌, ◌≡◌, ◌∷◌, ◌++◌, Bytes, ◌==◌, if◌then◌else◌, ◌&&◌, not,
}
use unix_like_os.Terminal.{Terminal}
use unix_like_os.Klib.Text.{IsText}
use unix_like_os.Klib.Format.{Frame}
use unix_like_os.Boot.Report.{MultibootInfo, check_flag}

-- The address that the last module starts at, or the one before.
abbrev pub last_start : MultibootInfo → ℕ → ℕ
last_start info fs_start =
    if check_flag info.flags 3 && not (info.mods_count == 0)
    then (info.mods (info.mods_count - 1)).mod_start
    else fs_start

-- The information can be read: the command line is a text, and the memory map ends without a wrap.
pub record Readable (f : Frame) (info : MultibootInfo) : Type 0 where
  pub line : Bytes
  pub rest : Bytes
  pub is_text : IsText line
  pub line_at : f.bytes_at (info.cmdline % 2 ^ 32) ≡ line ++ (0 ∷ rest)
  pub map_end : info.mmap_addr + info.mmap_length < 2 ^ 32
  pub map_next :
      (a : ℕ) → a < info.mmap_addr + info.mmap_length → a + (info.mmap_at a).size + 4 < 2 ^ 32

-- The last of the modules from `n` on, or `fs_start`.
abbrev start_behind : MultibootInfo → ℕ → ℕ → ℕ → ℕ
start_behind info zero n fs_start = fs_start
start_behind info (suc rounds) n fs_start = (info.mods (n + rounds)).mod_start
