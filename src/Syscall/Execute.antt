-- ===== src/Syscall/Execute.antt =====
-- `execute` of student-distrib/syscall.c, and the loading of a program. What `execute` does once it
-- has left for the new program is not part of its result: `enters` says with which addresses and
-- which memory the program starts.
use unix_like_os.Base.{
  ℕ, ◌+◌, ◌*◌, ◌^◌, Bool, Option, none, some, Bytes, ◌==◌, ltb, leb, if◌then◌else◌, ◌>>=◌, add32,
  sub32, minus_one, slt, ◌||◌, ◌&&◌, not, update,
}
use unix_like_os.Fs.{Dentry, Image, read_dentry_by_name, read_data, file_length, copy_to}
use unix_like_os.Proc.{
  Procs, max_processes, null_pcb, get_new_pcb, get_cur_pcb, pcb_init, pcb_destroy,
}
use unix_like_os.Paging.{Paging, new_task_pd}
use unix_like_os.Syscall.Command.{check_command}

abbrev pub elf_header_size : ℕ
elf_header_size = 52

abbrev pub page_virt_addr : ℕ
page_virt_addr = 0x8000000

abbrev pub image_start : ℕ
image_start = 0x08048000

-- the word at `at`, low byte first
abbrev pub word_at : (ℕ → ℕ) → ℕ → ℕ
word_at b at = b at + 2 ^ 8 * b (at + 1) + 2 ^ 16 * b (at + 2) + 2 ^ 24 * b (at + 3)

abbrev pub has_magic : (ℕ → ℕ) → Bool
has_magic b = (b 0 == 0x7F) && (b 1 == 69) && (b 2 == 76) && (b 3 == 70)

-- `check_executable`: the status, and what is stored through `entry_addr`. `dentry` and `header` are
-- what the two local variables hold before.
unfoldable pub check_executable : Image → Dentry → (ℕ → ℕ) → Bytes → Option (ℕ × Option ℕ)
check_executable img dentry header exec_name =
    read_dentry_by_name img exec_name dentry >>= λ (found, d).
    let elf = (read_data img d.inode 0 header elf_header_size).1 in
    let entry = word_at elf 24 in
    some (
      if found == minus_one
      then (minus_one, none)
      else if d.inode == 0
      then (minus_one, none)
      else if not (has_magic elf)
      then (minus_one, none)
      else if ltb entry page_virt_addr || ltb (page_virt_addr + 0x400000) entry
      then (minus_one, none)
      else (0, some entry))

-- `copy_file_image`: the memory of the program after the call. `buf` is what the local array holds
-- before, and `room` how many bytes the kernel's stack of 8 KB has left for it. `none`: the file is larger
-- than this, and the array runs off the stack, or than the page of the program, and the copy faults.
unfoldable pub copy_file_image : Image → Dentry → (ℕ → ℕ) → ℕ → Bytes → (ℕ → ℕ) → Option (ℕ → ℕ)
copy_file_image img dentry buf room fname mem = read_dentry_by_name img fname dentry >>= λ (_, d).
    let fsize = file_length img d.inode in
    if leb fsize room && leb (image_start + fsize) (page_virt_addr + 0x400000)
    then some (copy_to mem image_start (read_data img d.inode 0 buf fsize).1 fsize)
    else none

-- `pcbs[n].parent_id = id`
abbrev pub set_parent : ℕ → ℕ → Procs → Procs
set_parent n id p = record p { pcbs = update p.pcbs n (record (p.pcbs n) { parent_id = id }) }

-- the two tests of `execute` that choose the parent of block `n`, for the `cur_pcb_ptr` before
unfoldable pub adopt : ℕ → ℕ → Procs → Procs
adopt cur n p =
    let q = if cur == null_pcb then p else set_parent n (p.pcbs cur).program_id p in
    if cur == 0 then set_parent n 0 q else q

-- The part of `execute` that makes the new process: its block, and the processes; `none` when there
-- are too many. The current terminal is `t`.
unfoldable pub start_process : ℕ → Procs → Option (ℕ × Procs)
unfolding adopt
start_process t p =
    let p1 = record p { process_number = add32 p.process_number 1 } in
    let n = get_new_pcb p1 in
    if leb max_processes (add32 p.process_number 1)
    then none
    else some (n, adopt (get_cur_pcb p1) n (pcb_init t n p1))

-- What the kernel has in hand when `execute` is called: the image, the local variables' old values, the
-- stack registers, and the room on the stack for the array of `copy_file_image`.
pub record Machine : Type 0 where
  pub image : Image
  pub stale_dentry : Dentry
  pub stale_bytes : ℕ → ℕ
  pub stack_room : ℕ
  pub esp : ℕ
  pub ebp : ℕ

-- how `execute` ends
pub data Ended : Type 0 where
  returns : ℕ → Procs → Paging → Ended
  -- the program's entry, the kernel stack in the TSS, the processes, the tables, and the memory
  enters : ℕ → ℕ → Procs → Paging → (ℕ → ℕ) → Ended

-- The part of `execute` behind the checks, for the block `n` of the new process.
unfoldable pub load : Machine → ℕ → ℕ → Procs → Paging → (ℕ → ℕ) → Option Ended
load m n entry p g mem =
    let cur = p.pcbs p.current in
    let (_, g1) = new_task_pd (sub32 cur.program_id 1) g in
    copy_file_image m.image m.stale_dentry m.stale_bytes m.stack_room cur.cmd_name mem >>= λ mem1.
    let p1 = record p {
      pcbs = update p.pcbs p.current (record cur { esp = m.esp; ebp = m.ebp });
    } in
    some (enters entry (p1.pcbs n).address p1 g1 mem1)

-- The part of `execute` behind `start_process`, for the new block `n`.
unfoldable pub run_command :
    ℕ → Machine → Option Bytes → ℕ → Procs → Paging → (ℕ → ℕ) → Option Ended
unfolding load
run_command t m command n p g mem =
    check_command command (p.pcbs n).cmd_name (p.pcbs n).cmd_args >>= λ (parsed, name, args).
    let p1 = record p {
      pcbs = update p.pcbs n (record (p.pcbs n) { cmd_name = name; cmd_args = args });
    } in
    if not (parsed == 0)
    then some (returns minus_one (pcb_destroy t n p1) g)
    else (check_executable m.image m.stale_dentry m.stale_bytes name >>= λ (status, stored).
        if slt status 0
        then some (returns minus_one (pcb_destroy t n p1) g)
        else load m n (elim stored [ none ↦ 0 | some e ↦ e ]) p1 g mem)

unfoldable pub execute : ℕ → Machine → Option Bytes → Procs → Paging → (ℕ → ℕ) → Option Ended
unfolding start_process run_command
execute t m command p g mem = elim (start_process t p) [
  | none ↦ some (returns 0 p g)
  | some (n, p1) ↦ run_command t m command n p1 g mem
]
