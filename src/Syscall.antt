-- ===== src/Syscall.antt =====
-- The system calls of student-distrib/syscall.c that work on the descriptors and the arguments of the
-- process that runs. An `int32_t` argument is its bit pattern.
pub mod Command
pub mod ReadWrite
pub mod Descriptors
pub mod Closed
pub mod Execute
pub mod Adopt
pub mod Start
pub mod Tree
pub mod Run
pub mod Enter
pub mod Loader
pub mod Halt
pub mod Switch
pub mod Screens
pub mod Refine
pub mod Leave
pub mod Return
pub mod Parse
pub mod Number
use unix_like_os.Base.{
  ℕ, zero, suc, ◌+◌, ◌-◌, ◌*◌, ◌/◌, ◌%◌, ◌^◌, ◌<◌, ◌≤◌, min, ◌≡◌, ◌≢◌, ◌⊎◌, ◌↔◌, inl, inr, ap, ap₂,
  refl, sym, ◌∙◌, fun_ext, subst, Bool, true, false, Option, none, some, List, [], ◌∷◌, ◌++◌, map,
  reverse, append-nil, append_assoc, arith, Bytes, ◌==◌, ltb, leb, if◌then◌else◌, ◌>>=◌, add32,
  sub32, minus_one, slt, sext8, ◌||◌, ◌&&◌, not, Bool-cases, All, length, get_elem?, get_or, set,
  replicate, update, update_self, update-ne, length-append, length-set, get_elem?-eq-get_or,
  get_or-set_self, get_or-set_ne, get_or_ext, for_range, for_range_inv, for_range-update,
  bit_or-zero, bit_or_disjoint, all_below, all_below_sound, ==_iff, ==_refl, ==_ne, ltb-true,
  ltb-false,
}
use unix_like_os.Proc.{
  Pcb, Descriptor, Ops, no_ops, file_ops, rtc_ops, terminal_ops, stdin_ops, stdout_ops, fd_min_idx,
  fd_max_idx, remove_fd,
}
use unix_like_os.Files.{close_file}
use unix_like_os.Paging.{Paging, vidmap_addr, create_vidmap}

-- the functions that the tables of operations name, and the NULL of the standard files
pub data Driver : Type 0 where
  file_driver rtc_driver terminal_driver null_driver : Driver

-- What `read` and `write` do: they return -1, or they call the operation of the descriptor.
pub data Dispatch : Type 0 where
  fails : Dispatch
  calls : Driver → Dispatch

-- `readptr` and `writeptr` of each table, as `fs_init`, `rtc_init` and `terminal_init` set them
unfoldable pub readptr : Ops → Driver
readptr no_ops = null_driver
readptr file_ops = file_driver
readptr rtc_ops = rtc_driver
readptr terminal_ops = terminal_driver
readptr stdin_ops = terminal_driver
readptr stdout_ops = null_driver

unfoldable pub writeptr : Ops → Driver
writeptr no_ops = null_driver
writeptr file_ops = file_driver
writeptr rtc_ops = rtc_driver
writeptr terminal_ops = terminal_driver
writeptr stdin_ops = null_driver
writeptr stdout_ops = terminal_driver

-- `read(fd, buf, nbytes)`, where `null` says that `buf` is NULL
unfoldable pub read : ℕ → Bool → Pcb → Dispatch
unfolding readptr
read fd null pcb =
    if (pcb.file_array fd).flags == 0
    then fails
    else if null
    then fails
    else if slt fd_max_idx fd
    then fails
    else if slt fd 0
    then fails
    else if fd == 1
    then fails
    else calls (readptr (pcb.file_array fd).ops)

-- `write(fd, buf, nbytes)`: the block that the checks read, and that of `pcbs[program_id]`
unfoldable pub write : ℕ → Bool → Pcb → Pcb → Dispatch
unfolding writeptr
write fd null pcb by_id =
    if (pcb.file_array fd).flags == 0
    then fails
    else if null
    then fails
    else if slt fd_max_idx fd
    then fails
    else if not (slt 0 fd)
    then fails
    else calls (writeptr (by_id.file_array fd).ops)

-- the call of `closeptr`; `none` is a call through NULL
unfoldable pub closeptr : ℕ → Pcb → Option Pcb
unfolding close_file
closeptr fd pcb = elim (pcb.file_array fd).ops [
  | no_ops ↦ none
  | file_ops ↦ some (close_file fd pcb).1
  | _ ↦ some pcb
]

-- `close(fd)`: the status and the process
unfoldable pub close : ℕ → Pcb → Option (ℕ × Pcb)
unfolding closeptr remove_fd
close fd pcb =
    let d = pcb.file_array fd in
    let marked = record pcb { file_array = update pcb.file_array fd (record d { flags = 0 }) } in
    if d.flags == 0
    then some (minus_one, pcb)
    else if slt fd fd_min_idx
    then some (minus_one, pcb)
    else if slt fd_max_idx fd
    then some (minus_one, pcb)
    else (closeptr fd marked >>= λ pcb'. some (0, (remove_fd pcb' fd).1))

-- the loop of `halt` that closes the descriptors from `i` on
unfoldable pub close_from : ℕ → ℕ → Pcb → Option Pcb
close_from zero i pcb = some pcb
close_from (suc n) i pcb = close i pcb >>= λ (_, pcb'). close_from n (i + 1) pcb'

unfoldable pub close_all : Pcb → Option Pcb
unfolding close_from
close_all pcb = close_from 8 0 pcb

-- `getargs`: the status and the caller's buffer, where `null` says that it is NULL, and `beyond` is
-- what memory holds from the end of `cmd_args` on
unfoldable pub getargs : (ℕ → ℕ) → Bool → (ℕ → ℕ) → ℕ → Pcb → ℕ × (ℕ → ℕ)
getargs beyond null buf nbytes pcb =
    let args = λ (k : ℕ). if ltb k 128 then get_or pcb.cmd_args k 0 else beyond (k - 128) in
    if null
    then (minus_one, buf)
    else (0, update (λ k. if ltb k nbytes then args k else buf k) nbytes 0)

-- `vidmap`: the status, what is stored through `screen_start`, and the tables; NULL is 0
unfoldable pub vidmap : ℕ → ℕ → Paging → ℕ × Option ℕ × Paging
vidmap screen_start program_id g =
    if screen_start == 0
    then (minus_one, none, g)
    else if ltb screen_start 0x8000000 || ltb (0x8000000 + 0x400000) screen_start
    then (minus_one, none, g)
    else (0, some vidmap_addr, create_vidmap (sub32 program_id 1) g)

unfoldable pub set_handler : ℕ
set_handler = minus_one

unfoldable pub sigreturn : ℕ
sigreturn = minus_one
