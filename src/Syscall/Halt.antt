-- ===== src/Syscall/Halt.antt =====
-- `halt` of student-distrib/syscall.c, and the part of `switch_terminal` of student-distrib/terminal.c
-- that changes the process.
use unix_like_os.Base.{ℕ, Option, some, [], ◌∷◌, Bytes, ◌==◌, if◌then◌else◌, ◌>>=◌, sub32, update}
use unix_like_os.Proc.{Procs, pcb_destroy}
use unix_like_os.Paging.{Paging}
use unix_like_os.Syscall.{close_all}
use unix_like_os.Syscall.Execute.{Machine, Ended, returns, enters, execute}

-- "shell", with its NUL
abbrev pub shell : Bytes
shell = 115 ∷ 104 ∷ 101 ∷ 108 ∷ 108 ∷ 0 ∷ []

-- Where the processor goes on: in a program that `execute` enters, or at `exec_halt` in the `execute` of
-- the parent, on its stack, with the TSS's stack, the processes and the tables.
pub data Halted : Type 0 where
  restarts : Ended → Halted
  resumes : ℕ → ℕ → ℕ → Procs → Paging → Halted

-- the loop over the descriptors of `current_pcb`
unfoldable pub close_current : Procs → Option Procs
close_current p =
    close_all (p.pcbs p.current) >>= λ pcb. some (record p { pcbs = update p.pcbs p.current pcb })

-- `halt` from the second assignment of the stack registers on
unfoldable pub leave : ℕ → Procs → Paging → Option Halted
unfolding close_current
leave t p g =
    let esp = (p.pcbs p.current).esp in
    let ebp = (p.pcbs p.current).ebp in
    close_current p >>= λ p1.
    let p2 = pcb_destroy t p1.current p1 in
    let parent = p2.pcbs p2.current in
    some (resumes esp ebp parent.address p2 (record g { cr3 = sub32 parent.program_id 1 }))

-- what `halt` does when the `execute` of its shell comes back, or does not
abbrev pub after_shell : ℕ → Ended → Option Halted
unfolding leave
after_shell t (returns _ p g) = leave t p g
after_shell t (enters entry esp0 p g mem) = some (restarts (enters entry esp0 p g mem))

unfoldable pub halt : ℕ → Machine → Procs → Paging → (ℕ → ℕ) → Option Halted
unfolding close_current after_shell leave execute
halt t m p g mem =
    let last = close_current p >>= λ p1.
    execute t m (some shell) (pcb_destroy t p1.current p1) g mem >>= λ e. after_shell t e in
    if sub32 (p.terminal_info t).num_process 1 == 0 then last else leave t p g

-- How `switch_terminal` ends for another terminal: as its `execute` of the shell ends, or with the process on
-- top there as `current_pcb`, its page directory in cr3 and its kernel stack in the TSS. `switch_terminal` then
-- returns on the stack that it was called on: it selects the process, and does not jump to it.
pub data Switched : Type 0 where
  starts : Ended → Switched
  selects : ℕ → Procs → Paging → Switched

unfoldable pub switch_process : ℕ → Machine → Procs → Paging → (ℕ → ℕ) → Option Switched
unfolding execute
switch_process u m p g mem =
    let p1 = record p { current = (p.terminal_info u).top_process_id } in
    let pcb = p1.pcbs p1.current in
    if pcb.program_id == 0
    then (execute u m (some shell) p1 g mem >>= λ e. some (starts e))
    else some (selects pcb.address p1 (record g { cr3 = sub32 pcb.program_id 1 }))
