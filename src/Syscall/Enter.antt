-- ===== src/Syscall/Enter.antt =====
-- The branch of `execute` of student-distrib/syscall.c that enters the program.
use unix_like_os.Base.{
  ℕ, ◌-◌, ◌<◌, ◌≤◌, ◌≡◌, ap, refl, ◌∙◌, Option, some, arith, Bytes, sub32, update, update_self,
  ==_refl,
}
use unix_like_os.Proc.{Pcb, Procs, find_free_pcb, get_kernel_stack_ptr}
use unix_like_os.Proc.Inv.{IsValid}
use unix_like_os.Paging.{Paging, new_task_pd}
use unix_like_os.Syscall.Command.{check_command}
use unix_like_os.Syscall.Execute.{
  Machine, enters, check_executable, copy_file_image, load, run_command, execute,
}
use unix_like_os.Syscall.Start.{Started, start_process-Started}
use unix_like_os.Syscall.Run.{Started-with}
use unix_like_os.Syscall.Tree.{Started-IsValid}

-- the block with the stack registers of the caller
abbrev saved : Machine → Pcb → Pcb
saved m b = record b { esp = m.esp; ebp = m.ebp }

load_lem :
    (m : Machine) (n entry : ℕ) (p : Procs) (g : Paging) (mem mem' : ℕ → ℕ)
    → p.current ≡ n
    → (p.pcbs n).program_id ≡ n
    → 1 ≤ n
    → n < 7
    → copy_file_image m.image m.stale_dentry m.stale_bytes m.stack_room (p.pcbs n).cmd_name mem
      ≡ some mem'
    → load m n entry p g mem
      ≡ some (
          enters entry
            (p.pcbs n).address
            (record p { pcbs = update p.pcbs n (saved m (p.pcbs n)) })
            (new_task_pd (n - 1) g).1
            mem')
unfolding load
load_lem m n entry p g mem mem' c id lo hi copied =
    let pred : sub32 (p.pcbs n).program_id 1 ≡ n - 1 = omega (arith, id) in
    rw (c, copied, pred, ==_refl n) refl

-- what `execute` has made of the table `p` when it enters the program of block `n`
pub record Entered (t n : ℕ) (m : Machine) (args : Bytes) (p q : Procs) : Type 0 where
  pub started : Started t p q n
  pub esp : (q.pcbs n).esp ≡ m.esp
  pub ebp : (q.pcbs n).ebp ≡ m.ebp
  pub args_kept : (q.pcbs n).cmd_args ≡ args

pub execute_enters-Entered :
    (t : ℕ) (m : Machine) (command : Option Bytes) (p : Procs) (g : Paging) (mem mem' : ℕ → ℕ)
    (name args : Bytes) (entry : ℕ)
    → IsValid t p
    → p.process_number < 6
    → let n = find_free_pcb p in
      check_command command (p.pcbs n).cmd_name (p.pcbs n).cmd_args ≡ some (0, name, args)
      → check_executable m.image m.stale_dentry m.stale_bytes name ≡ some (0, some entry)
      → copy_file_image m.image m.stale_dentry m.stale_bytes m.stack_room name mem ≡ some mem'
      → (q : Procs) × (execute t m command p g mem
          ≡ some (enters entry (get_kernel_stack_ptr n) q (new_task_pd (n - 1) g).1 mem'))
        × Entered t n m args p q
unfolding run_command execute
execute_enters-Entered t m command p g mem mem' name args entry v h parsed found copied =
    let n = find_free_pcb p in
    let (q, started, s, same_name, same_args, same_address) = start_process-Started t p v h in
    let b : Pcb = record (q.pcbs n) { cmd_name = name; cmd_args = args } in
    let q1 : Procs = record q { pcbs = update q.pcbs n b } in
    let s1 = Started-with t p q n b s refl refl in
    let c : (q1.pcbs n).cmd_name ≡ name = ap (λ (k : Pcb). k.cmd_name) (update_self q.pcbs n b) in
    let a : (q1.pcbs n).address ≡ get_kernel_stack_ptr n =
      ap (λ (k : Pcb). k.address) (update_self q.pcbs n b) ∙ same_address in
    let last = saved m (q1.pcbs n) in
    let is_last : update q1.pcbs n last n ≡ last = update_self q1.pcbs n last in
    let l = load_lem m n entry q1 g mem mem' s1.is_current s1.its_id s1.low s1.high (rw c copied) in
    (
      record q1 { pcbs = update q1.pcbs n last },
      rw (execute, started, run_command, same_name, same_args, parsed, found, l, a) refl,
      record {
        started = Started-with t p q1 n last s1 refl refl;
        esp = ap (λ (k : Pcb). k.esp) is_last;
        ebp = ap (λ (k : Pcb). k.ebp) is_last;
        args_kept =
            ap (λ (k : Pcb). k.cmd_args) is_last
            ∙ ap (λ (k : Pcb). k.cmd_args) (update_self q.pcbs n b);
      },
    )

-- In a well-formed table with a place left, for a line and a program that are accepted and a file
-- that can be loaded: `execute` enters the program at its entry, with the kernel stack of its block,
-- the loaded memory and the tables of pages of its task. The processes are well formed, the new one
-- runs, has the number of its block and the arguments of the line, and its parent is the caller.
pub execute_enters :
    (t : ℕ) (m : Machine) (command : Option Bytes) (p : Procs) (g : Paging) (mem mem' : ℕ → ℕ)
    (name args : Bytes) (entry : ℕ)
    → IsValid t p
    → p.process_number < 6
    → let n = find_free_pcb p in
      check_command command (p.pcbs n).cmd_name (p.pcbs n).cmd_args ≡ some (0, name, args)
      → check_executable m.image m.stale_dentry m.stale_bytes name ≡ some (0, some entry)
      → copy_file_image m.image m.stale_dentry m.stale_bytes m.stack_room name mem ≡ some mem'
      → (q : Procs) × (execute t m command p g mem
          ≡ some (enters entry (get_kernel_stack_ptr n) q (new_task_pd (n - 1) g).1 mem'))
        × IsValid t q
        × (q.current ≡ n)
        × ((q.pcbs n).program_id ≡ n)
        × ((q.pcbs n).parent_id ≡ p.current)
        × ((q.pcbs n).cmd_args ≡ args)
execute_enters t m command p g mem mem' name args entry v h parsed found copied =
    let (q, e, f) =
      execute_enters-Entered t m command p g mem mem' name args entry v h parsed found copied in
    let s = f.started in
    (q, e, Started-IsValid t p q _ v s, s.is_current, s.its_id, s.its_parent, f.args_kept)
