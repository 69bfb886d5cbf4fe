-- ===== src/Syscall/Run.antt =====
-- The branches of `execute` of student-distrib/syscall.c that return.
use unix_like_os.Base.{
  ℕ, ◌^◌, ◌<◌, ◌≡◌, ◌≢◌, ap, ap₂, refl, sym, ◌∙◌, subst, true, Option, some, arith, Bytes, leb,
  add32, minus_one, update, update_self, update-ne,
}
use native.Mathlib.Decide.{ℕ_discrete}
use unix_like_os.Proc.{Pcb, Procs, TerminalInfo, max_processes, find_free_pcb, pcb_destroy}
use unix_like_os.Proc.Inv.{Live, IsValid}
use unix_like_os.Proc.Destroy.{pcb_destroy-IsValid}
use unix_like_os.Paging.{Paging}
use unix_like_os.Syscall.Command.{check_command}
use unix_like_os.Syscall.Execute.{
  Machine, returns, check_executable, start_process, run_command, execute,
}
use unix_like_os.Syscall.Start.{Started, start_process-Started, count_started}
use unix_like_os.Syscall.Tree.{Started-IsValid}

-- The fields of the new block may change, but for its number and its parent.
pub Started-with :
    (t : ℕ) (p q : Procs) (n : ℕ) (b : Pcb)
    → Started t p q n
    → b.program_id ≡ (q.pcbs n).program_id
    → b.parent_id ≡ (q.pcbs n).parent_id
    → Started t p (record q { pcbs = update q.pcbs n b }) n
Started-with t p q n b s same_id same_parent =
    let r : Procs = record q { pcbs = update q.pcbs n b } in
    let others : (i : ℕ) → i ≢ n → r.pcbs i ≡ p.pcbs i =
      λ i d. update-ne q.pcbs n i b d ∙ s.others i d in
    let id : (r.pcbs n).program_id ≡ n =
      ap (λ (k : Pcb). k.program_id) (update_self q.pcbs n b) ∙ same_id ∙ s.its_id in
    record {
      others = others;
      its_id = id;
      its_parent =
          ap (λ (k : Pcb). k.parent_id) (update_self q.pcbs n b) ∙ same_parent ∙ s.its_parent;
      is_current = s.is_current;
      number = s.number;
      top_here = s.top_here;
      num_here = s.num_here;
      top_there = s.top_there;
      fresh = s.fresh;
      low = s.low;
      high = s.high;
      counted = count_started p r n others s.low s.high s.fresh id;
    }

-- `r` is the table `p` again: the same processes, the same one running, and no process more on any
-- terminal. Only the free block `n` has been written.
pub record Restored (t n : ℕ) (p r : Procs) : Type 0 where
  pub others : (i : ℕ) → i ≢ n → r.pcbs i ≡ p.pcbs i
  pub still_free : (r.pcbs n).program_id ≡ 0
  pub current : r.current ≡ p.current
  pub number : r.process_number ≡ p.process_number
  pub terminals : (u : ℕ) → r.terminal_info u ≡ p.terminal_info u
  pub valid : IsValid t r

abbrev info : ℕ → ℕ → TerminalInfo
info x y = record { top_process_id = x; num_process = y }

TerminalInfo_ext :
    (a b : TerminalInfo)
    → a.top_process_id ≡ b.top_process_id
    → a.num_process ≡ b.num_process
    → a ≡ b
TerminalInfo_ext a b e f = ap₂ (λ x y. info x y) e f

pub destroy-Restored :
    (t n : ℕ) (p q : Procs)
    → IsValid t p
    → p.process_number < 6
    → (p.terminal_info t).num_process < 2 ^ 32
    → Started t p q n
    → Restored t n p (pcb_destroy t n q)
unfolding pcb_destroy
destroy-Restored t n p q v h small s =
    let w = Started-IsValid t p q n v s in
    let l : Live q q.current =
      subst (Live q) (sym s.is_current) (record { low = s.low; high = s.high; id = s.its_id }) in
    record {
      others = λ i d. update-ne q.pcbs n i _ d ∙ s.others i d;
      still_free = ap (λ (k : Pcb). k.program_id) (update_self q.pcbs n _);
      current = s.its_parent;
      number = omega (arith, h, s.number);
      terminals = λ u. elim (ℕ_discrete u t) [
        | yes e ↦ rw e (
            TerminalInfo_ext _ _
              (ap (λ (k : TerminalInfo). k.top_process_id) (update_self q.terminal_info t _)
                ∙ s.its_parent
                ∙ v.current_top)
              (ap (λ (k : TerminalInfo). k.num_process) (update_self q.terminal_info t _)
                ∙ omega (arith, s.num_here, small)))
        | no d ↦ update-ne q.terminal_info t u _ d ∙ s.top_there u d
      ];
      valid = subst (λ k. IsValid t (pcb_destroy t k q)) s.is_current (pcb_destroy-IsValid t q w l);
    }

-- What stops `execute`: `check_command` refuses the line, or `check_executable` the program. `slot` is
-- the block that the new process gets.
pub data Refused (m : Machine) (command : Option Bytes) (slot : Pcb) : Type 0 where
  bad_line :
      {name args : Bytes}
      → check_command command slot.cmd_name slot.cmd_args ≡ some (minus_one, name, args)
      → Refused m command slot
  bad_program :
      {name args : Bytes} {x : Option ℕ}
      → check_command command slot.cmd_name slot.cmd_args ≡ some (0, name, args)
      → check_executable m.image m.stale_dentry m.stale_bytes name ≡ some (minus_one, x)
      → Refused m command slot

-- In a well-formed table with a place left, where the count of the terminal is a `uint32_t`, and for
-- a line or a program that is refused: `execute` returns -1, leaves the tables of pages as they are,
-- and restores the processes.
pub execute_refuses :
    (t : ℕ) (m : Machine) (command : Option Bytes) (p : Procs) (g : Paging) (mem : ℕ → ℕ)
    → IsValid t p
    → p.process_number < 6
    → (p.terminal_info t).num_process < 2 ^ 32
    → Refused m command (p.pcbs (find_free_pcb p))
    → (r : Procs) × (execute t m command p g mem ≡ some (returns minus_one r g))
      × Restored t (find_free_pcb p) p r
unfolding execute run_command
execute_refuses t m command p g mem v h small (bad_line {name} {args} e) =
    let (q, started, s, same_name, same_args, _) = start_process-Started t p v h in
    let b : Pcb = record (q.pcbs (find_free_pcb p)) { cmd_name = name; cmd_args = args } in
    (
      _,
      rw (execute, started, run_command, same_name, same_args, e) refl,
      destroy-Restored t (find_free_pcb p) p _ v h small (Started-with t p q _ b s refl refl),
    )
execute_refuses t m command p g mem v h small (bad_program {name} {args} e no_program) =
    let (q, started, s, same_name, same_args, _) = start_process-Started t p v h in
    let b : Pcb = record (q.pcbs (find_free_pcb p)) { cmd_name = name; cmd_args = args } in
    (
      _,
      rw (execute, started, run_command, same_name, same_args, e, no_program) refl,
      destroy-Restored t (find_free_pcb p) p _ v h small (Started-with t p q _ b s refl refl),
    )

-- With a count of six processes, `execute` returns 0 and changes neither the processes nor the
-- tables of pages.
pub execute_full :
    (t : ℕ) (m : Machine) (command : Option Bytes) (p : Procs) (g : Paging) (mem : ℕ → ℕ)
    → p.process_number ≡ 6
    → execute t m command p g mem ≡ some (returns 0 p g)
unfolding execute start_process
execute_full t m command p g mem e =
    let big : leb max_processes (add32 p.process_number 1) ≡ true = ground (arith, e) in
    rw (execute, start_process, big) refl
