-- ===== src/Tests/Processes.antt =====
-- The theorems on the stacks of processes at concrete tables.
use unix_like_os.Base.{
  ℕ, ◌-◌, ◌<◌, ◌≡◌, ◌≢◌, ap, refl, sym, subst, Option, none, some, [], ◌∷◌, arith, ◌==◌,
  if◌then◌else◌, replicate, ==_ne,
}
use native.Mathlib.Decide.{ℕ_discrete}
use unix_like_os.Proc.{
  Procs, null_pcb, get_kernel_stack_ptr, find_free_pcb, get_new_pcb, get_cur_pcb, pcb_init,
  pcb_destroy, get_top_pcb,
}
use unix_like_os.Proc.Inv.{Live, IsValid}
use unix_like_os.Proc.Chain.{Among}
use unix_like_os.Proc.Climb.{get_top_pcb-root}
use unix_like_os.Paging.{new_task_pd}
use unix_like_os.Syscall.ReadWrite.{FilesOk}
use unix_like_os.Syscall.Execute.{enters, start_process, execute}
use unix_like_os.Syscall.Halt.{resumes, halt}
use unix_like_os.Syscall.Tree.{start_process-IsValid}
use unix_like_os.Syscall.Run.{Restored}
use unix_like_os.Syscall.Refine.{
  Stacks, Implements, push, pop, start_process_refines, pcb_destroy_refines,
}
use unix_like_os.Syscall.Leave.{halt_resumes}
use unix_like_os.Syscall.Return.{with_files, execute_then_halt}
use unix_like_os.Tests.Data.{
  booted, one_shell, one_shell-IsValid, first_is, tables, zeroed, machine, a_process,
  a_process-FilesOk,
}
use unix_like_os.Tests.Kernel.{parsed_a, accepted_a, loaded_a, loaded, long_a}

abbrev stacks : Stacks
stacks u = if u == 0 then 1 ∷ [] else []

one_shell-Implements : Implements one_shell stacks
one_shell-Implements u h = elim (ℕ_discrete u 0) [
  | yes e ↦ rw e (refl, first_is, refl)
  | no d ↦ rw (==_ne u 0 d) refl
]

start_process_refines_example :
    (n : ℕ) × (q : Procs) × (start_process 0 one_shell ≡ some (n, q))
    × ((u : ℕ) → u < 3 → ¬ Among n (stacks u))
    × Implements q (push 0 n stacks)
start_process_refines_example =
    start_process_refines 0 one_shell stacks one_shell-IsValid (omega arith) one_shell-Implements

pcb_destroy_refines_example : Implements (pcb_destroy 0 1 one_shell) (pop 0 stacks)
pcb_destroy_refines_example =
    pcb_destroy_refines 0 one_shell one_shell-IsValid first_is stacks one_shell-Implements

-- no caller yet
abbrev no_caller : Procs
no_caller = record booted { current = null_pcb }

get_top_pcb-root_example : get_top_pcb one_shell ≡ some 1
get_top_pcb-root_example =
    get_top_pcb-root 0 one_shell 1 [] one_shell-IsValid (refl, first_is, refl)

execute_then_halt_example :
    (q r : Procs) × (execute 0 machine (some (97 ∷ 0 ∷ [])) one_shell tables zeroed
      ≡ some (
          enters 0x8048000
            (get_kernel_stack_ptr (find_free_pcb one_shell))
            q
            (new_task_pd (find_free_pcb one_shell - 1) tables).1
            loaded))
    × (halt 0 machine (with_files (find_free_pcb one_shell) a_process.file_array q) tables zeroed
        ≡ some (resumes 0x7FFF00 0x7FFF80 0 r (record tables { cr3 = 0 })))
    × Restored 0 (find_free_pcb one_shell) one_shell r
unfolding find_free_pcb
execute_then_halt_example =
    execute_then_halt 0 machine machine (some (97 ∷ 0 ∷ [])) one_shell tables tables zeroed loaded
      zeroed long_a (replicate 128 0) 0x8048000 a_process.file_array one_shell-IsValid (omega arith)
      (omega arith) (omega arith) (omega arith) parsed_a accepted_a loaded_a
      (record {
        input = a_process-FilesOk.input;
        output = a_process-FilesOk.output;
        in_use = a_process-FilesOk.in_use;
      })

abbrev second_of : Option (ℕ × Procs) → Procs
second_of none = one_shell
second_of (some (n, q)) = q

abbrev number_of : Option (ℕ × Procs) → ℕ
number_of none = 0
number_of (some (n, q)) = n

-- the table behind an `execute` of the shell
two_shells : Procs
unfolding start_process find_free_pcb get_new_pcb get_cur_pcb pcb_init
two_shells = second_of (start_process 0 one_shell)

two_shells-IsValid : IsValid 0 two_shells
unfolding two_shells
two_shells-IsValid =
    let (n, q, e, fresh, v, live, cur, par) =
      start_process-IsValid 0 one_shell one_shell-IsValid (omega arith) in
    subst (IsValid 0) (sym (ap second_of e)) v

two_shells-Implements : Implements two_shells (push 0 2 stacks)
unfolding two_shells
two_shells-Implements =
    let (n, q, e, fresh, imp) =
      start_process_refines 0 one_shell stacks one_shell-IsValid (omega arith)
        one_shell-Implements in
    subst (λ r. Implements (second_of r) (push 0 (number_of r) stacks)) (sym e) imp

second_runs : Live two_shells two_shells.current
unfolding two_shells
second_runs = record { low = omega arith; high = omega arith; id = refl }

second-FilesOk : FilesOk (two_shells.pcbs two_shells.current)
unfolding two_shells
second-FilesOk = record {
  input = (refl, refl);
  output = (refl, refl);
  in_use = a_process-FilesOk.in_use;
}

halt_resumes_example :
    (r : Procs) × (halt 0 machine two_shells tables zeroed
      ≡ some (resumes 0x7FE000 0x7FE000 0 r (record tables { cr3 = 0 })))
    × IsValid 0 r
    × (r.current ≡ 1)
    × ((r.pcbs 2).program_id ≡ 0)
    × ((i : ℕ) → i ≢ 2 → r.pcbs i ≡ two_shells.pcbs i)
    × Implements r (pop 0 (push 0 2 stacks))
unfolding two_shells get_kernel_stack_ptr
halt_resumes_example =
    halt_resumes 0 two_shells two_shells-IsValid second_runs second-FilesOk machine tables zeroed
      (push 0 2 stacks) (omega arith) (omega arith) (omega arith) two_shells-Implements
