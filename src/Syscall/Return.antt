-- ===== src/Syscall/Return.antt =====
-- A program from the `execute` that enters it to its `halt`, in student-distrib/syscall.c.
use unix_like_os.Base.{
  ℕ, ◌+◌, ◌-◌, ◌^◌, ◌<◌, ◌≤◌, ◌≡◌, ◌≢◌, inl, inr, ap, ap₂, refl, sym, ◌∙◌, subst, false, Option,
  some, arith, Bytes, ◌==◌, sub32, update, update_self, ==_ne,
}
use unix_like_os.Proc.{Pcb, Procs, Descriptor, find_free_pcb, get_kernel_stack_ptr, pcb_destroy}
use unix_like_os.Proc.Inv.{Live, IsValid}
use unix_like_os.Paging.{Paging, new_task_pd}
use unix_like_os.Syscall.Command.{check_command}
use unix_like_os.Syscall.ReadWrite.{FilesOk}
use unix_like_os.Syscall.Execute.{Machine, enters, check_executable, copy_file_image, execute}
use unix_like_os.Syscall.Halt.{resumes, halt}
use unix_like_os.Syscall.Tree.{Started-IsValid}
use unix_like_os.Syscall.Run.{Restored, Started-with, destroy-Restored}
use unix_like_os.Syscall.Enter.{Entered, execute_enters-Entered}
use unix_like_os.Syscall.Leave.{leave_lem}

-- the processes when that of block `n` has the descriptors `files`
abbrev pub with_files : ℕ → (ℕ → Descriptor) → Procs → Procs
with_files n files q = record q {
  pcbs = update q.pcbs n (record (q.pcbs n) { file_array = files });
}

FilesOk-same : (a b : Pcb) → b.file_array ≡ a.file_array → FilesOk a → FilesOk b
FilesOk-same a b e ok =
    let c : FilesOk (record b { file_array = a.file_array }) = record {
      input = ok.input;
      output = ok.output;
      in_use = ok.in_use;
    } in
    subst (λ f. FilesOk (record b { file_array = f })) (sym e) c

-- The end of a process that `execute` has entered, whatever descriptors it has by then.
halt-Entered :
    (t n : ℕ) (m m2 : Machine) (args : Bytes) (p q : Procs) (g : Paging) (mem : ℕ → ℕ)
    (files : ℕ → Descriptor)
    → IsValid t p
    → p.process_number < 6
    → p.current ≢ 0
    → 1 ≤ (p.terminal_info t).num_process
    → (p.terminal_info t).num_process + 1 < 2 ^ 32
    → FilesOk (record (p.pcbs n) { file_array = files })
    → Entered t n m args p q
    → (r : Procs) × (halt t m2 (with_files n files q) g mem
        ≡ some
            (resumes m.esp m.ebp (p.pcbs p.current).address r (record g { cr3 = p.current - 1 })))
      × Restored t n p r
unfolding halt
halt-Entered t n m m2 args p q g mem files v few top some_process small ok f =
    let s = f.started in
    let caller : Live p p.current = elim (v.top_live t v.on_screen) [
      | inl z ↦ absurd (top (v.current_top ∙ z))
      | inr l ↦ subst (Live p) (sym v.current_top) l
    ] in
    let block : Pcb = record (q.pcbs n) { file_array = files } in
    let q1 = with_files n files q in
    let is_block : q1.pcbs n ≡ block = update_self q.pcbs n block in
    let s1 = Started-with t p q n block s refl refl in
    let w = Started-IsValid t p q1 n v s1 in
    let live : Live q1 n = record { low = s1.low; high = s1.high; id = s1.its_id } in
    let cur : q1.current ≡ n = s1.is_current in
    let running : Live q1 q1.current = subst (Live q1) (sym cur) live in
    let files_ok : FilesOk (q1.pcbs q1.current) =
      FilesOk-same (record (p.pcbs n) { file_array = files }) (q1.pcbs q1.current)
        (ap (λ k. (q1.pcbs k).file_array) cur ∙ ap (λ (k : Pcb). k.file_array) is_block) ok in
    let up : (q1.pcbs q1.current).parent_id ≡ p.current =
      ap (λ k. (q1.pcbs k).parent_id) cur ∙ s1.its_parent in
    let (b, same, left) = leave_lem t q1 w running files_ok g (λ z. top (sym up ∙ z)) in
    let more : (sub32 (q1.terminal_info t).num_process 1 == 0) ≡ false =
      ==_ne _ 0 (λ z. omega (arith, z, s1.num_here, some_process, small)) in
    let ids : b.program_id ≡ (q1.pcbs n).program_id =
      ap (λ (k : Pcb). k.program_id) same ∙ ap (λ k. (q1.pcbs k).program_id) cur in
    let parents : b.parent_id ≡ (q1.pcbs n).parent_id =
      ap (λ (k : Pcb). k.parent_id) same ∙ ap (λ k. (q1.pcbs k).parent_id) cur in
    let back =
      destroy-Restored t n p (record q1 { pcbs = update q1.pcbs n b }) v few (omega (arith, small))
        (Started-with t p q1 n b s1 ids parents) in
    let r = pcb_destroy t q1.current (record q1 { pcbs = update q1.pcbs q1.current b }) in
    let here : q1.pcbs q1.current ≡ block = ap q1.pcbs cur ∙ is_block in
    let above : q1.pcbs (q1.pcbs q1.current).parent_id ≡ p.pcbs p.current =
      ap q1.pcbs up
      ∙ s1.others p.current (λ e.
        omega
          (arith, caller.id, caller.low, subst (λ k. (p.pcbs k).program_id ≡ 0) (sym e) s.fresh)) in
    (
      r,
      rw (halt, more)
          (left
            ∙ ap
                (λ (k : Pcb). some (
                  resumes k.esp k.ebp (q1.pcbs (q1.pcbs q1.current).parent_id).address r
                    (record g { cr3 = (q1.pcbs q1.current).parent_id - 1 })))
                here
            ∙ ap₂
                (λ e b'. some (
                  resumes e b' (q1.pcbs (q1.pcbs q1.current).parent_id).address r
                    (record g { cr3 = (q1.pcbs q1.current).parent_id - 1 })))
                f.esp f.ebp
            ∙ ap₂ (λ (k : Pcb) u. some (resumes m.esp m.ebp k.address r (record g { cr3 = u - 1 })))
                above up),
      subst (λ k. Restored t n p (pcb_destroy t k (record q1 { pcbs = update q1.pcbs k b })))
          (sym cur) back,
    )

-- In a well-formed table with a place left, where the terminal's count of processes is at least 1 and does not wrap, a
-- process that calls `execute` on a line, a program and a file that are accepted: the program is entered. When it
-- halts, whatever memory and tables of pages it has by then, and whatever well-formed descriptors (its two standard
-- files, and files, directories or the clock in the others), `execute` goes on in the caller, on the caller's stack and in its address space; the
-- same processes are there as before, the same one runs, no terminal has one more, and the table is well
-- formed.
pub execute_then_halt :
    (t : ℕ) (m m2 : Machine) (command : Option Bytes) (p : Procs) (g g2 : Paging)
    (mem mem' mem2 : ℕ → ℕ) (name args : Bytes) (entry : ℕ) (files : ℕ → Descriptor)
    → IsValid t p
    → p.process_number < 6
    → p.current ≢ 0
    → 1 ≤ (p.terminal_info t).num_process
    → (p.terminal_info t).num_process + 1 < 2 ^ 32
    → let n = find_free_pcb p in
      check_command command (p.pcbs n).cmd_name (p.pcbs n).cmd_args ≡ some (0, name, args)
      → check_executable m.image m.stale_dentry m.stale_bytes name ≡ some (0, some entry)
      → copy_file_image m.image m.stale_dentry m.stale_bytes m.stack_room name mem ≡ some mem'
      → FilesOk (record (p.pcbs n) { file_array = files })
      → (q r : Procs) × (execute t m command p g mem
          ≡ some (enters entry (get_kernel_stack_ptr n) q (new_task_pd (n - 1) g).1 mem'))
        × (halt t m2 (with_files n files q) g2 mem2
            ≡ some (
                resumes m.esp m.ebp
                  (p.pcbs p.current).address
                  r
                  (record g2 { cr3 = p.current - 1 })))
        × Restored t n p r
execute_then_halt t m m2 command p g g2 mem mem' mem2 name args entry files v few top some_process
      small parsed found copied ok =
    let (q, e, f) =
      execute_enters-Entered t m command p g mem mem' name args entry v few parsed found copied in
    let (r, h, back) =
      halt-Entered t (find_free_pcb p) m m2 args p q g2 mem2 files v few top some_process small ok
        f in
    (q, r, e, h, back)
