-- ===== src/Syscall/Leave.antt =====
-- `halt` of student-distrib/syscall.c for a process that is not the last of its terminal.
use unix_like_os.Base.{
  ℕ, ◌-◌, ◌^◌, ◌<◌, ◌≡◌, ◌≢◌, inl, inr, ap, ap₂, refl, ◌∙◌, false, some, arith, ◌==◌, sub32, update,
  update_self, update-ne, ==_ne,
}
use native.Mathlib.Decide.{ℕ_discrete}
use unix_like_os.Proc.{Pcb, Procs, pcb_destroy}
use unix_like_os.Proc.Inv.{Live, IsValid}
use unix_like_os.Syscall.ReadWrite.{FilesOk}
use unix_like_os.Syscall.Descriptors.{close_all-FilesOk}
use unix_like_os.Paging.{Paging}
use unix_like_os.Proc.Same.{same-IsValid, same-Live, same-Chain}
use unix_like_os.Proc.Destroy.{destroy_other, pcb_destroy-IsValid}
use unix_like_os.Syscall.Execute.{Machine}
use unix_like_os.Syscall.Halt.{resumes, close_current, leave, halt}
use unix_like_os.Syscall.Refine.{Stacks, Implements, pop, pcb_destroy_refines}
use unix_like_os.Syscall.Closed.{SameBut, close_all-SameBut}

module _ (t : ℕ) (p : Procs) (v : IsValid t p) (running : Live p p.current)
    (files : FilesOk (p.pcbs p.current)) where
  open p use {current as n}

  -- the table with the descriptors of the process closed
  closed :
      (b : Pcb) × (close_current p ≡ some (record p { pcbs = update p.pcbs n b }))
      × SameBut b (p.pcbs n)
  unfolding close_current
  closed =
      let (b, e, _, _) = close_all-FilesOk (p.pcbs n) files in
      (b, rw e refl, close_all-SameBut (p.pcbs n) b e)

  -- the table in which the process has the fields `b`
  abbrev pub with_block : Pcb → Procs
  with_block b = record p { pcbs = update p.pcbs n b }

  abbrev pub parent : ℕ
  parent = (p.pcbs n).parent_id

  pub leave_lem :
      (g : Paging)
      → parent ≢ 0
      → (b : Pcb) × SameBut b (p.pcbs n)
        × (leave t p g
            ≡ some (
                resumes
                  (p.pcbs n).esp
                  (p.pcbs n).ebp
                  (p.pcbs parent).address
                  (pcb_destroy t n (with_block b))
                  (record g { cr3 = parent - 1 })))
  unfolding leave pcb_destroy
  leave_lem g nz =
      let (b, e, same) = closed in
      let q = pcb_destroy t n (with_block b) in
      let par : Live p parent = elim (v.parent_live n running) [
        | inl z ↦ absurd (nz z)
        | inr l ↦ l
      ] in
      let ne : parent ≢ n = λ z. v.top_leaf t n v.on_screen running nz (z ∙ v.current_top) in
      let cur : q.current ≡ parent =
        ap (λ (k : Pcb). k.parent_id) (update_self p.pcbs n b)
        ∙ ap (λ (k : Pcb). k.parent_id) same in
      let block : q.pcbs q.current ≡ p.pcbs parent =
        ap q.pcbs cur
        ∙ destroy_other t n (with_block b) parent ne
        ∙ update-ne p.pcbs n parent b ne in
      let cr3 : sub32 (q.pcbs q.current).program_id 1 ≡ parent - 1 =
        ap (λ (k : Pcb). sub32 k.program_id 1) block ∙ omega (arith, par.id, par.low, par.high) in
      (
        b,
        same,
        rw e (
            ap₂ (λ a c. some (resumes (p.pcbs n).esp (p.pcbs n).ebp a q (record g { cr3 = c })))
              (ap (λ (k : Pcb). k.address) block) cr3),
      )

  module _ (b : Pcb) (same : SameBut b (p.pcbs n)) where
    block_ids : (k : ℕ) → (update p.pcbs n b k).program_id ≡ (p.pcbs k).program_id
    block_ids k = elim (ℕ_discrete k n) [
      | yes e ↦ rw e (
          ap (λ (x : Pcb). x.program_id) (update_self p.pcbs n b)
          ∙ ap (λ (x : Pcb). x.program_id) same)
      | no d ↦ ap (λ (x : Pcb). x.program_id) (update-ne p.pcbs n k b d)
    ]

    block_parents : (k : ℕ) → (update p.pcbs n b k).parent_id ≡ (p.pcbs k).parent_id
    block_parents k = elim (ℕ_discrete k n) [
      | yes e ↦ rw e (
          ap (λ (x : Pcb). x.parent_id) (update_self p.pcbs n b)
          ∙ ap (λ (x : Pcb). x.parent_id) same)
      | no d ↦ ap (λ (x : Pcb). x.parent_id) (update-ne p.pcbs n k b d)
    ]

    pub block-IsValid : IsValid t (with_block b)
    block-IsValid = same-IsValid p (update p.pcbs n b) block_ids block_parents t v

    pub block-Live : Live (with_block b) n
    block-Live = same-Live p (update p.pcbs n b) block_ids block_parents n running

    block-Implements : (s : Stacks) → Implements p s → Implements (with_block b) s
    block-Implements s imp u h =
        same-Chain p (update p.pcbs n b) block_ids block_parents _ (s u) (imp u h)

  -- In a well-formed table, where the process that runs has a parent and well-formed descriptors, and is not
  -- the only one of its terminal: `halt` goes on in the `execute` of the parent, on the stack that was kept
  -- there and in the parent's address space. The block is free, no other block changes, the table stays
  -- well formed, and the stack of the terminal has lost its first process.
  pub halt_resumes :
      (m : Machine) (g : Paging) (mem : ℕ → ℕ) (s : Stacks)
      → parent ≢ 0
      → 1 < (p.terminal_info t).num_process
      → (p.terminal_info t).num_process < 2 ^ 32
      → Implements p s
      → (r : Procs) × (halt t m p g mem
          ≡ some (
              resumes
                (p.pcbs n).esp
                (p.pcbs n).ebp
                (p.pcbs parent).address
                r
                (record g { cr3 = parent - 1 })))
        × IsValid t r
        × (r.current ≡ parent)
        × ((r.pcbs n).program_id ≡ 0)
        × ((i : ℕ) → i ≢ n → r.pcbs i ≡ p.pcbs i)
        × Implements r (pop t s)
  unfolding halt pcb_destroy
  halt_resumes m g mem s nz many small imp =
      let (b, same, left) = leave_lem g nz in
      let more : (sub32 (p.terminal_info t).num_process 1 == 0) ≡ false =
        ==_ne _ 0 (λ z. omega (arith, z, many, small)) in
      let w = block-IsValid b same in
      let l = block-Live b same in
      (
        pcb_destroy t n (with_block b),
        rw (halt, more) left,
        pcb_destroy-IsValid t (with_block b) w l,
        ap (λ (k : Pcb). k.parent_id) (update_self p.pcbs n b) ∙ ap (λ (k : Pcb). k.parent_id) same,
        ap (λ (k : Pcb). k.program_id) (update_self (update p.pcbs n b) n _),
        λ i d. destroy_other t n (with_block b) i d ∙ update-ne p.pcbs n i b d,
        pcb_destroy_refines t (with_block b) w l s (block-Implements b same s imp),
      )
