-- ===== src/Syscall/ReadWrite.antt =====
-- The calls of `read` and `write` of student-distrib/syscall.c on the descriptors of a process.
use unix_like_os.Base.{ℕ, ◌^◌, ◌<◌, ◌≤◌, ◌≡◌, ◌≢◌, ◌⊎◌, inl, inr, Bool, arith}
use native.Mathlib.Decide.{dec_lt}
use unix_like_os.Proc.{Pcb, no_ops, file_ops, rtc_ops, stdin_ops, stdout_ops}
use unix_like_os.Syscall.{fails, calls, null_driver, readptr, writeptr, read, write}

-- The descriptors of a process as `pcb_init`, `open_file` and `close` leave them: the standard input
-- and output, and behind them a file or the clock where the descriptor is in use, nothing where not.
pub record FilesOk (pcb : Pcb) : Type 0 where
  pub input : ((pcb.file_array 0).ops ≡ stdin_ops) × ((pcb.file_array 0).flags ≡ 1)
  pub output : ((pcb.file_array 1).ops ≡ stdout_ops) × ((pcb.file_array 1).flags ≡ 1)
  pub in_use :
      (k : ℕ)
      → 2 ≤ k
      → k < 8
      → (((pcb.file_array k).flags ≡ 0) × ((pcb.file_array k).ops ≡ no_ops))
        ⊎ (((pcb.file_array k).flags ≡ 1)
            × (((pcb.file_array k).ops ≡ file_ops) ⊎ ((pcb.file_array k).ops ≡ rtc_ops)))

module _ (pcb : Pcb) (ok : FilesOk pcb) where
  -- what a descriptor in use may be read and written through
  readable :
      (fd : ℕ)
      → fd < 8
      → fd ≢ 1
      → ((pcb.file_array fd).flags ≢ 0)
      → readptr (pcb.file_array fd).ops ≢ null_driver
  unfolding readptr
  readable fd lt ne used = elim (dec_lt fd 2) [
    | yes p ↦ let e : fd ≡ 0 = omega arith in rw (e, ok.input.0) (cc)
    | no p ↦ elim (ok.in_use fd (omega arith) lt) [
      | inl (free, _) ↦ absurd (used free)
      | inr (_, inl f) ↦ rw f (cc)
      | inr (_, inr r) ↦ rw r (cc)
    ]
  ]

  writable :
      (fd : ℕ)
      → fd < 8
      → fd ≢ 0
      → ((pcb.file_array fd).flags ≢ 0)
      → writeptr (pcb.file_array fd).ops ≢ null_driver
  unfolding writeptr
  writable fd lt ne used = elim (dec_lt fd 2) [
    | yes p ↦ let e : fd ≡ 1 = omega arith in rw (e, ok.output.0) (cc)
    | no p ↦ elim (ok.in_use fd (omega arith) lt) [
      | inl (free, _) ↦ absurd (used free)
      | inr (_, inl f) ↦ rw f (cc)
      | inr (_, inr r) ↦ rw r (cc)
    ]
  ]

  -- For well-formed descriptors `read` never calls through NULL, whatever number and buffer it is
  -- given, and it returns -1 for every number that is negative or above 7, whatever memory holds
  -- there.
  pub read-safe :
      (fd : ℕ) (null : Bool)
      → fd < 2 ^ 32
      → (read fd null pcb ≢ calls null_driver) × (8 ≤ fd → read fd null pcb ≡ fails)
  unfolding read
  read-safe fd null w = elim (dec_lt fd 8) [
    | yes p ↦ (ground (arith, readable fd p), λ h. absurd (omega arith))
    | no p ↦ (ground arith, ground arith)
  ]

  -- For well-formed descriptors, and if the block that `program_id` leads to is that of the process
  -- that runs, `write` never calls through NULL, whatever number and buffer it is given, and it
  -- returns -1 for every number that is negative or above 7.
  pub write-safe :
      (fd : ℕ) (null : Bool)
      → fd < 2 ^ 32
      → (write fd null pcb pcb ≢ calls null_driver) × (8 ≤ fd → write fd null pcb pcb ≡ fails)
  unfolding write
  write-safe fd null w = elim (dec_lt fd 8) [
    | yes p ↦ (ground (arith, writable fd p), λ h. absurd (omega arith))
    | no p ↦ (ground arith, ground arith)
  ]
