-- ===== src/Proc/Free.antt =====
-- `find_free_pcb` and `find_free_fd` of student-distrib/pcb.c.
use unix_like_os.Base.{
  ℕ, zero, suc, ◌+◌, ◌<◌, ◌≤◌, ◌≡◌, ◌⊎◌, inl, inr, refl, subst, Bool, true, false, arith, ◌==◌,
  minus_one, Bool-cases,
}
use native.Mathlib.Decide.{dec_lt}
use unix_like_os.Proc.{
  Pcb, Descriptor, Procs, is_null, max_processes, find_pcb_from, find_free_pcb, find_fd_from,
  find_free_fd,
}

-- In the places from `i` to `stop`, `r` is the first at which `free` holds, or -1 if there is none.
abbrev pub FirstFree : (ℕ → Bool) → ℕ → ℕ → ℕ → Type 0
FirstFree free i stop r =
    ((i ≤ r) × (r < stop) × (free r ≡ true) × ((k : ℕ) → i ≤ k → k < r → free k ≡ false))
    ⊎ ((r ≡ minus_one) × ((k : ℕ) → i ≤ k → k < stop → free k ≡ false))

module _ (free : ℕ → Bool) where
  extend_free :
      (i stop r : ℕ)
      → i < stop
      → free i ≡ false
      → FirstFree free (i + 1) stop r
      → FirstFree free i stop r
  extend_free i stop r lt no_i (inl (a, b, f, before)) = inl (
    omega arith,
    b,
    f,
    λ k c d. elim (dec_lt i k) [
      | yes p ↦ before k (omega arith) d
      | no p ↦ let e : i ≡ k = omega arith in subst (λ m. free m ≡ false) e no_i
    ],
  )
  extend_free i stop r lt no_i (inr (e, nowhere)) = inr (
    e,
    λ k c d. elim (dec_lt i k) [
      | yes p ↦ nowhere k (omega arith) d
      | no p ↦ let e' : i ≡ k = omega arith in subst (λ m. free m ≡ false) e' no_i
    ],
  )

abbrev pub free_pcb : (ℕ → Pcb) → ℕ → Bool
free_pcb pcbs i = (pcbs i).program_id == 0

abbrev pub free_fd : (ℕ → Descriptor) → ℕ → Bool
free_fd files i = is_null (files i).ops

find_pcb_from-FirstFree :
    (pcbs : ℕ → Pcb) (n i stop : ℕ)
    → i + n ≡ stop
    → FirstFree (free_pcb pcbs) i stop (find_pcb_from pcbs n i)
unfolding find_pcb_from
find_pcb_from-FirstFree pcbs zero i stop e = inr (refl, λ k a b. absurd (omega arith))
find_pcb_from-FirstFree pcbs (suc n) i stop e = elim (Bool-cases (free_pcb pcbs i)) [
  | inl f ↦ rw f (inl (omega arith, omega arith, f, λ k a b. absurd (omega arith)))
  | inr u ↦ rw u (
      extend_free (free_pcb pcbs) i stop _ (omega arith) u
        (find_pcb_from-FirstFree pcbs n (i + 1) stop (omega arith)))
]

find_fd_from-FirstFree :
    (files : ℕ → Descriptor) (n i stop : ℕ)
    → i + n ≡ stop
    → FirstFree (free_fd files) i stop (find_fd_from files n i)
unfolding find_fd_from
find_fd_from-FirstFree files zero i stop e = inr (refl, λ k a b. absurd (omega arith))
find_fd_from-FirstFree files (suc n) i stop e = elim (Bool-cases (free_fd files i)) [
  | inl f ↦ rw f (inl (omega arith, omega arith, f, λ k a b. absurd (omega arith)))
  | inr u ↦ rw u (
      extend_free (free_fd files) i stop _ (omega arith) u
        (find_fd_from-FirstFree files n (i + 1) stop (omega arith)))
]

-- `find_free_pcb` returns the first of the blocks 1 to 6 with no process, or -1 if all have one.
pub find_free_pcb-FirstFree :
    (p : Procs) → FirstFree (free_pcb p.pcbs) 1 max_processes (find_free_pcb p)
unfolding find_free_pcb
find_free_pcb-FirstFree p = find_pcb_from-FirstFree p.pcbs 6 1 7 (omega arith)

-- `find_free_fd` returns the first of the descriptors 2 to 7 with no operations, or -1 if all have
-- some: never that of the standard input or output.
pub find_free_fd-FirstFree : (pcb : Pcb) → FirstFree (free_fd pcb.file_array) 2 8 (find_free_fd pcb)
unfolding find_free_fd
find_free_fd-FirstFree pcb = find_fd_from-FirstFree pcb.file_array 6 2 8 (omega arith)
