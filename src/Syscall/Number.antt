-- ===== src/Syscall/Number.antt =====
-- The check of the number of a call in `syscall_handler` of student-distrib/syscall_asm.S.
use native.Mathlib.Decide.{dec_lt}
use unix_like_os.Base.{
  ℕ, zero, suc, ◌-◌, ◌^◌, ◌<◌, ◌≤◌, ◌≡◌, ◌⊎◌, refl, subst, none, some, List, [], ◌∷◌, arith, ltb,
  if◌then◌else◌, slt, not, get_elem?,
}

-- `MAX_SYSCALL` of the assembly code
abbrev pub max_syscall : ℕ
max_syscall = 10

-- the functions that `syscall_table` names
pub data Entry : Type 0 where
  halt execute read write open_ close getargs vidmap : Entry

abbrev pub syscall_table : List Entry
syscall_table = halt ∷ execute ∷ read ∷ write ∷ open_ ∷ close ∷ getargs ∷ vidmap ∷ []

-- What `syscall_handler` does with a number: it returns -1, it calls a function of the table, or it calls what memory
-- holds behind the table.
pub data Selected : Type 0 where
  refused : Selected
  calls : Entry → Selected
  behind : ℕ → Selected

unfoldable pub syscall_handler : ℕ → Selected
syscall_handler number =
    if ltb max_syscall number
    then refused
    else if not (slt 0 number)
    then refused
    else elim (get_elem? syscall_table (number - 1)) [
      | none ↦ behind (number - 1)
      | some e ↦ calls e
    ]

-- The number calls the function at its place in the table.
abbrev pub Named : ℕ → Type 0
Named n = (e : Entry) × (syscall_handler n ≡ calls e) × (get_elem? syscall_table (n - 1) ≡ some e)

named : (n : ℕ) → 1 ≤ n → n ≤ 8 → Named n
unfolding syscall_handler
named zero lo hi = absurd (omega arith)
named (suc zero) lo hi = (halt, refl, refl)
named (suc (suc zero)) lo hi = (execute, refl, refl)
named (suc (suc (suc zero))) lo hi = (read, refl, refl)
named (suc (suc (suc (suc zero)))) lo hi = (write, refl, refl)
named (suc (suc (suc (suc (suc zero))))) lo hi = (open_, refl, refl)
named (suc (suc (suc (suc (suc (suc zero)))))) lo hi = (close, refl, refl)
named (suc (suc (suc (suc (suc (suc (suc zero))))))) lo hi = (getargs, refl, refl)
named (suc (suc (suc (suc (suc (suc (suc (suc zero)))))))) lo hi = (vidmap, refl, refl)
named (suc (suc (suc (suc (suc (suc (suc (suc (suc n))))))))) lo hi = absurd (omega arith)

-- Every number of a call, as a pattern of 32 bits: 1 to 8 call a function that the table names; 0, every number above
-- 10 and every negative one get -1; but 9 and 10, which the check lets through too, call whatever memory holds behind
-- the table.
pub syscall_handler_lem :
    (n : ℕ)
    → n < 2 ^ 32
    → (1 ≤ n → n ≤ 8 → Named n)
      × ((n ≡ 0) ⊎ (10 < n) → syscall_handler n ≡ refused)
      × (9 ≤ n → n ≤ 10 → syscall_handler n ≡ behind (n - 1))
unfolding syscall_handler
syscall_handler_lem n w = (
  named n,
  λ out. ground (arith, out),
  λ lo hi. elim (dec_lt n 10) [
    | yes p ↦ let e : 9 ≡ n = omega arith in subst (λ k. syscall_handler k ≡ behind (k - 1)) e refl
    | no p ↦ let e : 10 ≡ n = omega arith in subst (λ k. syscall_handler k ≡ behind (k - 1)) e refl
  ],
)
