-- ===== src/Syscall/Closed.antt =====
-- What `close` of student-distrib/syscall.c leaves alone in a process.
use unix_like_os.Base.{
  ℕ, zero, suc, ◌+◌, ◌%◌, ◌≡◌, inl, inr, ap, refl, ◌∙◌, subst, Option, none, some, ◌==◌, ltb, ◌>>=◌,
  slt, Bool-cases, update,
}
use unix_like_os.Proc.{
  Pcb, no_ops, file_ops, rtc_ops, terminal_ops, stdin_ops, stdout_ops, remove_fd,
}
use unix_like_os.Files.{close_file}
use unix_like_os.Syscall.{closeptr, close, close_from, close_all}

-- the same process but for its descriptors
abbrev pub SameBut : Pcb → Pcb → Type 0
SameBut b a = b ≡ record a { file_array = b.file_array }

SameBut-join : (a b c : Pcb) → SameBut b a → SameBut c b → SameBut c a
SameBut-join a b c e f = f ∙ ap (λ (x : Pcb). record x { file_array = c.file_array }) e

remove_fd-SameBut : (a : Pcb) (fd : ℕ) → SameBut (remove_fd a fd).1 a
unfolding remove_fd
remove_fd-SameBut a fd = elim (Bool-cases (ltb (fd % 256) 2)) [
  | inl e ↦ rw e refl
  | inr e ↦ rw e (elim (Bool-cases (ltb 7 (fd % 256))) [ inl e ↦ rw e refl | inr e ↦ rw e refl ])
]

-- what holds of the value of a call that does not fault
abbrev OnSome {ℓ} : {A : Type ℓ} → (A → Type 0) → Option A → Type 0
OnSome P none = Unit
OnSome P (some x) = P x

OnSome-bind :
    {A B : Type 0} (P : A → Type 0) (Q : B → Type 0) (m : Option A) (f : A → Option B)
    → OnSome P m
    → ((x : A) → P x → OnSome Q (f x))
    → OnSome Q (m >>= f)
OnSome-bind P Q none f h k = tt
OnSome-bind P Q (some x) f h k = k x h

OnSome-map :
    {A : Type 0} (P Q : A → Type 0) (m : Option A) → ((x : A) → P x → Q x) → OnSome P m → OnSome Q m
OnSome-map P Q none k h = tt
OnSome-map P Q (some x) k h = k x h

closeptr-SameBut : (a : Pcb) (fd : ℕ) → OnSome (λ b. SameBut b a) (closeptr fd a)
unfolding closeptr close_file
closeptr-SameBut a fd =
    elim (a.file_array fd).ops
      as (λ o.
        OnSome (λ b. SameBut b a)
          (elim o [ no_ops ↦ none | file_ops ↦ some (close_file fd a).1 | _ ↦ some a ])) [
            | no_ops ↦ tt
            | file_ops ↦ refl
            | rtc_ops ↦ refl
            | terminal_ops ↦ refl
            | stdin_ops ↦ refl
            | stdout_ops ↦ refl
          ]

close-SameBut : (a : Pcb) (fd : ℕ) → OnSome (λ r. SameBut r.1 a) (close fd a)
unfolding close
close-SameBut a fd =
    let marked : Pcb = record a {
      file_array = update a.file_array fd (record (a.file_array fd) { flags = 0 });
    } in
    let closed =
      OnSome-bind (λ b. SameBut b marked) (λ r. SameBut r.1 a) (closeptr fd marked)
        (λ b. some (0, (remove_fd b fd).1)) (closeptr-SameBut marked fd)
        (λ b e. SameBut-join a b _ e (remove_fd-SameBut b fd)) in
    elim (Bool-cases ((a.file_array fd).flags == 0)) [
      | inl e ↦ rw e refl
      | inr e ↦ rw e (elim (Bool-cases (slt fd 2)) [
        | inl e' ↦ rw e' refl
        | inr e' ↦ rw e' (elim (Bool-cases (slt 7 fd)) [ inl f ↦ rw f refl | inr f ↦ rw f closed ])
      ])
    ]

close_from-SameBut : (n i : ℕ) (a : Pcb) → OnSome (λ b. SameBut b a) (close_from n i a)
unfolding close_from
close_from-SameBut zero i a = refl
close_from-SameBut (suc n) i a =
    OnSome-bind (λ r. SameBut r.1 a) (λ b. SameBut b a) (close i a) (λ r. close_from n (i + 1) r.1)
      (close-SameBut a i)
      (λ r e.
        OnSome-map (λ b. SameBut b r.1) (λ b. SameBut b a) (close_from n (i + 1) r.1)
          (λ b f. SameBut-join a r.1 b e f) (close_from-SameBut n (i + 1) r.1))

pub close_all-SameBut : (a b : Pcb) → close_all a ≡ some b → SameBut b a
unfolding close_all
close_all-SameBut a b e = subst (OnSome (λ c. SameBut c a)) e (close_from-SameBut 8 0 a)
