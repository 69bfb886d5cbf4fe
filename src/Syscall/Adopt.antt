-- ===== src/Syscall/Adopt.antt =====
-- The choice of the parent in `execute` of student-distrib/syscall.c, and `pcb_init`, field by field.
use unix_like_os.Base.{
  ℕ, ◌<◌, ◌≡◌, ◌≢◌, ◌⊎◌, inl, inr, ap, refl, sym, ◌∙◌, false, arith, ◌==◌, add32, update_self,
  update-ne, ==_iff, ==_ne,
}
use native.Mathlib.Decide.{ℕ_discrete}
use unix_like_os.Proc.{Pcb, Procs, null_pcb, find_free_pcb, get_kernel_stack_ptr, pcb_init}
use unix_like_os.Syscall.Execute.{set_parent, adopt}

-- the fields that the choice of the parent leaves to the block
pub record SameFields (a b : Pcb) : Type 0 where
  pub name : a.cmd_name ≡ b.cmd_name
  pub args : a.cmd_args ≡ b.cmd_args
  pub address : a.address ≡ b.address

-- what that choice does, when the caller is process `cur`, or there is none
pub record Adopted (cur n : ℕ) (p q : Procs) : Type 0 where
  pub fields : SameFields (q.pcbs n) (p.pcbs n)
  pub others : (i : ℕ) → i ≢ n → q.pcbs i ≡ p.pcbs i
  pub id : (q.pcbs n).program_id ≡ (p.pcbs n).program_id
  pub parent : (q.pcbs n).parent_id ≡ cur
  pub current : q.current ≡ p.current
  pub number : q.process_number ≡ p.process_number
  pub terminals : q.terminal_info ≡ p.terminal_info

module _ (n id : ℕ) (p : Procs) where
  set_parent-others : (i : ℕ) → i ≢ n → (set_parent n id p).pcbs i ≡ p.pcbs i
  set_parent-others i d = update-ne p.pcbs n i _ d

  set_parent-id : ((set_parent n id p).pcbs n).program_id ≡ (p.pcbs n).program_id
  set_parent-id = ground arith

  set_parent-parent : ((set_parent n id p).pcbs n).parent_id ≡ id
  set_parent-parent = ground arith

  set_parent-fields : SameFields ((set_parent n id p).pcbs n) (p.pcbs n)
  set_parent-fields = record { name = ground arith; args = ground arith; address = ground arith }

pub adopt-Adopted :
    (cur n : ℕ) (p : Procs)
    → cur < 7
    → (cur ≡ 0) ⊎ ((p.pcbs cur).program_id ≡ cur)
    → Adopted cur n p (adopt cur n p)
unfolding adopt
adopt-Adopted cur n p small h =
    let not_null : (cur == null_pcb) ≡ false = ==_ne cur 7 (omega arith) in
    let id = (p.pcbs cur).program_id in
    let q = set_parent n id p in
    elim (ℕ_discrete cur 0) [
      | yes z ↦
          rw (not_null, (==_iff cur 0).1 z)
            (record {
              fields =
                  let a = set_parent-fields n 0 q in
                  let b = set_parent-fields n id p in
                  record {
                    name = a.name ∙ b.name;
                    args = a.args ∙ b.args;
                    address = a.address ∙ b.address;
                  };
              others = λ i d. set_parent-others n 0 q i d ∙ set_parent-others n id p i d;
              id = set_parent-id n 0 q ∙ set_parent-id n id p;
              parent = set_parent-parent n 0 q ∙ sym z;
              current = refl;
              number = refl;
              terminals = refl;
            })
      | no d ↦
          rw (not_null, ==_ne cur 0 d)
            (record {
              fields = set_parent-fields n id p;
              others = set_parent-others n id p;
              id = set_parent-id n id p;
              parent = set_parent-parent n id p ∙ elim h [ inl z ↦ absurd (d z) | inr e ↦ e ];
              current = refl;
              number = refl;
              terminals = refl;
            })
    ]

-- what `pcb_init` leaves of the table
pub pcb_init-others : (t n i : ℕ) (p : Procs) → i ≢ n → (pcb_init t n p).pcbs i ≡ p.pcbs i
unfolding pcb_init
pcb_init-others t n i p d = update-ne p.pcbs n i _ d

pub pcb_init-id : (t n : ℕ) (p : Procs) → ((pcb_init t n p).pcbs n).program_id ≡ find_free_pcb p
unfolding pcb_init
pcb_init-id t n p = ap (λ (q : Pcb). q.program_id) (update_self p.pcbs n _)

pub pcb_init-name : (t n : ℕ) (p : Procs) → ((pcb_init t n p).pcbs n).cmd_name ≡ (p.pcbs n).cmd_name
unfolding pcb_init
pcb_init-name t n p = ap (λ (q : Pcb). q.cmd_name) (update_self p.pcbs n _)

pub pcb_init-args : (t n : ℕ) (p : Procs) → ((pcb_init t n p).pcbs n).cmd_args ≡ (p.pcbs n).cmd_args
unfolding pcb_init
pcb_init-args t n p = ap (λ (q : Pcb). q.cmd_args) (update_self p.pcbs n _)

pub pcb_init-address :
    (t n : ℕ) (p : Procs)
    → ((pcb_init t n p).pcbs n).address ≡ get_kernel_stack_ptr (find_free_pcb p)
unfolding pcb_init
pcb_init-address t n p = ap (λ (q : Pcb). q.address) (update_self p.pcbs n _)

pub pcb_init-top :
    (t n : ℕ) (p : Procs)
    → ((pcb_init t n p).terminal_info t) ≡ record {
      top_process_id = find_free_pcb p;
      num_process = add32 (p.terminal_info t).num_process 1;
    }
unfolding pcb_init
pcb_init-top t n p = update_self p.terminal_info t _

pub pcb_init-there :
    (t n u : ℕ) (p : Procs) → u ≢ t → (pcb_init t n p).terminal_info u ≡ p.terminal_info u
unfolding pcb_init
pcb_init-there t n u p d = update-ne p.terminal_info t u _ d

-- With no caller, the parent is what `pcb_init` left.
pub adopt_null-Adopted :
    (n : ℕ) (p : Procs) → (p.pcbs n).parent_id ≡ 0 → Adopted 0 n p (adopt null_pcb n p)
unfolding adopt
adopt_null-Adopted n p e = record {
  fields = record { name = refl; args = refl; address = refl };
  others = λ i d. refl;
  id = refl;
  parent = e;
  current = refl;
  number = refl;
  terminals = refl;
}

pub pcb_init-parent : (t n : ℕ) (p : Procs) → ((pcb_init t n p).pcbs n).parent_id ≡ 0
unfolding pcb_init
pcb_init-parent t n p = ap (λ (q : Pcb). q.parent_id) (update_self p.pcbs n _)
