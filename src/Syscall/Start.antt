-- ===== src/Syscall/Start.antt =====
-- The part of `execute` of student-distrib/syscall.c that makes a process: what it changes in the
-- process table.
use unix_like_os.Base.{
  ℕ, ◌+◌, ◌<◌, ◌≤◌, ◌≡◌, ◌≢◌, ◌⊎◌, inl, inr, ap, refl, sym, ◌∙◌, fun_ext, subst, false, some, arith,
  leb, add32, update, update_self, update-ne, ==_iff,
}
use native.Mathlib.Decide.{ℕ_discrete}
use unix_like_os.Proc.{
  Pcb, Procs, TerminalInfo, max_processes, null_pcb, find_free_pcb, get_new_pcb, get_cur_pcb,
  get_kernel_stack_ptr, pcb_init,
}
use unix_like_os.Proc.Free.{find_free_pcb-FirstFree}
use unix_like_os.Proc.Inv.{Live, IsValid, live_count, live_count-update_fresh, live_count_full}
use unix_like_os.Syscall.Adopt.{
  Adopted, adopt-Adopted, adopt_null-Adopted, pcb_init-others, pcb_init-id, pcb_init-name,
  pcb_init-args, pcb_init-address, pcb_init-top, pcb_init-there, pcb_init-parent,
}
use unix_like_os.Syscall.Execute.{adopt, start_process}

module _ (t : ℕ) (p : Procs) (v : IsValid t p) where
  abbrev new_id : ℕ
  new_id = find_free_pcb p

  -- while a place is left, the block is free and is one of 1 to 6
  new_free : p.process_number < 6 → (1 ≤ new_id) × (new_id < 7) × ((p.pcbs new_id).program_id ≡ 0)
  new_free h = elim (find_free_pcb-FirstFree p) [
    | inl (a, b, f, _) ↦ (a, b, (==_iff _ _).0 f)
    | inr (_, full) ↦ absurd (omega (arith, h, v.counted, live_count_full p.pcbs 6 full))
  ]

  -- the process that calls, or 0 when the terminal has none, is its own number
  current_cases : (p.current ≡ 0) ⊎ Live p p.current
  current_cases = elim (v.top_live t v.on_screen) [
    | inl z ↦ inl (v.current_top ∙ z)
    | inr l ↦ inr (subst (Live p) (sym v.current_top) l)
  ]

-- what `start_process` makes of the table
pub record Started (t : ℕ) (p q : Procs) (n : ℕ) : Type 0 where
  pub others : (i : ℕ) → i ≢ n → q.pcbs i ≡ p.pcbs i
  pub its_id : (q.pcbs n).program_id ≡ n
  pub its_parent : (q.pcbs n).parent_id ≡ p.current
  pub is_current : q.current ≡ n
  pub number : q.process_number ≡ p.process_number + 1
  pub top_here : (q.terminal_info t).top_process_id ≡ n
  pub num_here : (q.terminal_info t).num_process ≡ add32 (p.terminal_info t).num_process 1
  pub top_there : (u : ℕ) → u ≢ t → q.terminal_info u ≡ p.terminal_info u
  pub fresh : (p.pcbs n).program_id ≡ 0
  pub low : 1 ≤ n
  pub high : n < 7
  pub counted : live_count q.pcbs 6 ≡ live_count p.pcbs 6 + 1

-- a new block whose other blocks are the old ones is one process more
pub count_started :
    (p q : Procs) (n : ℕ)
    → ((i : ℕ) → i ≢ n → q.pcbs i ≡ p.pcbs i)
    → 1 ≤ n
    → n < 7
    → (p.pcbs n).program_id ≡ 0
    → (q.pcbs n).program_id ≡ n
    → live_count q.pcbs 6 ≡ live_count p.pcbs 6 + 1
count_started p q n others lo hi fr id =
    let e : q.pcbs ≡ update p.pcbs n (q.pcbs n) = fun_ext (λ i. elim (ℕ_discrete i n) [
      | yes z ↦ rw z (sym (update_self p.pcbs n (q.pcbs n)))
      | no d ↦ others i d ∙ sym (update-ne p.pcbs n i (q.pcbs n) d)
    ]) in
    ap (λ f. live_count f 6) e
    ∙ live_count-update_fresh p.pcbs n (q.pcbs n) 6 lo (omega arith) fr
        (λ z. omega (arith, z, id, lo))

module _ (t cur : ℕ) (p q : Procs) where
  abbrev fresh_id : ℕ
  fresh_id = find_free_pcb p

  -- the table behind `process_number++` and `pcb_init`
  abbrev initialized : Procs
  unfolding pcb_init
  initialized = pcb_init t fresh_id (record p { process_number = add32 p.process_number 1 })

  -- The process that the choice of the parent gives to `cur`, or to no process if `cur` is 0.
  adopt-Started :
      Adopted cur fresh_id initialized q
      → p.process_number < 6
      → (1 ≤ fresh_id) × (fresh_id < 7) × ((p.pcbs fresh_id).program_id ≡ 0)
      → Started t (record p { current = cur }) q fresh_id
        × ((q.pcbs fresh_id).cmd_name ≡ (p.pcbs fresh_id).cmd_name)
        × ((q.pcbs fresh_id).cmd_args ≡ (p.pcbs fresh_id).cmd_args)
        × ((q.pcbs fresh_id).address ≡ get_kernel_stack_ptr fresh_id)
  unfolding pcb_init find_free_pcb
  adopt-Started a h (lo, hi, fr) =
      let n = fresh_id in
      let p1 : Procs = record p { process_number = add32 p.process_number 1 } in
      let others : (i : ℕ) → i ≢ n → q.pcbs i ≡ p.pcbs i =
        λ i d. a.others i d ∙ pcb_init-others t n i p1 d in
      let id : (q.pcbs n).program_id ≡ n = a.id ∙ pcb_init-id t n p1 in
      (
        record {
          others = others;
          its_id = id;
          its_parent = a.parent;
          is_current = a.current;
          number = a.number ∙ omega (arith, h);
          top_here =
              ap (λ f. (f t).top_process_id) a.terminals
              ∙ ap (λ (i : TerminalInfo). i.top_process_id) (pcb_init-top t n p1);
          num_here =
              ap (λ f. (f t).num_process) a.terminals
              ∙ ap (λ (i : TerminalInfo). i.num_process) (pcb_init-top t n p1);
          top_there = λ u d. ap (λ f. f u) a.terminals ∙ pcb_init-there t n u p1 d;
          fresh = fr;
          low = lo;
          high = hi;
          counted = count_started p q n others lo hi fr id;
        },
        a.fields.name ∙ pcb_init-name t n p1,
        a.fields.args ∙ pcb_init-args t n p1,
        a.fields.address ∙ pcb_init-address t n p1,
      )

-- While a place is left, `start_process` makes a process in the first free block.
pub start_process-Started :
    (t : ℕ) (p : Procs)
    → IsValid t p
    → p.process_number < 6
    → (q : Procs) × (start_process t p ≡ some (find_free_pcb p, q))
      × Started t p q (find_free_pcb p)
      × ((q.pcbs (find_free_pcb p)).cmd_name ≡ (p.pcbs (find_free_pcb p)).cmd_name)
      × ((q.pcbs (find_free_pcb p)).cmd_args ≡ (p.pcbs (find_free_pcb p)).cmd_args)
      × ((q.pcbs (find_free_pcb p)).address ≡ get_kernel_stack_ptr (find_free_pcb p))
unfolding start_process pcb_init get_new_pcb get_cur_pcb find_free_pcb
start_process-Started t p v h =
    let (lo, hi, fr) = new_free t p v h in
    let n = find_free_pcb p in
    let big : leb max_processes (add32 p.process_number 1) ≡ false = ground (arith, h) in
    let p1 : Procs = record p { process_number = add32 p.process_number 1 } in
    let p2 = pcb_init t n p1 in
    let a =
      adopt-Adopted p.current n p2
        (elim (current_cases t p v) [ inl z ↦ omega (arith, z) | inr l ↦ l.high ])
        (elim (current_cases t p v) [
          | inl z ↦ inl z
          | inr l ↦ inr (
              ap (λ (k : Pcb). k.program_id)
                (pcb_init-others t n p.current p1 (λ e.
                  omega
                    (arith, l.id, l.low, fr, subst (λ k. (p.pcbs k).program_id ≡ k) e l.id, lo)))
              ∙ l.id)
        ]) in
    let q = adopt p.current n p2 in
    let (st, name, args, address) = adopt-Started t p.current p q a h (lo, hi, fr) in
    (q, rw big refl, st, name, args, address)

-- So it does with no caller, as in the first `execute` after the start of the machine.
pub start_process_first-Started :
    (t : ℕ) (p : Procs)
    → p.current ≡ null_pcb
    → IsValid t (record p { current = 0 })
    → p.process_number < 6
    → (q : Procs) × (start_process t p ≡ some (find_free_pcb p, q))
      × Started t (record p { current = 0 }) q (find_free_pcb p)
unfolding start_process pcb_init get_new_pcb get_cur_pcb find_free_pcb
start_process_first-Started t p none_yet v h =
    let free = new_free t (record p { current = 0 }) v h in
    let n = find_free_pcb p in
    let big : leb max_processes (add32 p.process_number 1) ≡ false = ground (arith, h) in
    let p1 : Procs = record p { process_number = add32 p.process_number 1 } in
    let p2 = pcb_init t n p1 in
    let q = adopt null_pcb n p2 in
    (
      q,
      rw (big, none_yet) refl,
      (adopt-Started t 0 p q (adopt_null-Adopted n p2 (pcb_init-parent t n p1)) h free).0,
    )
