-- ===== src/Proc/Inv.antt =====
-- The invariant of the process table: identifiers, the count, and the tree of parents.
use unix_like_os.Base.{
  ℕ, zero, suc, ◌+◌, ◌<◌, ◌≤◌, ◌≡◌, ◌≢◌, ◌⊎◌, refl, false, arith, ◌==◌, if◌then◌else◌, update,
  update-ne,
}
use native.Mathlib.Decide.{dec_lt}
use unix_like_os.Proc.{Pcb, Procs, max_processes}

-- how many of the blocks 1 to `n` have a process
unfoldable pub live_count : (ℕ → Pcb) → ℕ → ℕ
live_count pcbs zero = 0
live_count pcbs (suc n) = live_count pcbs n + (if (pcbs (suc n)).program_id == 0 then 0 else 1)

-- Block `i` has a process, and the process knows its number.
pub record Live (p : Procs) (i : ℕ) : Type 0 where
  pub low : 1 ≤ i
  pub high : i < max_processes
  pub id : (p.pcbs i).program_id ≡ i

-- `cur` is the number of the terminal on screen.
pub record IsValid (cur : ℕ) (p : Procs) : Type 0 where
  pub none_at_zero : (p.pcbs 0).program_id ≡ 0
  pub ids : (i : ℕ) → 1 ≤ i → i < max_processes → ((p.pcbs i).program_id ≡ 0) ⊎ Live p i
  pub counted : p.process_number ≡ live_count p.pcbs 6
  pub on_screen : cur < 3
  -- the process that runs is the top one of the terminal on screen
  pub current_top : p.current ≡ (p.terminal_info cur).top_process_id
  pub top_live :
      (t : ℕ)
      → t < 3
      → ((p.terminal_info t).top_process_id ≡ 0) ⊎ Live p (p.terminal_info t).top_process_id
  pub parent_live : (i : ℕ) → Live p i → ((p.pcbs i).parent_id ≡ 0) ⊎ Live p (p.pcbs i).parent_id
  -- a process waits for one child at most, and the top process of a terminal for none
  pub one_child :
      (i j : ℕ)
      → Live p i
      → Live p j
      → (p.pcbs i).parent_id ≢ 0
      → (p.pcbs i).parent_id ≡ (p.pcbs j).parent_id
      → i ≡ j
  pub top_leaf :
      (t i : ℕ)
      → t < 3
      → Live p i
      → (p.pcbs i).parent_id ≢ 0
      → (p.pcbs i).parent_id ≢ (p.terminal_info t).top_process_id
  -- no process is on top of two terminals
  pub tops_differ :
      (t u : ℕ)
      → t < 3
      → u < 3
      → t ≢ u
      → (p.terminal_info t).top_process_id ≢ 0
      → (p.terminal_info t).top_process_id ≢ (p.terminal_info u).top_process_id

pub live_count-le : (pcbs : ℕ → Pcb) (n : ℕ) → live_count pcbs n ≤ n
unfolding live_count
live_count-le pcbs zero = omega arith
live_count-le pcbs (suc n) = ground (arith, live_count-le pcbs n)

-- If all of the first `n` blocks are taken, the count is `n`.
pub live_count_full :
    (pcbs : ℕ → Pcb) (n : ℕ)
    → ((k : ℕ) → 1 ≤ k → k < suc n → ((pcbs k).program_id == 0) ≡ false)
    → live_count pcbs n ≡ n
unfolding live_count
live_count_full pcbs zero h = refl
live_count_full pcbs (suc n) h =
    rw (h (suc n) (omega arith) (omega arith))
      (omega (arith, live_count_full pcbs n (λ k a b. h k a (omega arith))))

module _ (pcbs : ℕ → Pcb) (i : ℕ) (q : Pcb) where
  pub live_count-update_above : (n : ℕ) → n < i → live_count (update pcbs i q) n ≡ live_count pcbs n
  unfolding live_count
  live_count-update_above zero h = refl
  live_count-update_above (suc n) h =
      let e : update pcbs i q (suc n) ≡ pcbs (suc n) = update-ne pcbs i (suc n) q (omega arith) in
      rw (e, live_count-update_above n (omega arith))

  -- One more process in a free block.
  pub live_count-update_fresh :
      (n : ℕ)
      → 1 ≤ i
      → i ≤ n
      → (pcbs i).program_id ≡ 0
      → q.program_id ≢ 0
      → live_count (update pcbs i q) n ≡ live_count pcbs n + 1
  unfolding live_count
  live_count-update_fresh zero lo hi was is = absurd (omega arith)
  live_count-update_fresh (suc n) lo hi was is = elim (dec_lt i (suc n)) [
    | yes p ↦
        let e : update pcbs i q (suc n) ≡ pcbs (suc n) = update-ne pcbs i (suc n) q (omega arith) in
        rw e (omega (arith, live_count-update_fresh n lo (omega arith) was is))
    | no p ↦
        let e : i ≡ suc n = omega arith in
        let w : (pcbs (suc n)).program_id ≡ 0 = rw (← e) was in
        ground (arith, live_count-update_above n (omega arith), w, e)
  ]

  -- One process fewer.
  pub live_count-update_gone :
      (n : ℕ)
      → 1 ≤ i
      → i ≤ n
      → (pcbs i).program_id ≢ 0
      → q.program_id ≡ 0
      → live_count (update pcbs i q) n + 1 ≡ live_count pcbs n
  unfolding live_count
  live_count-update_gone zero lo hi was is = absurd (omega arith)
  live_count-update_gone (suc n) lo hi was is = elim (dec_lt i (suc n)) [
    | yes p ↦
        let e : update pcbs i q (suc n) ≡ pcbs (suc n) = update-ne pcbs i (suc n) q (omega arith) in
        rw e (omega (arith, live_count-update_gone n lo (omega arith) was is))
    | no p ↦
        let e : i ≡ suc n = omega arith in
        let w : (pcbs (suc n)).program_id ≢ 0 = rw (← e) was in
        ground (arith, live_count-update_above n (omega arith), w, e)
  ]

-- A process means that the count is positive.
pub live_count_pos :
    (pcbs : ℕ → Pcb) (i n : ℕ) → 1 ≤ i → i ≤ n → (pcbs i).program_id ≢ 0 → 1 ≤ live_count pcbs n
unfolding live_count
live_count_pos pcbs i zero lo hi h = absurd (omega arith)
live_count_pos pcbs i (suc n) lo hi h = elim (dec_lt i (suc n)) [
  | yes p ↦ omega (arith, live_count_pos pcbs i n lo (omega arith) h)
  | no p ↦
      let e : i ≡ suc n = omega arith in
      let w : (pcbs (suc n)).program_id ≢ 0 = rw (← e) h in ground (arith, w)
]
