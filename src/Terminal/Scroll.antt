-- ===== src/Terminal/Scroll.antt =====
-- `scroll` of student-distrib/terminal.c, row by row.
use native.Mathlib.Decide.{dec_lt}
use unix_like_os.Base.{
  ℕ, ◌+◌, ◌-◌, ◌*◌, ◌<◌, ◌≤◌, ◌≡◌, ap, refl, ◌∙◌, subst, true, arith, leb, update, update_self,
  update-ne, for_range, for_range_inv,
}
use unix_like_os.Terminal.{Terminal, height, width, here, blank, move_rows, blank_row, scroll}

-- The first `n` cells of `w` hold what `v` held a row further down; the others are as in `v`.
abbrev Moved : (ℕ → ℕ) → ℕ → (ℕ → ℕ) → Type 0
Moved v n w = ((k : ℕ) → k < n → w k ≡ v (k + 80)) × ((k : ℕ) → n ≤ k → w k ≡ v k)

move_cell : (v w : ℕ → ℕ) (n m : ℕ) → m ≡ n + 80 → Moved v n w → Moved v (n + 1) (update w n (w m))
move_cell v w n m e h = (
  λ k lt. elim (dec_lt k n) [
    | yes p ↦ update-ne w n k (w m) (λ q. omega (arith, q)) ∙ h.0 k p
    | no p ↦
        let q : k ≡ n = omega arith in rw (q, update_self w n (w m)) (h.1 m (omega arith) ∙ ap v e)
  ],
  λ k le. update-ne w n k (w m) (λ q. omega (arith, q)) ∙ h.1 k (omega arith),
)

move_rows-Moved : (v : ℕ → ℕ) → Moved v 1920 (move_rows v)
unfolding move_rows
move_rows-Moved v =
    for_range_inv (λ i w. Moved v (i * 80) w)
      (λ i w. for_range width 0 (λ j u. update u (i * width + j) (u ((i + 1) * width + j))) w) 24 0
      24 v (omega arith)
      (λ i w _ _ h.
        subst
          (λ n. Moved v n (for_range 80 0 (λ j u. update u (i * 80 + j) (u ((i + 1) * 80 + j))) w))
          (omega arith)
          (for_range_inv (λ j u. Moved v (i * 80 + j) u)
            (λ j u. update u (i * width + j) (u ((i + 1) * width + j))) 80 0 80 w (omega arith)
            (λ j u _ _ g.
              subst (λ n. Moved v n (update u (i * 80 + j) (u ((i + 1) * 80 + j)))) (omega arith)
                (move_cell v u (i * 80 + j) ((i + 1) * 80 + j) (omega arith) g))
            (subst (λ n. Moved v n w) (omega arith) h)))
      (λ k lt. absurd (omega arith), λ k le. refl)

blank_row_lem :
    (b : ℕ) (v : ℕ → ℕ)
    → ((k : ℕ) → 1920 ≤ k → k < 2000 → blank_row b v k ≡ b)
      × ((k : ℕ) → k < 1920 → blank_row b v k ≡ v k)
      × ((k : ℕ) → 2000 ≤ k → blank_row b v k ≡ v k)
unfolding blank_row
blank_row_lem b v =
    for_range_inv
      (λ j w.
        ((k : ℕ) → 1920 ≤ k → k < 1920 + j → w k ≡ b)
        × ((k : ℕ) → k < 1920 → w k ≡ v k)
        × ((k : ℕ) → 1920 + j ≤ k → w k ≡ v k))
      (λ j w. update w ((height - 1) * width + j) b) 80 0 80 v (omega arith)
      (λ j w _ _ h. (
        λ k lo hi. ground (arith, h.0 k lo),
        λ k lt. ground (arith, h.1 k lt),
        λ k le. ground (arith, h.2 k),
      ))
      (λ k a c. absurd (omega arith), λ k a. refl, λ k a. refl)

-- When the cursor has left the last row, `scroll` moves every row up by one and blanks the last,
-- leaves the memory behind the 2000 cells of the screen alone, and puts the cursor at the start of
-- the last row.
pub scroll_lem :
    (s : Terminal)
    → 25 ≤ here s.csr_y s
    → let s' = scroll s in
      ((row col : ℕ)
        → row < 24
        → col < 80
        → s'.video (row * 80 + col) ≡ s.video ((row + 1) * 80 + col))
      × ((col : ℕ) → col < 80 → s'.video (24 * 80 + col) ≡ blank s)
      × ((k : ℕ) → 2000 ≤ k → s'.video k ≡ s.video k)
      × (here s'.csr_y s' ≡ 24)
      × (here s'.csr_x s' ≡ 0)
unfolding scroll
scroll_lem s h =
    let t : leb 25 (here s.csr_y s) ≡ true = ground arith in
    let (last, above, behind) = blank_row_lem (blank s) (move_rows s.video) in
    let (moved, kept) = move_rows-Moved s.video in
    rw t (
      λ row col r c.
          above (row * 80 + col) (omega arith)
          ∙ moved (row * 80 + col) (omega arith)
          ∙ ap s.video (omega arith),
      λ col c. last (1920 + col) (omega arith) (omega arith),
      λ k le. behind k le ∙ kept k (omega arith),
      update_self s.csr_y s.curr_terminal 24,
      update_self s.csr_x s.curr_terminal 0,
    )
