-- ===== src/Terminal/Line.antt =====
-- The loop of `terminal_read` of student-distrib/terminal.c, and the line buffer that it reads.
use unix_like_os.Base.{
  ℕ, zero, suc, ◌+◌, ◌^◌, ◌<◌, ◌≤◌, ◌≡◌, ◌≢◌, ◌⊎◌, ap, refl, ◌∙◌, Bool, true, false, arith, ◌==◌,
  ltb, slt, ◌&&◌, not, update, update_self, update-ne,
}
use native.Mathlib.Decide.{dec_lt}
use unix_like_os.Terminal.{Terminal, newline, here, new_line, scroll, add_to_buffer, read_from}

-- the line buffer of the current terminal
abbrev pub line : Terminal → ℕ → ℕ
line s = s.terminal_buffer s.curr_terminal

pub add_to_buffer_lem :
    (c : ℕ) (s : Terminal)
    → here s.buffer_len s < 128
    → let s' = add_to_buffer c s in
      (s'.curr_terminal ≡ s.curr_terminal)
      × (here s'.buffer_len s' ≡ here s.buffer_len s + 1)
      × (line s' ≡ update (line s) (here s.buffer_len s) c)
unfolding add_to_buffer
add_to_buffer_lem c s h =
    let t : ltb (here s.buffer_len s) 128 ≡ true = ground arith in
    rw t (
      refl,
      update_self s.buffer_len s.curr_terminal _ ∙ omega arith,
      update_self s.terminal_buffer s.curr_terminal _,
    )

-- the test of the loop of `terminal_read`
abbrev goes_on : (ℕ → ℕ) → ℕ → ℕ → Bool
goes_on chars count i = slt i count && not (chars i == 0) && not (chars i == newline)

abbrev pub Copied : (ℕ → ℕ) → ℕ → ℕ → (ℕ → ℕ) → ℕ × (ℕ → ℕ) → Type 0
Copied chars m i buf (stop, out) =
    (stop ≡ m)
    × ((k : ℕ) → i ≤ k → k < m → out k ≡ chars k)
    × ((k : ℕ) → k < i → out k ≡ buf k)
    × ((k : ℕ) → m ≤ k → out k ≡ buf k)

-- The loop of `terminal_read` stops at `m`, and has copied the characters up to there.
pub read_from_lem :
    (chars : ℕ → ℕ) (count m n i : ℕ) (buf : ℕ → ℕ)
    → count < 2 ^ 31
    → ((k : ℕ) → k < m → (chars k ≢ 0) × (chars k ≢ newline))
    → (count ≡ m) ⊎ ((m < count) × (chars m ≡ newline))
    → i ≤ m
    → m < i + n
    → Copied chars m i buf (read_from chars n count i buf)
unfolding read_from
read_from_lem chars count m zero i buf c h end le lt = absurd (omega arith)
read_from_lem chars count m (suc n) i buf c h end le lt = elim (dec_lt i m) [
  | yes p ↦
      let (a, b) = h i p in
      let small : i < count = ground arith in
      let go : goes_on chars count i ≡ true = ground arith in
      let (stop, new, old, past) =
        read_from_lem chars count m n (i + 1) (update buf i (chars i)) c h end (omega arith)
          (omega arith) in
      rw go (
        stop,
        λ k lo hi. elim (dec_lt i k) [
          | yes q ↦ new k (omega arith) hi
          | no q ↦
              let e : k ≡ i = omega arith in
              old k (omega arith) ∙ rw e (update_self buf i (chars i))
        ],
        λ k b. old k (omega arith) ∙ update-ne buf i k (chars i) (λ e. omega (arith, e)),
        λ k b. past k b ∙ update-ne buf i k (chars i) (λ e. omega (arith, e)),
      )
  | no p ↦
      let e : i ≡ m = omega arith in
      let halt : goes_on chars count i ≡ false =
        let w : chars i ≡ chars m = ap chars e in ground (arith, w) in
      rw halt (e, λ k lo hi. absurd (omega arith), λ k b. refl, λ k b. refl)
]

-- `new_line(TRUE)` stays on its terminal, and empties its line buffer.
pub new_line_empties :
    (s : Terminal)
    → let s' = new_line true s in (s'.curr_terminal ≡ s.curr_terminal) × (here s'.buffer_len s' ≡ 0)
unfolding new_line scroll
new_line_empties s = (ground arith, ground arith)
