-- ===== src/User/Shell/Buffer.antt =====
-- The buffer of syscalls/ece391shell.c when a line has been read and closed.
use unix_like_os.Base.{
  get_or-snoc, ℕ, suc, ◌+◌, ◌-◌, ◌<◌, ◌≡◌, ap, ap₂, refl, ◌∙◌, true, [], ◌∷◌, ◌++◌, arith, Bytes,
  ◌==◌, if◌then◌else◌, slt, length, get_or, update, update_self, update-ne, length-append, ==_refl,
  ==_ne,
}
use unix_like_os.Klib.Text.{IsText}
use unix_like_os.User.{fill, first_bytes}
use unix_like_os.User.Buffers.{first_bytes-agree, first_bytes-add}
use unix_like_os.User.Shell.{close_line}

-- A line of the script: text of fewer than 128 characters, with no end of line.
abbrev pub IsLine : Bytes → Type 0
IsLine l = IsText l × (length l < 128)

-- the buffer of a line: the text, its NUL, and what was there before
abbrev pub IsCommand : Bytes → Bytes → Type 0
IsCommand l line = (rest : Bytes) × (line ≡ l ++ (0 ∷ rest))

-- the buffer with a line that has been read and closed
unfoldable pub closed : Bytes → (ℕ → ℕ) → ℕ → ℕ
closed l buf = close_line (length l + 1) (fill 0 (l ++ (10 ∷ [])) buf)

fill_in :
    (bytes : Bytes) (buf : ℕ → ℕ) (k : ℕ) → k < length bytes → fill 0 bytes buf k ≡ get_or bytes k 0
fill_in bytes buf k h = ground (arith, h)

close_line-end : (f : ℕ → ℕ) (m : ℕ) → m < 128 → f m ≡ 10 → close_line (m + 1) f ≡ update f m 0
unfolding close_line
close_line-end f m small h =
    let n : m + 1 - 1 ≡ m = omega arith in
    let some_char : slt 0 (m + 1) ≡ true = ground arith in rw (some_char, n, h) refl

first_bytes-suc : (n : ℕ) (f : ℕ → ℕ) → first_bytes (suc n) f ≡ f 0 ∷ first_bytes n (λ k. f (k + 1))
unfolding first_bytes
first_bytes-suc n f = refl

module _ (l : Bytes) (buf : ℕ → ℕ) (ok : IsLine l) where
  read_in :
      (k : ℕ)
      → k < length l + 1
      → fill 0 (l ++ (10 ∷ [])) buf k ≡ (if k == length l then 10 else get_or l k 0)
  read_in k lt =
      fill_in (l ++ (10 ∷ [])) buf k (omega (arith, lt, length-append l (10 ∷ [])))
      ∙ get_or-snoc l 10 0 k

  closed_end : closed l buf ≡ update (fill 0 (l ++ (10 ∷ [])) buf) (length l) 0
  unfolding closed
  closed_end = close_line-end (fill 0 (l ++ (10 ∷ [])) buf) (length l) ok.1 (
      read_in (length l) (omega arith)
      ∙ ap (λ b. if b then 10 else get_or l (length l) 0) (==_refl (length l)))

  closed-text : (k : ℕ) → k < length l → closed l buf k ≡ get_or l k 0
  closed-text k lt =
      ap (λ (f : ℕ → ℕ). f k) closed_end
      ∙ update-ne (fill 0 (l ++ (10 ∷ [])) buf) (length l) k 0 (λ e. omega (arith, e, lt))
      ∙ read_in k (omega (arith, lt))
      ∙ ap (λ b. if b then 10 else get_or l k 0) (==_ne k (length l) (λ e. omega (arith, e, lt)))

  closed-nul : closed l buf (length l) ≡ 0
  closed-nul =
      ap (λ (f : ℕ → ℕ). f (length l)) closed_end
      ∙ update_self (fill 0 (l ++ (10 ∷ [])) buf) (length l) 0

  -- It holds the line, a NUL, and what was there before.
  pub closed-IsCommand : IsCommand l (first_bytes 1024 (closed l buf))
  closed-IsCommand =
      let f = closed l buf in
      let behind = λ (k : ℕ). f (length l + k) in
      let rest = first_bytes (1023 - length l) (λ k. behind (k + 1)) in
      let size : 1024 ≡ length l + suc (1023 - length l) = omega (arith, ok.1) in
      let at_end : length l + 0 ≡ length l = omega arith in
      (
        rest,
        ap (λ n. first_bytes n f) size
            ∙ first_bytes-add (length l) (suc (1023 - length l)) f
            ∙ ap₂ ◌++◌ (first_bytes-agree l f closed-text) (
                first_bytes-suc (1023 - length l) behind
                ∙ ap (λ c. c ∷ rest) (ap f at_end ∙ closed-nul)),
      )

-- The first character of the line is 0 exactly for the empty line.
pub closed-empty : (buf : ℕ → ℕ) → IsLine [] → closed [] buf 0 ≡ 0
closed-empty buf ok = closed-nul [] buf ok

pub closed-first : (x : ℕ) (l : Bytes) (buf : ℕ → ℕ) → IsLine (x ∷ l) → closed (x ∷ l) buf 0 ≡ x
closed-first x l buf ok = closed-text (x ∷ l) buf ok 0 (omega arith)
