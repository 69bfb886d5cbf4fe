-- ===== src/Fs/ReadData.antt =====
-- `read_data` of student-distrib/filesystem.c from the start of a file.
use native.Mathlib.Decide.{dec_lt}
use unix_like_os.Base.{
  ℕ, zero, suc, ◌+◌, ◌-◌, ◌*◌, ◌/◌, ◌%◌, ◌^◌, ◌<◌, ◌≤◌, ◌≡◌, ap₂, refl, subst, true, false, arith,
  ◌==◌, ltb, if◌then◌else◌, add32, sub32, minus_one, slt, ltb-true,
}
use unix_like_os.Fs.{
  Image, Progress, block_size, data_block, file_length, file_byte, copy_to, count_blocks,
  copy_blocks, copy_data, read_data,
}

-- The count of block starts below `a`, shifted by the `a-1` of the code.
count_blocks_lem :
    (n a stop num : ℕ)
    → a + n ≡ stop
    → stop < 2 ^ 31
    → num + n < 2 ^ 31
    → count_blocks n a stop num + (a + 4094) / 4096 ≡ num + (stop + 4094) / 4096
unfolding count_blocks
count_blocks_lem zero a stop num e h k = omega arith
count_blocks_lem (suc n) a stop num e h k =
    let num' = if sub32 a 1 % block_size == 0 then add32 num 1 else num in
    ground (arith, count_blocks_lem n (a + 1) stop num' (omega arith) h (ground arith))

-- What the copies have done when the first `i` blocks are in the buffer.
record Copied (img : Image) (inode : ℕ) (old : ℕ → ℕ) (i : ℕ) (p : Progress) : Type 0 where
  curr : p.buf_curr ≡ 4096 * i
  read : p.bytes_read ≡ 4096 * i
  filled : (k : ℕ) → k < 4096 * i → p.buf k ≡ file_byte img inode k
  kept : (k : ℕ) → 4096 * i ≤ k → p.buf k ≡ old k

module _ (img : Image) (inode : ℕ) where
  -- A copy of the file's next bytes, up to the end of a block, extends what is filled.
  copy_to-filled :
      (buf : ℕ → ℕ) (i n k : ℕ)
      → n ≤ 4096
      → ((j : ℕ) → j < 4096 * i → buf j ≡ file_byte img inode j)
      → k < 4096 * i + n
      → copy_to buf (4096 * i) (λ j. img.data_byte (block_size * data_block img inode i + j)) n k
        ≡ file_byte img inode k
  copy_to-filled buf i n k hn h hk = elim (dec_lt k (4096 * i)) [
    | yes p ↦ ground (arith, h k p)
    | no p ↦
        let e : k / 4096 ≡ i = omega arith in
        let d : k % 4096 ≡ k - 4096 * i = omega arith in
        ground (arith, ap₂ (λ a b. img.data_byte (block_size * data_block img inode a + b)) e d)
  ]

  step : ℕ → Progress → Progress
  step i p = record {
    buf =
        copy_to p.buf p.buf_curr (λ k. img.data_byte (block_size * data_block img inode i + k))
          block_size;
    buf_curr = p.buf_curr + block_size;
    bytes_read = p.bytes_read + block_size;
  }

  step-Copied :
      (old : ℕ → ℕ) (i : ℕ) (p : Progress)
      → Copied img inode old i p
      → Copied img inode old (i + 1) (step i p)
  unfolding step
  step-Copied old i p c = record {
    curr = omega (arith, c.curr);
    read = omega (arith, c.read);
    filled =
        λ k hk. rw (c.curr) (copy_to-filled p.buf i 4096 k (omega arith) c.filled (omega arith));
    kept = λ k hk. rw (c.curr) (ground (arith, c.kept k));
  }

  copy_blocks-step :
      (n i last : ℕ) (p : Progress)
      → last < 2 ^ 31
      → i < last
      → copy_blocks img inode (suc n) i last p ≡ copy_blocks img inode n (i + 1) last (step i p)
  unfolding copy_blocks step
  copy_blocks-step n i last p h a =
      let e : add32 i 1 ≡ i + 1 = omega arith in
      let t : slt i last ≡ true = ground arith in rw (t, e)

  copy_blocks_done :
      (n i last : ℕ) (p : Progress)
      → last < 2 ^ 31
      → i ≡ last
      → copy_blocks img inode n i last p ≡ p
  unfolding copy_blocks
  copy_blocks_done zero i last p h a = refl
  copy_blocks_done (suc n) i last p h a = let t : slt i last ≡ false = ground arith in rw t

  copy_blocks-Copied :
      (old : ℕ → ℕ) (n i last : ℕ) (p : Progress)
      → last < 2 ^ 31
      → i ≤ last
      → last ≤ i + n
      → Copied img inode old i p
      → Copied img inode old last (copy_blocks img inode n i last p)
  copy_blocks-Copied old zero i last p h a b c =
      let e : i ≡ last = omega arith in
      rw (copy_blocks_done 0 i last p h e) (subst (λ j. Copied img inode old j p) e c)
  copy_blocks-Copied old (suc n) i last p h a b c = elim (dec_lt i last) [
    | yes lt ↦ rw (copy_blocks-step n i last p h lt) (
        copy_blocks-Copied old n (i + 1) last (step i p) h (omega arith) (omega arith)
          (step-Copied old i p c))
    | no ge ↦
        let e : i ≡ last = omega arith in
        rw (copy_blocks_done (suc n) i last p h e) (subst (λ j. Copied img inode old j p) e c)
  ]

  -- The start of a file: `q` whole blocks and `r` bytes of the next.
  module _ (buf : ℕ → ℕ) (q : ℕ) (small : q < 1023) where
    whole :
        (last : ℕ)
        → last ≡ q
        → Copied img inode buf q (
            copy_blocks img inode
              (q + 1)
              0
              last
              (record { buf = buf; buf_curr = 0; bytes_read = 0 }))
    whole last e = rw e (
        copy_blocks-Copied buf (q + 1) 0 q _ (omega arith) (omega arith) (omega arith) (record {
          curr = refl;
          read = refl;
          filled = λ k h. absurd (omega arith);
          kept = λ k h. refl;
        }))

    -- The copy of the last block, of which `m` bytes are taken.
    finish :
        (p : Progress) (i m : ℕ)
        → Copied img inode buf q p
        → i ≡ q
        → m < 4096
        → let out =
            copy_to p.buf p.buf_curr
              (λ k. img.data_byte (block_size * data_block img inode i + k))
              m in
          (p.bytes_read + block_size ≡ 4096 * (q + 1))
          × ((k : ℕ) → k < 4096 * q + m → out k ≡ file_byte img inode k)
          × ((k : ℕ) → 4096 * q + m ≤ k → out k ≡ buf k)
    finish p i m c e h =
        rw (e, c.curr)
          (
            omega (arith, c.read),
            λ k hk. copy_to-filled p.buf q m k (omega arith) c.filled hk,
            λ k hk. ground (arith, c.kept k),
          )

    copy_data-start :
        (stop m : ℕ)
        → stop % 4096 ≡ m
        → m < 4096
        → let out = copy_data img inode 0 buf stop 0 (q + 1) in
          (out.0 ≡ 4096 * (q + 1))
          × ((k : ℕ) → k < 4096 * q + m → out.1 k ≡ file_byte img inode k)
          × ((k : ℕ) → 4096 * q + m ≤ k → out.1 k ≡ buf k)
    unfolding copy_data
    copy_data-start stop m e h = rw e (finish _ _ m (whole _ (omega arith)) (omega arith) h)

module _ (img : Image) (inode len : ℕ) (buf : ℕ → ℕ) where
  -- A read from the start that the file's length allows is the copies, with the blocks counted.
  read_data_copies :
      len < 2 ^ 30
      → len ≤ file_length img inode
      → read_data img inode 0 buf len ≡ copy_data img inode 0 buf len 0 ((len + 4094) / 4096)
  unfolding read_data
  read_data_copies h fits =
      let e : add32 0 len ≡ len = omega arith in
      let t : ltb (file_length img inode) len ≡ false = ground arith in
      let c : count_blocks len 0 len 0 ≡ (len + 4094) / 4096 =
        omega (arith, count_blocks_lem len 0 len 0 (omega arith) (omega arith) (omega arith)) in
      rw (e, t, c)

  -- A read of `len` bytes, less than 1023 blocks of them, from the start of a file that has as many,
  -- where the last block holds at least two of them, puts exactly the file's first `len` bytes into
  -- the buffer and changes nothing behind them. The result is the size of the blocks that were
  -- touched, not `len`.
  pub read_data-start :
      2 ≤ len % 4096
      → len < 4096 * 1023
      → len ≤ file_length img inode
      → let out = read_data img inode 0 buf len in
        (out.0 ≡ 4096 * (len / 4096 + 1))
        × ((k : ℕ) → k < len → out.1 k ≡ file_byte img inode k)
        × ((k : ℕ) → len ≤ k → out.1 k ≡ buf k)
  read_data-start lo small fits =
      let e : (len + 4094) / 4096 ≡ len / 4096 + 1 = omega arith in
      let d : 4096 * (len / 4096) + len % 4096 ≡ len = omega arith in
      let r =
        copy_data-start img inode buf (len / 4096) (omega arith) len (len % 4096) refl
          (omega arith) in
      rw (read_data_copies (omega arith) fits, e)
        (r.0, λ k h. r.1 k (omega arith), λ k h. r.2 k (omega arith))

  -- A read from the start of a file that has as many bytes, of one block or more and less than 1023,
  -- where the last block would hold at most one byte (the length is a multiple of 4096, or one
  -- more): the last full block never reaches the buffer. From its place on, but for the first `len %
  -- 4096` bytes of it, the buffer keeps what it held.
  pub read_data_short :
      len % 4096 < 2
      → 4096 ≤ len
      → len < 4096 * 1023
      → len ≤ file_length img inode
      → let out = read_data img inode 0 buf len in
        (out.0 ≡ 4096 * (len / 4096))
        × ((k : ℕ) → k < 4096 * (len / 4096 - 1) + len % 4096 → out.1 k ≡ file_byte img inode k)
        × ((k : ℕ) → 4096 * (len / 4096 - 1) + len % 4096 ≤ k → out.1 k ≡ buf k)
  read_data_short lo one small fits =
      let e : (len + 4094) / 4096 ≡ len / 4096 - 1 + 1 = omega arith in
      let r =
        copy_data-start img inode buf (len / 4096 - 1) (omega arith) len (len % 4096) refl
          (omega arith) in
      rw (read_data_copies (omega arith) fits, e) (omega (arith, r.0), r.1, r.2)

  -- A read that ends behind the file's end changes nothing and returns -1.
  pub read_data_beyond :
      (offset : ℕ)
      → file_length img inode < add32 offset len
      → read_data img inode offset buf len ≡ (minus_one, buf)
  unfolding read_data
  read_data_beyond offset h = rw (ltb-true _ _ h)
