-- ===== src/Fs/Layout.antt =====
-- `read_data` of student-distrib/filesystem.c on the memory that `fs_init` is given.
use unix_like_os.Base.{ℕ, ◌+◌, ◌*◌, ◌/◌, ◌%◌, ◌<◌, ◌≤◌, ◌≡◌, ap, ◌∙◌, arith, add32}
use unix_like_os.Fs.{mem_word, fs_init, data_block, read_data}
use unix_like_os.Fs.ReadData.{read_data-start}

module _ (mem : ℕ → ℕ) (start inode len : ℕ) (buf : ℕ → ℕ) where
  -- where the block of byte `k` of the file begins: the boot block and the inodes take 4096 bytes each, and the block's
  -- number stands behind the length in the inode
  abbrev pub block_address : ℕ → ℕ
  block_address k =
      let inodes = mem_word mem (start + 4) in
      let number = mem_word mem (start + 4096 * (inode + 1) + 4 + 4 * (k / 4096)) in
      start + 4096 * (1 + inodes + number)

  block_lem :
      (k : ℕ)
      → k < 4096 * 1023
      → data_block (fs_init mem start) inode (k / 4096)
        ≡ mem_word mem (start + 4096 * (inode + 1) + 4 + 4 * (k / 4096))
  unfolding fs_init
  block_lem k h =
      let at : start + 4096 + 4 * (1024 * inode + add32 (k / 4096) 1)
          ≡ start + 4096 * (inode + 1) + 4 + 4 * (k / 4096) =
        omega (arith, h) in
      ap (mem_word mem) at

  -- A file system in memory from `start` on, as `fs_init` finds it, and a read of `len` bytes, less than 1023 blocks of
  -- them, from the start of a file whose inode says that it has as many, where the last block holds at least two of
  -- them: what the buffer holds then is, byte by byte, what stands in memory in the block that the inode names for it,
  -- counted from behind the boot block and all the inodes.
  pub read_data-fs_init :
      2 ≤ len % 4096
      → len < 4096 * 1023
      → len ≤ mem_word mem (start + 4096 * (inode + 1))
      → (k : ℕ) → k < len
      → (read_data (fs_init mem start) inode 0 buf len).1 k ≡ mem (block_address k + k % 4096)
  unfolding fs_init
  read_data-fs_init lo small fits k h =
      let here : start + 4096 + 4 * (1024 * inode) ≡ start + 4096 * (inode + 1) = omega arith in
      let length_at = ap (mem_word mem) here in
      let r =
        read_data-start (fs_init mem start) inode len buf lo small
          (omega (arith, fits, length_at)) in
      let number = block_lem k (omega (arith, h, small)) in
      r.1 k h
      ∙ ap (λ b. mem (start + 4096 + 4096 * mem_word mem (start + 4) + (4096 * b + k % 4096)))
          number
      ∙ ap mem (omega arith)
