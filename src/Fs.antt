-- ===== src/Fs.antt =====
-- The read-only file system of student-distrib/filesystem.c: the image in memory, and the functions
-- that read it with no process in sight. Arrays of the image are functions on their indices, total as
-- memory is: what stands past an array is what the next bytes of memory hold.
pub mod Layout
pub mod ReadData
pub mod Lookup
use unix_like_os.Base.{
  ℕ, zero, suc, ◌+◌, ◌-◌, ◌*◌, ◌/◌, ◌%◌, ◌^◌, ◌<◌, ◌≤◌, min, ◌≡◌, ◌≢◌, ◌⊎◌, ◌↔◌, inl, inr, ap, ap₂,
  refl, sym, ◌∙◌, fun_ext, subst, Bool, true, false, Option, none, some, List, [], ◌∷◌, ◌++◌, map,
  reverse, append-nil, append_assoc, arith, Bytes, ◌==◌, ltb, leb, if◌then◌else◌, ◌>>=◌, add32,
  sub32, minus_one, slt, sext8, ◌||◌, ◌&&◌, not, Bool-cases, All, length, get_elem?, get_or, set,
  replicate, update, update_self, update-ne, length-append, length-set, get_elem?-eq-get_or,
  get_or-set_self, get_or-set_ne, get_or_ext, for_range, for_range_inv, ==_iff, ==_refl, ==_ne,
  ltb-true, ltb-false,
}
use unix_like_os.Klib.Text.{strncmp}

abbrev pub block_size : ℕ
block_size = 4096

abbrev pub max_fname_length : ℕ
max_fname_length = 32

-- `dentry_t`
pub record Dentry : Type 0 where
  pub fname : Bytes
  pub ftype : ℕ
  pub inode : ℕ
  pub reserved : Bytes

-- What `fs_init` finds at `fs_start`: the fields of the boot block, the words of the inodes (1024 for
-- each, the length first), and the bytes of the data blocks (4096 for each).
pub record Image : Type 0 where
  pub fs_start : ℕ
  pub num_dir_entries : ℕ
  pub num_inodes : ℕ
  pub dir_entries : ℕ → Dentry
  pub inode_word : ℕ → ℕ
  pub data_byte : ℕ → ℕ

-- `inodes_array[inode].length`
abbrev pub file_length : Image → ℕ → ℕ
file_length img inode = img.inode_word (1024 * inode)

-- `inodes_array[inode].data_blocks[j]`; at `j` = -1 this is the word before, the length
abbrev pub data_block : Image → ℕ → ℕ → ℕ
data_block img inode j = img.inode_word (1024 * inode + add32 j 1)

-- `read_dentry_by_index`: the status and what `*dentry` holds after the call
unfoldable pub read_dentry_by_index : Image → ℕ → ℕ × Dentry
read_dentry_by_index img index = (0, img.dir_entries index)

-- The loop of `read_dentry_by_name`, with the rounds left, `found` and `*dentry`.
unfoldable pub scan_entries : Image → Bytes → ℕ → ℕ → Bool → Dentry → Option (Bool × Dentry)
scan_entries img fname zero i found dentry = some (found, dentry)
scan_entries img fname (suc n) i found dentry =
    strncmp fname (img.dir_entries i).fname max_fname_length >>= λ c.
    scan_entries img fname n (i + 1) (if c == 0 then true else found)
      (if c == 0 then img.dir_entries i else dentry)

-- `read_dentry_by_name`: the status and what `*dentry` holds after the call
unfoldable pub read_dentry_by_name : Image → Bytes → Dentry → Option (ℕ × Dentry)
read_dentry_by_name img fname dentry =
    scan_entries img fname img.num_dir_entries 0 false dentry >>= λ (found, d).
    some (if found then 0 else minus_one, d)

-- `memcpy` to `buf + at` from the bytes `src`, for regions that do not overlap
abbrev pub copy_to : (ℕ → ℕ) → ℕ → (ℕ → ℕ) → ℕ → ℕ → ℕ
copy_to buf at src n k = if leb at k && ltb k (at + n) then src (k - at) else buf k

-- The first loop of `read_data`: `num_data_blocks` after the rounds from `a` on.
unfoldable pub count_blocks : ℕ → ℕ → ℕ → ℕ → ℕ
count_blocks zero a stop num = num
count_blocks (suc n) a stop num =
    let rest =
      count_blocks n (add32 a 1) stop (if sub32 a 1 % block_size == 0 then add32 num 1 else num) in
    if ltb a stop then rest else num

-- the local variables of `read_data` that its copies change
pub record Progress : Type 0 where
  pub buf : ℕ → ℕ
  pub buf_curr : ℕ
  pub bytes_read : ℕ

-- The second loop of `read_data`, over the whole blocks from `i` up to `last`.
unfoldable pub copy_blocks : Image → ℕ → ℕ → ℕ → ℕ → Progress → Progress
copy_blocks img inode zero i last p = p
copy_blocks img inode (suc n) i last p =
    let rest = copy_blocks img inode n (add32 i 1) last (record {
      buf =
          copy_to p.buf p.buf_curr (λ k. img.data_byte (block_size * data_block img inode i + k))
            block_size;
      buf_curr = p.buf_curr + block_size;
      bytes_read = p.bytes_read + block_size;
    }) in
    if slt i last then rest else p

-- The part of `read_data` behind the count: the first partial block, the whole blocks, the last.
unfoldable pub copy_data : Image → ℕ → ℕ → (ℕ → ℕ) → ℕ → ℕ → ℕ → ℕ × (ℕ → ℕ)
unfolding copy_blocks
copy_data img inode offset buf stop start num =
    let left = block_size - offset % block_size in
    let aligned = left == block_size in
    let first = data_block img inode start in
    let p0 : Progress = record { buf = buf; buf_curr = 0; bytes_read = 0 } in
    let p1 : Progress = record {
      buf = copy_to buf 0 (λ k. img.data_byte (block_size * first + offset + k)) left;
      buf_curr = left;
      bytes_read = left;
    } in
    let start' = if aligned then start else add32 start 1 in
    let num' = if aligned then num else sub32 num 1 in
    let p = copy_blocks img inode num' start' (sub32 num' 1) (if aligned then p0 else p1) in
    let block = data_block img inode (sub32 (add32 start' num') 1) in
    (
      p.bytes_read + block_size,
      copy_to p.buf p.buf_curr (λ k. img.data_byte (block_size * block + k)) (stop % block_size),
    )

-- `read_data`: the result, and the buffer after the call
unfoldable pub read_data : Image → ℕ → ℕ → (ℕ → ℕ) → ℕ → ℕ × (ℕ → ℕ)
unfolding count_blocks copy_data
read_data img inode offset buf len =
    let stop = add32 offset len in
    let start =
      if ltb 0 offset && (offset % block_size == 0)
      then offset / block_size - 1
      else offset / block_size in
    if ltb (file_length img inode) stop
    then (minus_one, buf)
    else copy_data img inode offset buf stop start (count_blocks len offset stop 0)

-- The bytes of a file, by the block list of its inode.
abbrev pub file_byte : Image → ℕ → ℕ → ℕ
file_byte img inode i =
    img.data_byte (block_size * data_block img inode (i / block_size) + i % block_size)

-- `n` bytes of memory from `at` on, and a word, the lowest byte first
unfoldable pub slice : (ℕ → ℕ) → ℕ → ℕ → Bytes
slice mem at zero = []
slice mem at (suc n) = mem at ∷ slice mem (at + 1) n

abbrev pub mem_word : (ℕ → ℕ) → ℕ → ℕ
mem_word mem at = mem at + 2 ^ 8 * mem (at + 1) + 2 ^ 16 * mem (at + 2) + 2 ^ 24 * mem (at + 3)

-- the entry of 64 bytes at an address
unfoldable pub dentry_at : (ℕ → ℕ) → ℕ → Dentry
unfolding slice
dentry_at mem at = record {
  fname = slice mem at 32;
  ftype = mem_word mem (at + 32);
  inode = mem_word mem (at + 36);
  reserved = slice mem (at + 40) 24;
}

-- `fs_init`: the boot block at `fs_start`, the inodes behind it, and the data blocks behind these
unfoldable pub fs_init : (ℕ → ℕ) → ℕ → Image
unfolding dentry_at
fs_init mem fs_start = record {
  fs_start = fs_start;
  num_dir_entries = mem_word mem fs_start;
  num_inodes = mem_word mem (fs_start + 4);
  dir_entries = λ i. dentry_at mem (fs_start + 64 + 64 * i);
  inode_word = λ k. mem_word mem (fs_start + block_size + 4 * k);
  data_byte = λ k. mem (fs_start + block_size + block_size * mem_word mem (fs_start + 4) + k);
}
