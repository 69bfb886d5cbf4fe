-- ===== src/Files.antt =====
-- The file operations of student-distrib/filesystem.c that work on the descriptors of a process. The
-- caller passes the block of the process that runs, and gets it back.
pub mod Read
pub mod Dir
pub mod Open
use unix_like_os.Base.{
  ℕ, zero, suc, ◌+◌, ◌-◌, ◌*◌, ◌/◌, ◌%◌, ◌^◌, ◌<◌, ◌≤◌, min, ◌≡◌, ◌≢◌, ◌⊎◌, ◌↔◌, inl, inr, ap, ap₂,
  refl, sym, ◌∙◌, fun_ext, subst, Bool, true, false, Option, none, some, List, [], ◌∷◌, ◌++◌, map,
  reverse, append-nil, append_assoc, arith, Bytes, ◌==◌, ltb, leb, if◌then◌else◌, ◌>>=◌, add32,
  sub32, minus_one, slt, sext8, ◌||◌, ◌&&◌, not, Bool-cases, All, length, get_elem?, get_or, set,
  replicate, update, update_self, update-ne, length-append, length-set, get_elem?-eq-get_or,
  get_or-set_self, get_or-set_ne, get_or_ext, for_range, for_range_inv, for_range-update,
  bit_or-zero, bit_or_disjoint, all_below, all_below_sound, ==_iff, ==_refl, ==_ne, ltb-true,
  ltb-false,
}
use unix_like_os.Klib.Text.{strlen}
use unix_like_os.Fs.{
  Image, Dentry, block_size, file_length, data_block, copy_to, read_dentry_by_name,
}
use unix_like_os.Proc.{Pcb, Descriptor, Ops, no_ops, file_ops, rtc_ops, find_free_fd}

abbrev pub file_type_rtc : ℕ
file_type_rtc = 0

abbrev pub file_type_dir : ℕ
file_type_dir = 1

abbrev pub file_type_reg : ℕ
file_type_reg = 2

abbrev pub file_in_use : ℕ
file_in_use = 1

abbrev pub file_not_in_use : ℕ
file_not_in_use = 0

-- `&inodes_array[inode]`, and the inode that `read_data_one` computes from such a pointer
unfoldable pub inode_address : Image → ℕ → ℕ
inode_address img inode = add32 img.fs_start (block_size * (inode + 1) % 2 ^ 32)

unfoldable pub inode_at : Image → ℕ → ℕ
inode_at img ptr = sub32 (sub32 ptr img.fs_start / block_size) 1

-- the local variables of the loop of `read_data_one`, `file_position` and the caller's buffer
pub record Cursor : Type 0 where
  pub offset : ℕ
  pub cur_offset : ℕ
  pub datablock_number : ℕ
  pub bytes_read : ℕ
  pub file_position : ℕ
  pub buf : ℕ → ℕ

-- one round: a byte is copied
unfoldable pub read_byte : Image → Cursor → Cursor
read_byte img c =
    let next = add32 c.cur_offset 1 in
    let at_end = next % block_size == 0 in
    record {
      offset = add32 c.offset 1;
      cur_offset = if at_end then 0 else next;
      datablock_number = if at_end then add32 c.datablock_number 1 else c.datablock_number;
      bytes_read = add32 c.bytes_read 1;
      file_position = add32 c.file_position 1;
      buf =
          update c.buf c.bytes_read
            (img.data_byte (block_size * c.datablock_number + c.cur_offset));
    }

-- the loop of `read_data_one`, with the rounds left
unfoldable pub read_bytes : Image → ℕ → ℕ → Cursor → Cursor
read_bytes img f_size zero c = c
read_bytes img f_size (suc n) c =
    let rest = read_bytes img f_size n (read_byte img c) in if ltb c.offset f_size then rest else c

-- `read_data_one`: the result, the process with its new file position, and the caller's buffer
unfoldable pub read_data_one : Image → ℕ → ℕ → (ℕ → ℕ) → Pcb → ℕ × Pcb × (ℕ → ℕ)
unfolding read_bytes inode_at
read_data_one img fd n_bytes buf pcb =
    let d = pcb.file_array fd in
    let inode = inode_at img d.inode_ptr in
    let c = read_bytes img (file_length img inode) n_bytes (record {
      offset = d.file_position;
      cur_offset = d.file_position % block_size;
      datablock_number = data_block img inode (d.file_position / block_size);
      bytes_read = 0;
      file_position = d.file_position;
      buf = buf;
    }) in
    (
      c.bytes_read,
      record pcb {
        file_array = update pcb.file_array fd (record d { file_position = c.file_position });
      },
      c.buf,
    )

-- the four bytes of a word in memory, the lowest first
abbrev pub word_bytes : ℕ → Bytes
word_bytes w = (w % 256) ∷ (w / 2 ^ 8 % 256) ∷ (w / 2 ^ 16 % 256) ∷ (w / 2 ^ 24 % 256) ∷ []

-- a directory entry as it lies in memory: a name of 32 bytes runs on into the type behind it
abbrev pub entry_bytes : Dentry → Bytes
entry_bytes e = e.fname ++ (word_bytes e.ftype ++ (word_bytes e.inode ++ e.reserved))

-- `read_dir`: the result, the process and the caller's buffer
unfoldable pub read_dir : Image → ℕ → (ℕ → ℕ) → Pcb → Option (ℕ × Pcb × (ℕ → ℕ))
read_dir img fd buf pcb =
    let d = pcb.file_array fd in
    let e = entry_bytes (img.dir_entries d.file_position) in
    if ltb d.file_position img.num_dir_entries
    then (strlen e >>= λ len. some (
      len,
      record pcb {
        file_array =
            update pcb.file_array fd (record d { file_position = add32 d.file_position 1 });
      },
      copy_to buf 0 (λ k. get_or e k 0) len,
    ))
    else some (0, pcb, buf)

-- `read_file`
unfoldable pub read_file : Image → ℕ → ℕ → (ℕ → ℕ) → Pcb → Option (ℕ × Pcb × (ℕ → ℕ))
unfolding read_dir read_data_one
read_file img fd nbytes buf pcb =
    if (pcb.file_array fd).inode_ptr == 0
    then read_dir img fd buf pcb
    else some (read_data_one img fd nbytes buf pcb)

-- `write_file`
unfoldable pub write_file : ℕ
write_file = minus_one

unfoldable pub write_dir : ℕ
write_dir = minus_one

unfoldable pub close_dir : ℕ
close_dir = 0

-- what `open_file` makes of a free descriptor for an entry
unfoldable pub opened : Image → Dentry → Descriptor → Descriptor
unfolding inode_address
opened img e d =
    if e.ftype == file_type_rtc
    then record { ops = rtc_ops; inode_ptr = 0; file_position = 0; flags = file_in_use }
    else if e.ftype == file_type_dir
    then record { ops = file_ops; inode_ptr = 0; file_position = 0; flags = file_in_use }
    else if e.ftype == file_type_reg
    then record {
      ops = file_ops;
      inode_ptr = inode_address img e.inode;
      file_position = 0;
      flags = file_in_use;
    }
    else d

-- `open_file`: the result, the global `dentry` and the process
unfoldable pub open_file : Image → Bytes → Dentry → Pcb → Option (ℕ × Dentry × Pcb)
unfolding opened
open_file img fname dentry pcb = read_dentry_by_name img fname dentry >>= λ (check_file, e).
    let fd = find_free_fd pcb in
    some (
      if check_file == minus_one
      then (minus_one, e, pcb)
      else if fd == minus_one
      then (minus_one, e, pcb)
      else (
        fd,
        e,
        record pcb { file_array = update pcb.file_array fd (opened img e (pcb.file_array fd)) },
      ))

-- `close_file`
unfoldable pub close_file : ℕ → Pcb → ℕ × Pcb
close_file fd pcb = (
  0,
  record pcb {
    file_array =
        update pcb.file_array fd
          (record { ops = no_ops; inode_ptr = 0; file_position = 0; flags = file_not_in_use });
  },
)
