-- ===== src/Files/Read.antt =====
-- `read_data_one` of student-distrib/filesystem.c against the bytes of the file.
use unix_like_os.Base.{
  ℕ, zero, suc, ◌+◌, ◌-◌, ◌*◌, ◌/◌, ◌%◌, ◌^◌, ◌<◌, ◌≤◌, min, ◌≡◌, ◌≢◌, ap, ap₂, refl, sym, ◌∙◌,
  subst, true, false, arith, ltb, update_self, update-ne, ltb-true, ltb-false,
}
use native.Mathlib.Decide.{dec_lt}
use unix_like_os.Fs.{Image, block_size, file_length, data_block, file_byte}
use unix_like_os.Proc.{Pcb}
use unix_like_os.Files.{Cursor, inode_address, inode_at, read_byte, read_bytes, read_data_one}

-- `read_data_one` finds the inode that `open_file` put into the descriptor.
pub inode_at-inode_address :
    (img : Image) (inode : ℕ)
    → inode < 2 ^ 18
    → img.fs_start < 2 ^ 32
    → inode_at img (inode_address img inode) ≡ inode
unfolding inode_at inode_address
inode_at-inode_address img inode h k = omega arith

-- The blocks of a file lie one behind the other.
abbrev pub IsContiguous : Image → ℕ → Type 0
IsContiguous img inode =
    (j : ℕ) → j * 4096 < file_length img inode → data_block img inode j ≡ data_block img inode 0 + j

-- The cursor after `i` bytes from position `pos` on.
record ReadUpTo (img : Image) (inode pos : ℕ) (old : ℕ → ℕ) (i : ℕ) (c : Cursor) : Type 0 where
  offset : c.offset ≡ pos + i
  within : c.cur_offset ≡ (pos + i) % 4096
  block : c.datablock_number ≡ data_block img inode 0 + (pos + i) / 4096
  count : c.bytes_read ≡ i
  position : c.file_position ≡ pos + i
  new : (k : ℕ) → k < i → c.buf k ≡ file_byte img inode (pos + k)
  kept : (k : ℕ) → i ≤ k → c.buf k ≡ old k

module _ (img : Image) (inode pos : ℕ) (old : ℕ → ℕ) (contiguous : IsContiguous img inode)
    (size : file_length img inode ≤ 4096 * 1023) (blocks : data_block img inode 0 < 2 ^ 31) where
  -- the byte that a round copies
  next_byte :
      (i : ℕ) (c : Cursor)
      → pos + i < file_length img inode
      → ReadUpTo img inode pos old i c
      → img.data_byte (block_size * c.datablock_number + c.cur_offset)
        ≡ file_byte img inode (pos + c.bytes_read)
  next_byte i c lt r =
      let b = contiguous ((pos + i) / 4096) (omega arith) in
      rw (r.count) (ap₂ (λ a o. img.data_byte (4096 * a + o)) (r.block ∙ sym b) r.within)

  read_byte-ReadUpTo :
      (i : ℕ) (c : Cursor)
      → pos + i < file_length img inode
      → ReadUpTo img inode pos old i c
      → ReadUpTo img inode pos old (i + 1) (read_byte img c)
  unfolding read_byte
  read_byte-ReadUpTo i c lt r = record {
    offset = omega (arith, r.offset);
    within = ground (arith, r.within);
    block = ground (arith, r.within, r.block);
    count = omega (arith, r.count);
    position = omega (arith, r.position);
    new = λ k hk. elim (dec_lt k i) [
      | yes p ↦ update-ne c.buf c.bytes_read k _ (λ e. omega (arith, e, r.count)) ∙ r.new k p
      | no p ↦
          let e : k ≡ c.bytes_read = omega (arith, r.count) in
          rw (e, update_self c.buf c.bytes_read) (next_byte i c lt r)
    ];
    kept = λ k le.
        update-ne c.buf c.bytes_read k _ (λ e. omega (arith, e, r.count)) ∙ r.kept k (omega arith);
  }

  read_bytes-ReadUpTo :
      (n i : ℕ) (c : Cursor)
      → pos ≤ file_length img inode
      → pos + i ≤ file_length img inode
      → ReadUpTo img inode pos old i c
      → ReadUpTo img inode pos old
          (min (i + n) (file_length img inode - pos))
          (read_bytes img (file_length img inode) n c)
  unfolding read_bytes
  read_bytes-ReadUpTo zero i c h k r = subst (λ m. ReadUpTo img inode pos old m c) (omega arith) r
  read_bytes-ReadUpTo (suc n) i c h k r = elim (dec_lt (pos + i) (file_length img inode)) [
    | yes p ↦
        let t : ltb c.offset (file_length img inode) ≡ true =
          ltb-true _ _ (omega (arith, r.offset)) in
        rw t (
          subst
            (λ m.
              ReadUpTo img inode pos old m
                (read_bytes img (file_length img inode) n (read_byte img c)))
            (omega arith)
            (read_bytes-ReadUpTo n (i + 1) (read_byte img c) h (omega arith)
              (read_byte-ReadUpTo i c p r)))
    | no p ↦
        let t : ltb c.offset (file_length img inode) ≡ false =
          ltb-false _ _ (omega (arith, r.offset)) in
        rw t (subst (λ m. ReadUpTo img inode pos old m c) (omega arith) r)
  ]

-- At the end of the file, or behind it, the loop does not start.
read_bytes_past :
    (img : Image) (f_size n : ℕ) (c : Cursor) → f_size ≤ c.offset → read_bytes img f_size n c ≡ c
unfolding read_bytes
read_bytes_past img f_size zero c h = refl
read_bytes_past img f_size (suc n) c h = rw (ltb-false c.offset f_size h) refl

inside :
    (img : Image) (inode fd n : ℕ) (buf : ℕ → ℕ) (pcb : Pcb)
    → inode < 2 ^ 18
    → img.fs_start < 2 ^ 32
    → IsContiguous img inode
    → file_length img inode ≤ 4096 * 1023
    → data_block img inode 0 < 2 ^ 31
    → (pcb.file_array fd).inode_ptr ≡ inode_address img inode
    → (pcb.file_array fd).file_position < file_length img inode
    → let (r, pcb', out) = read_data_one img fd n buf pcb in
      let pos = (pcb.file_array fd).file_position in
      (r ≡ min n (file_length img inode - pos))
      × ((k : ℕ) → k < r → out k ≡ file_byte img inode (pos + k))
      × ((k : ℕ) → r ≤ k → out k ≡ buf k)
      × (pcb'.file_array fd ≡ record (pcb.file_array fd) { file_position = pos + r })
      × ((j : ℕ) → j ≢ fd → pcb'.file_array j ≡ pcb.file_array j)
unfolding read_data_one
inside img inode fd n buf pcb hi hs contiguous size blocks ptr lt =
    let pos = (pcb.file_array fd).file_position in
    let e : inode_at img (pcb.file_array fd).inode_ptr ≡ inode =
      ap (inode_at img) ptr ∙ inode_at-inode_address img inode hi hs in
    let start : Cursor = record {
      offset = pos;
      cur_offset = pos % block_size;
      datablock_number = data_block img inode (pos / block_size);
      bytes_read = 0;
      file_position = pos;
      buf = buf;
    } in
    let at_start : ReadUpTo img inode pos buf 0 start = record {
      offset = omega arith;
      within = omega arith;
      block =
          contiguous (pos / 4096) (omega arith)
          ∙ ap (λ k. data_block img inode 0 + k / 4096) (omega arith);
      count = refl;
      position = omega arith;
      new = λ k h. absurd (omega arith);
      kept = λ k h. refl;
    } in
    let r =
      read_bytes-ReadUpTo img inode pos buf contiguous size blocks n 0 start (omega arith)
        (omega arith) at_start in
    let c = read_bytes img (file_length img inode) n start in
    let d = pcb.file_array fd in
    rw e (
      omega (arith, r.count),
      λ k h. r.new k (omega (arith, r.count)),
      λ k h. r.kept k (omega (arith, r.count)),
      update_self pcb.file_array fd (record d { file_position = c.file_position })
          ∙ ap (λ p. record d { file_position = p }) (omega (arith, r.position, r.count)),
      λ j ne. update-ne pcb.file_array fd j (record d { file_position = c.file_position }) ne,
    )

past :
    (img : Image) (inode fd n : ℕ) (buf : ℕ → ℕ) (pcb : Pcb)
    → inode < 2 ^ 18
    → img.fs_start < 2 ^ 32
    → (pcb.file_array fd).inode_ptr ≡ inode_address img inode
    → file_length img inode ≤ (pcb.file_array fd).file_position
    → let (r, pcb', out) = read_data_one img fd n buf pcb in
      let pos = (pcb.file_array fd).file_position in
      (r ≡ min n (file_length img inode - pos))
      × ((k : ℕ) → k < r → out k ≡ file_byte img inode (pos + k))
      × ((k : ℕ) → r ≤ k → out k ≡ buf k)
      × (pcb'.file_array fd ≡ record (pcb.file_array fd) { file_position = pos + r })
      × ((j : ℕ) → j ≢ fd → pcb'.file_array j ≡ pcb.file_array j)
unfolding read_data_one
past img inode fd n buf pcb hi hs ptr le =
    let d = pcb.file_array fd in
    let e : inode_at img d.inode_ptr ≡ inode =
      ap (inode_at img) ptr ∙ inode_at-inode_address img inode hi hs in
    let stopped =
      read_bytes_past img (file_length img inode) n
        (record {
          offset = d.file_position;
          cur_offset = d.file_position % block_size;
          datablock_number = data_block img inode (d.file_position / block_size);
          bytes_read = 0;
          file_position = d.file_position;
          buf = buf;
        })
        le in
    rw (e, stopped)
      (
        omega arith,
        λ k h. absurd (omega arith),
        λ k h. refl,
        update_self pcb.file_array fd d ∙ ap (λ p. record d { file_position = p }) (omega arith),
        λ j ne. update-ne pcb.file_array fd j d ne,
      )

-- Reading `n` bytes through a descriptor of a regular file whose blocks lie one behind the other
-- returns the number of bytes that are left from its position on, `n` at most, which is none at or
-- behind the end, puts exactly the file's bytes from there on into the caller's buffer, leaves the
-- rest of the buffer alone, and moves the position behind what was read; the descriptor stays open on
-- the file, and no other descriptor changes.
pub read_data_one-contiguous :
    (img : Image) (inode fd n : ℕ) (buf : ℕ → ℕ) (pcb : Pcb)
    → inode < 2 ^ 18
    → img.fs_start < 2 ^ 32
    → IsContiguous img inode
    → file_length img inode ≤ 4096 * 1023
    → data_block img inode 0 < 2 ^ 31
    → (pcb.file_array fd).inode_ptr ≡ inode_address img inode
    → let (r, pcb', out) = read_data_one img fd n buf pcb in
      let pos = (pcb.file_array fd).file_position in
      (r ≡ min n (file_length img inode - pos))
      × ((k : ℕ) → k < r → out k ≡ file_byte img inode (pos + k))
      × ((k : ℕ) → r ≤ k → out k ≡ buf k)
      × (pcb'.file_array fd ≡ record (pcb.file_array fd) { file_position = pos + r })
      × ((j : ℕ) → j ≢ fd → pcb'.file_array j ≡ pcb.file_array j)
read_data_one-contiguous img inode fd n buf pcb hi hs contiguous size blocks ptr =
    elim (dec_lt (pcb.file_array fd).file_position (file_length img inode)) [
      | yes p ↦ inside img inode fd n buf pcb hi hs contiguous size blocks ptr p
      | no p ↦ past img inode fd n buf pcb hi hs ptr (omega arith)
    ]
