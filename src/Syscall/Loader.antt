-- ===== src/Syscall/Loader.antt =====
-- `check_executable` of student-distrib/syscall.c and `copy_file_image` of student-
-- distrib/filesystem.c, against the bytes of the file.
use unix_like_os.Base.{
  ℕ, ◌+◌, ◌*◌, ◌%◌, ◌<◌, ◌≤◌, ◌≡◌, ◌⊎◌, ap, refl, Bool, true, false, Option, none, some, arith,
  Bytes, ◌==◌, ltb, leb, if◌then◌else◌, minus_one, ◌||◌, ◌&&◌, not,
}
use unix_like_os.Fs.{Dentry, Image, read_dentry_by_name, read_data, file_length, file_byte, copy_to}
use unix_like_os.Fs.ReadData.{read_data-start}
use unix_like_os.Syscall.Execute.{
  image_start, word_at, has_magic, page_virt_addr, check_executable, copy_file_image,
}

-- the tests of `check_executable` in their order, and as one condition
abbrev in_order : ℕ → Bool → ℕ → ℕ × Option ℕ
in_order inode magic entry =
    if inode == 0
    then (minus_one, none)
    else if not magic
    then (minus_one, none)
    else if ltb entry page_virt_addr || ltb (page_virt_addr + 0x400000) entry
    then (minus_one, none)
    else (0, some entry)

abbrev at_once : ℕ → Bool → ℕ → ℕ × Option ℕ
at_once inode magic entry =
    if not (inode == 0) && magic && leb 0x8000000 entry && leb entry 0x8400000
    then (0, some entry)
    else (minus_one, none)

accepts :
    (inode : ℕ) (magic : Bool) (entry : ℕ) → in_order inode magic entry ≡ at_once inode magic entry
accepts inode true entry = ground arith
accepts inode false entry = ground arith

module _ (img : Image) (stale d : Dentry) (bytes : ℕ → ℕ) (name : Bytes)
    (found : read_dentry_by_name img name stale ≡ some (0, d)) where
  -- A file that is found and has no less than 52 bytes is accepted exactly when its inode is not 0, its
  -- first bytes are 0x7F "ELF", and the word at 24 is an address of the program's 4 MB; this word is
  -- then the entry. Else the result is -1.
  pub check_executable_lem :
      52 ≤ file_length img d.inode
      → let entry = word_at (file_byte img d.inode) 24 in
        check_executable img stale bytes name
        ≡ some (
            if not (d.inode == 0)
              && has_magic (file_byte img d.inode)
              && leb 0x8000000 entry
              && leb entry 0x8400000
            then (0, some entry)
            else (minus_one, none))
  unfolding check_executable
  check_executable_lem big =
      let r = read_data-start img d.inode 52 bytes (omega arith) (omega arith) big in
      let b = λ (k : ℕ) (h : k < 52). r.1 k h in
      rw
        (
          found,
          b 0 (omega arith),
          b 1 (omega arith),
          b 2 (omega arith),
          b 3 (omega arith),
          b 24 (omega arith),
          b 25 (omega arith),
          b 26 (omega arith),
          b 27 (omega arith),
        )
        (ap (λ r. some r)
          (accepts d.inode (has_magic (file_byte img d.inode))
            (word_at (file_byte img d.inode) 24)))

  -- A file that is found, whose length leaves 2 or more when divided by 4096, and for which there is room on the
  -- kernel's stack and in the 4 MB of the program's page, stands after `copy_file_image` byte for byte at 0x8048000,
  -- and the rest of the program's memory is as before.
  pub copy_file_image_lem :
      (room : ℕ) (mem : ℕ → ℕ)
      → 2 ≤ file_length img d.inode % 4096
      → file_length img d.inode ≤ room
      → image_start + file_length img d.inode ≤ 0x8400000
      → (mem' : ℕ → ℕ) × (copy_file_image img stale bytes room name mem ≡ some mem')
        × ((k : ℕ) → k < file_length img d.inode → mem' (image_start + k) ≡ file_byte img d.inode k)
        × ((a : ℕ)
            → (a < image_start) ⊎ (image_start + file_length img d.inode ≤ a)
            → mem' a ≡ mem a)
  unfolding copy_file_image
  copy_file_image_lem room mem lo fits in_page =
      let small : file_length img d.inode < 4096 * 1023 = omega arith in
      let r = read_data-start img d.inode (file_length img d.inode) bytes lo small (omega arith) in
      let both : (leb (file_length img d.inode) room
            && leb (image_start + file_length img d.inode) (page_virt_addr + 0x400000))
          ≡ true =
        ground (arith, fits, in_page) in
      (
        (copy_to mem image_start (read_data img d.inode 0 bytes (file_length img d.inode)).1
            (file_length img d.inode)),
        rw (found, both) refl,
        (λ k h. ground (arith, h, r.1 k h)),
        (λ a h. ground (arith, h)),
      )
