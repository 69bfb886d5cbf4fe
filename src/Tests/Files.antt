-- ===== src/Tests/Files.antt =====
-- The theorems on files and descriptors at concrete systems.
use unix_like_os.Base.{
  ℕ, zero, suc, ◌+◌, ◌<◌, ◌≤◌, ◌%◌, ◌==◌, if◌then◌else◌, ◌≡◌, ◌≢◌, ◌⊎◌, inl, refl, true, some, [],
  ◌∷◌, ◌++◌, arith, Bytes, minus_one, All, length, get_or, replicate, ltb,
}
use native.Mathlib.Decide.{dec_lt}
use unix_like_os.Fs.{
  fs_init, Image, file_byte, read_data, read_dentry_by_name, max_fname_length, scan_entries,
}
use unix_like_os.Fs.ReadData.{read_data-start, read_data_short}
use unix_like_os.Fs.Lookup.{Same, read_dentry_by_name_lem}
use unix_like_os.Klib.Text.{strncmp, name_of, readable}
use unix_like_os.Proc.{Pcb, file_ops}
use unix_like_os.Proc.Free.{free_fd}
use unix_like_os.Fs.Layout.{read_data-fs_init}
use unix_like_os.Files.{inode_address, read_data_one, read_dir}
use unix_like_os.Files.Read.{IsContiguous, read_data_one-contiguous}
use unix_like_os.Files.Dir.{read_dir_entry}
use unix_like_os.Syscall.{close_all}
use unix_like_os.Syscall.Command.{check_command}
use unix_like_os.Syscall.Parse.{check_command-split}
use unix_like_os.Syscall.ReadWrite.{FilesOk}
use unix_like_os.Syscall.Descriptors.{close_all-FilesOk}
use unix_like_os.Tests.Data.{disk, entry_a, name_a, zeroed, a_process, a_process-FilesOk, no_pcb}

read_data-start_example :
    let out = read_data disk 1 0 zeroed 5000 in
    (out.0 ≡ 8192)
    × ((k : ℕ) → k < 5000 → out.1 k ≡ file_byte disk 1 k)
    × ((k : ℕ) → 5000 ≤ k → out.1 k ≡ 0)
read_data-start_example =
    read_data-start disk 1 5000 zeroed (omega arith) (omega arith) (omega arith)

read_data_short_example :
    let out = read_data disk 1 0 zeroed 4097 in
    (out.0 ≡ 4096)
    × ((k : ℕ) → k < 1 → out.1 k ≡ file_byte disk 1 k)
    × ((k : ℕ) → 1 ≤ k → out.1 k ≡ 0)
read_data_short_example =
    read_data_short disk 1 4097 zeroed (omega arith) (omega arith) (omega arith) (omega arith)

readable_a : readable max_fname_length name_a ≡ true
unfolding readable
readable_a = refl

read_dentry_by_name_lem_example :
    ((j : ℕ) × (j < 1)
      × Same disk name_a j
      × ((k : ℕ) → j < k → k < 1 → ¬ Same disk name_a k)
      × (read_dentry_by_name disk name_a entry_a ≡ some (0, entry_a)))
    ⊎ (((k : ℕ) → k < 1 → ¬ Same disk name_a k)
        × (read_dentry_by_name disk name_a entry_a ≡ some (minus_one, entry_a)))
read_dentry_by_name_lem_example =
    read_dentry_by_name_lem disk name_a readable_a entry_a (λ k h. readable_a)

check_command-split_example :
    (name' : Bytes) × (args' : Bytes) × (check_command
        (some (99 ∷ 97 ∷ 116 ∷ 32 ∷ 32 ∷ 97 ∷ 32 ∷ 98 ∷ 0 ∷ []))
        (replicate 128 0)
        (replicate 128 0)
      ≡ some (0, name', args'))
    × (name_of 128 name' ≡ 99 ∷ 97 ∷ 116 ∷ [])
    × (name_of 128 args' ≡ 97 ∷ 32 ∷ 98 ∷ [])
    × (length name' ≡ 128)
    × (length args' ≡ 128)
check_command-split_example =
    check_command-split (99 ∷ 97 ∷ 116 ∷ []) (97 ∷ 32 ∷ 98 ∷ []) [] (replicate 128 0)
      (replicate 128 0) 2
      ((omega arith, omega arith), ((omega arith, omega arith), ((omega arith, omega arith), tt)))
      (λ e. cc e) (omega arith, (omega arith, (omega arith, tt))) (omega arith) (inl (omega arith))
      refl refl (omega arith) (omega arith)

-- a process with the file of the disk open, at position 4000
abbrev reader : Pcb
reader = record no_pcb {
  file_array = λ _. record {
    ops = file_ops;
    inode_ptr = inode_address disk 1;
    file_position = 4000;
    flags = 1;
  };
}

pub contiguous : IsContiguous disk 1
contiguous j h = elim (dec_lt j 1) [
  | yes p ↦ let e : j ≡ 0 = omega arith in rw e refl
  | no p ↦ let e : j ≡ 1 = omega (arith, h) in rw e refl
]

read_data_one-contiguous_example :
    let (r, pcb', out) = read_data_one disk 2 3000 zeroed reader in
    (r ≡ 2000)
    × ((k : ℕ) → k < r → out k ≡ file_byte disk 1 (4000 + k))
    × ((k : ℕ) → r ≤ k → out k ≡ 0)
    × (pcb'.file_array 2 ≡ record (reader.file_array 2) { file_position = 4000 + r })
    × ((j : ℕ) → j ≢ 2 → pcb'.file_array j ≡ reader.file_array j)
read_data_one-contiguous_example =
    read_data_one-contiguous disk 1 2 3000 zeroed reader (omega arith) (omega arith) contiguous
      (omega arith) (omega arith) refl

read_dir_entry_example :
    (pcb' : Pcb) × (out : ℕ → ℕ) × (read_dir disk 2 zeroed no_pcb ≡ some (1, pcb', out))
    × ((k : ℕ) → k < 1 → out k ≡ get_or (97 ∷ []) k 0)
    × ((k : ℕ) → 1 ≤ k → out k ≡ 0)
    × ((pcb'.file_array 2).file_position ≡ 1)
read_dir_entry_example =
    read_dir_entry disk 2 zeroed no_pcb (97 ∷ [])
      (replicate 30 0 ++ (2 ∷ 0 ∷ 0 ∷ 0 ∷ 1 ∷ 0 ∷ 0 ∷ 0 ∷ replicate 24 0)) (omega arith)
      (omega arith) ((omega arith, omega arith), tt) refl

replicate-All : (n : ℕ) → All (λ c. (c ≢ 0) × (c < 256)) (replicate n 97)
replicate-All zero = tt
replicate-All (suc n) = ((omega arith, omega arith), replicate-All n)

-- a directory whose names have all 32 bytes
abbrev full_disk : Image
full_disk = record disk { dir_entries = λ _. record entry_a { fname = replicate 32 97 } }

name_ok : All (λ c. (c ≢ 0) × (c < 256)) (replicate 32 97)
name_ok = replicate-All 32

found_a : read_dentry_by_name disk name_a entry_a ≡ some (0, entry_a)
unfolding read_dentry_by_name scan_entries strncmp
found_a = refl

close_all-FilesOk_example :
    (pcb' : Pcb) × (close_all a_process ≡ some pcb')
    × FilesOk pcb'
    × ((k : ℕ) → 2 ≤ k → k < 8 → free_fd pcb'.file_array k ≡ true)
close_all-FilesOk_example = close_all-FilesOk a_process a_process-FilesOk

-- a memory with a boot block, three inodes, and in the first a file of 6000 bytes in the blocks 1 and 2
abbrev raw : ℕ → ℕ
raw k =
    if k == 0x1004
    then 3
    else if k == 0x2000
    then 0x70
    else if k == 0x2001
    then 0x17
    else if k == 0x2004
    then 1
    else if k == 0x2008
    then 2
    else if ltb k 0x5000
    then 0
    else k % 251

read_data-fs_init_example : (read_data (fs_init raw 0x1000) 0 0 zeroed 6000).1 5000 ≡ 209
read_data-fs_init_example =
    read_data-fs_init raw 0x1000 0 6000 zeroed (omega arith) (omega arith) (omega arith) 5000
      (omega arith)
