-- ===== src/Files/Open.antt =====
-- `open_file` and `close_file` of student-distrib/filesystem.c.
use unix_like_os.Base.{
  ℕ, ◌<◌, ◌≤◌, ◌≡◌, ◌≢◌, ◌⊎◌, inl, inr, ap, refl, ◌∙◌, true, false, some, arith, Bytes, minus_one,
  update, update_self, update-ne, ==_iff, ==_ne,
}
use unix_like_os.Fs.{Image, Dentry, read_dentry_by_name}
use unix_like_os.Proc.{Pcb, Descriptor, is_null, find_free_fd}
use unix_like_os.Proc.Free.{find_free_fd-FirstFree, free_fd}
use unix_like_os.Files.{opened, open_file, close_file}

-- The descriptor of an entry of a known type is taken.
opened_taken :
    (img : Image) (e : Dentry) (d : Descriptor)
    → e.ftype < 3
    → (is_null (opened img e d).ops ≡ false)
      × ((opened img e d).flags ≡ 1)
      × ((opened img e d).file_position ≡ 0)
unfolding opened
opened_taken img e d h = ground arith

module _ (img : Image) (fname : Bytes) (dentry e : Dentry) (pcb : Pcb)
    (found : read_dentry_by_name img fname dentry ≡ some (0, e)) (known : e.ftype < 3) where
  -- Opening a name that the directory has, with an entry of one of the three types: if one of the
  -- descriptors 2 to 7 is free, the first free one is returned and taken for the entry, at position 0
  -- and marked in use, and no other descriptor changes; if none is free, the result is -1 and the process is as
  -- it was.
  pub open_file_lem :
      ((fd : ℕ) × (pcb' : Pcb) × (2 ≤ fd)
        × (fd < 8)
        × (free_fd pcb.file_array fd ≡ true)
        × ((k : ℕ) → 2 ≤ k → k < fd → free_fd pcb.file_array k ≡ false)
        × (open_file img fname dentry pcb ≡ some (fd, e, pcb'))
        × (free_fd pcb'.file_array fd ≡ false)
        × (pcb'.file_array fd ≡ opened img e (pcb.file_array fd))
        × ((pcb'.file_array fd).flags ≡ 1)
        × ((pcb'.file_array fd).file_position ≡ 0)
        × ((k : ℕ) → k ≢ fd → pcb'.file_array k ≡ pcb.file_array k))
      ⊎ (((k : ℕ) → 2 ≤ k → k < 8 → free_fd pcb.file_array k ≡ false)
          × (open_file img fname dentry pcb ≡ some (minus_one, e, pcb)))
  unfolding open_file
  open_file_lem = elim (find_free_fd-FirstFree pcb) [
    | inr (none_left, taken) ↦
        inr (taken, rw (found, (==_iff (find_free_fd pcb) minus_one).1 none_left))
    | inl (lo, hi, free, before) ↦
        let fd = find_free_fd pcb in
        let d = opened img e (pcb.file_array fd) in
        let (taken, flags, pos) = opened_taken img e (pcb.file_array fd) known in
        let self = update_self pcb.file_array fd d in
        inl (
          fd,
          record pcb { file_array = update pcb.file_array fd d },
          lo,
          hi,
          free,
          before,
          rw (found, ==_ne fd minus_one (omega arith)),
          ap (λ (x : Descriptor). is_null x.ops) self ∙ taken,
          self,
          ap (λ (x : Descriptor). x.flags) self ∙ flags,
          ap (λ (x : Descriptor). x.file_position) self ∙ pos,
          λ k h. update-ne pcb.file_array fd k d h,
        )
  ]

-- Closing a descriptor makes it free again, and leaves the others alone.
pub close_file_lem :
    (fd : ℕ) (pcb : Pcb)
    → let (r, pcb') = close_file fd pcb in
      (r ≡ 0)
      × (free_fd pcb'.file_array fd ≡ true)
      × ((k : ℕ) → k ≢ fd → pcb'.file_array k ≡ pcb.file_array k)
unfolding close_file
close_file_lem fd pcb = (refl, ground arith, λ k h. update-ne pcb.file_array fd k _ h)
