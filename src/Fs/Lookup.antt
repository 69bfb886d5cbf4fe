-- ===== src/Fs/Lookup.antt =====
-- `read_dentry_by_name` of student-distrib/filesystem.c on a whole directory.
use native.Mathlib.Decide.{dec_lt}
use unix_like_os.Base.{
  ℕ, zero, suc, ◌+◌, ◌<◌, ◌≤◌, ◌≡◌, ◌⊎◌, inl, inr, refl, subst, Bool, true, false, Option, some,
  arith, Bytes, ◌==◌, minus_one, Bool-cases,
}
use unix_like_os.Klib.Text.{strncmp, name_of, readable, Compared, strncmp_lem}
use unix_like_os.Fs.{Image, Dentry, max_fname_length, scan_entries, read_dentry_by_name}

module _ (img : Image) (fname : Bytes) where
  -- Entry `i` has the name asked for: the same bytes before a NUL or the end of the field.
  abbrev pub Same : ℕ → Type 0
  Same i = name_of max_fname_length fname ≡ name_of max_fname_length (img.dir_entries i).fname

  -- The entries from `i` to `stop` hold the name last at some `j`, or nowhere.
  abbrev LastMatch : ℕ → ℕ → Bool → Dentry → Option (Bool × Dentry) → Type 0
  LastMatch i stop found d out =
      ((j : ℕ) × (i ≤ j)
        × (j < stop)
        × Same j
        × ((k : ℕ) → j < k → k < stop → ¬ Same k)
        × (out ≡ some (true, img.dir_entries j)))
      ⊎ (((k : ℕ) → i ≤ k → k < stop → ¬ Same k) × (out ≡ some (found, d)))

  -- One more entry before the others: it counts only if none behind it has the name.
  module _ (i stop : ℕ) (d : Dentry) (out : Option (Bool × Dentry)) (lt : i < stop) where
    extend_hit :
        (found : Bool) (d' : Dentry)
        → Same i
        → LastMatch (i + 1) stop true (img.dir_entries i) out
        → LastMatch i stop found d' out
    extend_hit found d' hit (inl (j, a, b, same, later, e)) =
        inl (j, omega arith, b, same, later, e)
    extend_hit found d' hit (inr (none_later, e)) =
        inl (i, omega arith, lt, hit, λ k a b. none_later k (omega arith) b, e)

    extend_miss :
        (found : Bool)
        → ¬ Same i
        → LastMatch (i + 1) stop found d out
        → LastMatch i stop found d out
    extend_miss found miss (inl (j, a, b, same, later, e)) = inl (j, omega arith, b, same, later, e)
    extend_miss found miss (inr (none_later, e)) = inr (
      λ k a b. elim (dec_lt i k) [
        | yes p ↦ none_later k (omega arith) b
        | no p ↦ let q : i ≡ k = omega arith in subst (λ m. ¬ Same m) q miss
      ],
      e,
    )

  module _ (name_ok : readable max_fname_length fname ≡ true) where
    compared :
        (i : ℕ)
        → readable max_fname_length (img.dir_entries i).fname ≡ true
        → Compared max_fname_length fname
            (img.dir_entries i).fname
            (strncmp fname (img.dir_entries i).fname max_fname_length)
    compared i h = strncmp_lem max_fname_length fname (img.dir_entries i).fname name_ok h

    scan_entries-LastMatch :
        (n i stop : ℕ) (found : Bool) (d : Dentry)
        → i + n ≡ stop
        → ((k : ℕ) → i ≤ k → k < stop → readable max_fname_length (img.dir_entries k).fname ≡ true)
        → LastMatch i stop found d (scan_entries img fname n i found d)
    unfolding scan_entries
    scan_entries-LastMatch zero i stop found d e ok = inr (λ k a b. absurd (omega arith), refl)
    scan_entries-LastMatch (suc n) i stop found d e ok =
        let c = compared i (ok i (omega arith) (omega arith)) in
        let rest = λ (f : Bool) (d' : Dentry).
          scan_entries-LastMatch n (i + 1) stop f d' (omega arith)
            (λ k a b. ok k (omega arith) b) in
        elim (Bool-cases (c.value == 0)) [
          | inl hit ↦
              rw (c.returned, hit)
                (extend_hit i stop d _ (omega arith) found d (c.same (ground arith))
                  (rest true (img.dir_entries i)))
          | inr miss ↦
              rw (c.returned, miss)
                (extend_miss i stop d _ (omega arith) found
                  (λ same. ground (arith, c.zero_of_same same)) (rest found d))
        ]

    -- If the names of the directory can be read, `read_dentry_by_name` does not fault, and either it
    -- returns 0 with the last entry that has the name, or no entry has it, and it returns -1 and
    -- leaves `*dentry` as it was.
    pub read_dentry_by_name_lem :
        (dentry : Dentry)
        → ((k : ℕ)
            → k < img.num_dir_entries
            → readable max_fname_length (img.dir_entries k).fname ≡ true)
        → ((j : ℕ) × (j < img.num_dir_entries)
            × Same j
            × ((k : ℕ) → j < k → k < img.num_dir_entries → ¬ Same k)
            × (read_dentry_by_name img fname dentry ≡ some (0, img.dir_entries j)))
          ⊎ (((k : ℕ) → k < img.num_dir_entries → ¬ Same k)
              × (read_dentry_by_name img fname dentry ≡ some (minus_one, dentry)))
    unfolding read_dentry_by_name
    read_dentry_by_name_lem dentry ok =
        elim (scan_entries-LastMatch img.num_dir_entries 0 img.num_dir_entries false dentry
          (omega arith) (λ k _ b. ok k b)) [
            | inl (j, a, b, same, later, e) ↦ inl (j, b, same, later, rw e)
            | inr (nowhere, e) ↦ inr (λ k b. nowhere k (omega arith) b, rw e)
          ]
