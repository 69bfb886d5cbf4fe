-- ===== src/Paging/Task.antt =====
-- The address space that `new_task_pd` of student-distrib/paging.c builds for a process.
use unix_like_os.Base.{
  ℕ, ◌+◌, ◌-◌, ◌*◌, ◌/◌, ◌%◌, ◌^◌, ◌<◌, ◌≤◌, ◌≡◌, ◌≢◌, ◌⊎◌, ap, refl, ◌∙◌, none, some, arith,
  update, update_self, update-ne, for_range-update, ltb-false,
}
use unix_like_os.Paging.{
  Paging, attribute_0, four_mb, kernel_page, user_page_8mb, program_offset, clear_entries,
  kernel_entries, new_task_pd, through_entry, translate,
}

kernel_entries_other :
    (g : Paging) (d : ℕ → ℕ) (k : ℕ) → 2 ≤ k → k < 1024 → kernel_entries g d k ≡ attribute_0
unfolding kernel_entries clear_entries
kernel_entries_other g d k lo hi =
    ground (arith, (for_range-update (λ _. attribute_0) d 1024).0 k hi)

kernel_entries_kernel : (g : Paging) (d : ℕ → ℕ) → kernel_entries g d 1 ≡ kernel_page
unfolding kernel_entries
kernel_entries_kernel g d = refl

module _ (id : ℕ) (g : Paging) (small : id < 6) where
  abbrev built : Paging
  built = (new_task_pd id g).1

  new_task_pd_accepts : new_task_pd id g ≡ (
    0,
    record g {
      page_directories = update g.page_directories id (
          update
            (kernel_entries g (g.page_directories id))
            program_offset
            ((user_page_8mb + id * four_mb) % 2 ^ 32));
      cr3 = id;
    },
  )
  unfolding new_task_pd
  new_task_pd_accepts = rw (ltb-false 6 id (omega arith))

  status : (new_task_pd id g).0 ≡ 0
  status = ap (λ (o : ℕ × Paging). o.0) new_task_pd_accepts

  loaded : built.cr3 ≡ id
  loaded = ap (λ (o : ℕ × Paging). o.1.cr3) new_task_pd_accepts

  directory :
      built.page_directories id
      ≡ update
          (kernel_entries g (g.page_directories id))
          program_offset
          ((user_page_8mb + id * four_mb) % 2 ^ 32)
  directory =
      ap (λ (o : ℕ × Paging). o.1.page_directories id) new_task_pd_accepts
      ∙ update_self g.page_directories id _

  pub directory_other : (k : ℕ) → k ≢ id → built.page_directories k ≡ g.page_directories k
  directory_other k h =
      ap (λ (o : ℕ × Paging). o.1.page_directories k) new_task_pd_accepts
      ∙ update-ne g.page_directories id k _ h

  entry_program : built.page_directories id 0x20 ≡ 0x800087 + id * 0x400000
  entry_program = rw directory (omega arith)

  entry_kernel : built.page_directories id 1 ≡ kernel_page
  entry_kernel = rw (directory, kernel_entries_kernel)

  entry_none : (k : ℕ) → 2 ≤ k → k < 1024 → k ≢ 0x20 → built.page_directories id k ≡ attribute_0
  entry_none k lo hi h =
      rw directory (ground (arith, kernel_entries_other g (g.page_directories id) k lo hi))

-- the pages of a directory with such entries
program_page :
    (g : Paging) (id pde v : ℕ)
    → id < 6
    → pde ≡ 0x800087 + id * 0x400000
    → 0x8000000 ≤ v
    → v < 0x8400000
    → through_entry g pde v ≡ some (0x800000 + id * 0x400000 + (v - 0x8000000))
program_page g id pde v small e lo hi = ground arith

kernel_page_lem :
    (g : Paging) (v : ℕ) → 0x400000 ≤ v → v < 0x800000 → through_entry g kernel_page v ≡ some v
kernel_page_lem g v lo hi = ground arith

module _ (id : ℕ) (g : Paging) (small : id < 6) where
  -- The directory that `new_task_pd` builds and loads for task `id` below 6 maps the 4 MB at
  -- 0x8000000 to the task's own 4 MB of memory, the kernel's 4 MB at 0x400000 to themselves, and no
  -- other address from 0x800000 on.
  pub translate-new_task_pd :
      let (s, h) = new_task_pd id g in
      (s ≡ 0)
      × ((v : ℕ)
          → 0x8000000 ≤ v
          → v < 0x8400000
          → translate h v ≡ some (0x800000 + id * 0x400000 + (v - 0x8000000)))
      × ((v : ℕ) → 0x400000 ≤ v → v < 0x800000 → translate h v ≡ some v)
      × ((v : ℕ)
          → 0x800000 ≤ v
          → v < 2 ^ 32
          → (v < 0x8000000) ⊎ (0x8400000 ≤ v)
          → translate h v ≡ none)
  unfolding translate
  translate-new_task_pd = (
    status id g small,
    λ v lo hi.
        let k : v / 0x400000 ≡ 0x20 = omega arith in
        rw (k, loaded id g small)
          (program_page (new_task_pd id g).1 id _ v small (entry_program id g small) lo hi),
    λ v lo hi.
        let k : v / 0x400000 ≡ 1 = omega arith in
        rw (k, loaded id g small, entry_kernel id g small)
          (kernel_page_lem (new_task_pd id g).1 v lo hi),
    λ v lo hi out. rw (
      loaded id g small,
      entry_none id g small (v / 0x400000) (omega arith) (omega arith) (omega arith),
    ),
  )

-- Two different tasks below 6, set up one after the other, have no memory of their programs in common: under the
-- directory of each the 4 MB from 0x8000000 on lead to 4 MB of its own, and no address in these leads to where an
-- address in these leads under the other's directory. The rest of the addresses is not meant here.
pub new_task_pd_isolates :
    (i j : ℕ) (g : Paging) (v w : ℕ)
    → i < 6
    → j < 6
    → i ≢ j
    → 0x8000000 ≤ v
    → v < 0x8400000
    → 0x8000000 ≤ w
    → w < 0x8400000
    → let h = (new_task_pd j (new_task_pd i g).1).1 in
      (translate (record h { cr3 = i }) v ≡ some (0x800000 + i * 0x400000 + (v - 0x8000000)))
      × (translate h w ≡ some (0x800000 + j * 0x400000 + (w - 0x8000000)))
      × (translate (record h { cr3 = i }) v ≢ translate h w)
unfolding translate
new_task_pd_isolates i j g v w hi hj ne lv uv lw uw =
    let g1 = (new_task_pd i g).1 in
    let k : v / 0x400000 ≡ 0x20 = omega arith in
    let l : w / 0x400000 ≡ 0x20 = omega arith in
    let entry : (new_task_pd j g1).1.page_directories i 0x20 ≡ 0x800087 + i * 0x400000 =
      ap (λ (d : ℕ → ℕ). d 0x20) (directory_other j g1 hj i ne) ∙ entry_program i g hi in
    let a = program_page (record (new_task_pd j g1).1 { cr3 = i }) i _ v hi entry lv uv in
    let b = program_page (new_task_pd j g1).1 j _ w hj (entry_program j g1 hj) lw uw in
    rw (k, l, loaded j g1 hj) (a, b, λ e. ground (arith, a, b, e))
