-- ===== src/Syscall/Descriptors.antt =====
-- The calls of `close` of student-distrib/syscall.c on the descriptors of a process.
use unix_like_os.Base.{
  ℕ, zero, suc, ◌+◌, ◌%◌, ◌^◌, ◌<◌, ◌≤◌, ◌≡◌, ◌≢◌, ◌⊎◌, inl, inr, ap, refl, sym, ◌∙◌, subst, true,
  false, some, arith, ◌==◌, minus_one, slt, update, update_self, update-ne, ltb-false,
}
use native.Mathlib.Decide.{dec_lt, ℕ_discrete}
use unix_like_os.Proc.{Pcb, Descriptor, no_ops, file_ops, rtc_ops, is_null, remove_fd}
use unix_like_os.Proc.Free.{free_fd}
use unix_like_os.Files.{close_file}
use unix_like_os.Syscall.{closeptr, close, close_from, close_all}
use unix_like_os.Syscall.ReadWrite.{FilesOk}

-- The descriptors of `pcb'` are those of `pcb` with `fd` set free.
abbrev Freed : ℕ → Pcb → Pcb → Type 0
Freed fd pcb pcb' =
    ((pcb'.file_array fd).ops ≡ no_ops)
    × ((pcb'.file_array fd).flags ≡ 0)
    × ((k : ℕ) → k ≢ fd → pcb'.file_array k ≡ pcb.file_array k)

Freed-FilesOk :
    (fd : ℕ) (pcb pcb' : Pcb) → 2 ≤ fd → fd < 8 → FilesOk pcb → Freed fd pcb pcb' → FilesOk pcb'
Freed-FilesOk fd pcb pcb' lo hi ok (none_left, unused, others) = record {
  input = rw (others 0 (λ e. omega (arith, e))) ok.input;
  output = rw (others 1 (λ e. omega (arith, e))) ok.output;
  in_use = λ k a b. elim (ℕ_discrete k fd) [
    | yes e ↦ rw e (inl (unused, none_left))
    | no d ↦ rw (others k d) (ok.in_use k a b)
  ];
}

closeptr_file :
    (fd : ℕ) (q : Pcb) → (q.file_array fd).ops ≡ file_ops → closeptr fd q ≡ some (close_file fd q).1
unfolding closeptr
closeptr_file fd q h = ground arith

closeptr_rtc : (fd : ℕ) (q : Pcb) → (q.file_array fd).ops ≡ rtc_ops → closeptr fd q ≡ some q
unfolding closeptr
closeptr_rtc fd q h = ground arith

module _ (fd : ℕ) (pcb : Pcb) (lo : 2 ≤ fd) (hi : fd < 8) where
  abbrev marked : Pcb
  marked = record pcb {
    file_array = update pcb.file_array fd (record (pcb.file_array fd) { flags = 0 });
  }

  remove_fd-Freed :
      (pcb1 : Pcb)
      → (pcb1.file_array fd).flags ≡ 0
      → ((k : ℕ) → k ≢ fd → pcb1.file_array k ≡ pcb.file_array k)
      → Freed fd pcb (remove_fd pcb1 fd).1
  unfolding remove_fd
  remove_fd-Freed pcb1 unused others =
      let e : fd % 256 ≡ fd = omega arith in
      let d = record (pcb1.file_array fd) { ops = no_ops } in
      let self = update_self pcb1.file_array fd d in
      rw (e, ltb-false fd 2 lo, ltb-false 7 fd (omega arith))
        (
          ap (λ (x : Descriptor). x.ops) self,
          ap (λ (x : Descriptor). x.flags) self ∙ unused,
          λ k h. update-ne pcb1.file_array fd k d h ∙ others k h,
        )

  -- The call of the operation of a descriptor in use.
  closeptr_in_use :
      ((pcb.file_array fd).ops ≡ file_ops) ⊎ ((pcb.file_array fd).ops ≡ rtc_ops)
      → (pcb1 : Pcb) × (closeptr fd marked ≡ some pcb1)
        × ((pcb1.file_array fd).flags ≡ 0)
        × ((k : ℕ) → k ≢ fd → pcb1.file_array k ≡ pcb.file_array k)
  unfolding close_file
  closeptr_in_use h =
      let d = record (pcb.file_array fd) { flags = 0 } in
      let self = update_self pcb.file_array fd d in
      let same = ap (λ (x : Descriptor). x.ops) self in
      let kept = λ (k : ℕ) (n : k ≢ fd). update-ne pcb.file_array fd k d n in
      elim h [
        | inl f ↦ (
          (close_file fd marked).1,
          closeptr_file fd marked (same ∙ f),
          ground arith,
          λ k n. update-ne marked.file_array fd k _ n ∙ kept k n,
        )
        | inr r ↦
            (marked, closeptr_rtc fd marked (same ∙ r), ap (λ (x : Descriptor). x.flags) self, kept)
      ]

  close_in_use :
      (pcb.file_array fd).flags ≡ 1
      → ((pcb.file_array fd).ops ≡ file_ops) ⊎ ((pcb.file_array fd).ops ≡ rtc_ops)
      → (pcb' : Pcb) × (close fd pcb ≡ some (0, pcb')) × Freed fd pcb pcb'
  unfolding close
  close_in_use used h =
      let (pcb1, called, unused, others) = closeptr_in_use h in
      let f : ((pcb.file_array fd).flags == 0) ≡ false = rw used in
      let a : slt fd 2 ≡ false = ground arith in
      let b : slt 7 fd ≡ false = ground arith in
      ((remove_fd pcb1 fd).1, rw (f, a, b, called), remove_fd-Freed pcb1 unused others)

pub close_unused :
    (fd : ℕ) (pcb : Pcb) → (pcb.file_array fd).flags ≡ 0 → close fd pcb ≡ some (minus_one, pcb)
unfolding close
close_unused fd pcb h = rw h

pub close_out_of_range :
    (fd : ℕ) (pcb : Pcb) → fd < 2 ^ 32 → (fd < 2) ⊎ (8 ≤ fd) → close fd pcb ≡ some (minus_one, pcb)
unfolding close
close_out_of_range fd pcb w h = ground arith

-- For well-formed descriptors `close` never calls through NULL, and keeps them well formed. It
-- returns 0 exactly for a descriptor 2 to 7 in use, and -1 and no change for every other number;
-- either way no other descriptor changes, and a descriptor 2 to 7 is free for `open` afterwards.
pub close-FilesOk :
    (fd : ℕ) (pcb : Pcb)
    → fd < 2 ^ 32
    → FilesOk pcb
    → (r : ℕ) × (pcb' : Pcb) × (close fd pcb ≡ some (r, pcb'))
      × FilesOk pcb'
      × ((r ≡ 0) × (2 ≤ fd) × (fd < 8) × ((pcb.file_array fd).flags ≡ 1)
          ⊎ (r ≡ minus_one) × (pcb' ≡ pcb) × (2 ≤ fd → fd < 8 → (pcb.file_array fd).flags ≡ 0))
      × ((k : ℕ) → k ≢ fd → pcb'.file_array k ≡ pcb.file_array k)
      × (2 ≤ fd → fd < 8 → free_fd pcb'.file_array fd ≡ true)
close-FilesOk fd pcb w ok = elim (dec_lt fd 2) [
  | yes p ↦ (
    minus_one,
    pcb,
    close_out_of_range fd pcb w (inl p),
    ok,
    inr (refl, refl, λ a b. absurd (omega arith)),
    λ k h. refl,
    λ a b. absurd (omega arith),
  )
  | no p ↦ elim (dec_lt fd 8) [
    | no q ↦ (
      minus_one,
      pcb,
      close_out_of_range fd pcb w (inr (omega arith)),
      ok,
      inr (refl, refl, λ a b. absurd (omega arith)),
      λ k h. refl,
      λ a b. absurd (omega arith),
    )
    | yes q ↦ elim (ok.in_use fd (omega arith) q) [
      | inl (unused, free) ↦ (
        minus_one,
        pcb,
        close_unused fd pcb unused,
        ok,
        inr (refl, refl, λ a b. unused),
        λ k h. refl,
        λ a b. ap is_null free,
      )
      | inr (used, kind) ↦
          let (pcb', done, freed) = close_in_use fd pcb (omega arith) q used kind in
          (
            0,
            pcb',
            done,
            Freed-FilesOk fd pcb pcb' (omega arith) q ok freed,
            inl (refl, omega arith, q, used),
            freed.2,
            λ a b. ap is_null freed.0,
          )
    ]
  ]
]

-- Closing the descriptors from `i` on, as `halt` does.
close_from-FilesOk :
    (n i : ℕ) (pcb : Pcb)
    → i + n ≤ 8
    → FilesOk pcb
    → (pcb' : Pcb) × (close_from n i pcb ≡ some pcb')
      × FilesOk pcb'
      × ((k : ℕ) → (k < i) ⊎ (i + n ≤ k) → pcb'.file_array k ≡ pcb.file_array k)
      × ((k : ℕ) → 2 ≤ k → i ≤ k → k < i + n → free_fd pcb'.file_array k ≡ true)
unfolding close_from
close_from-FilesOk zero i pcb h ok = (pcb, refl, ok, λ k _. refl, λ k a b c. absurd (omega arith))
close_from-FilesOk (suc n) i pcb h ok =
    let (r, pcb1, done, ok1, _, others, free) = close-FilesOk i pcb (omega arith) ok in
    let (pcb2, rest, ok2, kept, all_free) = close_from-FilesOk n (i + 1) pcb1 (omega arith) ok1 in
    (
      pcb2,
      rw (done, rest),
      ok2,
      λ k out. kept k (omega arith) ∙ others k (omega arith),
      λ k a b c. elim (ℕ_discrete k i) [
        | yes e ↦
            ap (λ (d : Descriptor). is_null d.ops) (kept k (omega arith))
            ∙ subst (λ j. free_fd pcb1.file_array j ≡ true) (sym e)
                (free (omega arith) (omega arith))
        | no d ↦ all_free k a (omega arith) (omega arith)
      ],
    )

-- The loop of `halt` closes the descriptors 2 to 7 of a process with well-formed descriptors, with no
-- call through NULL, and leaves the standard input and output.
pub close_all-FilesOk :
    (pcb : Pcb)
    → FilesOk pcb
    → (pcb' : Pcb) × (close_all pcb ≡ some pcb')
      × FilesOk pcb'
      × ((k : ℕ) → 2 ≤ k → k < 8 → free_fd pcb'.file_array k ≡ true)
unfolding close_all
close_all-FilesOk pcb ok =
    let (pcb', done, ok', _, free) = close_from-FilesOk 8 0 pcb (omega arith) ok in
    (pcb', done, ok', λ k a b. free k a (omega arith) b)
