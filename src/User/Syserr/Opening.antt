-- ===== src/User/Syserr/Opening.antt =====
-- The test err_open_lots of syscalls/ece391syserr.c: seven calls of `open`, and `close` of what they opened.
use unix_like_os.Base.{
  ℕ, zero, suc, ◌+◌, ◌<◌, ◌≤◌, ◌≡◌, ◌≢◌, inl, inr, ap, refl, ◌∙◌, subst, true, false, some, [], ◌∷◌,
  ◌++◌, arith, Bytes, ◌==◌, add32, minus_one, ==_ne,
}
use native.Mathlib.Decide.{dec_lt, ℕ_discrete}
use unix_like_os.Base.Strings.{chars}
use unix_like_os.Fs.{Image, Dentry, read_dentry_by_name}
use unix_like_os.Proc.{Pcb, Descriptor, file_ops}
use unix_like_os.Proc.Free.{free_fd}
use unix_like_os.Files.{opened}
use unix_like_os.Files.Open.{open_file_lem}
use unix_like_os.Syscall.ReadWrite.{FilesOk}
use unix_like_os.Syscall.Descriptors.{close-FilesOk}
use unix_like_os.System.{Outside, System}
use unix_like_os.System
use unix_like_os.System.Open.{open_-some, close-some}
use unix_like_os.User.Syserr.{open_lots, close_lots}

-- "." and its NUL
abbrev pub dot : Bytes
dot = chars "." ++ (0 ∷ [])

-- The descriptors from 2 up to `m` are taken, and those behind free.
pub record TakenTo (m : ℕ) (pcb : Pcb) : Type 0 where
  pub files : FilesOk pcb
  pub taken : (k : ℕ) → 2 ≤ k → k < m → free_fd pcb.file_array k ≡ false
  pub free : (k : ℕ) → m ≤ k → k < 8 → free_fd pcb.file_array k ≡ true

-- the system, but for the process and the global `dentry`
abbrev pub SameOutput : System → System → Type 0
SameOutput s s' = (s'.terminal ≡ s.terminal) × (s'.paging ≡ s.paging) × (s'.down ≡ s.down)

opened_dir :
    (img : Image) (e : Dentry) (d : Descriptor)
    → e.ftype ≡ 1
    → ((opened img e d).ops ≡ file_ops) × ((opened img e d).flags ≡ 1)
unfolding opened
opened_dir img e d h = rw h (refl, refl)

opened-FilesOk :
    (fd : ℕ) (pcb pcb' : Pcb)
    → 2 ≤ fd
    → (pcb'.file_array fd).ops ≡ file_ops
    → (pcb'.file_array fd).flags ≡ 1
    → ((k : ℕ) → k ≢ fd → pcb'.file_array k ≡ pcb.file_array k)
    → FilesOk pcb
    → FilesOk pcb'
opened-FilesOk fd pcb pcb' lo ops flags others ok = record {
  input = rw (others 0 (λ e. omega (arith, e))) ok.input;
  output = rw (others 1 (λ e. omega (arith, e))) ok.output;
  in_use = λ k a b. elim (ℕ_discrete k fd) [
    | yes e ↦ rw e (inr (flags, inl ops))
    | no d ↦ rw (others k d) (ok.in_use k a b)
  ];
}

-- The first free descriptor behind those that are taken.
first_free :
    (files : ℕ → Descriptor) (m fd : ℕ)
    → 2 ≤ m
    → m < 8
    → 2 ≤ fd
    → fd < 8
    → ((k : ℕ) → 2 ≤ k → k < m → free_fd files k ≡ false)
    → ((k : ℕ) → m ≤ k → k < 8 → free_fd files k ≡ true)
    → free_fd files fd ≡ true
    → ((k : ℕ) → 2 ≤ k → k < fd → free_fd files k ≡ false)
    → fd ≡ m
first_free files m fd lo hi a b taken free is_free before = elim (dec_lt fd m) [
  | yes p ↦ cc (taken fd a p, is_free)
  | no p ↦ elim (dec_lt m fd) [
    | yes q ↦ cc (before m lo q, free m (omega arith) hi)
    | no q ↦ omega arith
  ]
]

module _ (o : Outside) (e : Dentry) (dir : e.ftype ≡ 1)
    (found : (d : Dentry) → read_dentry_by_name o.img dot d ≡ some (0, e)) where
  -- One more `open`: it takes the first descriptor that is free.
  open_step :
      (m : ℕ) (s : System)
      → 2 ≤ m
      → m < 8
      → TakenTo m s.pcb
      → (s1 : System) × (System.open_ o dot s ≡ (m, s1)) × TakenTo (m + 1) s1.pcb × SameOutput s s1
  open_step m s lo hi t =
      elim (open_file_lem o.img dot s.dentry e s.pcb (found s.dentry) (omega (arith, dir))) [
        | inr (none_left, fails) ↦ cc (none_left m lo hi, t.free m (omega arith) hi)
        | inl (fd, pcb', a, b, is_free, before, done, not_free, made, flags, pos, others) ↦
            let first : fd ≡ m =
              first_free s.pcb.file_array m fd lo hi a b t.taken t.free is_free before in
            let (ops, used) = opened_dir o.img e (s.pcb.file_array fd) dir in
            (
              record s { dentry = e; pcb = pcb' },
              open_-some o s dot fd e pcb' done
                  ∙ ap (λ k. (k, record s { dentry = e; pcb = pcb' })) first,
              record {
                files =
                    opened-FilesOk fd s.pcb pcb' a (ap (λ (d : Descriptor). d.ops) made ∙ ops) flags
                      others t.files;
                taken = λ k c d. elim (ℕ_discrete k fd) [
                  | yes z ↦ rw z not_free
                  | no z ↦ rw (others k z) (t.taken k c (omega (arith, first)))
                ];
                free = λ k c d.
                    rw (others k (λ z. omega (arith, z, first))) (t.free k (omega arith) d);
              },
              (refl, refl, refl),
            )
      ]

  -- With all of them taken, it fails.
  open_full :
      (s : System)
      → TakenTo 8 s.pcb
      → (s1 : System) × (System.open_ o dot s ≡ (minus_one, s1))
        × TakenTo 8 s1.pcb
        × SameOutput s s1
  open_full s t =
      elim (open_file_lem o.img dot s.dentry e s.pcb (found s.dentry) (omega (arith, dir))) [
        | inr (none_left, fails) ↦ (
          record s { dentry = e },
          open_-some o s dot minus_one e s.pcb fails,
          t,
          (refl, refl, refl),
        )
        | inl (fd, pcb', a, b, is_free, before, done, not_free, made, flags, pos, others) ↦
            cc (is_free, t.taken fd a b)
      ]

  -- The loop of seven calls of `open`: exactly the last fails.
  open_lots_lem :
      (n m cnt : ℕ) (s : System)
      → 2 ≤ m
      → m ≤ 8
      → n + m ≡ 9
      → cnt < 100
      → TakenTo m s.pcb
      → (s1 : System) × (open_lots o n cnt s ≡ (cnt + 1, s1)) × TakenTo 8 s1.pcb × SameOutput s s1
  unfolding open_lots
  open_lots_lem zero m cnt s lo hi sum small t = absurd (omega arith)
  open_lots_lem (suc n) m cnt s lo hi sum small t = elim (dec_lt m 8) [
    | yes p ↦
        let (s1, opens, t1, same1) = open_step m s lo p t in
        let (s2, rest, t2, same2) =
          open_lots_lem n (m + 1) cnt s1 (omega arith) (omega arith) (omega arith) small t1 in
        let ok : (m == minus_one) ≡ false = ==_ne m minus_one (omega arith) in
        (s2, rw (opens, ok) rest, t2, (same2.0 ∙ same1.0, same2.1 ∙ same1.1, same2.2 ∙ same1.2))
    | no p ↦
        let full : m ≡ 8 = omega arith in
        let last : n ≡ 0 = omega arith in
        let (s1, fails, t1, same) = open_full s (subst (λ k. TakenTo k s.pcb) full t) in
        let one_more : add32 cnt 1 ≡ cnt + 1 = omega arith in
        (s1, rw (fails, last, one_more) refl, t1, same)
  ]

-- The loop of six calls of `close` sets the descriptors 2 to 7 free.
close_lots_lem :
    (o : Outside) (n i : ℕ) (s : System)
    → n + i ≡ 8
    → FilesOk s.pcb
    → ((k : ℕ) → 2 ≤ k → k < i → free_fd s.pcb.file_array k ≡ true)
    → FilesOk (close_lots o n i s).pcb
      × ((k : ℕ) → 2 ≤ k → k < 8 → free_fd (close_lots o n i s).pcb.file_array k ≡ true)
      × SameOutput s (close_lots o n i s)
unfolding close_lots
close_lots_lem o zero i s sum ok free = (ok, λ k a b. free k a (omega arith), (refl, refl, refl))
close_lots_lem o (suc n) i s sum ok free =
    let (r, pcb', done, ok', outcome, others, is_free) = close-FilesOk i s.pcb (omega arith) ok in
    rw (close_lots, close-some o s i r pcb' (omega arith) done)
      (close_lots_lem o n (i + 1) (record s { pcb = pcb' }) (omega arith) ok'
        (λ k a b. elim (ℕ_discrete k i) [
          | yes z ↦ rw z (is_free (omega arith) (omega arith))
          | no z ↦ rw (others k z) (free k a (omega arith))
        ]))

-- From descriptors that are all free, the calls of err_open_lots fail exactly once, and leave them all free.
pub lots_lem :
    (o : Outside) (e : Dentry) (s : System)
    → e.ftype ≡ 1
    → ((d : Dentry) → read_dentry_by_name o.img dot d ≡ some (0, e))
    → TakenTo 2 s.pcb
    → (s1 : System) × (open_lots o 7 0 s ≡ (1, s1))
      × TakenTo 2 (close_lots o 6 2 s1).pcb
      × SameOutput s (close_lots o 6 2 s1)
lots_lem o e s dir found t =
    let (s1, opens, t1, same1) =
      open_lots_lem o e dir found 7 2 0 s (omega arith) (omega arith) refl (omega arith) t in
    let (ok, free, same2) = close_lots_lem o 6 2 s1 refl t1.files (λ k a b. absurd (omega arith)) in
    (
      s1,
      opens,
      record { files = ok; taken = λ k a b. absurd (omega arith); free = free },
      (same2.0 ∙ same1.0, same2.1 ∙ same1.1, same2.2 ∙ same1.2),
    )
