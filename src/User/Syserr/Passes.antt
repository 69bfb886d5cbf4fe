-- ===== src/User/Syserr/Passes.antt =====
-- The tests of syscalls/ece391syserr.c pass on the kernel.
use unix_like_os.Base.{
  ℕ, zero, suc, ◌+◌, ◌^◌, ◌<◌, ◌≤◌, ◌≡◌, inl, inr, ap, refl, ◌∙◌, Bool, true, false, leb,
  if◌then◌else◌, some, [], ◌∷◌, ◌++◌, arith, Bytes, minus_one, length, for_range,
}
use unix_like_os.Base.Strings.{chars}
use native.Mathlib.Decide.{dec_lt}
use unix_like_os.Fs.{Dentry, read_dentry_by_name}
use unix_like_os.Files.{open_file}
use unix_like_os.Terminal.Display.{display, shown}
use unix_like_os.Syscall
use unix_like_os.Syscall.{fails}
use unix_like_os.Syscall.ReadWrite.{read-safe, write-safe}
use unix_like_os.Syscall.Descriptors.{close_unused, close_out_of_range}
use unix_like_os.Syscall.Number.{Selected, syscall_handler}
use unix_like_os.System.{Outside, System}
use unix_like_os.System
use unix_like_os.System.Open.{looks_at-in_range, open_-some}
use unix_like_os.User.Syserr.{
  TestRun, neg_fd, big_fd, call_sys, say, first_run, expect_fail, expect_read, expect_write,
  expect_close, expect_open, expect_vidmap, verdict, close_lots, err_neg_fd, err_big_fd,
  err_open_lots, err_open, err_unopened, err_vidmap, err_stdin_out, err_syscall_num,
}
use unix_like_os.User.Syserr.Expect.{
  HasOutput, looked_at, say_lem, say-shown, expect_read-fails, expect_write-fails,
  expect_close-fails, verdict-passes,
}
use unix_like_os.User.Syserr.Opening.{TakenTo, dot, lots_lem}

-- The process has its two standard files, and nothing else open.
abbrev pub Fresh : System → Type 0
Fresh s = TakenTo 2 s.pcb

-- A test returns 0, shows `text`, and leaves the process with nothing open.
pub record Passes (text : Bytes) (s : System) (r : ℕ × System) : Type 0 where
  pub status : r.0 ≡ 0
  pub shows : display r.1.terminal ≡ shown text (display s.terminal)
  pub fresh : Fresh r.1
  pub up : r.1.down ≡ s.down

Fresh-HasOutput : (s : System) → Fresh s → HasOutput s
Fresh-HasOutput s f = record { used = f.files.output.1; ops = f.files.output.0 }

Fresh-unused : (s : System) (k : ℕ) → Fresh s → 2 ≤ k → k < 8 → (s.pcb.file_array k).flags ≡ 0
Fresh-unused s k f lo hi = elim (f.files.in_use k lo hi) [
  | inl (unused, free) ↦ unused
  | inr (used, inl ops) ↦ cc (f.free k lo hi, ops)
  | inr (used, inr ops) ↦ cc (f.free k lo hi, ops)
]

module _ (o : Outside) where
  pub say-Passes :
      (text : Bytes) (s : System) → length text < 2 ^ 31 → Fresh s → Passes text s (0, say o text s)
  say-Passes text s small f =
      let out = Fresh-HasOutput s f in
      record {
        status = refl;
        shows = say-shown o text s out small;
        fresh = rw (say_lem o text s out) f;
        up = rw (say_lem o text s out) refl;
      }

  -- The end of a test whose steps change nothing.
  steady :
      (failed text : Bytes) (buf : ℕ → ℕ) (s : System) (t : TestRun)
      → t ≡ first_run buf s
      → length text < 2 ^ 31
      → Fresh s
      → Passes text s (verdict o failed text t)
  steady failed text buf s t same small f =
      rw (same, verdict-passes o text (first_run buf s) failed refl) (say-Passes text s small f)

  -- A test that differs from this only by what it has noted.
  noted :
      (text : Bytes) (s : System) (b : Bool) (r : ℕ × System)
      → Passes text (record s { outside = b }) r
      → Passes text s r
  noted text s b r p = record { status = p.status; shows = p.shows; fresh = p.fresh; up = p.up }

  module _ (buf : ℕ → ℕ) (s : System) (f : Fresh s) where
    -- a run that has looked at a descriptor in range is as before
    looked_at-in_range : (fd : ℕ) → fd < 8 → looked_at fd (first_run buf s) ≡ first_run buf s
    looked_at-in_range fd h =
        ap (λ x. record (first_run buf s) { sys = x }) (looks_at-in_range fd s h)

    -- the steps on a descriptor out of range, which read outside of `file_array`
    bad_steps :
        (fd : ℕ) (a b c : Bytes)
        → 8 ≤ fd
        → fd < 2 ^ 32
        → expect_close o fd c (expect_write o fd b (expect_read o fd a (first_run buf s)))
          ≡ first_run buf (record s { outside = true })
    bad_steps fd a b c lo hi =
        let read_fails = (read-safe s.pcb f.files fd false hi).1 lo in
        let write_fails = (write-safe s.pcb f.files fd false hi).1 lo in
        let t = first_run buf s in
        let t1 = looked_at fd t in
        let t2 = looked_at fd t1 in
        let out : leb 8 fd ≡ true = ground (arith, lo) in
        ap (λ u. expect_close o fd c (expect_write o fd b u))
          (expect_read-fails o a t fd read_fails)
        ∙ ap (expect_close o fd c) (expect_write-fails o b t1 fd write_fails)
        ∙ expect_close-fails o c t2 fd (close_out_of_range fd s.pcb hi (inr lo))
        ∙ ap
            (λ x. first_run buf (record s {
              outside = if x then true else if x then true else if x then true else s.outside;
            }))
            out

    pub err_neg_fd-Passes : Passes (chars "err_neg_fd: PASS\n") s (err_neg_fd o buf s)
    unfolding err_neg_fd
    err_neg_fd-Passes = noted _ s true _ (
        steady _ _ buf (record s { outside = true }) _
          (bad_steps neg_fd _ _ _ (omega arith) (omega arith)) (omega arith) f)

    pub err_big_fd-Passes : Passes (chars "err_big_fd: PASS\n") s (err_big_fd o buf s)
    unfolding err_big_fd
    err_big_fd-Passes = noted _ s true _ (
        steady _ _ buf (record s { outside = true }) _
          (bad_steps big_fd _ _ _ (omega arith) (omega arith)) (omega arith) f)

    pub err_vidmap-Passes : Passes (chars "err_vidmap: PASS\n") s (err_vidmap o buf s)
    unfolding err_vidmap expect_vidmap expect_fail System.vidmap Syscall.vidmap
    err_vidmap-Passes = steady _ _ buf s _ refl (omega arith) f

    stdin_fails : Syscall.write 0 false s.pcb s.pcb ≡ fails
    unfolding Syscall.write
    stdin_fails = ground (arith, f.files.input.1)

    stdout_fails : Syscall.read 1 false s.pcb ≡ fails
    unfolding Syscall.read
    stdout_fails = ground (arith, f.files.output.1)

    pub err_stdin_out-Passes : Passes (chars "err_stdin_out: PASS\n") s (err_stdin_out o buf s)
    unfolding err_stdin_out
    err_stdin_out-Passes =
        let a = chars "write to stdin fail\n" in
        let b = chars "read from stdout fail\n" in
        steady _ _ buf s _
          (ap (expect_read o 1 b) (expect_write-fails o a (first_run buf s) 0 stdin_fails)
            ∙ expect_read-fails o b (first_run buf s) 1 stdout_fails)
          (omega arith) f

    pub err_syscall_num-Passes :
        (entry : Selected → System → ℕ × System)
        → Passes (chars "err_syscall_num: PASS\n") s (err_syscall_num o entry buf s)
    unfolding err_syscall_num call_sys syscall_handler expect_fail
    err_syscall_num-Passes entry = steady _ _ buf s _ refl (omega arith) f

    -- A call of `open` with a name that the directory does not have changes nothing.
    expect_open-fails :
        (name text : Bytes)
        → ((d : Dentry) → read_dentry_by_name o.img name d ≡ some (minus_one, d))
        → expect_open o name text (first_run buf s) ≡ first_run buf s
    unfolding expect_open expect_fail open_file
    expect_open-fails name text missing =
        let fails_ : open_file o.img name s.dentry s.pcb ≡ some (minus_one, s.dentry, s.pcb) =
          rw (missing s.dentry) refl in
        rw (open_-some o s name minus_one s.dentry s.pcb fails_) refl

    pub err_open-Passes :
        ((d : Dentry)
          → read_dentry_by_name o.img (chars "helloo" ++ (0 ∷ [])) d ≡ some (minus_one, d))
        → ((d : Dentry)
            → read_dentry_by_name o.img (chars "shel" ++ (0 ∷ [])) d ≡ some (minus_one, d))
        → ((d : Dentry) → read_dentry_by_name o.img (0 ∷ []) d ≡ some (minus_one, d))
        → Passes (chars "err_open: PASS\n") s (err_open o buf s)
    unfolding err_open
    err_open-Passes no_helloo no_shel no_empty =
        let a = chars "'helloo' fail\n" in
        let b = chars "'shel' fail\n" in
        let c = chars "empty string fail\n" in
        steady _ _ buf s _
          (rw (expect_open-fails _ a no_helloo, expect_open-fails _ b no_shel)
            (expect_open-fails _ c no_empty))
          (omega arith) f

    -- a loop of steps that change nothing
    loop_steady :
        (step : ℕ → TestRun → TestRun) (n i : ℕ)
        → ((k : ℕ) → i ≤ k → k < i + n → step k (first_run buf s) ≡ first_run buf s)
        → for_range n i step (first_run buf s) ≡ first_run buf s
    unfolding for_range
    loop_steady step zero i h = refl
    loop_steady step (suc n) i h =
        rw (h i (omega arith) (omega arith))
          (loop_steady step n (i + 1) (λ k a b. h k (omega arith) (omega arith)))

    read_unused : (k : ℕ) → (s.pcb.file_array k).flags ≡ 0 → Syscall.read k false s.pcb ≡ fails
    unfolding Syscall.read
    read_unused k h = rw h refl

    write_unused :
        (k : ℕ) → (s.pcb.file_array k).flags ≡ 0 → Syscall.write k false s.pcb s.pcb ≡ fails
    unfolding Syscall.write
    write_unused k h = rw h refl

    close_fails : (k : ℕ) → k < 8 → Syscall.close k s.pcb ≡ some (minus_one, s.pcb)
    close_fails k hi = elim (dec_lt k 2) [
      | yes p ↦ close_out_of_range k s.pcb (omega arith) (inl p)
      | no p ↦ close_unused k s.pcb (Fresh-unused s k f (omega arith) hi)
    ]

    pub err_unopened-Passes : Passes (chars "err_unopened: PASS\n") s (err_unopened o buf s)
    unfolding err_unopened
    err_unopened-Passes =
        let a = chars "close unopened or invalid fd fail\n" in
        let b = chars "read from unopened fd fail\n" in
        let c = chars "write to unopened fd fail\n" in
        let t = first_run buf s in
        let closes =
          loop_steady (λ i. expect_close o i a) 8 0
            (λ k x y.
              expect_close-fails o a t k (close_fails k (omega arith))
              ∙ looked_at-in_range k (omega arith)) in
        let reads =
          loop_steady (λ i. expect_read o i b) 6 2
            (λ k x y.
              expect_read-fails o b t k (read_unused k (Fresh-unused s k f x (omega arith)))
              ∙ looked_at-in_range k (omega arith)) in
        let writes =
          loop_steady (λ i. expect_write o i c) 6 2
            (λ k x y.
              expect_write-fails o c t k (write_unused k (Fresh-unused s k f x (omega arith)))
              ∙ looked_at-in_range k (omega arith)) in
        steady _ _ buf s _
          (ap
              (λ u.
                for_range 6 2 (λ i. expect_write o i c) (for_range 6 2 (λ i. expect_read o i b) u))
              closes
            ∙ ap (for_range 6 2 (λ i. expect_write o i c)) reads
            ∙ writes)
          (omega arith) f

  pub err_open_lots-Passes :
      (s : System) (e : Dentry)
      → Fresh s
      → e.ftype ≡ 1
      → ((d : Dentry) → read_dentry_by_name o.img dot d ≡ some (0, e))
      → Passes (chars "err_open_lots: PASS\n") s (err_open_lots o s)
  unfolding err_open_lots
  err_open_lots-Passes s e f dir found =
      let (s1, opens, fresh, same) = lots_lem o e s dir found f in
      let said =
        say-Passes (chars "err_open_lots: PASS\n") (close_lots o 6 2 s1) (omega arith) fresh in
      rw opens (record {
        status = refl;
        shows = said.shows ∙ ap (λ t. shown (chars "err_open_lots: PASS\n") (display t)) same.0;
        fresh = said.fresh;
        up = said.up ∙ same.2;
      })
