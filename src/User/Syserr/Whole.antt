-- ===== src/User/Syserr/Whole.antt =====
-- All the tests of syscalls/ece391syserr.c, one after the other, as `main` runs them for the number 0.
use unix_like_os.Base.{ℕ, ◌≡◌, ap, sym, ◌∙◌, some, [], ◌∷◌, ◌++◌, arith, Bytes, minus_one}
use unix_like_os.Base.Strings.{chars}
use unix_like_os.Fs.{Image, Dentry, read_dentry_by_name}
use unix_like_os.Terminal.Display.{display, shown, shown-append}
use unix_like_os.Syscall.Number.{Selected}
use unix_like_os.System.{Outside, System}
use unix_like_os.User.Syserr.{
  err_neg_fd, err_big_fd, err_open_lots, err_open, err_unopened, err_vidmap, err_stdin_out,
  err_syscall_num, all_tests,
}
use unix_like_os.User.Syserr.Opening.{dot}
use unix_like_os.User.Syserr.Passes.{
  Fresh, Passes, say-Passes, err_neg_fd-Passes, err_big_fd-Passes, err_vidmap-Passes,
  err_stdin_out-Passes, err_syscall_num-Passes, err_open-Passes, err_unopened-Passes,
  err_open_lots-Passes,
}

-- The directory has "." and none of the names that err_open tries.
pub record HasNames (img : Image) (e : Dentry) : Type 0 where
  pub is_dir : e.ftype ≡ 1
  pub has_dot : (d : Dentry) → read_dentry_by_name img dot d ≡ some (0, e)
  pub no_helloo :
      (d : Dentry) → read_dentry_by_name img (chars "helloo" ++ (0 ∷ [])) d ≡ some (minus_one, d)
  pub no_shel :
      (d : Dentry) → read_dentry_by_name img (chars "shel" ++ (0 ∷ [])) d ≡ some (minus_one, d)
  pub no_empty : (d : Dentry) → read_dentry_by_name img (0 ∷ []) d ≡ some (minus_one, d)

-- Two tests in a row.
Passes-append :
    (a b : Bytes) (s : System) (r r' : ℕ × System)
    → Passes a s r
    → Passes b r.1 r'
    → Passes (a ++ b) s r'
Passes-append a b s r r' p q = record {
  status = q.status;
  shows = q.shows ∙ ap (shown b) p.shows ∙ sym (shown-append a b (display s.terminal));
  fresh = q.fresh;
  up = q.up ∙ p.up;
}

-- what the tests show
abbrev pub all_passed : Bytes
all_passed =
    chars "err_neg_fd: PASS\n"
    ++ (chars "err_big_fd: PASS\n"
        ++ (chars "err_open_lots: PASS\n"
            ++ (chars "err_open: PASS\n"
                ++ (chars "err_unopened: PASS\n"
                    ++ (chars "err_vidmap: PASS\n"
                        ++ (chars "err_stdin_out: PASS\n"
                            ++ (chars "err_syscall_num: PASS\n"
                                ++ chars "\nOverall Tests: PASS\n")))))))

module _ (o : Outside) (entry : Selected → System → ℕ × System) (junk : ℕ → ℕ) where
  -- The tests of the system calls that the repository has, run one after the other on the kernel by a process with
  -- nothing open, if the directory has an entry "." of the type of a directory and none of the three names that are
  -- not to be there: all of them pass. The status is 0, the screen is as if just the nine lines that say so had been
  -- written to it, nothing is open at the end, no call goes through NULL, and no driver faults. That calls with a
  -- descriptor out of range read outside of `file_array`, which is noted, is not ruled out. What a call of a
  -- function of the table with the registers of `call_sys` would come to does not matter.
  pub all_tests-Passes :
      (e : Dentry) (s : System)
      → Fresh s
      → HasNames o.img e
      → Passes all_passed s (all_tests o entry junk s)
  unfolding all_tests
  all_tests-Passes e s f names =
      let r1 = err_neg_fd o junk s in
      let r2 = err_big_fd o junk r1.1 in
      let r3 = err_open_lots o r2.1 in
      let r4 = err_open o junk r3.1 in
      let r5 = err_unopened o junk r4.1 in
      let r6 = err_vidmap o junk r5.1 in
      let r7 = err_stdin_out o junk r6.1 in
      let r8 = err_syscall_num o entry junk r7.1 in
      let p1 = err_neg_fd-Passes o junk s f in
      let p2 = err_big_fd-Passes o junk r1.1 p1.fresh in
      let p3 = err_open_lots-Passes o r2.1 e p2.fresh names.is_dir names.has_dot in
      let p4 = err_open-Passes o junk r3.1 p3.fresh names.no_helloo names.no_shel names.no_empty in
      let p5 = err_unopened-Passes o junk r4.1 p4.fresh in
      let p6 = err_vidmap-Passes o junk r5.1 p5.fresh in
      let p7 = err_stdin_out-Passes o junk r6.1 p6.fresh in
      let p8 = err_syscall_num-Passes o junk r7.1 p7.fresh entry in
      let last = say-Passes o (chars "\nOverall Tests: PASS\n") r8.1 (omega arith) p8.fresh in
      rw (p1.status, p2.status, p3.status, p4.status, p5.status, p6.status, p7.status, p8.status)
        (Passes-append _ _ s r1 _ p1 (
          Passes-append _ _ r1.1 r2 _ p2 (
            Passes-append _ _ r2.1 r3 _ p3 (
              Passes-append _ _ r3.1 r4 _ p4 (
                Passes-append _ _ r4.1 r5 _ p5 (
                  Passes-append _ _ r5.1 r6 _ p6
                    (Passes-append _ _ r6.1 r7 _ p7 (Passes-append _ _ r7.1 r8 _ p8 last))))))))
