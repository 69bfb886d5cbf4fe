-- ===== src/User/Syserr.antt =====
-- The tests of the system calls in syscalls/ece391syserr.c, on the calls of the kernel.
pub mod Expect
pub mod Opening
pub mod Passes
pub mod Whole
use unix_like_os.Base.{
  ℕ, zero, suc, ◌+◌, ◌-◌, ◌*◌, ◌/◌, ◌%◌, ◌^◌, ◌<◌, ◌≤◌, min, ◌≡◌, ◌≢◌, ◌⊎◌, ◌↔◌, inl, inr, ap, ap₂,
  refl, sym, ◌∙◌, fun_ext, subst, Bool, true, false, Option, none, some, List, [], ◌∷◌, ◌++◌, map,
  reverse, append-nil, append_assoc, arith, Bytes, ◌==◌, ltb, leb, if◌then◌else◌, ◌>>=◌, add32,
  sub32, minus_one, slt, sext8, ◌||◌, ◌&&◌, not, Bool-cases, All, length, get_elem?, get_or, set,
  replicate, update, update_self, update-ne, length-append, length-set, get_elem?-eq-get_or,
  get_or-set_self, get_or-set_ne, get_or_ext, for_range, for_range_inv, for_range-update,
  bit_or-zero, bit_or_disjoint, all_below, all_below_sound, ==_iff, ==_refl, ==_ne, ltb-true,
  ltb-false,
}
use unix_like_os.Base.Strings.{chars}
use unix_like_os.Syscall.Number.{Selected, refused, syscall_handler}
use unix_like_os.System.{Outside, System}
use unix_like_os.System

-- `NEG_FD` and `NEG_NUM`, and `BIG_FD` and `BIG_NUM`
abbrev pub neg_fd : ℕ
neg_fd = 2 ^ 32 - 1073741823

abbrev pub big_fd : ℕ
big_fd = 1073741823

-- a test as it runs: its `fail`, its `buf` and the system
pub record TestRun : Type 0 where
  pub fail : ℕ
  pub buf : ℕ → ℕ
  pub sys : System

abbrev pub first_run : (ℕ → ℕ) → System → TestRun
first_run buf s = record { fail = 0; buf = buf; sys = s }

module _ (o : Outside) where
  -- `ece391_fdputs(1, text)`
  unfoldable pub say : Bytes → System → System
  unfolding System.write
  say text s = (System.write o 1 (λ k. get_or text k 0) (length text) s).1

  -- `if (-1 != r) { fail = 2; ece391_fdputs(1, text); }`
  unfoldable pub expect_fail : ℕ → Bytes → TestRun → TestRun
  unfolding say
  expect_fail r text t = if r == minus_one then t else record t { fail = 2; sys = say text t.sys }

  unfoldable pub expect_read : ℕ → Bytes → TestRun → TestRun
  unfolding expect_fail
  expect_read fd text t =
      let (r, buf, s) = System.read o fd t.buf 31 t.sys in
      expect_fail r text (record t { buf = buf; sys = s })

  unfoldable pub expect_write : ℕ → Bytes → TestRun → TestRun
  unfolding expect_fail
  expect_write fd text t =
      let (r, s) = System.write o fd t.buf 31 t.sys in expect_fail r text (record t { sys = s })

  unfoldable pub expect_close : ℕ → Bytes → TestRun → TestRun
  unfolding expect_fail
  expect_close fd text t =
      let (r, s) = System.close o fd t.sys in expect_fail r text (record t { sys = s })

  unfoldable pub expect_open : Bytes → Bytes → TestRun → TestRun
  unfolding expect_fail
  expect_open name text t =
      let (r, s) = System.open_ o name t.sys in expect_fail r text (record t { sys = s })

  unfoldable pub expect_vidmap : ℕ → Bytes → TestRun → TestRun
  unfolding expect_fail
  expect_vidmap ptr text t =
      let (r, s) = System.vidmap o ptr t.sys in expect_fail r text (record t { sys = s })

  -- the end of a test
  unfoldable pub verdict : Bytes → Bytes → TestRun → ℕ × System
  unfolding say
  verdict failed passed t =
      if t.fail == 0 then (t.fail, say passed t.sys) else (t.fail, say failed t.sys)

  unfoldable pub err_neg_fd : (ℕ → ℕ) → System → ℕ × System
  err_neg_fd buf s = verdict (chars "err_neg_fd: FAIL\n") (chars "err_neg_fd: PASS\n") (
      expect_close neg_fd (chars "close fail\n") (
        expect_write neg_fd (chars "write fail\n")
          (expect_read neg_fd (chars "read fail\n") (first_run buf s))))

  unfoldable pub err_big_fd : (ℕ → ℕ) → System → ℕ × System
  err_big_fd buf s = verdict (chars "err_big_fd: FAIL\n") (chars "err_big_fd: PASS\n") (
      expect_close big_fd (chars "close fail\n") (
        expect_write big_fd (chars "write fail\n")
          (expect_read big_fd (chars "read fail\n") (first_run buf s))))

  -- the two loops of `err_open_lots`, with the rounds left
  unfoldable pub open_lots : ℕ → ℕ → System → ℕ × System
  open_lots zero cnt s = (cnt, s)
  open_lots (suc n) cnt s =
      let (r, s1) = System.open_ o (chars "." ++ (0 ∷ [])) s in
      open_lots n (if r == minus_one then add32 cnt 1 else cnt) s1

  unfoldable pub close_lots : ℕ → ℕ → System → System
  close_lots zero i s = s
  close_lots (suc n) i s = close_lots n (i + 1) (System.close o i s).1

  unfoldable pub err_open_lots : System → ℕ × System
  err_open_lots s =
      let (cnt, s1) = open_lots 7 0 s in
      let s2 = close_lots 6 2 s1 in
      if cnt == 1
      then (0, say (chars "err_open_lots: PASS\n") s2)
      else (2, say (chars "err_open_lots: FAIL\n") s2)

  unfoldable pub err_open : (ℕ → ℕ) → System → ℕ × System
  err_open junk s = verdict (chars "err_open: FAIL\n") (chars "err_open: PASS\n") (
      expect_open (0 ∷ []) (chars "empty string fail\n") (
        expect_open (chars "shel" ++ (0 ∷ [])) (chars "'shel' fail\n")
          (expect_open (chars "helloo" ++ (0 ∷ [])) (chars "'helloo' fail\n") (first_run junk s))))

  -- the three loops of `err_unopened`
  unfoldable pub err_unopened : (ℕ → ℕ) → System → ℕ × System
  err_unopened buf s =
      let t1 =
        for_range 8 0 (λ i. expect_close i (chars "close unopened or invalid fd fail\n"))
          (first_run buf s) in
      let t2 = for_range 6 2 (λ i. expect_read i (chars "read from unopened fd fail\n")) t1 in
      let t3 = for_range 6 2 (λ i. expect_write i (chars "write to unopened fd fail\n")) t2 in
      verdict (chars "err_unopened: FAIL\n") (chars "err_unopened: PASS\n") t3

  unfoldable pub err_vidmap : (ℕ → ℕ) → System → ℕ × System
  err_vidmap junk s = verdict (chars "err_vidmap: FAIL\n") (chars "err_vidmap: PASS\n") (
      expect_vidmap 0x400000 (chars "Kernel pointer fail fail\n")
        (expect_vidmap 0 (chars "Null pointer fail\n") (first_run junk s)))

  unfoldable pub err_stdin_out : (ℕ → ℕ) → System → ℕ × System
  err_stdin_out buf s = verdict (chars "err_stdin_out: FAIL\n") (chars "err_stdin_out: PASS\n") (
      expect_read 1 (chars "read from stdout fail\n")
        (expect_write 0 (chars "write to stdin fail\n") (first_run buf s)))

  -- `call_sys(num)`, where `entry` is what the call of a function, with the arguments that the registers hold, comes to
  unfoldable pub call_sys : (Selected → System → ℕ × System) → ℕ → System → ℕ × System
  call_sys entry num s = elim (syscall_handler num) [ refused ↦ (minus_one, s) | f ↦ entry f s ]

  unfoldable pub err_syscall_num : (Selected → System → ℕ × System) → (ℕ → ℕ) → System → ℕ × System
  err_syscall_num entry junk s =
      let (r1, s1) = call_sys entry big_fd s in
      let t1 = expect_fail r1 (chars "syscall 0 fail\n") (first_run junk s1) in
      let (r2, s2) = call_sys entry neg_fd t1.sys in
      let t2 = expect_fail r2 (chars "big num syscall fail\n") (record t1 { sys = s2 }) in
      let (r3, s3) = call_sys entry 0 t2.sys in
      verdict (chars "err_syscall_num: FAIL\n") (chars "err_syscall_num: PASS\n")
        (expect_fail r3 (chars "neg num syscall fail\n") (record t2 { sys = s3 }))

  -- `case 0` of `main`
  unfoldable pub all_tests : (Selected → System → ℕ × System) → (ℕ → ℕ) → System → ℕ × System
  all_tests entry junk s =
      let (f1, s1) = err_neg_fd junk s in
      let (f2, s2) = err_big_fd junk s1 in
      let (f3, s3) = err_open_lots s2 in
      let (f4, s4) = err_open junk s3 in
      let (f5, s5) = err_unopened junk s4 in
      let (f6, s6) = err_vidmap junk s5 in
      let (f7, s7) = err_stdin_out junk s6 in
      let (f8, s8) = err_syscall_num entry junk s7 in
      let fail = add32 (add32 (add32 (add32 (add32 (add32 (add32 f1 f2) f3) f4) f5) f6) f7) f8 in
      if fail == 0
      then (fail, say (chars "\nOverall Tests: PASS\n") s8)
      else (fail, say (chars "\nOverall Tests: FAIL\n") s8)

  -- the `switch` of `main`
  unfoldable pub select_test : (Selected → System → ℕ × System) → (ℕ → ℕ) → ℕ → System → ℕ × System
  select_test entry junk select s =
      if select == 0
      then all_tests entry junk s
      else if select == 1
      then err_neg_fd junk s
      else if select == 2
      then err_big_fd junk s
      else if select == 3
      then err_open_lots s
      else if select == 4
      then err_open junk s
      else if select == 5
      then err_unopened junk s
      else if select == 6
      then err_vidmap junk s
      else if select == 7
      then err_stdin_out junk s
      else if select == 8
      then err_syscall_num entry junk s
      else (0, say (chars "Invalid test number. Choose from tests 1-8 or 0") s)

  unfoldable pub main : (Selected → System → ℕ × System) → (ℕ → ℕ) → System → ℕ × System
  main entry junk s =
      let s0 = say (chars "Choose from tests 1-8. 0 to run all: ") s in
      let (cnt, buf, s1) = System.read o 0 junk 127 s0 in
      if cnt == minus_one
      then (2, say (chars "Can't read test #\n") s1)
      else select_test entry junk (sub32 (buf 0) 48) s1
