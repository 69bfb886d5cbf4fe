-- ===== src/User/Syserr/Expect.antt =====
-- The steps of the tests in syscalls/ece391syserr.c where the call fails, as they expect.
use unix_like_os.Base.{
  ℕ, ◌^◌, ◌<◌, ◌≡◌, ap, refl, ◌∙◌, false, some, arith, Bytes, minus_one, length, get_or,
}
use unix_like_os.Proc.{stdout_ops}
use unix_like_os.Terminal.{Terminal, terminal_write}
use unix_like_os.Terminal.Display.{display, shown, terminal_write-shown}
use unix_like_os.Syscall
use unix_like_os.Syscall.{fails, calls, terminal_driver}
use unix_like_os.System.{Outside, System, looks_at, dispatch_read, dispatch_write, driver_write}
use unix_like_os.System
use unix_like_os.User.Buffers.{first_bytes-agree}
use unix_like_os.User.Syserr.{
  TestRun, say, expect_fail, expect_read, expect_write, expect_close, verdict,
}

-- The process may write to the screen.
pub record HasOutput (s : System) : Type 0 where
  pub used : (s.pcb.file_array 1).flags ≡ 1
  pub ops : (s.pcb.file_array 1).ops ≡ stdout_ops

-- the run of a test whose system has looked at a descriptor
abbrev pub looked_at : ℕ → TestRun → TestRun
looked_at fd t = record t { sys = looks_at fd t.sys }

module _ (o : Outside) where
  -- the terminal after a text has been written to it
  abbrev pub printed : Bytes → Terminal → Terminal
  printed text t = (terminal_write (some (λ k. get_or text k 0)) (length text) t).1

  output_dispatch :
      (s : System) → HasOutput s → Syscall.write 1 false s.pcb s.pcb ≡ calls terminal_driver
  unfolding Syscall.write Syscall.writeptr
  output_dispatch s h = ground (arith, h.used, h.ops)

  -- A text that a program writes changes the terminal only.
  pub say_lem :
      (text : Bytes) (s : System)
      → HasOutput s
      → say o text s ≡ record s { terminal = printed text s.terminal }
  unfolding say System.write dispatch_write driver_write
  say_lem text s h = rw (say, output_dispatch s h) refl

  pub say-shown :
      (text : Bytes) (s : System)
      → HasOutput s
      → length text < 2 ^ 31
      → display (say o text s).terminal ≡ shown text (display s.terminal)
  say-shown text s h small =
      let buf = λ (k : ℕ). get_or text k 0 in
      rw (say_lem text s h) (
        (terminal_write-shown buf (length text) s.terminal small).1
        ∙ ap (λ b. shown b (display s.terminal)) (first_bytes-agree text buf (λ k lt. refl)))

  module _ (text : Bytes) (t : TestRun) where
    pub expect_read-fails :
        (fd : ℕ)
        → Syscall.read fd false t.sys.pcb ≡ fails
        → expect_read o fd text t ≡ looked_at fd t
    unfolding expect_read expect_fail System.read dispatch_read
    expect_read-fails fd h = rw h refl

    pub expect_write-fails :
        (fd : ℕ)
        → Syscall.write fd false t.sys.pcb t.sys.pcb ≡ fails
        → expect_write o fd text t ≡ looked_at fd t
    unfolding expect_write expect_fail System.write dispatch_write
    expect_write-fails fd h = rw h refl

    pub expect_close-fails :
        (fd : ℕ)
        → Syscall.close fd t.sys.pcb ≡ some (minus_one, t.sys.pcb)
        → expect_close o fd text t ≡ looked_at fd t
    unfolding expect_close expect_fail System.close
    expect_close-fails fd h = rw (h, System.close) refl

    pub verdict-passes :
        (failed : Bytes) → t.fail ≡ 0 → verdict o failed text t ≡ (0, say o text t.sys)
    unfolding verdict
    verdict-passes failed h = rw h refl
