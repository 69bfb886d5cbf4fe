-- ===== src/Rtc/Handshake.antt =====
-- `rtc_read` of student-distrib/rtc.c against the interrupts: the statements of the function are steps,
-- and `rtc_handler` may run between any two of them.
use unix_like_os.Base.{ℕ, zero, suc, ◌≤◌, ◌≡◌, ◌≢◌, refl, true, false, arith}
use unix_like_os.Pic.{Pic}
use unix_like_os.Rtc.{Flags, rtc_handler}

-- where `rtc_read` stands: before `rtc_read_flag = 1`, in the loop, behind it, between the two last
-- assignments, and behind them
pub data Pc : Type 0 where
  entered spinning released lowered returned : Pc

pub record Reader : Type 0 where
  pub pc : Pc
  pub flags : Flags
  pub ports : Pic

-- a statement of `rtc_read`
pub data Step : Reader → Reader → Type 0 where
  enter :
      {f : Flags} {p : Pic}
      → Step
          (record { pc = entered; flags = f; ports = p })
          (record { pc = spinning; flags = record f { reading = true }; ports = p })
  spin :
      {f : Flags} {p : Pic}
      → f.sync ≡ false
      → Step
          (record { pc = spinning; flags = f; ports = p })
          (record { pc = spinning; flags = f; ports = p })
  leave :
      {f : Flags} {p : Pic}
      → f.sync ≡ true
      → Step
          (record { pc = spinning; flags = f; ports = p })
          (record { pc = released; flags = f; ports = p })
  lower :
      {f : Flags} {p : Pic}
      → Step
          (record { pc = released; flags = f; ports = p })
          (record { pc = lowered; flags = record f { sync = false }; ports = p })
  finish :
      {f : Flags} {p : Pic}
      → Step
          (record { pc = lowered; flags = f; ports = p })
          (record { pc = returned; flags = record f { reading = false }; ports = p })

-- an interrupt, at any place
unfoldable pub interrupted : Reader → Reader
unfolding rtc_handler
interrupted r =
    let (f, p) = rtc_handler r.flags r.ports in record { pc = r.pc; flags = f; ports = p }

-- a run with its number of interrupts
pub data Run (r : Reader) : ℕ → Reader → Type 0 where
  start : Run r 0 r
  statement : {n : ℕ} {s t : Reader} → Run r n s → Step s t → Run r n t
  interrupt : {n : ℕ} {s : Reader} → Run r n s → Run r (suc n) (interrupted s)

abbrev pub call : Flags → Pic → Reader
call f p = record { pc = entered; flags = f; ports = p }

-- what holds of a call that found the flag down, as long as no interrupt came
data Waits : Reader → Type 0 where
  before : {f : Flags} {p : Pic} → f.sync ≡ false → Waits (call f p)
  within :
      {f : Flags} {p : Pic}
      → f.sync ≡ false
      → Waits (record { pc = spinning; flags = f; ports = p })

waits_step : {s t : Reader} → Waits s → Step s t → Waits t
waits_step (before h) enter = within h
waits_step (within h) (spin _) = within h
waits_step (within h) (leave e) = absurd (cc (h, e))

waits_run : {r s : Reader} {n : ℕ} → Waits r → Run r n s → n ≡ 0 → Waits s
waits_run w start e = w
waits_run w (statement run step) e = waits_step (waits_run w run e) step
waits_run w (interrupt run) e = absurd (omega (arith, e))

waits_inside : {s : Reader} → Waits s → s.pc ≢ returned
waits_inside (before _) e = cc e
waits_inside (within _) e = cc e

-- A call that finds the flag down returns only after an interrupt.
pub rtc_read_waits :
    (f : Flags) (p : Pic) (n : ℕ) (g : Flags) (q : Pic)
    → f.sync ≡ false
    → Run (call f p) n (record { pc = returned; flags = g; ports = q })
    → 1 ≤ n
rtc_read_waits f p zero g q h run = absurd (waits_inside (waits_run (before h) run refl) refl)
rtc_read_waits f p (suc n) g q h run = omega arith

-- An interrupt between the two last assignments of a call raises the flag again: the next call then
-- returns with no interrupt at all.
pub rtc_read_race :
    (f : Flags) (p : Pic)
    → (s : Reader) × Run (call f p) 2 s
      × (s.pc ≡ returned)
      × ((t : Reader) × Run (call s.flags s.ports) 0 t × (t.pc ≡ returned))
unfolding interrupted
rtc_read_race f p =
    let first = statement (statement (interrupt (statement start enter)) (leave refl)) lower in
    let second =
      statement (statement (statement (statement start enter) (leave refl)) lower) finish in
    (_, statement (interrupt first) finish, refl, (_, second, refl))
