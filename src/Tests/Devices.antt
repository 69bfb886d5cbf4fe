-- ===== src/Tests/Devices.antt =====
-- The theorems on the interrupt controllers, the clock and the timer at concrete states.
use unix_like_os.Base.{ℕ, ◌≤◌, ◌≡◌, refl, false, [], ◌∷◌}
use unix_like_os.Pic.{Pic, outb}
use unix_like_os.Rtc.{Flags}
use unix_like_os.Rtc.Handshake.{
  Reader, Run, start, statement, interrupt, enter, leave, lower, finish, call, returned,
  interrupted, rtc_read_waits, rtc_read_race,
}
use unix_like_os.Pit.{pit_init, pit_ch0_port, pit_command_port}

abbrev pic : Pic
pic = record { master_mask = 0; slave_mask = 0; outs = [] }

abbrev ports : ℕ → ℕ
ports _ = 0xFF

abbrev flags_down : Flags
flags_down = record { sync = false; reading = false }

one_interrupt :
    (p : Pic) × Run
      (call flags_down pic)
      1
      (record { pc = returned; flags = flags_down; ports = p })
unfolding interrupted
one_interrupt = (
  _,
  statement (statement (statement (interrupt (statement start enter)) (leave refl)) lower) finish,
)

rtc_read_waits_example : 1 ≤ 1
rtc_read_waits_example =
    rtc_read_waits flags_down pic 1 flags_down one_interrupt.0 refl one_interrupt.1

rtc_read_race_example :
    (s : Reader) × Run (call flags_down pic) 2 s
    × (s.pc ≡ returned)
    × ((t : Reader) × Run (call s.flags s.ports) 0 t × (t.pc ≡ returned))
rtc_read_race_example = rtc_read_race flags_down pic

-- The high byte of the setting is lost: the divisor is 155, not 11931.
pit_init_divisor :
    (pit_init pic).1.outs ≡ (pit_ch0_port, 0) ∷ (pit_ch0_port, 155) ∷ (pit_command_port, 0x34) ∷ []
unfolding pit_init outb
pit_init_divisor = refl
