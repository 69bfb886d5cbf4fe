-- ===== src/Pit.antt =====
-- The timer of student-distrib/scheduler.c: `pit_init` and what is left of `pit_handler`.
use unix_like_os.Base.{ℕ, ◌/◌, ◌%◌, ◌^◌}
use unix_like_os.Pic.{Pic, outb, send_eoi}

-- PIT_FREQ_SETTING
abbrev pub pit_freq_setting : ℕ
pit_freq_setting = 11931

abbrev pub pit_command_port : ℕ
pit_command_port = 0x43

abbrev pub pit_ch0_port : ℕ
pit_ch0_port = 0x40

abbrev pub pit_irq_num : ℕ
pit_irq_num = 0

-- `pit_init`: the cast binds before the shift
unfoldable pub pit_init : Pic → ℕ × Pic
unfolding outb
pit_init p =
    let freq_l = pit_freq_setting % 256 in
    let freq_h = pit_freq_setting % 256 / 2 ^ 8 in
    (0, outb freq_h pit_ch0_port (outb freq_l pit_ch0_port (outb 0x34 pit_command_port p)))

-- `pit_handler`, whose switch of processes is commented out
unfoldable pub pit_handler : Pic → Pic
unfolding send_eoi
pit_handler p = send_eoi pit_irq_num p
