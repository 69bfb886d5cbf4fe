-- ===== src/Boot/Start.antt =====
-- The rest of `entry` of student-distrib/kernel.c: the initialisation, the boot screen and the first program.
pub mod Screen
pub mod First
use unix_like_os.Base.{
  ℕ, zero, suc, ◌+◌, ◌-◌, ◌*◌, ◌/◌, ◌%◌, ◌^◌, ◌<◌, ◌≤◌, min, ◌≡◌, ◌≢◌, ◌⊎◌, ◌↔◌, inl, inr, ap, ap₂,
  refl, sym, ◌∙◌, fun_ext, subst, Bool, true, false, Option, none, some, List, [], ◌∷◌, ◌++◌, map,
  reverse, append-nil, append_assoc, arith, Bytes, ◌==◌, ltb, leb, if◌then◌else◌, ◌>>=◌, add32,
  sub32, minus_one, slt, sext8, ◌||◌, ◌&&◌, not, Bool-cases, All, length, get_elem?, get_or, set,
  replicate, update, update_self, update-ne, length-append, length-set, get_elem?-eq-get_or,
  get_or-set_self, get_or-set_ne, get_or_ext, for_range, for_range_inv, for_range-update,
  bit_or-zero, bit_or_disjoint, all_below, all_below_sound, ==_iff, ==_refl, ==_ne, ltb-true,
  ltb-false,
}
use unix_like_os.Base.Strings.{chars}
use unix_like_os.Fs.{Image}
use unix_like_os.Proc.{Procs, terminal_init}
use unix_like_os.Paging.{Paging, paging_init}
use unix_like_os.Pic.{Pic, i8259_init, enable_irq}
use unix_like_os.Rtc.{Flags, rtc_irq_num, rtc_init, rtc_write}
use unix_like_os.Pit.{pit_irq_num, pit_init}
use unix_like_os.Terminal.{Terminal, terminal_open, clear_screen, read_line}
use unix_like_os.Keyboard.{Keyboard, keyboard_init}
use unix_like_os.Klib.Text.{strncmp}
use unix_like_os.Klib.Format.{Frame, printf}
use unix_like_os.Idt.{Gate, Handlers, idt_init}
use unix_like_os.Idt.Exceptions.{print_lines}
use unix_like_os.Syscall.Execute.{Machine, Ended, execute}
use unix_like_os.Syscall.Halt.{shell}
use unix_like_os.Boot.Report.{MultibootInfo, report}
use unix_like_os.Boot.Segments.{Segment, make_ldt_desc, make_tss_desc}

-- what stands outside the code: addresses, what the ports answer, and what locals hold before
pub record Board : Type 0 where
  pub handlers : Handlers
  pub junk_gate : Gate
  pub junk_segment : Segment
  pub ldt : ℕ
  pub ldt_size : ℕ
  pub tss : ℕ
  pub tss_size : ℕ
  pub inb : ℕ → ℕ
  pub frame : Frame

-- the state that `entry` initialises
pub record Kernel : Type 0 where
  pub ldt_desc_ptr : Segment
  pub tss_desc_ptr : Segment
  pub ldt_segment_selector : ℕ
  pub ss0 : ℕ
  pub esp0 : ℕ
  pub paging : Paging
  pub idt : ℕ → Gate
  pub pic : Pic
  pub flags : Flags
  pub procs : Procs
  pub keyboard : Keyboard

abbrev pub kernel_ldt : ℕ
kernel_ldt = 0x38

abbrev pub kernel_ds : ℕ
kernel_ds = 0x18

-- from the LDT's entry to `enable_irq` of the timer, `process_number`, `terminal_open` and `clear_screen`
unfoldable pub start_kernel : Board → Kernel → Kernel
unfolding make_ldt_desc make_tss_desc paging_init idt_init i8259_init terminal_init rtc_init
    rtc_write enable_irq pit_init keyboard_init terminal_open clear_screen
start_kernel b k =
    let (flags, pic1) = rtc_init b.inb (i8259_init k.pic) in
    let (_, pic2) = rtc_write b.inb 2 pic1 in
    let (_, pic3) = pit_init (enable_irq b.inb rtc_irq_num pic2) in
    let (keyboard, pic4) = keyboard_init b.inb k.keyboard (enable_irq b.inb pit_irq_num pic3) in
    record {
      ldt_desc_ptr = make_ldt_desc b.ldt b.ldt_size b.junk_segment;
      tss_desc_ptr = make_tss_desc b.tss b.tss_size b.junk_segment;
      ldt_segment_selector = kernel_ldt;
      ss0 = kernel_ds;
      esp0 = 0x800000;
      paging = paging_init k.paging;
      idt = idt_init b.handlers b.junk_gate k.idt;
      pic = pic4;
      flags = flags;
      procs = record (terminal_init k.procs) { process_number = 0 };
      keyboard = record keyboard { terminal = clear_screen (terminal_open keyboard.terminal) };
    }

abbrev pub boot_delay : ℕ
boot_delay = 2000000

abbrev pub boot_height : ℕ
boot_height = 27

abbrev pub logo : List Bytes
logo =
    chars "LOADING \n"
    ∷ chars "                                         ddddd                                 \n"
    ∷ chars "kkkk                                     d:::d     OOOOOOOO        SSSSSSSSSSS \n"
    ∷ chars "k::k                                     d:::d   OO::::::::OO    SS:::::::::::S\n"
    ∷ chars "k::k                                     d:::d OO::::::::::::OO S:::::SS::::::S\n"
    ∷ chars "k::k                                     d::d O:::::::OO:::::::OS:::::S SSSSSSS\n"
    ∷ chars "k::k    kkkkkkkuuuuu    uuuuu    ddddddddd::d O::::::O  O::::::OS:::::S        \n"
    ∷ chars "k::k   k:::::k u:::u    u:::u   d:::::::::::d O:::::O    O:::::OS:::::S        \n"
    ∷ chars "k::k  k:::::k  u:::u    u:::u  d::::::::::::d O:::::O    O:::::O S::::SS       \n"
    ∷ chars "k::k k:::::k   u:::u    u:::u d::::::ddddd::d O:::::O    O:::::O  SS::::SSS    \n"
    ∷ chars "k::k:::::k     u:::u    u:::u d:::::d    d::d O:::::O    O:::::O    SSS::::SS  \n"
    ∷ chars "k::::::::k     u:::u    u:::u d::::d     d::d O:::::O    O:::::O       SS::::S \n"
    ∷ chars "k::::::::k     u:::u    u:::u d::::d     d::d O:::::O    O:::::O        S:::::S\n"
    ∷ chars "k:::k:::::k    u::::uuuu::::u d::::d     d::d O::::::O  O::::::O        S:::::S\n"
    ∷ chars "k::k k:::::k   u:::::::::::::ud:::::ddddd:::ddO:::::::OO:::::::OSSSSSSS S:::::S\n"
    ∷ chars "k::k  k:::::k   u::::::::::::u d:::::::::::::d OO::::::::::::OO S::::::SS:::::S\n"
    ∷ chars "k::k   k:::::k   u::::::::u::u  d::::::::dd::d   OO::::::::OO   S:::::::::::SS \n"
    ∷ chars "kkkk    kkkkkkk   uuuuuuuu uuu  ddddddddd  ddd     OOOOOOOO      SSSSSSSSSSS   \n"
    ∷ chars "\n\nCreated by Dhruv Kanwal . Sebastian Jaronczyk . Ameer Kashani . Kyle Luhrsen\n"
    ∷ []

-- the body of the inner loop
unfoldable pub arrow_step : Frame → ℕ → Option Terminal → Option Terminal
arrow_step f j t =
    if j % boot_delay == 0 then (t >>= λ t1. print_lines f (chars "=> " ∷ []) t1) else t

-- the inner loop
unfoldable pub arrow_row : Frame → Option Terminal → Option Terminal
arrow_row f t = for_range boot_delay 0 (arrow_step f) t

-- from "LOADING" to the question for the colour
unfoldable pub boot_screen : Frame → Terminal → Option Terminal
boot_screen f t = print_lines f logo t >>= λ t1.
    for_range boot_height 0 (λ i. arrow_row f) (some t1) >>= λ t2.
    print_lines f (chars "Welcome to kudOS v.5!\n" ∷ []) (clear_screen t2) >>= λ t3.
    print_lines f
      (chars "choose your text color:\n"
        ∷ chars "Press 1:White  2:Red  3:Cyan  4:Yellow  5:Blue  6:Green\n"
        ∷ [])
      (record t3 { interrupts = true })

-- one of the tests on `inputcolor`
unfoldable pub test_color : ℕ → ℕ → ℕ → Option ℕ → Option ℕ
unfolding strncmp
test_color c key attrib rest =
    strncmp (c ∷ []) (key ∷ 0 ∷ []) 1 >>= λ r. if r == 0 then some attrib else rest

unfoldable pub pick_color : ℕ → Option ℕ
unfolding test_color
pick_color c = test_color c 49 0xF (
    test_color c 50 0xC (
      test_color c 51 0xB
        (test_color c 52 0xE (test_color c 53 0x9 (test_color c 54 0xA (some 0xF))))))

-- the choice of the colour, when a line has been entered in the terminal `t`
unfoldable pub choose_color : (ℕ → ℕ) → Terminal → Option Terminal
unfolding read_line pick_color
choose_color junk t =
    let (_, inputcolor, t1) = read_line 1 junk t in
    pick_color (inputcolor 0) >>= λ a. some (record t1 { attrib = a })

-- the primary shell
unfoldable pub first_program : Machine → Kernel → (ℕ → ℕ) → Option Ended
unfolding execute
first_program m k mem = execute 0 m (some shell) k.procs k.paging mem

-- How `entry` ends: before the initialisation, or in the hands of the first program, with `fs_start`.
pub data Booted : Type 0 where
  stops : Terminal → Booted
  runs : ℕ → Kernel → Ended → Booted

-- `entry`; `typed` is what the keyboard does to the terminal until a line has been entered
unfoldable pub entry :
    Board
    → Machine
    → ℕ
    → MultibootInfo
    → ℕ
    → (Terminal → Terminal)
    → (ℕ → ℕ)
    → Kernel
    → (ℕ → ℕ)
    → Option Booted
unfolding report start_kernel boot_screen choose_color first_program
entry b m magic info fs_start typed junk k mem =
    report b.frame magic info fs_start k.keyboard.terminal >>= λ (goes_on, fs, t1).
    if not goes_on
    then some (stops t1)
    else (let k1 = start_kernel b (record k { keyboard = record k.keyboard { terminal = t1 } }) in
        boot_screen b.frame k1.keyboard.terminal >>= λ t2. choose_color junk (typed t2) >>= λ t3.
        let k2 = record k1 { keyboard = record k1.keyboard { terminal = t3 } } in
        first_program m k2 mem >>= λ e. some (runs fs k2 e))
