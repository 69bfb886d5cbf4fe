-- ===== src/Tests/Boot.antt =====
-- The theorems on the interrupt descriptor table and the boot at concrete values.
use unix_like_os.Base.{
  ℕ, ◌+◌, ◌*◌, ◌%◌, ◌≡◌, refl, false, some, [], ◌∷◌, ◌++◌, arith, ◌==◌, if◌then◌else◌, replicate,
}
use unix_like_os.Idt.{Gate, Handlers, idt_init}
use unix_like_os.Idt.Gates.{Leads, idt_init-Routed}
use unix_like_os.Terminal.{Terminal}
use unix_like_os.Klib.Format.{Frame}
use unix_like_os.Tests.Data.{screen, zeroed}
use unix_like_os.Base.Strings.{chars}
use unix_like_os.Keyboard.{Keyboard}
use unix_like_os.Proc.{Procs, null_pcb}
use unix_like_os.Proc.Inv.{Live, IsValid}
use unix_like_os.Syscall.Execute.{start_process}
use unix_like_os.Boot.Segments.{Segment}
use unix_like_os.Boot.Report.{MultibootInfo}
use unix_like_os.Boot.Start.{Board, Kernel, start_kernel}
use unix_like_os.Boot.Start.First.{start_kernel-start_process}
use unix_like_os.Tests.Data.{booted, tables}

abbrev handlers : Handlers
handlers = record {
  idt_func = λ k. 0x400000 + k % 256;
  keyboard_wrapper = 0x401000;
  rtc_handler = 0x402000;
  scheduler_wrapper = 0x403000;
  syscall_handler = 0x404321;
}

abbrev no_gate : Gate
no_gate = record {
  offset_15_00 = 0;
  seg_selector = 0;
  reserved4 = 0;
  reserved3 = 0;
  reserved2 = 0;
  reserved1 = 0;
  size = 0;
  reserved0 = 0;
  dpl = 0;
  present = 0;
  offset_31_16 = 0;
}

idt_init-Routed_example : Leads (idt_init handlers no_gate (λ _. no_gate) 0x80) 0x404321 1 3
idt_init-Routed_example =
    idt_init-Routed handlers no_gate (λ _. no_gate) 0x80
      (record {
        funcs = λ k. omega arith;
        keyboard = omega arith;
        rtc = omega arith;
        pit = omega arith;
        syscall = omega arith;
      })

abbrev blank_frame : Frame
blank_frame = record { args = zeroed; bytes_at = λ _. []; conv_buf = λ n. replicate n 0 }

abbrev no_segment : Segment
no_segment = record {
  seg_lim_15_00 = 0;
  base_15_00 = 0;
  base_23_16 = 0;
  type = 0;
  sys = 0;
  dpl = 0;
  present = 0;
  seg_lim_19_16 = 0;
  avail = 0;
  reserved = 0;
  opsize = 0;
  granularity = 0;
  base_31_24 = 0;
}

-- the address 16 holds "quiet", the local arrays zeros
abbrev boot_frame : Frame
boot_frame = record {
  args = zeroed;
  bytes_at = λ a. if a == 16 then chars "quiet" ++ (0 ∷ []) else [];
  conv_buf = λ n. replicate n 0;
}

-- two modules, and a memory map of one entry
abbrev boot_info : MultibootInfo
boot_info = record {
  flags = 79;
  mem_lower = 639;
  mem_upper = 129920;
  boot_device = 0x8000FFFF;
  cmdline = 16;
  mods_count = 2;
  mods = λ k. record { mod_start = 0x410000 + 0x1000 * k; mod_end = 0x410800 + 0x1000 * k };
  elf_num = 0;
  elf_size = 0;
  elf_addr = 0;
  elf_shndx = 0;
  mmap_length = 24;
  mmap_addr = 0x9000;
  mmap_at = λ _. record {
    size = 20;
    base_addr_low = 0;
    base_addr_high = 0;
    length_low = 654336;
    length_high = 0;
    type = 1;
  };
  memory = zeroed;
}

abbrev board : Board
board = record {
  handlers = handlers;
  junk_gate = no_gate;
  junk_segment = no_segment;
  ldt = 0x409000;
  ldt_size = 31;
  tss = 0x40A000;
  tss_size = 103;
  inb = zeroed;
  frame = blank_frame;
}

abbrev keyboard : Keyboard
keyboard = record {
  enter_flag = false;
  ctrl_flag = false;
  alt_flag = false;
  cap_flag = false;
  terminal = screen;
}

abbrev unready : Kernel
unready = record {
  ldt_desc_ptr = no_segment;
  tss_desc_ptr = no_segment;
  ldt_segment_selector = 0;
  ss0 = 0;
  esp0 = 0;
  paging = tables;
  idt = λ _. no_gate;
  pic = record { master_mask = 0; slave_mask = 0; outs = [] };
  flags = record { sync = false; reading = false };
  procs = record booted { current = null_pcb; process_number = 77 };
  keyboard = keyboard;
}

start_kernel-start_process_example :
    let p = (start_kernel board unready).procs in
    (n : ℕ) × (q : Procs) × (start_process 0 p ≡ some (n, q))
    × IsValid 0 q
    × Live q n
    × (q.current ≡ n)
    × ((q.pcbs n).parent_id ≡ 0)
start_kernel-start_process_example =
    start_kernel-start_process board unready (record { free = λ i. refl; nobody = refl })
