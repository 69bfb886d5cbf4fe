-- ===== src/Tests/Data.antt =====
-- A file system with one program, an empty process table, one with a shell, and a terminal.
use unix_like_os.Base.{
  ℕ, ◌-◌, ◌%◌, ◌≡◌, ◌≢◌, inl, inr, ap, refl, sym, ◌∙◌, subst, true, [], ◌∷◌, ◌++◌, arith, Bytes,
  ◌==◌, if◌then◌else◌, get_or, replicate, update, update-ne,
}
use native.Mathlib.Decide.{ℕ_discrete}
use unix_like_os.Fs.{Dentry, Image}
use unix_like_os.Proc.{
  Pcb, Procs, Descriptor, no_ops, std_file, stdin_ops, stdout_ops, TerminalInfo,
}
use unix_like_os.Proc.Inv.{Live, IsValid, live_count}
use unix_like_os.Paging.{Paging}
use unix_like_os.Terminal.{Terminal}
use unix_like_os.Terminal.Inv.{InScreen}
use unix_like_os.Syscall.ReadWrite.{FilesOk}
use unix_like_os.Syscall.Execute.{Machine}

-- "a" in a field of 32 bytes
abbrev pub name_a : Bytes
name_a = 97 ∷ replicate 31 0

abbrev pub entry_a : Dentry
entry_a = record { fname = name_a; ftype = 2; inode = 1; reserved = replicate 24 0 }

-- a file of 6000 bytes in the blocks 3 and 4, which starts as an executable for 0x8048000
abbrev pub disk : Image
disk = record {
  fs_start = 0x800000;
  num_dir_entries = 1;
  num_inodes = 2;
  dir_entries = λ _. entry_a;
  inode_word = λ k. if k == 1024 then 6000 else if k == 1025 then 3 else if k == 1026 then 4 else 0;
  data_byte = λ k.
      get_or (0x7F ∷ 69 ∷ 76 ∷ 70 ∷ (replicate 20 0 ++ (0 ∷ 0x80 ∷ 4 ∷ 8 ∷ []))) (k - 12288)
        (k % 251);
}

abbrev pub no_file : Descriptor
no_file = record { ops = no_ops; inode_ptr = 0; file_position = 0; flags = 0 }

abbrev pub no_pcb : Pcb
no_pcb = record {
  file_array = λ _. no_file;
  program_id = 0;
  parent_id = 0;
  address = 0;
  esp = 0;
  ebp = 0;
  last_eip = 0;
  esp0 = 0;
  cmd_name = replicate 128 0;
  cmd_args = replicate 128 0;
  process_terminal = 0;
}

-- a process with its two standard files
abbrev pub a_process : Pcb
a_process = record no_pcb {
  file_array = update (update (λ _. no_file) 0 (std_file stdin_ops)) 1 (std_file stdout_ops);
  program_id = 1;
}

abbrev pub no_terminal : TerminalInfo
no_terminal = record { top_process_id = 0; num_process = 0 }

-- no process yet
abbrev pub booted : Procs
booted = record {
  pcbs = λ _. no_pcb;
  current = 0;
  process_number = 0;
  terminal_info = λ _. no_terminal;
  pcb_copies = [];
}

nobody : (i : ℕ) → Live booted i → ⊥
nobody i l = omega (arith, l.low, l.id)

pub booted-IsValid : IsValid 0 booted
unfolding live_count
booted-IsValid = record {
  none_at_zero = refl;
  ids = λ i a b. inl refl;
  counted = refl;
  on_screen = omega arith;
  current_top = refl;
  top_live = λ t h. inl refl;
  parent_live = λ i l. inl refl;
  one_child = λ i j a b c d. absurd (nobody i a);
  top_leaf = λ t i h l. absurd (nobody i l);
  tops_differ = λ t u a b ne nz. absurd (nz refl);
}

-- one process, on the first terminal
abbrev pub one_shell : Procs
one_shell = record {
  pcbs = update (λ _. no_pcb) 1 a_process;
  current = 1;
  process_number = 1;
  terminal_info = update (λ _. no_terminal) 0 (record { top_process_id = 1; num_process = 1 });
  pcb_copies = [];
}

pub first_is : Live one_shell 1
first_is = record { low = omega arith; high = omega arith; id = refl }

is_first : (i : ℕ) → Live one_shell i → i ≡ 1
is_first i l = elim (ℕ_discrete i 1) [
  | yes e ↦ e
  | no d ↦
      let z : (one_shell.pcbs i).program_id ≡ 0 =
        ap (λ (k : Pcb). k.program_id) (update-ne (λ _. no_pcb) 1 i a_process d) in
      absurd (omega (arith, l.low, l.id, z))
]

no_parent : (i : ℕ) → Live one_shell i → (one_shell.pcbs i).parent_id ≡ 0
no_parent i l = ap (λ k. (one_shell.pcbs k).parent_id) (is_first i l)

other_empty : (t : ℕ) → t ≢ 0 → (one_shell.terminal_info t).top_process_id ≡ 0
other_empty t d = ap (λ (k : TerminalInfo). k.top_process_id) (update-ne (λ _. no_terminal) 0 t _ d)

pub one_shell-IsValid : IsValid 0 one_shell
unfolding live_count
one_shell-IsValid = record {
  none_at_zero = refl;
  ids = λ i a b. elim (ℕ_discrete i 1) [
    | yes e ↦ inr (subst (Live one_shell) (sym e) first_is)
    | no d ↦ inl (ap (λ (k : Pcb). k.program_id) (update-ne (λ _. no_pcb) 1 i a_process d))
  ];
  counted = refl;
  on_screen = omega arith;
  current_top = refl;
  top_live = λ t h. elim (ℕ_discrete t 0) [
    | yes e ↦
        inr
          (subst (λ k. Live one_shell (one_shell.terminal_info k).top_process_id) (sym e) first_is)
    | no d ↦ inl (other_empty t d)
  ];
  parent_live = λ i l. inl (no_parent i l);
  one_child = λ i j a b c d. is_first i a ∙ sym (is_first j b);
  top_leaf = λ t i h l nz. absurd (nz (no_parent i l));
  tops_differ = λ t u a b ne nz e. elim (ℕ_discrete t 0) [
    | yes z ↦ nz (e ∙ other_empty u (λ y. ne (z ∙ sym y)))
    | no d ↦ nz (other_empty t d)
  ];
}

pub a_process-FilesOk : FilesOk a_process
a_process-FilesOk = record {
  input = (refl, refl);
  output = (refl, refl);
  in_use = λ k a b.
      let e : a_process.file_array k ≡ no_file =
        update-ne (update (λ _. no_file) 0 (std_file stdin_ops)) 1 k (std_file stdout_ops)
          (λ z. omega (arith, z))
        ∙ update-ne (λ _. no_file) 0 k (std_file stdin_ops) (λ z. omega (arith, z)) in
      inl (ap (λ (d : Descriptor). d.flags) e, ap (λ (d : Descriptor). d.ops) e);
}

abbrev pub zeroed : ℕ → ℕ
zeroed _ = 0

abbrev pub tables : Paging
tables = record {
  page_directories = λ _ _. 0;
  page_table = zeroed;
  page_table_vidmap = zeroed;
  page_table_at = 0x410000;
  page_table_vidmap_at = 0x411000;
  cr3 = 0;
  enabled = true;
}

abbrev pub machine : Machine
machine = record {
  image = disk;
  stale_dentry = entry_a;
  stale_bytes = zeroed;
  stack_room = 7000;
  esp = 0x7FFF00;
  ebp = 0x7FFF80;
}

abbrev pub screen : Terminal
screen = record {
  curr_terminal = 0;
  attrib = 15;
  terminal_buffer = λ _ _. 0;
  buffer_len = zeroed;
  csr_x = λ _. 5;
  csr_y = zeroed;
  line_y = zeroed;
  line_beginning = zeroed;
  video = zeroed;
  saved = λ t k. t;
  ports = [];
  interrupts = true;
}

pub screen-InScreen : InScreen screen
screen-InScreen = record {
  on_screen = omega arith;
  x_in = λ t h. omega arith;
  y_in = λ t h. omega arith;
  line_in = λ t h. omega arith;
  start_in = λ t h. omega arith;
  len_in = λ t h. omega arith;
}
