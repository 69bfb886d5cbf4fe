-- ===== src/Proc.antt =====
-- The process control blocks of student-distrib/pcb.c. A pointer into `pcbs` is its index; `pcbs` and
-- each `file_array` are functions on indices, so that an index out of range reads whatever memory
-- holds there. The number of the current terminal is an argument.
pub mod Free
pub mod Stack
pub mod Inv
pub mod Destroy
pub mod Same
pub mod Chain
pub mod Climb
use unix_like_os.Base.{
  for_range, ℕ, zero, suc, ◌+◌, ◌-◌, ◌*◌, ◌/◌, ◌%◌, ◌^◌, ◌<◌, ◌≤◌, min, ◌≡◌, ◌≢◌, ◌⊎◌, ◌↔◌, inl,
  inr, ap, ap₂, refl, sym, ◌∙◌, fun_ext, subst, Bool, true, false, Option, none, some, List, [],
  ◌∷◌, ◌++◌, map, reverse, append-nil, append_assoc, arith, Bytes, ◌==◌, ltb, leb, if◌then◌else◌,
  ◌>>=◌, add32, sub32, minus_one, slt, sext8, ◌||◌, ◌&&◌, not, Bool-cases, All, length, get_elem?,
  get_or, set, replicate, update, update_self, update-ne, length-append, length-set,
  get_elem?-eq-get_or, get_or-set_self, get_or-set_ne, get_or_ext, for_range, for_range_inv, ==_iff,
  ==_refl, ==_ne, ltb-true, ltb-false,
}

abbrev pub max_processes : ℕ
max_processes = 7

abbrev pub fd_min_idx : ℕ
fd_min_idx = 2

abbrev pub fd_max_idx : ℕ
fd_max_idx = 7

-- the index that stands for a NULL `current_pcb`, past the last block
abbrev pub null_pcb : ℕ
null_pcb = max_processes

-- the values of a `file_ops` pointer
pub data Ops : Type 0 where
  no_ops file_ops rtc_ops terminal_ops stdin_ops stdout_ops : Ops

abbrev pub is_null : Ops → Bool
is_null no_ops = true
is_null _ = false

-- `fs_descriptor_t`
pub record Descriptor : Type 0 where
  pub ops : Ops
  pub inode_ptr : ℕ
  pub file_position : ℕ
  pub flags : ℕ

-- `pcb_t`
pub record Pcb : Type 0 where
  pub file_array : ℕ → Descriptor
  pub program_id : ℕ
  pub parent_id : ℕ
  pub address : ℕ
  pub esp : ℕ
  pub ebp : ℕ
  pub last_eip : ℕ
  pub esp0 : ℕ
  pub cmd_name : Bytes
  pub cmd_args : Bytes
  pub process_terminal : ℕ

-- `terminal_t`
pub record TerminalInfo : Type 0 where
  pub top_process_id : ℕ
  pub num_process : ℕ

-- The globals of the process code. `pcb_copies` logs the `memcpy` of `pcb_init` into kernel memory:
-- where it writes, and how many bytes.
pub record Procs : Type 0 where
  pub pcbs : ℕ → Pcb
  pub current : ℕ
  pub process_number : ℕ
  pub terminal_info : ℕ → TerminalInfo
  pub pcb_copies : List (ℕ × ℕ)

-- The loop of `find_free_pcb`, with the rounds left.
find_pcb_from : (ℕ → Pcb) → ℕ → ℕ → ℕ
find_pcb_from pcbs zero i = minus_one
find_pcb_from pcbs (suc n) i = if (pcbs i).program_id == 0 then i else find_pcb_from pcbs n (i + 1)

unfoldable pub find_free_pcb : Procs → ℕ
unfolding find_pcb_from
find_free_pcb p = find_pcb_from p.pcbs 6 1

-- `&pcbs[find_free_pcb()]`
unfoldable pub get_new_pcb : Procs → ℕ
get_new_pcb p = find_free_pcb p

unfoldable pub get_cur_pcb : Procs → ℕ
get_cur_pcb p = p.current

unfoldable pub get_kernel_stack_ptr : ℕ → ℕ
get_kernel_stack_ptr program_id = sub32 0x800000 (sub32 program_id 1 * 0x2000 % 2 ^ 32)

-- The loop of `find_free_fd`, with the rounds left.
find_fd_from : (ℕ → Descriptor) → ℕ → ℕ → ℕ
find_fd_from files zero i = minus_one
find_fd_from files (suc n) i = if is_null (files i).ops then i else find_fd_from files n (i + 1)

unfoldable pub find_free_fd : Pcb → ℕ
unfolding find_fd_from
find_free_fd pcb = find_fd_from pcb.file_array 6 fd_min_idx

-- `remove_fd`, whose `fd` is a byte: the status and the block after the call
unfoldable pub remove_fd : Pcb → ℕ → ℕ × Pcb
remove_fd pcb fd =
    let b = fd % 256 in
    if ltb b fd_min_idx then (minus_one, pcb) else if ltb fd_max_idx b then (minus_one, pcb) else (
      0,
      record pcb {
        file_array = update pcb.file_array b (record (pcb.file_array b) { ops = no_ops });
      },
    )

abbrev pub std_file : Ops → Descriptor
std_file o = record { ops = o; inode_ptr = 0; file_position = 0; flags = 1 }

-- `pcb_init(&pcbs[n])`, with the terminal on screen `t`
unfoldable pub pcb_init : ℕ → ℕ → Procs → Procs
pcb_init t n p =
    let id = find_free_pcb p in
    let addr = get_kernel_stack_ptr id in
    let info = p.terminal_info t in
    let pcb = p.pcbs n in
    record p {
      pcbs = update p.pcbs n (record pcb {
        file_array = update (update pcb.file_array 0 (std_file stdin_ops)) 1 (std_file stdout_ops);
        program_id = id;
        last_eip = 0;
        process_terminal = t;
        address = addr;
        esp = addr;
        ebp = addr;
        esp0 = addr % 256;
        parent_id = 0;
      });
      terminal_info =
          update p.terminal_info t
            (record { top_process_id = id; num_process = add32 info.num_process 1 });
      pcb_copies = (sub32 addr (4 * 0x2000), 618) ∷ p.pcb_copies;
      current = n;
    }

-- `pcb_destroy(&pcbs[n])`
unfoldable pub pcb_destroy : ℕ → ℕ → Procs → Procs
pcb_destroy t n p =
    let pcb = p.pcbs n in
    let info = p.terminal_info t in
    record p {
      process_number = sub32 p.process_number 1;
      terminal_info =
          update p.terminal_info t
            (record { top_process_id = pcb.parent_id; num_process = sub32 info.num_process 1 });
      current = pcb.parent_id;
      pcbs = update p.pcbs n (record pcb {
        process_terminal = minus_one;
        program_id = 0;
        parent_id = 0;
        address = 0;
        esp = 0;
        ebp = 0;
        esp0 = 0;
      });
    }

-- The loop of `get_top_pcb`; `none` when the fuel runs out.
unfoldable pub climb : (ℕ → Pcb) → ℕ → ℕ → Option ℕ
climb pcbs zero top = none
climb pcbs (suc fuel) top =
    let up = climb pcbs fuel (pcbs top).parent_id in
    if (pcbs top).parent_id == 0 then some top else up

unfoldable pub get_top_pcb : Procs → Option ℕ
unfolding climb get_cur_pcb
get_top_pcb p = climb p.pcbs max_processes (get_cur_pcb p)

-- The loop of `terminal_init` over the entries of the terminals.
unfoldable pub terminal_init : Procs → Procs
terminal_init p = record p {
  terminal_info =
      for_range 3 0 (λ i f. update f i (record { top_process_id = 0; num_process = 0 }))
        p.terminal_info;
}
