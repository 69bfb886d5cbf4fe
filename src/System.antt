-- ===== src/System.antt =====
-- The system calls of student-distrib/syscall.c as a program meets them: the dispatch over the descriptor of the process
-- that runs, and behind it the driver, that is filesystem.c, terminal.c or rtc.c. A call may go through NULL, or a
-- driver fault: the system is then `down`, and what the call returns means nothing. An access of the calls themselves
-- outside of their arrays is noted in `outside`: the read of `file_array[fd]` for a descriptor out of range, which comes
-- before the check of the range, and the NUL of `getargs` at `buf[nbytes]`. The end of line that `terminal_read` writes
-- at `buf[count]` for a line that is too long is in the buffer that it gives back.
pub mod Open
use unix_like_os.Base.{
  ℕ, zero, suc, ◌+◌, ◌-◌, ◌*◌, ◌/◌, ◌%◌, ◌^◌, ◌<◌, ◌≤◌, min, ◌≡◌, ◌≢◌, ◌⊎◌, ◌↔◌, inl, inr, ap, ap₂,
  refl, sym, ◌∙◌, fun_ext, subst, Bool, true, false, Option, none, some, List, [], ◌∷◌, ◌++◌, map,
  reverse, append-nil, append_assoc, arith, Bytes, ◌==◌, ltb, leb, if◌then◌else◌, ◌>>=◌, add32,
  sub32, minus_one, slt, sext8, ◌||◌, ◌&&◌, not, Bool-cases, All, length, get_elem?, get_or, set,
  replicate, update, update_self, update-ne, length-append, length-set, get_elem?-eq-get_or,
  get_or-set_self, get_or-set_ne, get_or_ext, for_range, for_range_inv, for_range-update,
  bit_or-zero, bit_or_disjoint, all_below, all_below_sound, ==_iff, ==_refl, ==_ne, ltb-true,
  ltb-false,
}
use unix_like_os.Fs.{Image, Dentry}
use unix_like_os.Proc.{Pcb}
use unix_like_os.Files.{read_file, write_file, open_file}
use unix_like_os.Terminal.{Terminal, read_line, terminal_write}
use unix_like_os.Pic.{Pic}
use unix_like_os.Rtc.{Flags, rtc_write}
use unix_like_os.Paging.{Paging}
use unix_like_os.Syscall.{
  Driver, file_driver, rtc_driver, terminal_driver, null_driver, Dispatch, fails, calls,
}
use unix_like_os.Syscall
use unix_like_os.User.{Calls, first_bytes}

-- What stands outside the process: the image of the disk, what the ports answer, what memory holds behind `cmd_args`,
-- what the keyboard does to the terminal until a line has been entered, and what the interrupts of the clock do to the
-- ports until one has been seen.
pub record Outside : Type 0 where
  pub img : Image
  pub inb : ℕ → ℕ
  pub beyond : ℕ → ℕ
  pub typed : Terminal → Terminal
  pub ticked : Pic → Pic

-- the process that runs, and what its calls change
pub record System : Type 0 where
  pub pcb : Pcb
  pub dentry : Dentry
  pub terminal : Terminal
  pub flags : Flags
  pub pic : Pic
  pub paging : Paging
  pub down : Bool
  pub outside : Bool

abbrev pub crash : System → System
crash s = record s { down = true }

-- `file_array[fd].flags` has been read
abbrev pub looks_at : ℕ → System → System
looks_at fd s = record s { outside = if leb 8 fd then true else s.outside }

-- the frequency that `rtc_write` reads at a buffer
abbrev pub freq_at : (ℕ → ℕ) → ℕ
freq_at buf = buf 0 + 2 ^ 8 * buf 1 + 2 ^ 16 * buf 2 + 2 ^ 24 * buf 3

-- the `read` of a driver: the result, the buffer and the system
unfoldable pub driver_read : Outside → Driver → ℕ → (ℕ → ℕ) → ℕ → System → ℕ × (ℕ → ℕ) × System
driver_read o file_driver fd buf n s = elim (read_file o.img fd n buf s.pcb) [
  | none ↦ (minus_one, buf, crash s)
  | some (r, pcb, out) ↦ (r, out, record s { pcb = pcb })
]
driver_read o rtc_driver fd buf n s =
    (0, buf, record s { flags = record { sync = false; reading = false }; pic = o.ticked s.pic })
driver_read o terminal_driver fd buf n s =
    let (r, out, t) = read_line n buf (o.typed s.terminal) in (r, out, record s { terminal = t })
driver_read o null_driver fd buf n s = (minus_one, buf, crash s)

-- the `write` of a driver
unfoldable pub driver_write : Outside → Driver → (ℕ → ℕ) → ℕ → System → ℕ × System
driver_write o file_driver buf n s = (write_file, s)
driver_write o rtc_driver buf n s =
    let (r, p) = rtc_write o.inb (freq_at buf) s.pic in (r, record s { pic = p })
driver_write o terminal_driver buf n s =
    let (r, t) = terminal_write (some buf) n s.terminal in (r, record s { terminal = t })
driver_write o null_driver buf n s = (minus_one, crash s)

module _ (o : Outside) where
  -- What a dispatch comes to. Only a descriptor in range gets to a driver.
  unfoldable pub dispatch_read : Dispatch → ℕ → (ℕ → ℕ) → ℕ → System → ℕ × (ℕ → ℕ) × System
  unfolding driver_read
  dispatch_read fails fd buf n s = (minus_one, buf, looks_at fd s)
  dispatch_read (calls d) fd buf n s = driver_read o d fd buf n s

  unfoldable pub dispatch_write : Dispatch → ℕ → (ℕ → ℕ) → ℕ → System → ℕ × System
  unfolding driver_write
  dispatch_write fails fd buf n s = (minus_one, looks_at fd s)
  dispatch_write (calls d) fd buf n s = driver_write o d buf n s

  -- `read(fd, buf, n)`, `write(fd, buf, n)`, `open(name)` and `close(fd)`, with a buffer that is not NULL
  unfoldable pub read : ℕ → (ℕ → ℕ) → ℕ → System → ℕ × (ℕ → ℕ) × System
  unfolding dispatch_read
  read fd buf n s = dispatch_read (Syscall.read fd false s.pcb) fd buf n s

  unfoldable pub write : ℕ → (ℕ → ℕ) → ℕ → System → ℕ × System
  unfolding dispatch_write
  write fd buf n s = dispatch_write (Syscall.write fd false s.pcb s.pcb) fd buf n s

  unfoldable pub open_ : Bytes → System → ℕ × System
  open_ name s = elim (open_file o.img name s.dentry s.pcb) [
    | none ↦ (minus_one, crash s)
    | some (fd, e, pcb) ↦ (fd, record s { dentry = e; pcb = pcb })
  ]

  unfoldable pub close : ℕ → System → ℕ × System
  close fd s = elim (Syscall.close fd s.pcb) [
    | none ↦ (minus_one, crash s)
    | some (r, pcb) ↦ (r, looks_at fd (record s { pcb = pcb }))
  ]

  unfoldable pub getargs : (ℕ → ℕ) → ℕ → System → ℕ × (ℕ → ℕ) × System
  getargs buf n s =
      let (r, out) = Syscall.getargs o.beyond false buf n s.pcb in
      (r, out, record s { outside = true })

  unfoldable pub vidmap : ℕ → System → ℕ × System
  vidmap screen_start s =
      let (r, stored, g) = Syscall.vidmap screen_start s.pcb.program_id s.paging in
      (r, record s { paging = g })

  -- the calls as the programs cat and ls use them
  unfoldable pub kernel_calls : Calls System
  unfolding read write open_ getargs
  kernel_calls = record {
    getargs = λ n s. let (r, out, s1) = getargs (λ _. 0) n s in (r, first_bytes (n + 1) out, s1);
    open_ = open_;
    read = λ fd n s.
        let (r, out, s1) = read fd (λ _. 0) n s in
        (r, if r == minus_one then [] else first_bytes r out, s1);
    write = λ fd bytes s. write fd (λ k. get_or bytes k 0) (length bytes) s;
  }
