-- ===== src/User/OnKernel.antt =====
-- The loop of syscalls/ece391cat.c on the system calls of the kernel: the lawful calls of User.Copy are those of
-- student-distrib/syscall.c, filesystem.c and terminal.c.
use unix_like_os.Base.{
  ℕ, ◌+◌, ◌-◌, ◌*◌, ◌^◌, ◌<◌, ◌≤◌, min, ◌≡◌, ◌≢◌, ap, refl, sym, ◌∙◌, subst, false, some, [], ◌++◌,
  arith, Bytes, ◌==◌, minus_one, length, get_or, ==_ne,
}
use unix_like_os.Fs.{Image, file_length, data_block, file_byte}
use unix_like_os.User.Buffers.{
  file_from, file_from-read, file_from-end, first_bytes-agree, length-first_bytes,
}
use unix_like_os.Proc.{Pcb, file_ops, stdout_ops}
use unix_like_os.Files.{inode_address, read_file, read_data_one}
use unix_like_os.Files.Read.{IsContiguous, read_data_one-contiguous}
use unix_like_os.Terminal.{terminal_write}
use unix_like_os.Terminal.Display.{display, shown, shown-nil, shown-append, terminal_write-shown}
use unix_like_os.Syscall
use unix_like_os.Syscall.{calls, file_driver, terminal_driver}
use unix_like_os.System.{
  Outside, System, read, write, kernel_calls, dispatch_read, dispatch_write, driver_read,
  driver_write,
}
use unix_like_os.User.{first_bytes, read_size, cat_loop}
use unix_like_os.User.Copy.{Lawful, cat_loop_copies}

-- A regular file whose blocks lie one behind the other, and whose inode the kernel can point to.
pub record IsFile (img : Image) (inode : ℕ) : Type 0 where
  pub index : inode < 2 ^ 18
  pub fits : img.fs_start + 4096 * (inode + 1) < 2 ^ 32
  pub contiguous : IsContiguous img inode
  pub size : file_length img inode ≤ 4096 * 1023
  pub blocks : data_block img inode 0 < 2 ^ 31

-- The process has the file open as `fd`, and the screen as 1.
pub record Reading (img : Image) (inode fd : ℕ) (s : System) : Type 0 where
  pub used : (s.pcb.file_array fd).flags ≡ 1
  pub ops : (s.pcb.file_array fd).ops ≡ file_ops
  pub inode_ptr : (s.pcb.file_array fd).inode_ptr ≡ inode_address img inode
  pub within : (s.pcb.file_array fd).file_position ≤ file_length img inode
  pub out_used : (s.pcb.file_array 1).flags ≡ 1
  pub out_ops : (s.pcb.file_array 1).ops ≡ stdout_ops
  pub up : s.down ≡ false

-- what the descriptor has still to give
unfoldable pub unread : Image → ℕ → ℕ → System → Bytes
unfolding file_from
unread img inode fd s = file_from img inode (s.pcb.file_array fd).file_position

module _ (o : Outside) (inode fd : ℕ) (file : IsFile o.img inode) (lo : 2 ≤ fd) (hi : fd < 8) where
  abbrev got : ℕ → (ℕ → ℕ) → System → ℕ × Pcb × (ℕ → ℕ)
  got n buf s = read_data_one o.img fd n buf s.pcb

  read_dispatch :
      (s : System) → Reading o.img inode fd s → Syscall.read fd false s.pcb ≡ calls file_driver
  unfolding Syscall.read Syscall.readptr
  read_dispatch s h = ground (arith, h.used, h.ops)

  write_dispatch :
      (s : System)
      → Reading o.img inode fd s
      → Syscall.write 1 false s.pcb s.pcb ≡ calls terminal_driver
  unfolding Syscall.write Syscall.writeptr
  write_dispatch s h = ground (arith, h.out_used, h.out_ops)

  read_file-file :
      (n : ℕ) (buf : ℕ → ℕ) (s : System)
      → Reading o.img inode fd s
      → read_file o.img fd n buf s.pcb ≡ some (got n buf s)
  unfolding read_file inode_address
  read_file-file n buf s h =
      let regular : ((s.pcb.file_array fd).inode_ptr == 0) ≡ false =
        ==_ne _ 0 (λ e. omega (arith, e, h.inode_ptr, file.fits)) in
      rw regular refl

  -- The `read` of the kernel comes to `read_data_one`.
  read-file :
      (n : ℕ) (buf : ℕ → ℕ) (s : System)
      → Reading o.img inode fd s
      → read o fd buf n s ≡ ((got n buf s).0, (got n buf s).2, record s { pcb = (got n buf s).1 })
  unfolding read dispatch_read driver_read
  read-file n buf s h =
      rw (read_dispatch s h) (rw (dispatch_read, driver_read, read_file-file n buf s h) refl)

  -- What it gives is what `read_data_one` copies.
  copied :
      (n : ℕ) (buf : ℕ → ℕ) (s : System)
      → Reading o.img inode fd s
      → let (r, pcb', out) = got n buf s in
        let pos = (s.pcb.file_array fd).file_position in
        (r ≡ min n (file_length o.img inode - pos))
        × ((k : ℕ) → k < r → out k ≡ file_byte o.img inode (pos + k))
        × ((k : ℕ) → r ≤ k → out k ≡ buf k)
        × (pcb'.file_array fd ≡ record (s.pcb.file_array fd) { file_position = pos + r })
        × ((j : ℕ) → j ≢ fd → pcb'.file_array j ≡ s.pcb.file_array j)
  copied n buf s h =
      read_data_one-contiguous o.img inode fd n buf s.pcb file.index (omega (arith, file.fits))
        file.contiguous file.size file.blocks h.inode_ptr

  read-Reading :
      (n : ℕ) (s : System)
      → Reading o.img inode fd s
      → Reading o.img inode fd (read o fd (λ _. 0) n s).2
  read-Reading n s h =
      let (count, new, old, same, others) = copied n (λ _. 0) s h in
      let out = others 1 (λ e. omega (arith, e, lo)) in
      rw (read-file n (λ _. 0) s h) (record {
        used = rw same h.used;
        ops = rw same h.ops;
        inode_ptr = rw same h.inode_ptr;
        within = rw same (omega (arith, count, h.within));
        out_used = rw out h.out_used;
        out_ops = rw out h.out_ops;
        up = h.up;
      })

  abbrev after : System → System
  after s = record s { pcb = (got read_size (λ _. 0) s).1 }

  abbrev given : System → Bytes
  given s = first_bytes (got read_size (λ _. 0) s).0 (got read_size (λ _. 0) s).2

  kernel_read :
      (s : System)
      → Reading o.img inode fd s
      → (kernel_calls o).read fd read_size s ≡ ((got read_size (λ _. 0) s).0, given s, after s)
  unfolding kernel_calls
  kernel_read s h =
      let count = (copied read_size (λ _. 0) s h).0 in
      let ok : ((got read_size (λ _. 0) s).0 == minus_one) ≡ false =
        ==_ne _ minus_one (λ e. omega (arith, e, count)) in
      rw (read-file read_size (λ _. 0) s h, ok) refl

  after-Reading : (s : System) → Reading o.img inode fd s → Reading o.img inode fd (after s)
  after-Reading s h =
      subst (λ (r : ℕ × (ℕ → ℕ) × System). Reading o.img inode fd r.2)
        (read-file read_size (λ _. 0) s h) (read-Reading read_size s h)

  -- A read gives the next bytes of the file.
  unread-read :
      (s : System)
      → Reading o.img inode fd s
      → unread o.img inode fd s ≡ given s ++ unread o.img inode fd (after s)
  unfolding unread
  unread-read s h =
      let (count, new, old, same, others) = copied read_size (λ _. 0) s h in
      let (r, pcb', out) = got read_size (λ _. 0) s in
      let pos = (s.pcb.file_array fd).file_position in
      file_from-read o.img inode pos r out (omega (arith, count)) new
      ∙ ap (λ d. first_bytes r out ++ file_from o.img inode d.file_position) (sym same)

  -- A write puts the bytes on the screen.
  kernel_write :
      (bytes : Bytes) (s : System)
      → Reading o.img inode fd s
      → (kernel_calls o).write 1 bytes s ≡ (
        (terminal_write (some (λ k. get_or bytes k 0)) (length bytes) s.terminal).0,
        record s {
          terminal = (terminal_write (some (λ k. get_or bytes k 0)) (length bytes) s.terminal).1;
        },
      )
  unfolding kernel_calls write dispatch_write driver_write
  kernel_write bytes s h = rw (write_dispatch s h) refl

  at_end :
      (s : System)
      → Reading o.img inode fd s
      → ((kernel_calls o).read fd read_size s).0 ≡ 0
      → unread o.img inode fd s ≡ []
  unfolding unread
  at_end s h e =
      let none_read = ap (λ (r : ℕ × Bytes × System). r.0) (sym (kernel_read s h)) ∙ e in
      file_from-end o.img inode (s.pcb.file_array fd).file_position
        (omega (arith, none_read, (copied read_size (λ _. 0) s h).0))

  -- A write returns the number of its bytes, and shows them.
  written :
      (bytes : Bytes) (s : System)
      → length bytes ≤ read_size
      → Reading o.img inode fd s
      → let (r, s') = (kernel_calls o).write 1 bytes s in
        (r ≡ length bytes)
        × (display s'.terminal ≡ shown bytes (display s.terminal))
        × Reading o.img inode fd s'
        × (unread o.img inode fd s' ≡ unread o.img inode fd s)
  unfolding unread
  written bytes s le h =
      let buf = λ (k : ℕ). get_or bytes k 0 in
      let (r, seen) = terminal_write-shown buf (length bytes) s.terminal (omega arith) in
      rw (kernel_write bytes s h) (
        r,
        seen ∙ ap (λ b. shown b (display s.terminal)) (first_bytes-agree bytes buf (λ k lt. refl)),
        record {
          used = h.used;
          ops = h.ops;
          inode_ptr = h.inode_ptr;
          within = h.within;
          out_used = h.out_used;
          out_ops = h.out_ops;
          up = h.up;
        },
        refl,
      )

  -- The calls of the kernel do what cat expects of them.
  kernel_calls-Lawful :
      Lawful
        (kernel_calls o)
        fd
        (Reading o.img inode fd)
        (unread o.img inode fd)
        (λ s. display s.terminal)
        shown
  kernel_calls-Lawful = record {
    read_good = λ s h. rw (kernel_read s h) (after-Reading s h);
    read_count = λ s h. rw (kernel_read s h) (sym (length-first_bytes _ _));
    read_size_ok = λ s h. rw (kernel_read s h) (omega (arith, (copied read_size (λ _. 0) s h).0));
    read_left = λ s h. rw (kernel_read s h) (unread-read s h);
    read_end = at_end;
    read_screen = λ s h. rw (kernel_read s h) refl;
    write_good = λ bytes s le h. (written bytes s le h).2;
    write_ok = λ bytes s le h e. omega (arith, e, le, (written bytes s le h).0);
    write_screen = λ bytes s le h. (written bytes s le h).1;
    write_left = λ bytes s le h. (written bytes s le h).3;
    shows_none = shown-nil;
    shows_append = shown-append;
  }

  -- The loop of cat on the kernel, for a file whose blocks lie one behind the other and that is open as `fd`, with
  -- the screen as 1: it ends with the status 0 after fewer rounds than there are bytes left in the file and one more,
  -- no call goes through NULL and no driver faults, and cursor, colour and every cell of
  -- the screen are as if `putch` had been called for each byte that was left, in order.
  pub cat_loop-shown :
      (rounds : ℕ) (buf : ℕ → ℕ) (s : System)
      → Reading o.img inode fd s
      → file_length o.img inode < rounds
      → (s1 : System) × (cat_loop (kernel_calls o) rounds fd buf s ≡ some (0, s1))
        × (s1.down ≡ false)
        × (display s1.terminal
            ≡ shown
                (file_from o.img inode (s.pcb.file_array fd).file_position)
                (display s.terminal))
  unfolding unread file_from
  cat_loop-shown rounds buf s h enough =
      let pos = (s.pcb.file_array fd).file_position in
      let (s1, ended, good, seen) =
        cat_loop_copies (kernel_calls o) fd (Reading o.img inode fd) (unread o.img inode fd)
          (λ s. display s.terminal) shown kernel_calls-Lawful rounds buf s h
          (omega (
            arith,
            enough,
            length-first_bytes (file_length o.img inode - pos)
                (λ k. file_byte o.img inode (pos + k)),
          )) in
      (s1, ended, good.up, seen)
