-- ===== src/User/Cat.antt =====
-- The whole of syscalls/ece391cat.c on the system calls of the kernel.
use unix_like_os.Base.{
  ℕ, ◌<◌, ◌≤◌, ◌≡◌, ◌≢◌, inl, inr, ap, ap₂, refl, ◌∙◌, true, false, some, arith, Bytes, ◌==◌,
  minus_one, ==_ne,
}
use unix_like_os.Fs.{Image, Dentry, file_length, read_dentry_by_name}
use unix_like_os.Proc.{Descriptor, file_ops, stdout_ops}
use unix_like_os.Proc.Free.{free_fd}
use unix_like_os.Files.{inode_address, opened}
use unix_like_os.Files.Open.{open_file_lem}
use unix_like_os.Terminal.Display.{display, shown}
use unix_like_os.Syscall
use unix_like_os.System.{Outside, System, open_, kernel_calls}
use unix_like_os.System
use unix_like_os.System.Open.{open_-some}
use unix_like_os.User.{Calls, first_bytes, fill, cat, cat_loop}
use unix_like_os.User.Buffers.{file_from}
use unix_like_os.User.OnKernel.{IsFile, Reading, cat_loop-shown}

-- The program may open a file and write to the screen.
pub record Ready (s : System) : Type 0 where
  pub free : (k : ℕ) × (2 ≤ k) × (k < 8) × (free_fd s.pcb.file_array k ≡ true)
  pub out_used : (s.pcb.file_array 1).flags ≡ 1
  pub out_ops : (s.pcb.file_array 1).ops ≡ stdout_ops
  pub up : s.down ≡ false

-- the arguments, as `getargs` gives them to cat
abbrev pub arguments : Outside → System → Bytes
arguments o s = first_bytes 1025 (Syscall.getargs o.beyond false (λ _. 0) 1024 s.pcb).1

opened_regular :
    (img : Image) (e : Dentry) (d : Descriptor)
    → e.ftype ≡ 2
    → opened img e d ≡ record {
      ops = file_ops;
      inode_ptr = inode_address img e.inode;
      file_position = 0;
      flags = 1;
    }
unfolding opened
opened_regular img e d h = rw h refl

-- what `getargs` and `open` are in the calls of the kernel
kernel_getargs :
    (o : Outside) (s : System)
    → (kernel_calls o).getargs 1024 s ≡ (0, arguments o s, record s { outside = true })
unfolding kernel_calls System.getargs Syscall.getargs
kernel_getargs o s = refl

kernel_open :
    (o : Outside) (name : Bytes) (s : System) → (kernel_calls o).open_ name s ≡ open_ o name s
unfolding kernel_calls
kernel_open o name s = refl

-- cat with its arguments and its file at hand is its loop.
cat_opened :
    {W : Type 0} (c : Calls W) (rounds : ℕ) (buf : ℕ → ℕ) (w w1 w2 : W) (args : Bytes) (fd : ℕ)
    → c.getargs 1024 w ≡ (0, args, w1)
    → c.open_ args w1 ≡ (fd, w2)
    → fd ≢ minus_one
    → cat c rounds buf w ≡ cat_loop c rounds fd (fill 0 args buf) w2
unfolding cat
cat_opened c rounds buf w w1 w2 args fd got opens ok =
    let good : (fd == minus_one) ≡ false = ==_ne fd minus_one ok in rw (got, opens, good) refl

module _ (o : Outside) (s : System) (e : Dentry) (ready : Ready s)
    (found : read_dentry_by_name o.img (arguments o s) s.dentry ≡ some (0, e))
    (regular : e.ftype ≡ 2) where
  -- Opening the file gives a descriptor to read it from the start.
  open-Reading :
      (fd : ℕ) × (s1 : System) × (open_ o (arguments o s) s ≡ (fd, s1))
      × (2 ≤ fd)
      × (fd < 8)
      × Reading o.img e.inode fd s1
      × ((s1.pcb.file_array fd).file_position ≡ 0)
      × (s1.terminal ≡ s.terminal)
  open-Reading =
      elim (open_file_lem o.img (arguments o s) s.dentry e s.pcb found (omega (arith, regular))) [
        | inr (none_left, fails) ↦
            let (k, lo, hi, free) = ready.free in cc (none_left k lo hi, free)
        | inl (fd, pcb', lo, hi, free, before, done, taken, made, flags, pos, others) ↦
            let d = made ∙ opened_regular o.img e (s.pcb.file_array fd) regular in
            let out = others 1 (λ z. omega (arith, z, lo)) in
            (
              fd,
              record s { dentry = e; pcb = pcb' },
              open_-some o s (arguments o s) fd e pcb' done,
              lo,
              hi,
              record {
                used = flags;
                ops = ap (λ (x : Descriptor). x.ops) d;
                inode_ptr = ap (λ (x : Descriptor). x.inode_ptr) d;
                within = omega (arith, pos);
                out_used = rw out ready.out_used;
                out_ops = rw out ready.out_ops;
                up = ready.up;
              },
              pos,
              refl,
            )
      ]

module _ (o : Outside) (s : System) (e : Dentry) (ready : Ready s)
    (found : read_dentry_by_name o.img (arguments o s) s.dentry ≡ some (0, e))
    (regular : e.ftype ≡ 2) where
  -- The program cat, given the name of a regular file whose blocks lie one behind the other, with a descriptor free and
  -- the standard output in place, and in more rounds than the file has bytes: it ends with the status 0, no call goes
  -- through NULL and no driver faults, and cursor, colour and every cell of the screen are as if `putch` had been called
  -- for each byte of the file, in order. That `getargs` goes behind its arrays, which is noted, is not ruled out.
  pub cat-shown :
      (rounds : ℕ) (buf : ℕ → ℕ)
      → IsFile o.img e.inode
      → file_length o.img e.inode < rounds
      → (s1 : System) × (cat (kernel_calls o) rounds buf s ≡ some (0, s1))
        × (s1.down ≡ false)
        × (display s1.terminal ≡ shown (file_from o.img e.inode 0) (display s.terminal))
  cat-shown rounds buf file enough =
      let s0 : System = record s { outside = true } in
      let ready0 : Ready s0 = record {
        free = ready.free;
        out_used = ready.out_used;
        out_ops = ready.out_ops;
        up = ready.up;
      } in
      let (fd, s1, opens, lo, hi, reading, pos, same) = open-Reading o s0 e ready0 found regular in
      let (s2, ended, up, seen) =
        cat_loop-shown o e.inode fd file lo hi rounds (fill 0 (arguments o s) buf) s1 reading
          enough in
      (
        s2,
        cat_opened (kernel_calls o) rounds buf s s0 s1 (arguments o s) fd (kernel_getargs o s)
              (kernel_open o (arguments o s) s0 ∙ opens) (λ z. omega (arith, z, hi))
            ∙ ended,
        up,
        seen ∙ ap₂ (λ p t. shown (file_from o.img e.inode p) (display t)) pos same,
      )
