-- ===== src/System/Open.antt =====
-- `open` and `close` of a system, by what the process comes to.
use unix_like_os.Base.{ℕ, ◌<◌, ◌≡◌, ap, refl, true, false, some, arith, Bytes, leb, if◌then◌else◌}
use unix_like_os.Fs.{Dentry}
use unix_like_os.Proc.{Pcb}
use unix_like_os.Files.{open_file}
use unix_like_os.Syscall
use unix_like_os.System.{Outside, System, looks_at, open_, close}

-- A descriptor in range is read inside of `file_array`.
pub looks_at-in_range : (fd : ℕ) (s : System) → fd < 8 → looks_at fd s ≡ s
looks_at-in_range fd s h =
    let inside : leb 8 fd ≡ false = ground (arith, h) in
    ap (λ b. record s { outside = if b then true else s.outside }) inside

module _ (o : Outside) (s : System) where
  pub open_-some :
      (name : Bytes) (fd : ℕ) (e : Dentry) (pcb : Pcb)
      → open_file o.img name s.dentry s.pcb ≡ some (fd, e, pcb)
      → open_ o name s ≡ (fd, record s { dentry = e; pcb = pcb })
  unfolding open_
  open_-some name fd e pcb h = rw (open_, h) refl

  pub close-some :
      (fd r : ℕ) (pcb : Pcb)
      → fd < 8
      → Syscall.close fd s.pcb ≡ some (r, pcb)
      → close o fd s ≡ (r, record s { pcb = pcb })
  unfolding close
  close-some fd r pcb lt h =
      rw (close, h) (ap (λ t. (r, t)) (looks_at-in_range fd (record s { pcb = pcb }) lt))
