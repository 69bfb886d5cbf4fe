-- ===== src/User.antt =====
-- The programs cat and ls in syscalls/, with `ece391_fdputs` of syscalls/ece391support.c. The system calls
-- are an interface, on a state of the system that the programs do not see.
pub mod Buffers
pub mod Support
pub mod Copy
pub mod OnKernel
pub mod Cat
pub mod Shell
pub mod Syserr
use unix_like_os.Base.{
  ℕ, zero, suc, ◌+◌, ◌-◌, ◌*◌, ◌/◌, ◌%◌, ◌^◌, ◌<◌, ◌≤◌, min, ◌≡◌, ◌≢◌, ◌⊎◌, ◌↔◌, inl, inr, ap, ap₂,
  refl, sym, ◌∙◌, fun_ext, subst, Bool, true, false, Option, none, some, List, [], ◌∷◌, ◌++◌, map,
  reverse, append-nil, append_assoc, arith, Bytes, ◌==◌, ltb, leb, if◌then◌else◌, ◌>>=◌, add32,
  sub32, minus_one, slt, sext8, ◌||◌, ◌&&◌, not, Bool-cases, All, length, get_elem?, get_or, set,
  replicate, update, update_self, update-ne, length-append, length-set, get_elem?-eq-get_or,
  get_or-set_self, get_or-set_ne, get_or_ext, for_range, for_range_inv, for_range-update,
  bit_or-zero, bit_or_disjoint, all_below, all_below_sound, ==_iff, ==_refl, ==_ne, ltb-true,
  ltb-false,
}
use unix_like_os.Base.Strings.{chars}
use unix_like_os.Klib.Text.{strlen}

-- the system calls: what each returns, what it writes into the caller's buffer, and the state behind it
pub record Calls (W : Type 0) : Type 0 where
  pub getargs : ℕ → W → ℕ × Bytes × W
  pub open_ : Bytes → W → ℕ × W
  pub read : ℕ → ℕ → W → ℕ × Bytes × W
  pub write : ℕ → Bytes → W → ℕ × W

-- a buffer from `at` on, when a call has written bytes to it
abbrev pub fill : ℕ → Bytes → (ℕ → ℕ) → ℕ → ℕ
fill at bytes buf k =
    if leb at k && ltb k (at + length bytes) then get_or bytes (k - at) 0 else buf k

-- the first `n` bytes of a buffer
unfoldable pub first_bytes : ℕ → (ℕ → ℕ) → Bytes
first_bytes zero buf = []
first_bytes (suc n) buf = buf 0 ∷ first_bytes n (λ k. buf (k + 1))

abbrev pub read_size : ℕ
read_size = 1024

abbrev pub name_size : ℕ
name_size = 33

module _ {W : Type 0} (c : Calls W) where
  -- `ece391_fdputs` of a literal
  unfoldable pub fdputs : ℕ → Bytes → W → W
  fdputs fd s w = (c.write fd s w).1

  -- the loop of cat: how the program ends
  unfoldable pub cat_loop : ℕ → ℕ → (ℕ → ℕ) → W → Option (ℕ × W)
  unfolding fdputs first_bytes
  cat_loop zero fd buf w = none
  cat_loop (suc rounds) fd buf w =
      let (cnt, bytes, w1) = c.read fd read_size w in
      let buf1 = fill 0 bytes buf in
      let (r, w2) = c.write 1 (first_bytes cnt buf1) w1 in
      let rest = cat_loop rounds fd buf1 w2 in
      if cnt == 0
      then some (0, w1)
      else if cnt == minus_one
      then some (3, fdputs 1 (chars "file read failed\n") w1)
      else if r == minus_one
      then some (3, w2)
      else rest

  unfoldable pub cat : ℕ → (ℕ → ℕ) → W → Option (ℕ × W)
  unfolding cat_loop fdputs
  cat rounds buf w =
      let (r, args, w1) = c.getargs read_size w in
      let buf1 = fill 0 args buf in
      let (fd, w2) = c.open_ args w1 in
      if not (r == 0)
      then some (3, fdputs 1 (chars "could not read arguments\n") w1)
      else if fd == minus_one
      then some (2, fdputs 1 (chars "file not found\n") w2)
      else cat_loop rounds fd buf1 w2

  -- the loop of ls
  unfoldable pub ls_loop : ℕ → ℕ → (ℕ → ℕ) → W → Option (ℕ × W)
  unfolding fdputs first_bytes
  ls_loop zero fd buf w = none
  ls_loop (suc rounds) fd buf w =
      let (cnt, bytes, w1) = c.read fd (name_size - 1) w in
      let buf1 = update (fill 0 bytes buf) cnt 10 in
      let (r, w2) = c.write 1 (first_bytes (cnt + 1) buf1) w1 in
      let rest = ls_loop rounds fd buf1 w2 in
      if cnt == 0
      then some (0, w1)
      else if cnt == minus_one
      then some (3, fdputs 1 (chars "directory entry read failed\n") w1)
      else if r == minus_one
      then some (3, w2)
      else rest

  unfoldable pub ls : ℕ → (ℕ → ℕ) → W → Option (ℕ × W)
  unfolding ls_loop fdputs
  ls rounds buf w =
      let (fd, w1) = c.open_ (chars "." ++ (0 ∷ [])) w in
      if fd == minus_one
      then some (2, fdputs 1 (chars "directory open failed\n") w1)
      else ls_loop rounds fd buf w1
