-- ===== src/User/Shell.antt =====
-- The program syscalls/ece391shell.c. What the system calls do, `execute` included, is an interface.
pub mod Buffer
pub mod Round
use unix_like_os.Base.{
  ℕ, zero, suc, ◌+◌, ◌-◌, ◌*◌, ◌/◌, ◌%◌, ◌^◌, ◌<◌, ◌≤◌, min, ◌≡◌, ◌≢◌, ◌⊎◌, ◌↔◌, inl, inr, ap, ap₂,
  refl, sym, ◌∙◌, fun_ext, subst, Bool, true, false, Option, none, some, List, [], ◌∷◌, ◌++◌, map,
  reverse, append-nil, append_assoc, arith, Bytes, ◌==◌, ltb, leb, if◌then◌else◌, ◌>>=◌, add32,
  sub32, minus_one, slt, sext8, ◌||◌, ◌&&◌, not, Bool-cases, All, length, get_elem?, get_or, set,
  replicate, update, update_self, update-ne, length-append, length-set, get_elem?-eq-get_or,
  get_or-set_self, get_or-set_ne, get_or_ext, for_range, for_range_inv, for_range-update,
  bit_or-zero, bit_or_disjoint, all_below, all_below_sound, ==_iff, ==_refl, ==_ne, ltb-true,
  ltb-false,
}
use unix_like_os.Base.Strings.{chars}
use unix_like_os.User.{Calls, fill, first_bytes, fdputs}
use unix_like_os.User.Support.{strcmp}

abbrev pub buf_size : ℕ
buf_size = 1024

-- the messages for the result of a command
unfoldable pub command_message : ℕ → Option Bytes
command_message rval =
    if rval == minus_one
    then some (chars "no such command\n")
    else if rval == 256
    then some (chars "program terminated by exception\n")
    else if not (rval == 0)
    then some (chars "program terminated abnormally\n")
    else none

-- the line without its end of line, closed by a NUL
unfoldable pub close_line : ℕ → (ℕ → ℕ) → ℕ → ℕ
close_line cnt buf = update buf (if slt 0 cnt && (buf (cnt - 1) == 10) then cnt - 1 else cnt) 0

module _ {W : Type 0} (c : Calls W) (execute : Bytes → W → ℕ × W) where
  unfoldable pub put_message : Option Bytes → W → W
  put_message none w = w
  put_message (some text) w = fdputs c 1 text w

  -- one command, when its line has been closed
  unfoldable pub run_line : Bytes → W → W
  unfolding put_message
  run_line line w = let (rval, w1) = execute line w in put_message (command_message rval) w1

  -- The loop of `main`, with the rounds left: how the shell ends. `none`: the rounds are used up, or the comparison
  -- with "exit" runs off the buffer.
  unfoldable pub shell_loop : ℕ → (ℕ → ℕ) → W → Option (ℕ × W)
  unfolding close_line run_line
  shell_loop zero buf w = none
  shell_loop (suc rounds) buf w =
      let w0 = fdputs c 1 (chars "391OS> ") w in
      let (cnt, bytes, w1) = c.read 0 (buf_size - 1) w0 in
      let buf1 = close_line cnt (fill 0 bytes buf) in
      let line = first_bytes buf_size buf1 in
      let skip = shell_loop rounds buf1 w1 in
      let rest = shell_loop rounds buf1 (run_line line w1) in
      if cnt == minus_one
      then some (3, fdputs c 1 (chars "read from keyboard failed\n") w1)
      else (strcmp line (chars "exit" ++ (0 ∷ [])) >>= λ r.
          if r == 0 then some (0, w1) else if buf1 0 == 0 then skip else rest)

  unfoldable pub shell : ℕ → (ℕ → ℕ) → W → Option (ℕ × W)
  unfolding shell_loop
  shell rounds buf w = shell_loop rounds buf (fdputs c 1 (chars "Starting 391 Shell\n") w)
