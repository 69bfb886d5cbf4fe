-- ===== src/User/Shell/Round.antt =====
-- A round of the shell of syscalls/ece391shell.c, for a line that is typed.
use unix_like_os.Base.{ℕ, ◌+◌, ◌≡◌, ◌≢◌, Option, some, [], ◌∷◌, ◌++◌, Bytes, length}
use unix_like_os.Base.Strings.{chars}
use unix_like_os.User.{Calls, first_bytes, fdputs}
use unix_like_os.User.Shell.{run_line}
use unix_like_os.User.Shell.Buffer.{IsLine, IsCommand, closed}

abbrev pub exit_line : Bytes
exit_line = chars "exit"

module _ {W : Type 0} (c : Calls W) (execute : Bytes → W → ℕ × W) (rounds : ℕ) (buf : ℕ → ℕ)
    (w w1 : W) (l : Bytes) (ok : IsLine l)
    (typed : c.read 0 1023 (fdputs c 1 (chars "391OS> ") w)
      ≡ (length l + 1, l ++ (10 ∷ []), w1)) where
  -- what the buffer holds when the line is closed
  abbrev command : Bytes
  command = first_bytes 1024 (closed l buf)

  -- What a round of the shell comes to, `rest` being the rounds that follow.
  pub record Answered (rest : W → Option (ℕ × W)) (r : Option (ℕ × W)) : Type 0 where
    pub ends : l ≡ exit_line → r ≡ some (0, w1)
    pub skips : l ≡ [] → r ≡ rest w1
    pub runs : l ≢ exit_line → l ≢ [] → r ≡ rest (run_line c execute command w1)
    pub is_command : IsCommand l command
