-- ===== src/Tests/Shell.antt =====
-- A round of the shell on the calls of the kernel.
use unix_like_os.Base.{ℕ, [], ◌∷◌, Bytes, minus_one, get_or}
use unix_like_os.Terminal.{Terminal}
use unix_like_os.System.{Outside, System, kernel_calls}
use unix_like_os.User.{Calls, fdputs}
use unix_like_os.Base.Strings.{chars}
use unix_like_os.Tests.Programs.{board, running}

-- "ls" and the end of line are in the buffer when enter has been pressed
abbrev ls_board : Outside
ls_board = record board {
  typed = λ t. record t {
    terminal_buffer = λ _ k. get_or (108 ∷ 115 ∷ 10 ∷ []) k 0;
    buffer_len = λ _. 3;
  };
}

-- no program is found
abbrev not_found : Bytes → System → ℕ × System
not_found line s = (minus_one, s)

abbrev prompted : System
prompted = fdputs (kernel_calls ls_board) 1 (chars "391OS> ") running
