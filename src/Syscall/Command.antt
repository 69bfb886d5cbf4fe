-- ===== src/Syscall/Command.antt =====
-- `check_command` of student-distrib/syscall.c: a command line is cut into the name of a program and
-- its arguments. A write past the 128 bytes of a field is the fault `none`, and so is a line with no NUL.
use unix_like_os.Base.{
  ℕ, ◌+◌, Bool, false, Option, none, some, [], ◌∷◌, Bytes, ◌==◌, if◌then◌else◌, ◌>>=◌, minus_one,
  ◌||◌,
}
use unix_like_os.Klib.Text.{store}

abbrev pub space : ℕ
space = 32

-- the first loop: what is left of the line, the index, and the name so far
unfoldable pub copy_name : Bytes → ℕ → Bytes → Option (Bytes × ℕ × Bytes)
unfolding store
copy_name [] i name = none
copy_name (c ∷ cs) i name =
    if (c == space) || (c == 0)
    then some (c ∷ cs, i, name)
    else (store name i c >>= λ name'. copy_name cs (i + 1) name')

unfoldable pub skip_spaces : Bytes → Option Bytes
skip_spaces [] = none
skip_spaces (c ∷ cs) = if c == space then skip_spaces cs else some (c ∷ cs)

-- the last loop, and the NUL behind it
unfoldable pub copy_args : Bytes → ℕ → Bytes → Option Bytes
unfolding store
copy_args [] j args = none
copy_args (c ∷ cs) j args =
    if c == 0 then store args j 0 else (store args j c >>= λ args'. copy_args cs (j + 1) args')

-- whether the line is refused at once: its first character is a space
abbrev pub leading_space : Bytes → Bool
leading_space [] = false
leading_space (c ∷ cs) = c == space

-- `check_command`: the status, and the two fields after the call; a NULL line is `none`
unfoldable pub check_command : Option Bytes → Bytes → Bytes → Option (ℕ × Bytes × Bytes)
unfolding copy_name skip_spaces copy_args
check_command none name args = some (minus_one, name, args)
check_command (some command) name args =
    if leading_space command
    then some (minus_one, name, args)
    else (copy_name command 0 name >>= λ (rest, i, name1). store name1 i 0 >>= λ name2.
        skip_spaces rest >>= λ rest'. copy_args rest' 0 args >>= λ args'. some (0, name2, args'))
