-- ===== src/Tests/Programs.antt =====
-- The theorems on the programs at concrete systems.
use unix_like_os.Base.{
  ℕ, ◌<◌, ◌≤◌, ◌≡◌, refl, false, some, [], ◌∷◌, ◌++◌, arith, ap, ◌∙◌, ◌⊎◌, update, update-ne,
  replicate,
}
use unix_like_os.Fs.{Dentry, read_dentry_by_name, scan_entries}
use unix_like_os.Klib.Text.{strncmp}
use unix_like_os.Syscall
use unix_like_os.Proc.{Descriptor, no_ops, is_null, std_file, stdin_ops, stdout_ops}
use unix_like_os.System.{Outside, System, kernel_calls}
use unix_like_os.Terminal.Display.{display, shown}
use unix_like_os.User.{cat, first_bytes}
use unix_like_os.User.Buffers.{file_from}
use unix_like_os.User.OnKernel.{IsFile}
use unix_like_os.User.Cat.{Ready, arguments, cat-shown}
use unix_like_os.User.Syserr.{all_tests}
use unix_like_os.User.Syserr.Passes.{Fresh, Passes}
use unix_like_os.User.Syserr.Whole.{HasNames, all_passed, all_tests-Passes}
use unix_like_os.Syscall.Number.{Named, refused, behind, syscall_handler, syscall_handler_lem}
use unix_like_os.Tests.Data.{
  no_file, a_process-FilesOk, disk, entry_a, name_a, zeroed, a_process, tables, screen,
}
use unix_like_os.Tests.Files.{contiguous}

abbrev pub board : Outside
board = record { img = disk; inb = zeroed; beyond = zeroed; typed = λ t. t; ticked = λ p. p }

-- a process that was started with the argument "a"
abbrev pub running : System
running = record {
  pcb = record a_process { cmd_args = name_a ++ replicate 96 0 };
  dentry = entry_a;
  terminal = screen;
  flags = record { sync = false; reading = false };
  pic = record { master_mask = 0; slave_mask = 0; outs = [] };
  paging = tables;
  down = false;
  outside = false;
}

running-Ready : Ready running
running-Ready = record {
  free = (2, omega arith, omega arith, refl);
  out_used = refl;
  out_ops = refl;
  up = refl;
}

disk-IsFile : IsFile disk 1
disk-IsFile = record {
  index = omega arith;
  fits = omega arith;
  contiguous = contiguous;
  size = omega arith;
  blocks = omega arith;
}

a_found : read_dentry_by_name disk (arguments board running) entry_a ≡ some (0, entry_a)
unfolding read_dentry_by_name scan_entries strncmp first_bytes Syscall.getargs
a_found = refl

cat-shown_example :
    (s1 : System) × (cat (kernel_calls board) 7000 zeroed running ≡ some (0, s1))
    × (s1.down ≡ false)
    × (display s1.terminal ≡ shown (file_from disk 1 0) (display screen))
cat-shown_example =
    cat-shown board running entry_a running-Ready a_found refl 7000 zeroed disk-IsFile (omega arith)

-- a directory with "." alone
abbrev entry_dot : Dentry
entry_dot = record { fname = 46 ∷ replicate 31 0; ftype = 1; inode = 0; reserved = replicate 24 0 }

abbrev dot_board : Outside
dot_board = record board { img = record disk { dir_entries = λ _. entry_dot } }

dot_names : HasNames dot_board.img entry_dot
unfolding read_dentry_by_name scan_entries strncmp
dot_names = record {
  is_dir = refl;
  has_dot = λ d. refl;
  no_helloo = λ d. refl;
  no_shel = λ d. refl;
  no_empty = λ d. refl;
}

-- the process has nothing open
running-Fresh : Fresh running
running-Fresh = record {
  files = record {
    input = a_process-FilesOk.input;
    output = a_process-FilesOk.output;
    in_use = a_process-FilesOk.in_use;
  };
  taken = λ k a b. absurd (omega arith);
  free = λ k a b. ap is_null (no_file_at k a);
}
  where
    no_file_at : (k : ℕ) → 2 ≤ k → (a_process.file_array k).ops ≡ no_ops
    no_file_at k a =
        ap (λ (d : Descriptor). d.ops)
          (update-ne (update (λ _. no_file) 0 (std_file stdin_ops)) 1 k (std_file stdout_ops)
              (λ z. omega (arith, z))
            ∙ update-ne (λ _. no_file) 0 k (std_file stdin_ops) (λ z. omega (arith, z)))

all_tests-Passes_example :
    Passes all_passed running (all_tests dot_board (λ f s. (0, s)) zeroed running)
all_tests-Passes_example =
    all_tests-Passes dot_board (λ f s. (0, s)) zeroed entry_dot running running-Fresh dot_names

syscall_handler_lem_example :
    (1 ≤ 9 → 9 ≤ 8 → Named 9)
    × ((◌≡◌ {A = ℕ} 9 0) ⊎ (10 < 9) → syscall_handler 9 ≡ refused)
    × (9 ≤ 9 → 9 ≤ 10 → syscall_handler 9 ≡ behind 8)
syscall_handler_lem_example = syscall_handler_lem 9 (omega arith)
