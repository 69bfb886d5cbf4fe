-- ===== src/Tests/Kernel.antt =====
-- The theorems on processes, programs and pages at concrete systems.
use unix_like_os.Base.{
  ℕ, ◌+◌, ◌-◌, ◌*◌, ◌^◌, ◌<◌, ◌≤◌, ◌≡◌, ◌≢◌, ◌⊎◌, refl, none, some, [], ◌∷◌, arith, Bytes,
  minus_one, replicate,
}
use unix_like_os.Fs.{read_dentry_by_name, read_data, file_byte, copy_to, scan_entries}
use unix_like_os.Klib.Text.{strncmp}
use unix_like_os.Proc.{Procs, find_free_pcb, get_kernel_stack_ptr, pcb_destroy}
use unix_like_os.Proc.Inv.{Live, IsValid}
use unix_like_os.Proc.Destroy.{pcb_destroy-IsValid}
use unix_like_os.Paging.{new_task_pd, translate}
use unix_like_os.Paging.Task.{translate-new_task_pd, new_task_pd_isolates}
use unix_like_os.Syscall.Command.{check_command}
use unix_like_os.Syscall.Execute.{
  returns, enters, image_start, check_executable, copy_file_image, start_process, execute,
}
use unix_like_os.Syscall.Tree.{start_process-IsValid}
use unix_like_os.Syscall.Run.{Restored, bad_line, execute_refuses}
use unix_like_os.Syscall.Enter.{execute_enters}
use unix_like_os.Syscall.Loader.{check_executable_lem, copy_file_image_lem}
use unix_like_os.Syscall.Screens.{SwitchedTo, switch_terminal, switch_terminal_lem}
use unix_like_os.Tests.Data.{
  disk, entry_a, name_a, one_shell, one_shell-IsValid, first_is, tables, zeroed, machine, screen,
  screen-InScreen,
}

found_a : read_dentry_by_name disk name_a entry_a ≡ some (0, entry_a)
unfolding read_dentry_by_name scan_entries strncmp
found_a = refl

execute_refuses_example :
    (r : Procs) × (execute 0 machine none one_shell tables zeroed
      ≡ some (returns minus_one r tables))
    × Restored 0 (find_free_pcb one_shell) one_shell r
unfolding check_command
execute_refuses_example =
    execute_refuses 0 machine none one_shell tables zeroed one_shell-IsValid (omega arith)
      (omega arith) (bad_line refl)

-- the name as `check_command` leaves it
abbrev pub long_a : Bytes
long_a = 97 ∷ replicate 127 0

long_found : read_dentry_by_name disk long_a entry_a ≡ some (0, entry_a)
unfolding read_dentry_by_name scan_entries strncmp
long_found = refl

abbrev pub loaded : ℕ → ℕ
loaded = copy_to zeroed image_start (read_data disk 1 0 zeroed 6000).1 6000

pub parsed_a :
    check_command (some (97 ∷ 0 ∷ [])) (replicate 128 0) (replicate 128 0)
    ≡ some (0, long_a, replicate 128 0)
unfolding check_command
parsed_a = refl

pub accepted_a : check_executable disk entry_a zeroed long_a ≡ some (0, some 0x8048000)
accepted_a = check_executable_lem disk entry_a entry_a zeroed long_a long_found (omega arith)

pub loaded_a : copy_file_image disk entry_a zeroed 7000 long_a zeroed ≡ some loaded
unfolding copy_file_image
loaded_a = rw long_found refl

execute_enters_example :
    (q : Procs) × (execute 0 machine (some (97 ∷ 0 ∷ [])) one_shell tables zeroed
      ≡ some (
          enters 0x8048000
            (get_kernel_stack_ptr (find_free_pcb one_shell))
            q
            (new_task_pd (find_free_pcb one_shell - 1) tables).1
            loaded))
    × IsValid 0 q
    × (q.current ≡ find_free_pcb one_shell)
    × ((q.pcbs (find_free_pcb one_shell)).program_id ≡ find_free_pcb one_shell)
    × ((q.pcbs (find_free_pcb one_shell)).parent_id ≡ 1)
    × ((q.pcbs (find_free_pcb one_shell)).cmd_args ≡ replicate 128 0)
unfolding find_free_pcb
execute_enters_example =
    execute_enters 0 machine (some (97 ∷ 0 ∷ [])) one_shell tables zeroed loaded long_a
      (replicate 128 0) 0x8048000 one_shell-IsValid (omega arith) parsed_a accepted_a loaded_a

start_process-IsValid_example :
    (n : ℕ) × (q : Procs) × (start_process 0 one_shell ≡ some (n, q))
    × ((one_shell.pcbs n).program_id ≡ 0)
    × IsValid 0 q
    × Live q n
    × (q.current ≡ n)
    × ((q.pcbs n).parent_id ≡ 1)
start_process-IsValid_example = start_process-IsValid 0 one_shell one_shell-IsValid (omega arith)

pcb_destroy-IsValid_example : IsValid 0 (pcb_destroy 0 1 one_shell)
pcb_destroy-IsValid_example = pcb_destroy-IsValid 0 one_shell one_shell-IsValid first_is

new_task_pd_isolates_example :
    let h = (new_task_pd 1 (new_task_pd 0 tables).1).1 in
    (translate (record h { cr3 = 0 }) 0x8048000 ≡ some 0x848000)
    × (translate h 0x8048000 ≡ some 0xC48000)
    × (translate (record h { cr3 = 0 }) 0x8048000 ≢ translate h 0x8048000)
new_task_pd_isolates_example =
    new_task_pd_isolates 0 1 tables 0x8048000 0x8048000 (omega arith) (omega arith) (omega arith)
      (omega arith) (omega arith) (omega arith) (omega arith)

translate-new_task_pd_example :
    let (s, h) = new_task_pd 2 tables in
    (s ≡ 0)
    × ((v : ℕ)
        → 0x8000000 ≤ v
        → v < 0x8400000
        → translate h v ≡ some (0x800000 + 2 * 0x400000 + (v - 0x8000000)))
    × ((v : ℕ) → 0x400000 ≤ v → v < 0x800000 → translate h v ≡ some v)
    × ((v : ℕ)
        → 0x800000 ≤ v
        → v < 2 ^ 32
        → (v < 0x8000000) ⊎ (0x8400000 ≤ v)
        → translate h v ≡ none)
translate-new_task_pd_example = translate-new_task_pd 2 tables (omega arith)

copy_file_image_lem_example :
    (mem : ℕ → ℕ) × (copy_file_image disk entry_a zeroed 7000 name_a zeroed ≡ some mem)
    × ((k : ℕ) → k < 6000 → mem (image_start + k) ≡ file_byte disk 1 k)
    × ((a : ℕ) → (a < image_start) ⊎ (image_start + 6000 ≤ a) → mem a ≡ 0)
copy_file_image_lem_example =
    copy_file_image_lem disk entry_a entry_a zeroed name_a found_a 7000 zeroed (omega arith)
      (omega arith) (omega arith)

switch_terminal_lem_example :
    let r = switch_terminal 1 machine screen one_shell tables zeroed in
    ((◌≡◌ {A = ℕ} 1 0) → r ≡ some (screen, none))
    × ((◌≢◌ {A = ℕ} 1 0) → SwitchedTo 1 machine screen one_shell tables zeroed r)
switch_terminal_lem_example =
    switch_terminal_lem 1 machine screen one_shell tables zeroed screen-InScreen one_shell-IsValid
      (omega arith)
