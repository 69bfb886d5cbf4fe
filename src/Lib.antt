-- ===== src/Lib.antt =====
-- Verification of the kernel in student-distrib/, a small UNIX-like system for one processor with
-- three terminals, six processes, a read-only file system, a keyboard and a clock.
--
-- The parts and their files, with the source from the repository's root:
--   Base         shared words, bytes, arrays and loops
--   Klib         student-distrib/lib.c: Text has strlen and strncmp, Copy strcpy and strncpy,
--                Console putc, puts, clear, Number itoa and strrev, Format printf, Memory memset,
--                memcpy and memmove
--   Fs           student-distrib/filesystem.c: the image, fs_init, read_dentry_by_name, read_data;
--                Layout is about fs_init
--   Files        student-distrib/filesystem.c: open_file, close_file, read_file, read_dir,
--                read_data_one, on the descriptors of a process
--   Proc         student-distrib/pcb.c: blocks of processes, their start and end, free descriptors
--   Paging       student-distrib/paging.c: directories and tables, and how the processor reads them
--   Syscall      student-distrib/syscall.c: read, write, close, getargs, vidmap; Command has
--                check_command, Execute has execute and check_executable, Halt has halt and the
--                part of switch_terminal that changes the process, Screens the whole of
--                switch_terminal, Number the check of a call's number in syscall_asm.S
--   System       student-distrib/syscall.c: read, write, open, close, getargs and vidmap with the
--                driver behind each descriptor
--   Terminal     student-distrib/terminal.c, behind terminal_open, which sets terminal_ptr: cursor,
--                line buffer and screen of the terminals; Display, SameLine and Editing are about
--                what stands on the screen and in the line
--   Keyboard     student-distrib/keyboard.c: tables of keys, and the handler; Typing and Line are about
--                what a line of keys leaves in the buffer
--   Pic          student-distrib/i8259.c: the masks of the interrupt controllers
--   Rtc          student-distrib/rtc.c: the clock; Handshake has rtc_read against its interrupt
--   Pit          student-distrib/scheduler.c: the timer
--   Idt          student-distrib/idt.c: Gates is about idt_init, Exceptions has the handlers of the
--                exceptions
--   Boot         student-distrib/kernel.c: Segments has the descriptors, Report the printing of the
--                boot loader's information, Start the initialisation, the boot screen and entry
--   User         syscalls/ece391cat.c and syscalls/ece391ls.c, over an interface of system calls;
--                OnKernel and Cat run cat on the calls of System; Support has strcmp of
--                syscalls/ece391support.c, Shell syscalls/ece391shell.c, Syserr
--                syscalls/ece391syserr.c
--   Tests        concrete systems
--
-- The stacks of processes, one for each terminal, are in Syscall/Refine, on the chains of parents of
-- Proc/Chain; Syscall/Leave and Syscall/Return are about halt, alone and behind execute.
--
-- How they interact: entry prepares every part and executes the shell; the keyboard's handler edits
-- the line buffer of a terminal, which the system call read hands to a process; execute parses the
-- line, looks the program up in the file system, gives it a block, a kernel stack and a page
-- directory, and copies its file; halt closes the descriptors, frees the block and goes back to the
-- parent; switch_terminal swaps the screens and lets the top process of the other terminal run.
--
-- Conventions. A number is a natural number; a uint32_t or int32_t is its bit pattern, with the
-- wrap-around written out (add32, sub32, slt). An array is a function on indices, total as memory is;
-- a string of fixed size is a list of bytes. A pointer into pcbs is its index, a NULL current_pcb is
-- the index 7, a table of operations is a constructor of Ops. Globals are the fields of a record that
-- an operation takes and returns. `none` is a fault: a string without its NUL, a write behind a field,
-- a call through NULL. An access of the system calls outside of their arrays that does no more than
-- read or write behind a field is noted in `outside` of System. What inb reads is a function of the
-- port, what outb writes is a log.
--
-- Loops are recursion on their number of rounds, which the code fixes before they start, with these
-- exceptions: the two loops of read_data have as fuel the bytes they count and the blocks they
-- counted, and each byte or block takes one round; terminal_read has the 128 bytes of the line
-- buffer, at which the code stops too; get_top_pcb has the number of blocks as its fuel; itoa has
-- 33 rounds, for 32 binary digits and the end; strrev has the length of the text; the memory map
-- has its length in bytes, and each entry takes four or more. The wait of rtc_read is a step of a
-- relation.
--
-- Memory is bytes for the assembly of memset, memcpy and memmove, whose loops and string instructions
-- are followed on their registers. copy_file_image has the room on the kernel's stack for its array as
-- a parameter, and a larger file is a fault. Before terminal_open the pointer to the screen is NULL:
-- Boot/Report has the putch of that time. printf finds its arguments as words behind the format, and
-- a local
-- array that is not yet written as a parameter. The addresses of handlers, what the ports answer, and
-- what the user types at the boot are parameters. The loops of cat, ls and the shell have fuel, one round
-- for each read; that of the shell does not end by itself when nobody types "exit".
--
-- Not modelled: the assembly files (boot.S, x86_desc.S, and the entry points of interrupts and system
-- calls but for the check of a call's number), the other user programs in syscalls/, the emulation of
-- the system calls, and fish/. The printed messages of the system calls are left out. execute ends
-- where the new program starts, and halt where the execute of the parent goes on. The loads of the
-- task and descriptor registers have no effect on what is modelled. The file system is an
-- Image, which fs_init finds in memory. What keyboard_handler's call of halt does is not followed.
pub mod Base
pub mod Klib
pub mod Fs
pub mod Proc
pub mod Paging
pub mod Terminal
pub mod Files
pub mod Syscall
pub mod Pic
pub mod Rtc
pub mod Pit
pub mod Keyboard
pub mod Idt
pub mod Boot
pub mod System
pub mod User
pub mod Tests
