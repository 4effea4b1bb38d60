-- ===== src/Lib.antt =====
-- IAAA-OS, a small operating system for x86 with three terminals: its kernel in student-distrib.
--
-- The parts and their files. A function of the source has the name that it has there, with its
-- underscores.
-- Base: the Boolean tests, wrapped words, small integers and memory (a buffer is a function from
--   the offset to the byte) that the other files share.
-- Str, Memcpy, Memset, Memmove: the string functions, `itoa` and the memory functions of
--   student-distrib/lib.c. Printf: its `printf`, with the words on the stack as an argument.
-- FileSystem: student-distrib/fileSystem.c, the image in memory and its directory and files.
-- Kernel: the state of student-distrib/system_calls.c, with the process control blocks in a memory
--   that is read by address, as `get_pcb_process` computes it.
-- Files: `open`, `close` and the reads of directories and files on the descriptors of the running
--   program.
-- Process: `execute` and `halt`. The change to user mode and the return to the parent are results of
--   the functions. Process.Table is a view of the process table without addresses, with the steps
--   `start` and `finish`, to which Process.Refine relates `spawn` and `release`, the parts of `execute`
--   and `halt` that change the table.
-- Syscalls: the other system calls.
-- Paging: student-distrib/paging.c; Paging.Walk is the translation by the processor, against which the
--   tables are judged.
-- Screen: the console of student-distrib/lib.c on the pages of video memory, by physical page.
-- Keyboard and Handler: student-distrib/keyboard.c, its buffers and its interrupt handler.
-- Terminal: student-distrib/terminal.c. Scheduler: student-distrib/pit_init.c. Terminals: the globals
--   that say which terminal runs and which is shown.
-- Process.Command, Process.Load, Process.Resumes: the command, the executable file and the return to the
--   parent.
-- System: the state that interrupt handlers change, which joins the kernel, the keyboard, the screen and
--   the interrupt controllers.
-- Interrupts: the table of interrupts of student-distrib/handler_setup.c.
-- Pic and Rtc: student-distrib/i8259.c and student-distrib/rtc_init.c.
-- Machine: the handlers and the system calls as the events of one machine, with the states that they
--   reach from boot; its child modules go through the events, and Process.Safety, Process.Calls and
--   Process.Halts through `close`, `execute` and `halt`.
-- Entry: `entry` of student-distrib/kernel.c up to the tests that start the shell, with `pit_init` and
--   `rtc_init`; Entry.Boots has the lines that it prints, Entry.Start the state that it leads to, in which
--   Machine begins, Entry.Refuses its early ends, and Entry.Shell the call of `launch_tests` of
--   student-distrib/tests.c. Descriptors: the segment descriptors that it builds, of student-distrib/x86_desc.h.
-- Exceptions: the exception handlers of student-distrib/handler_setup.c, which are events of Machine too.
-- System.Print: a call of `printf` in a state, with the words of the stack and the strings of memory;
--   Printf.Total is about its end.
-- UserCalls: the system calls as a program meets them, with their results; student-distrib/handler_call.S
--   checks their number.
-- Syserr: syscalls/ece391syserr.c, the program that tests the system calls, on UserCalls. Its child modules
--   are the part of a test that a call passes (Passes, Codes), the kernel as a new program finds it
--   (Ready), the test that opens all descriptors (Lots), and `main` (Main).
-- Programs: user programs of syscalls with the functions of syscalls/ece391support.c; the system calls
--   are a record of operations, and what the programs rely on is stated of it (IsStream, IsListing).
-- KernelTests: the tests of the tables in student-distrib/tests.c.
-- Tests: small states, and the theorems applied to them.
--
-- How the parts meet: the system calls act on `Kernel`; an interrupt of the keyboard or the timer acts on
-- `System`; the timer starts a shell by `execute` of Process; an interrupt that ends in `user_halt` goes
-- on with `halt`. An event of Machine is one of these, from its begin to its end:
-- an interrupt inside a call is an event before or behind it, and the wait of `terminal_read` is cut into
-- the part before and the part behind it, with any events between.
--
-- Bounds. A loop over memory that ends at a NUL has the size of the address space, 2 ^ 32, as fuel; a
-- string has its end there, and the theorems have its length below that bound. `read_data` has a round
-- for each byte asked for and one more, which is enough since every block but the last adds a byte. The
-- loop of `itoa` has the address space as fuel too, which is enough for a radix of 2 or more since each
-- round halves the number; the loops of the programs have the reads that they make at most. The waits of
-- `rtc_read` and `terminal_read` have the interrupts that come as their bound, and return nothing if they
-- still wait behind the last.
--
-- The arguments of a program have 128 bytes, and its page ends 0x3B8000 bytes behind the address at which the
-- file is loaded: `execute` has no result for longer arguments or for a read of the file that goes on behind
-- the page, nor has `vidmap` for a pointer to bytes that are not all in the page.
--
-- What the program finds in memory behind the loader is a buffer, and the loop over the memory map has the
-- address space as fuel, which is enough for a map that ends.
--
-- Not modelled: the message that `map_virt_user_to_physical` prints for a refused address, assembly (boot, the linkage of interrupts, saved registers, which are arguments), the other
-- tests of student-distrib/tests.c, which wait for a user or print, the programs in fish, and of syscalls the programs grep,
-- counter, hello, pingpong, sigtest and testprint. An answer of the clock, of the terminal or of a valid system
-- call by its number is a parameter of Syserr, since a wait for it has other events within.
pub mod Base
pub mod Str
pub mod Exceptions
pub mod Descriptors
pub mod Entry
pub mod KernelTests
pub mod Machine
pub mod Programs
pub mod UserCalls
pub mod Syserr
pub mod Memcpy
pub mod Memset
pub mod Memmove
pub mod FileSystem
pub mod Pic
pub mod Interrupts
pub mod Rtc
pub mod Terminals
pub mod Screen
pub mod Printf
pub mod Paging
pub mod Kernel
pub mod Files
pub mod Process
pub mod Keyboard
pub mod System
pub mod Handler
pub mod Scheduler
pub mod Terminal
pub mod Syscalls
pub mod Tests
