-- ===== src/Tests/Boot.antt =====
-- A machine whose disk holds an executable, which runs a program below the shell, and what prints there.
use iaaa_os.Base.{
  leb, ◌&&◌, zero, suc, subst, sym, fun_ext, ◌-◌, ℕ, ◌+◌, ◌^◌, ◌/◌, ◌%◌, ◌<◌, ◌≡◌, ◌==◌, refl,
  arith, ltb, if◌then◌else◌, Buf, shift, word, pos, some, false, List, codes,
}
use iaaa_os.Str.{mem_size}
use iaaa_os.Printf.{printf}
use iaaa_os.Printf.Total.{IsString, length, printf_total}
use iaaa_os.Screen.{puts}
use iaaa_os.Terminals.{initial}
use iaaa_os.FileSystem.{
  find_dentry, num_dir_entries, dir_list, num_data_blocks, data_block_num, data_block, num_inode,
  inode_length, Fs, entry, inode_num, file_type, read_dentry_by_name,
}
use iaaa_os.Kernel.{Kernel, closed_fd, curr_pid, get_next_avail_pid, get_pcb_process}
use iaaa_os.Files.Table.{HasValidFds}
use iaaa_os.Memcpy.{memcpy}
use iaaa_os.Str.{strlen, strncmp, strncpy}
use iaaa_os.Str.Length.{HasLength}
use iaaa_os.FileSystem.Data.{content, BlocksExist}
use iaaa_os.Process.Command.{IsCommand}
use iaaa_os.Process.Load.{IsExecutable, IsLoaded, execute_lem}
use iaaa_os.Tests.{image, disk}
use iaaa_os.Process.{exe_check, is_full, execute, entered, halt, resumed}
use iaaa_os.Process.Resumes.{IsStatus, halt_lem}
use iaaa_os.Descriptors.{
  SegDesc, the_ldt_desc, the_tss_desc, val_low, val_high, base_of, limit_of, access_of,
  descriptors_lem,
}
use iaaa_os.System.{System}
use iaaa_os.System.Print.{Surroundings, IsMemory}
use iaaa_os.Exceptions.{exception_handler_select}
use iaaa_os.Machine.{Entry, exception, handle, with_kernel}
use iaaa_os.Machine.Faults.{exception-resumes}
use iaaa_os.Tests.{zeros, kernel, system, pcb, name_a, screen}

abbrev pub junk : SegDesc
junk = record {
  seg_lim_15_00 = 1;
  base_15_00 = 1;
  base_23_16 = 1;
  type = 1;
  sys = 1;
  dpl = 1;
  present = 1;
  seg_lim_19_16 = 1;
  avail = 1;
  reserved = 1;
  opsize = 1;
  granularity = 1;
  base_31_24 = 1;
}

descriptors_lem_example :
    (let d = the_ldt_desc junk 0x12345678 0xABCDE in
      (base_of (val_low d) (val_high d) ≡ 0x12345678)
      × (limit_of (val_low d) (val_high d) ≡ 0xABCDE)
      × (access_of (val_high d) ≡ 0x82)
      × (val_high d / 2 ^ 23 % 2 ≡ 0))
    × (let t = the_tss_desc junk 0x12345678 0xABCDE in
        (base_of (val_low t) (val_high t) ≡ 0x12345678)
        × (limit_of (val_low t) (val_high t) ≡ 0xABCDE)
        × (access_of (val_high t) ≡ 0x89)
        × (val_high t / 2 ^ 23 % 2 ≡ 0))
descriptors_lem_example = descriptors_lem junk 0x12345678 0xABCDE (omega arith) (omega arith)

-- Process 1 runs below the shell, process 0.
abbrev below : Kernel
below = record (kernel 2 closed_fd) {
  pid_of = λ t. if ltb t 2 then pos 1 else pos 0;
  pid_bitmap = λ p. if ltb p 2 then 1 else 0;
  pcbs = λ _. record (pcb closed_fd) { pid = pos 1; parent_id = pos 0 };
}

valid_below : HasValidFds below
unfolding HasValidFds get_pcb_process
valid_below j lo hi = record { cleared = λ h. ground arith; served = λ h. ground arith }

halt_lem_example :
    (k' : Kernel) × (r : ℕ) × (halt 7 zeros 0 0 below ≡ some (resumed r, k'))
    × IsStatus 7 r
    × (curr_pid k' ≡ pos 0)
    × ((j : ℕ) → k'.pid_bitmap j ≡ (if j == 1 then 0 else below.pid_bitmap j))
halt_lem_example = halt_lem 7 zeros 0 0 below 1 0 refl (omega arith) refl valid_below

abbrev pub memory : Surroundings
memory = record { behind = zeros; junk = zeros; string_at = λ at. zeros; stack = λ k. 0 }

zeros-IsString : IsString zeros
unfolding mem_size
zeros-IsString = (0, record { nul = refl; chars = λ i h. absurd (omega (arith, h)) }, omega arith)

pub memory-IsMemory : IsMemory memory
memory-IsMemory = record { strings = λ at. zeros-IsString; stack = λ k. omega arith }

abbrev at : Entry
at = record { behind = zeros; ebp = 0; esp = 0 }

abbrev running : System
running = record system { kernel = below }

exception-resumes_example :
    (s1 : System) × (k' : Kernel) × (exception_handler_select memory 0xE 4 0x1234 running ≡ some s1)
    × (halt 256 zeros 0 0 s1.kernel ≡ some (resumed 256, k'))
    × (handle (exception memory 0xE 4 0x1234 at) running ≡ some (with_kernel s1 k'))
    × (curr_pid k' ≡ pos 0)
    × (k'.pid_bitmap 1 ≡ 0)
exception-resumes_example =
    exception-resumes memory 0xE 4 0x1234 at running 1 0 memory-IsMemory (omega arith) (omega arith)
      (omega arith) refl (omega arith) refl valid_below

-- The only file has the name, 40 bytes, and begins like an executable.
abbrev pub exe_disk : Buf → Fs
exe_disk name = record (disk 2 40 2) {
  mem = λ i.
      if leb 64 i && ltb i 96
      then name (i - 64)
      else if ltb i 12288
      then image 2 40 2 i
      else if ltb i 12292
      then exe_check (i - 12288)
      else i % 251;
}

exe_magic : (name : Buf) (i : ℕ) → i < 4 → content (exe_disk name) 0 i ≡ exe_check i
unfolding content data_block_num data_block word
exe_magic name zero h = refl
exe_magic name (suc zero) h = refl
exe_magic name (suc (suc zero)) h = refl
exe_magic name (suc (suc (suc zero))) h = refl
exe_magic name (suc (suc (suc (suc i)))) h = absurd (omega arith)

exe_blocks : (name : Buf) → BlocksExist (exe_disk name) 0 0 40
unfolding BlocksExist data_block_num num_data_blocks word
exe_blocks name zero lo hi = omega arith
exe_blocks name (suc b) lo hi = absurd (omega arith)

pub exe_disk-IsExecutable : (name : Buf) → IsExecutable (exe_disk name) 0
unfolding num_inode inode_length word
exe_disk-IsExecutable name = record {
  known = omega arith;
  large = omega arith;
  fits = omega arith;
  blocks = exe_blocks name;
  magic = exe_magic name;
}

name_a-IsCommand : IsCommand name_a 0 1 0
unfolding mem_size
name_a-IsCommand = record {
  leading = λ i h. absurd (omega arith);
  word_at = λ i h. (ground arith, ground arith);
  some_word = omega arith;
  separated = λ i h. absurd (omega arith);
  behind_spaces = ground arith;
  no_space = λ e. refl;
  fits = omega arith;
  ends = omega arith;
}

no_args : HasLength (shift name_a 1) 0
no_args = record { nul = refl; chars = λ i h. absurd (omega (arith, h)) }

-- "a" as `execute` copies it.
abbrev file_name : Buf
file_name j = if ltb j 1 then name_a (0 + j) else if ltb j 32 then 0 else zeros j

abbrev found : Buf
found = memcpy 0 zeros (dir_list (exe_disk name_a) 0) 64

look : read_dentry_by_name (exe_disk name_a) (some file_name) (λ _. 0) ≡ some (entry found)
unfolding read_dentry_by_name find_dentry strlen strncmp mem_size num_dir_entries word dir_list
    strncpy
look = refl

found-file : (file_type found ≡ 2) × (inode_num found ≡ 0)
unfolding file_type inode_num memcpy dir_list word
found-file = (refl, refl)

abbrev idle : Kernel
idle = record (kernel 2 closed_fd) { fs = exe_disk name_a }

room : is_full idle ≡ false
unfolding get_next_avail_pid
room = refl

execute_lem_example :
    (k' : Kernel) × (execute (some name_a) zeros 0 0 idle
      ≡ some (entered (word (content (exe_disk name_a) (inode_num found)) 24), k'))
    × IsLoaded (exe_disk name_a) (inode_num found) (shift name_a 1) 0 k'
unfolding mem_size
execute_lem_example =
    execute_lem name_a zeros 0 1 0 0 found 0 0 idle room name_a-IsCommand no_args (omega arith)
      (λ name h.
        subst (λ b. read_dentry_by_name (exe_disk name_a) (some b) (λ _. 0) ≡ some (entry found))
          (sym (fun_ext h)) look)
      found-file.0
      (subst (IsExecutable (exe_disk name_a)) (sym found-file.1) (exe_disk-IsExecutable name_a))

-- "%d\n"
abbrev format : Buf
format j = if j == 0 then b'%' else if j == 1 then b'd' else if j == 2 then b'\n' else 0

printf_total_example :
    (out : List ℕ) × (printf zeros zeros (λ at. zeros) initial 0xB8 format (λ k. 7) screen
      ≡ some (3, puts initial 0xB8 out screen))
unfolding length mem_size
printf_total_example =
    printf_total zeros zeros (λ at. zeros) format (λ k. 7) (λ k. omega arith) (λ k. zeros-IsString)
      initial 0xB8 (codes "%d\n") screen
      (refl, omega arith, (refl, omega arith, (refl, omega arith, refl))) tt (omega arith)
