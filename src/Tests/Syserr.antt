-- ===== src/Tests/Syserr.antt =====
-- The program `syserr` on a disk that has the directory only, where the user chooses to run all tests.
use iaaa_os.Base.{word, ◌≡◌, refl, arith, ◌==◌, if◌then◌else◌, Buf, pos, some, subst, sym}
use iaaa_os.Str.{mem_size, strlen, strncmp, strncpy}
use iaaa_os.Memcpy.{memcpy}
use iaaa_os.FileSystem.{Fs, read_dentry_by_name, find_dentry, num_dir_entries, dir_list, file_type}
use iaaa_os.Kernel.{closed_fd, get_pcb_process}
use iaaa_os.Programs.{text_of}
use iaaa_os.System.{System}
use iaaa_os.System.Print.{IsMemory}
use iaaa_os.UserCalls.{Outside}
use iaaa_os.Syserr.{main}
use iaaa_os.Syserr.Ready.{IsTestDisk, IsReady}
use iaaa_os.Syserr.Main.{main-passes}
use iaaa_os.Tests.{zeros, image, disk, kernel, system}

-- The only entry is `.`, a directory.
abbrev dot_disk : Fs
dot_disk = record (disk 1 0 1) { mem = λ i. if i == 64 then b'.' else image 1 0 1 i }

dot_disk-IsTestDisk : IsTestDisk dot_disk
unfolding read_dentry_by_name find_dentry strlen strncmp mem_size text_of num_dir_entries word
    dir_list strncpy file_type memcpy
dot_disk-IsTestDisk = record {
  no_helloo = refl;
  no_shel = refl;
  no_empty = refl;
  dot = (_, refl, refl);
}

abbrev start : System
start = record system { kernel = record (kernel 2 closed_fd) { fs = dot_disk } }

start-IsReady : IsReady start.kernel
unfolding get_pcb_process
start-IsReady = record {
  output = refl;
  open_output = omega arith;
  free = λ j lo hi. ground arith;
  disk = dot_disk-IsTestDisk;
}

-- "0\n"
abbrev line : Buf
line i = if i == 0 then b'0' else if i == 1 then b'\n' else 0

abbrev outside : Outside
outside = record {
  clock_read = λ buf n s. some (pos 0, buf, s);
  terminal_read = λ buf n s. some (pos 2, line, s);
  valid_call = λ n s. some (pos 0, s);
  memory = record { behind = zeros; junk = zeros; string_at = λ at. zeros; stack = λ k. 0 };
}

memory-IsMemory : IsMemory outside.memory
unfolding mem_size
memory-IsMemory = record {
  strings = λ at. (0, record { nul = refl; chars = λ i h. absurd (omega (arith, h)) }, omega arith);
  stack = λ k. omega arith;
}

main-passes_example : (s' : System) × (main outside zeros start ≡ some (0, s')) × IsReady s'.kernel
main-passes_example =
    main-passes outside memory-IsMemory zeros 0 start 2 line (omega arith) start-IsReady refl
      (λ s1 e. (s1, refl, subst IsReady (sym e) start-IsReady)) (omega arith) refl
