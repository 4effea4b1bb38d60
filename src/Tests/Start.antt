-- ===== src/Tests/Start.antt =====
-- The start of the machine behind a loader that leaves a memory map of one entry.
use iaaa_os.Base.{
  ◌+◌, ◌≡◌, ◌==◌, refl, inl, inr, arith, if◌then◌else◌, Buf, word, u32, minus_one, some, [], shift,
  subst, sym,
}
use iaaa_os.Str.{mem_size}
use iaaa_os.Kernel.{Kernel, closed_fd}
use iaaa_os.Interrupts.{Gate, exception_array, idt_init}
use iaaa_os.KernelTests.{pass, idt_test, pages_test}
use iaaa_os.KernelTests.Passed.{kernel_tests-pass}
use iaaa_os.Entry
use iaaa_os.Entry.{Board, Layout, launches, returned, magic_number}
use iaaa_os.Entry.Boots.{MapEnds}
use iaaa_os.Entry.Start.{IsStatic, IsBooted, entry_lem}
use iaaa_os.Entry.Refuses.{entry_refuses}
use iaaa_os.Entry.Shell.{looked_up, boot-IsLoaded}
use iaaa_os.Memcpy.{memcpy}
use iaaa_os.Str.{strlen, strncmp, strncpy}
use iaaa_os.FileSystem.{
  entry, dir_list, read_dentry_by_name, find_dentry, num_dir_entries, file_type, inode_num,
}
use iaaa_os.FileSystem.Data.{content}
use iaaa_os.Process.{shell_name, execute, entered}
use iaaa_os.Process.Load.{IsExecutable, IsLoaded}
use iaaa_os.Paging.Init.{paging_init}
use iaaa_os.System.{System}
use iaaa_os.Machine.{Entry, IsBoot, Reachable, handle, execute_call, with_kernel}
use iaaa_os.Tests.{kernel, system, zeros, paging}
use iaaa_os.Tests.Boot.{exe_disk, exe_disk-IsExecutable, junk, memory, memory-IsMemory}

abbrev zero_gate : Gate
zero_gate = record {
  target = exception_array 0;
  seg_selector = 0;
  reserved4 = 0;
  reserved3 = 0;
  reserved2 = 0;
  reserved1 = 0;
  size = 0;
  reserved0 = 0;
  dpl = 0;
  present = 0;
}

-- What the loader leaves at address 0: the flags 0 and 6, and a memory map of one entry at address 64.
abbrev loader : Buf
loader i =
    if i == 0
    then 0x41
    else if i == 44
    then 24
    else if i == 48
    then 64
    else if i == 64
    then 20
    else 0

abbrev layout : Layout
layout = record {
  ldt = 0x400000;
  ldt_size = 40;
  tss = 0x401000;
  tss_size = 104;
  junk = junk;
  filesys_start = 0;
}

abbrev board : Board
board = record {
  system = record system {
    kernel = record (kernel 2 closed_fd) { pid_of = λ _. minus_one; pid_bitmap = λ _. 0 };
  };
  idt = λ _. zero_gate;
  ldt_desc = junk;
  tss_desc = junk;
  tss = record { ldt_segment_selector = 0; ss0 = 0 };
  outs = [];
}

board-IsStatic : IsStatic board.system
board-IsStatic = record {
  terminals = refl;
  pid_of = λ t h. refl;
  pid_bitmap = λ p h. refl;
  kb_buf = λ j i. refl;
  kb_buf_num = λ j. refl;
}

map_ends : MapEnds loader 1 (u32 (word loader 48 + word loader 44)) (word loader 48)
unfolding MapEnds word
map_ends = inr (omega arith)

entry_lem_example :
    (b' : Board) × (Entry.entry memory loader layout magic_number 0 0 0 board ≡ some (launches b'))
    × IsBooted board 0 b'
unfolding mem_size word
entry_lem_example =
    entry_lem memory memory-IsMemory loader (λ i. ground arith) layout 0 0 0 1 board board-IsStatic
      refl (omega arith) (λ _. map_ends)

abbrev ready : System
ready = record system {
  kernel = record (kernel 2 closed_fd) {
    pid_of = λ _. minus_one;
    pid_bitmap = λ _. 0;
    paging = paging_init paging;
    fs = exe_disk shell_name;
  };
}

ready-IsBoot : IsBoot ready
ready-IsBoot = record {
  terminals = refl;
  pid_of = λ t h. refl;
  pid_bitmap = λ p h. refl;
  kb_buf = λ j i. refl;
  kb_buf_num = λ j. refl;
  paging = (paging, refl);
}

abbrev shell_entry : Buf
shell_entry = memcpy 0 zeros (dir_list (exe_disk shell_name) 0) 64

shell_found :
    read_dentry_by_name (exe_disk shell_name) (some (looked_up zeros)) zeros
    ≡ some (entry shell_entry)
unfolding read_dentry_by_name find_dentry strlen strncmp mem_size num_dir_entries word dir_list
    strncpy
shell_found = refl

shell_file : (file_type shell_entry ≡ 2) × (inode_num shell_entry ≡ 0)
unfolding file_type inode_num memcpy dir_list word
shell_file = (refl, refl)

abbrev at : Entry
at = record { behind = zeros; ebp = 0; esp = 0 }

boot-IsLoaded_example :
    (k' : Kernel) × (execute (some shell_name) zeros 0 0 ready.kernel
      ≡ some (entered (word (content (exe_disk shell_name) (inode_num shell_entry)) 24), k'))
    × IsLoaded (exe_disk shell_name) (inode_num shell_entry) (shift shell_name 5) 0 k'
    × (handle (execute_call (some shell_name) at) ready ≡ some (with_kernel ready k'))
    × Reachable (with_kernel ready k')
boot-IsLoaded_example = boot-IsLoaded ready at shell_entry ready-IsBoot shell_found shell_file.0 (
    subst (IsExecutable (exe_disk shell_name)) (sym shell_file.1)
      (exe_disk-IsExecutable shell_name))

entry_refuses_example :
    (s' : System) × (Entry.entry memory loader layout 7 0 0 0 board ≡ some (returned s'))
    × (s'.kernel ≡ board.system.kernel)
    × (s'.keyboard ≡ board.system.keyboard)
    × (s'.pic ≡ board.system.pic)
unfolding word
entry_refuses_example =
    entry_refuses memory memory-IsMemory loader (λ i. ground arith) layout 7 0 0 0 board
      (omega arith) (inl (omega arith))

kernel_tests-pass_example :
    (idt_test (λ _. 0x400000) (idt_init (λ _. zero_gate)) ≡ some pass)
    × (pages_test (paging_init paging) ≡ some pass)
kernel_tests-pass_example =
    kernel_tests-pass (λ _. 0x400000) (λ _. zero_gate) paging (λ f. (omega arith, omega arith))
