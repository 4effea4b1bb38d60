-- ===== src/Tests.antt =====
-- Small states on which the properties are applied: an image of a file system, a kernel with one
-- program, and the devices.
pub mod Disk
pub mod Programs
pub mod Console
pub mod Devices
pub mod Events
pub mod Strings
pub mod Users
pub mod Start
pub mod Syserr
pub mod Boot
use iaaa_os.Base.{ℕ, ◌+◌, ◌/◌, ◌%◌, ltb, ◌==◌, if◌then◌else◌, Arr, Buf, pos, minus_one, []}
use iaaa_os.FileSystem.{Fs}
use iaaa_os.Kernel.{Fd, terminal_ops, dir_ops, file_ops, closed_fd, Pcb, Kernel}
use iaaa_os.Paging.{Paging, unused_entry}
use iaaa_os.Terminals.{initial}
use iaaa_os.Screen.{Screen}
use iaaa_os.Keyboard.{Keyboard}
use iaaa_os.Pic.{Pic}
use iaaa_os.Rtc.{Rtc}
use iaaa_os.System.{System}

abbrev pub zeros : Buf
zeros i = 0

-- One file `a` with `len` bytes, of type `kind`; its blocks have the numbers 1 and `next`.
abbrev pub image : ℕ → ℕ → ℕ → Buf
image kind len next i =
    if i == 0
    then 1
    else if i == 4
    then 1
    else if i == 8
    then 3
    else if i == 64
    then b'a'
    else if i == 96
    then kind
    else if i == 4096
    then len % 256
    else if i == 4097
    then len / 256 % 256
    else if i == 4100
    then 1
    else if i == 4104
    then next
    else if ltb i 8192
    then 0
    else i % 251

abbrev pub disk : ℕ → ℕ → ℕ → Fs
disk kind len next = record {
  mem = image kind len next;
  boot_block_ptr = 0;
  inode_ptr = 4096;
  dir_entry_ptr = 64;
  data_block_ptr = 8192;
}

-- "a"
abbrev pub name_a : Buf
name_a i = if i == 0 then b'a' else 0

abbrev pub rtc : Rtc
rtc = record { virtual_rtc_freq = λ _. 16; rtc_counter = λ _. 0 }

abbrev pub paging : Paging
paging = record {
  page_tab = λ _. unused_entry;
  page_dir = λ _. unused_entry;
  vid_page_tab = λ _. unused_entry;
  page_tab_at = 0x500000;
  vid_page_tab_at = 0x501000;
}

-- Descriptor 2 is given.
abbrev pub fds : Fd → Arr Fd
fds d j =
    if ltb j 2
    then record { file_op = terminal_ops; inode = 0; file_pos = 0; flags = 1 }
    else if j == 2
    then d
    else closed_fd

abbrev pub open_file : Fd
open_file = record { file_op = file_ops; inode = 0; file_pos = 1; flags = 1 }

abbrev pub open_dir : Fd
open_dir = record { file_op = dir_ops; inode = 0; file_pos = 0; flags = 1 }

abbrev pub pcb : Fd → Pcb
pcb d = record {
  pid = pos 0;
  parent_id = minus_one;
  fd_arr = fds d;
  old_esp = 0;
  old_ebp = 0;
  schedule_esp = 0;
  schedule_ebp = 0;
  state = 1;
}

-- Program 0 runs on the first terminal.
abbrev pub kernel : ℕ → Fd → Kernel
kernel kind d = record {
  terminals = initial;
  pid_of = λ t. if ltb t 2 then pos 0 else minus_one;
  pid_bitmap = λ p. if p == 0 then 1 else 0;
  pcbs = λ _. pcb d;
  args = name_a;
  curr_prog_base_phys = 0x800000;
  esp0 = 0x7FFFFC;
  rtc = rtc;
  fs = disk kind 5 2;
  paging = paging;
  user_mem = λ _. zeros;
}

abbrev pub keyboard : Keyboard
keyboard = record {
  kb_buf = λ _. zeros;
  kb_buf_num = λ _. 0;
  enter_flag = λ _. 1;
  kb_buf_full_flag = λ _. 0;
  kb_exit_flag = λ _. 0;
  terminal_read_flag = λ _. 1;
  caps_flag = 0;
  shift_flag = 0;
  ctrl_flag = 0;
  l_flag = 0;
  c_flag = 0;
  c = b'x';
  alt_flag = 0;
  f1_flag = 0;
  f2_flag = 0;
  f3_flag = 0;
}

abbrev pub screen : Screen
screen = record {
  video = λ _. zeros;
  screen_x = λ _. 3;
  screen_y = λ _. 24;
  cursor_high = 0;
  cursor_low = 0;
}

abbrev pub pic : Pic
pic = record { master_mask = 0xFB; slave_mask = 0xFF; outs = [] }

abbrev pub system : System
system = record { kernel = kernel 2 closed_fd; keyboard = keyboard; screen = screen; pic = pic }
