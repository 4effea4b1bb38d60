-- ===== src/Kernel.antt =====
-- The kernel's state: the globals of student-distrib/system_calls.c with the parts that the system
-- calls reach, and the process control blocks, which are found by their addresses.
use iaaa_os.Base.{
  ℕ, zero, suc, ◌+◌, ◌-◌, ◌*◌, Arr, Buf, upd, ◌==◌, if◌then◌else◌, ℤ, pos, negsuc, minus_one,
}
use iaaa_os.Terminals.{Terminals}
use iaaa_os.Rtc.{Rtc}
use iaaa_os.FileSystem.{Fs}
use iaaa_os.Paging.{Paging}

-- The jump table that a descriptor points to.
pub data FileOps : Type 0 where
  null_ops rtc_ops dir_ops file_ops terminal_ops : FileOps

-- `fd_t`
pub record Fd : Type 0 where
  pub file_op : FileOps
  pub inode : ℕ
  pub file_pos : ℕ
  pub flags : ℕ

-- `pcb_t`
pub record Pcb : Type 0 where
  pub pid : ℤ
  pub parent_id : ℤ
  pub fd_arr : Arr Fd
  pub old_esp : ℕ
  pub old_ebp : ℕ
  pub schedule_esp : ℕ
  pub schedule_ebp : ℕ
  pub state : ℕ

-- `pid_of` is the array PID: entry 0 is the number of running programs less one, and entries 1 to 3
-- are the processes that the terminals run. `user_mem` gives the bytes of the physical memory from
-- the base of a process on.
pub record Kernel : Type 0 where
  pub terminals : Terminals
  pub pid_of : Arr ℤ
  pub pid_bitmap : Arr ℕ
  pub pcbs : Arr Pcb
  pub args : Buf
  pub curr_prog_base_phys : ℕ
  pub esp0 : ℕ
  pub rtc : Rtc
  pub fs : Fs
  pub paging : Paging
  pub user_mem : Arr Buf

abbrev pub eight_mb : ℕ
eight_mb = 0x800000

abbrev pub eight_kb : ℕ
eight_kb = 0x2000

-- EIGHT_MB - EIGHT_KB * z
abbrev pub below_eight_mb : ℤ → ℕ
below_eight_mb (pos n) = eight_mb - eight_kb * n
below_eight_mb (negsuc n) = eight_mb + eight_kb * suc n

-- `z + 1` as an int.
abbrev pub plus_one : ℤ → ℤ
plus_one (pos n) = pos (n + 1)
plus_one (negsuc zero) = pos 0
plus_one (negsuc (suc n)) = negsuc n

-- The process that terminal `t` runs has its control block here, and its kernel stack below the
-- next.
abbrev pub pcb_at : ℤ → ℕ
pcb_at pid = below_eight_mb (plus_one pid)

abbrev pub stack_bottom : ℤ → ℕ
stack_bottom pid = below_eight_mb pid - 4

abbrev pub curr_pid : Kernel → ℤ
curr_pid k = k.pid_of k.terminals.terminal_curr

unfoldable pub get_pcb_process : Kernel → ℕ
get_pcb_process k = pcb_at (curr_pid k)

-- The block above: that of the process with the number below, whoever the parent is.
unfoldable pub get_parent_pcb_process : Kernel → ℕ
get_parent_pcb_process k = below_eight_mb (curr_pid k)

unfoldable pub get_kernel_stack_bottom : Kernel → ℕ
get_kernel_stack_bottom k = stack_bottom (curr_pid k)

unfoldable pub get_pcb_process_next : Kernel → ℕ
get_pcb_process_next k = pcb_at (k.pid_of k.terminals.terminal_next)

unfoldable pub get_kernel_stack_bottom_next : Kernel → ℕ
get_kernel_stack_bottom_next k = stack_bottom (k.pid_of k.terminals.terminal_next)

-- The control block of the running process.
abbrev pub curr_pcb : Kernel → Pcb
curr_pcb k = k.pcbs (get_pcb_process k)

abbrev pub set_pcb : ℕ → Pcb → Kernel → Kernel
set_pcb at p k = record k { pcbs = upd k.pcbs at p }

abbrev pub closed_fd : Fd
closed_fd = record { file_op = null_ops; inode = 0; file_pos = 0; flags = 0 }

-- The loop over the eight descriptors.
unfoldable pub clear_fds : ℕ → ℕ → Arr Fd → Arr Fd
clear_fds zero i a = a
clear_fds (suc rounds) i a = clear_fds rounds (suc i) (upd a i closed_fd)

unfoldable pub clear_pcb_struct : Pcb → Pcb
unfolding clear_fds
clear_pcb_struct p = record {
  pid = minus_one;
  parent_id = minus_one;
  fd_arr = clear_fds 8 0 p.fd_arr;
  old_esp = 0;
  old_ebp = 0;
  schedule_esp = 0;
  schedule_ebp = 0;
  state = 0;
}

-- The search of `get_next_avail_pid`.
unfoldable pub avail_from : ℕ → ℕ → Arr ℕ → ℕ
avail_from zero i bitmap = 6
avail_from (suc rounds) i bitmap =
    let rest = avail_from rounds (suc i) bitmap in if bitmap i == 0 then i else rest

unfoldable pub get_next_avail_pid : Arr ℕ → ℕ
unfolding avail_from
get_next_avail_pid bitmap = avail_from 6 0 bitmap
