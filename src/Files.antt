-- ===== src/Files.antt =====
-- The system calls on files of student-distrib/system_calls.c, and the calls of the directory and
-- file tables of student-distrib/fileSystem.c. `fault` is a call through a NULL table.
pub mod Table
pub mod Reading
pub mod Leak
use iaaa_os.Base.{
  ℕ, zero, suc, ◌+◌, ◌-◌, Bool, true, false, ltb, leb, ◌==◌, ◌||◌, not, if◌then◌else◌, Arr, Buf,
  upd, u32, ℤ, pos, negsuc, minus_one, is_zero, Option, none, some,
}
use iaaa_os.Str.{strncmp, strncpy}
use iaaa_os.Terminals.{Terminals}
use iaaa_os.Rtc.{Rtc, rtc_open, rtc_close}
use iaaa_os.FileSystem.{
  Fs, Lookup, fail, entry, file_type, inode_num, num_dir_entries, dir_list, read_dentry_by_name,
  read_data,
}
use iaaa_os.Kernel.{
  FileOps, null_ops, rtc_ops, dir_ops, file_ops, terminal_ops, Fd, Pcb, Kernel, get_pcb_process,
  curr_pcb, set_pcb, closed_fd,
}

-- `terminal_curr - 1`, the index of the running terminal in the clock's arrays.
abbrev pub rtc_index : Kernel → ℕ
rtc_index k = k.terminals.terminal_curr - 1

-- Descriptor `fd` of the running process.
abbrev pub fd_of : Kernel → ℕ → Fd
fd_of k fd = (curr_pcb k).fd_arr fd

abbrev pub set_fd : ℕ → Fd → Kernel → Kernel
set_fd fd d k =
    set_pcb (get_pcb_process k) (record (curr_pcb k) { fd_arr = upd (curr_pcb k).fd_arr fd d }) k

-- The search of `open`: the first descriptor of 2 to 7 with flags 0, or 8.
unfoldable pub free_fd_from : ℕ → ℕ → Arr Fd → ℕ
free_fd_from zero i a = 8
free_fd_from (suc rounds) i a =
    let rest = free_fd_from rounds (suc i) a in if (a i).flags == 0 then i else rest

unfoldable pub free_fd : Arr Fd → ℕ
unfolding free_fd_from
free_fd a = free_fd_from 6 2 a

-- The name "rtc", as bytes.
abbrev pub rtc_name : Buf
rtc_name zero = b'r'
rtc_name (suc zero) = b't'
rtc_name (suc (suc zero)) = b'c'
rtc_name (suc (suc (suc i))) = 0

-- The `switch` of `open`, after `flags` is set. `open` of the table returns 0 and is ignored.
unfoldable pub open_switch : ℕ → ℕ → ℕ → Kernel → ℤ × Kernel
open_switch i switch_val inode k =
    if switch_val == 0
    then (
      pos i,
      record (set_fd i (record { file_op = rtc_ops; inode = 0; file_pos = 0; flags = 1 }) k) {
        rtc = (rtc_open (rtc_index k) k.rtc).1;
      },
    )
    else if switch_val == 1
    then (pos i, set_fd i (record { file_op = dir_ops; inode = 0; file_pos = 0; flags = 1 }) k)
    else if switch_val == 2
    then (pos i, set_fd i (record { file_op = file_ops; inode = inode; file_pos = 0; flags = 1 }) k)
    else (minus_one, set_fd i (record (fd_of k i) { flags = 1 }) k)

-- `sizeof(filename)` is the size of a pointer, four. `none`: the name has no end in memory.
unfoldable pub open_call : Buf → Kernel → Option (ℤ × Kernel)
open_call filename k =
    let i = free_fd (curr_pcb k).fd_arr in
    if i == 8
    then some (minus_one, k)
    else if is_zero (strncmp filename rtc_name 4)
    then some (open_switch i 0 0 k)
    else elim (read_dentry_by_name k.fs (some filename) (λ _. 0)) [
      | none ↦ none
      | some fail ↦ some (minus_one, k)
      | some (entry d) ↦ some (open_switch i (file_type d) (inode_num d) k)
    ]

-- What the fourth function of a table returns, with its effect; `none` is a fault.
unfoldable pub table_close : FileOps → Kernel → Option (ℤ × Kernel)
table_close null_ops k = none
table_close rtc_ops k =
    let (r, rtc') = rtc_close (rtc_index k) k.rtc in some (r, record k { rtc = rtc' })
table_close dir_ops k = some (pos 0, k)
table_close file_ops k = some (pos 0, k)
table_close terminal_ops k = some (minus_one, k)

unfoldable pub close : ℤ → Kernel → Option (ℤ × Kernel)
close (negsuc n) k = some (minus_one, k)
close (pos fd) k =
    if ltb fd 2 || leb 8 fd
    then some (minus_one, k)
    else if (fd_of k fd).flags == 0
    then some (minus_one, k)
    else elim (table_close (fd_of k fd).file_op k) [
      | none ↦ none
      | some (r, k') ↦ some (r, set_fd fd closed_fd k')
    ]

-- `nbytes` is an int32_t that is not negative here.
unfoldable pub dir_read : ℕ → Buf → ℕ → Kernel → ℤ × Buf × Kernel
dir_read fd buf nbytes k =
    let dir_idx = (fd_of k fd).file_pos in
    if leb (num_dir_entries k.fs) dir_idx then (pos 0, buf, k) else (
      pos nbytes,
      strncpy buf (dir_list k.fs dir_idx) nbytes,
      set_fd fd (record (fd_of k fd) { file_pos = u32 (dir_idx + 1) }) k,
    )

-- `filePos += retval` unless `retval` is -1.
unfoldable pub advance : ℕ → ℤ → Kernel → Kernel
advance fd (pos n) k =
    set_fd fd (record (fd_of k fd) { file_pos = u32 ((fd_of k fd).file_pos + n) }) k
advance fd (negsuc n) k = k

unfoldable pub file_read : ℕ → Buf → ℕ → Kernel → Option (ℤ × Buf × Kernel)
file_read fd buf nbytes k =
    elim (read_data k.fs (fd_of k fd).inode (fd_of k fd).file_pos buf nbytes) [
      | none ↦ none
      | some (r, b) ↦ some (r, b, advance fd r k)
    ]
