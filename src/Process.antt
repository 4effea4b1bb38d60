-- ===== src/Process.antt =====
-- `execute` and `halt` of student-distrib/system_calls.c. Where the source switches to the program
-- (`iret`) or back to the caller of `execute`, the function ends with a value that says so. Registers
-- that the source saves, and the bytes behind the array `fileName`, are arguments.
pub mod Table
pub mod Spawn
pub mod Exit
pub mod Same
pub mod Refine
pub mod Safety
pub mod Calls
pub mod Halts
pub mod Started
pub mod Command
pub mod Load
pub mod Resumes
use iaaa_os.Base.{
  ℕ, zero, suc, ◌+◌, ◌-◌, ◌*◌, ◌%◌, Bool, true, false, ltb, leb, ◌==◌, ◌||◌, ◌&&◌, not,
  if◌then◌else◌, Arr, Buf, upd, shift, word, ℤ, pos, negsuc, minus_one, is_zero, is_neg, inc8, dec8,
  Option, none, some,
}
use iaaa_os.Str.{mem_size, strncmp, strcpy, strlen}
use iaaa_os.FileSystem.{Lookup, fail, entry, file_type, inode_num, read_dentry_by_name, read_data}
use iaaa_os.Paging.{shell_base_phys, tab_num_addrs, map_virt_user_to_physical}
use iaaa_os.Kernel.{
  Pcb, Fd, terminal_ops, Kernel, curr_pid, get_pcb_process, get_parent_pcb_process,
  get_kernel_stack_bottom, curr_pcb, set_pcb, clear_pcb_struct, get_next_avail_pid,
}
use iaaa_os.Files.{fd_of, close}

-- The loop over leading spaces ends at an index, or with -1 at the end of the command.
pub data Start : Type 0 where
  blank : Start
  at : ℕ → Start

pub skip_leading : ℕ → Buf → ℕ → Option Start
skip_leading zero command i = none
skip_leading (suc fuel) command i =
    let rest = skip_leading fuel command (i + 1) in
    if command i == b' ' then (if command (i + 1) == 0 then some blank else rest) else some (at i)

-- The loop that fills `fileName`; `rounds` is 32 - i. It gives the index behind the name.
pub copy_word : ℕ → ℕ → ℕ → Buf → Buf → ℕ × Buf
copy_word zero i j command name = (i, name)
copy_word (suc rounds) i j command name =
    let rest = copy_word rounds (i + 1) (j + 1) command (upd name j (command i)) in
    if command i == 0 then (i, name) else if command i == b' ' then (i, name) else rest

pub skip_spaces : ℕ → Buf → ℕ → Option ℕ
skip_spaces zero command i = none
skip_spaces (suc fuel) command i =
    let rest = skip_spaces fuel command (i + 1) in if command i == b' ' then rest else some i

-- The command's name, in `fileName`, and the index of its arguments; `none` is a command without end.
pub data Parsed : Type 0 where
  rejected : Parsed
  parsed : Buf → ℕ → Parsed

unfoldable pub parse_from : Buf → Buf → Start → Option Parsed
parse_from command file_name blank = some rejected
parse_from command file_name (at i) =
    let (k, name) = copy_word (32 - i) i 0 command file_name in
    elim (skip_spaces mem_size command k) [ none ↦ none | some rest ↦ some (parsed name rest) ]

unfoldable pub parse_command : Buf → Buf → Option Parsed
unfolding parse_from
parse_command command behind = elim (skip_leading mem_size command 0) [
  | none ↦ none
  | some s ↦ parse_from command (λ i. if ltb i 32 then 0 else behind i) s
]

-- 0x7f, "ELF"
abbrev pub exe_check : Buf
exe_check zero = 0x7f
exe_check (suc zero) = 0x45
exe_check (suc (suc zero)) = 0x4c
exe_check (suc (suc (suc i))) = 0x46

-- The process table's part of `execute`: PID and the bitmap.
unfoldable pub allocate : Kernel → Kernel
allocate k =
    let t = k.terminals.terminal_curr in
    let avail = get_next_avail_pid k.pid_bitmap in
    record k {
      pid_of = upd (upd k.pid_of 0 (inc8 (k.pid_of 0))) t (pos avail);
      pid_bitmap = upd k.pid_bitmap avail t;
    }

abbrev pub is_minus_one : ℤ → Bool
is_minus_one (pos n) = false
is_minus_one (negsuc n) = n == 0

-- `new_pcb` up to the parent's state, which is written only if there is a parent.
unfoldable pub init_pcb : ℤ → ℕ → ℕ → Kernel → Kernel
init_pcb parent ebp esp k =
    let fresh = record (clear_pcb_struct (curr_pcb k)) { pid = curr_pid k; parent_id = parent } in
    if is_minus_one parent
    then set_pcb (get_pcb_process k) fresh k
    else let k1 = set_pcb (get_pcb_process k) (record fresh { old_ebp = ebp; old_esp = esp }) k in
      let at = get_parent_pcb_process k in set_pcb at (record (k1.pcbs at) { state = 0 }) k1

abbrev pub terminal_fd : Fd → Fd
terminal_fd d = record d { file_op = terminal_ops; flags = 1 }

-- The base of a process from 0 to 5, and else the one before.
abbrev pub program_base : ℤ → ℕ → ℕ
program_base (pos n) old = if ltb n 6 then shell_base_phys + n * tab_num_addrs else old
program_base (negsuc n) old = old

-- The state, descriptors 0 and 1, and the page of the program.
unfoldable pub activate : Kernel → Kernel
activate k =
    let p = curr_pcb k in
    let k1 =
      set_pcb (get_pcb_process k)
        (record p {
          state = 1;
          fd_arr = upd (upd p.fd_arr 0 (terminal_fd (p.fd_arr 0))) 1 (terminal_fd (p.fd_arr 1));
        })
        k in
    let base = program_base (curr_pid k) k.curr_prog_base_phys in
    record k1 { curr_prog_base_phys = base; paging = map_virt_user_to_physical base k.paging }

unfoldable pub spawn : ℕ → ℕ → Kernel → Kernel
unfolding allocate init_pcb activate
spawn ebp esp k =
    activate
      (init_pcb (upd k.pid_of 0 (inc8 (k.pid_of 0)) k.terminals.terminal_curr) ebp esp (allocate k))

-- The bytes that a `read_data` leaves in its buffer; what it returns is not looked at.
unfoldable pub buffer_of : Option (ℤ × Buf) → Option Buf
buffer_of none = none
buffer_of (some (r, b)) = some b

-- The page of the program ends 0x3B8000 bytes behind 0x08048000.
abbrev pub page_rest : ℕ
page_rest = 0x3B8000

-- Whether a read of at most one byte more than fits stores them all.
pub stores_behind : Option (ℤ × Buf) → Bool
stores_behind none = true
stores_behind (some (pos n, b)) = n == page_rest + 1
stores_behind (some (negsuc n, b)) = false

-- The program is read to 0x08048000, 0x48000 bytes into its page. `none`: a read without end, or a store behind
-- the page, where no page is, which faults.
unfoldable pub load_program : ℕ → Kernel → Option (ℕ × Kernel)
unfolding buffer_of stores_behind
load_program inode k = elim (buffer_of (read_data k.fs inode 24 (λ _. 0) 4)) [
  | none ↦ none
  | some eip ↦
      let page = k.user_mem k.curr_prog_base_phys in
      if stores_behind (read_data k.fs inode 0 (shift page 0x48000) (page_rest + 1))
      then none
      else elim (buffer_of (read_data k.fs inode 0 (shift page 0x48000) 0x14048000)) [
        | none ↦ none
        | some b ↦ some (
          word eip 0,
          record k {
            user_mem =
                upd k.user_mem k.curr_prog_base_phys
                  (λ i. if ltb i 0x48000 then page i else b (i - 0x48000));
            esp0 = get_kernel_stack_bottom k;
          },
        )
      ]
]

pub data ExecResult : Type 0 where
  exec_failed : ExecResult
  entered : ℕ → ExecResult

-- From the look-up of the name on; `args` is written before it.
unfoldable pub run_file : Buf → ℕ → ℕ → Kernel → Option (ExecResult × Kernel)
run_file name ebp esp k = elim (read_dentry_by_name k.fs (some name) (λ _. 0)) [
  | none ↦ none
  | some fail ↦ some (exec_failed, k)
  | some (entry d) ↦
      if not (file_type d == 2)
      then some (exec_failed, k)
      else elim (buffer_of (read_data k.fs (inode_num d) 0 name 4)) [
        | none ↦ none
        | some head ↦
            if not (is_zero (strncmp exe_check head 4))
            then some (exec_failed, k)
            else elim (load_program (inode_num d) (spawn ebp esp k)) [
              | none ↦ none
              | some (eip, k') ↦ some (entered eip, k')
            ]
      ]
]

-- PID[0] == 5 or no free pid.
abbrev pub is_full : Kernel → Bool
is_full k =
    elim (k.pid_of 0) [ pos n ↦ n == 5 | negsuc n ↦ false ] || get_next_avail_pid k.pid_bitmap == 6

-- `sizeof(args)`
abbrev pub args_size : ℕ
args_size = 128

-- `none` also for arguments that do not fit into `args`: what `strcpy` writes over then is not known.
unfoldable pub run_command : Buf → Buf → ℕ → ℕ → Kernel → Option (ExecResult × Kernel)
unfolding run_file
run_command command behind ebp esp k = elim (parse_command command behind) [
  | none ↦ none
  | some rejected ↦ some (exec_failed, k)
  | some (parsed name rest) ↦ elim (strlen (shift command rest)) [
    | none ↦ none
    | some n ↦ if leb args_size n then none else elim (strcpy k.args (shift command rest)) [
      | none ↦ none
      | some args ↦ run_file name ebp esp (record k { args = args })
    ]
  ]
]

unfoldable pub execute : Option Buf → Buf → ℕ → ℕ → Kernel → Option (ExecResult × Kernel)
execute none behind ebp esp k = some (exec_failed, k)
execute (some command) behind ebp esp k =
    if is_full k then some (exec_failed, k) else run_command command behind ebp esp k

-- The loop of `halt` over the descriptors.
unfoldable pub close_all : ℕ → ℕ → Kernel → Option Kernel
close_all zero i k = some k
close_all (suc rounds) i k =
    if (fd_of k i).flags == 1
    then elim (close (pos i) k) [ none ↦ none | some (r, k') ↦ close_all rounds (suc i) k' ]
    else close_all rounds (suc i) k

abbrev pub base_of : ℤ → ℕ
base_of (pos n) = shell_base_phys + n * tab_num_addrs
base_of (negsuc n) = shell_base_phys

-- A process number as a uint8_t.
abbrev pub as_u8 : ℤ → ℕ
as_u8 (pos n) = n % 256
as_u8 (negsuc n) = 255 - n % 256

-- From `state = 0` on to the change of PID; `esp0` is computed before it if there is no parent.
unfoldable pub release : Kernel → Kernel
release k =
    let t = k.terminals.terminal_curr in
    let p = curr_pcb k in
    let parent = p.parent_id in
    let k1 = set_pcb (get_pcb_process k) (record p { state = 0 }) k in
    let k2 = record k1 {
      curr_prog_base_phys = base_of parent;
      paging = map_virt_user_to_physical (base_of parent) k.paging;
      pid_bitmap = upd k.pid_bitmap (as_u8 (curr_pid k)) 0;
      pid_of = upd (upd k.pid_of 0 (dec8 (k.pid_of 0))) t parent;
    } in
    if is_neg parent
    then record k2 { esp0 = get_kernel_stack_bottom k1 }
    else let at = get_pcb_process k2 in
      record (set_pcb at (record (k2.pcbs at) { state = 1 }) k2) {
        esp0 = get_kernel_stack_bottom k2;
      }

-- The status that the parent's `execute` returns: a byte, or 256 after an exception.
unfoldable pub status_extend : ℕ → ℕ
status_extend status = if status == 256 then status else status % 256

pub data HaltResult : Type 0 where
  resumed : ℕ → HaltResult
  restarted : ExecResult → HaltResult
  halt_failed : HaltResult

-- "shell"
abbrev pub shell_name : Buf
shell_name zero = b's'
shell_name (suc zero) = b'h'
shell_name (suc (suc zero)) = b'e'
shell_name (suc (suc (suc zero))) = b'l'
shell_name (suc (suc (suc (suc zero)))) = b'l'
shell_name (suc (suc (suc (suc (suc i))))) = 0

-- The last test of `halt`.
unfoldable pub restart_shell : Buf → ℕ → ℕ → Kernel → Option (HaltResult × Kernel)
restart_shell behind ebp esp k = elim (curr_pid k) [
  | negsuc zero ↦ elim (execute (some shell_name) behind ebp esp k) [
    | none ↦ none
    | some (r, k') ↦ some (restarted r, k')
  ]
  | negsuc (suc n) ↦ some (halt_failed, k)
  | pos n ↦ some (halt_failed, k)
]

unfoldable pub halt : ℕ → Buf → ℕ → ℕ → Kernel → Option (HaltResult × Kernel)
halt status behind ebp esp k =
    if is_neg (curr_pid k) then restart_shell behind ebp esp k else elim (close_all 8 0 k) [
      | none ↦ none
      | some k1 ↦
          let k2 = release k1 in
          if is_neg (curr_pid k2)
          then restart_shell behind ebp esp k2
          else some (resumed (status_extend status), k2)
    ]
