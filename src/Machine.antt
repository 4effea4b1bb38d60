-- ===== src/Machine.antt =====
-- The running kernel: student-distrib's handlers of the keyboard, the timer and exceptions and its system calls, as
-- the steps of one machine. An event carries what the hardware or the program gives: the scan code, the
-- arguments, the registers, the number of an exception, and the bytes behind the arrays that `execute` and the keyboard handler read.
pub mod Keys
pub mod Switch
pub mod Refuse
pub mod Tick
pub mod Buffers
pub mod Calls
pub mod Boot
pub mod Reach
pub mod Faults
use iaaa_os.Base.{
  ℕ, ◌+◌, ◌≡◌, ◌<◌, ◌==◌, if◌then◌else◌, upd, Buf, ℤ, pos, negsuc, minus_one, Option, none, some,
}
use iaaa_os.Terminals.{initial}
use iaaa_os.Paging.{Paging}
use iaaa_os.Paging.Init.{paging_init}
use iaaa_os.Kernel.{Kernel, FileOps, null_ops, rtc_ops, dir_ops, file_ops, terminal_ops}
use iaaa_os.Rtc.{Rtc, rtc_handler, rtc_write}
use iaaa_os.Files.{rtc_index, open_call, close, dir_read, file_read}
use iaaa_os.Syscalls.{Dispatch, refused, called, read, write, vidmap}
use iaaa_os.Process.{execute, halt}
use iaaa_os.Terminal.{is_waiting, read_begin, read_reset, terminal_write}
use iaaa_os.System.{System, eoi}
use iaaa_os.System.Print.{Surroundings}
use iaaa_os.Exceptions.{exception_handler_select}
use iaaa_os.Handler.{KeyEnd, keyboard_handler_call}
use iaaa_os.Scheduler.{PitEnd, stayed, started, switched, pit_handler}

-- What starts a shell again, or a program: the bytes behind `fileName`, EBP and ESP.
pub record Entry : Type 0 where
  pub behind : Buf
  pub ebp : ℕ
  pub esp : ℕ

-- `read_ends` is `terminal_read` behind its wait.
pub data Event : Type 0 where
  key_interrupt : Buf → ℕ → Entry → Event
  timer_interrupt : ℕ → ℕ → Entry → Event
  clock_interrupt : Event
  exception : Surroundings → ℕ → ℕ → ℕ → Entry → Event
  execute_call : Option Buf → Entry → Event
  halt_call : ℕ → Entry → Event
  open_file : Buf → Event
  close_file : ℤ → Event
  read_file : ℤ → Buf → ℕ → Event
  write_file : ℤ → Buf → ℕ → Event
  vidmap_call : ℕ → Event
  read_ends : Event

abbrev pub with_kernel : System → Kernel → System
with_kernel s k = record s { kernel = k }

-- The state that a call leaves, without its result.
abbrev pub after_call : {R : Type 0} → System → Option (R × Kernel) → Option System
after_call s none = none
after_call s (some (r, k)) = some (with_kernel s k)

-- `user_halt` of an interrupt handler is the call `halt` with status 0.
unfoldable pub after_key : Entry → KeyEnd → Option System
after_key at (KeyEnd.returned s) = some s
after_key at (KeyEnd.user_halted s) = after_call s (halt 0 at.behind at.ebp at.esp s.kernel)

unfoldable pub after_tick : Entry → Option PitEnd → Option System
after_tick at none = none
after_tick at (some (stayed s)) = some s
after_tick at (some (started r s)) = some s
after_tick at (some (switched esp ebp s)) = some s
after_tick at (some (PitEnd.user_halted esp ebp s)) =
    after_call s (halt 0 at.behind at.ebp at.esp s.kernel)

-- An exception handler goes on with `user_halt`, with 256.
unfoldable pub after_exception : Entry → Option System → Option System
after_exception at none = none
after_exception at (some s) = after_call s (halt 256 at.behind at.ebp at.esp s.kernel)

-- `rtc_read` up to its wait; behind it there is only the return.
unfoldable pub rtc_begin : ℕ → Rtc → Rtc
rtc_begin t r =
    if r.virtual_rtc_freq t == 0 then r else record r { rtc_counter = upd r.rtc_counter t 0 }

-- `read` with the first function of a table, up to the wait of a clock or a terminal.
unfoldable pub read_with : Buf → ℕ → System → Dispatch → Option System
read_with buf n s refused = some s
read_with buf n s (called null_ops fd) = none
read_with buf n s (called rtc_ops fd) =
    let k = s.kernel in some (with_kernel s (record k { rtc = rtc_begin (rtc_index k) k.rtc }))
read_with buf n s (called dir_ops fd) = some (with_kernel s (dir_read fd buf n s.kernel).2)
read_with buf n s (called file_ops fd) = elim (file_read fd buf n s.kernel) [
  | none ↦ none
  | some (r, b, k) ↦ some (with_kernel s k)
]
read_with buf n s (called terminal_ops fd) = some (read_begin s)

-- `write` with the second function of a table: files and directories refuse it.
unfoldable pub write_with : Buf → ℕ → System → Dispatch → Option System
write_with buf n s refused = some s
write_with buf n s (called null_ops fd) = none
write_with buf n s (called rtc_ops fd) =
    let k = s.kernel in
    some (with_kernel s (record k { rtc = (rtc_write (rtc_index k) buf n k.rtc).1 }))
write_with buf n s (called dir_ops fd) = some s
write_with buf n s (called file_ops fd) = some s
write_with buf n s (called terminal_ops fd) = some (terminal_write (some buf) (pos n) s).1

-- `none`: the code does not come back from the event, or faults.
unfoldable pub handle : Event → System → Option System
handle (key_interrupt table key at) s = after_key at (keyboard_handler_call table key s)
handle (timer_interrupt ebp esp at) s =
    after_tick at (pit_handler ebp esp at.behind at.ebp at.esp s)
handle clock_interrupt s =
    some (eoi 8 (with_kernel s (record s.kernel { rtc = rtc_handler s.kernel.rtc })))
handle (exception memory irq error cr2 at) s =
    after_exception at (exception_handler_select memory irq error cr2 s)
handle (execute_call command at) s = after_call s (execute command at.behind at.ebp at.esp s.kernel)
handle (halt_call status at) s = after_call s (halt status at.behind at.ebp at.esp s.kernel)
handle (open_file name) s = after_call s (open_call name s.kernel)
handle (close_file fd) s = after_call s (close fd s.kernel)
handle (read_file fd buf n) s = read_with buf n s (read fd s.kernel)
handle (write_file fd buf n) s = write_with buf n s (write fd s.kernel)
handle (vidmap_call screen_start) s = after_call s (vidmap screen_start s.kernel)
handle read_ends s = if is_waiting s then none else some (read_reset s)

-- The state at the end of `entry`: no process exists, the first terminal runs and is shown, the
-- keyboard's buffers are empty, and the tables are those of the two `init` functions of paging.
pub record IsBoot (s : System) : Type 0 where
  pub terminals : s.kernel.terminals ≡ initial
  pub pid_of : (t : ℕ) → t < 4 → s.kernel.pid_of t ≡ minus_one
  pub pid_bitmap : (p : ℕ) → p < 6 → s.kernel.pid_bitmap p ≡ 0
  pub kb_buf : (j i : ℕ) → s.keyboard.kb_buf j i ≡ 0
  pub kb_buf_num : (j : ℕ) → s.keyboard.kb_buf_num j ≡ 0
  pub paging : (p : Paging) × (s.kernel.paging ≡ paging_init p)

-- The states that events lead to from boot, in any order and number.
pub data Reachable : System → Type 0 where
  booted : (s : System) → IsBoot s → Reachable s
  after : (e : Event) (s s' : System) → Reachable s → handle e s ≡ some s' → Reachable s'
