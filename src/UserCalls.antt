-- ===== src/UserCalls.antt =====
-- The system calls as a program meets them: a number in EAX, a result, and the state that is left. A read
-- that waits is given by what it comes to with the interrupts that come.
use iaaa_os.Base.{
  ℕ, Bool, ltb, leb, ◌||◌, if◌then◌else◌, Buf, ℤ, pos, minus_one, Option, none, some, List, [], ◌∷◌,
  codes,
}
use iaaa_os.Kernel.{Kernel, null_ops, rtc_ops, dir_ops, file_ops, terminal_ops}
use iaaa_os.Rtc.{rtc_write}
use iaaa_os.Files.{rtc_index, open_call, close, dir_read, file_read}
use iaaa_os.Syscalls.{Dispatch, refused, called, read, write, vidmap}
use iaaa_os.Terminal.{terminal_write}
use iaaa_os.System.{System}
use iaaa_os.System.Print.{Surroundings, print}
use iaaa_os.Machine.{with_kernel}
use iaaa_os.Programs.{text_of}

-- `valid_call` is a call by its number: what it does depends on the other registers.
pub record Outside : Type 0 where
  pub clock_read : Buf → ℕ → System → Option (ℤ × Buf × System)
  pub terminal_read : Buf → ℕ → System → Option (ℤ × Buf × System)
  pub valid_call : ℕ → System → Option (ℤ × System)
  pub memory : Surroundings

abbrev pub with_result : System → Option (ℤ × Kernel) → Option (ℤ × System)
with_result s none = none
with_result s (some (r, k)) = some (r, with_kernel s k)

unfoldable pub user_open : Buf → System → Option (ℤ × System)
user_open name s = with_result s (open_call name s.kernel)

unfoldable pub user_close : ℤ → System → Option (ℤ × System)
user_close fd s = with_result s (close fd s.kernel)

unfoldable pub user_vidmap : ℕ → System → Option (ℤ × System)
user_vidmap screen_start s = with_result s (vidmap screen_start s.kernel)

-- `write` with the second function of a table.
unfoldable pub write_result : Buf → ℕ → System → Dispatch → Option (ℤ × System)
write_result buf n s refused = some (minus_one, s)
write_result buf n s (called null_ops fd) = none
write_result buf n s (called rtc_ops fd) =
    let k = s.kernel in
    let (r, rtc) = rtc_write (rtc_index k) buf n k.rtc in
    some (r, with_kernel s (record k { rtc = rtc }))
write_result buf n s (called dir_ops fd) = some (minus_one, s)
write_result buf n s (called file_ops fd) = some (minus_one, s)
write_result buf n s (called terminal_ops fd) =
    let (r, s') = terminal_write (some buf) (pos n) s in some (r, s')

unfoldable pub user_write : ℤ → Buf → ℕ → System → Option (ℤ × System)
unfolding write_result
user_write fd buf n s = write_result buf n s (write fd s.kernel)

unfoldable pub is_invalid : ℕ → Bool
is_invalid eax = leb 0x80000000 eax || ltb eax 1 || ltb 10 eax

abbrev pub invalid_message : List ℕ
invalid_message = codes "invalid system call code (%d) stored in EAX\n"

module _ (o : Outside) where
  -- `read` with the first function of a table.
  unfoldable pub read_result : Buf → ℕ → System → Dispatch → Option (ℤ × Buf × System)
  read_result buf n s refused = some (minus_one, buf, s)
  read_result buf n s (called null_ops fd) = none
  read_result buf n s (called rtc_ops fd) = o.clock_read buf n s
  read_result buf n s (called dir_ops fd) =
      let (r, b, k) = dir_read fd buf n s.kernel in some (r, b, with_kernel s k)
  read_result buf n s (called file_ops fd) = elim (file_read fd buf n s.kernel) [
    | none ↦ none
    | some (r, b, k) ↦ some (r, b, with_kernel s k)
  ]
  read_result buf n s (called terminal_ops fd) = o.terminal_read buf n s

  unfoldable pub user_read : ℤ → Buf → ℕ → System → Option (ℤ × Buf × System)
  unfolding read_result
  user_read fd buf n s = read_result buf n s (read fd s.kernel)

  unfoldable pub print_invalid_sys_call_msg : ℕ → System → Option System
  print_invalid_sys_call_msg eax s = print o.memory (text_of invalid_message) (eax ∷ []) s

  -- `system_call_check` of student-distrib/handler_call.S: the number is compared as an int.
  unfoldable pub system_call_check : ℕ → System → Option (ℤ × System)
  unfolding print_invalid_sys_call_msg is_invalid
  system_call_check eax s =
      if is_invalid eax
      then elim (print_invalid_sys_call_msg eax s) [ none ↦ none | some s' ↦ some (minus_one, s') ]
      else o.valid_call eax s
