-- ===== src/Syserr.antt =====
-- syscalls/ece391syserr.c, which tests what the system calls do on wrong arguments. A test is a function
-- from the state of the system to its result and the state that it leaves; `none` is a call that faults,
-- waits for ever or has a text without end.
pub mod Passes
pub mod Ready
pub mod Lots
pub mod Codes
pub mod Main
use iaaa_os.Base.{
  ℕ, zero, suc, ◌+◌, ◌==◌, Bool, if◌then◌else◌, Buf, ℤ, pos, negsuc, sub_ℕ, Option, none, some,
  List, codes,
}
use iaaa_os.System.{System}
use iaaa_os.UserCalls.{
  Outside, user_read, user_write, user_open, user_close, user_vidmap, system_call_check,
}
use iaaa_os.Programs.{is_failed, count, text_of, ece391_strlen}

abbrev pub M : Type 0 → Type 0
M A = System → Option (A × System)

infixl 5 ◌>>=◌ ◌>>◌
abbrev pub ◌>>=◌ : {A B : Type 0} → M A → (A → M B) → M B
◌>>=◌ m f s = elim (m s) [ none ↦ none | some (a, s') ↦ f a s' ]

abbrev pub ◌>>◌ : {A B : Type 0} → M A → M B → M B
◌>>◌ m k = m >>= λ _. k

abbrev pub pure : {A : Type 0} → A → M A
pure a s = some (a, s)

-- `ece391_fdputs`, on the kernel's `write`.
unfoldable pub fdputs : ℤ → List ℕ → M (Unit {0})
fdputs fd text s = elim (ece391_strlen (text_of text)) [
  | none ↦ none
  | some n ↦ elim (user_write fd (text_of text) n s) [ none ↦ none | some (r, s') ↦ some (tt, s') ]
]

-- A call that should fail: if it does not, a message, and `fail` is 2.
unfoldable pub expect_failure : ℤ → List ℕ → ℕ → M ℕ
expect_failure r message fail =
    if is_failed r then pure fail else (do fdputs (pos 1) message; pure 2)

-- The end of a test.
unfoldable pub verdict : List ℕ → List ℕ → ℕ → M ℕ
verdict passed failed fail = do fdputs (pos 1) (if fail == 0 then passed else failed); pure fail

unfoldable pub err_open : M ℕ
err_open = do
  a ← user_open (text_of (codes "helloo"))
  f ← expect_failure a (codes "'helloo' fail\n") 0
  b ← user_open (text_of (codes "shel"))
  f ← expect_failure b (codes "'shel' fail\n") f
  c ← user_open (text_of (codes ""))
  f ← expect_failure c (codes "empty string fail\n") f
  verdict (codes "err_open: PASS\n") (codes "err_open: FAIL\n") f

unfoldable pub err_vidmap : M ℕ
err_vidmap = do
  a ← user_vidmap 0
  f ← expect_failure a (codes "Null pointer fail\n") 0
  b ← user_vidmap 0x400000
  f ← expect_failure b (codes "Kernel pointer fail fail\n") f
  verdict (codes "err_vidmap: PASS\n") (codes "err_vidmap: FAIL\n") f

-- `i` counts the calls of `open` that are left.
pub open_times : ℕ → ℕ → M ℕ
open_times zero cnt = pure cnt
open_times (suc i) cnt = do
  fd ← user_open (text_of (codes "."))
  open_times i (if is_failed fd then cnt + 1 else cnt)

pub close_each : ℕ → ℕ → M (Unit {0})
close_each zero i = pure tt
close_each (suc rounds) i = do user_close (pos i); close_each rounds (i + 1)

unfoldable pub err_open_lots : M ℕ
err_open_lots = do
  cnt ← open_times 7 0
  close_each 6 2
  fdputs (pos 1) (if cnt == 1 then codes "err_open_lots: PASS\n" else codes "err_open_lots: FAIL\n")
  pure (if cnt == 1 then 0 else 2)

pub close_unopened : ℕ → ℕ → ℕ → M ℕ
close_unopened zero i fail = pure fail
close_unopened (suc rounds) i fail = do
  r ← user_close (pos i)
  f ← expect_failure r (codes "close unopened or invalid fd fail\n") fail
  close_unopened rounds (i + 1) f

pub write_unopened : Buf → ℕ → ℕ → ℕ → M ℕ
write_unopened buf zero i fail = pure fail
write_unopened buf (suc rounds) i fail = do
  r ← user_write (pos i) buf 31
  f ← expect_failure r (codes "write to unopened fd fail\n") fail
  write_unopened buf rounds (i + 1) f

module _ (o : Outside) where
  unfoldable pub read_to : ℤ → Buf → ℕ → M (ℤ × Buf)
  read_to fd buf n s = elim (user_read o fd buf n s) [
    | none ↦ none
    | some (r, b, s') ↦ some ((r, b), s')
  ]

  -- The tests 1 and 2, on a descriptor.
  unfoldable pub err_fd : ℤ → List ℕ → List ℕ → Buf → M ℕ
  err_fd fd passed failed junk = do
    (a, buf) ← read_to fd junk 31
    f ← expect_failure a (codes "read fail\n") 0
    b ← user_write fd buf 31
    f ← expect_failure b (codes "write fail\n") f
    c ← user_close fd
    f ← expect_failure c (codes "close fail\n") f
    verdict passed failed f

  -- -1073741823
  unfoldable pub err_neg_fd : Buf → M ℕ
  err_neg_fd = err_fd (negsuc 1073741822) (codes "err_neg_fd: PASS\n") (codes "err_neg_fd: FAIL\n")

  unfoldable pub err_big_fd : Buf → M ℕ
  err_big_fd = err_fd (pos 1073741823) (codes "err_big_fd: PASS\n") (codes "err_big_fd: FAIL\n")

  pub read_unopened : ℕ → ℕ → Buf → ℕ → M (ℕ × Buf)
  read_unopened zero i buf fail = pure (fail, buf)
  read_unopened (suc rounds) i buf fail = do
    (r, buf') ← read_to (pos i) buf 31
    f ← expect_failure r (codes "read from unopened fd fail\n") fail
    read_unopened rounds (i + 1) buf' f

  unfoldable pub err_unopened : Buf → M ℕ
  err_unopened junk = do
    f ← close_unopened 8 0 0
    (f, buf) ← read_unopened 6 2 junk f
    f ← write_unopened buf 6 2 f
    verdict (codes "err_unopened: PASS\n") (codes "err_unopened: FAIL\n") f

  unfoldable pub err_stdin_out : Buf → M ℕ
  err_stdin_out junk = do
    a ← user_write (pos 0) junk 31
    f ← expect_failure a (codes "write to stdin fail\n") 0
    (b, buf) ← read_to (pos 1) junk 31
    f ← expect_failure b (codes "read from stdout fail\n") f
    verdict (codes "err_stdin_out: PASS\n") (codes "err_stdin_out: FAIL\n") f

  -- The number is put into EAX.
  unfoldable pub call_sys : ℤ → M ℤ
  call_sys num = system_call_check o (count num)

  unfoldable pub err_syscall_num : M ℕ
  err_syscall_num = do
    a ← call_sys (pos 1073741823)
    f ← expect_failure a (codes "syscall 0 fail\n") 0
    b ← call_sys (negsuc 1073741822)
    f ← expect_failure b (codes "big num syscall fail\n") f
    c ← call_sys (pos 0)
    f ← expect_failure c (codes "neg num syscall fail\n") f
    verdict (codes "err_syscall_num: PASS\n") (codes "err_syscall_num: FAIL\n") f

  unfoldable pub all_tests : Buf → M ℕ
  all_tests junk = do
    a ← err_neg_fd junk
    b ← err_big_fd junk
    c ← err_open_lots
    d ← err_open
    e ← err_unopened junk
    f ← err_vidmap
    g ← err_stdin_out junk
    h ← err_syscall_num
    let fail = a + b + c + d + e + f + g + h
    fdputs (pos 1)
        (if fail == 0 then codes "\nOverall Tests: PASS\n" else codes "\nOverall Tests: FAIL\n")
    pure fail

  -- The `switch` of `main`.
  unfoldable pub run_test : ℤ → Buf → M ℕ
  run_test (pos zero) junk = all_tests junk
  run_test (pos (suc zero)) junk = err_neg_fd junk
  run_test (pos (suc (suc zero))) junk = err_big_fd junk
  run_test (pos (suc (suc (suc zero)))) junk = err_open_lots
  run_test (pos (suc (suc (suc (suc zero))))) junk = err_open
  run_test (pos (suc (suc (suc (suc (suc zero)))))) junk = err_unopened junk
  run_test (pos (suc (suc (suc (suc (suc (suc zero))))))) junk = err_vidmap
  run_test (pos (suc (suc (suc (suc (suc (suc (suc zero)))))))) junk = err_stdin_out junk
  run_test (pos (suc (suc (suc (suc (suc (suc (suc (suc zero))))))))) junk = err_syscall_num
  run_test select junk = do
    fdputs (pos 1) (codes "Invalid test number. Choose from tests 1-8 or 0")
    pure 0

  -- `main` behind its read.
  unfoldable pub answer : Bool → ℤ → Buf → M ℕ
  answer unread select junk =
      if unread
      then (do fdputs (pos 1) (codes "Can't read test #\n"); pure 2)
      else run_test select junk

  unfoldable pub main : Buf → M ℕ
  main junk = do
    fdputs (pos 1) (codes "Choose from tests 1-8. 0 to run all: ")
    (cnt, buf) ← read_to (pos 0) junk 127
    answer (is_failed cnt) (sub_ℕ (buf 0) b'0') junk
