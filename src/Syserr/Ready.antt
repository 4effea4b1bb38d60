-- ===== src/Syserr/Ready.antt =====
-- The tests on files that cannot be opened and on descriptors that are not open.
use native.Mathlib.Decide.{dec_lt}
use iaaa_os.Base.{
  ℕ, zero, suc, ◌+◌, ◌≤◌, ◌<◌, ◌≡◌, ◌≢◌, ◌⊎◌, inl, inr, refl, arith, ◌==◌, Bool-cases, false, Buf,
  pos, minus_one, is_zero, some, codes,
}
use iaaa_os.Kernel.{Kernel, terminal_ops, curr_pcb}
use iaaa_os.FileSystem.{Fs, fail, entry, file_type, read_dentry_by_name}
use iaaa_os.Files.{fd_of, free_fd, open_call, rtc_name}
use iaaa_os.Files.Table.{close-refused}
use iaaa_os.Str.{mem_size, strncmp}
use iaaa_os.Printf.Total.{length}
use iaaa_os.Syscalls.{read, write}
use iaaa_os.System.{System}
use iaaa_os.UserCalls.{Outside, user_open, user_close, user_read, user_write}
use iaaa_os.Programs.{text_of}
use iaaa_os.Syserr.{
  ◌>>=◌, expect_failure, err_open, close_unopened, read_unopened, write_unopened, read_to,
  err_unopened,
}
use iaaa_os.Syserr.Passes.{Speaks, Passes, verdict_lem}

-- The directory has an entry for itself and none of the names that are tried.
pub record IsTestDisk (fs : Fs) : Type 0 where
  pub no_helloo : read_dentry_by_name fs (some (text_of (codes "helloo"))) (λ _. 0) ≡ some fail
  pub no_shel : read_dentry_by_name fs (some (text_of (codes "shel"))) (λ _. 0) ≡ some fail
  pub no_empty : read_dentry_by_name fs (some (text_of (codes ""))) (λ _. 0) ≡ some fail
  pub dot :
      (d : Buf) × (read_dentry_by_name fs (some (text_of (codes "."))) (λ _. 0) ≡ some (entry d))
      × (file_type d ≡ 1)

-- The kernel as it runs a new program: standard output is the terminal, and descriptors 2 to 7 are free.
pub record IsReady (k : Kernel) : Type 0 where
  pub output : (fd_of k 1).file_op ≡ terminal_ops
  pub open_output : (fd_of k 1).flags ≢ 0
  pub free : (j : ℕ) → 2 ≤ j → j < 8 → (fd_of k j).flags ≡ 0
  pub disk : IsTestDisk k.fs

pub IsReady-Speaks : (s : System) → IsReady s.kernel → Speaks s
IsReady-Speaks s h = (h.output, h.open_output)

open_call-fail :
    (name : Buf) (k : Kernel)
    → is_zero (strncmp name rtc_name 4) ≡ false
    → read_dentry_by_name k.fs (some name) (λ _. 0) ≡ some fail
    → open_call name k ≡ some (minus_one, k)
unfolding open_call
open_call-fail name k e f = elim (Bool-cases (free_fd (curr_pcb k).fd_arr == 8)) [
  | inl full ↦ rw (full, open_call) refl
  | inr room ↦ rw (room, e, f, open_call) refl
]

user_open-fail :
    (name : Buf) (s : System)
    → is_zero (strncmp name rtc_name 4) ≡ false
    → read_dentry_by_name s.kernel.fs (some name) (λ _. 0) ≡ some fail
    → user_open name s ≡ some (minus_one, s)
unfolding user_open
user_open-fail name s e f = rw (open_call-fail name s.kernel e f, user_open) refl

pub err_open-Passes : (s : System) → IsReady s.kernel → Passes err_open s
unfolding err_open expect_failure strncmp mem_size length text_of
err_open-Passes s h =
    let a = user_open-fail (text_of (codes "helloo")) s refl h.disk.no_helloo in
    let b = user_open-fail (text_of (codes "shel")) s refl h.disk.no_shel in
    let c = user_open-fail (text_of (codes "")) s refl h.disk.no_empty in
    let (s', e, k) =
      verdict_lem (codes "err_open: PASS\n") (codes "err_open: FAIL\n") s (IsReady-Speaks s h) refl
        (omega arith) in
    (s', rw (a, b, c, e, ◌>>=◌) refl, k)

module _ (s : System) (h : IsReady s.kernel) where
  close_unopened_lem :
      (rounds i so_far : ℕ) → i + rounds ≤ 8 → close_unopened rounds i so_far s ≡ some (so_far, s)
  unfolding close_unopened expect_failure user_close
  close_unopened_lem zero i so_far l = refl
  close_unopened_lem (suc rounds) i so_far l =
      let e = (close-refused s.kernel).1 i (closed (dec_lt i 2)) in
      rw (e, ◌>>=◌) (close_unopened_lem rounds (i + 1) so_far (omega arith))
    where
      closed : Dec (i < 2) → (i < 2) ⊎ (8 ≤ i) ⊎ ((fd_of s.kernel i).flags ≡ 0)
      closed (yes a) = inl a
      closed (no b) = inr (inr (h.free i (omega arith) (omega arith)))

  write_refused :
      (i : ℕ) (buf : Buf) → 2 ≤ i → i < 8 → user_write (pos i) buf 31 s ≡ some (minus_one, s)
  unfolding user_write write
  write_refused i buf lo hi = ground (arith, h.free i lo hi)

  write_unopened_lem :
      (buf : Buf) (rounds i so_far : ℕ)
      → 2 ≤ i
      → i + rounds ≤ 8
      → write_unopened buf rounds i so_far s ≡ some (so_far, s)
  unfolding write_unopened expect_failure
  write_unopened_lem buf zero i so_far lo l = refl
  write_unopened_lem buf (suc rounds) i so_far lo l =
      rw (write_refused i buf lo (omega arith), ◌>>=◌)
        (write_unopened_lem buf rounds (i + 1) so_far (omega arith) (omega arith))

  module _ (o : Outside) where
    read_refused :
        (i : ℕ) (buf : Buf)
        → 2 ≤ i
        → i < 8
        → read_to o (pos i) buf 31 s ≡ some ((minus_one, buf), s)
    unfolding read_to user_read read
    read_refused i buf lo hi = ground (arith, h.free i lo hi)

    read_unopened_lem :
        (rounds i : ℕ) (buf : Buf) (so_far : ℕ)
        → 2 ≤ i
        → i + rounds ≤ 8
        → read_unopened o rounds i buf so_far s ≡ some ((so_far, buf), s)
    unfolding read_unopened expect_failure
    read_unopened_lem zero i buf so_far lo l = refl
    read_unopened_lem (suc rounds) i buf so_far lo l =
        rw (read_refused i buf lo (omega arith), ◌>>=◌)
          (read_unopened_lem rounds (i + 1) buf so_far (omega arith) (omega arith))

    pub err_unopened-Passes : (junk : Buf) → Passes (err_unopened o junk) s
    unfolding err_unopened length mem_size
    err_unopened-Passes junk =
        let (s', e, k) =
          verdict_lem (codes "err_unopened: PASS\n") (codes "err_unopened: FAIL\n") s
            (IsReady-Speaks s h) refl (omega arith) in
        (
          s',
          rw
              (
                close_unopened_lem 8 0 0 (omega arith),
                read_unopened_lem 6 2 junk 0 (omega arith) (omega arith),
                write_unopened_lem junk 6 2 0 (omega arith) (omega arith),
                e,
                ◌>>=◌,
              )
              refl,
          k,
        )
