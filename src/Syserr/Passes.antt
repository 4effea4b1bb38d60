-- ===== src/Syserr/Passes.antt =====
-- The tests pass on the kernel.
use iaaa_os.Base.{ℕ, ◌<◌, ◌≡◌, ◌≢◌, ◌∙◌, refl, arith, true, Buf, pos, some, List, codes}
use iaaa_os.Kernel.{Kernel, terminal_ops}
use iaaa_os.Files.{fd_of, close}
use iaaa_os.Str.{mem_size}
use iaaa_os.Str.Length.{strlen_lem}
use iaaa_os.Printf.Total.{length}
use iaaa_os.Terminal.{terminal_write}
use iaaa_os.Machine.Buffers.{write_from-frame}
use iaaa_os.Syscalls.{called, write, read, vidmap}
use iaaa_os.System.{System}
use iaaa_os.UserCalls.{Outside, user_write, user_read, user_close, user_vidmap}
use iaaa_os.Programs.{text_of}
use iaaa_os.Programs.Texts.{is_text, text_of-HasLength}
use iaaa_os.Programs.Support.{strlen-same}
use iaaa_os.Syserr.{
  M, ◌>>=◌, fdputs, verdict, expect_failure, err_vidmap, err_fd, err_neg_fd, err_big_fd,
  err_stdin_out, read_to,
}

-- Standard output is the terminal.
abbrev pub Speaks : System → Type 0
Speaks s = ((fd_of s.kernel 1).file_op ≡ terminal_ops) × ((fd_of s.kernel 1).flags ≢ 0)

write_terminal :
    (k : Kernel)
    → (fd_of k 1).file_op ≡ terminal_ops
    → (fd_of k 1).flags ≢ 0
    → write (pos 1) k ≡ called terminal_ops 1
unfolding write
write_terminal k t u = ground (arith, t, u)

-- A text comes out, and nothing but the screen is changed.
pub fdputs_lem :
    (text : List ℕ) (s : System)
    → Speaks s
    → is_text text ≡ true
    → length text < mem_size
    → (s' : System) × (fdputs (pos 1) text s ≡ some (tt, s')) × (s'.kernel ≡ s.kernel)
unfolding fdputs user_write terminal_write
fdputs_lem text s h t l =
    let buf = text_of text in
    let n = length text in
    let e = strlen-same buf ∙ strlen_lem buf n (text_of-HasLength text t) l in
    (
      (terminal_write (some buf) (pos n) s).1,
      rw (fdputs, e, write_terminal s.kernel h.0 h.1) refl,
      (write_from-frame n 0 buf s).1,
    )

pub verdict_lem :
    (passed failed : List ℕ) (s : System)
    → Speaks s
    → is_text passed ≡ true
    → length passed < mem_size
    → (s' : System) × (verdict passed failed 0 s ≡ some (0, s')) × (s'.kernel ≡ s.kernel)
unfolding verdict
verdict_lem passed failed s h t l =
    let (s', e, k) = fdputs_lem passed s h t l in (s', rw (e, ◌>>=◌) refl, k)

-- A test that passes, and leaves the kernel as it is.
abbrev pub Passes : M ℕ → System → Type 0
Passes test s = (s' : System) × (test s ≡ some (0, s')) × (s'.kernel ≡ s.kernel)

pub err_vidmap-Passes : (s : System) → Speaks s → Passes err_vidmap s
unfolding err_vidmap expect_failure user_vidmap vidmap mem_size length
err_vidmap-Passes s h =
    verdict_lem (codes "err_vidmap: PASS\n") (codes "err_vidmap: FAIL\n") s h refl (omega arith)

module _ (o : Outside) (junk : Buf) where
  pub err_neg_fd-Passes : (s : System) → Speaks s → Passes (err_neg_fd o junk) s
  unfolding err_neg_fd err_fd expect_failure user_read read_to user_close user_write close read
      write length mem_size
  err_neg_fd-Passes s h =
      verdict_lem (codes "err_neg_fd: PASS\n") (codes "err_neg_fd: FAIL\n") s h refl (omega arith)

  pub err_big_fd-Passes : (s : System) → Speaks s → Passes (err_big_fd o junk) s
  unfolding err_big_fd err_fd expect_failure user_read read_to user_close user_write close read
      write length mem_size
  err_big_fd-Passes s h =
      verdict_lem (codes "err_big_fd: PASS\n") (codes "err_big_fd: FAIL\n") s h refl (omega arith)

  pub err_stdin_out-Passes : (s : System) → Speaks s → Passes (err_stdin_out o junk) s
  unfolding err_stdin_out expect_failure user_write user_read read_to read write length mem_size
  err_stdin_out-Passes s h =
      verdict_lem (codes "err_stdin_out: PASS\n") (codes "err_stdin_out: FAIL\n") s h refl
        (omega arith)
