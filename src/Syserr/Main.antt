-- ===== src/Syserr/Main.antt =====
-- `main` of syserr.
use iaaa_os.Base.{
  ℕ, zero, suc, ◌+◌, ◌≤◌, ◌≡◌, ◌≢◌, refl, sym, subst, arith, Buf, pos, sub_ℕ, some, codes,
}
use iaaa_os.Str.{mem_size}
use iaaa_os.Printf.Total.{length}
use iaaa_os.Kernel.{Kernel, terminal_ops}
use iaaa_os.Files.{fd_of}
use iaaa_os.Syscalls.{called, read}
use iaaa_os.System.{System}
use iaaa_os.System.Print.{IsMemory}
use iaaa_os.UserCalls.{Outside, user_read, read_result}
use iaaa_os.Syserr.{
  fdputs, err_open_lots, M, ◌>>=◌, ◌>>◌, read_to, err_neg_fd, err_big_fd, err_open, err_unopened,
  err_vidmap, err_stdin_out, err_syscall_num, all_tests, run_test, answer, main,
}
use iaaa_os.Syserr.Passes.{
  Passes, fdputs_lem, err_neg_fd-Passes, err_big_fd-Passes, err_vidmap-Passes, err_stdin_out-Passes,
}
use iaaa_os.Syserr.Ready.{IsReady, IsReady-Speaks, err_open-Passes, err_unopened-Passes}
use iaaa_os.Syserr.Lots.{err_open_lots-passes}
use iaaa_os.Syserr.Codes.{err_syscall_num-Passes}

read_terminal :
    (k : Kernel)
    → (fd_of k 0).file_op ≡ terminal_ops
    → (fd_of k 0).flags ≢ 0
    → read (pos 0) k ≡ called terminal_ops 0
unfolding read
read_terminal k t u = ground (arith, t, u)

-- A test that passes and leaves the kernel ready.
abbrev PassesReady : M ℕ → System → Type 0
PassesReady test s = (s' : System) × (test s ≡ some (0, s')) × IsReady s'.kernel

Passes-Ready : (test : M ℕ) (s : System) → IsReady s.kernel → Passes test s → PassesReady test s
Passes-Ready test s h (s', e, k) = (s', e, subst IsReady (sym k) h)

module _ (o : Outside) (memory : IsMemory o.memory) (junk : Buf) where
  all_tests-run :
      (s s1 s2 s3 s4 s5 s6 s7 s8 s9 : System)
      → err_neg_fd o junk s ≡ some (0, s1)
      → err_big_fd o junk s1 ≡ some (0, s2)
      → err_open_lots s2 ≡ some (0, s3)
      → err_open s3 ≡ some (0, s4)
      → err_unopened o junk s4 ≡ some (0, s5)
      → err_vidmap s5 ≡ some (0, s6)
      → err_stdin_out o junk s6 ≡ some (0, s7)
      → err_syscall_num o s7 ≡ some (0, s8)
      → fdputs (pos 1) (codes "\nOverall Tests: PASS\n") s8 ≡ some (tt, s9)
      → all_tests o junk s ≡ some (0, s9)
  unfolding all_tests
  all_tests-run s s1 s2 s3 s4 s5 s6 s7 s8 s9 e1 e2 e3 e4 e5 e6 e7 e8 e9 =
      rw (e1, e2, e3, e4, e5, e6, e7, e8, e9, ◌>>=◌, ◌>>◌) refl

  all_tests-passes : (s : System) → IsReady s.kernel → PassesReady (all_tests o junk) s
  unfolding length mem_size
  all_tests-passes s h =
      let (s1, e1, h1) =
        Passes-Ready (err_neg_fd o junk) s h (err_neg_fd-Passes o junk s (IsReady-Speaks s h)) in
      let (s2, e2, h2) =
        Passes-Ready (err_big_fd o junk) s1 h1
          (err_big_fd-Passes o junk s1 (IsReady-Speaks s1 h1)) in
      let (s3, e3, h3) = err_open_lots-passes s2 h2 in
      let (s4, e4, h4) = Passes-Ready err_open s3 h3 (err_open-Passes s3 h3) in
      let (s5, e5, h5) =
        Passes-Ready (err_unopened o junk) s4 h4 (err_unopened-Passes s4 h4 o junk) in
      let (s6, e6, h6) =
        Passes-Ready err_vidmap s5 h5 (err_vidmap-Passes s5 (IsReady-Speaks s5 h5)) in
      let (s7, e7, h7) =
        Passes-Ready (err_stdin_out o junk) s6 h6
          (err_stdin_out-Passes o junk s6 (IsReady-Speaks s6 h6)) in
      let (s8, e8, h8) =
        Passes-Ready (err_syscall_num o) s7 h7
          (err_syscall_num-Passes o memory s7 (IsReady-Speaks s7 h7)) in
      let (s9, e9, k9) =
        fdputs_lem (codes "\nOverall Tests: PASS\n") s8 (IsReady-Speaks s8 h8) refl (omega arith) in
      (
        s9,
        all_tests-run s s1 s2 s3 s4 s5 s6 s7 s8 s9 e1 e2 e3 e4 e5 e6 e7 e8 e9,
        subst IsReady (sym k9) h8,
      )

  run_test-passes :
      (n : ℕ) (s : System) → n ≤ 8 → IsReady s.kernel → PassesReady (run_test o (pos n) junk) s
  unfolding run_test
  run_test-passes zero s l h = all_tests-passes s h
  run_test-passes (suc zero) s l h =
      Passes-Ready (err_neg_fd o junk) s h (err_neg_fd-Passes o junk s (IsReady-Speaks s h))
  run_test-passes (suc (suc zero)) s l h =
      Passes-Ready (err_big_fd o junk) s h (err_big_fd-Passes o junk s (IsReady-Speaks s h))
  run_test-passes (suc (suc (suc zero))) s l h = err_open_lots-passes s h
  run_test-passes (suc (suc (suc (suc zero)))) s l h =
      Passes-Ready err_open s h (err_open-Passes s h)
  run_test-passes (suc (suc (suc (suc (suc zero))))) s l h =
      Passes-Ready (err_unopened o junk) s h (err_unopened-Passes s h o junk)
  run_test-passes (suc (suc (suc (suc (suc (suc zero)))))) s l h =
      Passes-Ready err_vidmap s h (err_vidmap-Passes s (IsReady-Speaks s h))
  run_test-passes (suc (suc (suc (suc (suc (suc (suc zero))))))) s l h =
      Passes-Ready (err_stdin_out o junk) s h (err_stdin_out-Passes o junk s (IsReady-Speaks s h))
  run_test-passes (suc (suc (suc (suc (suc (suc (suc (suc zero)))))))) s l h =
      Passes-Ready (err_syscall_num o) s h (err_syscall_num-Passes o memory s (IsReady-Speaks s h))
  run_test-passes (suc (suc (suc (suc (suc (suc (suc (suc (suc n))))))))) s l h =
      absurd (omega arith)

  -- On a kernel that is ready for a program, on whose disk the directory has an entry `.` and none of the
  -- names that are tried, every test that can be chosen passes: if the terminal gives a line that begins with
  -- a digit from 0 to 8 and leaves the kernel ready, `main` returns 0, and the kernel is ready again.
  pub main-passes :
      (n : ℕ) (s : System) (cnt : ℕ) (line : Buf)
      → n ≤ 8
      → IsReady s.kernel
      → (fd_of s.kernel 0).file_op ≡ terminal_ops
      → ((s1 : System)
          → s1.kernel ≡ s.kernel
          → (s2 : System) × (o.terminal_read junk 127 s1 ≡ some (pos cnt, line, s2))
            × IsReady s2.kernel)
      → (fd_of s.kernel 0).flags ≢ 0
      → line 0 ≡ b'0' + n
      → (s' : System) × (main o junk s ≡ some (0, s')) × IsReady s'.kernel
  unfolding main answer read_to user_read read_result length mem_size
  main-passes n s cnt line l h t comes u e =
      let (s1, e1, k1) =
        fdputs_lem (codes "Choose from tests 1-8. 0 to run all: ") s (IsReady-Speaks s h) refl
          (omega arith) in
      let (s2, e2, h2) = comes s1 k1 in
      let (s3, e3, h3) = run_test-passes n s2 l h2 in
      let terminal = read_terminal s1.kernel (rw k1 t) (rw k1 u) in
      let digit : sub_ℕ (line 0) b'0' ≡ pos n = ground (arith, e) in
      (s3, rw (e1, terminal, e2, digit, e3, ◌>>=◌, ◌>>◌) refl, h3)
