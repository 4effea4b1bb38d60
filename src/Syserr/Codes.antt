-- ===== src/Syserr/Codes.antt =====
-- Numbers that are no system call.
use iaaa_os.Base.{ℕ, ◌<◌, ◌≡◌, ◌∙◌, refl, arith, true, minus_one, some, [], ◌∷◌, codes}
use iaaa_os.Screen.{puts}
use iaaa_os.Str.{mem_size}
use iaaa_os.Printf.{plain}
use iaaa_os.Printf.Total.{Closes, length}
use iaaa_os.System.{System, terminals_of, video_page}
use iaaa_os.System.Print.{IsMemory, print_total}
use iaaa_os.UserCalls.{
  Outside, is_invalid, invalid_message, print_invalid_sys_call_msg, system_call_check,
}
use iaaa_os.Programs.{text_of}
use iaaa_os.Syserr.{◌>>=◌, expect_failure, call_sys, err_syscall_num}
use iaaa_os.Programs.Texts.{text_of-Holds}
use iaaa_os.Syserr.Passes.{Speaks, Passes, verdict_lem}

message-Closes : Closes plain invalid_message
message-Closes = tt

message_fits : length invalid_message < mem_size
unfolding length mem_size
message_fits = omega arith

module _ (o : Outside) (memory : IsMemory o.memory) where
  -- The call fails with a message and leaves the kernel as it is.
  system_call_check-refused :
      (eax : ℕ) (s : System)
      → is_invalid eax ≡ true
      → eax < 0x100000000
      → (s' : System) × (system_call_check o eax s ≡ some (minus_one, s')) × (s'.kernel ≡ s.kernel)
  unfolding system_call_check print_invalid_sys_call_msg
  system_call_check-refused eax s i small =
      let (out, e) =
        print_total o.memory (text_of invalid_message) (eax ∷ []) invalid_message s memory
          (small, tt) (text_of-Holds invalid_message refl) message-Closes message_fits in
      (
        record s { screen = puts (terminals_of s) (video_page s) out s.screen },
        rw (i, e, system_call_check) refl,
        refl,
      )

  pub err_syscall_num-Passes : (s : System) → Speaks s → Passes (err_syscall_num o) s
  unfolding err_syscall_num call_sys expect_failure is_invalid length mem_size
  err_syscall_num-Passes s h =
      let (s1, e1, k1) = system_call_check-refused 1073741823 s refl (omega arith) in
      let (s2, e2, k2) = system_call_check-refused 3221225473 s1 refl (omega arith) in
      let (s3, e3, k3) = system_call_check-refused 0 s2 refl (omega arith) in
      let k = k3 ∙ k2 ∙ k1 in
      let (s4, e4, k4) =
        verdict_lem (codes "err_syscall_num: PASS\n") (codes "err_syscall_num: FAIL\n") s3 (rw k h)
          refl (omega arith) in
      (s4, rw (e1, e2, e3, e4, ◌>>=◌) refl, k4 ∙ k)
