-- ===== src/Entry/Shell.antt =====
-- The end of `entry`: `launch_tests` of student-distrib/tests.c executes "shell".
use iaaa_os.Base.{
  ℕ, zero, suc, ◌+◌, ◌<◌, ◌≡◌, ◌≢◌, refl, ap, arith, ltb, if◌then◌else◌, false, Buf, shift, word,
  some, subst, sym, fun_ext,
}
use iaaa_os.Str.{mem_size}
use iaaa_os.Str.Length.{HasLength}
use iaaa_os.FileSystem.{entry, file_type, inode_num, read_dentry_by_name}
use iaaa_os.FileSystem.Data.{content}
use iaaa_os.Kernel.{Kernel, get_next_avail_pid}
use iaaa_os.Process.{is_full, entered, execute, shell_name}
use iaaa_os.Process.Command.{IsCommand}
use iaaa_os.Process.Load.{IsExecutable, IsLoaded, execute_lem}
use iaaa_os.System.{System}
use iaaa_os.Machine.{
  Entry, execute_call, handle, with_kernel, after_call, IsBoot, Reachable, booted, after,
}

shell_letters : (i : ℕ) → i < 5 → (shell_name (0 + i) ≢ 0) × (shell_name (0 + i) ≢ b' ')
shell_letters zero h = (omega arith, omega arith)
shell_letters (suc zero) h = (omega arith, omega arith)
shell_letters (suc (suc zero)) h = (omega arith, omega arith)
shell_letters (suc (suc (suc zero))) h = (omega arith, omega arith)
shell_letters (suc (suc (suc (suc zero)))) h = (omega arith, omega arith)
shell_letters (suc (suc (suc (suc (suc i))))) h = absurd (omega arith)

shell_name-IsCommand : IsCommand shell_name 0 5 0
unfolding mem_size
shell_name-IsCommand = record {
  leading = λ i h. absurd (omega arith);
  word_at = shell_letters;
  some_word = omega arith;
  separated = λ i h. absurd (omega arith);
  behind_spaces = omega arith;
  no_space = λ e. refl;
  fits = omega arith;
  ends = omega arith;
}

no_arguments : HasLength (shift shell_name 5) 0
no_arguments = record { nul = refl; chars = λ i h. absurd (omega (arith, h)) }

IsBoot-room : (s : System) → IsBoot s → is_full s.kernel ≡ false
unfolding get_next_avail_pid
IsBoot-room s h = ground (arith, h.pid_of 0 (omega arith), h.pid_bitmap 0 (omega arith))

-- The name that `execute` looks up: behind the word its buffer holds what was there.
abbrev pub looked_up : Buf → Buf
looked_up behind j = if ltb j 5 then shell_name (0 + j) else if ltb j 32 then 0 else behind j

-- If the directory has the entry of an executable under the name "shell", which ends in the page of a program and
-- whose blocks exist, then the machine that begins
-- loads it: the call of `launch_tests` enters the program at the address that the file gives, without arguments, the
-- terminal as its descriptors 0 and 1 and no other in use, in a state that is reachable.
pub boot-IsLoaded :
    (s : System) (at : Entry) (d : Buf)
    → IsBoot s
    → read_dentry_by_name s.kernel.fs (some (looked_up at.behind)) (λ _. 0) ≡ some (entry d)
    → file_type d ≡ 2
    → IsExecutable s.kernel.fs (inode_num d)
    → (k' : Kernel) × (execute (some shell_name) at.behind at.ebp at.esp s.kernel
        ≡ some (entered (word (content s.kernel.fs (inode_num d)) 24), k'))
      × IsLoaded s.kernel.fs (inode_num d) (shift shell_name 5) 0 k'
      × (handle (execute_call (some shell_name) at) s ≡ some (with_kernel s k'))
      × Reachable (with_kernel s k')
unfolding handle
boot-IsLoaded s at d h look kind x =
    let same : (name : Buf)
        → ((j : ℕ)
            → name j
              ≡ (if ltb j 5 then shell_name (0 + j) else if ltb j 32 then 0 else at.behind j))
        → read_dentry_by_name s.kernel.fs (some name) (λ _. 0) ≡ some (entry d) =
      λ name f.
        subst (λ b. read_dentry_by_name s.kernel.fs (some b) (λ _. 0) ≡ some (entry d))
          (sym (fun_ext f)) look in
    let (k', e, l) =
      execute_lem shell_name at.behind 0 5 0 0 d at.ebp at.esp s.kernel (IsBoot-room s h)
        shell_name-IsCommand no_arguments (omega arith) same kind x in
    let step : handle (execute_call (some shell_name) at) s ≡ some (with_kernel s k') =
      ap (after_call s) e in
    (
      k',
      e,
      l,
      step,
      after (execute_call (some shell_name) at) s (with_kernel s k') (booted s h) step,
    )
