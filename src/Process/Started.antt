-- ===== src/Process/Started.antt =====
-- The descriptors of a program that `execute` has just started.
use iaaa_os.Base.{ℕ, ◌≤◌, ◌<◌, ◌≡◌, ◌≢◌, refl, ap, ◌∙◌, inc8, arith, ◌==◌, if◌then◌else◌, upd, ℤ}
use iaaa_os.Kernel.{Kernel, Pcb, curr_pcb, clear_pcb_struct, get_pcb_process, terminal_ops}
use iaaa_os.Files.{fd_of}
use iaaa_os.Process.{spawn, allocate, init_pcb, activate, terminal_fd}
use iaaa_os.FileSystem.{Fs}

-- The descriptors are those of a process control block that was cleared.
init_pcb-fds :
    (parent : ℤ) (ebp esp : ℕ) (k : Kernel) (j : ℕ)
    → fd_of (init_pcb parent ebp esp k) j ≡ (clear_pcb_struct (curr_pcb k)).fd_arr j
unfolding init_pcb get_pcb_process
init_pcb-fds parent ebp esp k j = ground arith

activate-fds :
    (k : Kernel) (j : ℕ)
    → fd_of (activate k) j ≡ (
        if j == 1
        then terminal_fd (fd_of k 1)
        else if j == 0
        then terminal_fd (fd_of k 0)
        else fd_of k j)
unfolding activate get_pcb_process
activate-fds k j = ground arith

activate-fs : (k : Kernel) → (activate k).fs ≡ k.fs
unfolding activate
activate-fs k = refl

init_pcb-fs : (parent : ℤ) (ebp esp : ℕ) (k : Kernel) → (init_pcb parent ebp esp k).fs ≡ k.fs
unfolding init_pcb
init_pcb-fs parent ebp esp k = ground arith

allocate-fs : (k : Kernel) → (allocate k).fs ≡ k.fs
unfolding allocate
allocate-fs k = refl

cleared : (p : Pcb) (j : ℕ) → 2 ≤ j → j < 8 → ((clear_pcb_struct p).fd_arr j).flags ≡ 0
unfolding clear_pcb_struct
cleared p j lo hi = ground arith

-- What a started program finds: its two terminals, no other descriptor, and the disk.
pub record IsStarted (fs : Fs) (k : Kernel) : Type 0 where
  pub input : (fd_of k 0).file_op ≡ terminal_ops
  pub open_input : (fd_of k 0).flags ≢ 0
  pub output : (fd_of k 1).file_op ≡ terminal_ops
  pub open_output : (fd_of k 1).flags ≢ 0
  pub free : (j : ℕ) → 2 ≤ j → j < 8 → (fd_of k j).flags ≡ 0
  pub disk : k.fs ≡ fs

pub spawn-IsStarted : (ebp esp : ℕ) (k : Kernel) → IsStarted k.fs (spawn ebp esp k)
unfolding spawn
spawn-IsStarted ebp esp k =
    let parent = upd k.pid_of 0 (inc8 (k.pid_of 0)) k.terminals.terminal_curr in
    let k1 = init_pcb parent ebp esp (allocate k) in
    let fds = activate-fds k1 in
    record {
      input = ap (λ d. d.file_op) (fds 0);
      open_input = λ z. absurd (omega (arith, ap (λ d. d.flags) (fds 0), z));
      output = ap (λ d. d.file_op) (fds 1);
      open_output = λ z. absurd (omega (arith, ap (λ d. d.flags) (fds 1), z));
      free = λ j lo hi. ground (
        arith,
        fds j,
        init_pcb-fds parent ebp esp (allocate k) j,
        cleared (curr_pcb (allocate k)) j,
      );
      disk = activate-fs k1 ∙ init_pcb-fs parent ebp esp (allocate k) ∙ allocate-fs k;
    }
