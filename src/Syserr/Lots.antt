-- ===== src/Syserr/Lots.antt =====
-- Opening seven files: six descriptors are given, and given back.
use native.Mathlib.Decide.{dec_lt}
use iaaa_os.Base.{
  ℕ, zero, suc, ◌+◌, ◌≤◌, ◌<◌, ◌≡◌, ◌∙◌, refl, sym, ap, subst, arith, ◌==◌, ◌&&◌, ◌||◌,
  if◌then◌else◌, false, ltb, leb, Buf, pos, minus_one, is_zero, some, codes,
}
use iaaa_os.Kernel.{Kernel, Fd, dir_ops, curr_pcb, closed_fd, get_pcb_process}
use iaaa_os.FileSystem.{Fs, entry, read_dentry_by_name}
use iaaa_os.Files.{fd_of, set_fd, close, free_fd, open_call, open_switch, rtc_name, table_close}
use iaaa_os.Files.Table.{free_fd-IsFirstFree, fd_of-set_fd}
use iaaa_os.Str.{mem_size, strncmp}
use iaaa_os.Printf.Total.{length}
use iaaa_os.System.{System}
use iaaa_os.Machine.{with_kernel}
use iaaa_os.UserCalls.{user_open, user_close}
use iaaa_os.Programs.{text_of}
use iaaa_os.Syserr.{◌>>=◌, ◌>>◌, open_times, close_each, err_open_lots}
use iaaa_os.Syserr.Passes.{fdputs_lem}
use iaaa_os.Syserr.Ready.{IsTestDisk, IsReady, IsReady-Speaks}

abbrev directory_fd : Fd
directory_fd = record { file_op = dir_ops; inode = 0; file_pos = 0; flags = 1 }

-- The descriptors 2 to `2 + n - 1` are of a directory, and the others those of `k0`.
record HasOpen (n : ℕ) (k0 k : Kernel) : Type 0 where
  fds : (j : ℕ) → fd_of k j ≡ (if leb 2 j && ltb j (2 + n) then directory_fd else fd_of k0 j)
  disk : k.fs ≡ k0.fs

-- The descriptors 2 to `2 + n - 1` are closed, those behind them up to 7 are of a directory.
record HasClosed (n : ℕ) (k0 k : Kernel) : Type 0 where
  fds :
      (j : ℕ)
      → fd_of k j ≡ (
          if leb 2 j && ltb j (2 + n)
          then closed_fd
          else if leb 2 j && ltb j 8
          then directory_fd
          else fd_of k0 j)
  disk : k.fs ≡ k0.fs

dot_is_no_clock : is_zero (strncmp (text_of (codes ".")) rtc_name 4) ≡ false
unfolding strncmp text_of
dot_is_no_clock = refl

module _ (k0 : Kernel) (ready : IsReady k0) where
  free_fd-HasOpen :
      (n : ℕ) (k : Kernel) → n ≤ 6 → HasOpen n k0 k → free_fd (curr_pcb k).fd_arr ≡ 2 + n
  free_fd-HasOpen n k l h =
      let r = free_fd (curr_pcb k).fd_arr in
      let first = free_fd-IsFirstFree (curr_pcb k).fd_arr in
      elim (dec_lt r (2 + n)) [
        | yes before ↦ absurd (ground (arith, first.free, first.from, h.fds r))
        | no a ↦ elim (dec_lt (2 + n) r) [
          | yes behind ↦ absurd (
              first.used (2 + n) (omega arith) behind
                (ground (arith, h.fds (2 + n), ready.free (2 + n), first.to)))
          | no b ↦ omega arith
        ]
      ]

  open_dot :
      (k : Kernel) (i : ℕ)
      → k.fs ≡ k0.fs
      → free_fd (curr_pcb k).fd_arr ≡ i
      → i < 8
      → open_call (text_of (codes ".")) k ≡ some (pos i, set_fd i directory_fd k)
  unfolding open_call open_switch
  open_dot k i same e l =
      let name = text_of (codes ".") in
      let (d, look, kind) = ready.disk.dot in
      let look' =
        subst (λ (f : Fs). read_dentry_by_name f (some name) (λ _. 0) ≡ some (entry d)) (sym same)
          look in
      let room : (free_fd (curr_pcb k).fd_arr == 8) ≡ false = ground (arith, e) in
      subst (λ m. open_call name k ≡ some (pos m, set_fd m directory_fd k)) e
        (rw (room, dot_is_no_clock, look', kind, open_call) refl)

  open_full :
      (name : Buf) (k : Kernel)
      → free_fd (curr_pcb k).fd_arr ≡ 8
      → open_call name k ≡ some (minus_one, k)
  unfolding open_call
  open_full name k e = rw (e, open_call) refl

  open_step :
      (n : ℕ) (k : Kernel) → HasOpen n k0 k → HasOpen (suc n) k0 (set_fd (2 + n) directory_fd k)
  unfolding get_pcb_process
  open_step n k h = record {
    fds = λ j. ground (arith, fd_of-set_fd k (2 + n) j directory_fd, h.fds j);
    disk = h.disk;
  }

  -- Seven calls, of which `n` have been made: six succeed and the last fails.
  open_times_lem :
      (rounds n cnt : ℕ) (s : System)
      → n + rounds ≡ 7
      → n ≤ 6
      → HasOpen n k0 s.kernel
      → (s' : System) × (open_times rounds cnt s ≡ some (cnt + 1, s')) × HasOpen 6 k0 s'.kernel
  unfolding open_times user_open
  open_times_lem zero n cnt s e l h = absurd (omega arith)
  open_times_lem (suc rounds) n cnt s e l h = elim (dec_lt n 6) [
    | yes more ↦
        let k = set_fd (2 + n) directory_fd s.kernel in
        let o = open_dot s.kernel (2 + n) h.disk (free_fd-HasOpen n s.kernel l h) (omega arith) in
        let (s', same, all) =
          open_times_lem rounds (suc n) cnt (with_kernel s k) (omega arith) (omega arith)
            (open_step n s.kernel h) in
        (s', rw (o, ◌>>=◌) same, all)
    | no full ↦
        let six : n ≡ 6 = omega arith in
        let last : rounds ≡ 0 = omega arith in
        let f = free_fd-HasOpen n s.kernel l h ∙ ap (λ m. 2 + m) six in
        (
          s,
          rw (open_full (text_of (codes ".")) s.kernel f, last, ◌>>=◌) refl,
          subst (λ m. HasOpen m k0 s.kernel) six h,
        )
  ]

  close_directory :
      (k : Kernel) (i : ℕ)
      → 2 ≤ i
      → i < 8
      → fd_of k i ≡ directory_fd
      → close (pos i) k ≡ some (pos 0, set_fd i closed_fd k)
  unfolding close table_close
  close_directory k i lo hi e =
      let inside : (ltb i 2 || leb 8 i) ≡ false = ground arith in rw (inside, e, close) refl

  close_step :
      (n : ℕ) (k : Kernel) → HasClosed n k0 k → HasClosed (suc n) k0 (set_fd (2 + n) closed_fd k)
  unfolding get_pcb_process
  close_step n k h = record {
    fds = λ j. ground (arith, fd_of-set_fd k (2 + n) j closed_fd, h.fds j);
    disk = h.disk;
  }

  close_each_lem :
      (rounds n : ℕ) (s : System)
      → n + rounds ≡ 6
      → HasClosed n k0 s.kernel
      → (s' : System) × (close_each rounds (2 + n) s ≡ some (tt, s')) × HasClosed 6 k0 s'.kernel
  unfolding close_each user_close
  close_each_lem zero n s e h =
      let six : n ≡ 6 = omega arith in (s, refl, subst (λ m. HasClosed m k0 s.kernel) six h)
  close_each_lem (suc rounds) n s e h =
      let k = set_fd (2 + n) closed_fd s.kernel in
      let c =
        close_directory s.kernel (2 + n) (omega arith) (omega arith)
          (ground (arith, h.fds (2 + n))) in
      let (s', same, all) =
        close_each_lem rounds (suc n) (with_kernel s k) (omega arith) (close_step n s.kernel h) in
      let index : 2 + n + 1 ≡ 2 + suc n = omega arith in
      (s', rw (c, ◌>>=◌, ◌>>◌) (ap (λ i. close_each rounds i (with_kernel s k)) index ∙ same), all)

  opened-closed : (k : Kernel) → HasOpen 6 k0 k → HasClosed 0 k0 k
  opened-closed k h = record { fds = λ j. ground (arith, h.fds j); disk = h.disk }

  closed-IsReady : (k : Kernel) → HasClosed 6 k0 k → IsReady k
  closed-IsReady k h = record {
    output = ground (arith, h.fds 1, ready.output);
    open_output = ground (arith, h.fds 1, ready.open_output);
    free = λ j lo hi. ground (arith, h.fds j);
    disk = subst IsTestDisk (sym h.disk) ready.disk;
  }

-- Six of the seven files are opened, and the kernel is as ready for a program behind the test.
pub err_open_lots-passes :
    (s : System)
    → IsReady s.kernel
    → (s' : System) × (err_open_lots s ≡ some (0, s')) × IsReady s'.kernel
unfolding err_open_lots length mem_size
err_open_lots-passes s h =
    let start : HasOpen 0 s.kernel s.kernel = record { fds = λ j. ground arith; disk = refl } in
    let (s1, e1, o) = open_times_lem s.kernel h 7 0 0 s refl (omega arith) start in
    let (s2, e2, c) =
      close_each_lem s.kernel h 6 0 s1 refl (opened-closed s.kernel h s1.kernel o) in
    let r = closed-IsReady s.kernel h s2.kernel c in
    let (s3, e3, k) =
      fdputs_lem (codes "err_open_lots: PASS\n") s2 (IsReady-Speaks s2 r) refl (omega arith) in
    (s3, rw (e1, e2, e3, ◌>>=◌, ◌>>◌) refl, subst IsReady (sym k) r)
