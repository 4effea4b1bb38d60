-- ===== src/Files/Leak.antt =====
-- `open` on a directory entry whose type is none of the three that it knows.
use iaaa_os.Base.{ℕ, ◌≤◌, ◌<◌, ◌≡◌, arith, Buf, pos, minus_one, none, some, false, is_zero}
use iaaa_os.Files.{fd_of, free_fd, open_switch, open_call, close, table_close, rtc_name}
use iaaa_os.Kernel.{Kernel, curr_pcb}
use iaaa_os.Str.{strncmp}
use iaaa_os.FileSystem.{entry, file_type, inode_num, read_dentry_by_name}
use iaaa_os.Files.Table.{HasValidFds, free_fd-IsFirstFree, fd_of-open_switch}

module _ (k : Kernel) (filename d : Buf) where
  -- If a descriptor is free and the name leads to an entry of a type above 2, `open` returns -1 but
  -- leaves that descriptor in use; it has no table, so a `close` of it calls through NULL.
  pub open_call-leak :
      HasValidFds k
      → free_fd (curr_pcb k).fd_arr < 8
      → is_zero (strncmp filename rtc_name 4) ≡ false
      → read_dentry_by_name k.fs (some filename) (λ _. 0) ≡ some (entry d)
      → 3 ≤ file_type d
      → let i = free_fd (curr_pcb k).fd_arr in
        (k' : Kernel) × (open_call filename k ≡ some (minus_one, k'))
        × ((fd_of k i).flags ≡ 0)
        × ((fd_of k' i).flags ≡ 1)
        × (close (pos i) k' ≡ none)
  unfolding open_call close table_close HasValidFds
  open_call-leak v lt other look unknown =
      let i = free_fd (curr_pcb k).fd_arr in
      let first = free_fd-IsFirstFree (curr_pcb k).fd_arr in
      let o = open_switch i (file_type d) (inode_num d) k in
      let fd = fd_of-open_switch i (file_type d) (inode_num d) i k in
      let cleared = (v i first.from lt).cleared (first.free lt) in
      let result = open_switch-unknown i in
      (
        o.1,
        ground (arith, lt, other, look, result),
        first.free lt,
        ground (arith, fd),
        ground (arith, fd, cleared, first.from, lt),
      )
    where
      open_switch-unknown : (i : ℕ) → (open_switch i (file_type d) (inode_num d) k).0 ≡ minus_one
      open_switch-unknown i = unfold open_switch in ground arith
