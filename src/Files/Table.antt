-- ===== src/Files/Table.antt =====
-- The descriptors of a process: `open` and `close`.
use native.Mathlib.Decide.{ℕ_discrete}
use iaaa_os.Base.{
  ℕ, zero, suc, ◌+◌, ◌≤◌, ◌<◌, ◌≡◌, ◌≢◌, ◌⊎◌, refl, arith, Arr, Buf, ℤ, pos, negsuc, minus_one,
  some, false, is_zero, ◌==◌, Bool-cases, inl, inr, if◌then◌else◌,
}
use iaaa_os.Files.{
  fd_of, set_fd, free_fd, free_fd_from, open_switch, open_call, close, table_close, rtc_name,
}
use iaaa_os.Kernel.{
  FileOps, null_ops, rtc_ops, dir_ops, file_ops, terminal_ops, Fd, Kernel, get_pcb_process,
  curr_pcb, closed_fd,
}
use iaaa_os.Rtc.{rtc_close}
use iaaa_os.Str.{strncmp}
use iaaa_os.FileSystem.{Lookup, fail, entry, file_type, inode_num, read_dentry_by_name}

-- `r` is the first descriptor from `i` on that is not in use, and 8 if there is none.
pub record IsFirstFree (a : Arr Fd) (i r : ℕ) : Type 0 where
  pub from : i ≤ r
  pub to : r ≤ 8
  pub free : r < 8 → (a r).flags ≡ 0
  pub used : (j : ℕ) → i ≤ j → j < r → (a j).flags ≢ 0

free_fd_from_lem :
    (rounds i : ℕ) (a : Arr Fd) → i + rounds ≡ 8 → IsFirstFree a i (free_fd_from rounds i a)
unfolding free_fd_from
free_fd_from_lem zero i a e = record {
  from = omega arith;
  to = omega arith;
  free = λ h. absurd (omega arith);
  used = λ j lo hi. absurd (omega arith);
}
free_fd_from_lem (suc rounds) i a e =
    let ih = free_fd_from_lem rounds (suc i) a (omega arith) in
    elim (Bool-cases ((a i).flags == 0)) [
      | inl t ↦ rw t (record {
        from = omega arith;
        to = omega arith;
        free = λ h. ground (arith, t);
        used = λ j lo hi. absurd (omega arith);
      })
      | inr t ↦ rw t (record {
        from = omega (arith, ih.from);
        to = ih.to;
        free = ih.free;
        used = λ j lo hi. elim (ℕ_discrete j i) [
          | yes here ↦ rw here (ground (arith, t))
          | no past ↦ ih.used j (omega arith) hi
        ];
      })
    ]

-- A descriptor that is not in use is cleared, and one in use has a table.
pub record IsValidFd (d : Fd) : Type 0 where
  pub cleared : d.flags ≡ 0 → d ≡ closed_fd
  pub served : d.flags ≢ 0 → d.file_op ≢ null_ops

-- The descriptors that a program may open and close.
unfoldable pub HasValidFds : Kernel → Type 0
HasValidFds k = (j : ℕ) → 2 ≤ j → j < 8 → IsValidFd (fd_of k j)

pub fd_of-set_fd :
    (k : Kernel) (i j : ℕ) (d : Fd) → fd_of (set_fd i d k) j ≡ (if j == i then d else fd_of k j)
unfolding get_pcb_process
fd_of-set_fd k i j d = ground arith

pub fd_of-open_switch :
    (i t inode j : ℕ) (k : Kernel)
    → fd_of (open_switch i t inode k).1 j ≡ (
        if j == i
        then (if t == 0
            then record { file_op = rtc_ops; inode = 0; file_pos = 0; flags = 1 }
            else if t == 1
            then record { file_op = dir_ops; inode = 0; file_pos = 0; flags = 1 }
            else if t == 2
            then record { file_op = file_ops; inode = inode; file_pos = 0; flags = 1 }
            else record (fd_of k i) { flags = 1 })
        else fd_of k j)
unfolding open_switch get_pcb_process
fd_of-open_switch i t inode j k = ground arith

pub free_fd-IsFirstFree : (a : Arr Fd) → IsFirstFree a 2 (free_fd a)
unfolding free_fd
free_fd-IsFirstFree a = free_fd_from_lem 6 2 a refl

-- What `open` may do: fail and change nothing, or take the first free descriptor and no other.
pub data Opens (k : Kernel) (r : ℤ) (k' : Kernel) : Type 0 where
  refused : r ≡ minus_one → k' ≡ k → Opens k r k'
  opened :
      (i : ℕ)
      → r ≡ pos i
      → i < 8
      → IsFirstFree (curr_pcb k).fd_arr 2 i
      → (fd_of k' i).flags ≡ 1
      → (fd_of k' i).file_op ≢ null_ops
      → (fd_of k' i).file_pos ≡ 0
      → ((j : ℕ) → j ≢ i → fd_of k' j ≡ fd_of k j)
      → Opens k r k'

module _ (k : Kernel) where
  open_switch-result : (i t inode : ℕ) → t ≤ 2 → (open_switch i t inode k).0 ≡ pos i
  unfolding open_switch
  open_switch-result i t inode h = ground arith

  open_switch-Opens :
      (t inode : ℕ)
      → t ≤ 2
      → free_fd (curr_pcb k).fd_arr < 8
      → let o = open_switch (free_fd (curr_pcb k).fd_arr) t inode k in Opens k o.0 o.1
  open_switch-Opens t inode h lt =
      let i = free_fd (curr_pcb k).fd_arr in
      let same = fd_of-open_switch i t inode i k in
      opened i (open_switch-result i t inode h) lt (free_fd-IsFirstFree (curr_pcb k).fd_arr)
        (ground (arith, same)) (ground (arith, same)) (ground (arith, same))
        (λ j ne. ground (arith, fd_of-open_switch i t inode j k))

  -- If the look-up of the name ends, and finds no entry of a type above 2, `open` returns: it fails
  -- and changes nothing, or returns the first free descriptor from 2 to 7, which it has set to a
  -- table, in use and at position 0, and it changes no other descriptor.
  pub open_call-Opens :
      (filename : Buf) {l : Lookup}
      → read_dentry_by_name k.fs (some filename) (λ _. 0) ≡ some l
      → ((d : Buf) → l ≡ entry d → file_type d ≤ 2)
      → (r : ℤ) × (k' : Kernel) × (open_call filename k ≡ some (r, k')) × Opens k r k'
  unfolding open_call
  open_call-Opens filename {l = l} look known =
      let first = free_fd-IsFirstFree (curr_pcb k).fd_arr in
      elim (ℕ_discrete (free_fd (curr_pcb k).fd_arr) 8) [
        | yes full ↦ (minus_one, k, ground (arith, full), refused refl refl)
        | no d ↦
            let lt : free_fd (curr_pcb k).fd_arr < 8 = omega (arith, first.to) in
            elim (Bool-cases (is_zero (strncmp filename rtc_name 4))) [
              | inl rtc ↦
                  let o = open_switch (free_fd (curr_pcb k).fd_arr) 0 0 k in
                  (o.0, o.1, ground (arith, lt, rtc), open_switch-Opens 0 0 (omega arith) lt)
              | inr other ↦ look_up l look known lt other
            ]
      ]
    where
      look_up :
          (l : Lookup)
          → read_dentry_by_name k.fs (some filename) (λ _. 0) ≡ some l
          → ((d : Buf) → l ≡ entry d → file_type d ≤ 2)
          → free_fd (curr_pcb k).fd_arr < 8
          → is_zero (strncmp filename rtc_name 4) ≡ false
          → (r : ℤ) × (k' : Kernel) × (open_call filename k ≡ some (r, k')) × Opens k r k'
      look_up fail look known lt other =
          (minus_one, k, ground (arith, lt, other, look), refused refl refl)
      look_up (entry d) look known lt other =
          let o = open_switch (free_fd (curr_pcb k).fd_arr) (file_type d) (inode_num d) k in
          (
            o.0,
            o.1,
            ground (arith, lt, other, look),
            open_switch-Opens (file_type d) (inode_num d) (known d refl) lt,
          )

  pub Opens-HasValidFds : (r : ℤ) (k' : Kernel) → Opens k r k' → HasValidFds k → HasValidFds k'
  unfolding HasValidFds
  Opens-HasValidFds r k' (refused e same) v = rw same v
  Opens-HasValidFds r k' (opened i e lt first flag served at others) v = λ j lo hi.
      elim (ℕ_discrete j i) [
        | yes here ↦ rw here (record { cleared = λ z. absurd (omega arith); served = λ _. served })
        | no d ↦ rw (others j d) (v j lo hi)
      ]

  -- What `close` leaves: the descriptor cleared and the others as they were.
  unfoldable pub Closes : ℕ → Kernel → Type 0
  Closes fd k' = (j : ℕ) → fd_of k' j ≡ (if j == fd then closed_fd else fd_of k j)

  table_close-total :
      (ops : FileOps)
      → ops ≢ null_ops
      → (r : ℤ) × (k' : Kernel) × (table_close ops k ≡ some (r, k'))
        × ((j : ℕ) → fd_of k' j ≡ fd_of k j)
        × ((ops ≡ terminal_ops) ⊎ (r ≡ pos 0))
  unfolding table_close rtc_close get_pcb_process
  table_close-total null_ops ne = absurd (ne refl)
  table_close-total rtc_ops ne = (_, _, refl, λ j. refl, inr refl)
  table_close-total dir_ops ne = (_, _, refl, λ j. refl, inr refl)
  table_close-total file_ops ne = (_, _, refl, λ j. refl, inr refl)
  table_close-total terminal_ops ne = (_, _, refl, λ j. refl, inl refl)

  -- `close` of a descriptor from 2 to 7 that is in use returns, 0 unless it is the terminal's,
  -- clears that descriptor, and changes no other.
  pub close-Closes :
      (fd : ℕ)
      → HasValidFds k
      → 2 ≤ fd
      → fd < 8
      → (fd_of k fd).flags ≢ 0
      → (r : ℤ) × (k' : Kernel) × (close (pos fd) k ≡ some (r, k'))
        × Closes fd k'
        × (((fd_of k fd).file_op ≡ terminal_ops) ⊎ (r ≡ pos 0))
  unfolding close HasValidFds Closes
  close-Closes fd v lo hi used =
      let (r, k', e, same, out) =
        table_close-total (fd_of k fd).file_op ((v fd lo hi).served used) in
      (
        r,
        set_fd fd closed_fd k',
        ground (arith, e),
        λ j. ground (arith, fd_of-set_fd k' fd j closed_fd, same j),
        out,
      )

  -- `close` fails and changes nothing on a negative number, on 0, 1 and numbers from 8 on, and on a
  -- descriptor that is not in use.
  pub close-refused :
      ((n : ℕ) → close (negsuc n) k ≡ some (minus_one, k))
      × ((fd : ℕ)
          → (fd < 2) ⊎ (8 ≤ fd) ⊎ ((fd_of k fd).flags ≡ 0)
          → close (pos fd) k ≡ some (minus_one, k))
  unfolding close
  close-refused = (λ n. refl, λ fd h. ground arith)
