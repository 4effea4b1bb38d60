-- ===== src/Tests/Programs.antt =====
-- The properties of system calls, scheduling and paging on small states.
use iaaa_os.Base.{
  ◌≢◌, ◌⊎◌, word, ltb, if◌then◌else◌, minus_one, ℕ, ◌+◌, ◌≤◌, ◌<◌, ◌≡◌, ◌≢◌, ◌⊎◌, inl, refl, ap,
  arith, ltb, ◌==◌, if◌then◌else◌, Buf, word, ℤ, pos, minus_one, none, some, false, is_zero,
}
use iaaa_os.Str.{mem_size, strncmp}
use iaaa_os.Str.Copy.{padded}
use iaaa_os.Str.Compare.{IsBytes}
use iaaa_os.FileSystem.Dentry.{name, FirstNamed, IsEntry, read_dentry_by_name_lem}
use iaaa_os.Str.Length.{HasLength}
use iaaa_os.FileSystem.{
  Lookup, fail, entry, file_type, num_inode, inode_length, num_dir_entries, num_data_blocks,
  data_block_num, dir_list, read_dentry_by_name,
}
use iaaa_os.FileSystem.Block.{Filled}
use iaaa_os.FileSystem.Data.{content, BlocksExist}
use iaaa_os.Kernel.{closed_fd, terminal_ops, Kernel, get_pcb_process, curr_pcb, get_next_avail_pid}
use iaaa_os.Files.{fd_of, free_fd, open_call, close, dir_read, file_read, rtc_name}
use iaaa_os.Files.Table.{HasValidFds, Opens, Closes, open_call-Opens, close-Closes}
use iaaa_os.Files.Leak.{open_call-leak}
use iaaa_os.Files.Reading.{entry_name, dir_reads, dir_reads_lem, file_read_lem}
use iaaa_os.Process.Table.{IsFreePid, get_next_avail_pid-IsFreePid}
use iaaa_os.Paging.Walk.{walk}
use iaaa_os.Paging.Init.{paging_init, paging_init-walk}
use iaaa_os.Terminals.{Terminals, initial}
use iaaa_os.Scheduler.{set_terminal_next}
use iaaa_os.Scheduler.Rotation.{IsNext, set_terminal_next-IsNext}
use iaaa_os.Syscalls.{getargs}
use iaaa_os.Syscalls.Guards.{getargs_lem}
use iaaa_os.Tests.{disk, zeros, name_a, kernel, open_file, open_dir, paging}

one_char : HasLength name_a 1
one_char = record { nul = refl; chars = λ i h. ground arith }

image-IsBytes : (kind : ℕ) → kind < 256 → (j : ℕ) → IsBytes (dir_list (disk kind 5 2) j)
unfolding dir_list
image-IsBytes kind h j i = ground arith

name_a-IsBytes : IsBytes name_a
name_a-IsBytes i = ground arith

one_name : (kind : ℕ) → num_dir_entries (disk kind 5 2) ≡ 1
unfolding num_dir_entries word
one_name kind = refl

same_name : (kind : ℕ) → name (dir_list (disk kind 5 2) 0) ≡ name name_a
unfolding name dir_list
same_name kind = refl

kind_of : (kind : ℕ) (d : Buf) → IsEntry (disk kind 5 2) 0 d → file_type d ≡ kind
unfolding file_type dir_list word
kind_of kind d e =
    omega (arith, e 32 (omega arith), e 33 (omega arith), e 34 (omega arith), e 35 (omega arith))

found_from :
    (kind : ℕ) (r : Lookup)
    → read_dentry_by_name (disk kind 5 2) (some name_a) zeros ≡ some r
    → FirstNamed (disk kind 5 2) (name name_a) 0 1 r
    → (d : Buf) × (read_dentry_by_name (disk kind 5 2) (some name_a) zeros ≡ some (entry d))
      × (file_type d ≡ kind)
unfolding FirstNamed
found_from kind fail e f = absurd (f 0 (omega arith) (omega arith) (same_name kind))
found_from kind (entry d) e (k, lo, hi, same, before, copy) =
    let z : k ≡ 0 = omega arith in (d, e, kind_of kind d (λ j h. rw z at (copy j h)))

-- The file `a` is found.
found :
    (kind : ℕ)
    → kind < 256
    → (d : Buf) × (read_dentry_by_name (disk kind 5 2) (some name_a) zeros ≡ some (entry d))
      × (file_type d ≡ kind)
found kind h =
    let (r, e, f) =
      read_dentry_by_name_lem (disk kind 5 2) zeros name_a 1 one_char (omega arith) name_a-IsBytes
        (image-IsBytes kind h) in
    found_from kind r e (rw (one_name kind) at f)

type_of : Lookup → ℕ
type_of fail = 0
type_of (entry d) = file_type d

is_regular : (d d' : Buf) → file_type d ≡ 2 → entry d ≡ entry d' → file_type d' ≤ 2
unfolding type_of
is_regular d d' h e = let g = ap type_of e in omega (arith, g, h)

open_call-Opens_example :
    (r : ℤ) × (k' : Kernel) × (open_call name_a (kernel 2 closed_fd) ≡ some (r, k'))
    × Opens (kernel 2 closed_fd) r k'
open_call-Opens_example =
    let (d, e, t) = found 2 (omega arith) in
    open_call-Opens (kernel 2 closed_fd) name_a e (λ d' same. is_regular d d' t same)

valid_for_leak : HasValidFds (kernel 3 closed_fd)
unfolding HasValidFds get_pcb_process
valid_for_leak j lo hi = record { cleared = λ h. ground arith; served = λ h. ground arith }

first_is_free : free_fd (curr_pcb (kernel 3 closed_fd)).fd_arr < 8
unfolding free_fd get_pcb_process
first_is_free = omega arith

no_clock : is_zero (strncmp name_a rtc_name 4) ≡ false
unfolding strncmp
no_clock = refl

open_call-leak_example :
    let k = kernel 3 closed_fd in
    let i = free_fd (curr_pcb k).fd_arr in
    (k' : Kernel) × (open_call name_a k ≡ some (minus_one, k'))
    × ((fd_of k i).flags ≡ 0)
    × ((fd_of k' i).flags ≡ 1)
    × (close (pos i) k' ≡ none)
open_call-leak_example =
    let (d, e, t) = found 3 (omega arith) in
    open_call-leak (kernel 3 closed_fd) name_a d valid_for_leak first_is_free no_clock e
      (omega (arith, t))

get_next_avail_pid-IsFreePid_example : IsFreePid (kernel 2 closed_fd).pid_bitmap 1
unfolding get_next_avail_pid
get_next_avail_pid-IsFreePid_example = get_next_avail_pid-IsFreePid (kernel 2 closed_fd).pid_bitmap

valid_file : HasValidFds (kernel 2 open_file)
unfolding HasValidFds get_pcb_process
valid_file j lo hi = record { cleared = λ h. ground arith; served = λ h. ground arith }

in_use : (fd_of (kernel 2 open_file) 2).flags ≢ 0
unfolding get_pcb_process
in_use = omega arith

close-Closes_example :
    (r : ℤ) × (k' : Kernel) × (close (pos 2) (kernel 2 open_file) ≡ some (r, k'))
    × Closes (kernel 2 open_file) 2 k'
    × (((fd_of (kernel 2 open_file) 2).file_op ≡ terminal_ops) ⊎ (r ≡ pos 0))
close-Closes_example =
    close-Closes (kernel 2 open_file) 2 valid_file (omega arith) (omega arith) in_use

paging_init-walk_example :
    walk (paging_init paging) 0xB8004 ≡ some (record { phys = 0xB8004; user = 0 })
paging_init-walk_example = paging_init-walk paging 0xB8004 (omega arith)

-- The second terminal is open, the third is not.
abbrev two_open : Terminals
two_open = record initial { terminal_2_active = 1 }

set_terminal_next-IsNext_example : IsNext two_open (set_terminal_next two_open).terminal_next
set_terminal_next-IsNext_example = set_terminal_next-IsNext two_open (inl refl)

one_fits : 1 < mem_size
unfolding mem_size
one_fits = omega arith

getargs_lem_example :
    ((0 < 1) × (1 < 4)
      → (b : Buf) × (getargs zeros 4 (kernel 2 closed_fd) ≡ some (pos 0, b))
        × ((j : ℕ) → b j ≡ (if ltb j 4 then padded (kernel 2 closed_fd).args j else zeros j)))
    × ((◌≡◌ {A = ℕ} 1 0) ⊎ (4 ≤ 1) → getargs zeros 4 (kernel 2 closed_fd) ≡ some (minus_one, zeros))
getargs_lem_example = getargs_lem zeros 4 1 (kernel 2 closed_fd) one_char one_fits

dir_pos : (fd_of (kernel 2 open_dir) 2).file_pos ≡ 0
unfolding get_pcb_process
dir_pos = refl

one_entry : num_dir_entries (kernel 2 open_dir).fs ≡ 1
unfolding num_dir_entries word
one_entry = refl

dir_reads_lem_example :
    let k = kernel 2 open_dir in
    let d = dir_read 2 zeros 32 (dir_reads 0 2 zeros 32 k) in
    (0 < num_dir_entries k.fs
      → (d.0 ≡ pos 32)
        × ((j : ℕ) → d.1 j ≡ (if ltb j 32 then padded (entry_name k.fs 0) j else zeros j)))
    × (0 ≡ num_dir_entries k.fs → (d.0 ≡ pos 0) × (d.1 ≡ zeros))
dir_reads_lem_example =
    dir_reads_lem 2 32 zeros (kernel 2 open_dir) 0 (omega arith) dir_pos (omega arith)
      (omega (arith, one_entry))

file_known : let k = kernel 2 open_file in (fd_of k 2).inode < num_inode k.fs
unfolding num_inode word get_pcb_process
file_known = omega arith

file_inside :
    let k = kernel 2 open_file in (fd_of k 2).file_pos < inode_length k.fs (fd_of k 2).inode
unfolding inode_length word get_pcb_process
file_inside = omega arith

file_small : (fd_of (kernel 2 open_file) 2).file_pos < 4096
unfolding get_pcb_process
file_small = omega arith

file_fits : let k = kernel 2 open_file in inode_length k.fs (fd_of k 2).inode < 0x100000000
unfolding inode_length word get_pcb_process
file_fits = omega arith

file_blocks :
    let k = kernel 2 open_file in
    let d = fd_of k 2 in BlocksExist k.fs d.inode d.file_pos (inode_length k.fs d.inode)
unfolding BlocksExist inode_length data_block_num num_data_blocks word get_pcb_process
file_blocks b lo hi = let e : b ≡ 0 = omega arith in rw e (omega arith)

file_read_lem_example :
    let k = kernel 2 open_file in
    (b : Buf) × (k' : Kernel) × (file_read 2 zeros 3 k ≡ some (pos 3, b, k'))
    × Filled zeros 0 3 (λ i. content k.fs 0 (1 + i)) b
    × ((j : ℕ) → fd_of k' j ≡ (if j == 2 then record open_file { file_pos = 4 } else fd_of k j))
unfolding inode_length word get_pcb_process
file_read_lem_example =
    file_read_lem 2 3 zeros (kernel 2 open_file) file_known file_inside file_small file_fits
      file_blocks
