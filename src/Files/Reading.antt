-- ===== src/Files/Reading.antt =====
-- Reading a directory and a file through a descriptor.
use iaaa_os.Base.{
  ℕ, zero, suc, ◌+◌, ◌-◌, ◌≤◌, ◌<◌, ◌≡◌, refl, arith, Buf, pos, min, some, ltb, ◌==◌, u32,
  if◌then◌else◌,
}
use iaaa_os.Files.{fd_of, set_fd, dir_read, file_read, advance}
use iaaa_os.Files.Table.{fd_of-set_fd}
use iaaa_os.Kernel.{Kernel}
use iaaa_os.FileSystem.{
  Fs, name_size, block_size, num_dir_entries, num_inode, inode_length, dir_list,
}
use iaaa_os.FileSystem.Block.{Filled}
use iaaa_os.FileSystem.Data.{content, BlocksExist, read_data_first_block}
use iaaa_os.Str.Copy.{padded, nul_below, strncpy_lem}

-- The kernel after `n` reads of a directory.
pub dir_reads : ℕ → ℕ → Buf → ℕ → Kernel → Kernel
dir_reads zero fd buf nbytes k = k
dir_reads (suc n) fd buf nbytes k = (dir_read fd buf nbytes (dir_reads n fd buf nbytes k)).2

-- The field `fileName`, and NULs behind it.
abbrev pub entry_name : Fs → ℕ → Buf
entry_name fs n i = if ltb i name_size then dir_list fs n i else 0

nul_below-name :
    (fs : Fs) (n j : ℕ)
    → j ≤ name_size
    → nul_below (entry_name fs n) j ≡ nul_below (dir_list fs n) j
nul_below-name fs n zero h = refl
nul_below-name fs n (suc j) h = rw (nul_below-name fs n j (omega arith)) (ground arith)

padded-name :
    (fs : Fs) (n j : ℕ) → j < name_size → padded (dir_list fs n) j ≡ padded (entry_name fs n) j
padded-name fs n j h = ground (arith, nul_below-name fs n j)

dir_read-pos :
    (fd nbytes : ℕ) (buf : Buf) (k : Kernel)
    → (fd_of k fd).file_pos < num_dir_entries k.fs
    → (fd_of (dir_read fd buf nbytes k).2 fd).file_pos ≡ u32 ((fd_of k fd).file_pos + 1)
unfolding dir_read
dir_read-pos fd nbytes buf k h = ground (
  arith,
  fd_of-set_fd k fd fd (record (fd_of k fd) { file_pos = u32 ((fd_of k fd).file_pos + 1) }),
)

dir_read-fs : (fd nbytes : ℕ) (buf : Buf) (k : Kernel) → (dir_read fd buf nbytes k).2.fs ≡ k.fs
unfolding dir_read
dir_read-fs fd nbytes buf k = ground arith

module _ (fd nbytes : ℕ) (buf : Buf) (k : Kernel) where
  dir_reads-fs : (n : ℕ) → (dir_reads n fd buf nbytes k).fs ≡ k.fs
  unfolding dir_reads
  dir_reads-fs zero = refl
  dir_reads-fs (suc n) =
      ground (arith, dir_read-fs fd nbytes buf (dir_reads n fd buf nbytes k), dir_reads-fs n)

  dir_reads-pos :
      (n : ℕ)
      → (fd_of k fd).file_pos ≡ 0
      → n ≤ num_dir_entries k.fs
      → num_dir_entries k.fs < 0x100000000
      → (fd_of (dir_reads n fd buf nbytes k) fd).file_pos ≡ n
  unfolding dir_reads
  dir_reads-pos zero start h fits = start
  dir_reads-pos (suc n) start h fits = ground (
    arith,
    dir_read-pos fd nbytes buf (dir_reads n fd buf nbytes k),
    dir_reads-fs n,
    dir_reads-pos n start,
  )

  -- From position 0, the read of a directory number `n` (from 0) for at most 32 bytes fills them with the name of
  -- entry `n`, which has 32 bytes without a NUL at most, and NULs behind it, and returns the size asked
  -- for; after the last entry a read returns 0 and leaves the buffer as it is.
  pub dir_reads_lem :
      (n : ℕ)
      → nbytes ≤ name_size
      → (fd_of k fd).file_pos ≡ 0
      → n ≤ num_dir_entries k.fs
      → num_dir_entries k.fs < 0x100000000
      → let d = dir_read fd buf nbytes (dir_reads n fd buf nbytes k) in
        (n < num_dir_entries k.fs
          → (d.0 ≡ pos nbytes)
            × ((j : ℕ) → d.1 j ≡ (if ltb j nbytes then padded (entry_name k.fs n) j else buf j)))
        × (n ≡ num_dir_entries k.fs → (d.0 ≡ pos 0) × (d.1 ≡ buf))
  unfolding dir_read
  dir_reads_lem n short start h fits =
      let k1 = dir_reads n fd buf nbytes k in
      let p = dir_reads-pos n start h fits in
      let f = dir_reads-fs n in
      (
        λ lt. (
          ground (arith, p, f),
          λ j.
              ground
                (arith, p, f, strncpy_lem buf (dir_list k.fs n) nbytes j, padded-name k.fs n j),
        ),
        λ e. (ground (arith, p, f), ground (arith, p, f)),
      )

  -- In the first block of a file whose blocks exist, `file_read` stores the next bytes of the file,
  -- as many as are asked for and left, returns their number, and moves the position on by it.
  pub file_read_lem :
      let d = fd_of k fd in
      d.inode < num_inode k.fs
      → d.file_pos < inode_length k.fs d.inode
      → d.file_pos < block_size
      → inode_length k.fs d.inode < 0x100000000
      → BlocksExist k.fs d.inode d.file_pos (inode_length k.fs d.inode)
      → let n = min nbytes (inode_length k.fs d.inode - d.file_pos) in
        (b : Buf) × (k' : Kernel) × (file_read fd buf nbytes k ≡ some (pos n, b, k'))
        × Filled buf 0 n (λ i. content k.fs d.inode (d.file_pos + i)) b
        × ((j : ℕ)
            → fd_of k' j ≡ (if j == fd then record d { file_pos = d.file_pos + n } else fd_of k j))
  unfolding file_read advance
  file_read_lem known inside small fits v =
      let d = fd_of k fd in
      let n = min nbytes (inode_length k.fs d.inode - d.file_pos) in
      let (b, e, f) =
        read_data_first_block k.fs d.inode d.file_pos nbytes buf known inside small v in
      let d' = record d { file_pos = d.file_pos + n } in
      let exact : u32 (d.file_pos + n) ≡ d.file_pos + n = omega arith in
      (b, set_fd fd d' k, ground (arith, e, exact), f, λ j. fd_of-set_fd k fd j d')
