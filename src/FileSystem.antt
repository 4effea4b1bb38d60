-- ===== src/FileSystem.antt =====
-- student-distrib/fileSystem.c: the directory and the reading of a file's data from the image in
-- memory. The image is not changed; the destination buffers lie outside it.
pub mod Dentry
pub mod Block
pub mod Data
use iaaa_os.Base.{
  ℕ, zero, suc, ◌+◌, ◌-◌, ◌*◌, ◌/◌, ◌%◌, ◌<◌, Bool, true, false, Option, none, some, ltb, leb, ◌==◌,
  if◌then◌else◌, Buf, upd, shift, word, ℤ, is_zero, pos, minus_one,
}
use iaaa_os.Str.{strlen, strncpy, strncmp}
use iaaa_os.Memcpy.{memcpy}

-- The memory and the four global pointers.
pub record Fs : Type 0 where
  pub mem : Buf
  pub boot_block_ptr : ℕ
  pub inode_ptr : ℕ
  pub dir_entry_ptr : ℕ
  pub data_block_ptr : ℕ

abbrev pub block_size : ℕ
block_size = 4096

-- `sizeof(dirEntry_t)`, the length of a name, and the offset of `dirList`.
abbrev pub dentry_size : ℕ
dentry_size = 64

abbrev pub name_size : ℕ
name_size = 32

abbrev pub dir_list_offset : ℕ
dir_list_offset = 64

unfoldable pub num_dir_entries : Fs → ℕ
num_dir_entries fs = word fs.mem fs.boot_block_ptr

unfoldable pub num_inode : Fs → ℕ
num_inode fs = word fs.mem (fs.boot_block_ptr + 4)

unfoldable pub num_data_blocks : Fs → ℕ
num_data_blocks fs = word fs.mem (fs.boot_block_ptr + 8)

-- `&bootBlock_ptr->dirList[i]`
unfoldable pub dir_list : Fs → ℕ → Buf
dir_list fs i = shift fs.mem (fs.boot_block_ptr + dir_list_offset + dentry_size * i)

-- The fields of a `dirEntry_t`; its name is in front.
unfoldable pub file_type : Buf → ℕ
file_type d = word d 32

unfoldable pub inode_num : Buf → ℕ
inode_num d = word d 36

-- The fields of the `inode_t` with number `inode`.
unfoldable pub inode_length : Fs → ℕ → ℕ
inode_length fs inode = word fs.mem (fs.inode_ptr + block_size * inode)

unfoldable pub data_block_num : Fs → ℕ → ℕ → ℕ
data_block_num fs inode i = word fs.mem (fs.inode_ptr + block_size * inode + 4 + 4 * i)

-- The bytes of the data block with number `n`.
unfoldable pub data_block : Fs → ℕ → Buf
data_block fs n = shift fs.mem (fs.data_block_ptr + block_size * n)

unfoldable pub file_system_init : Buf → ℕ → Fs
file_system_init mem fs_start = record {
  mem = mem;
  boot_block_ptr = fs_start;
  inode_ptr = fs_start + block_size;
  dir_entry_ptr = fs_start + dir_list_offset;
  data_block_ptr = fs_start + block_size + block_size * word mem (fs_start + 4);
}

-- What a look-up leaves: -1, or 0 and the entry that was copied.
pub data Lookup : Type 0 where
  fail : Lookup
  entry : Buf → Lookup

-- The search of `read_dentry_by_name`, with the rounds that are left.
unfoldable pub find_dentry : ℕ → ℕ → Fs → Buf → Buf → Lookup
find_dentry zero i fs local_name dir_entry = fail
find_dentry (suc rounds) i fs local_name dir_entry =
    let rest = find_dentry rounds (i + 1) fs local_name dir_entry in
    if is_zero (strncmp (dir_list fs i) local_name name_size)
    then entry (memcpy 0 dir_entry (dir_list fs i) dentry_size)
    else rest

-- `fname` may be NULL. Without a NUL in all of memory `strlen` does not return.
unfoldable pub read_dentry_by_name : Fs → Option Buf → Buf → Option Lookup
unfolding find_dentry
read_dentry_by_name fs none dir_entry = some fail
read_dentry_by_name fs (some fname) dir_entry = elim (strlen fname) [
  | none ↦ none
  | some len ↦
      if ltb name_size len
      then some fail
      else some (find_dentry (num_dir_entries fs) 0 fs (strncpy (λ _. 0) fname name_size) dir_entry)
]

unfoldable pub read_dentry_by_index : Fs → ℕ → Buf → Lookup
read_dentry_by_index fs index dir_entry =
    if leb (num_dir_entries fs) index
    then fail
    else entry (memcpy 0 dir_entry (dir_list fs index) dentry_size)

-- How the inner loop of `read_data` ends: by `return bytes_read`, or at the end of the block.
pub data BlockEnd : Type 0 where
  returned : ℕ → Buf → BlockEnd
  exhausted : ℕ → Buf → BlockEnd

-- `for (; offset < sizeof(dataBlock_t); offset++)`; `rounds` is 4096 - offset.
pub read_block : ℕ → ℕ → ℕ → Buf → ℕ → ℕ → Buf → BlockEnd
read_block zero length remaining_size block offset bytes_read buf = exhausted bytes_read buf
read_block (suc rounds) length remaining_size block offset bytes_read buf =
    let rest =
      read_block rounds length remaining_size block (offset + 1) (bytes_read + 1)
        (upd buf bytes_read (block offset)) in
    if leb length bytes_read
    then returned bytes_read buf
    else if leb remaining_size bytes_read
    then returned bytes_read buf
    else rest

-- The `while` over the blocks of a file, on fuel; `none` means that the fuel ran out.
pub read_blocks : ℕ → Fs → ℕ → ℕ → ℕ → ℕ → ℕ → ℕ → Buf → Option (ℤ × Buf)
unfolding read_block
read_blocks zero fs inode length remaining_size block_idx offset bytes_read buf = none
read_blocks (suc fuel) fs inode length remaining_size block_idx offset bytes_read buf =
    let n = data_block_num fs inode block_idx in
    if ltb n (num_data_blocks fs)
    then elim (read_block (block_size - offset) length remaining_size (data_block fs n) offset
        bytes_read buf) [
          | returned k b ↦ some (pos k, b)
          | exhausted k b ↦ read_blocks fuel fs inode length remaining_size (block_idx + 1) 0 k b
        ]
    else some (minus_one, buf)

-- Each block that is finished gave a byte, so `length + 1` rounds are enough.
unfoldable pub read_data : Fs → ℕ → ℕ → Buf → ℕ → Option (ℤ × Buf)
unfolding read_blocks
read_data fs inode offset buf length =
    if leb (num_inode fs) inode
    then some (minus_one, buf)
    else if leb (inode_length fs inode) offset
    then some (pos 0, buf)
    else read_blocks (length + 1) fs inode length (inode_length fs inode - offset % block_size)
        (offset / block_size) (offset % block_size) 0 buf
