-- ===== src/Tests/Disk.antt =====
-- The properties of strings in memory and of the file system on small states.
use iaaa_os.Base.{ℕ, ◌+◌, ◌*◌, ◌≤◌, ◌<◌, ◌≡◌, refl, arith, Buf, word, pos, minus_one, some}
use iaaa_os.Str.{mem_size}
use iaaa_os.Str.Compare.{IsBytes}
use iaaa_os.Str.Length.{HasLength}
use iaaa_os.FileSystem.{
  Lookup, num_inode, inode_length, num_dir_entries, num_data_blocks, data_block_num, dir_list,
  read_data, read_dentry_by_name,
}
use iaaa_os.FileSystem.Block.{Filled}
use iaaa_os.FileSystem.Data.{
  content, BlocksExist, read_data_lem, read_data_past_end, read_data_whole_blocks,
}
use iaaa_os.FileSystem.Dentry.{name, FirstNamed, read_dentry_by_name_lem}
use iaaa_os.Memcpy.{memcpy, memcpy_lem}
use iaaa_os.Tests.{zeros, disk, name_a}

one_char : HasLength name_a 1
one_char = record { nul = refl; chars = λ i h. ground arith }

one_fits : 1 < mem_size
unfolding mem_size
one_fits = omega arith

name_a-IsBytes : IsBytes name_a
name_a-IsBytes i = ground arith

zeros-IsBytes : IsBytes zeros
zeros-IsBytes i = omega arith

memcpy_lem_example : memcpy 2 zeros name_a 9 0 ≡ b'a'
memcpy_lem_example = memcpy_lem 2 zeros name_a 9 0

known : (len next : ℕ) → 0 < num_inode (disk 2 len next)
unfolding num_inode word
known len next = omega arith

short_inside : 1 < inode_length (disk 2 5 2) 0
unfolding inode_length word
short_inside = omega arith

short_blocks : (to : ℕ) → to < 4096 → BlocksExist (disk 2 5 2) 0 1 to
unfolding BlocksExist data_block_num num_data_blocks word
short_blocks to h b lo hi = let e : b ≡ 0 = omega arith in rw e (omega arith)

read_data_lem_example :
    (b : Buf) × (read_data (disk 2 5 2) 0 1 zeros 3 ≡ some (pos 3, b))
    × Filled zeros 0 3 (λ i. content (disk 2 5 2) 0 (1 + i)) b
unfolding inode_length word
read_data_lem_example =
    read_data_lem (disk 2 5 2) 0 1 3 zeros (known 5 2) short_inside (short_blocks 4 (omega arith))

long_inside : 4096 < inode_length (disk 2 4100 2) 0
unfolding inode_length word
long_inside = omega arith

long_blocks : BlocksExist (disk 2 4100 2) 0 4096 4106
unfolding BlocksExist data_block_num num_data_blocks word
long_blocks b lo hi = let e : b ≡ 1 = omega arith in rw e (omega arith)

read_data_past_end_example :
    (b : Buf) × (read_data (disk 2 4100 2) 0 4096 zeros 10 ≡ some (pos 10, b))
    × (4 < 10)
    × (10 ≤ 10)
unfolding inode_length word
read_data_past_end_example =
    read_data_past_end (disk 2 4100 2) 0 4096 10 zeros (known 4100 2) long_inside (omega arith)
      (omega arith) long_blocks

whole_length : inode_length (disk 2 4096 9) 0 ≡ 1 * 4096
unfolding inode_length word
whole_length = refl

whole_blocks :
    (b : ℕ) → b < 1 → data_block_num (disk 2 4096 9) 0 b < num_data_blocks (disk 2 4096 9)
unfolding data_block_num num_data_blocks word
whole_blocks b h = let e : b ≡ 0 = omega arith in rw e (omega arith)

whole_next : num_data_blocks (disk 2 4096 9) ≤ data_block_num (disk 2 4096 9) 0 1
unfolding data_block_num num_data_blocks word
whole_next = omega arith

read_data_whole_blocks_example :
    (b : Buf) × (read_data (disk 2 4096 9) 0 0 zeros 5000 ≡ some (minus_one, b))
read_data_whole_blocks_example =
    read_data_whole_blocks (disk 2 4096 9) 0 5000 1 zeros (known 4096 9) (omega arith) whole_length
      (omega arith) whole_blocks whole_next

image-IsBytes : (j : ℕ) → IsBytes (dir_list (disk 2 5 2) j)
unfolding dir_list
image-IsBytes j i = ground arith

read_dentry_by_name_lem_example :
    (r : Lookup) × (read_dentry_by_name (disk 2 5 2) (some name_a) zeros ≡ some r)
    × FirstNamed (disk 2 5 2) (name name_a) 0 (num_dir_entries (disk 2 5 2)) r
read_dentry_by_name_lem_example =
    read_dentry_by_name_lem (disk 2 5 2) zeros name_a 1 one_char (omega arith) name_a-IsBytes
      image-IsBytes
