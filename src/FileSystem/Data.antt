-- ===== src/FileSystem/Data.antt =====
-- What `read_data` returns and leaves in the buffer.
use native.Mathlib.Decide.{dec_lt}
use iaaa_os.Base.{
  ℕ, zero, suc, ◌+◌, ◌-◌, ◌*◌, ◌/◌, ◌%◌, ◌≤◌, ◌<◌, ◌≡◌, ◌∙◌, arith, Buf, min, some, pos, minus_one,
}
use iaaa_os.FileSystem.{
  Fs, block_size, data_block_num, num_data_blocks, data_block, inode_length, num_inode, read_blocks,
  read_data,
}
use iaaa_os.FileSystem.Block.{Filled, read_block-exhausted, read_block-returned}

-- The byte of a file at position `k`, by its block table.
unfoldable pub content : Fs → ℕ → Buf
content fs inode k = data_block fs (data_block_num fs inode (k / block_size)) (k % block_size)

-- The blocks of the file from position `from` up to position `to` are blocks of the image.
unfoldable pub BlocksExist : Fs → ℕ → ℕ → ℕ → Type 0
BlocksExist fs inode from to =
    (b : ℕ)
    → from / block_size ≤ b
    → b ≤ to / block_size
    → data_block_num fs inode b < num_data_blocks fs

content-block :
    (fs : Fs) (inode p i : ℕ)
    → p % block_size + i < block_size
    → content fs inode (p + i)
      ≡ data_block fs (data_block_num fs inode (p / block_size)) (p % block_size + i)
unfolding content
content-block fs inode p i h =
    let e1 : (p + i) / block_size ≡ p / block_size = omega arith in
    let e2 : (p + i) % block_size ≡ p % block_size + i = omega arith in rw (e1, e2)

module _ (fs : Fs) (inode length remaining_size : ℕ) where
  abbrev limit : ℕ
  limit = min length remaining_size

  read_blocks_lem :
      (fuel p n : ℕ) (buf : Buf)
      → n ≤ limit
      → limit < n + fuel
      → ((b : ℕ)
          → p / block_size ≤ b
          → b ≤ (p + (limit - n)) / block_size
          → data_block_num fs inode b < num_data_blocks fs)
      → (b : Buf) × (read_blocks fuel fs inode length remaining_size
            (p / block_size)
            (p % block_size)
            n
            buf
          ≡ some (pos limit, b))
        × Filled buf n (limit - n) (λ i. content fs inode (p + i)) b
  unfolding read_blocks
  read_blocks_lem zero p n buf h g v = absurd (omega arith)
  read_blocks_lem (suc fuel) p n buf h g v =
      elim (dec_lt limit (n + (block_size - p % block_size))) [
        | yes lt ↦
            let (b, e, f) =
              read_block-returned length remaining_size
                (data_block fs (data_block_num fs inode (p / block_size)))
                (block_size - p % block_size) (p % block_size) n buf h lt in
            (
              b,
              ground (arith, e, v (p / block_size)),
              λ j. ground (arith, f j, content-block fs inode p (j - n)),
            )
        | no ge ↦
            let rounds = block_size - p % block_size in
            let (b, e, f) =
              read_block-exhausted length remaining_size
                (data_block fs (data_block_num fs inode (p / block_size))) rounds (p % block_size) n
                buf (omega arith) (omega arith) in
            let (b', e', f') =
              read_blocks_lem fuel (p + rounds) (n + rounds) b (omega arith) (omega arith)
                (λ k lo hi. v k (omega arith) (omega arith)) in
            let e1 : (p + rounds) / block_size ≡ p / block_size + 1 = omega arith in
            let e2 : (p + rounds) % block_size ≡ 0 = omega arith in
            (
              b',
              ground (arith, e, rw (e1, e2) at e', v (p / block_size)),
              λ j. ground (arith, f j, f' j, content-block fs inode p (j - n)),
            )
      ]

  -- Every block up to `stop` is read to its end, and the next block number is not one of the image.
  read_blocks_missing :
      (fuel p n stop : ℕ) (buf : Buf)
      → p ≤ stop * block_size
      → n + (stop * block_size - p) ≤ limit
      → stop * block_size - p < fuel
      → ((b : ℕ) → p / block_size ≤ b → b < stop → data_block_num fs inode b < num_data_blocks fs)
      → num_data_blocks fs ≤ data_block_num fs inode stop
      → (b : Buf) × (read_blocks fuel fs inode length remaining_size
            (p / block_size)
            (p % block_size)
            n
            buf
          ≡ some (minus_one, b))
  unfolding read_blocks
  read_blocks_missing zero p n stop buf le h g v w = absurd (omega arith)
  read_blocks_missing (suc fuel) p n stop buf le h g v w = elim (dec_lt (p / block_size) stop) [
    | yes lt ↦
        let rounds = block_size - p % block_size in
        let (b, e, f) =
          read_block-exhausted length remaining_size
            (data_block fs (data_block_num fs inode (p / block_size))) rounds (p % block_size) n buf
            (omega arith) (omega arith) in
        let (b', e') =
          read_blocks_missing fuel (p + rounds) (n + rounds) stop b (omega arith) (omega arith)
            (omega arith) (λ k lo hi. v k (omega arith) hi) w in
        let e1 : (p + rounds) / block_size ≡ p / block_size + 1 = omega arith in
        let e2 : (p + rounds) % block_size ≡ 0 = omega arith in
        (b', ground (arith, e, rw (e1, e2) at e', v (p / block_size)))
    | no ge ↦
        let here : p / block_size ≡ stop = omega arith in (buf, ground (arith, rw (← here) at w))
  ]

read_data-inside :
    (fs : Fs) (inode offset length : ℕ) (buf : Buf)
    → inode < num_inode fs
    → offset < inode_length fs inode
    → read_data fs inode offset buf length
      ≡ read_blocks
          (length + 1)
          fs
          inode
          length
          (inode_length fs inode - offset % block_size)
          (offset / block_size)
          (offset % block_size)
          0
          buf
unfolding read_data
read_data-inside fs inode offset length buf known inside = ground arith

module _ (fs : Fs) (inode offset length : ℕ) (buf : Buf) (known : inode < num_inode fs)
    (inside : offset < inode_length fs inode) where
  -- For a known inode and an offset inside the file, if the blocks from the offset on exist,
  -- `read_data` returns min(length, file length - offset % 4096), has stored that many bytes of the
  -- file from the offset on, and changed no byte of the buffer behind them.
  pub read_data_lem :
      let n = min length (inode_length fs inode - offset % block_size) in
      BlocksExist fs inode offset (offset + n)
      → (b : Buf) × (read_data fs inode offset buf length ≡ some (pos n, b))
        × Filled buf 0 n (λ i. content fs inode (offset + i)) b
  unfolding BlocksExist
  read_data_lem v =
      let (b, e, f) =
        read_blocks_lem fs inode length (inode_length fs inode - offset % block_size) (length + 1)
          offset 0 buf (omega arith) (omega arith) (λ b lo hi. v b lo (omega arith)) in
      (b, read_data-inside fs inode offset length buf known inside ∙ e, λ j. ground (arith, f j))

  -- In the first block of a file, `read_data` returns the smaller of `length` and what is left of
  -- the file, if the blocks of the file exist.
  pub read_data_first_block :
      offset < block_size
      → BlocksExist fs inode offset (inode_length fs inode)
      → (b : Buf) × (read_data fs inode offset buf length
          ≡ some (pos (min length (inode_length fs inode - offset)), b))
        × Filled buf 0
            (min length (inode_length fs inode - offset))
            (λ i. content fs inode (offset + i))
            b
  unfolding BlocksExist
  read_data_first_block small v =
      let e : offset % block_size ≡ offset = omega arith in
      rw e at (read_data_lem (λ b lo hi. v b lo (omega arith)))

  -- From the second block of a file on, a read of more bytes than are left of the file returns more
  -- than are left, if the blocks behind exist: `remaining_size` counts from the start of the block.
  pub read_data_past_end :
      let n = min length (inode_length fs inode - offset % block_size) in
      block_size ≤ offset
      → inode_length fs inode - offset < length
      → BlocksExist fs inode offset (offset + n)
      → (b : Buf) × (read_data fs inode offset buf length ≡ some (pos n, b))
        × (inode_length fs inode - offset < n)
        × (n ≤ length)
  read_data_past_end large more v =
      let (b, e, f) = read_data_lem v in (b, e, omega arith, omega arith)

-- A file of `k` whole blocks whose next block number is not one of the image cannot be read to its
-- end: a read from offset 0 of its whole length, or of more, returns -1.
pub read_data_whole_blocks :
    (fs : Fs) (inode length k : ℕ) (buf : Buf)
    → inode < num_inode fs
    → 0 < k
    → inode_length fs inode ≡ k * block_size
    → k * block_size ≤ length
    → ((b : ℕ) → b < k → data_block_num fs inode b < num_data_blocks fs)
    → num_data_blocks fs ≤ data_block_num fs inode k
    → (b : Buf) × (read_data fs inode 0 buf length ≡ some (minus_one, b))
read_data_whole_blocks fs inode length k buf known some_block e more v w =
    let (b, r) =
      read_blocks_missing fs inode length (inode_length fs inode - 0) (length + 1) 0 0 k buf
        (omega arith) (omega arith) (omega arith) (λ b lo hi. v b hi) w in
    (b, read_data-inside fs inode 0 length buf known (omega arith) ∙ r)

-- `read_data` fails on an unknown inode, and returns 0 at or behind the end of a file; neither
-- touches the buffer.
pub read_data_refuses :
    (fs : Fs) (inode offset length : ℕ) (buf : Buf)
    → (num_inode fs ≤ inode → read_data fs inode offset buf length ≡ some (minus_one, buf))
      × (inode < num_inode fs
          → inode_length fs inode ≤ offset
          → read_data fs inode offset buf length ≡ some (pos 0, buf))
unfolding read_data
read_data_refuses fs inode offset length buf = (λ h. ground arith, λ h g. ground arith)
