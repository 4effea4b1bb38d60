-- ===== src/FileSystem/Block.antt =====
-- The inner loop of `read_data` over one block.
use native.Mathlib.Decide.{dec_lt}
use iaaa_os.Base.{
  ℕ, zero, suc, ◌+◌, ◌-◌, ◌≤◌, ◌<◌, ◌≡◌, arith, ltb, leb, ◌&&◌, if◌then◌else◌, Buf, upd, min,
}
use iaaa_os.FileSystem.{returned, exhausted, read_block}

-- `buf` with the `k` bytes from `n` on taken from `src`.
abbrev pub Filled : Buf → ℕ → ℕ → Buf → Buf → Type 0
Filled buf n k src b = (j : ℕ) → b j ≡ (if leb n j && ltb j (n + k) then src (j - n) else buf j)

module _ (length remaining_size : ℕ) (block : Buf) where
  pub read_block-exhausted :
      (rounds offset n : ℕ) (buf : Buf)
      → n + rounds ≤ length
      → n + rounds ≤ remaining_size
      → (b : Buf) × (read_block rounds length remaining_size block offset n buf
          ≡ exhausted (n + rounds) b)
        × Filled buf n rounds (λ i. block (offset + i)) b
  unfolding read_block
  read_block-exhausted zero offset n buf p q = (buf, ground arith, λ j. ground arith)
  read_block-exhausted (suc rounds) offset n buf p q =
      let (b, e, f) =
        read_block-exhausted rounds (offset + 1) (n + 1) (upd buf n (block offset)) (omega arith)
          (omega arith) in
      (b, ground (arith, e), λ j. ground (arith, f j))

  -- The limit falls inside the block.
  pub read_block-returned :
      (rounds offset n : ℕ) (buf : Buf)
      → n ≤ min length remaining_size
      → min length remaining_size < n + rounds
      → (b : Buf) × (read_block rounds length remaining_size block offset n buf
          ≡ returned (min length remaining_size) b)
        × Filled buf n (min length remaining_size - n) (λ i. block (offset + i)) b
  unfolding read_block
  read_block-returned zero offset n buf p q = absurd (omega arith)
  read_block-returned (suc rounds) offset n buf p q = elim (dec_lt n (min length remaining_size)) [
    | yes lt ↦
        let (b, e, f) =
          read_block-returned rounds (offset + 1) (n + 1) (upd buf n (block offset)) (omega arith)
            (omega arith) in
        (b, ground (arith, e), λ j. ground (arith, f j))
    | no ge ↦ (buf, ground arith, λ j. ground arith)
  ]
