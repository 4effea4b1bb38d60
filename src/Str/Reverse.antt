-- ===== src/Str/Reverse.antt =====
-- `strrev` on a terminated string.
use iaaa_os.Base.{
  ℕ, zero, suc, ◌+◌, ◌-◌, ◌<◌, ◌≤◌, ◌≡◌, refl, arith, leb, ltb, ◌&&◌, if◌then◌else◌, Buf, upd, some,
}
use iaaa_os.Str.{mem_size, strrev, strrev_from}
use iaaa_os.Str.Length.{HasLength, strlen_lem}

-- The characters of `s` from the last to the first, with all else as it is.
abbrev pub reversed : ℕ → Buf → Buf
reversed n s j = if ltb j n then s (n - 1 - j) else s j

-- The bytes from `beg` to `end` are turned round.
strrev_from_lem :
    (rounds beg end : ℕ) (s : Buf) (j : ℕ)
    → end ≤ beg + rounds
    → strrev_from rounds beg end s j ≡ (if leb beg j && leb j end then s (beg + end - j) else s j)
unfolding strrev_from
strrev_from_lem zero beg end s j h = ground arith
strrev_from_lem (suc rounds) beg end s j h =
    ground
      (arith, strrev_from_lem rounds (beg + 1) (end - 1) (upd (upd s end (s beg)) beg (s end)) j)

-- `strrev` turns a terminated string round, keeps its length, and changes no byte behind it.
pub strrev_lem :
    (s : Buf) (n : ℕ)
    → HasLength s n
    → n < mem_size
    → (b : Buf) × (strrev s ≡ some b) × ((j : ℕ) → b j ≡ reversed n s j) × HasLength b n
unfolding strrev
strrev_lem s n h p =
    let b = strrev_from n 0 (n - 1) s in
    let w : (j : ℕ) → b j ≡ reversed n s j = λ j. ground (arith, strrev_from_lem n 0 (n - 1) s j) in
    (
      b,
      rw (strrev, strlen_lem s n h p) refl,
      w,
      record {
        nul = ground (arith, w n, h.nul);
        chars = λ i l. ground (arith, w i, h.chars (n - 1 - i));
      },
    )
