-- ===== src/Str/Append.antt =====
-- `strcat` on terminated strings.
use native.Mathlib.Decide.{dec_lt}
use iaaa_os.Base.{
  ℕ, zero, suc, ◌+◌, ◌-◌, ◌<◌, ◌≤◌, ◌≡◌, arith, leb, ◌&&◌, if◌then◌else◌, Buf, upd, some, ◌==◌,
  true, false,
}
use iaaa_os.Str.{mem_size, strcat, strcat_from}
use iaaa_os.Str.Length.{HasLength, strlen_from_lem}

strcat_from_lem :
    (fuel i j n : ℕ) (dest src : Buf)
    → HasLength src n
    → j ≤ n
    → n < j + fuel
    → (b : Buf) × (strcat_from fuel i j dest src ≡ some b)
      × ((k : ℕ) → b k ≡ (if leb (i + j) k && leb k (i + n) then src (k - i) else dest k))
unfolding strcat_from
strcat_from_lem zero i j n dest src h p q = absurd (omega arith)
strcat_from_lem (suc fuel) i j n dest src h p q = elim (dec_lt j n) [
  | yes lt ↦
      let more : (src j == 0) ≡ false = ground (arith, h.chars j) in
      let (b, e, g) =
        strcat_from_lem fuel i (j + 1) n (upd dest (i + j) (src j)) src h (omega arith)
          (omega arith) in
      (b, rw more e, λ k. ground (arith, g k))
  | no ge ↦
      let here : j ≡ n = omega arith in
      let last : (src j == 0) ≡ true = ground (arith, h.nul, here) in
      (upd dest (i + j) 0, rw last, λ k. ground (arith, h.nul, here))
]

-- `strcat` puts a terminated string with its NUL behind the characters of another, and changes no other
-- byte; the result is a string as long as both.
pub strcat_lem :
    (dest src : Buf) (a n : ℕ)
    → HasLength dest a
    → HasLength src n
    → a < mem_size
    → n < mem_size
    → (b : Buf) × (strcat dest src ≡ some b)
      × ((k : ℕ) → b k ≡ (if leb a k && leb k (a + n) then src (k - a) else dest k))
      × HasLength b (a + n)
unfolding strcat
strcat_lem dest src a n h g p q =
    let (b, e, f) = strcat_from_lem mem_size a 0 n dest src g (omega arith) (omega arith) in
    let w : (k : ℕ) → b k ≡ (if leb a k && leb k (a + n) then src (k - a) else dest k) =
      λ k. ground (arith, f k) in
    (
      b,
      rw (strcat, strlen_from_lem mem_size 0 a dest h (omega arith) (omega arith)) e,
      w,
      record {
        nul = ground (arith, w (a + n), g.nul);
        chars = λ i l. ground (arith, w i, g.chars (i - a), h.chars i);
      },
    )
