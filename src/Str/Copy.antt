-- ===== src/Str/Copy.antt =====
-- What the copying functions leave in the destination.
use native.Mathlib.Numerals.{add-one}
use native.Mathlib.Decide.{dec_lt}
use iaaa_os.Base.{
  ℕ, zero, suc, ◌+◌, ◌<◌, ◌≡◌, refl, ◌∙◌, Bool, true, false, ◌&&◌, ◌||◌, arith, ◌==◌, ltb, leb,
  if◌then◌else◌, Buf, upd,
}
use iaaa_os.Str.{
  strncpy, strncpy_from, strncpy_pad, strncpy_include_null, strncpy_include_null_from,
}

-- There is a NUL among the first `n` bytes.
abbrev pub nul_below : Buf → ℕ → Bool
nul_below s zero = false
nul_below s (suc n) = nul_below s n || s n == 0

-- The string behind `s` with NULs after its end.
abbrev pub padded : Buf → Buf
padded s i = if nul_below s i then 0 else s i

strncpy_pad_lem :
    (rounds i : ℕ) (dest : Buf) (j : ℕ)
    → strncpy_pad rounds i dest j ≡ (if leb i j && ltb j (i + rounds) then 0 else dest j)
unfolding strncpy_pad
strncpy_pad_lem zero i dest j = ground arith
strncpy_pad_lem (suc rounds) i dest j =
    strncpy_pad_lem rounds (i + 1) (upd dest i 0) j ∙ ground arith

nul_below_past : (s : Buf) (i j : ℕ) → s i ≡ 0 → i < j → nul_below s j ≡ true
nul_below_past s i zero e h = absurd (omega arith)
nul_below_past s i (suc j) e h = elim (dec_lt i j) [
  | yes p ↦ rw (nul_below_past s i j e p)
  | no p ↦ let e' : j ≡ i = omega arith in rw (e', e) (ground arith)
]

nul_below_suc : (s : Buf) (i : ℕ) → nul_below s (i + 1) ≡ (nul_below s i || s i == 0)
nul_below_suc s i = rw add-one

strncpy_from_lem :
    (rounds i : ℕ) (dest src : Buf) (j : ℕ)
    → nul_below src i ≡ false
    → strncpy_from rounds i dest src j
      ≡ (if leb i j && ltb j (i + rounds) then padded src j else dest j)
unfolding strncpy_from
strncpy_from_lem zero i dest src j h = ground arith
strncpy_from_lem (suc rounds) i dest src j h = ground (
  arith,
  nul_below_past src i j,
  strncpy_pad_lem (suc rounds) i dest j,
  strncpy_from_lem rounds (i + 1) (upd dest i (src i)) src j,
  nul_below_suc src i,
)

pub strncpy_include_null_from_lem :
    (rounds i : ℕ) (dest src : Buf) (j : ℕ)
    → strncpy_include_null_from rounds i dest src j
      ≡ (if leb i j && ltb j (i + rounds) then src j else dest j)
unfolding strncpy_include_null_from
strncpy_include_null_from_lem zero i dest src j = ground arith
strncpy_include_null_from_lem (suc rounds) i dest src j =
    strncpy_include_null_from_lem rounds (i + 1) (upd dest i (src i)) src j ∙ ground arith

-- `strncpy` fills exactly the first `n` bytes, with the string and NULs after it.
pub strncpy_lem :
    (dest src : Buf) (n j : ℕ) → strncpy dest src n j ≡ (if ltb j n then padded src j else dest j)
unfolding strncpy
strncpy_lem dest src n j = ground (arith, strncpy_from_lem n 0 dest src j refl)

-- `strncpy_include_null` copies exactly the first `n` bytes.
pub strncpy_include_null_lem :
    (dest src : Buf) (n j : ℕ)
    → strncpy_include_null dest src n j ≡ (if ltb j n then src j else dest j)
unfolding strncpy_include_null
strncpy_include_null_lem dest src n j = ground (arith, strncpy_include_null_from_lem n 0 dest src j)
