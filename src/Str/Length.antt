-- ===== src/Str/Length.antt =====
-- `strlen` and `strcpy` on a string that is terminated.
use native.Mathlib.Decide.{dec_lt}
use iaaa_os.Base.{
  ℕ, zero, suc, ◌+◌, ◌<◌, ◌≤◌, ◌≡◌, ◌≢◌, arith, leb, ◌&&◌, if◌then◌else◌, Buf, upd, some, ◌==◌,
  true, false,
}
use iaaa_os.Str.{mem_size, strlen, strlen_from, strcpy, strcpy_from}

-- The string behind `s` has `n` characters.
pub record HasLength (s : Buf) (n : ℕ) : Type 0 where
  pub nul : s n ≡ 0
  pub chars : (i : ℕ) → i < n → s i ≢ 0

pub strlen_from_lem :
    (fuel len n : ℕ) (s : Buf)
    → HasLength s n
    → len ≤ n
    → n < len + fuel
    → strlen_from fuel s len ≡ some n
unfolding strlen_from
strlen_from_lem zero len n s h p q = absurd (omega arith)
strlen_from_lem (suc fuel) len n s h p q =
    ground (arith, h.chars len, h.nul, strlen_from_lem fuel (len + 1) n s h)

-- `strlen` returns the length of a terminated string that fits the address space.
pub strlen_lem : (s : Buf) (n : ℕ) → HasLength s n → n < mem_size → strlen s ≡ some n
unfolding strlen
strlen_lem s n h p = strlen_from_lem mem_size 0 n s h (omega arith) (omega arith)

-- What `strcpy` leaves in the destination: the string, its NUL, and the old bytes after it.
abbrev pub copied : Buf → Buf → ℕ → Buf
copied dest src n j = if leb j n then src j else dest j

strcpy_from_lem :
    (fuel i n : ℕ) (dest src : Buf)
    → HasLength src n
    → i ≤ n
    → n < i + fuel
    → (b : Buf) × (strcpy_from fuel i dest src ≡ some b)
      × ((j : ℕ) → b j ≡ (if leb i j && leb j n then src j else dest j))
unfolding strcpy_from
strcpy_from_lem zero i n dest src h p q = absurd (omega arith)
strcpy_from_lem (suc fuel) i n dest src h p q = elim (dec_lt i n) [
  | yes lt ↦
      let more : (src i == 0) ≡ false = ground (arith, h.chars i) in
      let (b, e, g) =
        strcpy_from_lem fuel (i + 1) n (upd dest i (src i)) src h (omega arith) (omega arith) in
      (b, rw more e, λ j. ground (arith, g j))
  | no ge ↦
      let here : i ≡ n = omega arith in
      let last : (src i == 0) ≡ true = ground (arith, h.nul, here) in
      (upd dest i 0, rw last, λ j. ground (arith, h.nul, here))
]

-- `strcpy` copies a terminated string with its NUL, and changes no byte behind that.
pub strcpy_lem :
    (dest src : Buf) (n : ℕ)
    → HasLength src n
    → n < mem_size
    → (b : Buf) × (strcpy dest src ≡ some b) × ((j : ℕ) → b j ≡ copied dest src n j)
unfolding strcpy
strcpy_lem dest src n h p =
    let (b, e, g) = strcpy_from_lem mem_size 0 n dest src h (omega arith) (omega arith) in
    (b, e, λ j. ground (arith, g j))
