-- ===== src/Printf/Shown.antt =====
-- What each conversion of `printf` prints.
use iaaa_os.Base.{
  ℕ, zero, suc, ◌+◌, ◌<◌, ◌≤◌, ◌≡◌, ◌≢◌, inl, inr, refl, arith, Bool, true, false, ◌==◌, Bool-cases,
  Buf, Option, some, List, [], ◌∷◌, u8,
}
use iaaa_os.Str.{mem_size}
use iaaa_os.Str.Length.{HasLength}
use iaaa_os.Str.Digits.{IsNumeral}
use iaaa_os.Printf.{chars_from, chars, plain, Round, printed, convert}
use iaaa_os.Printf.Conversion.{IsPaddedHex, IsSigned, convert_lem}
use iaaa_os.Printf.Total.{Holds, IsString, numeral-IsString, signed-IsString}

chars_from-Holds :
    (fuel i n : ℕ) (b : Buf)
    → HasLength b n
    → i ≤ n
    → n < i + fuel
    → (cs : List ℕ) × (chars_from fuel i b ≡ some cs) × Holds b i cs
unfolding chars_from
chars_from-Holds zero i n b h p q = absurd (omega arith)
chars_from-Holds (suc fuel) i n b h p q = elim (Bool-cases (b i == 0)) [
  | inl e ↦ ([], rw e refl, ground (arith, e))
  | inr e ↦
      let d : i ≢ n = λ s. ground (arith, h.nul) in
      let (cs, same, held) = chars_from-Holds fuel (i + 1) n b h (omega arith) (omega arith) in
      (b i ∷ cs, rw (e, same) refl, (refl, (λ z. ground (arith, e, z)), held))
]

chars-Holds : (b : Buf) → IsString b → (cs : List ℕ) × (chars (some b) ≡ some cs) × Holds b 0 cs
unfolding chars
chars-Holds b (n, h, small) = chars_from-Holds mem_size 0 n b h (omega arith) (omega arith)

-- The conversion takes a word and prints the string of a buffer.
abbrev pub Prints : Option Round → (Buf → Type 0) → Type 0
Prints r P = (cs : List ℕ) × (b : Buf) × (r ≡ some (printed cs plain 1)) × Holds b 0 cs × P b

below : 8 < mem_size
unfolding mem_size
below = omega arith

-- For every word `v`, `%#x` prints eight hexadecimal digits with its value; `%x` and `%u` print its numeral
-- in hexadecimal and in decimal, without a leading 0; `%d` prints the decimal numeral of the word as an int,
-- with `-` before it if that is negative; `%c` prints its low byte, and `%s` the string at the word, if it
-- ends in memory; each takes the word. `%%` prints a `%`, and any other character nothing, and these take
-- no word.
pub convert-prints :
    (behind junk : Buf) (string_at : ℕ → Buf) (v : ℕ) (alternate : Bool)
    → v < 0x100000000
    → Prints (convert behind junk string_at true b'x' v) (IsPaddedHex v)
      × Prints (convert behind junk string_at false b'x' v) (λ b. (n : ℕ) × IsNumeral 16 v n b)
      × Prints (convert behind junk string_at alternate b'u' v) (λ b. (n : ℕ) × IsNumeral 10 v n b)
      × Prints (convert behind junk string_at alternate b'd' v) (IsSigned v)
      × (convert behind junk string_at alternate b'c' v ≡ some (printed (u8 v ∷ []) plain 1))
      × (IsString (string_at v)
          → (cs : List ℕ) × (convert behind junk string_at alternate b's' v
              ≡ some (printed cs plain 1))
            × Holds (string_at v) 0 cs)
      × (convert behind junk string_at alternate b'%' v ≡ some (printed (b'%' ∷ []) plain 0))
      × ((c : ℕ)
          → c ≢ b'%'
          → c ≢ b'#'
          → c ≢ b'x'
          → c ≢ b'u'
          → c ≢ b'd'
          → c ≢ b'c'
          → c ≢ b's'
          → convert behind junk string_at alternate c v ≡ some (printed [] plain 0))
unfolding convert
convert-prints behind junk string_at v alternate small =
    let ((b1, e1, w1), numerals, (b3, e3, w3)) = convert_lem behind junk v small in
    let (n2, b2, e2, w2) = numerals 16 (inl refl) in
    let (n4, b4, e4, w4) = numerals 10 (inr refl) in
    let (cs1, s1, h1) = chars-Holds b1 (8, w1.length, below) in
    let (cs2, s2, h2) = chars-Holds b2 (numeral-IsString 16 v n2 b2 (omega arith) small w2) in
    let (cs3, s3, h3) = chars-Holds b3 (signed-IsString v b3 small w3) in
    let (cs4, s4, h4) = chars-Holds b4 (numeral-IsString 10 v n4 b4 (omega arith) small w4) in
    (
      (cs1, b1, rw (e1, s1) refl, h1, w1),
      (cs2, b2, rw (e2, s2) refl, h2, (n2, w2)),
      (cs4, b4, rw (e4, s4) refl, h4, (n4, w4)),
      (cs3, b3, rw (e3, s3) refl, h3, w3),
      refl,
      λ string. let (cs, s, h) = chars-Holds (string_at v) string in (cs, rw s refl, h),
      refl,
      λ c d1 d2 d3 d4 d5 d6 d7. ground arith,
    )
