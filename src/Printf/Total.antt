-- ===== src/Printf/Total.antt =====
-- `printf` comes to its end.
use native.Mathlib.Nat.{mul-le-mul_right}
use native.Mathlib.Decide.{dec_lt, ℕ_discrete}
use iaaa_os.Base.{
  ℕ, zero, suc, ◌+◌, ◌-◌, ◌<◌, ◌≤◌, ◌≡◌, ◌≢◌, ◌⊎◌, inl, inr, ◌∙◌, refl, ap, arith, Bool, true,
  false, ◌==◌, if◌then◌else◌, Arr, Buf, shift, Option, some, List, [], ◌∷◌, ◌++◌, Bool-cases, u8,
}
use iaaa_os.Terminals.{Terminals}
use iaaa_os.Screen.{Screen, puts}
use iaaa_os.Str.{mem_size}
use iaaa_os.Str.Length.{HasLength}
use iaaa_os.Str.Digits.{digit_value, value_of, IsNumeral}
use iaaa_os.Printf.{
  chars_from, chars, Mode, plain, percent, Round, printed, convert, round, format_from, printf,
  convert_alternate, convert_unsigned, convert_signed,
}
use iaaa_os.Printf.Conversion.{IsSigned, convert_lem}

-- The bytes of `format` from `i` on, up to its NUL.
abbrev pub Holds : Buf → ℕ → List ℕ → Type 0
Holds format i [] = format i ≡ 0
Holds format i (c ∷ cs) = (format i ≡ c) × (c ≢ 0) × Holds format (i + 1) cs

unfoldable pub length : List ℕ → ℕ
length [] = 0
length (c ∷ cs) = suc (length cs)

-- The mode behind a character.
abbrev pub mode_after : Mode → ℕ → Mode
mode_after plain c = if c == b'%' then percent false else plain
mode_after (percent alternate) c = if c == b'#' then percent true else plain

-- The text does not end within a conversion.
abbrev pub Closes : Mode → List ℕ → Type 0
Closes plain [] = Unit {0}
Closes (percent alternate) [] = ⊥
Closes mode (c ∷ cs) = Closes (mode_after mode c) cs

-- A string of memory.
abbrev pub IsString : Buf → Type 0
IsString b = (n : ℕ) × HasLength b n × (n < mem_size)

chars_from_total :
    (fuel i n : ℕ) (b : Buf)
    → HasLength b n
    → i ≤ n
    → n < i + fuel
    → (cs : List ℕ) × (chars_from fuel i b ≡ some cs)
unfolding chars_from
chars_from_total zero i n b h p q = absurd (omega arith)
chars_from_total (suc fuel) i n b h p q = elim (Bool-cases (b i == 0)) [
  | inl e ↦ ([], rw e refl)
  | inr e ↦
      let d : i ≢ n = λ s. ground (arith, h.nul) in
      let (cs, same) = chars_from_total fuel (i + 1) n b h (omega arith) (omega arith) in
      (b i ∷ cs, rw (e, same) refl)
]

chars_total : (b : Buf) → IsString b → (cs : List ℕ) × (chars (some b) ≡ some cs)
unfolding chars
chars_total b (n, h, small) = chars_from_total mem_size 0 n b h (omega arith) (omega arith)

-- The first digit is not 0, so each digit adds to the value.
digits_bound :
    (radix n : ℕ) (b : Buf) → 2 ≤ radix → digit_value (b 0) ≢ 0 → suc n ≤ value_of radix b (suc n)
unfolding value_of
digits_bound radix zero b h d = omega arith
digits_bound radix (suc n) b h d =
    let rest = digits_bound radix n b h d in
    let at_least = mul-le-mul_right {m = 2} {n = radix} (value_of radix b (suc n)) h in omega arith

numeral_size : (radix v n : ℕ) (b : Buf) → 2 ≤ radix → IsNumeral radix v n b → (n ≤ 1) ⊎ (n ≤ v)
numeral_size radix v zero b h w = inl (omega arith)
numeral_size radix v (suc zero) b h w = inl (omega arith)
numeral_size radix v (suc (suc n)) b h w =
    inr (omega (arith, digits_bound radix (suc n) b h (w.highest (omega arith)), w.value))

pub numeral-IsString :
    (radix v n : ℕ) (b : Buf) → 2 ≤ radix → v < 0x100000000 → IsNumeral radix v n b → IsString b
unfolding mem_size
numeral-IsString radix v n b h small w = (n, w.length, omega (arith, numeral_size radix v n b h w))

pub signed-IsString : (v : ℕ) (b : Buf) → v < 0x100000000 → IsSigned v b → IsString b
unfolding mem_size
signed-IsString v b small w = elim (dec_lt v 0x80000000) [
  | yes l ↦ let (n, u) = w.0 l in numeral-IsString 10 v n b (omega arith) small u
  | no g ↦
      let (sign, more) = w.1 (omega arith) in
      let (n, u) = more in
      let (m, h, short) =
        numeral-IsString 10 (0x100000000 - v) n (shift b 1) (omega arith) (omega arith) u in
      let size = numeral_size 10 (0x100000000 - v) n (shift b 1) (omega arith) u in
      (
        n + 1,
        record { nul = ap b (omega arith) ∙ u.length.nul; chars = chars_of n sign u.length },
        omega (arith, size),
      )
]
  where
    chars_of : (n : ℕ) → b 0 ≡ b'-' → HasLength (shift b 1) n → (i : ℕ) → i < n + 1 → b i ≢ 0
    chars_of n sign h zero l = rw sign (omega arith)
    chars_of n sign h (suc i) l = λ z. h.chars i (omega arith) (ap b (omega arith) ∙ z)

-- What a conversion gives is a string.
module _ (behind junk : Buf) (v : ℕ) (small : v < 0x100000000) where
  alternate_total : (cs : List ℕ) × (chars (convert_alternate behind junk v) ≡ some cs)
  unfolding mem_size
  alternate_total =
      let (b, e, w) = (convert_lem behind junk v small).0 in
      let (cs, same) = chars_total b (8, w.length, omega arith) in (cs, rw e same)

  unsigned_total :
      (radix : ℕ)
      → (radix ≡ 16) ⊎ (radix ≡ 10)
      → (cs : List ℕ) × (chars (convert_unsigned behind junk radix v) ≡ some cs)
  unsigned_total radix r =
      let (n, b, e, w) = (convert_lem behind junk v small).1 radix r in
      let (cs, same) = chars_total b (numeral-IsString radix v n b (ground arith) small w) in
      (cs, rw e same)

  signed_total : (cs : List ℕ) × (chars (convert_signed behind junk v) ≡ some cs)
  signed_total =
      let (b, e, w) = (convert_lem behind junk v small).2 in
      let (cs, same) = chars_total b (signed-IsString v b small w) in (cs, rw e same)

-- A round prints something, and goes on in the mode behind its character.
abbrev Prints : Mode → Option Round → Type 0
Prints mode r = (cs : List ℕ) × (k : ℕ) × (r ≡ some (printed cs mode k))

module _ (behind junk : Buf) (string_at : ℕ → Buf) (v : ℕ) (small : v < 0x100000000)
    (string : IsString (string_at v)) where
  hexadecimal :
      (alternate : Bool) (c : ℕ)
      → c ≡ b'x'
      → Prints plain (convert behind junk string_at alternate c v)
  unfolding convert
  hexadecimal true c e =
      let (cs, same) = alternate_total behind junk v small in (cs, 1, ground (arith, e, same))
  hexadecimal false c e =
      let (cs, same) = unsigned_total behind junk v small 16 (inl refl) in
      (cs, 1, ground (arith, e, same))

  convert_total :
      (alternate : Bool) (c : ℕ)
      → Prints (mode_after (percent alternate) c) (convert behind junk string_at alternate c v)
  unfolding convert
  convert_total alternate c = elim (ℕ_discrete c b'%') [
    | yes e ↦ (b'%' ∷ [], 0, ground (arith, e))
    | no a1 ↦ elim (ℕ_discrete c b'#') [
      | yes e ↦ ([], 0, ground (arith, e))
      | no a2 ↦ elim (ℕ_discrete c b'x') [
        | yes e ↦ let (cs, k, same) = hexadecimal alternate c e in (cs, k, ground (arith, e, same))
        | no a3 ↦ elim (ℕ_discrete c b'u') [
          | yes e ↦
              let (cs, same) = unsigned_total behind junk v small 10 (inr refl) in
              (cs, 1, ground (arith, e, same))
          | no a4 ↦ elim (ℕ_discrete c b'd') [
            | yes e ↦
                let (cs, same) = signed_total behind junk v small in
                (cs, 1, ground (arith, e, same))
            | no a5 ↦ elim (ℕ_discrete c b'c') [
              | yes e ↦ (u8 v ∷ [], 1, ground (arith, e))
              | no a6 ↦ elim (ℕ_discrete c b's') [
                | yes e ↦
                    let (cs, same) = chars_total (string_at v) string in
                    (cs, 1, ground (arith, e, same))
                | no a7 ↦ ([], 0, ground arith)
              ]
            ]
          ]
        ]
      ]
    ]
  ]

  round_total :
      (mode : Mode) (c : ℕ)
      → c ≢ 0
      → Prints (mode_after mode c) (round behind junk string_at mode c v)
  unfolding round
  round_total plain c d = elim (ℕ_discrete c b'%') [
    | yes e ↦ ([], 0, ground (arith, e))
    | no a ↦ (c ∷ [], 0, ground arith)
  ]
  round_total (percent alternate) c d = convert_total alternate c

module _ (behind junk : Buf) (string_at : ℕ → Buf) (format : Buf) (args : Arr ℕ)
    (small : (k : ℕ) → args k < 0x100000000)
    (strings : (k : ℕ) → IsString (string_at (args k))) where
  format_from_total :
      (fuel : ℕ) (mode : Mode) (i k : ℕ) (cs : List ℕ)
      → Holds format i cs
      → Closes mode cs
      → length cs < fuel
      → (out : List ℕ) × (format_from behind junk string_at fuel mode i k format args
          ≡ some (i + length cs, out))
  unfolding format_from length
  format_from_total zero mode i k cs h c p = absurd (omega arith)
  format_from_total (suc fuel) plain i k [] h c p = ([], rw (h, round, format_from) (ground arith))
  format_from_total (suc fuel) (percent alternate) i k [] h c p = absurd c
  format_from_total (suc fuel) mode i k (x ∷ cs) h c p =
      let (text, taken, e) =
        round_total behind junk string_at (args k) (small k) (strings k) mode x h.1 in
      let (out, rest) =
        format_from_total fuel (mode_after mode x) (i + 1) (k + taken) cs h.2 c (omega arith) in
      (text ++ out, rw (h.0, e, rest, format_from) (ap (λ n. some (n, text ++ out)) (omega arith)))

  -- If `format` does not end within a conversion, the words behind it have 32 bits and those that are read
  -- as strings end in memory, `printf` comes to its end: it returns the length of the format, and has put
  -- characters on the screen.
  pub printf_total :
      (tm : Terminals) (page : ℕ) (cs : List ℕ) (s : Screen)
      → Holds format 0 cs
      → Closes plain cs
      → length cs < mem_size
      → (out : List ℕ) × (printf behind junk string_at tm page format args s
          ≡ some (length cs, puts tm page out s))
  unfolding printf
  printf_total tm page cs s h c p =
      let (out, e) = format_from_total mem_size plain 0 0 cs h c p in
      (out, rw (e, printf) (ap (λ n. some (n, puts tm page out s)) (omega arith)))
