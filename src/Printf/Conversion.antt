-- ===== src/Printf/Conversion.antt =====
-- The texts that `printf` prints for numbers.
use native.Mathlib.Decide.{dec_lt}
use iaaa_os.Base.{
  ℕ, zero, suc, ◌+◌, ◌-◌, ◌*◌, ◌<◌, ◌≤◌, ◌≡◌, ◌≢◌, ◌⊎◌, ◌∙◌, fun_ext, refl, sym, ap, subst, arith,
  ltb, leb, ◌&&◌, if◌then◌else◌, Buf, upd, shift, some, if_holds, Option,
}
use iaaa_os.Str.{mem_size}
use iaaa_os.Str.Length.{HasLength, strlen_lem}
use iaaa_os.Str.Digits.{IsDigit, digit_value, value_of, IsNumeral, IsDigit-not_nul, itoa_lem}
use iaaa_os.Printf.{placed, zeros_from, convert_unsigned, convert_alternate, convert_signed}

zeros_from_lem :
    (n i j : ℕ) (b : Buf) → zeros_from n i b j ≡ (if leb i j && ltb j (i + n) then b'0' else b j)
unfolding zeros_from
zeros_from_lem zero i j b = ground arith
zeros_from_lem (suc n) i j b = zeros_from_lem n (i + 1) j (upd b i b'0') ∙ ground arith

unfoldable power_16 : ℕ → ℕ
power_16 zero = 1
power_16 (suc n) = 16 * power_16 n

value_of-power : (n : ℕ) (b : Buf) → digit_value (b 0) ≢ 0 → power_16 n ≤ value_of 16 b (suc n)
unfolding value_of power_16
value_of-power zero b d = omega arith
value_of-power (suc n) b d = omega (arith, value_of-power n b d)

-- Nine hexadecimal digits or more, the first not 0, are a number that does not fit 32 bits.
large_value : (n : ℕ) (b : Buf) → digit_value (b 0) ≢ 0 → 9 ≤ n → 0x100000000 ≤ value_of 16 b n
unfolding value_of power_16
large_value zero b d h = absurd (omega arith)
large_value (suc n) b d h = elim (dec_lt 8 n) [
  | yes l ↦ omega (arith, large_value n b d (omega arith))
  | no g ↦
      let e : 8 ≡ n = omega arith in
      subst (λ k. 0x100000000 ≤ value_of 16 b (suc k)) e (value_of-power 8 b d)
]

hex_length : (v n : ℕ) (b : Buf) → v < 0x100000000 → IsNumeral 16 v n b → n ≤ 8
hex_length v n b h w = elim (dec_lt 8 n) [
  | yes l ↦ absurd (omega (arith, large_value n b (w.highest (omega arith)) (omega arith), w.value))
  | no g ↦ omega arith
]

value_of-zeros : (radix k : ℕ) (c : Buf) → ((j : ℕ) → j < k → c j ≡ b'0') → value_of radix c k ≡ 0
unfolding value_of
value_of-zeros radix zero c z = refl
value_of-zeros radix (suc k) c z =
    rw (value_of-zeros radix k c (λ j h. z j (omega arith)), z k (omega arith)) (omega arith)

-- Zeros before the digits do not change the value.
value_of-padded :
    (radix k n : ℕ) (b c : Buf)
    → ((j : ℕ) → j < k → c j ≡ b'0')
    → ((j : ℕ) → j < n → c (k + j) ≡ b j)
    → value_of radix c (k + n) ≡ value_of radix b n
unfolding value_of
value_of-padded radix k zero b c z e =
    ap (value_of radix c) (omega arith) ∙ value_of-zeros radix k c z
value_of-padded radix k (suc n) b c z e =
    let index : k + suc n ≡ suc (k + n) = omega arith in
    let rest = value_of-padded radix k n b c z (λ j h. e j (omega arith)) in
    ap (value_of radix c) index ∙ rw (rest, e n (omega arith)) refl

-- What `%#x` prints: eight digits.
pub record IsPaddedHex (v : ℕ) (b : Buf) : Type 0 where
  pub length : HasLength b 8
  pub digits : (j : ℕ) → j < 8 → IsDigit 16 (b j)
  pub value : value_of 16 b 8 ≡ v

padded-IsPaddedHex :
    (junk : Buf) (v n : ℕ) (b : Buf)
    → v < 0x100000000
    → IsNumeral 16 v n b
    → IsPaddedHex v (shift (zeros_from (8 - n) n (placed 8 junk b)) n)
padded-IsPaddedHex junk v n b h w =
    let small = hex_length v n b h w in
    let c = shift (zeros_from (8 - n) n (placed 8 junk b)) n in
    let front : (j : ℕ) → j < 8 - n → c j ≡ b'0' =
      λ j l. zeros_from_lem (8 - n) n (n + j) (placed 8 junk b) ∙ ground arith in
    let back : (j : ℕ) → 8 - n ≤ j → c j ≡ b (n + j - 8) =
      λ j l. zeros_from_lem (8 - n) n (n + j) (placed 8 junk b) ∙ ground arith in
    let digit : (j : ℕ) → j < 8 → IsDigit 16 (c j) = λ j l. elim (dec_lt j (8 - n)) [
      | yes z ↦ subst (IsDigit 16) (sym (front j z)) (ground arith)
      | no g ↦ subst (IsDigit 16) (sym (back j (omega arith))) (w.digits (n + j - 8) (omega arith))
    ] in
    record {
      length = record {
        nul = back 8 (omega arith) ∙ ap b (omega arith) ∙ w.length.nul;
        chars = λ j l. IsDigit-not_nul 16 (c j) (digit j l);
      };
      digits = digit;
      value =
          ap (value_of 16 c) (omega arith)
          ∙ value_of-padded 16 (8 - n) n b c front
              (λ j l. back (8 - n + j) (omega arith) ∙ ap b (omega arith))
          ∙ w.value;
    }

-- `-` and a numeral behind it, or a numeral.
abbrev pub IsSigned : ℕ → Buf → Type 0
IsSigned v b =
    (v < 0x80000000 → (n : ℕ) × IsNumeral 10 v n b)
    × (0x80000000 ≤ v → (b 0 ≡ b'-') × ((n : ℕ) × IsNumeral 10 (0x100000000 - v) n (shift b 1)))

convert_signed-IsSigned :
    (behind junk : Buf) (v : ℕ)
    → v < 0x100000000
    → (b : Buf) × (convert_signed behind junk v ≡ some b) × IsSigned v b
unfolding convert_signed mem_size
convert_signed-IsSigned behind junk v h =
    if_holds (λ (m : Option Buf). (b : Buf) × (m ≡ some b) × IsSigned v b) (leb 0x80000000 v)
      (λ e.
        let (n, b, same, w, rest) =
          itoa_lem behind (0x100000000 - v) (shift junk 1) 10 (omega arith) (omega arith)
            (ground arith) in
        (
          placed 1 (upd junk 0 b'-') b,
          rw same refl,
          (λ l. absurd (ground arith), λ l. (refl, (n, shifted (0x100000000 - v) n b w))),
        ))
      (λ e.
        let (n, b, same, w, rest) = itoa_lem behind v junk 10 (omega arith) (omega arith) h in
        (b, same, (λ l. (n, w), λ l. absurd (ground arith))))
  where
    shifted :
        (u n : ℕ) (b : Buf)
        → IsNumeral 10 u n b
        → IsNumeral 10 u n (shift (placed 1 (upd junk 0 b'-') b) 1)
    shifted u n b w = subst (IsNumeral 10 u n) (fun_ext (λ j. ground arith)) w

-- For every word, `%#x` prints eight hexadecimal digits with its value; `%x` and `%u` print its numeral
-- in hexadecimal and in decimal, without a leading 0; and `%d` prints the decimal numeral of the word as
-- an int, with `-` before it if that is negative. The conversions always come to an end.
pub convert_lem :
    (behind junk : Buf) (v : ℕ)
    → v < 0x100000000
    → ((b : Buf) × (convert_alternate behind junk v ≡ some b) × IsPaddedHex v b)
      × ((radix : ℕ)
          → (radix ≡ 16) ⊎ (radix ≡ 10)
          → (n : ℕ) × (b : Buf) × (convert_unsigned behind junk radix v ≡ some b)
            × IsNumeral radix v n b)
      × ((b : Buf) × (convert_signed behind junk v ≡ some b) × IsSigned v b)
unfolding convert_alternate convert_unsigned mem_size
convert_lem behind junk v h =
    let (n, b, e, w, rest) = itoa_lem behind v (shift junk 8) 16 (omega arith) (omega arith) h in
    let small = hex_length v n b h w in
    (
      (
        shift (zeros_from (8 - n) n (placed 8 junk b)) n,
        rw (convert_alternate, e, strlen_lem b n w.length (omega arith)) refl,
        padded-IsPaddedHex junk v n b h w,
      ),
      λ radix r.
          let (n', b', e', w', rest') =
            itoa_lem behind v junk radix (ground arith) (ground arith) h in
          (n', b', e', w'),
      convert_signed-IsSigned behind junk v h,
    )
