-- ===== src/Tests/Strings.antt =====
-- The properties of strings, memory and `printf` on small objects.
use iaaa_os.Printf.{convert, printed, plain}
use iaaa_os.Printf.Total.{Holds, IsString}
use iaaa_os.Printf.Shown.{Prints, convert-prints}
use iaaa_os.Base.{◌≢◌, List, [], ◌∷◌, false, ℕ, ◌<◌, ◌≡◌, refl, arith, true, Buf, some}
use iaaa_os.Str.{mem_size, itoa}
use iaaa_os.Str.Length.{HasLength}
use iaaa_os.Str.Digits.{IsNumeral, itoa_lem}
use iaaa_os.Memmove.{memmove, moved, memmove_lem}
use iaaa_os.Printf.Conversion.{IsPaddedHex, IsSigned}
use iaaa_os.Tests.{zeros, name_a}

-- The bytes of memory are their addresses.
abbrev counted : Buf
counted i = i

one_char : HasLength name_a 1
one_char = record { nul = refl; chars = λ i h. ground arith }

one_fits : 1 < mem_size
unfolding mem_size
one_fits = omega arith

word_fits : 0xBEEF < mem_size
unfolding mem_size
word_fits = omega arith

itoa_lem_example :
    (n : ℕ) × (b : Buf) × (itoa zeros 0xBEEF counted 16 ≡ some b)
    × IsNumeral 16 0xBEEF n b
    × ((j : ℕ) → n < j → b j ≡ j)
itoa_lem_example = itoa_lem zeros 0xBEEF counted 16 (omega arith) (omega arith) word_fits

-- The ranges overlap.
memmove_lem_example :
    ((j : ℕ) → (memmove 102 100 8 counted).0 j ≡ moved 102 100 8 counted j)
    × ((memmove 102 100 8 counted).1 ≡ true)
memmove_lem_example = memmove_lem 102 100 8 counted (omega arith) (omega arith)

convert-prints_example :
    Prints (convert zeros counted (λ _. zeros) true b'x' 0xBEEF) (IsPaddedHex 0xBEEF)
    × Prints
        (convert zeros counted (λ _. zeros) false b'x' 0xBEEF)
        (λ b. (n : ℕ) × IsNumeral 16 0xBEEF n b)
    × Prints
        (convert zeros counted (λ _. zeros) false b'u' 0xBEEF)
        (λ b. (n : ℕ) × IsNumeral 10 0xBEEF n b)
    × Prints (convert zeros counted (λ _. zeros) false b'd' 0xBEEF) (IsSigned 0xBEEF)
    × (convert zeros counted (λ _. zeros) false b'c' 0xBEEF ≡ some (printed (0xEF ∷ []) plain 1))
    × (IsString zeros
        → (cs : List ℕ) × (convert zeros counted (λ _. zeros) false b's' 0xBEEF
            ≡ some (printed cs plain 1))
          × Holds zeros 0 cs)
    × (convert zeros counted (λ _. zeros) false b'%' 0xBEEF ≡ some (printed (b'%' ∷ []) plain 0))
    × ((c : ℕ)
        → c ≢ b'%'
        → c ≢ b'#'
        → c ≢ b'x'
        → c ≢ b'u'
        → c ≢ b'd'
        → c ≢ b'c'
        → c ≢ b's'
        → convert zeros counted (λ _. zeros) false c 0xBEEF ≡ some (printed [] plain 0))
convert-prints_example = convert-prints zeros counted (λ _. zeros) 0xBEEF false (omega arith)
