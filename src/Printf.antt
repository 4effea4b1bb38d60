-- ===== src/Printf.antt =====
-- `printf` of student-distrib/lib.c. The words behind `format` on the stack are `args`; `string_at` gives
-- the object behind an address, `junk` what an array has before it is written, and `behind` the bytes
-- behind the table of `itoa`.
pub mod Conversion
pub mod Total
pub mod Shown
use iaaa_os.Base.{
  ℕ, zero, suc, ◌+◌, ◌-◌, ◌%◌, Bool, true, false, ltb, leb, ◌==◌, if◌then◌else◌, Arr, Buf, upd,
  shift, List, [], ◌∷◌, ◌++◌, Option, none, some, u8,
}
use iaaa_os.Terminals.{Terminals}
use iaaa_os.Screen.{Screen, puts}
use iaaa_os.Str.{mem_size, strlen, itoa}

-- An object with another behind its first `n` bytes: what a function that is given `b + n` leaves.
abbrev pub placed : ℕ → Buf → Buf → Buf
placed n b c i = if ltb i n then b i else c (i - n)

-- `while (i < 8) conv_buf[i] = '0'`; `rounds` is 8 - i.
pub zeros_from : ℕ → ℕ → Buf → Buf
zeros_from zero i b = b
zeros_from (suc rounds) i b = zeros_from rounds (i + 1) (upd b i b'0')

-- The object that is printed for a number: `%x` and `%u`, `%#x`, and `%d`.
unfoldable pub convert_unsigned : Buf → Buf → ℕ → ℕ → Option Buf
convert_unsigned behind junk radix v = itoa behind v junk radix

unfoldable pub convert_alternate : Buf → Buf → ℕ → Option Buf
unfolding zeros_from
convert_alternate behind junk v = elim (itoa behind v (shift junk 8) 16) [
  | none ↦ none
  | some b ↦ elim (strlen b) [
    | none ↦ none
    | some n ↦ some (shift (zeros_from (8 - n) n (placed 8 junk b)) n)
  ]
]

unfoldable pub convert_signed : Buf → Buf → ℕ → Option Buf
convert_signed behind junk v =
    if leb 0x80000000 v
    then elim (itoa behind (0x100000000 - v) (shift junk 1) 10) [
      | none ↦ none
      | some b ↦ some (placed 1 (upd junk 0 b'-') b)
    ]
    else itoa behind v junk 10

-- The characters up to the NUL, as `puts` prints them.
pub chars_from : ℕ → ℕ → Buf → Option (List ℕ)
chars_from zero i b = none
chars_from (suc fuel) i b =
    if b i == 0
    then some []
    else elim (chars_from fuel (i + 1) b) [ none ↦ none | some cs ↦ some (b i ∷ cs) ]

unfoldable pub chars : Option Buf → Option (List ℕ)
unfolding chars_from
chars none = none
chars (some b) = chars_from mem_size 0 b

-- Outside of a conversion, or behind a `%` with the value of `alternate`.
pub data Mode : Type 0 where
  plain : Mode
  percent : Bool → Mode

-- One round at a character: the end, or what is printed, the mode and the words taken.
pub data Round : Type 0 where
  ended : Round
  printed : List ℕ → Mode → ℕ → Round

module _ (behind junk : Buf) (string_at : ℕ → Buf) where
  -- A conversion with the word `v`; `none` if its text has no end.
  unfoldable pub convert : Bool → ℕ → ℕ → Option Round
  convert alternate c v =
      let word : Option (List ℕ) → Option Round =
        λ o. elim o [ none ↦ none | some cs ↦ some (printed cs plain 1) ] in
      if c == b'%'
      then some (printed (b'%' ∷ []) plain 0)
      else if c == b'#'
      then some (printed [] (percent true) 0)
      else if c == b'x'
      then word (
          chars (
            if alternate
            then convert_alternate behind junk v
            else convert_unsigned behind junk 16 v))
      else if c == b'u'
      then word (chars (convert_unsigned behind junk 10 v))
      else if c == b'd'
      then word (chars (convert_signed behind junk v))
      else if c == b'c'
      then some (printed (u8 v ∷ []) plain 1)
      else if c == b's'
      then word (chars (some (string_at v)))
      else some (printed [] plain 0)

  unfoldable pub round : Mode → ℕ → ℕ → Option Round
  round plain c v =
      if c == 0
      then some ended
      else if c == b'%'
      then some (printed [] (percent false) 0)
      else some (printed (c ∷ []) plain 0)
  round (percent alternate) c v = convert alternate c v

  -- The loop of `printf`: the index of the end, and all that is printed.
  pub format_from : ℕ → Mode → ℕ → ℕ → Buf → Arr ℕ → Option (ℕ × List ℕ)
  unfolding round
  format_from zero mode i k format args = none
  format_from (suc fuel) mode i k format args = elim (round mode (format i) (args k)) [
    | none ↦ none
    | some ended ↦ some (i, [])
    | some (printed cs mode' taken) ↦
        elim (format_from fuel mode' (i + 1) (k + taken) format args) [
          | none ↦ none
          | some (n, more) ↦ some (n, cs ++ more)
        ]
  ]

  -- `none`: the format or a string has no end.
  unfoldable pub printf : Terminals → ℕ → Buf → Arr ℕ → Screen → Option (ℕ × Screen)
  unfolding format_from
  printf tm page format args s = elim (format_from mem_size plain 0 0 format args) [
    | none ↦ none
    | some (n, cs) ↦ some (n, puts tm page cs s)
  ]
