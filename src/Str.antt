-- ===== src/Str.antt =====
-- The string functions of student-distrib/lib.c. A `Buf` is the object behind a pointer.
pub mod Copy
pub mod Compare
pub mod Length
pub mod Append
pub mod Reverse
pub mod Digits
use iaaa_os.Base.{
  ℕ, zero, suc, ◌+◌, ◌-◌, ◌/◌, ◌%◌, ◌^◌, Bool, true, false, not, ◌||◌, Option, none, some, ◌==◌,
  if◌then◌else◌, ltb, Arr, Buf, upd, ℤ, pos, ◌-ℤ◌, int8,
}

-- The bytes of the address space: no string is longer.
unfoldable pub mem_size : ℕ
mem_size = 2 ^ 32

-- The loop of `strlen`, on fuel. `none`: there is no NUL up to there.
unfoldable pub strlen_from : ℕ → Buf → ℕ → Option ℕ
strlen_from zero s len = none
strlen_from (suc fuel) s len =
    let rest = strlen_from fuel s (len + 1) in if s len == 0 then some len else rest

unfoldable pub strlen : Buf → Option ℕ
unfolding strlen_from
strlen s = strlen_from mem_size s 0

-- `for (i = 0; i < n; i++)` with the rounds that are left.
pub strncmp_from : ℕ → ℕ → Buf → Buf → ℤ
unfolding ◌-ℤ◌
strncmp_from zero i s1 s2 = pos 0
strncmp_from (suc rounds) i s1 s2 =
    let rest = strncmp_from rounds (i + 1) s1 s2 in
    if not (s1 i == s2 i) || s1 i == 0 then int8 (s1 i) -ℤ int8 (s2 i) else rest

unfoldable pub strncmp : Buf → Buf → ℕ → ℤ
unfolding strncmp_from
strncmp s1 s2 n = strncmp_from n 0 s1 s2

-- The second loop of `strncpy`.
pub strncpy_pad : ℕ → ℕ → Buf → Buf
strncpy_pad zero i dest = dest
strncpy_pad (suc rounds) i dest = strncpy_pad rounds (i + 1) (upd dest i 0)

-- The first loop; `rounds` is `n - i`.
pub strncpy_from : ℕ → ℕ → Buf → Buf → Buf
unfolding strncpy_pad
strncpy_from zero i dest src = dest
strncpy_from (suc rounds) i dest src =
    let rest = strncpy_from rounds (i + 1) (upd dest i (src i)) src in
    if src i == 0 then strncpy_pad (suc rounds) i dest else rest

unfoldable pub strncpy : Buf → Buf → ℕ → Buf
unfolding strncpy_from
strncpy dest src n = strncpy_from n 0 dest src

unfoldable pub strcpy_from : ℕ → ℕ → Buf → Buf → Option Buf
strcpy_from zero i dest src = none
strcpy_from (suc fuel) i dest src =
    let rest = strcpy_from fuel (i + 1) (upd dest i (src i)) src in
    if src i == 0 then some (upd dest i 0) else rest

unfoldable pub strcpy : Buf → Buf → Option Buf
unfolding strcpy_from
strcpy dest src = strcpy_from mem_size 0 dest src

pub strncpy_include_null_from : ℕ → ℕ → Buf → Buf → Buf
strncpy_include_null_from zero i dest src = dest
strncpy_include_null_from (suc rounds) i dest src =
    strncpy_include_null_from rounds (i + 1) (upd dest i (src i)) src

-- The second `while` never runs: the first ends at `i == n`.
unfoldable pub strncpy_include_null : Buf → Buf → ℕ → Buf
unfolding strncpy_include_null_from
strncpy_include_null dest src n = strncpy_include_null_from n 0 dest src

-- The second loop of `strcat`, behind the `i` characters of `dest`.
pub strcat_from : ℕ → ℕ → ℕ → Buf → Buf → Option Buf
strcat_from zero i j dest src = none
strcat_from (suc fuel) i j dest src =
    let rest = strcat_from fuel i (j + 1) (upd dest (i + j) (src j)) src in
    if src j == 0 then some (upd dest (i + j) 0) else rest

-- The first loop is that of `strlen`.
unfoldable pub strcat : Buf → Buf → Option Buf
unfolding strlen_from strcat_from
strcat dest src = elim (strlen_from mem_size dest 0) [
  | none ↦ none
  | some i ↦ strcat_from mem_size i 0 dest src
]

-- The loop of `strrev`: `beg` and `end` meet after `rounds` at most.
unfoldable pub strrev_from : ℕ → ℕ → ℕ → Buf → Buf
strrev_from zero beg end s = s
strrev_from (suc rounds) beg end s =
    let rest = strrev_from rounds (beg + 1) (end - 1) (upd (upd s end (s beg)) beg (s end)) in
    if ltb beg end then rest else s

-- `end` starts at -1 for the empty string, which has no round.
unfoldable pub strrev : Buf → Option Buf
unfolding strrev_from
strrev s = elim (strlen s) [ none ↦ none | some n ↦ some (strrev_from n 0 (n - 1) s) ]

-- `lookup`; `behind` are the bytes behind the array.
unfoldable pub lookup : Buf → ℕ → ℕ
lookup behind i =
    if ltb i 10
    then b'0' + i
    else if ltb i 36
    then b'A' + (i - 10)
    else if i == 36
    then 0
    else behind (i - 37)

-- The loop of `itoa`, which writes from `at` on: the index and the object behind it.
unfoldable pub itoa_from : ℕ → Buf → ℕ → ℕ → ℕ → Buf → Option (ℕ × Buf)
unfolding lookup
itoa_from zero behind radix newval at buf = none
itoa_from (suc fuel) behind radix newval at buf =
    let rest =
      itoa_from fuel behind radix (newval / radix) (at + 1)
        (upd buf at (lookup behind (newval % radix))) in
    if newval == 0 then some (at, buf) else rest

-- `none`: the loop goes on, as it does for a radix of 1, or there is no NUL.
unfoldable pub itoa : Buf → ℕ → Buf → ℕ → Option Buf
unfolding itoa_from strrev
itoa behind value buf radix =
    if value == 0
    then some (upd (upd buf 0 b'0') 1 0)
    else elim (itoa_from mem_size behind radix value 0 buf) [
      | none ↦ none
      | some (at, b) ↦ strrev (upd b at 0)
    ]
