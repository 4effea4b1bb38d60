-- ===== src/Programs.antt =====
-- The user programs in syscalls. They meet the kernel through its system calls only, which are a record of
-- operations on a state: `read` gives the buffer that it leaves.
pub mod Support
pub mod Cat
pub mod Ls
pub mod Shell
pub mod Texts
use iaaa_os.Base.{
  ℕ, zero, suc, ◌+◌, ◌-◌, ◌/◌, ◌%◌, Bool, true, false, ltb, leb, ◌==◌, ◌&&◌, ◌||◌, not,
  if◌then◌else◌, Buf, upd, ℤ, pos, negsuc, minus_one, Option, none, some, List, [], ◌∷◌, sub_ℕ,
  is_zero, ◌⊎◌, inl, inr,
}
use iaaa_os.Str.{mem_size, lookup}

pub record Calls (S : Type 0) : Type 0 where
  pub getargs : Buf → ℕ → S → ℤ × Buf × S
  pub open_file : Buf → S → ℤ × S
  pub read : ℤ → Buf → ℕ → S → ℤ × Buf × S
  pub write : ℤ → Buf → ℕ → S → ℤ × S

abbrev pub is_failed : ℤ → Bool
is_failed (pos n) = false
is_failed (negsuc n) = n == 0

-- The count as `nbytes`: a uint32_t in a register.
abbrev pub count : ℤ → ℕ
count (pos n) = n
count (negsuc n) = 0xFFFFFFFF - n

-- A string constant, with its NUL.
unfoldable pub text_of : List ℕ → Buf
text_of [] i = 0
text_of (c ∷ cs) zero = c
text_of (c ∷ cs) (suc i) = text_of cs i

-- `ece391_strlen`: `i` counts the steps of the pointer.
pub ece391_strlen_from : ℕ → Buf → ℕ → ℕ → Option ℕ
ece391_strlen_from zero s i len = none
ece391_strlen_from (suc fuel) s i len =
    let rest = ece391_strlen_from fuel s (i + 1) (len + 1) in if s i == 0 then some len else rest

unfoldable pub ece391_strlen : Buf → Option ℕ
unfolding ece391_strlen_from
ece391_strlen s = ece391_strlen_from mem_size s 0 0

pub ece391_strcpy_from : ℕ → ℕ → Buf → Buf → Option Buf
ece391_strcpy_from zero i dst src = none
ece391_strcpy_from (suc fuel) i dst src =
    let rest = ece391_strcpy_from fuel (i + 1) (upd dst i (src i)) src in
    if src i == 0 then some (upd dst i (src i)) else rest

unfoldable pub ece391_strcpy : Buf → Buf → Option Buf
unfolding ece391_strcpy_from
ece391_strcpy dst src = ece391_strcpy_from mem_size 0 dst src

pub ece391_strcmp_from : ℕ → ℕ → Buf → Buf → Option ℤ
ece391_strcmp_from zero i s1 s2 = none
ece391_strcmp_from (suc fuel) i s1 s2 =
    let rest = ece391_strcmp_from fuel (i + 1) s1 s2 in
    if s1 i == s2 i then (if s1 i == 0 then some (pos 0) else rest) else some (sub_ℕ (s1 i) (s2 i))

unfoldable pub ece391_strcmp : Buf → Buf → Option ℤ
unfolding ece391_strcmp_from
ece391_strcmp s1 s2 = ece391_strcmp_from mem_size 0 s1 s2

-- The loop, with the count that is left; it is not entered with 0.
pub ece391_strncmp_from : ℕ → ℕ → Buf → Buf → ℤ
ece391_strncmp_from zero i s1 s2 = pos 0
ece391_strncmp_from (suc n) i s1 s2 =
    let rest = ece391_strncmp_from n (i + 1) s1 s2 in
    if s1 i == s2 i then (if s1 i == 0 || n == 0 then pos 0 else rest) else sub_ℕ (s1 i) (s2 i)

unfoldable pub ece391_strncmp : Buf → Buf → ℕ → ℤ
unfolding ece391_strncmp_from
ece391_strncmp s1 s2 n = if n == 0 then pos 0 else ece391_strncmp_from n 0 s1 s2

-- The loop of `ece391_strrev`; `beg` and `end` meet after `rounds` at most.
pub ece391_strrev_from : ℕ → ℕ → ℕ → Buf → Buf
ece391_strrev_from zero beg end s = s
ece391_strrev_from (suc rounds) beg end s =
    let rest =
      ece391_strrev_from rounds (beg + 1) (end - 1) (upd (upd s end (s beg)) beg (s end)) in
    if ltb beg end then rest else s

-- `end <= 0` is a length of at most one.
unfoldable pub ece391_strrev : Buf → Option Buf
unfolding ece391_strrev_from
ece391_strrev s = elim (ece391_strlen s) [
  | none ↦ none
  | some n ↦ if leb n 1 then some s else some (ece391_strrev_from n 0 (n - 1) s)
]

-- The loop of `ece391_itoa`; its table is a copy of the kernel's, with other bytes behind it.
pub ece391_itoa_from : ℕ → Buf → ℕ → ℕ → ℕ → Buf → Option (ℕ × Buf)
ece391_itoa_from zero behind radix newval at buf = none
ece391_itoa_from (suc fuel) behind radix newval at buf =
    let rest =
      ece391_itoa_from fuel behind radix (newval / radix) (at + 1)
        (upd buf at (lookup behind (newval % radix))) in
    if newval == 0 then some (at, buf) else rest

unfoldable pub ece391_itoa : Buf → ℕ → Buf → ℕ → Option Buf
unfolding ece391_itoa_from ece391_strrev
ece391_itoa behind value buf radix =
    if value == 0
    then some (upd (upd buf 0 b'0') 1 0)
    else elim (ece391_itoa_from mem_size behind radix value 0 buf) [
      | none ↦ none
      | some (at, b) ↦ ece391_strrev (upd b at 0)
    ]

abbrev pub args_failed : List ℕ
args_failed =
    b'c' ∷ b'o' ∷ b'u' ∷ b'l' ∷ b'd' ∷ b' ' ∷ b'n' ∷ b'o' ∷ b't' ∷ b' ' ∷ b'r' ∷ b'e' ∷ b'a' ∷ b'd'
    ∷ b' ' ∷ b'a' ∷ b'r' ∷ b'g' ∷ b'u' ∷ b'm' ∷ b'e' ∷ b'n' ∷ b't' ∷ b's' ∷ 10 ∷ []

abbrev pub not_found : List ℕ
not_found =
    b'f' ∷ b'i' ∷ b'l' ∷ b'e' ∷ b' ' ∷ b'n' ∷ b'o' ∷ b't' ∷ b' ' ∷ b'f' ∷ b'o' ∷ b'u' ∷ b'n' ∷ b'd'
    ∷ 10 ∷ []

abbrev pub read_failed : List ℕ
read_failed =
    b'f' ∷ b'i' ∷ b'l' ∷ b'e' ∷ b' ' ∷ b'r' ∷ b'e' ∷ b'a' ∷ b'd' ∷ b' ' ∷ b'f' ∷ b'a' ∷ b'i' ∷ b'l'
    ∷ b'e' ∷ b'd' ∷ 10 ∷ []

abbrev pub open_failed : List ℕ
open_failed =
    b'd' ∷ b'i' ∷ b'r' ∷ b'e' ∷ b'c' ∷ b't' ∷ b'o' ∷ b'r' ∷ b'y' ∷ b' ' ∷ b'o' ∷ b'p' ∷ b'e' ∷ b'n'
    ∷ b' ' ∷ b'f' ∷ b'a' ∷ b'i' ∷ b'l' ∷ b'e' ∷ b'd' ∷ 10 ∷ []

abbrev pub entry_failed : List ℕ
entry_failed =
    b'd' ∷ b'i' ∷ b'r' ∷ b'e' ∷ b'c' ∷ b't' ∷ b'o' ∷ b'r' ∷ b'y' ∷ b' ' ∷ b'e' ∷ b'n' ∷ b't' ∷ b'r'
    ∷ b'y' ∷ b' ' ∷ b'r' ∷ b'e' ∷ b'a' ∷ b'd' ∷ b' ' ∷ b'f' ∷ b'a' ∷ b'i' ∷ b'l' ∷ b'e' ∷ b'd' ∷ 10
    ∷ []

module _ {S : Type 0} (calls : Calls S) where
  unfoldable pub ece391_fdputs : ℤ → Buf → S → Option S
  ece391_fdputs fd s k = elim (ece391_strlen s) [
    | none ↦ none
    | some n ↦ some (calls.write fd s n k).1
  ]

  -- A message, and the status that `main` returns.
  unfoldable pub give_up : List ℕ → ℕ → S → Option (ℕ × S)
  unfolding ece391_fdputs
  give_up message status k = elim (ece391_fdputs (pos 1) (text_of message) k) [
    | none ↦ none
    | some k' ↦ some (status, k')
  ]

  -- The body of the loop of `cat` behind a read, if the file goes on; `none` to go round again.
  unfoldable pub cat_chunk : ℤ → Buf → S → S ⊎ Option (ℕ × S)
  unfolding give_up
  cat_chunk cnt buf k =
      if is_failed cnt
      then inr (give_up read_failed 3 k)
      else let (r, k') = calls.write (pos 1) buf (count cnt) k in
        if is_failed r then inr (some (3, k')) else inl k'

  -- `none`: the file does not end within the rounds.
  pub cat_loop : ℕ → ℤ → Buf → S → Option (ℕ × S)
  unfolding cat_chunk
  cat_loop zero fd buf k = none
  cat_loop (suc rounds) fd buf k =
      let (cnt, buf', k1) = calls.read fd buf 1024 k in
      if is_zero cnt
      then some (0, k1)
      else elim (cat_chunk cnt buf' k1) [ inr out ↦ out | inl k2 ↦ cat_loop rounds fd buf' k2 ]

  unfoldable pub cat : ℕ → Buf → S → Option (ℕ × S)
  unfolding cat_loop give_up
  cat rounds junk k =
      let (r, buf, k1) = calls.getargs junk 1024 k in
      if not (is_zero r)
      then give_up args_failed 3 k1
      else let (fd, k2) = calls.open_file buf k1 in
        if is_failed fd then give_up not_found 2 k2 else cat_loop rounds fd buf k2

  -- The same for `ls`, with the buffer, in which a newline is behind the entry.
  unfoldable pub ls_entry : ℤ → Buf → S → (Buf × S) ⊎ Option (ℕ × S)
  unfolding give_up
  ls_entry cnt buf k =
      if is_failed cnt
      then inr (give_up entry_failed 3 k)
      else let line = upd buf (count cnt) 10 in
        let (r, k') = calls.write (pos 1) line (count cnt + 1) k in
        if is_failed r then inr (some (3, k')) else inl (line, k')

  pub ls_loop : ℕ → ℤ → Buf → S → Option (ℕ × S)
  unfolding ls_entry
  ls_loop zero fd buf k = none
  ls_loop (suc rounds) fd buf k =
      let (cnt, buf', k1) = calls.read fd buf 32 k in
      if is_zero cnt then some (0, k1) else elim (ls_entry cnt buf' k1) [
        | inr out ↦ out
        | inl (line, k2) ↦ ls_loop rounds fd line k2
      ]

  unfoldable pub ls : ℕ → Buf → S → Option (ℕ × S)
  unfolding ls_loop give_up
  ls rounds junk k =
      let (fd, k1) = calls.open_file (text_of (b'.' ∷ [])) k in
      if is_failed fd then give_up open_failed 2 k1 else ls_loop rounds fd junk k1
