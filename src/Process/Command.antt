-- ===== src/Process/Command.antt =====
-- How `execute` cuts its command into a name and arguments.
use native.Mathlib.Decide.{dec_lt, ℕ_discrete}
use iaaa_os.Base.{
  ℕ, zero, suc, ◌+◌, ◌-◌, ◌≤◌, ◌<◌, ◌≡◌, ◌≢◌, ◌∙◌, ap, arith, ◌==◌, ◌&&◌, ◌||◌, if◌then◌else◌, true,
  false, ltb, leb, Buf, upd, some,
}
use iaaa_os.Str.{mem_size}
use iaaa_os.Process.{at, skip_leading, copy_word, skip_spaces, parsed, parse_from, parse_command}

-- `a` spaces, a word of `w` characters, and `s` spaces behind it, up to the arguments or the end.
pub record IsCommand (command : Buf) (a w s : ℕ) : Type 0 where
  pub leading : (i : ℕ) → i < a → command i ≡ b' '
  pub word_at : (i : ℕ) → i < w → (command (a + i) ≢ 0) × (command (a + i) ≢ b' ')
  pub some_word : 0 < w
  pub separated : (i : ℕ) → i < s → command (a + w + i) ≡ b' '
  pub behind_spaces : command (a + w + s) ≢ b' '
  pub no_space : s ≡ 0 → command (a + w) ≡ 0
  pub fits : a + w ≤ 32
  pub ends : a + w + s < mem_size

module _ (command : Buf) where
  skip_leading_lem :
      (fuel i a : ℕ)
      → ((j : ℕ) → i ≤ j → j < a → command j ≡ b' ')
      → command a ≢ b' '
      → command a ≢ 0
      → i ≤ a
      → a < i + fuel
      → skip_leading fuel command i ≡ some (at a)
  unfolding skip_leading
  skip_leading_lem zero i a sp d z l f = absurd (omega arith)
  skip_leading_lem (suc fuel) i a sp d z l f = elim (dec_lt i a) [
    | yes more ↦
        let here : (command i == b' ') ≡ true = ground (arith, sp i) in
        let next : (command (i + 1) == 0) ≡ false = next_char more (ℕ_discrete (i + 1) a) in
        rw (here, next)
          (skip_leading_lem fuel (i + 1) a (λ j lo hi. sp j (omega arith) hi) d z (omega arith)
            (omega arith))
    | no end ↦
        let same : i ≡ a = omega arith in
        let here : (command i == b' ') ≡ false = ground (arith, same) in
        rw here (ap (λ n. some (at n)) same)
  ]
    where
      next_char : i < a → Dec (i + 1 ≡ a) → (command (i + 1) == 0) ≡ false
      next_char more (yes e) = ground (arith, ap command e)
      next_char more (no n) = ground (arith, sp (i + 1))

  skip_spaces_lem :
      (fuel i n : ℕ)
      → ((j : ℕ) → i ≤ j → j < n → command j ≡ b' ')
      → command n ≢ b' '
      → i ≤ n
      → n < i + fuel
      → skip_spaces fuel command i ≡ some n
  unfolding skip_spaces
  skip_spaces_lem zero i n sp d l f = absurd (omega arith)
  skip_spaces_lem (suc fuel) i n sp d l f = elim (dec_lt i n) [
    | yes more ↦
        let here : (command i == b' ') ≡ true = ground (arith, sp i) in
        rw here (
          skip_spaces_lem fuel (i + 1) n (λ j lo hi. sp j (omega arith) hi) d (omega arith)
            (omega arith))
    | no end ↦
        let same : i ≡ n = omega arith in
        let here : (command i == b' ') ≡ false = ground (arith, same) in
        rw here (ap (λ m. some m) same)
  ]

  -- The loop stops at a NUL, at a space or behind 32 characters of the command.
  copy_word_lem :
      (rounds i j w : ℕ) (name : Buf)
      → ((m : ℕ) → m < w → (command (i + m) ≢ 0) × (command (i + m) ≢ b' '))
      → w ≤ rounds
      → (w < rounds → (command (i + w) == 0 || command (i + w) == b' ') ≡ true)
      → (b : Buf) × (copy_word rounds i j command name ≡ (i + w, b))
        × ((m : ℕ) → b m ≡ (if leb j m && ltb m (j + w) then command (i + (m - j)) else name m))
  unfolding copy_word
  copy_word_lem zero i j w name chars l stop = (name, ground arith, λ m. ground arith)
  copy_word_lem (suc rounds) i j zero name chars l stop =
      let index : i + 0 ≡ i = omega arith in
      let here = stop (omega arith) in (name, ground (arith, here, index), λ m. ground arith)
  copy_word_lem (suc rounds) i j (suc w) name chars l stop =
      let index : i + 0 ≡ i = omega arith in
      let first = chars 0 (omega arith) in
      let no_end : (command i == 0) ≡ false = ground (arith, ap command index) in
      let no_gap : (command i == b' ') ≡ false = ground (arith, ap command index) in
      let (b, e, f) =
        copy_word_lem rounds (i + 1) (j + 1) w (upd name j (command i))
          (λ m h.
            let moved : i + 1 + m ≡ i + suc m = omega arith in
            rw moved (chars (suc m) (omega arith)))
          (omega arith)
          (λ h. let moved : i + 1 + w ≡ i + suc w = omega arith in rw moved (stop (omega arith))) in
      (
        b,
        rw (no_end, no_gap, e) (ap (λ n. (n, b)) (omega arith)),
        λ m. f m ∙ placed_char m (dec_lt j m),
      )
    where
      placed_char :
          (m : ℕ)
          → Dec (j < m)
          → (if leb (j + 1) m && ltb m (j + 1 + w)
              then command (i + 1 + (m - (j + 1)))
              else upd name j (command i) m)
            ≡ (if leb j m && ltb m (j + suc w) then command (i + (m - j)) else name m)
      placed_char m (yes h) =
          let index : i + 1 + (m - (j + 1)) ≡ i + (m - j) = omega arith in rw index (ground arith)
      placed_char m (no g) = elim (ℕ_discrete m j) [
        | yes e ↦ let index : i ≡ i + (m - j) = omega arith in ground (arith, ap command index)
        | no d ↦ ground arith
      ]

parse_steps :
    (command behind : Buf) (a w s : ℕ) (b : Buf)
    → skip_leading mem_size command 0 ≡ some (at a)
    → copy_word (32 - a) a 0 command (λ i. if ltb i 32 then 0 else behind i) ≡ (a + w, b)
    → skip_spaces mem_size command (a + w) ≡ some (a + w + s)
    → parse_command command behind ≡ some (parsed b (a + w + s))
unfolding parse_command parse_from
parse_steps command behind a w s b e1 e2 e3 =
    rw (e1, e2, e3, parse_command, parse_from)
      (ap (λ (r : ℕ × Buf). some (parsed r.1 (a + w + s))) e2)

-- A command of leading spaces, a word and its arguments, whose word ends within the first 32 characters: the
-- name is the word with NULs behind it up to 32 bytes, and the arguments begin behind the spaces that follow.
pub parse_command_lem :
    (command behind : Buf) (a w s : ℕ)
    → IsCommand command a w s
    → (name : Buf) × (parse_command command behind ≡ some (parsed name (a + w + s)))
      × ((j : ℕ) → name j ≡ (if ltb j w then command (a + j) else if ltb j 32 then 0 else behind j))
parse_command_lem command behind a w s c =
    let start : a + 0 ≡ a = omega arith in
    let (some_char, no_gap) = rw start at (c.word_at 0 c.some_word) in
    let e1 =
      skip_leading_lem command mem_size 0 a (λ j lo hi. c.leading j hi) no_gap some_char
        (omega arith) (omega (arith, c.ends)) in
    let fresh : Buf = λ i. if ltb i 32 then 0 else behind i in
    let (b, e2, f) =
      copy_word_lem command (32 - a) a 0 w fresh c.word_at (omega (arith, c.fits))
        (λ h. ends_word (ℕ_discrete s 0)) in
    let e3 =
      skip_spaces_lem command mem_size (a + w) (a + w + s) gap c.behind_spaces (omega arith)
        (omega (arith, c.ends)) in
    (b, parse_steps command behind a w s b e1 e2 e3, λ j. ground (arith, f j))
  where
    gap : (j : ℕ) → a + w ≤ j → j < a + w + s → command j ≡ b' '
    gap j lo hi = ap command (omega arith) ∙ c.separated (j - (a + w)) (omega arith)

    ends_word : Dec (s ≡ 0) → (command (a + w) == 0 || command (a + w) == b' ') ≡ true
    ends_word (yes z) = ground (arith, c.no_space z)
    ends_word (no d) =
        let index : a + w + 0 ≡ a + w = omega arith in
        let space = rw index at (c.separated 0 (omega arith)) in ground arith
