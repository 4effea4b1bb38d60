-- ===== src/Programs/Shell.antt =====
-- syscalls/ece391shell.c. What the shell does with a line is a function of its own, and `execute` an argument.
use native.Mathlib.Decide.{ℕ_discrete}
use iaaa_os.Base.{
  pos_part, neg_part, ℕ, zero, suc, ◌+◌, ◌-◌, ◌<◌, ◌≤◌, ◌≡◌, ◌≢◌, ◌⊎◌, inl, inr, refl, ap, ◌∙◌,
  arith, true, false, ltb, ◌==◌, ◌&&◌, if◌then◌else◌, Buf, upd, ℤ, pos, negsuc, Option, none, some,
  List, [], ◌∷◌, is_zero,
}
use iaaa_os.Str.{mem_size}
use iaaa_os.Str.Length.{HasLength}
use iaaa_os.Programs.Support.{ece391_strcmp_lem}
use iaaa_os.Programs.{Calls, is_failed, count, text_of, ece391_strcmp, ece391_fdputs, give_up}

-- A newline at the end of the line is not counted.
unfoldable pub line_count : ℤ → Buf → ℕ
line_count (pos n) buf = if ltb 0 n && buf (n - 1) == 10 then n - 1 else n
line_count (negsuc n) buf = count (negsuc n)

abbrev greeting : List ℕ
greeting =
    b'S' ∷ b't' ∷ b'a' ∷ b'r' ∷ b't' ∷ b'i' ∷ b'n' ∷ b'g' ∷ b' ' ∷ b'3' ∷ b'9' ∷ b'1' ∷ b' ' ∷ b'S'
    ∷ b'h' ∷ b'e' ∷ b'l' ∷ b'l' ∷ 10 ∷ []

abbrev prompt : List ℕ
prompt = b'3' ∷ b'9' ∷ b'1' ∷ b'O' ∷ b'S' ∷ b'>' ∷ b' ' ∷ []

abbrev no_keyboard : List ℕ
no_keyboard =
    b'r' ∷ b'e' ∷ b'a' ∷ b'd' ∷ b' ' ∷ b'f' ∷ b'r' ∷ b'o' ∷ b'm' ∷ b' ' ∷ b'k' ∷ b'e' ∷ b'y' ∷ b'b'
    ∷ b'o' ∷ b'a' ∷ b'r' ∷ b'd' ∷ b' ' ∷ b'f' ∷ b'a' ∷ b'i' ∷ b'l' ∷ b'e' ∷ b'd' ∷ 10 ∷ []

abbrev exit_command : List ℕ
exit_command = b'e' ∷ b'x' ∷ b'i' ∷ b't' ∷ []

abbrev no_command : List ℕ
no_command =
    b'n' ∷ b'o' ∷ b' ' ∷ b's' ∷ b'u' ∷ b'c' ∷ b'h' ∷ b' ' ∷ b'c' ∷ b'o' ∷ b'm' ∷ b'm' ∷ b'a' ∷ b'n'
    ∷ b'd' ∷ 10 ∷ []

abbrev by_exception : List ℕ
by_exception =
    b'p' ∷ b'r' ∷ b'o' ∷ b'g' ∷ b'r' ∷ b'a' ∷ b'm' ∷ b' ' ∷ b't' ∷ b'e' ∷ b'r' ∷ b'm' ∷ b'i' ∷ b'n'
    ∷ b'a' ∷ b't' ∷ b'e' ∷ b'd' ∷ b' ' ∷ b'b' ∷ b'y' ∷ b' ' ∷ b'e' ∷ b'x' ∷ b'c' ∷ b'e' ∷ b'p'
    ∷ b't' ∷ b'i' ∷ b'o' ∷ b'n' ∷ 10 ∷ []

abbrev abnormally : List ℕ
abnormally =
    b'p' ∷ b'r' ∷ b'o' ∷ b'g' ∷ b'r' ∷ b'a' ∷ b'm' ∷ b' ' ∷ b't' ∷ b'e' ∷ b'r' ∷ b'm' ∷ b'i' ∷ b'n'
    ∷ b'a' ∷ b't' ∷ b'e' ∷ b'd' ∷ b' ' ∷ b'a' ∷ b'b' ∷ b'n' ∷ b'o' ∷ b'r' ∷ b'm' ∷ b'a' ∷ b'l'
    ∷ b'l' ∷ b'y' ∷ 10 ∷ []

-- What the shell does with a line: it ends, asks again, or runs the command.
pub data Request : Type 0 where
  leaves : Request
  asks : Request
  runs : Buf → Request

unfoldable pub request_of : Buf → Option Request
request_of line = elim (ece391_strcmp line (text_of exit_command)) [
  | none ↦ none
  | some r ↦ if is_zero r then some leaves else if line 0 == 0 then some asks else some (runs line)
]

-- The line is ended by a NUL first.
unfoldable pub request : ℤ → Buf → Option Request
unfolding request_of
request cnt buf = request_of (upd buf (line_count cnt buf) 0)

-- The message about a status, if any.
abbrev pub report_of : ℤ → List ℕ
report_of (pos n) = if n == 256 then by_exception else if n == 0 then [] else abnormally
report_of (negsuc n) = if n == 0 then no_command else abnormally

module _ {S : Type 0} (calls : Calls S) (execute : Buf → S → ℤ × S) where
  -- `ece391_fdputs` is not called for the status 0.
  unfoldable pub report : ℤ → S → Option S
  report r k = if is_zero r then some k else ece391_fdputs calls (pos 1) (text_of (report_of r)) k

  unfoldable pub answer : Option Request → S → Option S ⊎ Option (ℕ × S)
  unfolding report
  answer none k = inr none
  answer (some leaves) k = inr (some (0, k))
  answer (some asks) k = inl (some k)
  answer (some (runs line)) k = let (r, k') = execute line k in inl (report r k')

  -- One round: the buffer and the state for the next, or the end.
  unfoldable pub shell_round : Buf → S → Option (Buf × S) ⊎ Option (ℕ × S)
  unfolding answer
  shell_round buf k = elim (ece391_fdputs calls (pos 1) (text_of prompt) k) [
    | none ↦ inr none
    | some k1 ↦
        let (cnt, buf', k2) = calls.read (pos 0) buf 1023 k1 in
        if is_failed cnt
        then inr (give_up calls no_keyboard 3 k2)
        else elim (answer (request cnt buf') k2) [
          | inr out ↦ inr out
          | inl none ↦ inl none
          | inl (some k3) ↦ inl (some (upd buf' (line_count cnt buf') 0, k3))
        ]
  ]

  -- `none`: the shell is not left within the rounds, or a text has no end.
  pub shell_loop : ℕ → Buf → S → Option (ℕ × S)
  unfolding shell_round
  shell_loop zero buf k = none
  shell_loop (suc rounds) buf k = elim (shell_round buf k) [
    | inr out ↦ out
    | inl none ↦ none
    | inl (some (buf', k')) ↦ shell_loop rounds buf' k'
  ]

  unfoldable pub shell : ℕ → Buf → S → Option (ℕ × S)
  unfolding shell_loop
  shell rounds junk k = elim (ece391_fdputs calls (pos 1) (text_of greeting) k) [
    | none ↦ none
    | some k1 ↦ shell_loop rounds junk k1
  ]

-- A line of `n` characters and a newline, as a read gives it, with no character NUL.
pub record IsLine (n : ℕ) (buf : Buf) : Type 0 where
  pub newline : buf n ≡ 10
  pub chars : (i : ℕ) → i < n → buf i ≢ 0

-- The line is "exit".
abbrev pub IsExit : ℕ → Buf → Type 0
IsExit n buf = (j : ℕ) → j ≤ n → upd buf n 0 j ≡ text_of exit_command j

line_count-newline : (n : ℕ) (buf : Buf) → IsLine n buf → line_count (pos (n + 1)) buf ≡ n
unfolding line_count
line_count-newline n buf l =
    let e : n + 1 - 1 ≡ n = omega arith in
    let b : buf (n + 1 - 1) ≡ 10 = ap buf e ∙ l.newline in ground arith

line-HasLength : (n : ℕ) (buf : Buf) → IsLine n buf → HasLength (upd buf n 0) n
line-HasLength n buf l = record { nul = ground arith; chars = λ i h. ground (arith, l.chars i h) }

zero_cases : (r : ℤ) → (r ≡ pos 0) ⊎ ((is_zero r ≡ false) × (r ≢ pos 0))
zero_cases (pos zero) = inl refl
zero_cases (pos (suc n)) = inr (refl, λ e. absurd (omega (arith, ap pos_part e)))
zero_cases (negsuc n) = inr (refl, λ e. absurd (omega (arith, ap neg_part e)))

-- On a line that ends with a newline the shell leaves exactly if it is `exit`, asks again exactly if it is
-- empty, and otherwise runs the line without its newline.
pub request_lem :
    (n : ℕ) (buf : Buf)
    → IsLine n buf
    → n < mem_size
    → (request (pos (n + 1)) buf ≡ some leaves × IsExit n buf)
      ⊎ ((request (pos (n + 1)) buf ≡ some asks) × (n ≡ 0))
      ⊎ ((n ≢ 0)
          × (¬ IsExit n buf)
          × (request (pos (n + 1)) buf ≡ some (runs (upd buf n 0)))
          × HasLength (upd buf n 0) n)
unfolding request request_of
request_lem n buf l h =
    let line = upd buf n 0 in
    let (r, e, f) = ece391_strcmp_lem line (text_of exit_command) n (line-HasLength n buf l) h in
    let c = ap (λ m. request_of (upd buf m 0)) (line_count-newline n buf l) in
    elim (zero_cases r) [
      | inl z ↦ inl (c ∙ rw (request_of, e, z) refl, f.0 z)
      | inr (nz, d) ↦ elim (ℕ_discrete n 0) [
        | yes z ↦
            let empty : (line 0 == 0) ≡ true = ground arith in
            inr (inl (c ∙ rw (request_of, e, nz, empty) refl, z))
        | no more ↦
            let full : (line 0 == 0) ≡ false = ground (arith, l.chars 0) in
            inr (
              inr (
                more,
                λ x. d (f.1 x),
                c ∙ rw (request_of, e, nz, full) refl,
                line-HasLength n buf l,
              ))
      ]
    ]
