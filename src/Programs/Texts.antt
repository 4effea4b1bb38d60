-- ===== src/Programs/Texts.antt =====
-- The string constants of the programs and of `printf`.
use iaaa_os.Base.{
  ℕ, zero, suc, ◌+◌, ◌<◌, ◌≡◌, ◌≢◌, ◌∙◌, refl, ap, arith, Bool, true, false, Buf, List, [], ◌∷◌,
  ◌==◌, if◌then◌else◌,
}
use iaaa_os.Str.Length.{HasLength}
use iaaa_os.Printf.Total.{Holds, length}
use iaaa_os.Programs.{text_of}

-- No byte of a text is 0, and it is short.
abbrev pub is_text : List ℕ → Bool
is_text [] = true
is_text (c ∷ cs) = if c == 0 then false else is_text cs

pub text_of-HasLength : (cs : List ℕ) → is_text cs ≡ true → HasLength (text_of cs) (length cs)
unfolding text_of length
text_of-HasLength [] e = record { nul = refl; chars = λ i h. absurd (omega arith) }
text_of-HasLength (c ∷ cs) e =
    let rest = text_of-HasLength cs (ground arith) in record { nul = rest.nul; chars = chars rest }
  where
    chars :
        HasLength (text_of cs) (length cs) → (i : ℕ) → i < suc (length cs) → text_of (c ∷ cs) i ≢ 0
    chars rest zero h = λ z. ground (arith, e)
    chars rest (suc i) h = rest.chars i (omega arith)

Holds-at :
    (format : Buf) (i : ℕ) (cs : List ℕ)
    → is_text cs ≡ true
    → ((j : ℕ) → format (i + j) ≡ text_of cs j)
    → Holds format i cs
unfolding text_of
Holds-at format i [] t e = ap format (omega arith) ∙ e 0
Holds-at format i (c ∷ cs) t e =
    let here : format i ≡ c = ap format (omega arith) ∙ e 0 in
    (
      here,
      λ z. ground (arith, t, z),
      Holds-at format (i + 1) cs (ground (arith, t)) (λ j. ap format (omega arith) ∙ e (suc j)),
    )

-- A constant in memory.
pub text_of-Holds : (cs : List ℕ) → is_text cs ≡ true → Holds (text_of cs) 0 cs
text_of-Holds cs t = Holds-at (text_of cs) 0 cs t (λ j. ap (text_of cs) (omega arith))
