-- ===== src/Str/Compare.antt =====
-- `strncmp` is zero exactly on strings that are the same in their first `n` bytes.
use iaaa_os.Base.{
  ℕ, zero, suc, ◌+◌, ◌<◌, ◌≡◌, refl, ◌↔◌, arith, ◌==◌, if◌then◌else◌, Buf, pos, ◌-ℤ◌, int8, List,
  [], ◌∷◌,
}
use iaaa_os.Str.{strncmp, strncmp_from}

-- The characters from `i` on: up to a NUL, and `n` at most.
abbrev pub text : ℕ → ℕ → Buf → List ℕ
text zero i s = []
text (suc n) i s = if s i == 0 then [] else s i ∷ text n (i + 1) s

abbrev pub IsBytes : Buf → Type 0
IsBytes s = (i : ℕ) → s i < 256

int8-injective : (a b : ℕ) → a < 256 → b < 256 → int8 a -ℤ int8 b ≡ pos 0 → a ≡ b
unfolding ◌-ℤ◌
int8-injective a b ha hb h = ground arith

int8_diff_self : (a : ℕ) → int8 a -ℤ int8 a ≡ pos 0
unfolding ◌-ℤ◌
int8_diff_self a = ground arith

strncmp_from_sound :
    (n i : ℕ) (s1 s2 : Buf)
    → IsBytes s1
    → IsBytes s2
    → strncmp_from n i s1 s2 ≡ pos 0
    → text n i s1 ≡ text n i s2
unfolding strncmp_from
strncmp_from_sound zero i s1 s2 b1 b2 h = refl
strncmp_from_sound (suc n) i s1 s2 b1 b2 h =
    ground
      (arith, int8-injective (s1 i) (s2 i) (b1 i) (b2 i), strncmp_from_sound n (i + 1) s1 s2 b1 b2)

strncmp_from_complete :
    (n i : ℕ) (s1 s2 : Buf) → text n i s1 ≡ text n i s2 → strncmp_from n i s1 s2 ≡ pos 0
unfolding strncmp_from
strncmp_from_complete zero i s1 s2 h = refl
strncmp_from_complete (suc n) i s1 s2 h =
    ground (arith, int8_diff_self (s1 i), strncmp_from_complete n (i + 1) s1 s2)

-- For byte strings `strncmp` returns 0 exactly if their first `n` characters, up to a NUL, agree.
pub strncmp-text :
    (s1 s2 : Buf) (n : ℕ)
    → IsBytes s1
    → IsBytes s2
    → (strncmp s1 s2 n ≡ pos 0) ↔ (text n 0 s1 ≡ text n 0 s2)
unfolding strncmp
strncmp-text s1 s2 n b1 b2 = (strncmp_from_sound n 0 s1 s2 b1 b2, strncmp_from_complete n 0 s1 s2)
