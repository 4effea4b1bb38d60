-- ===== src/Programs/Support.antt =====
-- The string functions of syscalls/ece391support.c.
use native.Mathlib.Decide.{ℕ_discrete}
use iaaa_os.Base.{
  Option, leb, inl, inr, Option-cases, if_holds, ◌-◌, ◌/◌, ◌%◌, Bool, ℕ, zero, suc, ◌+◌, ◌<◌, ◌≤◌,
  ◌≡◌, ◌↔◌, ◌∙◌, refl, sym, ap, arith, true, false, ◌==◌, if◌then◌else◌, Buf, upd, ℤ, pos, sub_ℕ,
  pos_part, neg_part, some,
}
use iaaa_os.Str.{
  lookup, strrev, strrev_from, itoa, itoa_from, mem_size, strlen, strlen_from, strcpy, strcpy_from,
  strncmp,
}
use iaaa_os.Str.Length.{HasLength}
use iaaa_os.Str.Compare.{IsBytes, text, strncmp-text}
use iaaa_os.Programs.{
  ece391_strrev, ece391_strrev_from, ece391_itoa, ece391_itoa_from, ece391_strlen,
  ece391_strlen_from, ece391_strcpy, ece391_strcpy_from, ece391_strcmp, ece391_strcmp_from,
  ece391_strncmp, ece391_strncmp_from,
}

strlen_from-same :
    (fuel : ℕ) (s : Buf) (i : ℕ) → ece391_strlen_from fuel s i i ≡ strlen_from fuel s i
unfolding ece391_strlen_from strlen_from
strlen_from-same zero s i = refl
strlen_from-same (suc fuel) s i = rw (strlen_from-same fuel s (i + 1)) refl

strcpy_from-same :
    (fuel i : ℕ) (dst src : Buf) → ece391_strcpy_from fuel i dst src ≡ strcpy_from fuel i dst src
unfolding ece391_strcpy_from strcpy_from
strcpy_from-same zero i dst src = refl
strcpy_from-same (suc fuel) i dst src =
    rw (strcpy_from-same fuel (i + 1) (upd dst i (src i)) src)
      (last (src i == 0) (λ e. ground arith))
  where
    last :
        (b : Bool)
        → (b ≡ true → src i ≡ 0)
        → (if b then some (upd dst i (src i)) else strcpy_from fuel (i + 1) (upd dst i (src i)) src)
          ≡ (if b then some (upd dst i 0) else strcpy_from fuel (i + 1) (upd dst i (src i)) src)
    last true h = ap (λ c. some (upd dst i c)) (h refl)
    last false h = refl

strrev_from-same :
    (rounds beg end : ℕ) (s : Buf)
    → ece391_strrev_from rounds beg end s ≡ strrev_from rounds beg end s
unfolding ece391_strrev_from strrev_from
strrev_from-same zero beg end s = refl
strrev_from-same (suc rounds) beg end s =
    rw (strrev_from-same rounds (beg + 1) (end - 1) (upd (upd s end (s beg)) beg (s end))) refl

itoa_from-same :
    (fuel : ℕ) (behind : Buf) (radix newval at : ℕ) (buf : Buf)
    → ece391_itoa_from fuel behind radix newval at buf ≡ itoa_from fuel behind radix newval at buf
unfolding ece391_itoa_from itoa_from
itoa_from-same zero behind radix newval at buf = refl
itoa_from-same (suc fuel) behind radix newval at buf =
    let buf' = upd buf at (lookup behind (newval % radix)) in
    rw (itoa_from-same fuel behind radix (newval / radix) (at + 1) buf') refl

short_reversed : (s : Buf) (n : ℕ) → n ≤ 1 → strrev_from n 0 (n - 1) s ≡ s
unfolding strrev_from
short_reversed s zero h = refl
short_reversed s (suc zero) h = ground arith
short_reversed s (suc (suc n)) h = absurd (omega arith)

pub strlen-same : (s : Buf) → ece391_strlen s ≡ strlen s
unfolding ece391_strlen strlen
strlen-same s = strlen_from-same mem_size s 0

strrev-same : (s : Buf) → ece391_strrev s ≡ strrev s
unfolding ece391_strrev strrev
strrev-same s = elim (Option-cases (strlen s)) [
  | inl e ↦ rw (ece391_strrev, strrev, strlen-same s, e) refl
  | inr (n, e) ↦
      rw (ece391_strrev, strrev, strlen-same s, e)
        (if_holds (λ (m : Option Buf). m ≡ some (strrev_from n 0 (n - 1) s)) (leb n 1)
          (λ h. ap some (sym (short_reversed s n (ground arith))))
          (λ _. ap some (strrev_from-same n 0 (n - 1) s)))
]

itoa-same :
    (behind : Buf) (v : ℕ) (buf : Buf) (radix : ℕ)
    → ece391_itoa behind v buf radix ≡ itoa behind v buf radix
unfolding ece391_itoa itoa
itoa-same behind v buf radix = elim (Option-cases (itoa_from mem_size behind radix v 0 buf)) [
  | inl e ↦ rw (ece391_itoa, itoa, itoa_from-same mem_size behind radix v 0 buf, e) refl
  | inr ((at, b), e) ↦
      rw
        (
          ece391_itoa,
          itoa,
          itoa_from-same mem_size behind radix v 0 buf,
          e,
          strrev-same (upd b at 0),
        )
        refl
]

-- The programs' `ece391_strlen`, `ece391_strcpy`, `ece391_strrev` and `ece391_itoa` do on every object what
-- the kernel's functions do, also where these do not come to an end.
pub support-same :
    (s dst behind : Buf) (v radix : ℕ)
    → (ece391_strlen s ≡ strlen s)
      × (ece391_strcpy dst s ≡ strcpy dst s)
      × (ece391_strrev s ≡ strrev s)
      × (ece391_itoa behind v dst radix ≡ itoa behind v dst radix)
unfolding ece391_strcpy strcpy
support-same s dst behind v radix =
    (strlen-same s, strcpy_from-same mem_size 0 dst s, strrev-same s, itoa-same behind v dst radix)

-- A difference of 0 is between equal numbers.
sub_ℕ-zero : (a b : ℕ) → sub_ℕ a b ≡ pos 0 → a ≡ b
sub_ℕ-zero a b e = ground (arith, ap pos_part e, ap neg_part e)

rest :
    (i : ℕ) (s1 s2 : Buf) (n : ℕ)
    → s1 i ≡ s2 i
    → ((j : ℕ) → i + 1 ≤ j → j ≤ n → s1 j ≡ s2 j)
    → (j : ℕ) → i ≤ j
    → j ≤ n
    → s1 j ≡ s2 j
rest i s1 s2 n e f j b c = elim (ℕ_discrete j i) [ yes k ↦ rw k e | no d ↦ f j (omega arith) c ]

strcmp_from_lem :
    (fuel i n : ℕ) (s1 s2 : Buf)
    → HasLength s1 n
    → i ≤ n
    → n < i + fuel
    → (r : ℤ) × (ece391_strcmp_from fuel i s1 s2 ≡ some r)
      × ((r ≡ pos 0) ↔ ((j : ℕ) → i ≤ j → j ≤ n → s1 j ≡ s2 j))
unfolding ece391_strcmp_from
strcmp_from_lem zero i n s1 s2 h p q = absurd (omega arith)
strcmp_from_lem (suc fuel) i n s1 s2 h p q = elim (ℕ_discrete (s1 i) (s2 i)) [
  | no d ↦
      let t : (s1 i == s2 i) ≡ false = ground arith in
      (
        sub_ℕ (s1 i) (s2 i),
        rw t refl,
        (λ e. absurd (d (sub_ℕ-zero (s1 i) (s2 i) e)), λ f. absurd (d (f i (omega arith) p))),
      )
  | yes e ↦
      let t : (s1 i == s2 i) ≡ true = ground arith in
      elim (ℕ_discrete i n) [
        | yes last ↦
            let z : (s1 i == 0) ≡ true = ground (arith, h.nul) in
            (pos 0, rw (t, z) refl, (λ _ j a b. let k : j ≡ i = omega arith in rw k e, λ _. refl))
        | no more ↦
            let z : (s1 i == 0) ≡ false = ground (arith, h.chars i) in
            let (r, same, f) = strcmp_from_lem fuel (i + 1) n s1 s2 h (omega arith) (omega arith) in
            (
              r,
              rw (t, z) same,
              (λ a j b c. rest i s1 s2 n e (f.0 a) j b c, λ a. f.1 (λ j b c. a j (omega arith) c)),
            )
      ]
]

-- `ece391_strcmp` comes to an end on a terminated string, and gives 0 exactly if the other has the same
-- characters and the same end.
pub ece391_strcmp_lem :
    (s1 s2 : Buf) (n : ℕ)
    → HasLength s1 n
    → n < mem_size
    → (r : ℤ) × (ece391_strcmp s1 s2 ≡ some r) × ((r ≡ pos 0) ↔ ((j : ℕ) → j ≤ n → s1 j ≡ s2 j))
unfolding ece391_strcmp
ece391_strcmp_lem s1 s2 n h p =
    let (r, e, f) = strcmp_from_lem mem_size 0 n s1 s2 h (omega arith) (omega arith) in
    (r, e, (λ a j c. f.0 a j (omega arith) c, λ a. f.1 (λ j b c. a j c)))

sub_ℕ-self : (a : ℕ) → sub_ℕ a a ≡ pos 0
sub_ℕ-self a = ground arith

strncmp_from_sound :
    (n i : ℕ) (s1 s2 : Buf) → ece391_strncmp_from n i s1 s2 ≡ pos 0 → text n i s1 ≡ text n i s2
unfolding ece391_strncmp_from
strncmp_from_sound zero i s1 s2 h = refl
strncmp_from_sound (suc n) i s1 s2 h =
    ground (arith, sub_ℕ-zero (s1 i) (s2 i), strncmp_from_sound n (i + 1) s1 s2)

strncmp_from_complete :
    (n i : ℕ) (s1 s2 : Buf) → text n i s1 ≡ text n i s2 → ece391_strncmp_from n i s1 s2 ≡ pos 0
unfolding ece391_strncmp_from
strncmp_from_complete zero i s1 s2 h = refl
strncmp_from_complete (suc n) i s1 s2 h = ground (arith, strncmp_from_complete n (i + 1) s1 s2)

by_loop : (s1 s2 : Buf) (n : ℕ) → ece391_strncmp s1 s2 n ≡ ece391_strncmp_from n 0 s1 s2
unfolding ece391_strncmp ece391_strncmp_from
by_loop s1 s2 zero = refl
by_loop s1 s2 (suc n) = ground arith

-- For byte strings the programs' `ece391_strncmp`, which compares unsigned characters, gives 0 exactly if
-- the kernel's `strncmp`, which compares signed ones, does: if the first `n` characters, up to a NUL, agree.
pub ece391_strncmp_lem :
    (s1 s2 : Buf) (n : ℕ)
    → IsBytes s1
    → IsBytes s2
    → ((ece391_strncmp s1 s2 n ≡ pos 0) ↔ (strncmp s1 s2 n ≡ pos 0))
      × ((strncmp s1 s2 n ≡ pos 0) ↔ (text n 0 s1 ≡ text n 0 s2))
ece391_strncmp_lem s1 s2 n b1 b2 =
    let kernel = strncmp-text s1 s2 n b1 b2 in
    let e = by_loop s1 s2 n in
    (
      (
        λ h. kernel.1 (strncmp_from_sound n 0 s1 s2 (sym e ∙ h)),
        λ h. e ∙ strncmp_from_complete n 0 s1 s2 (kernel.0 h),
      ),
      kernel,
    )
