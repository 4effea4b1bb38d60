-- ===== src/Str/Digits.antt =====
-- `itoa`: the digits of a number, and what they are worth.
use native.Mathlib.Decide.{ℕ_discrete}
use native.Mathlib.Nat.{mul-le-mul_right, mod-lt, div-add-mod}
use iaaa_os.Base.{
  ℕ, zero, suc, ◌+◌, ◌-◌, ◌*◌, ◌/◌, ◌%◌, ◌<◌, ◌≤◌, ◌≡◌, ◌≢◌, ◌⊎◌, ◌∙◌, upd_self, upd_ne, refl, sym,
  ap, subst, arith, ltb, if◌then◌else◌, Buf, upd, some, ◌==◌, true, false,
}
use iaaa_os.Str.{mem_size, lookup, itoa, itoa_from}
use iaaa_os.Str.Length.{HasLength}
use iaaa_os.Str.Reverse.{reversed, strrev_lem}

-- The value of a digit, and of `n` digits, the first the highest, and the first the lowest.
abbrev pub digit_value : ℕ → ℕ
digit_value c = if ltb c b'A' then c - b'0' else c - b'A' + 10

unfoldable pub value_of : ℕ → Buf → ℕ → ℕ
value_of radix b zero = 0
value_of radix b (suc n) = value_of radix b n * radix + digit_value (b n)

low_value : ℕ → Buf → ℕ → ℕ → ℕ
low_value radix b at zero = 0
low_value radix b at (suc n) = digit_value (b at) + radix * low_value radix b (at + 1) n

-- A digit below the radix, as a capital letter from ten on.
abbrev pub IsDigit : ℕ → ℕ → Type 0
IsDigit radix c = (digit_value c < radix) × ((b'0' ≤ c) × (c < b'0' + 10) ⊎ (b'A' ≤ c) × (c ≤ b'Z'))

lookup-value : (behind : Buf) (i : ℕ) → i < 36 → digit_value (lookup behind i) ≡ i
unfolding lookup
lookup-value behind i h = ground arith

lookup-IsDigit :
    (behind : Buf) (radix i : ℕ) → radix ≤ 36 → i < radix → IsDigit radix (lookup behind i)
unfolding lookup
lookup-IsDigit behind radix i h g = ground arith

-- A quotient by two at least is at most a half.
div_bound : (n radix : ℕ) → 2 ≤ radix → 2 * (n / radix) ≤ n
div_bound n radix h =
    let a = mul-le-mul_right (n / radix) h in let e = div-add-mod n radix in omega (arith, a, e)

mod_bound : (n radix : ℕ) → 2 ≤ radix → n % radix < radix
mod_bound n radix h = mod-lt n (omega arith)

-- The loop writes the digits from the lowest on, and the highest is not zero.
record Written (radix newval at m : ℕ) (buf b : Buf) : Type 0 where
  value : low_value radix b at m ≡ newval
  digits : (j : ℕ) → at ≤ j → j < at + m → IsDigit radix (b j)
  top : newval ≢ 0 → digit_value (b (at + m - 1)) ≢ 0
  some_digit : newval ≢ 0 → 1 ≤ m
  no_digit : newval ≡ 0 → m ≡ 0
  bound : m ≤ newval
  before : (j : ℕ) → j < at → b j ≡ buf j
  after : (j : ℕ) → at + m ≤ j → b j ≡ buf j

-- One digit more, before those of the quotient.
Written-suc :
    (behind : Buf) (radix newval at m : ℕ) (buf b : Buf)
    → 2 ≤ radix
    → radix ≤ 36
    → newval ≢ 0
    → Written radix (newval / radix) (at + 1) m (upd buf at (lookup behind (newval % radix))) b
    → Written radix newval at (suc m) buf b
unfolding low_value
Written-suc behind radix newval at m buf b lo hi more w =
    let c = lookup behind (newval % radix) in
    let small = mod_bound newval radix lo in
    let here : b at ≡ c = w.before at (omega arith) ∙ upd_self buf at c in
    let digit : digit_value (b at) ≡ newval % radix =
      ap digit_value here ∙ lookup-value behind (newval % radix) (omega arith) in
    record {
      value = rw (digit, w.value) (omega (arith, div-add-mod newval radix));
      digits = λ j l h. elim (ℕ_discrete j at) [
        | yes e ↦ rw (e, here) (lookup-IsDigit behind radix (newval % radix) hi small)
        | no d ↦ w.digits j (omega arith) (omega arith)
      ];
      top = λ _. elim (ℕ_discrete (newval / radix) 0) [
        | yes e ↦ λ z.
            let i : at + suc m - 1 ≡ at = omega (arith, w.no_digit e) in
            let none_left = rw e at (div-add-mod newval radix) in
            let zero_digit : digit_value (b at) ≡ 0 = ap (λ k. digit_value (b k)) (sym i) ∙ z in
            more (omega (arith, digit, zero_digit, none_left))
        | no d ↦ λ z.
            let i : at + suc m - 1 ≡ at + 1 + m - 1 = omega arith in
            w.top d (ap (λ k. digit_value (b k)) (sym i) ∙ z)
      ];
      some_digit = λ _. omega arith;
      no_digit = λ e. absurd (more e);
      bound = omega (arith, w.bound, div_bound newval radix lo);
      before = λ j h. w.before j (omega arith) ∙ upd_ne buf at j c (omega arith);
      after = λ j h. w.after j (omega arith) ∙ upd_ne buf at j c (omega arith);
    }

itoa_from_lem :
    (fuel : ℕ) (behind : Buf) (radix newval at : ℕ) (buf : Buf)
    → 2 ≤ radix
    → radix ≤ 36
    → newval < fuel
    → (m : ℕ) × (b : Buf) × (itoa_from fuel behind radix newval at buf ≡ some (at + m, b))
      × Written radix newval at m buf b
unfolding itoa_from low_value
itoa_from_lem zero behind radix newval at buf lo hi h = absurd (omega arith)
itoa_from_lem (suc fuel) behind radix newval at buf lo hi h = elim (ℕ_discrete newval 0) [
  | yes e ↦ (
    0,
    buf,
    rw e (ap (λ k. some (k, buf)) (omega arith)),
    record {
      value = sym e;
      digits = λ j l g. absurd (omega arith);
      top = λ d. absurd (d e);
      some_digit = λ d. absurd (d e);
      no_digit = λ _. refl;
      bound = omega arith;
      before = λ j g. refl;
      after = λ j g. refl;
    },
  )
  | no d ↦
      let buf' = upd buf at (lookup behind (newval % radix)) in
      let half = div_bound newval radix lo in
      let (m, b, e, w) =
        itoa_from_lem fuel behind radix (newval / radix) (at + 1) buf' lo hi (omega arith) in
      let n : (newval == 0) ≡ false = ground arith in
      (
        suc m,
        b,
        rw n (e ∙ ap (λ k. some (k, b)) (omega arith)),
        Written-suc behind radix newval at m buf b lo hi d w,
      )
]

-- The digits read from the highest on, when they were written from the lowest on.
value_of-reversed :
    (radix n at : ℕ) (low b : Buf)
    → ((j : ℕ) → j < n → b j ≡ low (at + n - 1 - j))
    → value_of radix b n ≡ low_value radix low at n
unfolding value_of low_value
value_of-reversed radix zero at low b e = refl
value_of-reversed radix (suc n) at low b e =
    let rest =
      value_of-reversed radix n (at + 1) low b (λ j h. e j (omega arith) ∙ ap low (omega arith)) in
    let last : b n ≡ low at = e n (omega arith) ∙ ap low (omega arith) in
    rw (rest, last) (omega arith)

-- What `itoa` leaves: `n` digits that have the value, the highest not 0 if there are several, and a NUL.
pub record IsNumeral (radix newval n : ℕ) (b : Buf) : Type 0 where
  pub length : HasLength b n
  pub some_digit : 1 ≤ n
  pub digits : (j : ℕ) → j < n → IsDigit radix (b j)
  pub value : value_of radix b n ≡ newval
  pub highest : n ≢ 1 → digit_value (b 0) ≢ 0

zero_add : (n : ℕ) → 0 + n ≡ n
zero_add n = omega arith

pub IsDigit-not_nul : (radix c : ℕ) → IsDigit radix c → c ≢ 0
IsDigit-not_nul radix c d = ground arith

Written-HasLength :
    (radix newval n : ℕ) (buf b : Buf) → Written radix newval 0 n buf b → HasLength (upd b n 0) n
Written-HasLength radix newval n buf b w = record {
  nul = upd_self b n 0;
  chars = λ i h e.
      IsDigit-not_nul radix (b i) (w.digits i (omega arith) (omega arith))
        (sym (upd_ne b n i 0 (omega arith)) ∙ e);
}

reversed-IsNumeral :
    (radix newval n : ℕ) (buf low b : Buf)
    → newval ≢ 0
    → Written radix newval 0 n buf low
    → HasLength b n
    → ((j : ℕ) → b j ≡ reversed n (upd low n 0) j)
    → IsNumeral radix newval n b
reversed-IsNumeral radix newval n buf low b d w l e =
    let at : (j : ℕ) → j < n → b j ≡ low (0 + n - 1 - j) = λ j h. ground (arith, e j) in
    record {
      length = l;
      some_digit = w.some_digit d;
      digits = λ j h.
          subst (IsDigit radix) (sym (at j h))
            (w.digits (0 + n - 1 - j) (omega arith) (omega arith));
      value = value_of-reversed radix n 0 low b at ∙ w.value;
      highest =
          λ _ z. w.top d (ap digit_value (ap low (omega arith) ∙ sym (at 0 (w.some_digit d))) ∙ z);
    }

zero-IsNumeral :
    (radix : ℕ) (buf : Buf) → 2 ≤ radix → IsNumeral radix 0 1 (upd (upd buf 0 b'0') 1 0)
unfolding value_of
zero-IsNumeral radix buf lo = record {
  length = record { nul = refl; chars = λ i h. ground arith };
  some_digit = omega arith;
  digits = λ j h. ground arith;
  value = ground arith;
  highest = λ d. absurd (d refl);
}

-- With a radix from 2 to 36, `itoa` returns for each number of 32 bits its numeral, with digits as
-- capital letters from ten on and no leading 0, and changes no byte behind the NUL.
pub itoa_lem :
    (behind : Buf) (newval : ℕ) (buf : Buf) (radix : ℕ)
    → 2 ≤ radix
    → radix ≤ 36
    → newval < mem_size
    → (n : ℕ) × (b : Buf) × (itoa behind newval buf radix ≡ some b)
      × IsNumeral radix newval n b
      × ((j : ℕ) → n < j → b j ≡ buf j)
unfolding itoa
itoa_lem behind newval buf radix lo hi h = elim (ℕ_discrete newval 0) [
  | yes e ↦
      let z : (newval == 0) ≡ true = ground arith in
      (
        1,
        upd (upd buf 0 b'0') 1 0,
        rw (itoa, z) refl,
        subst (λ v. IsNumeral radix v 1 (upd (upd buf 0 b'0') 1 0)) (sym e)
            (zero-IsNumeral radix buf lo),
        λ j g. ground arith,
      )
  | no d ↦
      let (n, low, e, w) = itoa_from_lem mem_size behind radix newval 0 buf lo hi h in
      let nz : (newval == 0) ≡ false = ground arith in
      let (b, e', f, l) =
        strrev_lem (upd low n 0) n (Written-HasLength radix newval n buf low w)
          (omega (arith, w.bound)) in
      (
        n,
        b,
        rw (itoa, nz, e, zero_add n, e') refl,
        reversed-IsNumeral radix newval n buf low b d w l f,
        λ j g. ground (arith, f j, w.after j),
      )
]
