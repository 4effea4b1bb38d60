-- ===== src/Rtc/Frequency.antt =====
-- Which frequencies `rtc_write` accepts.
use iaaa_os.Base.{
  ℕ, ◌+◌, ◌*◌, ◌^◌, ◌<◌, ◌≤◌, ◌≡◌, ◌≢◌, refl, arith, leb, ◌==◌, if◌then◌else◌, ◌↔◌, passes_under,
  passes_under_each, Bool, Bool-cases, inl, inr, ◌⊎◌, true, Buf, word, u16, pos, minus_one,
}
use iaaa_os.Rtc.{Rtc, is_valid_freq, rtc_write}

-- log2 of a power of two from 2 to 1024.
exponent : ℕ → ℕ
exponent f =
    if leb f 2
    then 1
    else if leb f 4
    then 2
    else if leb f 8
    then 3
    else if leb f 16
    then 4
    else if leb f 32
    then 5
    else if leb f 64
    then 6
    else if leb f 128
    then 7
    else if leb f 256
    then 8
    else if leb f 512
    then 9
    else 10

freq_ok : ℕ → Bool
freq_ok f = if is_valid_freq f then f == 2 ^ exponent f else true

freq_table : passes_under freq_ok 1025 ≡ true
unfolding passes_under freq_ok is_valid_freq exponent
freq_table = refl

abbrev power_ok : ℕ → Bool
power_ok k = if k == 0 then true else is_valid_freq (2 ^ k)

power_table : passes_under power_ok 11 ≡ true
unfolding passes_under is_valid_freq
power_table = refl

is_valid_freq-small : (f : ℕ) → is_valid_freq f ≡ true → f < 1025
unfolding is_valid_freq
is_valid_freq-small f h = ground arith

exponent_bounds : (f : ℕ) → (1 ≤ exponent f) × (exponent f ≤ 10)
unfolding exponent
exponent_bounds f = ground arith

is_valid_freq-power : (f : ℕ) → is_valid_freq f ≡ true → (k : ℕ) × (1 ≤ k) × (k ≤ 10) × (f ≡ 2 ^ k)
unfolding freq_ok
is_valid_freq-power f h =
    let (lo, hi) = exponent_bounds f in
    let e = passes_under_each freq_ok 1025 f (is_valid_freq-small f h) freq_table in
    (exponent f, lo, hi, ground (arith, e))

power-is_valid_freq : (k : ℕ) → 1 ≤ k → k ≤ 10 → is_valid_freq (2 ^ k) ≡ true
power-is_valid_freq k lo hi =
    ground (arith, passes_under_each power_ok 11 k (omega arith) power_table)

module _ (t nbytes : ℕ) (buf : Buf) (r : Rtc) where
  rtc_write-valid :
      (rtc_write t buf nbytes r).0 ≡ pos 0
      → (nbytes ≡ 4) × (is_valid_freq (u16 (word buf 0)) ≡ true)
  unfolding rtc_write
  rtc_write-valid h = ground arith

  rtc_write-ends :
      ((rtc_write t buf nbytes r).0 ≡ pos 0)
        × ((rtc_write t buf nbytes r).1.virtual_rtc_freq t ≡ u16 (word buf 0))
      ⊎ (rtc_write t buf nbytes r ≡ (minus_one, r))
  unfolding rtc_write
  rtc_write-ends = elim (Bool-cases (nbytes == 4)) [
    | inr other ↦ inr (ground (arith, other))
    | inl four ↦ elim (Bool-cases (is_valid_freq (u16 (word buf 0)))) [
      | inl v ↦ inl (ground (arith, four, v), ground (arith, four, v))
      | inr bad ↦ inr (ground (arith, four, bad))
    ]
  ]

  -- `rtc_write` returns 0 exactly if it is given four bytes whose lower half is a power of two from 2
  -- to 1024. The virtual frequency of its terminal is that power then; otherwise -1 is returned and no
  -- clock changes. The frequency of another terminal never changes.
  pub rtc_write_accepts :
      ((rtc_write t buf nbytes r).0 ≡ pos 0
        ↔ (nbytes ≡ 4) × (k : ℕ) × (1 ≤ k) × (k ≤ 10) × (u16 (word buf 0) ≡ 2 ^ k))
      × (((rtc_write t buf nbytes r).0 ≡ pos 0)
            × ((rtc_write t buf nbytes r).1.virtual_rtc_freq t ≡ u16 (word buf 0))
          ⊎ (rtc_write t buf nbytes r ≡ (minus_one, r)))
      × ((j : ℕ) → j ≢ t → (rtc_write t buf nbytes r).1.virtual_rtc_freq j ≡ r.virtual_rtc_freq j)
  unfolding rtc_write
  rtc_write_accepts = (
    (
      (λ h.
          let (four, v) = rtc_write-valid h in
          let (k, lo, hi, e) = is_valid_freq-power (u16 (word buf 0)) v in (four, k, lo, hi, e)),
      (λ h.
          let (four, k, lo, hi, e) = h in
          let v : is_valid_freq (u16 (word buf 0)) ≡ true = rw e (power-is_valid_freq k lo hi) in
          ground (arith, v)),
    ),
    rtc_write-ends,
    λ j ne. ground arith,
  )

  -- A value above 65535 whose lower half is a power of two is accepted, and taken for that power.
  pub rtc_write_truncates :
      (h k : ℕ)
      → nbytes ≡ 4
      → 0 < h
      → 1 ≤ k
      → k ≤ 10
      → word buf 0 ≡ h * 65536 + 2 ^ k
      → ((rtc_write t buf nbytes r).0 ≡ pos 0)
        × ((rtc_write t buf nbytes r).1.virtual_rtc_freq t ≡ 2 ^ k)
        × (2 ^ k < word buf 0)
  unfolding rtc_write
  rtc_write_truncates h k four high lo hi e =
      let v : is_valid_freq (2 ^ k) ≡ true = power-is_valid_freq k lo hi in
      let low : u16 (word buf 0) ≡ 2 ^ k = omega (arith, is_valid_freq-small (2 ^ k) v) in
      (ground (arith, v, low), ground (arith, v, low), omega arith)
