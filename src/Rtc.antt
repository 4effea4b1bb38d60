-- ===== src/Rtc.antt =====
-- student-distrib/rtc_init.c: a virtual clock for each of the three terminals. The index of an array
-- is `terminal_curr - 1`.
pub mod Frequency
pub mod Wait
use iaaa_os.Base.{
  ℕ, zero, suc, ◌+◌, ◌-◌, ◌/◌, Bool, Option, none, some, ltb, ◌==◌, ◌||◌, ◌&&◌, not, if◌then◌else◌,
  bit_and, Arr, upd, Buf, word, u16, ℤ, pos, minus_one,
}

pub record Rtc : Type 0 where
  pub virtual_rtc_freq : Arr ℕ
  pub rtc_counter : Arr ℕ

-- `if (virtual_rtc_freq[i] != 0) rtc_counter[i]++`
abbrev pub count_tick : ℕ → Rtc → Rtc
count_tick i r =
    if r.virtual_rtc_freq i == 0
    then r
    else record r { rtc_counter = upd r.rtc_counter i (u16 (r.rtc_counter i + 1)) }

-- The end-of-interrupt call is `send_eoi 8` of `Pic`.
unfoldable pub rtc_handler : Rtc → Rtc
rtc_handler r = count_tick 2 (count_tick 1 (count_tick 0 r))

unfoldable pub rtc_open : ℕ → Rtc → ℤ × Rtc
rtc_open t r = (pos 0, record r { virtual_rtc_freq = upd r.virtual_rtc_freq t 2 })

unfoldable pub rtc_close : ℕ → Rtc → ℤ × Rtc
rtc_close t r = (pos 0, record r { virtual_rtc_freq = upd r.virtual_rtc_freq t 0 })

-- `while (rtc_counter[t] < 64 / virtual_rtc_freq[t]);` with at most `ticks` interrupts to come.
-- `none`: it still waits after them.
pub rtc_wait : ℕ → ℕ → Rtc → Option Rtc
rtc_wait zero t r = if ltb (r.rtc_counter t) (64 / r.virtual_rtc_freq t) then none else some r
rtc_wait (suc ticks) t r =
    let rest = rtc_wait ticks t (rtc_handler r) in
    if ltb (r.rtc_counter t) (64 / r.virtual_rtc_freq t) then rest else some r

unfoldable pub rtc_read : ℕ → ℕ → Rtc → Option (ℤ × Rtc)
unfolding rtc_wait
rtc_read ticks t r =
    if r.virtual_rtc_freq t == 0
    then some (pos 0, r)
    else elim (rtc_wait ticks t (record r { rtc_counter = upd r.rtc_counter t 0 })) [
      | none ↦ none
      | some r' ↦ some (pos 0, r')
    ]

-- The checks of `rtc_write` on the frequency.
unfoldable pub is_valid_freq : ℕ → Bool
is_valid_freq f = not (ltb f 2 || ltb 1024 f) && bit_and f (f - 1) == 0

-- `buf` is read as a uint32_t and stored in an unsigned short.
unfoldable pub rtc_write : ℕ → Buf → ℕ → Rtc → ℤ × Rtc
rtc_write t buf nbytes r =
    let user_freq = u16 (word buf 0) in
    if not (nbytes == 4)
    then (minus_one, r)
    else if is_valid_freq user_freq
    then (pos 0, record r { virtual_rtc_freq = upd r.virtual_rtc_freq t user_freq })
    else (minus_one, r)
