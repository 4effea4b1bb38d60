-- ===== src/Rtc/Wait.antt =====
-- How long `rtc_read` waits.
use iaaa_os.Base.{
  ℕ, zero, suc, ◌+◌, ◌/◌, ◌<◌, ◌≡◌, ◌≢◌, arith, ltb, ◌==◌, if◌then◌else◌, upd, u16, none, some, pos,
}
use iaaa_os.Rtc.{Rtc, rtc_handler, rtc_wait, rtc_read}

-- `n` interrupts of the clock.
pub rtc_ticks : ℕ → Rtc → Rtc
rtc_ticks zero r = r
rtc_ticks (suc n) r = rtc_ticks n (rtc_handler r)

rtc_handler-counter :
    (r : Rtc) (t : ℕ)
    → t < 3
    → (rtc_handler r).rtc_counter t
      ≡ (if r.virtual_rtc_freq t == 0 then r.rtc_counter t else u16 (r.rtc_counter t + 1))
unfolding rtc_handler
rtc_handler-counter r t h = ground arith

rtc_handler-freq : (r : Rtc) → (rtc_handler r).virtual_rtc_freq ≡ r.virtual_rtc_freq
unfolding rtc_handler
rtc_handler-freq r = ground arith

rtc_wait_lem :
    (ticks n t : ℕ) (r : Rtc)
    → t < 3
    → r.virtual_rtc_freq t ≢ 0
    → r.rtc_counter t + n ≡ 64 / r.virtual_rtc_freq t
    → rtc_wait ticks t r ≡ (if ltb ticks n then none else some (rtc_ticks n r))
unfolding rtc_wait rtc_ticks
rtc_wait_lem zero zero t r h f e = ground arith
rtc_wait_lem zero (suc n) t r h f e = ground arith
rtc_wait_lem (suc ticks) zero t r h f e = ground arith
rtc_wait_lem (suc ticks) (suc n) t r h f e =
    ground
      (arith, rtc_handler-counter r t, rtc_handler-freq r, rtc_wait_lem ticks n t (rtc_handler r))

-- On a terminal with a frequency, `rtc_read` clears the counter and returns 0 after exactly
-- 64 / frequency interrupts of the clock; before that it does not return.
pub rtc_read_lem :
    (ticks t : ℕ) (r : Rtc)
    → t < 3
    → r.virtual_rtc_freq t ≢ 0
    → let n = 64 / r.virtual_rtc_freq t in
      rtc_read ticks t r ≡ (
        if ltb ticks n
        then none
        else some (pos 0, rtc_ticks n (record r { rtc_counter = upd r.rtc_counter t 0 })))
unfolding rtc_read
rtc_read_lem ticks t r h f = ground (
  arith,
  rtc_wait_lem ticks (64 / r.virtual_rtc_freq t) t
      (record r { rtc_counter = upd r.rtc_counter t 0 }) h,
)
