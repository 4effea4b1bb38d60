-- ===== src/Tests/Devices.antt =====
-- The properties of the interrupt controllers and the clock on small states.
use iaaa_os.Base.{
  ℕ, ◌≡◌, ◌↔◌, ◌≤◌, arith, upd, [], ◌∷◌, pos, some, minus_one, ◌≢◌, ◌⊎◌, u16, word, ◌^◌,
}
use iaaa_os.Pic.{i8259_init}
use iaaa_os.Pic.Ports.{IsMirrored, enables, ends, run, run-IsMirrored}
use iaaa_os.Rtc.{rtc_read, rtc_write}
use iaaa_os.Rtc.Frequency.{rtc_write_accepts}
use iaaa_os.Rtc.Wait.{rtc_ticks, rtc_read_lem}
use iaaa_os.Tests.{zeros, pic, rtc}

run-IsMirrored_example : IsMirrored (run (enables 8 ∷ ends 8 ∷ []) (i8259_init pic))
run-IsMirrored_example = run-IsMirrored (enables 8 ∷ ends 8 ∷ []) pic

rtc_write_accepts_example :
    ((rtc_write 0 zeros 4 rtc).0 ≡ pos 0
      ↔ (◌≡◌ {A = ℕ} 4 4) × (k : ℕ) × (1 ≤ k) × (k ≤ 10) × (u16 (word zeros 0) ≡ 2 ^ k))
    × (((rtc_write 0 zeros 4 rtc).0 ≡ pos 0)
          × ((rtc_write 0 zeros 4 rtc).1.virtual_rtc_freq 0 ≡ u16 (word zeros 0))
        ⊎ (rtc_write 0 zeros 4 rtc ≡ (minus_one, rtc)))
    × ((j : ℕ) → j ≢ 0 → (rtc_write 0 zeros 4 rtc).1.virtual_rtc_freq j ≡ rtc.virtual_rtc_freq j)
rtc_write_accepts_example = rtc_write_accepts 0 4 zeros rtc

rtc_read_lem_example :
    rtc_read 5 0 rtc
    ≡ some (pos 0, rtc_ticks 4 (record rtc { rtc_counter = upd rtc.rtc_counter 0 0 }))
rtc_read_lem_example = rtc_read_lem 5 0 rtc (omega arith) (omega arith)
