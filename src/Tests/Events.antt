-- ===== src/Tests/Events.antt =====
-- The machine from boot on: ALT and F2 are pressed, the clock ticks, and a program closes a descriptor
-- that it may not close.
use iaaa_os.Base.{ℕ, ◌≡◌, refl, pos, minus_one, some}
use iaaa_os.Paging.Init.{paging_init}
use iaaa_os.Kernel.{closed_fd}
use iaaa_os.Rtc.{rtc_handler}
use iaaa_os.System.{System, eoi}
use iaaa_os.Handler.{note_keys, keyboard_handler_call}
use iaaa_os.Handler.Typing.{final}
use iaaa_os.Machine.{
  Entry, key_interrupt, clock_interrupt, close_file, handle, with_kernel, after_key, IsBoot, booted,
  after,
}
use iaaa_os.Machine.Boot.{IsSystemSafe}
use iaaa_os.Machine.Reach.{Reachable-IsSystemSafe}
use iaaa_os.Files.{close}
use iaaa_os.Tests.{zeros, kernel, system, paging}

abbrev boot_system : System
boot_system = record system {
  kernel = record (kernel 2 closed_fd) {
    pid_of = λ _. minus_one;
    pid_bitmap = λ _. 0;
    paging = paging_init paging;
  };
}

boot_system-IsBoot : IsBoot boot_system
boot_system-IsBoot = record {
  terminals = refl;
  pid_of = λ t h. refl;
  pid_bitmap = λ p h. refl;
  kb_buf = λ j i. refl;
  kb_buf_num = λ j. refl;
  paging = (paging, refl);
}

abbrev entry : Entry
entry = record { behind = zeros; ebp = 0; esp = 0 }

abbrev pressed : ℕ → System → System
pressed key s = final (keyboard_handler_call zeros key s)

abbrev ticked : System → System
ticked s = eoi 8 (with_kernel s (record s.kernel { rtc = rtc_handler s.kernel.rtc }))

abbrev with_alt : System
with_alt = pressed 0x38 boot_system

abbrev second_chosen : System
second_chosen = pressed 0x3C with_alt

alt_down : handle (key_interrupt zeros 0x38 entry) boot_system ≡ some with_alt
unfolding handle after_key keyboard_handler_call note_keys
alt_down = refl

f2_down : handle (key_interrupt zeros 0x3C entry) with_alt ≡ some second_chosen
unfolding handle after_key keyboard_handler_call note_keys
f2_down = refl

clock_ticks : handle clock_interrupt second_chosen ≡ some (ticked second_chosen)
unfolding handle
clock_ticks = refl

close_refused : handle (close_file (pos 1)) (ticked second_chosen) ≡ some (ticked second_chosen)
unfolding handle close
close_refused = refl

Reachable-IsSystemSafe_example : IsSystemSafe (ticked second_chosen)
Reachable-IsSystemSafe_example = Reachable-IsSystemSafe (ticked second_chosen) (
    after (close_file (pos 1)) (ticked second_chosen) (ticked second_chosen)
      (after clock_interrupt second_chosen (ticked second_chosen)
        (after (key_interrupt zeros 0x3C entry) with_alt second_chosen
          (after (key_interrupt zeros 0x38 entry) boot_system with_alt
            (booted boot_system boot_system-IsBoot) alt_down)
          f2_down)
        clock_ticks)
      close_refused)
