-- ===== src/Tests/Console.antt =====
-- The properties of the console, the keyboard and the terminal on small states.
use iaaa_os.Printf.Total.{length}
use iaaa_os.Screen.{Screen, x_of, num_cols}
use iaaa_os.Screen.Line.{visible, IsLine, Wrote}
use iaaa_os.Base.{
  ◌+◌, ◌≤◌, ℕ, ◌<◌, ◌≡◌, inl, refl, arith, ltb, if◌then◌else◌, Buf, List, [], ◌∷◌, pos, some,
}
use iaaa_os.Terminals.{initial}
use iaaa_os.Screen.{
  key_enter, putc, puts, endline, add_newline_if_right_edge, add_newline_if_line_not_empty, key_tab,
  key_backspace, clear_screen, scroll_screen, write_chars,
}
use iaaa_os.Screen.Position.{IsOnScreen, console-IsOnScreen}
use iaaa_os.Screen.Write.{write_chars-outside}
use iaaa_os.System.{System, shown, terminals_of, video_page}
use iaaa_os.Handler.{keyboard_handler_call}
use iaaa_os.Handler.Typing.{IsSafe, final, keyboard_handler_call-IsSafe}
use iaaa_os.Terminal.{terminal_write, read_wait}
use iaaa_os.Terminal.Transfer.{bytes_from, terminal_write_lem, read_wait_lem}
use iaaa_os.Tests.{zeros, name_a, screen, system}

IsOnScreen-now : IsOnScreen initial screen
IsOnScreen-now = record { column = omega arith; row = omega arith }

console-IsOnScreen_example :
    IsOnScreen initial (key_enter initial 0xB8 screen)
    × ((c : ℕ) → IsOnScreen initial (putc initial 0xB8 c screen))
    × ((cs : List ℕ) → IsOnScreen initial (puts initial 0xB8 cs screen))
    × IsOnScreen initial (endline initial 0xB8 screen)
    × IsOnScreen initial (add_newline_if_right_edge initial 0xB8 screen)
    × IsOnScreen initial (add_newline_if_line_not_empty initial 0xB8 screen)
    × IsOnScreen initial (key_tab initial 0xB8 screen)
    × IsOnScreen initial (key_backspace initial 0xB8 screen)
    × IsOnScreen initial (clear_screen initial 0xB8 screen)
    × IsOnScreen initial (scroll_screen initial 0xB8 screen)
console-IsOnScreen_example = console-IsOnScreen initial 0xB8 screen IsOnScreen-now

write_chars-outside_example :
    (write_chars initial 0xB8 (b'a' ∷ 10 ∷ []) screen).video 0xB9 7 ≡ screen.video 0xB9 7
write_chars-outside_example =
    write_chars-outside initial 0xB8 (b'a' ∷ 10 ∷ []) screen 0xB9 7 IsOnScreen-now
      (inl (omega arith))

system-IsSafe : IsSafe system
system-IsSafe j = record { ends = refl; count = omega arith }

keyboard_handler_call-IsSafe_example : IsSafe (final (keyboard_handler_call zeros 30 system))
keyboard_handler_call-IsSafe_example = keyboard_handler_call-IsSafe zeros 30 system system-IsSafe

IsLine-fits :
    let cs = bytes_from 2 0 name_a in
    IsLine cs × (x_of (terminals_of system) screen + length (visible cs) ≤ num_cols)
unfolding bytes_from IsLine visible length
IsLine-fits = ((omega arith, omega arith, (omega arith, omega arith, tt)), omega arith)

terminal_write_lem_example :
    (t : Screen) × (terminal_write (some name_a) (pos 2) system
      ≡ (pos 2, record system { screen = t }))
    × Wrote (terminals_of system) (video_page system) (visible (bytes_from 2 0 name_a)) screen t
terminal_write_lem_example =
    terminal_write_lem 2 name_a system IsLine-fits.0 (omega arith) IsLine-fits.1

read_wait_lem_example :
    (b : Buf) × (s' : System) × (read_wait 4 name_a (system ∷ []) ≡ some (b, s'))
    × ((j : ℕ) → b j ≡ (if ltb j 4 then system.keyboard.kb_buf (shown system) j else name_a j))
    × ((j : ℕ) → j < 128 → s'.keyboard.kb_buf (shown system) j ≡ 0)
    × (s'.keyboard.enter_flag (shown system) ≡ 0)
read_wait_lem_example = read_wait_lem 4 name_a system [] (omega arith) refl
