-- ===== src/Terminal.antt =====
-- The calls of student-distrib/terminal.c. `terminal_read` waits for the keyboard: what happens before
-- the wait, in one round of it, and behind it are functions of their own.
pub mod Transfer
use iaaa_os.Base.{
  ℕ, zero, suc, ◌+◌, ◌-◌, Bool, true, false, ltb, ◌==◌, ◌&&◌, not, if◌then◌else◌, Buf, upd, List,
  [], ◌∷◌, ℤ, pos, negsuc, minus_one, Option, none, some, min,
}
use iaaa_os.Str.{strncpy_include_null}
use iaaa_os.Screen.{Screen, write_char}
use iaaa_os.Keyboard.{Keyboard, kb_buffer, kb_buf_clear}
use iaaa_os.System.{System, terminals_of, shown, video_page, on_screen, on_keyboard}

-- The loop of `terminal_write`; `rounds` is `nbytes - i`.
unfoldable pub write_from : ℕ → ℕ → Buf → System → System
write_from zero i buf s = s
write_from (suc rounds) i buf s =
    write_from rounds (i + 1) buf
      (on_screen (λ tm page screen. write_char tm page (buf i) screen) s)

-- `none` is a buffer that is NULL.
unfoldable pub terminal_write : Option Buf → ℤ → System → ℤ × System
terminal_write buf (negsuc n) s = (minus_one, s)
terminal_write none (pos n) s = (minus_one, s)
terminal_write (some buf) (pos n) s = (pos n, write_from n 0 buf s)

-- `nbytes_to_copy`; a negative count stays, and is no count of bytes to copy.
unfoldable pub nbytes_to_copy : ℤ → ℤ
nbytes_to_copy (pos n) = if ltb kb_buffer n then pos 128 else pos n
nbytes_to_copy (negsuc n) = negsuc n

-- Up to the wait. The second assignment is to the entry behind that of the displayed terminal.
unfoldable pub read_begin : System → System
read_begin s =
    let tm = terminals_of s in
    on_keyboard
      (λ i k. record k {
        enter_flag = upd k.enter_flag i 0;
        kb_buf_full_flag = upd k.kb_buf_full_flag (i + 1) 0;
        terminal_read_flag = upd k.terminal_read_flag (tm.terminal_curr - 1) 1;
      })
      s

-- The condition of the wait.
unfoldable pub is_waiting : System → Bool
is_waiting s =
    let tm = terminals_of s in
    if s.keyboard.enter_flag (shown s) == 0
    then true
    else not (tm.terminal_curr == tm.terminal_on_display_curr)

-- The body of the wait: the buffer is copied while it is full.
unfoldable pub read_poll : ℕ → Buf → System → Buf
read_poll n buf s =
    if s.keyboard.kb_buf_full_flag (shown s) == 0
    then buf
    else strncpy_include_null buf (s.keyboard.kb_buf (shown s)) n

-- Behind the wait: the state, and the program's buffer.
unfoldable pub read_reset : System → System
read_reset s =
    on_keyboard (λ i k. record k { enter_flag = upd k.enter_flag i 0 })
      (on_keyboard kb_buf_clear (
        on_keyboard
          (λ i k. record k {
            terminal_read_flag = upd k.terminal_read_flag ((terminals_of s).terminal_curr - 1) 0;
          })
          s))

unfoldable pub read_end : ℕ → Buf → System → Buf × System
read_end n buf s = (strncpy_include_null buf (s.keyboard.kb_buf (shown s)) n, read_reset s)

-- The wait, on the states that the interrupts leave one after the other: `none` if it goes on behind
-- the last.
unfoldable pub read_wait : ℕ → Buf → List System → Option (Buf × System)
read_wait n buf [] = none
read_wait n buf (s ∷ ss) =
    if is_waiting s then read_wait n (read_poll n buf s) ss else some (read_end n buf s)
