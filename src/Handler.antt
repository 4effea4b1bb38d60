-- ===== src/Handler.antt =====
-- `keyboard_handler_call` of student-distrib/keyboard.c. The scan code is the argument `key`, and
-- `behind` gives the bytes behind the table of the characters, which the handler reads for large codes.
pub mod Typing
use iaaa_os.Base.{
  ℕ, zero, suc, ◌+◌, ◌-◌, ◌*◌, Bool, ltb, leb, ◌==◌, ◌||◌, ◌&&◌, not, if◌then◌else◌, Buf, upd, List,
  [], ◌∷◌,
}
use iaaa_os.Terminals.{Terminals}
use iaaa_os.Screen.{update_cursor, clear_screen, putc, endline, key_enter, key_tab, key_backspace}
use iaaa_os.Keyboard.{
  Keyboard, kb_buffer, kb_buf_add_1_char, kb_buf_add_tab, kb_buf_remove_last_char, kb_buf_clear,
}
use iaaa_os.System.{System, terminals_of, set_terminals, shown, remap, on_screen, on_keyboard, eoi}

abbrev pub num_keys : ℕ
num_keys = 54

abbrev pub keyboard_irq : ℕ
keyboard_irq = 1

-- The rows of `scan_code_translate`: lower case, caps lock and shift.
abbrev pub lower_row : List ℕ
lower_row =
    0 ∷ 0 ∷ b'1' ∷ b'2' ∷ b'3' ∷ b'4' ∷ b'5' ∷ b'6' ∷ b'7' ∷ b'8' ∷ b'9' ∷ b'0' ∷ b'-' ∷ b'=' ∷ 0
    ∷ 0 ∷ b'q' ∷ b'w' ∷ b'e' ∷ b'r' ∷ b't' ∷ b'y' ∷ b'u' ∷ b'i' ∷ b'o' ∷ b'p' ∷ b'[' ∷ b']' ∷ 0 ∷ 0
    ∷ b'a' ∷ b's' ∷ b'd' ∷ b'f' ∷ b'g' ∷ b'h' ∷ b'j' ∷ b'k' ∷ b'l' ∷ b';' ∷ 39 ∷ b'`' ∷ 0 ∷ 92
    ∷ b'z' ∷ b'x' ∷ b'c' ∷ b'v' ∷ b'b' ∷ b'n' ∷ b'm' ∷ b',' ∷ b'.' ∷ b'/' ∷ []

abbrev pub caps_row : List ℕ
caps_row =
    0 ∷ 0 ∷ b'1' ∷ b'2' ∷ b'3' ∷ b'4' ∷ b'5' ∷ b'6' ∷ b'7' ∷ b'8' ∷ b'9' ∷ b'0' ∷ b'-' ∷ b'=' ∷ 0
    ∷ 0 ∷ b'Q' ∷ b'W' ∷ b'E' ∷ b'R' ∷ b'T' ∷ b'Y' ∷ b'U' ∷ b'I' ∷ b'O' ∷ b'P' ∷ b'[' ∷ b']' ∷ 0 ∷ 0
    ∷ b'A' ∷ b'S' ∷ b'D' ∷ b'F' ∷ b'G' ∷ b'H' ∷ b'J' ∷ b'K' ∷ b'L' ∷ b';' ∷ 39 ∷ b'`' ∷ 0 ∷ 92
    ∷ b'Z' ∷ b'X' ∷ b'C' ∷ b'V' ∷ b'B' ∷ b'N' ∷ b'M' ∷ b',' ∷ b'.' ∷ b'/' ∷ []

abbrev pub shift_row : List ℕ
shift_row =
    0 ∷ 0 ∷ b'!' ∷ b'@' ∷ b'#' ∷ b'$' ∷ b'%' ∷ b'^' ∷ b'&' ∷ b'*' ∷ b'(' ∷ b')' ∷ b'_' ∷ b'+' ∷ 0
    ∷ 0 ∷ b'Q' ∷ b'W' ∷ b'E' ∷ b'R' ∷ b'T' ∷ b'Y' ∷ b'U' ∷ b'I' ∷ b'O' ∷ b'P' ∷ b'{' ∷ b'}' ∷ 0 ∷ 0
    ∷ b'A' ∷ b'S' ∷ b'D' ∷ b'F' ∷ b'G' ∷ b'H' ∷ b'J' ∷ b'K' ∷ b'L' ∷ b':' ∷ 34 ∷ b'~' ∷ 0 ∷ b'|'
    ∷ b'Z' ∷ b'X' ∷ b'C' ∷ b'V' ∷ b'B' ∷ b'N' ∷ b'M' ∷ b'<' ∷ b'>' ∷ b'?' ∷ []

-- The byte at an index behind a row: the bytes of the row, then those of `rest`.
pub byte_at : List ℕ → ℕ → Buf → ℕ
byte_at [] i rest = rest i
byte_at (c ∷ cs) zero rest = c
byte_at (c ∷ cs) (suc i) rest = byte_at cs i rest

-- The table lies in memory row by row.
unfoldable pub scan_code_translate : Buf → ℕ → ℕ → ℕ
scan_code_translate behind row key =
    byte_at lower_row (num_keys * row + key)
      (λ i. byte_at caps_row i (λ j. byte_at shift_row j behind))

abbrev pub flag : ℕ → ℕ → ℕ → ℕ → ℕ
flag press release key old = if key == release then 0 else if key == press then 1 else old

-- ALT, F1, F2 and F3.
unfoldable pub note_keys : ℕ → Keyboard → Keyboard
note_keys key k = record k {
  alt_flag = flag 0x38 0xB8 key k.alt_flag;
  f1_flag = flag 0x3B 0xBB key k.f1_flag;
  f2_flag = flag 0x3C 0xBC key k.f2_flag;
  f3_flag = flag 0x3D 0xBD key k.f3_flag;
}

-- What ALT with F1, F2 and F3 ask for; the last that is down counts.
unfoldable pub choose_terminal : Keyboard → Terminals → Terminals
choose_terminal k tm =
    let a = if k.f1_flag == 0 then tm else record tm { terminal_on_display_next = 1 } in
    let b =
      if k.f2_flag == 0
      then a
      else record a { terminal_on_display_next = 2; terminal_2_active = 1 } in
    if k.f3_flag == 0 then b else record b { terminal_on_display_next = 3; terminal_3_active = 1 }

-- `l_flag` or `c_flag`: the key gives one letter in one of the three rows.
unfoldable pub is_letter : Buf → ℕ → ℕ → ℕ → Bool
is_letter behind lower upper key =
    scan_code_translate behind 0 key == lower
    || scan_code_translate behind 1 key == upper
    || scan_code_translate behind 2 key == upper

unfoldable pub note_ctrl : Buf → ℕ → Keyboard → Keyboard
note_ctrl behind key k = record k {
  ctrl_flag = flag 0x1D 0x9D key k.ctrl_flag;
  l_flag = if is_letter behind b'l' b'L' key then 1 else 0;
  c_flag = if is_letter behind b'c' b'C' key then 1 else 0;
}

unfoldable pub note_case : ℕ → Keyboard → Keyboard
note_case key k = record k {
  caps_flag = if key == 0x3A then 1 - k.caps_flag else k.caps_flag;
  shift_flag =
      if key == 0xAA || key == 0xB6
      then 0
      else if key == 0x2A || key == 0x36
      then 1
      else k.shift_flag;
}

-- The handler returns, or calls `user_halt`, which ends the running program.
pub data KeyEnd : Type 0 where
  returned : System → KeyEnd
  user_halted : System → KeyEnd

-- Video memory goes back to the page of a terminal that is not shown.
unfoldable pub unmap : System → System
unmap s =
    let tm = terminals_of s in
    if tm.terminal_curr == tm.terminal_on_display_curr then s else remap tm.terminal_curr s

unfoldable pub leave : System → System
leave s = unmap (eoi keyboard_irq s)

-- Ctrl+C: the displayed terminal is to exit, now or when it runs.
unfoldable pub request_exit : System → KeyEnd
request_exit s =
    let tm = terminals_of s in
    let s1 =
      on_keyboard (λ i k. kb_buf_clear i (record k { kb_buf_num = upd k.kb_buf_num i 0 }))
        (eoi keyboard_irq s) in
    if tm.terminal_curr == tm.terminal_on_display_curr
    then user_halted s1
    else returned
        (leave (on_keyboard (λ i k. record k { kb_exit_flag = upd k.kb_exit_flag i 1 }) s1))

unfoldable pub control : System → KeyEnd
control s =
    let s1 =
      if s.keyboard.l_flag == 0
      then s
      else on_screen (λ tm page screen. update_cursor tm 0 0 (clear_screen tm page screen)) s in
    if s.keyboard.c_flag == 0 then returned (leave s1) else request_exit s1

-- A character goes to the screen and to the buffer.
unfoldable pub type_char : ℕ → System → System
type_char ch s =
    on_keyboard (λ i k. kb_buf_add_1_char i (record k { c = ch }))
      (on_screen (λ tm page screen. putc tm page ch (endline tm page screen)) s)

unfoldable pub enter : System → System
enter s = unmap (
    on_keyboard
      (λ i k. record k { enter_flag = upd k.enter_flag i 1; kb_buf_num = upd k.kb_buf_num i 0 })
      (eoi keyboard_irq (on_screen key_enter s)))

unfoldable pub backspace : System → System
backspace s =
    if s.keyboard.kb_buf_num (shown s) == 0
    then s
    else on_keyboard kb_buf_remove_last_char (on_screen key_backspace s)

-- A key that is in the table of characters. 42 is the left shift key.
unfoldable pub letter : Buf → ℕ → System → System
letter behind key s =
    if leb num_keys key
    then s
    else if s.keyboard.shift_flag == 1
    then (if key == 42 then s else type_char (scan_code_translate behind 2 key) s)
    else if s.keyboard.caps_flag == 1
    then type_char (scan_code_translate behind 1 key) s
    else type_char (scan_code_translate behind 0 key) s

-- The keys behind ENTER, in the order of the tests.
unfoldable pub press : Buf → ℕ → System → System
press behind key s =
    if key == 0x39
    then type_char b' ' s
    else if key == 0x0F
    then on_keyboard kb_buf_add_tab (on_screen key_tab s)
    else if key == 0x0E
    then backspace s
    else if key == 0x01
    then s
    else letter behind key s

-- The terminal that is shown is not read, or its buffer is full: nothing is typed.
unfoldable pub is_ignored : ℕ → System → Bool
is_ignored key s =
    s.keyboard.terminal_read_flag (shown s) == 0
    || leb kb_buffer (s.keyboard.kb_buf_num (shown s)) && not (key == 0x1C) && not (key == 0x0E)

unfoldable pub type_key : Buf → ℕ → System → System
type_key behind key s =
    if is_ignored key s
    then leave s
    else let s1 = record s { keyboard = note_case key s.keyboard } in
      if key == 0x1C then enter s1 else leave (press behind key s1)

unfoldable pub keyboard_handler_call : Buf → ℕ → System → KeyEnd
keyboard_handler_call behind key s =
    let s1 = record s { keyboard = note_keys key s.keyboard } in
    if s1.keyboard.alt_flag == 1
    then returned
        (eoi keyboard_irq (set_terminals (choose_terminal s1.keyboard (terminals_of s1)) s1))
    else let s2 = remap 0 s1 in
      let s3 = record s2 { keyboard = note_ctrl behind key s2.keyboard } in
      if s3.keyboard.ctrl_flag == 1 then control s3 else returned (type_key behind key s3)
