-- ===== src/Screen.antt =====
-- The text console of student-distrib/lib.c. `video` gives the bytes of a physical page of video
-- memory, and `page` is the page that the virtual address VIDEO is mapped to; `slot` is
-- `terminal_type`, the index of the cursor in use.
pub mod Scroll
pub mod Position
pub mod Write
pub mod Line
use iaaa_os.Base.{
  ℕ, zero, suc, ◌+◌, ◌-◌, ◌*◌, ◌/◌, ◌%◌, ltb, leb, ◌==◌, ◌&&◌, ◌||◌, not, if◌then◌else◌, Arr, Buf,
  upd, u16, List, [], ◌∷◌,
}
use iaaa_os.Terminals.{Terminals}

pub record Screen : Type 0 where
  pub video : Arr Buf
  pub screen_x : Arr ℕ
  pub screen_y : Arr ℕ
  pub cursor_high : ℕ
  pub cursor_low : ℕ

abbrev pub num_cols : ℕ
num_cols = 80

abbrev pub num_rows : ℕ
num_rows = 25

abbrev pub attrib : ℕ
attrib = 0x1F

abbrev pub cells : ℕ
cells = 2000

-- The loop of `clear`.
pub clear_from : ℕ → ℕ → Buf → Buf
clear_from zero i b = b
clear_from (suc rounds) i b = clear_from rounds (i + 1) (upd (upd b (2 * i) 0) (2 * i + 1) attrib)

unfoldable pub clear : ℕ → Screen → Screen
clear page s = record s { video = upd s.video page (clear_from cells 0 (s.video page)) }

-- `(pos >> 8) & 0xFF` and `pos & 0xFF` go to the cursor registers, unless the terminal is not shown.
unfoldable pub update_cursor : Terminals → ℕ → ℕ → Screen → Screen
update_cursor tm x y s =
    if not (tm.terminal_type == 0) && not (tm.terminal_next == tm.terminal_on_display_next)
    then s
    else record s {
      cursor_high = u16 (y * num_cols + x) / 256 % 256;
      cursor_low = u16 (y * num_cols + x) % 256;
    }

-- The loop of `scroll_screen` over the cells.
pub scroll_from : ℕ → ℕ → Buf → Buf
scroll_from zero i b = b
scroll_from (suc rounds) i b =
    scroll_from rounds (i + 1)
      (upd (upd b (2 * i) (if ltb i 1920 then b (2 * (i + num_cols)) else 0)) (2 * i + 1) attrib)

-- Both coordinates of the cursor in use.
abbrev pub move : Terminals → ℕ → ℕ → Screen → Screen
move tm x y s = record s {
  screen_x = upd s.screen_x tm.terminal_type x;
  screen_y = upd s.screen_y tm.terminal_type y;
}

abbrev pub x_of : Terminals → Screen → ℕ
x_of tm s = s.screen_x tm.terminal_type

abbrev pub y_of : Terminals → Screen → ℕ
y_of tm s = s.screen_y tm.terminal_type

module _ (tm : Terminals) (page : ℕ) where
  unfoldable pub scroll_screen : Screen → Screen
  scroll_screen s =
      update_cursor tm 0 24
        (move tm 0 24 (record s { video = upd s.video page (scroll_from cells 0 (s.video page)) }))

  unfoldable pub key_enter : Screen → Screen
  key_enter s =
      if y_of tm s == 24
      then (let s' = scroll_screen s in update_cursor tm 0 24 (move tm 0 (y_of tm s') s'))
      else update_cursor tm 0 (y_of tm s + 1) (move tm 0 (y_of tm s + 1) s)

  -- The two bytes of a cell.
  unfoldable pub write_cell : ℕ → Screen → Screen
  write_cell c s =
      let at = (num_cols * y_of tm s + x_of tm s) * 2 in
      record s { video = upd s.video page (upd (upd (s.video page) at c) (at + 1) attrib) }

  unfoldable pub putc : ℕ → Screen → Screen
  putc c s =
      if c == b'\n' || c == b'\r'
      then key_enter s
      else let s1 = write_cell c s in
        let x = x_of tm s1 + 1 in
        let x' = if ltb num_cols x then x % num_cols else x in
        update_cursor tm x' (y_of tm s1) (move tm x' (y_of tm s1) s1)

  -- A string as the list of its characters before the NUL.
  unfoldable pub puts : List ℕ → Screen → Screen
  puts [] s = s
  puts (c ∷ cs) s = puts cs (putc c s)

  unfoldable pub clear_screen : Screen → Screen
  clear_screen s = move tm 0 0 (clear page s)

  unfoldable pub endline : Screen → Screen
  endline s =
      if x_of tm s == num_cols && y_of tm s == 24
      then scroll_screen s
      else if x_of tm s == num_cols
      then key_enter s
      else update_cursor tm (x_of tm s) (y_of tm s) s

  unfoldable pub add_newline_if_right_edge : Screen → Screen
  add_newline_if_right_edge s =
      if x_of tm s == num_cols then key_enter s else update_cursor tm (x_of tm s) (y_of tm s) s

  unfoldable pub add_newline_if_line_not_empty : Screen → Screen
  add_newline_if_line_not_empty s = if x_of tm s == 0 then s else key_enter s

  abbrev pub spaces : List ℕ
  spaces = b' ' ∷ b' ' ∷ b' ' ∷ b' ' ∷ []

  unfoldable pub key_tab : Screen → Screen
  key_tab s =
      let s1 = if leb 76 (x_of tm s) then puts spaces (key_enter s) else puts spaces s in
      update_cursor tm (x_of tm s1) (y_of tm s1) s1

  -- The body of the `do` loop of `key_backspace`.
  unfoldable pub erase_at : ℕ → ℕ → Screen → Screen
  erase_at x y s = update_cursor tm x y (move tm x y (putc 0 (move tm x y s)))

  -- The `do` loop: the argument is `screen_x_prev`, which falls by one in each round.
  pub backspace_loop : ℕ → ℕ → Screen → Screen
  backspace_loop zero y s = erase_at zero y s
  backspace_loop (suc x) y s =
      let s1 = erase_at (suc x) y s in
      let more = backspace_loop x y s1 in
      if x == 0 then s1 else if s1.video page ((num_cols * y + x) * 2) == 0 then more else s1

  unfoldable pub key_backspace : Screen → Screen
  key_backspace s =
      if x_of tm s == 0 && y_of tm s == 0
      then update_cursor tm 0 0 (putc 0 s)
      else if ltb 0 (x_of tm s)
      then backspace_loop (x_of tm s - 1) (y_of tm s) s
      else backspace_loop (num_cols - 1) (y_of tm s - 1) s

  -- The loop of `terminal_write` (student-distrib/terminal.c) over the bytes of the buffer.
  unfoldable pub write_char : ℕ → Screen → Screen
  write_char c s = if c == 0 then s else putc c (add_newline_if_right_edge s)

  unfoldable pub write_chars : List ℕ → Screen → Screen
  write_chars [] s = s
  write_chars (c ∷ cs) s = write_chars cs (write_char c s)
