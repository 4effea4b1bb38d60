-- ===== src/Terminal/Transfer.antt =====
-- What `terminal_write` puts on the screen, and what `terminal_read` gives to the program.
use iaaa_os.Base.{
  ℕ, zero, suc, ◌+◌, ◌<◌, ◌≤◌, ◌≡◌, ◌≢◌, refl, ap, arith, Buf, List, [], ◌∷◌, pos, some, ltb,
  if◌then◌else◌,
}
use iaaa_os.Str.{strncpy_include_null}
use iaaa_os.Str.Copy.{strncpy_include_null_lem}
use iaaa_os.Printf.Total.{length}
use iaaa_os.Screen.{Screen, x_of, y_of, num_cols, num_rows, write_char, write_chars}
use iaaa_os.Screen.Line.{visible, IsLine, Wrote, write_chars-Wrote}
use iaaa_os.Keyboard.Buffer.{kb_buf_clear_lem}
use iaaa_os.System.{System, terminals_of, shown, video_page, on_screen}
use iaaa_os.Terminal.{
  read_begin, write_from, terminal_write, is_waiting, read_wait, read_end, read_reset,
}

-- `n` bytes of a buffer from `i` on.
unfoldable pub bytes_from : ℕ → ℕ → Buf → List ℕ
bytes_from zero i buf = []
bytes_from (suc n) i buf = buf i ∷ bytes_from n (i + 1) buf

write_from_lem :
    (n i : ℕ) (buf : Buf) (s : System)
    → write_from n i buf s ≡ record s {
      screen = write_chars (terminals_of s) (video_page s) (bytes_from n i buf) s.screen;
    }
unfolding write_from write_chars bytes_from
write_from_lem zero i buf s = refl
write_from_lem (suc n) i buf s =
    write_from_lem n (i + 1) buf (on_screen (λ tm page screen. write_char tm page (buf i) screen) s)

-- `n` bytes without line ends that, but for the NULs, fit into the line of the cursor: the count is returned, and of
-- the system only the screen changes. The cells from the cursor on show the bytes but the NULs, the cursor
-- is behind them, and no other byte of video memory changes.
pub terminal_write_lem :
    (n : ℕ) (buf : Buf) (s : System)
    → let cs = bytes_from n 0 buf in
      let tm = terminals_of s in
      IsLine cs
      → y_of tm s.screen < num_rows
      → x_of tm s.screen + length (visible cs) ≤ num_cols
      → (t : Screen) × (terminal_write (some buf) (pos n) s ≡ (pos n, record s { screen = t }))
        × Wrote tm (video_page s) (visible cs) s.screen t
unfolding terminal_write
terminal_write_lem n buf s l hy hx =
    let cs = bytes_from n 0 buf in
    (
      write_chars (terminals_of s) (video_page s) cs s.screen,
      ap (λ t. (pos n, t)) (write_from_lem n 0 buf s),
      write_chars-Wrote (terminals_of s) (video_page s) cs s.screen l hy hx,
    )

read_reset_empty : (s : System) (j : ℕ) → j < 128 → (read_reset s).keyboard.kb_buf (shown s) j ≡ 0
unfolding read_reset
read_reset_empty s j h = kb_buf_clear_lem (shown s) j _ h

-- When the displayed terminal runs and ENTER was pressed, the wait of `terminal_read` ends: the program's
-- buffer has the first `n` bytes of the keyboard's buffer and its own bytes behind them, and the
-- keyboard's buffer of that terminal is empty, with ENTER no longer noted.
pub read_wait_lem :
    (n : ℕ) (buf : Buf) (s : System) (later : List System)
    → s.keyboard.enter_flag (shown s) ≢ 0
    → (terminals_of s).terminal_curr ≡ (terminals_of s).terminal_on_display_curr
    → (b : Buf) × (s' : System) × (read_wait n buf (s ∷ later) ≡ some (b, s'))
      × ((j : ℕ) → b j ≡ (if ltb j n then s.keyboard.kb_buf (shown s) j else buf j))
      × ((j : ℕ) → j < 128 → s'.keyboard.kb_buf (shown s) j ≡ 0)
      × (s'.keyboard.enter_flag (shown s) ≡ 0)
unfolding read_wait is_waiting read_end read_reset
read_wait_lem n buf s later e r = (
  strncpy_include_null buf (s.keyboard.kb_buf (shown s)) n,
  read_reset s,
  ground arith,
  strncpy_include_null_lem buf (s.keyboard.kb_buf (shown s)) n,
  λ j h. read_reset_empty s j h,
  ground arith,
)

-- The full flag of the displayed terminal, which the wait tests, is not cleared when a read begins: the
-- entry that is cleared is the next one.
pub read_begin-full_flag :
    (s : System)
    → ((read_begin s).keyboard.kb_buf_full_flag (shown s) ≡ s.keyboard.kb_buf_full_flag (shown s))
      × ((read_begin s).keyboard.kb_buf_full_flag (shown s + 1) ≡ 0)
unfolding read_begin
read_begin-full_flag s = (ground arith, ground arith)
