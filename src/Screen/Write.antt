-- ===== src/Screen/Write.antt =====
-- Where the console writes.
use iaaa_os.Base.{
  ℕ, ◌+◌, ◌*◌, ◌<◌, ◌≤◌, ◌≡◌, ◌≢◌, ◌⊎◌, refl, arith, ◌==◌, if◌then◌else◌, ◌∙◌, List, [], ◌∷◌,
}
use iaaa_os.Terminals.{Terminals}
use iaaa_os.Screen.{
  Screen, attrib, x_of, y_of, num_cols, num_rows, update_cursor, scroll_screen, key_enter,
  write_cell, putc, add_newline_if_right_edge, write_char, write_chars,
}
use iaaa_os.Screen.Scroll.{scroll_screen-video}
use iaaa_os.Screen.Position.{IsOnScreen, edge-IsOnScreen, putc-IsOnScreen}

module _ (tm : Terminals) (page : ℕ) where
  update_cursor-video : (x y : ℕ) (s : Screen) → (update_cursor tm x y s).video ≡ s.video
  unfolding update_cursor
  update_cursor-video x y s = ground arith

  key_enter-video :
      (s : Screen) (q j : ℕ)
      → (key_enter tm page s).video q j
        ≡ (if y_of tm s == 24 then (scroll_screen tm page s).video q j else s.video q j)
  unfolding key_enter update_cursor
  key_enter-video s q j = ground arith

  -- The byte `j` of page `q` is no part of the screen that is written.
  abbrev pub IsOutside : ℕ → ℕ → Type 0
  IsOutside q j = (q ≢ page) ⊎ (4000 ≤ j)

  key_enter-outside :
      (s : Screen) (q j : ℕ) → IsOutside q j → (key_enter tm page s).video q j ≡ s.video q j
  key_enter-outside s q j o =
      ground (arith, key_enter-video s q j, scroll_screen-video tm page q j s)

  putc-outside :
      (c : ℕ) (s : Screen) (q j : ℕ)
      → x_of tm s < num_cols
      → y_of tm s < num_rows
      → IsOutside q j
      → (putc tm page c s).video q j ≡ s.video q j
  unfolding putc write_cell update_cursor
  putc-outside c s q j hx hy o = ground (arith, key_enter-outside s q j)

  edge-outside :
      (s : Screen) (q j : ℕ)
      → IsOutside q j
      → (add_newline_if_right_edge tm page s).video q j ≡ s.video q j
  unfolding add_newline_if_right_edge update_cursor
  edge-outside s q j o = ground (arith, key_enter-outside s q j)

  edge-x : (s : Screen) → IsOnScreen tm s → x_of tm (add_newline_if_right_edge tm page s) < num_cols
  unfolding add_newline_if_right_edge update_cursor key_enter scroll_screen
  edge-x s v = ground arith

  write_char-IsOnScreen :
      (c : ℕ) (s : Screen) → IsOnScreen tm s → IsOnScreen tm (write_char tm page c s)
  unfolding write_char
  write_char-IsOnScreen c s v = ground (
    arith,
    v,
    edge-IsOnScreen tm page s v,
    putc-IsOnScreen tm page c (add_newline_if_right_edge tm page s),
  )

  write_char-outside :
      (c : ℕ) (s : Screen) (q j : ℕ)
      → IsOnScreen tm s
      → IsOutside q j
      → (write_char tm page c s).video q j ≡ s.video q j
  unfolding write_char
  write_char-outside c s q j v o = ground (
    arith,
    edge-x s v,
    edge-IsOnScreen tm page s v,
    edge-outside s q j o,
    putc-outside c (add_newline_if_right_edge tm page s) q j,
  )

  pub write_chars-IsOnScreen :
      (cs : List ℕ) (s : Screen) → IsOnScreen tm s → IsOnScreen tm (write_chars tm page cs s)
  unfolding write_chars
  write_chars-IsOnScreen [] s v = v
  write_chars-IsOnScreen (c ∷ cs) s v = write_chars-IsOnScreen cs _ (write_char-IsOnScreen c s v)

  -- Whatever `terminal_write` prints, it changes no byte but the 4000 of the screen on its page, if
  -- the cursor was on the screen.
  pub write_chars-outside :
      (cs : List ℕ) (s : Screen) (q j : ℕ)
      → IsOnScreen tm s
      → IsOutside q j
      → (write_chars tm page cs s).video q j ≡ s.video q j
  unfolding write_chars
  write_chars-outside [] s q j v o = refl
  write_chars-outside (c ∷ cs) s q j v o =
      write_chars-outside cs (write_char tm page c s) q j (write_char-IsOnScreen c s v) o
      ∙ write_char-outside c s q j v o

  -- A character that is no line end goes to the cell of the cursor, and the cursor moves on by one
  -- column; on the terminal that is shown, so does the cursor of the hardware.
  pub putc_lem :
      (c : ℕ) (s : Screen)
      → x_of tm s < num_cols
      → y_of tm s < num_rows
      → c ≢ b'\n'
      → c ≢ b'\r'
      → let s' = putc tm page c s in
        let at = (num_cols * y_of tm s + x_of tm s) * 2 in
        (s'.video page at ≡ c)
        × (s'.video page (at + 1) ≡ attrib)
        × ((q j : ℕ) → (q ≢ page) ⊎ ((j ≢ at) × (j ≢ at + 1)) → s'.video q j ≡ s.video q j)
        × (x_of tm s' ≡ x_of tm s + 1)
        × (y_of tm s' ≡ y_of tm s)
        × (tm.terminal_type ≡ 0
            → s'.cursor_high * 256 + s'.cursor_low ≡ num_cols * y_of tm s' + x_of tm s')
  unfolding putc write_cell update_cursor
  putc_lem c s hx hy ln cr = (
    ground arith,
    ground arith,
    λ q j o. ground arith,
    ground arith,
    ground arith,
    λ shown. ground arith,
  )
