-- ===== src/Screen/Position.antt =====
-- The cursor stays on the screen.
use native.Mathlib.Decide.{ℕ_discrete}
use iaaa_os.Base.{ℕ, zero, suc, ◌+◌, ◌-◌, ◌<◌, ◌≤◌, ◌≡◌, false, ◌==◌, arith, List, [], ◌∷◌}
use iaaa_os.Terminals.{Terminals}
use iaaa_os.Screen.{
  Screen, x_of, y_of, num_cols, num_rows, update_cursor, scroll_screen, key_enter, write_cell, putc,
  puts, clear_screen, endline, add_newline_if_right_edge, add_newline_if_line_not_empty, key_tab,
  erase_at, backspace_loop, key_backspace, spaces,
}

-- The column may be the one behind the last.
pub record IsOnScreen (tm : Terminals) (s : Screen) : Type 0 where
  pub column : x_of tm s ≤ num_cols
  pub row : y_of tm s < num_rows

module _ (tm : Terminals) (page : ℕ) where
  update_cursor-IsOnScreen :
      (x y : ℕ) (s : Screen) → IsOnScreen tm s → IsOnScreen tm (update_cursor tm x y s)
  unfolding update_cursor
  update_cursor-IsOnScreen x y s v = ground (arith, v)

  scroll_screen-IsOnScreen : (s : Screen) → IsOnScreen tm (scroll_screen tm page s)
  unfolding scroll_screen
  scroll_screen-IsOnScreen s = update_cursor-IsOnScreen 0 24 _ (ground arith)

  pub key_enter-IsOnScreen : (s : Screen) → IsOnScreen tm s → IsOnScreen tm (key_enter tm page s)
  unfolding key_enter
  key_enter-IsOnScreen s v = elim (ℕ_discrete (y_of tm s) 24) [
    | yes e ↦
        rw e (
          update_cursor-IsOnScreen 0 24 _ (let w = scroll_screen-IsOnScreen s in ground (arith, w)))
    | no d ↦
        let t : (y_of tm s == 24) ≡ false = ground arith in
        rw t (update_cursor-IsOnScreen 0 (y_of tm s + 1) _ (ground (arith, v)))
  ]

  pub putc-IsOnScreen : (c : ℕ) (s : Screen) → IsOnScreen tm s → IsOnScreen tm (putc tm page c s)
  unfolding putc update_cursor write_cell
  putc-IsOnScreen c s v = ground (arith, key_enter-IsOnScreen s)

  puts-IsOnScreen : (cs : List ℕ) (s : Screen) → IsOnScreen tm s → IsOnScreen tm (puts tm page cs s)
  unfolding puts
  puts-IsOnScreen [] s v = v
  puts-IsOnScreen (c ∷ cs) s v = puts-IsOnScreen cs (putc tm page c s) (putc-IsOnScreen c s v)

  pub edge-IsOnScreen :
      (s : Screen) → IsOnScreen tm s → IsOnScreen tm (add_newline_if_right_edge tm page s)
  unfolding add_newline_if_right_edge
  edge-IsOnScreen s v =
      ground (arith, key_enter-IsOnScreen s, update_cursor-IsOnScreen (x_of tm s) (y_of tm s) s)

  endline-IsOnScreen : (s : Screen) → IsOnScreen tm s → IsOnScreen tm (endline tm page s)
  unfolding endline
  endline-IsOnScreen s v = ground (
    arith,
    key_enter-IsOnScreen s,
    scroll_screen-IsOnScreen s,
    update_cursor-IsOnScreen (x_of tm s) (y_of tm s) s,
  )

  key_tab-IsOnScreen : (s : Screen) → IsOnScreen tm s → IsOnScreen tm (key_tab tm page s)
  unfolding key_tab
  key_tab-IsOnScreen s v = update_cursor-IsOnScreen _ _ _ (
      ground (
        arith,
        puts-IsOnScreen (spaces tm page) (key_enter tm page s) (key_enter-IsOnScreen s v),
        puts-IsOnScreen (spaces tm page) s v,
      ))

  erase_at-IsOnScreen :
      (x y : ℕ) (s : Screen) → x ≤ num_cols → y < num_rows → IsOnScreen tm (erase_at tm page x y s)
  unfolding erase_at
  erase_at-IsOnScreen x y s hx hy = update_cursor-IsOnScreen x y _ (ground arith)

  backspace_loop-IsOnScreen :
      (x y : ℕ) (s : Screen)
      → x ≤ num_cols
      → y < num_rows
      → IsOnScreen tm (backspace_loop tm page x y s)
  unfolding backspace_loop
  backspace_loop-IsOnScreen zero y s hx hy = erase_at-IsOnScreen 0 y s hx hy
  backspace_loop-IsOnScreen (suc x) y s hx hy = ground (
    arith,
    erase_at-IsOnScreen (suc x) y s hx hy,
    backspace_loop-IsOnScreen x y (erase_at tm page (suc x) y s),
  )

  key_backspace-IsOnScreen :
      (s : Screen) → IsOnScreen tm s → IsOnScreen tm (key_backspace tm page s)
  unfolding key_backspace
  key_backspace-IsOnScreen s v = ground (
    arith,
    putc-IsOnScreen 0 s v,
    update_cursor-IsOnScreen 0 0 (putc tm page 0 s),
    backspace_loop-IsOnScreen (x_of tm s - 1) (y_of tm s) s,
    backspace_loop-IsOnScreen (num_cols - 1) (y_of tm s - 1) s,
  )

  -- Every operation of the console keeps the cursor in use on the screen: its row is below 25, and
  -- its column at most 80.
  pub console-IsOnScreen :
      (s : Screen)
      → IsOnScreen tm s
      → IsOnScreen tm (key_enter tm page s)
        × ((c : ℕ) → IsOnScreen tm (putc tm page c s))
        × ((cs : List ℕ) → IsOnScreen tm (puts tm page cs s))
        × IsOnScreen tm (endline tm page s)
        × IsOnScreen tm (add_newline_if_right_edge tm page s)
        × IsOnScreen tm (add_newline_if_line_not_empty tm page s)
        × IsOnScreen tm (key_tab tm page s)
        × IsOnScreen tm (key_backspace tm page s)
        × IsOnScreen tm (clear_screen tm page s)
        × IsOnScreen tm (scroll_screen tm page s)
  unfolding add_newline_if_line_not_empty clear_screen
  console-IsOnScreen s v = (
    key_enter-IsOnScreen s v,
    λ c. putc-IsOnScreen c s v,
    λ cs. puts-IsOnScreen cs s v,
    endline-IsOnScreen s v,
    edge-IsOnScreen s v,
    ground (arith, v, key_enter-IsOnScreen s),
    key_tab-IsOnScreen s v,
    key_backspace-IsOnScreen s v,
    ground arith,
    scroll_screen-IsOnScreen s,
  )
