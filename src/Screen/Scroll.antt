-- ===== src/Screen/Scroll.antt =====
-- What `scroll_screen` and `clear` leave on the screen.
use iaaa_os.Base.{
  ℕ, zero, suc, ◌+◌, ◌*◌, ◌%◌, ◌≡◌, arith, ltb, leb, ◌==◌, if◌then◌else◌, Buf, upd, ◌∙◌,
}
use iaaa_os.Terminals.{Terminals}
use iaaa_os.Screen.{Screen, attrib, cells, num_cols, scroll_from, scroll_screen, update_cursor}

-- The screen `b` moved up by a row, with an empty last row.
abbrev pub scrolled : Buf → Buf
scrolled b j =
    if leb 4000 j then b j else if j % 2 == 1 then attrib else if ltb j 3840 then b (j + 160) else 0

pub scroll_from_lem :
    (rounds i : ℕ) (b : Buf) (j : ℕ)
    → i + rounds ≡ cells
    → scroll_from rounds i b j ≡ (if ltb j (2 * i) then b j else scrolled b j)
unfolding scroll_from
scroll_from_lem zero i b j e = ground arith
scroll_from_lem (suc rounds) i b j e =
    scroll_from_lem rounds (i + 1)
      (upd (upd b (2 * i) (if ltb i 1920 then b (2 * (i + num_cols)) else 0)) (2 * i + 1) attrib) j
      (omega arith)
    ∙ ground arith

-- `scroll_screen` moves each row of its page up by one, empties the last row, gives every cell the
-- same attribute, and changes no byte behind the screen and no other page.
pub scroll_screen-video :
    (tm : Terminals) (page q j : ℕ) (s : Screen)
    → (scroll_screen tm page s).video q j
      ≡ (if q == page then scrolled (s.video page) j else s.video q j)
unfolding scroll_screen update_cursor
scroll_screen-video tm page q j s = ground (arith, scroll_from_lem cells 0 (s.video page) j)
