-- ===== src/Screen/Line.antt =====
-- What a write puts on a line of the screen.
use native.Mathlib.Decide.{ℕ_discrete}
use iaaa_os.Base.{
  ℕ, ◌+◌, ◌*◌, ◌<◌, ◌≤◌, ◌≡◌, ◌≢◌, ◌⊎◌, inl, inr, refl, ap, subst, suc, ◌∙◌, arith, ◌==◌,
  if◌then◌else◌, List, [], ◌∷◌,
}
use iaaa_os.Printf.Total.{length}
use iaaa_os.Terminals.{Terminals}
use iaaa_os.Screen.{
  Screen, attrib, x_of, y_of, num_cols, num_rows, update_cursor, add_newline_if_right_edge, putc,
  write_char, write_chars,
}
use iaaa_os.Screen.Write.{putc_lem}

-- The bytes but the NULs.
unfoldable pub visible : List ℕ → List ℕ
visible [] = []
visible (c ∷ cs) = let rest = visible cs in if c == 0 then rest else c ∷ rest

-- No byte ends the line.
unfoldable pub IsLine : List ℕ → Type 0
IsLine [] = Unit {0}
IsLine (c ∷ cs) = (c ≢ b'\n') × (c ≢ b'\r') × IsLine cs

-- The cells from the byte `at` of a page on show the characters.
unfoldable pub Shows : Screen → ℕ → ℕ → List ℕ → Type 0
Shows s page at [] = Unit {0}
Shows s page at (c ∷ cs) =
    (s.video page at ≡ c) × (s.video page (at + 1) ≡ attrib) × Shows s page (at + 2) cs

-- A write of characters at the cursor, in the line.
pub record Wrote (tm : Terminals) (page : ℕ) (vs : List ℕ) (s t : Screen) : Type 0 where
  pub cells : Shows t page ((num_cols * y_of tm s + x_of tm s) * 2) vs
  pub others :
      (q j : ℕ)
      → (q ≢ page)
        ⊎ (j < (num_cols * y_of tm s + x_of tm s) * 2)
        ⊎ ((num_cols * y_of tm s + x_of tm s + length vs) * 2 ≤ j)
      → t.video q j ≡ s.video q j
  pub column : x_of tm t ≡ x_of tm s + length vs
  pub row : y_of tm t ≡ y_of tm s

visible-nul : (c : ℕ) (cs : List ℕ) → c ≡ 0 → visible (c ∷ cs) ≡ visible cs
unfolding visible
visible-nul c cs e = ground (arith, e)

visible-char : (c : ℕ) (cs : List ℕ) → c ≢ 0 → visible (c ∷ cs) ≡ c ∷ visible cs
unfolding visible
visible-char c cs d = ground (arith, d)

room :
    (x c : ℕ) (vs : List ℕ)
    → x + length (c ∷ vs) ≤ num_cols
    → (x < num_cols) × (x + 1 + length vs ≤ num_cols)
unfolding length
room x c vs h = (omega arith, omega arith)

module _ (tm : Terminals) (page : ℕ) where
  edge_lem :
      (s : Screen)
      → x_of tm s < num_cols
      → let t = add_newline_if_right_edge tm page s in
        (x_of tm t ≡ x_of tm s) × (y_of tm t ≡ y_of tm s) × ((q j : ℕ) → t.video q j ≡ s.video q j)
  unfolding add_newline_if_right_edge update_cursor
  edge_lem s h = (ground arith, ground arith, λ q j. ground arith)

  WroteChar : ℕ → Screen → Screen → Type 0
  WroteChar c s t =
      let at = (num_cols * y_of tm s + x_of tm s) * 2 in
      (t.video page at ≡ c)
      × (t.video page (at + 1) ≡ attrib)
      × ((q j : ℕ) → (q ≢ page) ⊎ ((j ≢ at) × (j ≢ at + 1)) → t.video q j ≡ s.video q j)
      × (x_of tm t ≡ x_of tm s + 1)
      × (y_of tm t ≡ y_of tm s)

  write_char_lem :
      (c : ℕ) (s : Screen)
      → x_of tm s < num_cols
      → y_of tm s < num_rows
      → c ≢ 0
      → c ≢ b'\n'
      → c ≢ b'\r'
      → WroteChar c s (write_char tm page c s)
  unfolding write_char WroteChar
  write_char_lem c s hx hy d ln cr =
      let (ex, ey, ev) = edge_lem s hx in
      let s0 = add_newline_if_right_edge tm page s in
      let (cell, color, others, x, y, shown) =
        putc_lem tm page c s0 (omega (arith, ex)) (omega (arith, ey)) ln cr in
      let t = putc tm page c s0 in
      let same : write_char tm page c s ≡ t = run c s d in
      let at : (num_cols * y_of tm s + x_of tm s) * 2 ≡ (num_cols * y_of tm s0 + x_of tm s0) * 2 =
        omega (arith, ex, ey) in
      rw same (
        ap (t.video page) at ∙ cell,
        ap (λ i. t.video page (i + 1)) at ∙ color,
        λ q j o. others q j (subst (λ i. (q ≢ page) ⊎ ((j ≢ i) × (j ≢ i + 1))) at o) ∙ ev q j,
        x ∙ ap (λ n. n + 1) ex,
        y ∙ ey,
      )
    where
      run :
          (c : ℕ) (s : Screen)
          → c ≢ 0
          → write_char tm page c s ≡ putc tm page c (add_newline_if_right_edge tm page s)
      run c s d = ground (arith, d)

  write_char-nul : (c : ℕ) (s : Screen) → c ≡ 0 → write_char tm page c s ≡ s
  unfolding write_char
  write_char-nul c s e = ground (arith, e)

  row_kept : (c : ℕ) (s t : Screen) → y_of tm s < num_rows → WroteChar c s t → y_of tm t < num_rows
  unfolding WroteChar
  row_kept c s t h (cell, color, others, x, y) = omega (arith, h, y)

  column_kept :
      (c : ℕ) (s t : Screen) (n : ℕ)
      → x_of tm s + 1 + n ≤ num_cols
      → WroteChar c s t
      → x_of tm t + n ≤ num_cols
  unfolding WroteChar
  column_kept c s t n h (cell, color, others, x, y) = omega (arith, h, x)

  Wrote-nothing : (s : Screen) → Wrote tm page [] s s
  unfolding Shows length
  Wrote-nothing s = record { cells = tt; others = λ q j o. refl; column = omega arith; row = refl }

  Wrote-cons :
      (c : ℕ) (vs : List ℕ) (s s1 t : Screen)
      → WroteChar c s s1
      → Wrote tm page vs s1 t
      → Wrote tm page (c ∷ vs) s t
  unfolding WroteChar Shows length
  Wrote-cons c vs s s1 t (cell, color, others, x, y) w =
      let at = (num_cols * y_of tm s + x_of tm s) * 2 in
      let next : (num_cols * y_of tm s1 + x_of tm s1) * 2 ≡ at + 2 = omega (arith, x, y) in
      record {
        cells = (
          w.others page at (inr (inl (omega (arith, next)))) ∙ cell,
          w.others page (at + 1) (inr (inl (omega (arith, next)))) ∙ color,
          subst (λ i. Shows t page i vs) next w.cells,
        );
        others = λ q j o. later q j next o ∙ others q j (here q j o);
        column = w.column ∙ ap (λ n. n + length vs) x ∙ omega arith;
        row = w.row ∙ y;
      }
    where
      here :
          (q j : ℕ)
          → (q ≢ page)
            ⊎ (j < (num_cols * y_of tm s + x_of tm s) * 2)
            ⊎ ((num_cols * y_of tm s + x_of tm s + suc (length vs)) * 2 ≤ j)
          → (q ≢ page)
            ⊎ ((j ≢ (num_cols * y_of tm s + x_of tm s) * 2)
                × (j ≢ (num_cols * y_of tm s + x_of tm s) * 2 + 1))
      here q j (inl d) = inl d
      here q j (inr (inl l)) = inr (omega arith, omega arith)
      here q j (inr (inr g)) = inr (omega arith, omega arith)

      later :
          (q j : ℕ)
          → (num_cols * y_of tm s1 + x_of tm s1) * 2 ≡ (num_cols * y_of tm s + x_of tm s) * 2 + 2
          → (q ≢ page)
            ⊎ (j < (num_cols * y_of tm s + x_of tm s) * 2)
            ⊎ ((num_cols * y_of tm s + x_of tm s + suc (length vs)) * 2 ≤ j)
          → t.video q j ≡ s1.video q j
      later q j next (inl d) = w.others q j (inl d)
      later q j next (inr (inl l)) = w.others q j (inr (inl (omega (arith, next))))
      later q j next (inr (inr g)) = w.others q j (inr (inr (omega (arith, next))))

  -- Characters that fit into the line of the cursor.
  pub write_chars-Wrote :
      (cs : List ℕ) (s : Screen)
      → IsLine cs
      → y_of tm s < num_rows
      → x_of tm s + length (visible cs) ≤ num_cols
      → Wrote tm page (visible cs) s (write_chars tm page cs s)
  unfolding IsLine write_chars visible
  write_chars-Wrote [] s l hy hx = Wrote-nothing s
  write_chars-Wrote (c ∷ cs) s (ln, cr, l) hy hx = elim (ℕ_discrete c 0) [
    | yes e ↦
        rw (visible-nul c cs e, write_char-nul c s e)
          (write_chars-Wrote cs s l hy
            (subst (λ vs. x_of tm s + length vs ≤ num_cols) (visible-nul c cs e) hx))
    | no d ↦
        let size = subst (λ vs. x_of tm s + length vs ≤ num_cols) (visible-char c cs d) hx in
        let inside = room (x_of tm s) c (visible cs) size in
        let o = write_char_lem c s inside.0 hy d ln cr in
        rw (visible-char c cs d) (
          Wrote-cons c (visible cs) s (write_char tm page c s) _ o (
            write_chars-Wrote cs (write_char tm page c s) l (row_kept c s _ hy o)
              (column_kept c s _ (length (visible cs)) inside.1 o)))
  ]
