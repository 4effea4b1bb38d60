-- ===== src/Programs/Ls.antt =====
-- `ls` on calls that read a directory entry by entry and write all that they are given.
use native.Mathlib.Decide.{ℕ_discrete}
use iaaa_os.Base.{
  ℕ, zero, suc, ◌+◌, ◌<◌, ◌≡◌, ◌≢◌, ◌∙◌, refl, sym, ap, arith, false, Buf, ℤ, pos, some, List, [],
  ◌∷◌, ◌++◌, upd,
}
use iaaa_os.Terminal.Transfer.{bytes_from}
use iaaa_os.Programs.{Calls, is_failed, text_of, ls_entry, ls_loop, ls}
use iaaa_os.Programs.Cat.{nil_right, assoc, nonzero}

-- What a call leaves of the directory behind `fd`, and what the display has: a read gives the bytes of the
-- next entry, none only at the end, and a write shows all its bytes.
pub record IsListing {S : Type 0} (calls : Calls S) (entries : S → List (List ℕ))
    (output : S → List ℕ) (fd : ℤ) : Type 0 where
  pub read_next :
      (buf : Buf) (k : S)
      → let (r, buf', k') = calls.read fd buf 32 k in
        (n : ℕ) × (r ≡ pos n)
        × (output k' ≡ output k)
        × (n ≡ 0 → entries k ≡ [])
        × (n ≢ 0 → entries k ≡ bytes_from n 0 buf' ∷ entries k')
  pub write_all :
      (buf : Buf) (n : ℕ) (k : S)
      → let (r, k') = calls.write (pos 1) buf n k in
        (is_failed r ≡ false)
        × (output k' ≡ output k ++ bytes_from n 0 buf)
        × (entries k' ≡ entries k)

unfoldable pub entry_count : List (List ℕ) → ℕ
entry_count [] = 0
entry_count (e ∷ es) = suc (entry_count es)

-- Each entry on a line of its own.
unfoldable pub lines : List (List ℕ) → List ℕ
lines [] = []
lines (e ∷ es) = e ++ 10 ∷ lines es

bytes_from-same :
    (n i : ℕ) (b c : Buf) → ((j : ℕ) → j < i + n → b j ≡ c j) → bytes_from n i b ≡ bytes_from n i c
unfolding bytes_from
bytes_from-same zero i b c e = refl
bytes_from-same (suc n) i b c e =
    rw (e i (omega arith), bytes_from-same n (i + 1) b c (λ j h. e j (omega arith))) refl

bytes_from-last :
    (n i : ℕ) (b : Buf) (c : ℕ)
    → b (i + n) ≡ c
    → bytes_from (suc n) i b ≡ bytes_from n i b ++ c ∷ []
unfolding bytes_from
bytes_from-last zero i b c e = ap (λ x. x ∷ []) (ap b (omega arith) ∙ e)
bytes_from-last (suc n) i b c e =
    ap (λ r. b i ∷ r) (bytes_from-last n (i + 1) b c (ap b (omega arith) ∙ e))

-- The line that is written.
bytes_from-newline :
    (n : ℕ) (b : Buf) → bytes_from (n + 1) 0 (upd b n 10) ≡ bytes_from n 0 b ++ 10 ∷ []
bytes_from-newline n b =
    let index : n + 1 ≡ suc n = omega arith in
    ap (λ m. bytes_from m 0 (upd b n 10)) index
    ∙ bytes_from-last n 0 (upd b n 10) 10 (ground arith)
    ∙ ap (λ cs. cs ++ 10 ∷ []) (bytes_from-same n 0 (upd b n 10) b (λ j h. ground arith))

module _ {S : Type 0} (calls : Calls S) (entries : S → List (List ℕ)) (output : S → List ℕ) (f : ℕ)
    (listing : IsListing calls entries output (pos f)) where
  ls_loop_lem :
      (rounds : ℕ) (buf : Buf) (k : S)
      → entry_count (entries k) < rounds
      → (k' : S) × (ls_loop calls rounds (pos f) buf k ≡ some (0, k'))
        × (output k' ≡ output k ++ lines (entries k))
  unfolding ls_loop ls_entry lines entry_count
  ls_loop_lem zero buf k h = absurd (omega arith)
  ls_loop_lem (suc rounds) buf k h =
      let (n, e, o, last, next) = listing.read_next buf k in
      let (cnt, buf', k1) = calls.read (pos f) buf 32 k in
      elim (ℕ_discrete n 0) [
        | yes z ↦ (
          k1,
          rw (e, z) refl,
          o ∙ sym (nil_right (output k)) ∙ ap (λ es. output k ++ lines es) (sym (last z)),
        )
        | no d ↦
            let line = upd buf' n 10 in
            let (w, shown, kept) = listing.write_all line (n + 1) k1 in
            let k2 = (calls.write (pos 1) line (n + 1) k1).1 in
            let name = bytes_from n 0 buf' in
            let size = ap entry_count (next d) in
            let less = ap entry_count kept in
            let (k', same, all) = ls_loop_lem rounds line k2 (omega arith) in
            (
              k',
              rw (e, nonzero n d, w) same,
              all
                  ∙ ap (λ cs. cs ++ lines (entries k2))
                      (shown ∙ ap (λ cs. cs ++ bytes_from (n + 1) 0 line) o)
                  ∙ ap (λ es. (output k ++ bytes_from (n + 1) 0 line) ++ lines es) kept
                  ∙ ap (λ cs. (output k ++ cs) ++ lines (entries k1)) (bytes_from-newline n buf')
                  ∙ assoc (output k) (name ++ 10 ∷ []) (lines (entries k1))
                  ∙ ap (λ cs. output k ++ cs) (assoc name (10 ∷ []) (lines (entries k1)))
                  ∙ ap (λ es. output k ++ lines es) (sym (next d)),
            )
      ]

  -- If the directory opens as a list of entries, `ls` comes to an end after one read for each and one more,
  -- returns 0, and has shown the entries, each with a newline behind it.
  pub ls_lem :
      (rounds : ℕ) (junk : Buf) (k k1 : S)
      → calls.open_file (text_of (b'.' ∷ [])) k ≡ (pos f, k1)
      → entry_count (entries k1) < rounds
      → (k' : S) × (ls calls rounds junk k ≡ some (0, k'))
        × (output k' ≡ output k1 ++ lines (entries k1))
  unfolding ls
  ls_lem rounds junk k k1 o h =
      let (k', same, all) = ls_loop_lem rounds junk k1 h in (k', rw o same, all)
