-- ===== src/Programs/Cat.antt =====
-- `cat` on calls that read a file in pieces and write all that they are given.
use native.Mathlib.Decide.{ℕ_discrete}
use iaaa_os.Base.{
  ℕ, zero, suc, ◌+◌, ◌<◌, ◌≡◌, ◌≢◌, ◌∙◌, refl, sym, ap, arith, false, Buf, ℤ, pos, some, List, [],
  ◌∷◌, ◌++◌, is_zero,
}
use iaaa_os.Terminal.Transfer.{bytes_from}
use iaaa_os.Programs.{Calls, is_failed, cat_chunk, cat_loop, cat}

unfoldable pub length : List ℕ → ℕ
length [] = 0
length (c ∷ cs) = suc (length cs)

-- What a call leaves of the file behind `fd`, and what the display has, as `remaining` and `output` of the
-- state: a read gives the next bytes, none only at the end of the file, and a write shows all its bytes.
-- The kernel's own reads of a file go past its end from the second block on, so there `cat` shows more.
pub record IsStream {S : Type 0} (calls : Calls S) (remaining output : S → List ℕ) (fd : ℤ)
    : Type 0 where
  pub read_next :
      (buf : Buf) (k : S)
      → let (r, buf', k') = calls.read fd buf 1024 k in
        (n : ℕ) × (r ≡ pos n)
        × (remaining k ≡ bytes_from n 0 buf' ++ remaining k')
        × (output k' ≡ output k)
        × (n ≡ 0 → remaining k ≡ [])
  pub write_all :
      (buf : Buf) (n : ℕ) (k : S)
      → let (r, k') = calls.write (pos 1) buf n k in
        (is_failed r ≡ false)
        × (output k' ≡ output k ++ bytes_from n 0 buf)
        × (remaining k' ≡ remaining k)

pub nil_right : (cs : List ℕ) → cs ++ [] ≡ cs
nil_right [] = refl
nil_right (c ∷ cs) = ap (λ r. c ∷ r) (nil_right cs)

pub assoc : (a b c : List ℕ) → (a ++ b) ++ c ≡ a ++ (b ++ c)
assoc [] b c = refl
assoc (x ∷ a) b c = ap (λ r. x ∷ r) (assoc a b c)

length-++ : (a b : List ℕ) → length (a ++ b) ≡ length a + length b
unfolding length
length-++ [] b = omega arith
length-++ (x ∷ a) b = omega (arith, length-++ a b)

length-bytes_from : (n i : ℕ) (b : Buf) → length (bytes_from n i b) ≡ n
unfolding length bytes_from
length-bytes_from zero i b = refl
length-bytes_from (suc n) i b = ap suc (length-bytes_from n (i + 1) b)

pub nonzero : (n : ℕ) → n ≢ 0 → is_zero (pos n) ≡ false
nonzero zero d = absurd (d refl)
nonzero (suc n) d = refl

module _ {S : Type 0} (calls : Calls S) (remaining output : S → List ℕ) (f : ℕ)
    (stream : IsStream calls remaining output (pos f)) where
  cat_loop_lem :
      (rounds : ℕ) (buf : Buf) (k : S)
      → length (remaining k) < rounds
      → (k' : S) × (cat_loop calls rounds (pos f) buf k ≡ some (0, k'))
        × (output k' ≡ output k ++ remaining k)
  unfolding cat_loop cat_chunk
  cat_loop_lem zero buf k h = absurd (omega arith)
  cat_loop_lem (suc rounds) buf k h =
      let (n, e, r, o, last) = stream.read_next buf k in
      let (cnt, buf', k1) = calls.read (pos f) buf 1024 k in
      elim (ℕ_discrete n 0) [
        | yes z ↦ (
          k1,
          rw (e, z) refl,
          o ∙ sym (nil_right (output k)) ∙ ap (λ cs. output k ++ cs) (sym (last z)),
        )
        | no d ↦
            let (w, shown, kept) = stream.write_all buf' n k1 in
            let k2 = (calls.write (pos 1) buf' n k1).1 in
            let size =
              ap length r
              ∙ length-++ (bytes_from n 0 buf') (remaining k1)
              ∙ ap (λ m. m + length (remaining k1)) (length-bytes_from n 0 buf') in
            let less = ap length kept in
            let (k', same, all) = cat_loop_lem rounds buf' k2 (omega arith) in
            (
              k',
              rw (e, nonzero n d, w) same,
              all
                  ∙ ap (λ cs. cs ++ remaining k2) (shown ∙ ap (λ cs. cs ++ bytes_from n 0 buf') o)
                  ∙ ap (λ cs. (output k ++ bytes_from n 0 buf') ++ cs) kept
                  ∙ assoc (output k) (bytes_from n 0 buf') (remaining k1)
                  ∙ ap (λ cs. output k ++ cs) (sym r),
            )
      ]

  -- If the arguments can be read and name a file that opens as a stream, `cat` comes to an end after at
  -- most as many reads as the file has bytes and one more, returns 0, and has shown exactly the bytes of
  -- the file.
  pub cat_lem :
      (rounds : ℕ) (junk name : Buf) (k k1 k2 : S)
      → calls.getargs junk 1024 k ≡ (pos 0, name, k1)
      → calls.open_file name k1 ≡ (pos f, k2)
      → length (remaining k2) < rounds
      → (k' : S) × (cat calls rounds junk k ≡ some (0, k'))
        × (output k' ≡ output k2 ++ remaining k2)
  unfolding cat
  cat_lem rounds junk name k k1 k2 a o h =
      let (k', same, all) = cat_loop_lem rounds name k2 h in (k', rw (a, o) same, all)
