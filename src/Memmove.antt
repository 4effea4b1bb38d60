-- ===== src/Memmove.antt =====
-- `memmove` of student-distrib/lib.c, on the bytes of memory: source and destination may overlap. The
-- direction flag is a result, since the function does not clear it.
use iaaa_os.Base.{
  ℕ, zero, suc, ◌+◌, ◌-◌, ◌≤◌, ◌<◌, ◌≡◌, ◌∙◌, arith, ltb, leb, ◌&&◌, if◌then◌else◌, if_holds, Bool,
  true, false, Buf, upd, u32,
}

-- `rep movsb` with the direction flag clear, and set.
rep_movsb_up : ℕ → ℕ → ℕ → Buf → Buf
rep_movsb_up zero edi esi m = m
rep_movsb_up (suc ecx) edi esi m =
    rep_movsb_up ecx (u32 (edi + 1)) (u32 (esi + 1)) (upd m edi (m esi))

rep_movsb_down : ℕ → ℕ → ℕ → Buf → Buf
rep_movsb_down zero edi esi m = m
rep_movsb_down (suc ecx) edi esi m =
    rep_movsb_down ecx (u32 (edi + 0xFFFFFFFF)) (u32 (esi + 0xFFFFFFFF)) (upd m edi (m esi))

-- The memory and the direction flag behind the call.
unfoldable pub memmove : ℕ → ℕ → ℕ → Buf → Buf × Bool
unfolding rep_movsb_up rep_movsb_down
memmove dest src n m =
    if leb dest src
    then (rep_movsb_up n dest src m, false)
    else (rep_movsb_down n (u32 (dest + n + 0xFFFFFFFF)) (u32 (src + n + 0xFFFFFFFF)) m, true)

-- The `n` bytes from `src` on, at `dest`.
abbrev pub moved : ℕ → ℕ → ℕ → Buf → Buf
moved dest src n m j = if leb dest j && ltb j (dest + n) then m (src + j - dest) else m j

rep_movsb_up_lem :
    (n dest src : ℕ) (m : Buf) (j : ℕ)
    → dest ≤ src
    → src + n ≤ 0x100000000
    → rep_movsb_up n dest src m j ≡ moved dest src n m j
unfolding rep_movsb_up
rep_movsb_up_lem zero dest src m j o h = ground arith
rep_movsb_up_lem (suc zero) dest src m j o h = ground arith
rep_movsb_up_lem (suc (suc n)) dest src m j o h =
    let a : u32 (dest + 1) ≡ dest + 1 = omega arith in
    let b : u32 (src + 1) ≡ src + 1 = omega arith in
    rw (a, b)
      (rep_movsb_up_lem (suc n) (dest + 1) (src + 1) (upd m dest (m src)) j (omega arith)
          (omega arith)
        ∙ ground arith)

rep_movsb_down_lem :
    (n dest src : ℕ) (m : Buf) (j : ℕ)
    → src < dest
    → dest + n ≤ 0x100000000
    → rep_movsb_down n (u32 (dest + n + 0xFFFFFFFF)) (u32 (src + n + 0xFFFFFFFF)) m j
      ≡ moved dest src n m j
unfolding rep_movsb_down
rep_movsb_down_lem zero dest src m j o h = ground arith
rep_movsb_down_lem (suc n) dest src m j o h =
    let a : u32 (dest + suc n + 0xFFFFFFFF) ≡ dest + n = omega arith in
    let b : u32 (src + suc n + 0xFFFFFFFF) ≡ src + n = omega arith in
    rw (a, b)
      (rep_movsb_down_lem n dest src (upd m (dest + n) (m (src + n))) j o (omega arith)
        ∙ ground arith)

-- If neither range wraps around, `memmove` leaves the old bytes of the source at the destination and
-- changes no other byte, however the two overlap; the direction flag is set behind it exactly if the
-- destination lies above the source.
pub memmove_lem :
    (dest src n : ℕ) (m : Buf)
    → dest + n ≤ 0x100000000
    → src + n ≤ 0x100000000
    → ((j : ℕ) → (memmove dest src n m).0 j ≡ moved dest src n m j)
      × ((memmove dest src n m).1 ≡ ltb src dest)
unfolding memmove
memmove_lem dest src n m h g =
    if_holds (λ (r : Buf × Bool). ((j : ℕ) → r.0 j ≡ moved dest src n m j) × (r.1 ≡ ltb src dest))
      (leb dest src) (λ e. (λ j. rep_movsb_up_lem n dest src m j (ground arith) g, ground arith))
      (λ e. (λ j. rep_movsb_down_lem n dest src m j (ground arith) h, ground arith))
