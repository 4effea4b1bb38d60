-- ===== src/Memcpy.antt =====
-- `memcpy` of student-distrib/lib.c: bytes up to the first address that is a multiple of
-- four, then double words, then the bytes that are left. `edi` is the destination's address.
use iaaa_os.Base.{
  ℕ, zero, suc, ◌+◌, ◌*◌, ◌/◌, ◌%◌, ◌≡◌, ◌∙◌, arith, ltb, leb, ◌==◌, ◌&&◌, if◌then◌else◌, Buf, upd,
}

-- `.memcpy_bottom`, and the byte moves of `.memcpy_top`.
pub memcpy_bottom : ℕ → ℕ → Buf → Buf → Buf
memcpy_bottom zero i dest src = dest
memcpy_bottom (suc edx) i dest src = memcpy_bottom edx (i + 1) (upd dest i (src i)) src

-- `movsl`: four bytes at once.
abbrev movs_dword : ℕ → Buf → Buf → Buf
movs_dword i dest src =
    upd (upd (upd (upd dest i (src i)) (i + 1) (src (i + 1))) (i + 2) (src (i + 2))) (i + 3)
      (src (i + 3))

-- `rep movsl`.
rep_movsl : ℕ → ℕ → Buf → Buf → Buf
rep_movsl zero i dest src = dest
rep_movsl (suc ecx) i dest src = rep_movsl ecx (i + 4) (movs_dword i dest src) src

memcpy_aligned : ℕ → ℕ → Buf → Buf → Buf
unfolding rep_movsl memcpy_bottom
memcpy_aligned ecx i dest src =
    memcpy_bottom (ecx % 4) (i + 4 * (ecx / 4)) (rep_movsl (ecx / 4) i dest src) src

memcpy_top : ℕ → ℕ → ℕ → Buf → Buf → Buf
unfolding memcpy_aligned
memcpy_top zero edi i dest src = dest
memcpy_top (suc ecx) edi i dest src =
    let next = memcpy_top ecx (edi + 1) (i + 1) (upd dest i (src i)) src in
    if edi % 4 == 0 then memcpy_aligned (suc ecx) i dest src else next

unfoldable pub memcpy : ℕ → Buf → Buf → ℕ → Buf
unfolding memcpy_top
memcpy edi dest src n = memcpy_top n edi 0 dest src

abbrev copied_range : ℕ → ℕ → Buf → Buf → Buf
copied_range i n dest src j = if leb i j && ltb j (i + n) then src j else dest j

memcpy_bottom_lem :
    (n i : ℕ) (dest src : Buf) (j : ℕ) → memcpy_bottom n i dest src j ≡ copied_range i n dest src j
unfolding memcpy_bottom
memcpy_bottom_lem zero i dest src j = ground arith
memcpy_bottom_lem (suc n) i dest src j =
    memcpy_bottom_lem n (i + 1) (upd dest i (src i)) src j ∙ ground arith

movs_dword_lem :
    (i : ℕ) (dest src : Buf) (j : ℕ) → movs_dword i dest src j ≡ copied_range i 4 dest src j
movs_dword_lem i dest src j = ground arith

rep_movsl_lem :
    (n i : ℕ) (dest src : Buf) (j : ℕ)
    → rep_movsl n i dest src j ≡ copied_range i (4 * n) dest src j
unfolding rep_movsl
rep_movsl_lem zero i dest src j = ground arith
rep_movsl_lem (suc n) i dest src j =
    rep_movsl_lem n (i + 4) (movs_dword i dest src) src j
    ∙ ground (arith, movs_dword_lem i dest src j)

memcpy_aligned_lem :
    (n i : ℕ) (dest src : Buf) (j : ℕ) → memcpy_aligned n i dest src j ≡ copied_range i n dest src j
unfolding memcpy_aligned
memcpy_aligned_lem n i dest src j =
    memcpy_bottom_lem (n % 4) (i + 4 * (n / 4)) (rep_movsl (n / 4) i dest src) src j
    ∙ ground (arith, rep_movsl_lem (n / 4) i dest src j)

memcpy_top_lem :
    (n edi i : ℕ) (dest src : Buf) (j : ℕ)
    → memcpy_top n edi i dest src j ≡ copied_range i n dest src j
unfolding memcpy_top
memcpy_top_lem zero edi i dest src j = ground arith
memcpy_top_lem (suc n) edi i dest src j = ground (
  arith,
  memcpy_aligned_lem (suc n) i dest src j,
  memcpy_top_lem n (edi + 1) (i + 1) (upd dest i (src i)) src j,
)

-- At every alignment of the destination, `memcpy` copies the first `n` bytes and changes no other.
pub memcpy_lem :
    (edi : ℕ) (dest src : Buf) (n j : ℕ)
    → memcpy edi dest src n j ≡ (if ltb j n then src j else dest j)
unfolding memcpy
memcpy_lem edi dest src n j = ground (arith, memcpy_top_lem n edi 0 dest src j)
