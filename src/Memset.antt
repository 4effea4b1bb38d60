-- ===== src/Memset.antt =====
-- `memset`, `memset_word` and `memset_dword` of student-distrib/lib.c. `edi` is the address of the object.
use iaaa_os.Base.{
  ℕ, zero, suc, ◌+◌, ◌*◌, ◌/◌, ◌%◌, ◌≡◌, ◌∙◌, arith, ltb, leb, ◌==◌, ◌&&◌, if◌then◌else◌, Buf, upd,
}

-- A store of EAX at an offset: `stosl`, and `stosw` of its lower half.
abbrev store_dword : ℕ → ℕ → Buf → Buf
store_dword eax i s =
    upd (upd (upd (upd s i (eax % 256)) (i + 1) (eax / 256 % 256)) (i + 2) (eax / 65536 % 256))
      (i + 3) (eax / 16777216 % 256)

abbrev store_word : ℕ → ℕ → Buf → Buf
store_word eax i s = upd (upd s i (eax % 256)) (i + 1) (eax / 256 % 256)

rep_stosl : ℕ → ℕ → ℕ → Buf → Buf
rep_stosl eax zero i s = s
rep_stosl eax (suc ecx) i s = rep_stosl eax ecx (i + 4) (store_dword eax i s)

rep_stosw : ℕ → ℕ → ℕ → Buf → Buf
rep_stosw eax zero i s = s
rep_stosw eax (suc ecx) i s = rep_stosw eax ecx (i + 2) (store_word eax i s)

-- `.memset_bottom`.
memset_bottom : ℕ → ℕ → ℕ → Buf → Buf
memset_bottom eax zero i s = s
memset_bottom eax (suc edx) i s = memset_bottom eax edx (i + 1) (upd s i (eax % 256))

memset_aligned : ℕ → ℕ → ℕ → Buf → Buf
unfolding rep_stosl memset_bottom
memset_aligned eax ecx i s =
    memset_bottom eax (ecx % 4) (i + 4 * (ecx / 4)) (rep_stosl eax (ecx / 4) i s)

memset_top : ℕ → ℕ → ℕ → ℕ → Buf → Buf
unfolding memset_aligned
memset_top eax zero edi i s = s
memset_top eax (suc ecx) edi i s =
    let next = memset_top eax ecx (edi + 1) (i + 1) (upd s i (eax % 256)) in
    if edi % 4 == 0 then memset_aligned eax (suc ecx) i s else next

-- `c << 24 | c << 16 | c << 8 | c`, on the lowest byte of `c`.
abbrev in_each_byte : ℕ → ℕ
in_each_byte c = c % 256 * 16777216 + c % 256 * 65536 + c % 256 * 256 + c % 256

unfoldable pub memset : ℕ → Buf → ℕ → ℕ → Buf
unfolding memset_top
memset edi s c n = memset_top (in_each_byte c) n edi 0 s

unfoldable pub memset_word : Buf → ℕ → ℕ → Buf
unfolding rep_stosw
memset_word s c n = rep_stosw c n 0 s

unfoldable pub memset_dword : Buf → ℕ → ℕ → Buf
unfolding rep_stosl
memset_dword s c n = rep_stosl c n 0 s

-- The byte of `eax` at place `k`.
abbrev byte_of : ℕ → ℕ → ℕ
byte_of eax k =
    if k == 0
    then eax % 256
    else if k == 1
    then eax / 256 % 256
    else if k == 2
    then eax / 65536 % 256
    else eax / 16777216 % 256

abbrev filled : ℕ → ℕ → Buf → Buf → Buf
filled i n f s j = if leb i j && ltb j (i + n) then f j else s j

rep_stosl_lem :
    (eax n i : ℕ) (s : Buf) (j : ℕ)
    → rep_stosl eax n i s j ≡ filled i (4 * n) (λ k. byte_of eax ((k + 3 * i) % 4)) s j
unfolding rep_stosl
rep_stosl_lem eax zero i s j = ground arith
rep_stosl_lem eax (suc n) i s j = rep_stosl_lem eax n (i + 4) (store_dword eax i s) j ∙ ground arith

rep_stosw_lem :
    (eax n i : ℕ) (s : Buf) (j : ℕ)
    → rep_stosw eax n i s j ≡ filled i (2 * n) (λ k. byte_of eax ((k + i) % 2)) s j
unfolding rep_stosw
rep_stosw_lem eax zero i s j = ground arith
rep_stosw_lem eax (suc n) i s j = rep_stosw_lem eax n (i + 2) (store_word eax i s) j ∙ ground arith

memset_bottom_lem :
    (eax n i : ℕ) (s : Buf) (j : ℕ) → memset_bottom eax n i s j ≡ filled i n (λ k. eax % 256) s j
unfolding memset_bottom
memset_bottom_lem eax zero i s j = ground arith
memset_bottom_lem eax (suc n) i s j =
    memset_bottom_lem eax n (i + 1) (upd s i (eax % 256)) j ∙ ground arith

-- Each place of the double word has the same byte.
in_each_byte-byte_of : (c k : ℕ) → byte_of (in_each_byte c) k ≡ c % 256
in_each_byte-byte_of c k = ground arith

memset_aligned_lem :
    (c n i : ℕ) (s : Buf) (j : ℕ)
    → memset_aligned (in_each_byte c) n i s j ≡ filled i n (λ k. c % 256) s j
unfolding memset_aligned
memset_aligned_lem c n i s j =
    let e : in_each_byte c % 256 ≡ c % 256 = omega arith in
    memset_bottom_lem (in_each_byte c) (n % 4) (i + 4 * (n / 4))
      (rep_stosl (in_each_byte c) (n / 4) i s) j
    ∙ ground (
      arith,
      e,
      rep_stosl_lem (in_each_byte c) (n / 4) i s j,
      in_each_byte-byte_of c ((j + 3 * i) % 4),
    )

memset_top_lem :
    (c n edi i : ℕ) (s : Buf) (j : ℕ)
    → memset_top (in_each_byte c) n edi i s j ≡ filled i n (λ k. c % 256) s j
unfolding memset_top
memset_top_lem c zero edi i s j = ground arith
memset_top_lem c (suc n) edi i s j =
    let e : in_each_byte c % 256 ≡ c % 256 = omega arith in
    ground (
      arith,
      e,
      memset_aligned_lem c (suc n) i s j,
      memset_top_lem c n (edi + 1) (i + 1) (upd s i (in_each_byte c % 256)) j,
    )

-- At every alignment, `memset` sets the first `n` bytes to the lowest byte of `c`; `memset_word` sets the
-- first `n` words to the lower two bytes, and `memset_dword` the first `n` double words to the four bytes,
-- lowest first. No other byte changes.
pub memset_lem :
    (edi : ℕ) (s : Buf) (c n j : ℕ)
    → (memset edi s c n j ≡ (if ltb j n then c % 256 else s j))
      × (memset_word s c n j
          ≡ (if ltb j (2 * n) then (if j % 2 == 0 then c % 256 else c / 256 % 256) else s j))
      × (memset_dword s c n j ≡ (
          if ltb j (4 * n)
          then c
            / (if j % 4 == 0
                then 1
                else if j % 4 == 1
                then 256
                else if j % 4 == 2
                then 65536
                else 16777216)
            % 256
          else s j))
unfolding memset memset_word memset_dword
memset_lem edi s c n j = (
  ground (arith, memset_top_lem c n edi 0 s j),
  ground (arith, rep_stosw_lem c n 0 s j),
  ground (arith, rep_stosl_lem c n 0 s j),
)
