-- ===== src/Syscalls/Guards.antt =====
-- What the system calls of `Syscalls` refuse and what they do else.
use iaaa_os.Base.{
  ℕ, refl, ◌≤◌, ◌<◌, ◌≡◌, ◌⊎◌, inl, inr, true, subst, leb, ◌==◌, ◌||◌, minus_one, arith, Buf, ltb,
  if◌then◌else◌, pos, some,
}
use iaaa_os.Str.{mem_size, strncpy}
use iaaa_os.Str.Copy.{padded, strncpy_lem}
use iaaa_os.Str.Length.{HasLength, strlen_lem}
use iaaa_os.Kernel.{Kernel}
use iaaa_os.Syscalls.{getargs}

-- For arguments that end in memory: if they are not empty and fit with their NUL into `nbytes`, the call returns
-- 0 and the buffer holds them, with NULs up to `nbytes`, and its old bytes from there on; otherwise the
-- call returns -1 and leaves the buffer as it is.
pub getargs_lem :
    (buf : Buf) (nbytes n : ℕ) (k : Kernel)
    → HasLength k.args n
    → n < mem_size
    → ((0 < n) × (n < nbytes)
        → (b : Buf) × (getargs buf nbytes k ≡ some (pos 0, b))
          × ((j : ℕ) → b j ≡ (if ltb j nbytes then padded k.args j else buf j)))
      × ((n ≡ 0) ⊎ (nbytes ≤ n) → getargs buf nbytes k ≡ some (minus_one, buf))
unfolding getargs
getargs_lem buf nbytes n k h m = (
  λ (p, q). (
    strncpy buf k.args nbytes,
    (let e = h.chars 0 p in rw (getargs, strlen_lem k.args n h m) (ground arith)),
    strncpy_lem buf k.args nbytes,
  ),
  λ c. rw (getargs, strlen_lem k.args n h m, refused c) refl,
)
  where
    empty : (x : ℕ) → x ≡ 0 → k.args x ≡ 0 → k.args 0 ≡ 0
    empty x e z = subst (λ x. k.args x ≡ 0) e z

    refused : (n ≡ 0) ⊎ (nbytes ≤ n) → (leb nbytes n || k.args 0 == 0) ≡ true
    refused (inl e) = let z = empty n e h.nul in ground arith
    refused (inr l) = ground arith
