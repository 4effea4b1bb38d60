-- ===== src/Base/Memory.antt =====
-- C memory: an object is the function from an offset to what is stored there. A pointer argument of
-- a C function is such a function, so different arguments are different objects; what lies beyond
-- the end of an array is whatever the function gives.
use Prim.Native.Nat.{ℕ, ◌+◌, ◌*◌}
use mathlib.Core.Path.{◌≡◌}
use mathlib.Core.Logic.{◌≢◌}
use native.Mathlib.Omega.{arith}
use iaaa_os.Base.Tests.{◌==◌, if◌then◌else◌}

abbrev pub Arr {ℓ} : Type ℓ → Type ℓ
Arr A = ℕ → A

-- Bytes.
abbrev pub Buf : Type 0
Buf = Arr ℕ

-- `a[i] = v`
abbrev pub upd {ℓ} : {A : Type ℓ} → Arr A → ℕ → A → Arr A
upd a i v j = if j == i then v else a j

-- The object that `p + k` points to.
abbrev pub shift : Buf → ℕ → Buf
shift b k i = b (k + i)

-- A little-endian uint32_t at an address.
unfoldable pub word : Buf → ℕ → ℕ
word m a = m a + 256 * m (a + 1) + 65536 * m (a + 2) + 16777216 * m (a + 3)

pub upd_self {ℓ} : {A : Type ℓ} (a : Arr A) (i : ℕ) (v : A) → upd a i v i ≡ v
upd_self a i v = ground arith

pub upd_ne {ℓ} : {A : Type ℓ} (a : Arr A) (i j : ℕ) (v : A) → j ≢ i → upd a i v j ≡ a j
upd_ne a i j v h = ground arith
