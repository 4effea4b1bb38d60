-- ===== src/FileSystem/Dentry.antt =====
-- The look-ups in the directory.
use native.Mathlib.Decide.{ℕ_discrete}
use native.Mathlib.Nat.{zero-add}
use iaaa_os.Base.{
  ℕ, zero, suc, ◌+◌, ◌≤◌, ◌<◌, ◌≡◌, ◌≢◌, ◌↔◌, refl, arith, false, if◌then◌else◌, Buf, none, some, ℤ,
  pos, is_zero, negsuc, List,
}
use iaaa_os.Str.{mem_size, strncpy, strncmp}
use iaaa_os.Str.Copy.{nul_below, strncpy_lem}
use iaaa_os.Str.Compare.{text, IsBytes, strncmp-text}
use iaaa_os.Str.Length.{HasLength, strlen_lem}
use iaaa_os.Memcpy.{memcpy, memcpy_lem}
use iaaa_os.FileSystem.{
  Fs, Lookup, fail, entry, dir_list, dentry_size, name_size, num_dir_entries, find_dentry,
  read_dentry_by_name, read_dentry_by_index,
}

-- A name as the directory holds it: up to 32 characters.
unfoldable pub name : Buf → List ℕ
name s = text name_size 0 s

-- `d` is the directory entry with index `i`.
abbrev pub IsEntry : Fs → ℕ → Buf → Type 0
IsEntry fs i d = (k : ℕ) → k < dentry_size → d k ≡ dir_list fs i k

-- The first entry from index `i` on with the name `t`, if there is one below `n`.
unfoldable pub FirstNamed : Fs → List ℕ → ℕ → ℕ → Lookup → Type 0
FirstNamed fs t i n fail = (j : ℕ) → i ≤ j → j < n → name (dir_list fs j) ≢ t
FirstNamed fs t i n (entry d) =
    (k : ℕ) × (i ≤ k)
    × (k < n)
    × (name (dir_list fs k) ≡ t)
    × ((j : ℕ) → i ≤ j → j < k → name (dir_list fs j) ≢ t)
    × IsEntry fs k d

strncmp-name :
    (s1 s2 : Buf)
    → IsBytes s1
    → IsBytes s2
    → (strncmp s1 s2 name_size ≡ pos 0) ↔ (name s1 ≡ name s2)
unfolding name
strncmp-name s1 s2 b1 b2 = strncmp-text s1 s2 name_size b1 b2

-- An index that is not `i` and not below it comes later.
first_or_later :
    (fs : Fs) (s : Buf) (i j n : ℕ)
    → name (dir_list fs i) ≢ name s
    → ((j : ℕ) → i + 1 ≤ j → j < n → name (dir_list fs j) ≢ name s)
    → i ≤ j
    → j < n
    → name (dir_list fs j) ≢ name s
first_or_later fs s i j n ne h lo hi = elim (ℕ_discrete j i) [
  | yes e ↦ rw e ne
  | no d ↦ h j (omega arith) hi
]

find_dentry_lem :
    (rounds i : ℕ) (fs : Fs) (s dir_entry : Buf)
    → ((j : ℕ) → IsBytes (dir_list fs j))
    → IsBytes s
    → FirstNamed fs (name s) i (i + rounds) (find_dentry rounds i fs s dir_entry)
unfolding find_dentry FirstNamed
find_dentry_lem zero i fs s dir_entry bm bs = λ j lo hi. absurd (omega arith)
find_dentry_lem (suc rounds) i fs s dir_entry bm bs =
    step (find_dentry rounds (i + 1) fs s dir_entry)
      (find_dentry_lem rounds (i + 1) fs s dir_entry bm bs) (strncmp (dir_list fs i) s name_size)
      (strncmp-name (dir_list fs i) s (bm i) bs)
  where
    later :
        (rest : Lookup)
        → FirstNamed fs (name s) (i + 1) (i + 1 + rounds) rest
        → name (dir_list fs i) ≢ name s
        → FirstNamed fs (name s) i (i + suc rounds) rest
    later fail h ne =
        λ j lo hi. first_or_later fs s i j (i + suc rounds) ne (λ k l u. h k l (omega arith)) lo hi
    later (entry d) (k, lo, hi, same, before, is) ne =
        (k, omega arith, omega arith, same, λ j l u. first_or_later fs s i j k ne before l u, is)

    step :
        (rest : Lookup)
        → FirstNamed fs (name s) (i + 1) (i + 1 + rounds) rest
        → (c : ℤ) → (c ≡ pos 0) ↔ (name (dir_list fs i) ≡ name s)
        → FirstNamed fs
            (name s)
            i
            (i + suc rounds)
            (if is_zero c then entry (memcpy 0 dir_entry (dir_list fs i) dentry_size) else rest)
    step rest h (pos zero) same = (
      i,
      omega arith,
      omega arith,
      same.0 refl,
      λ j lo hi. absurd (omega arith),
      λ k lt. ground (arith, memcpy_lem 0 dir_entry (dir_list fs i) dentry_size k),
    )
    step rest h (pos (suc n)) same = later rest h (λ e. cc (same.1 e))
    step rest h (negsuc n) same = later rest h (λ e. cc (same.1 e))

text_padded :
    (s : Buf) (n i size : ℕ)
    → nul_below s i ≡ false
    → i + n ≤ size
    → text n i (strncpy (λ _. 0) s size) ≡ text n i s
text_padded s zero i size h p = refl
text_padded s (suc n) i size h p =
    ground (arith, strncpy_lem (λ _. 0) s size i, text_padded s n (i + 1) size)

name-strncpy : (s : Buf) → name (strncpy (λ _. 0) s name_size) ≡ name s
unfolding name
name-strncpy s = text_padded s name_size 0 name_size refl (omega arith)

strncpy-IsBytes : (s : Buf) → IsBytes s → IsBytes (strncpy (λ _. 0) s name_size)
strncpy-IsBytes s b = λ i. ground (arith, strncpy_lem (λ _. 0) s name_size i, b i)

-- The names fit the address space.
small : (len : ℕ) → len ≤ name_size → len < mem_size
unfolding mem_size
small len h = omega arith

module _ (fs : Fs) (dir_entry : Buf) where
  -- For a terminated name of at most 32 characters, in a memory of bytes, `read_dentry_by_name`
  -- returns a copy of the first entry of the directory with that name, and -1 if there is none.
  pub read_dentry_by_name_lem :
      (fname : Buf) (len : ℕ)
      → HasLength fname len
      → len ≤ name_size
      → IsBytes fname
      → ((j : ℕ) → IsBytes (dir_list fs j))
      → (r : Lookup) × (read_dentry_by_name fs (some fname) dir_entry ≡ some r)
        × FirstNamed fs (name fname) 0 (num_dir_entries fs) r
  unfolding read_dentry_by_name
  read_dentry_by_name_lem fname len has short bf bm =
      let local_name = strncpy (λ _. 0) fname name_size in
      let r = find_dentry (num_dir_entries fs) 0 fs local_name dir_entry in
      let h =
        find_dentry_lem (num_dir_entries fs) 0 fs local_name dir_entry bm
          (strncpy-IsBytes fname bf) in
      (
        r,
        ground (arith, strlen_lem fname len has (small len short)),
        rw (name-strncpy fname, zero-add) at h,
      )

  -- `read_dentry_by_name` fails on NULL and on a terminated name of more than 32 characters.
  pub read_dentry_by_name_refuses :
      (fname : Buf) (len : ℕ)
      → HasLength fname len
      → name_size < len
      → len < mem_size
      → (read_dentry_by_name fs none dir_entry ≡ some fail)
        × (read_dentry_by_name fs (some fname) dir_entry ≡ some fail)
  unfolding read_dentry_by_name
  read_dentry_by_name_refuses fname len has long fits =
      (refl, ground (arith, strlen_lem fname len has fits))

  -- `read_dentry_by_index` succeeds exactly on an index of the directory, with a copy of the entry.
  pub read_dentry_by_index_lem :
      (index : ℕ)
      → (num_dir_entries fs ≤ index → read_dentry_by_index fs index dir_entry ≡ fail)
        × (index < num_dir_entries fs
            → (d : Buf) × (read_dentry_by_index fs index dir_entry ≡ entry d) × IsEntry fs index d)
  unfolding read_dentry_by_index
  read_dentry_by_index_lem index = (
    λ h. ground arith,
    λ h. (
      memcpy 0 dir_entry (dir_list fs index) dentry_size,
      ground arith,
      λ k lt. ground (arith, memcpy_lem 0 dir_entry (dir_list fs index) dentry_size k),
    ),
  )
