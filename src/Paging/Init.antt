-- ===== src/Paging/Init.antt =====
-- The address space after the two `init` functions.
use iaaa_os.Base.{
  ℕ, zero, suc, ◌+◌, ◌*◌, ◌/◌, ◌%◌, ◌<◌, ◌≤◌, ◌≡◌, ◌∙◌, refl, arith, none, some, ltb, leb, ◌&&◌,
  ◌||◌, if◌then◌else◌, Arr, upd, u32,
}
use iaaa_os.Paging.{
  PageEntry, Paging, paging_table_init, paging_directory_init, table_from, table_entry,
  directory_from, directory_entry, page_array_size,
}
use iaaa_os.Paging.Walk.{walk}

table_from_lem :
    (rounds i j : ℕ) (tab : Arr PageEntry)
    → i + rounds ≤ page_array_size
    → table_from rounds i (i * 4096) tab j
      ≡ (if leb i j && ltb j (i + rounds) then table_entry (j * 4096) else tab j)
unfolding table_from
table_from_lem zero i j tab h = ground arith
table_from_lem (suc rounds) i j tab h =
    let e : u32 (i * 4096 + 4096) ≡ (i + 1) * 4096 = omega arith in
    rw e (
      table_from_lem rounds (i + 1) j (upd tab i (table_entry (i * 4096))) (omega arith)
      ∙ ground arith)

-- The last base wraps to 0, and is not used.
directory_from_lem :
    (rounds at i j : ℕ) (dir : Arr PageEntry)
    → i + rounds ≤ page_array_size
    → directory_from rounds at i (u32 (i * 0x400000)) dir j
      ≡ (if leb i j && ltb j (i + rounds) then directory_entry at (u32 (j * 0x400000)) else dir j)
unfolding directory_from
directory_from_lem zero at i j dir h = ground arith
directory_from_lem (suc rounds) at i j dir h =
    let e : u32 (u32 (i * 0x400000) + 0x400000) ≡ u32 ((i + 1) * 0x400000) = omega arith in
    rw e (
      directory_from_lem rounds at (i + 1) j (upd dir i (directory_entry at (u32 (i * 0x400000))))
        (omega arith)
      ∙ ground arith)

-- Both tables as the kernel sets them up.
pub paging_init : Paging → Paging
paging_init p = paging_directory_init (paging_table_init p)

pub page_tab-init :
    (p : Paging) (j : ℕ) → j < 1024 → (paging_init p).page_tab j ≡ table_entry (j * 4096)
unfolding paging_init paging_table_init paging_directory_init
page_tab-init p j h = ground (arith, table_from_lem 1024 0 j p.page_tab)

pub page_dir-init :
    (p : Paging) (j : ℕ)
    → j < 1024
    → (paging_init p).page_dir j ≡ directory_entry p.page_tab_at (u32 (j * 0x400000))
unfolding paging_init paging_table_init paging_directory_init
page_dir-init p j h = ground (arith, directory_from_lem 1024 p.page_tab_at 0 j p.page_dir)

pub page_tab_at-init : (p : Paging) → (paging_init p).page_tab_at ≡ p.page_tab_at
unfolding paging_init paging_table_init paging_directory_init
page_tab_at-init p = refl

-- After both `init` functions, of the 4 GB exactly the four pages of video memory and the kernel's
-- 4 MB page are mapped, each to its own address, and a user program may use none of them.
pub paging_init-walk :
    (p : Paging) (v : ℕ)
    → v < 0x100000000
    → walk (paging_init p) v ≡ (
        if (leb 0xB8000 v && ltb v 0xBC000) || (leb 0x400000 v && ltb v 0x800000)
        then some (record { phys = v; user = 0 })
        else none)
unfolding walk table_entry directory_entry
paging_init-walk p v h =
    ground
      (arith, page_dir-init p (v / 0x400000), page_tab-init p (v / 4096 % 1024), page_tab_at-init p)
