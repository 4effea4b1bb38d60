-- ===== src/Paging/User.antt =====
-- The page of the user program.
use iaaa_os.Base.{ℕ, ◌+◌, ◌*◌, ◌/◌, ◌%◌, ◌<◌, ◌≤◌, ◌≡◌, ◌≢◌, arith, some}
use iaaa_os.Paging.{
  Paging, map_virt_user_to_physical, shell_base_phys, user_base_virt, tab_num_addrs,
}
use iaaa_os.Paging.Walk.{walk}

-- The base that `execute` and `halt` compute for a process.
abbrev pub process_base : ℕ → ℕ
process_base pid = shell_base_phys + pid * tab_num_addrs

module _ (p : Paging) where
  -- An address that is a multiple of 1 MB but not of 4 MB passes the check of
  -- `map_virt_user_to_physical`, and the user page is then mapped to the 4 MB page that holds it.
  pub map_virt_user_to_physical_rounds :
      (mega : ℕ)
      → 8 ≤ mega
      → mega ≤ 28
      → mega % 4 ≢ 0
      → walk (map_virt_user_to_physical (mega * 0x100000) p) user_base_virt
        ≡ some (record { phys = mega / 4 * tab_num_addrs; user = 1 })
  unfolding map_virt_user_to_physical walk
  map_virt_user_to_physical_rounds mega lo hi odd = ground arith

-- The pages of different processes do not overlap.
pub process_base-disjoint :
    (pid pid' offset offset' : ℕ)
    → pid ≢ pid'
    → offset < tab_num_addrs
    → offset' < tab_num_addrs
    → process_base pid + offset ≢ process_base pid' + offset'
process_base-disjoint pid pid' offset offset' d h h' = omega arith
