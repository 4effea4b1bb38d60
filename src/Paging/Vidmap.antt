-- ===== src/Paging/Vidmap.antt =====
-- The window to video memory that `map_user_vidmap` opens for user programs.
use iaaa_os.Base.{ℕ, zero, suc, ◌+◌, ◌/◌, ◌<◌, ◌≡◌, ◌≢◌, refl, ◌∙◌, arith, Arr, some}
use iaaa_os.Paging.{
  PageEntry, Paging, user_base_virt_8mb, video_base, page_num_addrs, vidmap_from, map_user_vidmap,
  unused_entry,
}
use iaaa_os.Paging.Walk.{walk}

vidmap_from-below :
    (rounds i j : ℕ) (tab : Arr PageEntry) → j < i → vidmap_from rounds i tab j ≡ tab j
unfolding vidmap_from
vidmap_from-below zero i j tab h = refl
vidmap_from-below (suc rounds) i j tab h =
    vidmap_from-below rounds (i + 1) j _ (omega arith) ∙ ground arith

vidmap_first :
    (rounds : ℕ) (tab : Arr PageEntry)
    → vidmap_from (suc rounds) 0 tab 0
      ≡ record unused_entry { u_s = 1; pcd = 0; addr = video_base / 4096; present = 1 }
unfolding vidmap_from
vidmap_first rounds tab = vidmap_from-below rounds 1 0 _ (omega arith) ∙ refl

-- The first page behind 136 MB is the page of the display, for user programs too.
pub map_user_vidmap-walk :
    (p : Paging) (offset : ℕ)
    → p.page_tab_at / 4096 ≢ p.vid_page_tab_at / 4096
    → offset < page_num_addrs
    → walk (map_user_vidmap p) (user_base_virt_8mb + offset)
      ≡ some (record { phys = video_base + offset; user = 1 })
unfolding map_user_vidmap walk
map_user_vidmap-walk p offset d h = let e = vidmap_first 1023 p.vid_page_tab in ground arith
