-- ===== src/Paging/Walk.antt =====
-- The translation of addresses by the processor (a page walk with page size extension), as the
-- meaning of the tables of paging.c.
use iaaa_os.Base.{ℕ, ◌+◌, ◌*◌, ◌/◌, ◌%◌, ◌==◌, Option, none, some, if◌then◌else◌}
use iaaa_os.Paging.{PageEntry, Paging, tab_num_addrs, page_num_addrs}

-- The physical address, and whether a user program may use it.
pub record Target : Type 0 where
  pub phys : ℕ
  pub user : ℕ

-- A directory entry that is no large page points to one of the two tables by its address.
unfoldable pub walk_table : Paging → PageEntry → ℕ → Option Target
walk_table p e v =
    let t =
      if e.addr == p.page_tab_at / 4096
      then p.page_tab (v / page_num_addrs % 1024)
      else p.vid_page_tab (v / page_num_addrs % 1024) in
    if t.present == 0
    then none
    else some (record { phys = t.addr * 4096 + v % 4096; user = e.u_s * t.u_s })

unfoldable pub walk_entry : Paging → PageEntry → ℕ → Option Target
unfolding walk_table
walk_entry p e v =
    if e.present == 0
    then none
    else if e.ps_pat == 1
    then some (record { phys = e.addr / 1024 * tab_num_addrs + v % tab_num_addrs; user = e.u_s })
    else walk_table p e v

unfoldable pub walk : Paging → ℕ → Option Target
unfolding walk_entry
walk p v = walk_entry p (p.page_dir (v / tab_num_addrs)) v
