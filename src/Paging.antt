-- ===== src/Paging.antt =====
-- student-distrib/paging.c: the page directory and the two page tables, with the constants of
-- paging.h. The addresses of the tables are the linker's, and are fields of the state.
pub mod Walk
pub mod User
pub mod Init
pub mod Vidmap
use iaaa_os.Base.{
  ℕ, zero, suc, ◌+◌, ◌-◌, ◌*◌, ◌/◌, ◌%◌, ltb, ◌==◌, ◌||◌, not, if◌then◌else◌, Arr, upd, u32,
}
use iaaa_os.Terminals.{Terminals}

pub record PageEntry : Type 0 where
  pub present : ℕ
  pub r_w : ℕ
  pub u_s : ℕ
  pub pwt : ℕ
  pub pcd : ℕ
  pub accessed : ℕ
  pub avl_d : ℕ
  pub ps_pat : ℕ
  pub avl_g : ℕ
  pub avl : ℕ
  pub addr : ℕ

pub record Paging : Type 0 where
  pub page_tab : Arr PageEntry
  pub page_dir : Arr PageEntry
  pub vid_page_tab : Arr PageEntry
  pub page_tab_at : ℕ
  pub vid_page_tab_at : ℕ

abbrev pub page_array_size : ℕ
page_array_size = 1024

abbrev pub page_num_addrs : ℕ
page_num_addrs = 4096

abbrev pub tab_num_addrs : ℕ
tab_num_addrs = 0x400000

abbrev pub kernel_base : ℕ
kernel_base = 0x400000

abbrev pub user_base_virt : ℕ
user_base_virt = 0x8000000

abbrev pub user_base_virt_4mb : ℕ
user_base_virt_4mb = 0x8400000

abbrev pub user_base_virt_8mb : ℕ
user_base_virt_8mb = 0x8800000

abbrev pub vidmap_dir : ℕ
vidmap_dir = 34

abbrev pub shell_base_phys : ℕ
shell_base_phys = 0x800000

abbrev pub user_prog_6_base_phys : ℕ
user_prog_6_base_phys = 0x1C00000

abbrev pub video_base : ℕ
video_base = 0xB8000

-- What the three loops store before their tests.
abbrev pub unused_entry : PageEntry
unused_entry = record {
  present = 0;
  r_w = 1;
  u_s = 1;
  pwt = 0;
  pcd = 1;
  accessed = 0;
  avl_d = 0;
  ps_pat = 0;
  avl_g = 0;
  avl = 0;
  addr = 0;
}

abbrev pub video_entry : ℕ → PageEntry
video_entry base = record unused_entry { present = 1; u_s = 0; pcd = 0; addr = base / 4096 }

-- The tests of `paging_table_init`.
unfoldable pub table_entry : ℕ → PageEntry
table_entry curr_base =
    if curr_base == 0xB8000
    then video_entry 0xB8000
    else if curr_base == 0xB9000
    then video_entry 0xB9000
    else if curr_base == 0xBA000
    then video_entry 0xBA000
    else if curr_base == 0xBB000
    then video_entry 0xBB000
    else unused_entry

pub table_from : ℕ → ℕ → ℕ → Arr PageEntry → Arr PageEntry
table_from zero i curr_base tab = tab
table_from (suc rounds) i curr_base tab =
    table_from rounds (i + 1) (u32 (curr_base + page_num_addrs)) (upd tab i (table_entry curr_base))

unfoldable pub paging_table_init : Paging → Paging
paging_table_init p = record p { page_tab = table_from page_array_size 0 0 p.page_tab }

-- The tests of `paging_directory_init`; `page_tab_at` is the address of the table.
unfoldable pub directory_entry : ℕ → ℕ → PageEntry
directory_entry page_tab_at curr_base =
    if curr_base == 0
    then record unused_entry { u_s = 0; pcd = 0; addr = page_tab_at / 4096; present = 1 }
    else if curr_base == kernel_base
    then record unused_entry {
      u_s = 0;
      ps_pat = 1;
      avl_g = 1;
      addr = kernel_base / 4096 / 1024 * 1024 % 0x100000;
      present = 1;
    }
    else unused_entry

pub directory_from : ℕ → ℕ → ℕ → ℕ → Arr PageEntry → Arr PageEntry
directory_from zero at i curr_base dir = dir
directory_from (suc rounds) at i curr_base dir =
    directory_from rounds at (i + 1) (u32 (curr_base + tab_num_addrs))
      (upd dir i (directory_entry at curr_base))

unfoldable pub paging_directory_init : Paging → Paging
paging_directory_init p = record p {
  page_dir = directory_from page_array_size p.page_tab_at 0 0 p.page_dir;
}

-- `physical_address & 0xFFFFF` is the remainder by 2 ^ 20, and `& 0xFFC00` clears the lower ten of
-- twenty bits. A refused address leaves the mapping as it is; the
-- message that is printed then is left out.
unfoldable pub map_virt_user_to_physical : ℕ → Paging → Paging
map_virt_user_to_physical physical_address p =
    if not (physical_address % 0x100000 == 0)
      || ltb physical_address shell_base_phys
      || ltb user_prog_6_base_phys physical_address
    then p
    else record p {
      page_dir =
          upd p.page_dir (user_base_virt / tab_num_addrs)
            (record (p.page_dir (user_base_virt / tab_num_addrs)) {
              u_s = 1;
              ps_pat = 1;
              avl_g = 1;
              addr = physical_address / 4096 % 0x100000 / 1024 * 1024;
              present = 1;
            });
    }

pub vidmap_from : ℕ → ℕ → Arr PageEntry → Arr PageEntry
vidmap_from zero i tab = tab
vidmap_from (suc rounds) i tab = vidmap_from rounds (i + 1) (
    upd tab i (
      if i == 0
      then record unused_entry { u_s = 1; pcd = 0; addr = video_base / 4096; present = 1 }
      else unused_entry))

unfoldable pub map_user_vidmap : Paging → Paging
map_user_vidmap p = record p {
  vid_page_tab = vidmap_from page_array_size 0 p.vid_page_tab;
  page_dir = upd p.page_dir vidmap_dir (record (p.page_dir vidmap_dir) {
    u_s = 1;
    pcd = 0;
    ps_pat = 0;
    addr = p.vid_page_tab_at / 4096;
    present = 1;
  });
}

-- The page of the background of terminal `terminal_num`, or of the display for 0, behind the virtual
-- address of video memory.
unfoldable pub change_video_phys_addr : ℕ → Paging → Paging
change_video_phys_addr terminal_num p =
    let at = u32 (video_base + terminal_num * page_num_addrs) / 4096 in
    let v = video_base / page_num_addrs in
    record p {
      page_tab = upd p.page_tab v (record (p.page_tab v) { addr = at });
      vid_page_tab =
          if (p.vid_page_tab 0).present == 1
          then upd p.vid_page_tab 0 (record (p.vid_page_tab 0) { addr = at })
          else p.vid_page_tab;
    }
