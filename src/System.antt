-- ===== src/System.antt =====
-- The state that interrupt handlers reach: the kernel's, with the keyboard, the screen and the
-- interrupt controllers; and the functions of student-distrib/paging.c and student-distrib/lib.c that
-- change several of these parts.
pub mod Print
use iaaa_os.Base.{ℕ, zero, suc, ◌+◌, ◌-◌, ◌*◌, ◌/◌, Bool, ◌==◌, ◌&&◌, not, if◌then◌else◌, Buf, upd}
use iaaa_os.Terminals.{Terminals}
use iaaa_os.Paging.{video_base, page_num_addrs, change_video_phys_addr}
use iaaa_os.Kernel.{Kernel}
use iaaa_os.Screen.{Screen, cells}
use iaaa_os.Keyboard.{Keyboard}
use iaaa_os.Pic.{Pic, send_eoi}

pub record System : Type 0 where
  pub kernel : Kernel
  pub keyboard : Keyboard
  pub screen : Screen
  pub pic : Pic

abbrev pub terminals_of : System → Terminals
terminals_of s = s.kernel.terminals

abbrev pub set_terminals : Terminals → System → System
set_terminals tm s = record s { kernel = record s.kernel { terminals = tm } }

-- The index of the displayed terminal in the keyboard's arrays.
abbrev pub shown : System → ℕ
shown s = (terminals_of s).terminal_on_display_curr - 1

-- The physical page behind the virtual address of video memory.
abbrev pub video_page : System → ℕ
video_page s = (s.kernel.paging.page_tab (video_base / page_num_addrs)).addr

-- `change_video_phys_addr`, with the index of the cursor in use.
unfoldable pub remap : ℕ → System → System
remap n s = record s {
  kernel = record s.kernel {
    paging = change_video_phys_addr n s.kernel.paging;
    terminals = record s.kernel.terminals { terminal_type = n };
  };
}

-- A function of the console, on the page and the terminals as they are.
abbrev pub on_screen : (Terminals → ℕ → Screen → Screen) → System → System
on_screen f s = record s { screen = f (terminals_of s) (video_page s) s.screen }

abbrev pub on_keyboard : (ℕ → Keyboard → Keyboard) → System → System
on_keyboard f s = record s { keyboard = f (shown s) s.keyboard }

abbrev pub eoi : ℕ → System → System
eoi irq s = record s { pic = send_eoi irq s.pic }

-- The loop of `copy_paste_video_memory`, over the cells of the screen.
pub copy_from : ℕ → ℕ → Buf → Buf → Buf
copy_from zero i dest src = dest
copy_from (suc rounds) i dest src =
    copy_from rounds (i + 1) (upd (upd dest (2 * i) (src (2 * i))) (2 * i + 1) (src (2 * i + 1)))
      src

unfoldable pub copy_paste_video_memory : ℕ → ℕ → Screen → Screen
copy_paste_video_memory dest src s = record s {
  video = upd s.video dest (copy_from cells 0 (s.video dest) (s.video src));
}

-- The next terminal is to be shown, and is not shown now.
abbrev pub is_shown_next : Terminals → Bool
is_shown_next tm =
    tm.terminal_next == tm.terminal_on_display_next
    && not (tm.terminal_on_display_next == tm.terminal_on_display_curr)

-- Physical pages are those of the background of each terminal, mapped to themselves.
unfoldable pub save_restore_remap_video_mem : System → System
unfolding remap
save_restore_remap_video_mem s =
    let s1 = remap 0 s in
    let tm = terminals_of s1 in
    let page = video_base / page_num_addrs in
    let s2 =
      if is_shown_next tm
      then record s1 {
        screen = copy_paste_video_memory (video_page s1) (page + tm.terminal_on_display_next) (
            copy_paste_video_memory (page + tm.terminal_on_display_curr) (video_page s1) s1.screen);
      }
      else s1 in
    if not (tm.terminal_next == tm.terminal_on_display_next)
      && not (tm.terminal_next == tm.terminal_on_display_curr)
    then remap tm.terminal_next s2
    else s2
