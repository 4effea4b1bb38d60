-- ===== src/Scheduler.antt =====
-- The scheduler of student-distrib/pit_init.c. The registers EBP and ESP of the interrupted program are
-- arguments, and so are the values that `execute` takes (see `Process`).
pub mod Rotation
use iaaa_os.Base.{
  ℕ, zero, suc, ◌+◌, ◌-◌, ◌*◌, Bool, true, false, leb, ◌==◌, if◌then◌else◌, Buf, upd, List, [], ◌∷◌,
  ℤ, pos, negsuc, Option, none, some,
}
use iaaa_os.Terminals.{Terminals}
use iaaa_os.Paging.{shell_base_phys, tab_num_addrs, map_virt_user_to_physical}
use iaaa_os.Kernel.{
  Kernel, curr_pcb, set_pcb, get_pcb_process, get_pcb_process_next, get_kernel_stack_bottom_next,
}
use iaaa_os.Screen.{Screen, update_cursor, puts, add_newline_if_line_not_empty}
use iaaa_os.Process.{ExecResult, shell_name, execute}
use iaaa_os.System.{
  System, terminals_of, set_terminals, shown, remap, on_screen, on_keyboard, eoi, is_shown_next,
  save_restore_remap_video_mem,
}

-- A flag of 0 is a terminal that was never opened.
unfoldable pub set_terminal_next : Terminals → Terminals
set_terminal_next tm =
    if tm.terminal_curr == 1
    then (if tm.terminal_2_active == 0
        then record tm { terminal_next = if tm.terminal_3_active == 0 then 1 else 3 }
        else record tm { terminal_next = 2 })
    else if tm.terminal_curr == 2
    then record tm { terminal_next = if tm.terminal_3_active == 0 then 1 else 3 }
    else if tm.terminal_curr == 3
    then record tm { terminal_next = 1 }
    else tm

abbrev full_message : List ℕ
full_message =
    b'H' ∷ b'a' ∷ b's' ∷ b' ' ∷ b'6' ∷ b' ' ∷ b'p' ∷ b'r' ∷ b'o' ∷ b'c' ∷ b'e' ∷ b's' ∷ b's' ∷ b'e'
    ∷ b's' ∷ b' ' ∷ b'r' ∷ b'u' ∷ b'n' ∷ b'n' ∷ b'i' ∷ b'n' ∷ b'g' ∷ b' ' ∷ b'a' ∷ b'l' ∷ b'r'
    ∷ b'e' ∷ b'a' ∷ b'd' ∷ b'y' ∷ b',' ∷ b' ' ∷ b'c' ∷ b'a' ∷ b'n' ∷ 39 ∷ b't' ∷ b' ' ∷ b'c' ∷ b'u'
    ∷ b'r' ∷ b'r' ∷ b'e' ∷ b'n' ∷ b't' ∷ b'l' ∷ b'y' ∷ b' ' ∷ b'o' ∷ b'p' ∷ b'e' ∷ b'n' ∷ b' '
    ∷ b'u' ∷ b'p' ∷ b' ' ∷ b'a' ∷ b'n' ∷ b'o' ∷ b't' ∷ b'h' ∷ b'e' ∷ b'r' ∷ b' ' ∷ b's' ∷ b'h'
    ∷ b'e' ∷ b'l' ∷ b'l' ∷ 10 ∷ []

-- The handler returns to the interrupted program, runs a shell, goes on with the next process with
-- the registers ESP and EBP given, or calls `user_halt` there.
pub data PitEnd : Type 0 where
  stayed : System → PitEnd
  started : ExecResult → System → PitEnd
  switched : ℕ → ℕ → System → PitEnd
  user_halted : ℕ → ℕ → System → PitEnd

-- The cursor of the terminal that is no longer shown, and the registers of the running process.
unfoldable pub save_context : ℕ → ℕ → System → System
save_context ebp esp s =
    let tm = terminals_of s in
    let k = s.kernel in
    let shown_curr = tm.terminal_on_display_curr in
    record s {
      screen =
          if is_shown_next tm
          then record s.screen {
            screen_x = upd s.screen.screen_x shown_curr (s.screen.screen_x 0);
            screen_y = upd s.screen.screen_y shown_curr (s.screen.screen_y 0);
          }
          else s.screen;
      kernel =
          set_pcb (get_pcb_process k)
            (record (curr_pcb k) { schedule_ebp = ebp; schedule_esp = esp }) k;
    }

-- The message goes to the displayed page, if its terminal is read.
unfoldable pub report_full : System → System
report_full s =
    let tm = terminals_of s in
    let is_hidden = if tm.terminal_curr == tm.terminal_on_display_curr then false else true in
    let s1 = if is_hidden then remap 0 s else s in
    let s2 =
      on_screen
        (λ t page screen. puts t page full_message (add_newline_if_line_not_empty t page screen))
        s1 in
    if s.keyboard.terminal_read_flag (shown s) == 1
    then (if is_hidden then remap tm.terminal_curr s2 else s2)
    else s

-- There are six processes: the new terminal is closed again.
unfoldable pub refuse : System → System
refuse s =
    let s1 = report_full s in
    let tm = terminals_of s1 in
    let tm' =
      if tm.terminal_next == 2
      then record tm { terminal_2_active = 0 }
      else if tm.terminal_next == 3
      then record tm { terminal_3_active = 0 }
      else tm in
    eoi 0 (
      set_terminals
        (record tm' {
          terminal_on_display_next = tm'.terminal_on_display_curr;
          terminal_next = tm'.terminal_curr;
        })
        s1)

-- The display goes to the next terminal, with the cursor at `x`, `y`, if it is to be shown.
unfoldable pub show_next : ℕ → ℕ → System → System
show_next x y s =
    let tm = terminals_of s in
    if is_shown_next tm
    then set_terminals (record tm { terminal_on_display_curr = tm.terminal_on_display_next })
        (record s {
          screen = update_cursor tm x y (record s.screen {
            screen_x = upd s.screen.screen_x 0 x;
            screen_y = upd s.screen.screen_y 0 y;
          });
        })
    else s

abbrev pub run_next : System → System
run_next s =
    set_terminals (record (terminals_of s) { terminal_curr = (terminals_of s).terminal_next }) s

unfoldable pub start_shell : Buf → ℕ → ℕ → System → Option PitEnd
start_shell behind ebp esp s =
    let s1 = eoi 0 (run_next (show_next 0 0 (save_restore_remap_video_mem s))) in
    elim (execute (some shell_name) behind ebp esp s1.kernel) [
      | none ↦ none
      | some (r, k) ↦ some (started r (record s1 { kernel = k }))
    ]

-- A base below that of the first program is refused by `map_virt_user_to_physical`.
abbrev pub next_base : ℤ → ℕ
next_base (pos n) = shell_base_phys + n * tab_num_addrs
next_base (negsuc n) = shell_base_phys - suc n * tab_num_addrs

unfoldable pub resume_next : System → PitEnd
resume_next s =
    let tm = terminals_of s in
    let next = s.kernel.pcbs (get_pcb_process_next s.kernel) in
    let s1 =
      save_restore_remap_video_mem
        (record s { kernel = record s.kernel { esp0 = get_kernel_stack_bottom_next s.kernel } }) in
    let s2 = record s1 {
      kernel = record s1.kernel {
        paging =
            map_virt_user_to_physical (next_base (s.kernel.pid_of tm.terminal_next))
              s1.kernel.paging;
      };
    } in
    let shown_next = tm.terminal_on_display_next in
    let s3 =
      eoi 0
        (run_next (show_next (s2.screen.screen_x shown_next) (s2.screen.screen_y shown_next) s2)) in
    let i = tm.terminal_next - 1 in
    if s3.keyboard.kb_exit_flag i == 1
    then user_halted next.schedule_esp next.schedule_ebp (record s3 {
      keyboard = record s3.keyboard { kb_exit_flag = upd s3.keyboard.kb_exit_flag i 0 };
    })
    else switched next.schedule_esp next.schedule_ebp s3

-- `PID[terminal_next] == -1`, and `PID[0] >= 5`.
abbrev pub is_idle : ℤ → Bool
is_idle (pos n) = false
is_idle (negsuc n) = n == 0

abbrev pub is_full : ℤ → Bool
is_full (pos n) = leb 5 n
is_full (negsuc n) = false

unfoldable pub switch_terminal : ℕ → ℕ → Buf → ℕ → ℕ → System → Option PitEnd
switch_terminal ebp esp behind ebp' esp' s =
    let s1 = save_context ebp esp s in
    if is_idle (s1.kernel.pid_of (terminals_of s1).terminal_next)
    then (if is_full (s1.kernel.pid_of 0)
        then some (stayed (refuse s1))
        else start_shell behind ebp' esp' s1)
    else some (resume_next s1)

unfoldable pub pit_handler : ℕ → ℕ → Buf → ℕ → ℕ → System → Option PitEnd
pit_handler ebp esp behind ebp' esp' s =
    let s1 = set_terminals (set_terminal_next (terminals_of s)) s in
    let tm = terminals_of s1 in
    if tm.terminal_next == tm.terminal_curr
    then some (stayed (eoi 0 s1))
    else switch_terminal ebp esp behind ebp' esp' s1
