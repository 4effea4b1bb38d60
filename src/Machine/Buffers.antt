-- ===== src/Machine/Buffers.antt =====
-- The timer and the calls of a terminal, on the keyboard's buffers.
use iaaa_os.Base.{
  ℕ, zero, suc, ◌+◌, ◌-◌, ◌≡◌, refl, ◌∙◌, true, false, ◌==◌, ◌&&◌, not, if◌then◌else◌, if_holds,
  Buf, upd, Option, none, some,
}
use iaaa_os.Kernel.{Kernel, get_kernel_stack_bottom_next}
use iaaa_os.Keyboard.Buffer.{clear-IsBounded}
use iaaa_os.System.{
  System, terminals_of, shown, remap, is_shown_next, save_restore_remap_video_mem, eoi,
  set_terminals,
}
use iaaa_os.Paging.{map_virt_user_to_physical}
use iaaa_os.Handler.Typing.{IsSafe}
use iaaa_os.Process.{ExecResult, execute, shell_name}
use iaaa_os.Scheduler.{
  PitEnd, started, set_terminal_next, save_context, report_full, refuse, show_next, run_next,
  start_shell, resume_next, next_base, is_idle, is_full, switch_terminal, pit_handler,
}
use iaaa_os.Terminal.{write_from, read_begin, read_reset}
use iaaa_os.Machine.Tick.{ended}

save_restore-keyboard : (s : System) → (save_restore_remap_video_mem s).keyboard ≡ s.keyboard
unfolding save_restore_remap_video_mem remap
save_restore-keyboard s =
    let P : System → Type 0 = λ s'. s'.keyboard ≡ s.keyboard in
    let tm = s.kernel.terminals in
    let same = if_holds P (is_shown_next tm) (λ _. refl) (λ _. refl) in
    if_holds P
      (not (tm.terminal_next == tm.terminal_on_display_next)
        && not (tm.terminal_next == tm.terminal_on_display_curr))
      (λ _. same) (λ _. same)

show_next-keyboard : (x y : ℕ) (s : System) → (show_next x y s).keyboard ≡ s.keyboard
unfolding show_next
show_next-keyboard x y s =
    if_holds (λ (s' : System). s'.keyboard ≡ s.keyboard) (is_shown_next (terminals_of s))
      (λ _. refl) (λ _. refl)

report_full-keyboard : (s : System) → (report_full s).keyboard ≡ s.keyboard
unfolding report_full remap
report_full-keyboard s =
    let P : System → Type 0 = λ s'. s'.keyboard ≡ s.keyboard in
    let tm = s.kernel.terminals in
    let is_hidden = if tm.terminal_curr == tm.terminal_on_display_curr then false else true in
    let same = if_holds P is_hidden (λ _. refl) (λ _. refl) in
    if_holds P (s.keyboard.terminal_read_flag (shown s) == 1)
      (λ _. if_holds P is_hidden (λ _. same) (λ _. same)) (λ _. refl)

refuse-keyboard : (s : System) → (refuse s).keyboard ≡ s.keyboard
unfolding refuse
refuse-keyboard s = report_full-keyboard s

resume_next-IsSafe : (s : System) → IsSafe s → IsSafe (ended (resume_next s))
unfolding resume_next
resume_next-IsSafe s v =
    let k = record s.kernel { esp0 = get_kernel_stack_bottom_next s.kernel } in
    let s0 = record s { kernel = k } in
    let s1 = save_restore_remap_video_mem s0 in
    let next = (terminals_of s).terminal_next in
    let base = next_base (s.kernel.pid_of next) in
    let s2 = record s1 {
      kernel = record s1.kernel { paging = map_virt_user_to_physical base s1.kernel.paging };
    } in
    let at = (terminals_of s).terminal_on_display_next in
    let s3 = show_next (s2.screen.screen_x at) (s2.screen.screen_y at) s2 in
    let same : s3.keyboard ≡ s.keyboard = show_next-keyboard _ _ s2 ∙ save_restore-keyboard s0 in
    let w : IsSafe s3 = λ j. rw same (v j) in
    if_holds (λ (e : PitEnd). IsSafe (ended e)) (s3.keyboard.kb_exit_flag (next - 1) == 1)
      (λ _ j. record { ends = (w j).ends; count = (w j).count }) (λ _. w)

abbrev pub TickIsSafe : Option PitEnd → Type 0
TickIsSafe none = Unit {0}
TickIsSafe (some e) = IsSafe (ended e)

start_shell-IsSafe :
    (behind : Buf) (ebp esp : ℕ) (s : System) → IsSafe s → TickIsSafe (start_shell behind ebp esp s)
unfolding start_shell
start_shell-IsSafe behind ebp esp s v =
    let s1 = eoi 0 (run_next (show_next 0 0 (save_restore_remap_video_mem s))) in
    let same : s1.keyboard ≡ s.keyboard =
      show_next-keyboard 0 0 (save_restore_remap_video_mem s) ∙ save_restore-keyboard s in
    shell_call s1 (λ j. rw same (v j)) (execute (some shell_name) behind ebp esp s1.kernel)
  where
    shell_call :
        (s1 : System)
        → IsSafe s1
        → (m : Option (ExecResult × Kernel))
        → TickIsSafe
            (elim m [ none ↦ none | some (r, k) ↦ some (started r (record s1 { kernel = k })) ])
    shell_call s1 w none = tt
    shell_call s1 w (some (r, k)) = w

pub pit_handler-IsSafe :
    (ebp esp : ℕ) (behind : Buf) (ebp' esp' : ℕ) (s : System)
    → IsSafe s
    → TickIsSafe (pit_handler ebp esp behind ebp' esp' s)
unfolding pit_handler switch_terminal save_context
pit_handler-IsSafe ebp esp behind ebp' esp' s v =
    let s0 = set_terminals (set_terminal_next (terminals_of s)) s in
    let s1 = save_context ebp esp s0 in
    let tm = terminals_of s0 in
    if_holds TickIsSafe (tm.terminal_next == tm.terminal_curr) (λ _. v)
      (λ _.
        if_holds TickIsSafe (is_idle (s.kernel.pid_of tm.terminal_next))
          (λ _.
            if_holds TickIsSafe (is_full (s.kernel.pid_of 0)) (λ _ j. rw (refuse-keyboard s1) (v j))
              (λ _. start_shell-IsSafe behind ebp' esp' s1 v))
          (λ _. resume_next-IsSafe s1 v))

pub write_from-frame :
    (rounds i : ℕ) (buf : Buf) (s : System)
    → ((write_from rounds i buf s).keyboard ≡ s.keyboard)
      × ((write_from rounds i buf s).kernel ≡ s.kernel)
unfolding write_from
write_from-frame zero i buf s = (refl, refl)
write_from-frame (suc rounds) i buf s = write_from-frame rounds (i + 1) buf _

pub read_begin-IsSafe : (s : System) → IsSafe s → IsSafe (read_begin s)
unfolding read_begin
read_begin-IsSafe s v j = record { ends = (v j).ends; count = (v j).count }

pub read_reset-IsSafe : (s : System) → IsSafe s → IsSafe (read_reset s)
unfolding read_reset
read_reset-IsSafe s v j =
    let k0 = record s.keyboard {
      terminal_read_flag = upd s.keyboard.terminal_read_flag ((terminals_of s).terminal_curr - 1) 0;
    } in
    let w =
      clear-IsBounded 131 j (shown s) k0 (record { ends = (v j).ends; count = (v j).count }) in
    record { ends = w.ends; count = w.count }
