-- ===== src/Machine/Refuse.antt =====
-- A tick of the timer that may not start a shell, since six processes run.
use iaaa_os.Base.{◌≡◌, refl, sym, subst, ◌∙◌, true, false, ◌==◌, if◌then◌else◌, if_holds, Bool}
use iaaa_os.Terminals.{Terminals}
use iaaa_os.System.{System, shown, remap}
use iaaa_os.Process.Safety.{IsTerminal, IsMild-IsKernelSafe, IsKernelSafe}
use iaaa_os.Scheduler.{report_full, refuse}
use iaaa_os.Machine.Keys.{remapped, hidden-IsKernelSafe}

-- The message changes no more than the page of video memory, which it gives back.
-- The state that the message is written in.
abbrev reported_on : System → System
reported_on s =
    let tm = s.kernel.terminals in
    if (if tm.terminal_curr == tm.terminal_on_display_curr then false else true)
    then remap 0 s
    else s

report_full-IsKernelSafe :
    (s : System) → IsKernelSafe s.kernel → IsKernelSafe (report_full s).kernel
unfolding report_full remap
report_full-IsKernelSafe s v =
    let P : System → Type 0 = λ s'. IsKernelSafe s'.kernel in
    let tm = s.kernel.terminals in
    let is_hidden = if tm.terminal_curr == tm.terminal_on_display_curr then false else true in
    if_holds P (s.keyboard.terminal_read_flag (shown s) == 1)
      (λ _.
        if_holds P is_hidden
          (λ h.
            subst (λ k. IsKernelSafe (remapped tm.terminal_curr k)) (hidden_first h)
              (hidden-IsKernelSafe s.kernel (hidden _ h) v))
          (λ h. subst IsKernelSafe (shown_first h) v))
      (λ _. v)
  where
    hidden : (b : Bool) → (if b then false else true) ≡ true → b ≡ false
    hidden true e = sym e
    hidden false e = refl

    hidden_first :
        (if s.kernel.terminals.terminal_curr == s.kernel.terminals.terminal_on_display_curr
            then false
            else true)
          ≡ true
        → remapped 0 s.kernel ≡ (reported_on s).kernel
    hidden_first h = rw h refl

    shown_first :
        (if s.kernel.terminals.terminal_curr == s.kernel.terminals.terminal_on_display_curr
            then false
            else true)
          ≡ false
        → s.kernel ≡ (reported_on s).kernel
    shown_first h = rw h refl

abbrev reopened : Terminals → Terminals
reopened tm =
    if tm.terminal_next == 2
    then record tm { terminal_2_active = 0 }
    else if tm.terminal_next == 3
    then record tm { terminal_3_active = 0 }
    else tm

reopened-frame :
    (tm : Terminals)
    → ((reopened tm).terminal_curr ≡ tm.terminal_curr)
      × ((reopened tm).terminal_on_display_curr ≡ tm.terminal_on_display_curr)
reopened-frame tm =
    let P : Terminals → Type 0 = λ tm'.
      (tm'.terminal_curr ≡ tm.terminal_curr)
      × (tm'.terminal_on_display_curr ≡ tm.terminal_on_display_curr) in
    if_holds P (tm.terminal_next == 2) (λ _. (refl, refl))
      (λ _. if_holds P (tm.terminal_next == 3) (λ _. (refl, refl)) (λ _. (refl, refl)))

pub refuse-IsKernelSafe : (s : System) → IsKernelSafe s.kernel → IsKernelSafe (refuse s).kernel
unfolding refuse
refuse-IsKernelSafe s v =
    let k = (report_full s).kernel in
    let w = report_full-IsKernelSafe s v in
    let (curr, display) = reopened-frame k.terminals in
    IsMild-IsKernelSafe k (refuse s).kernel
      (record {
        running = curr;
        pid_of = refl;
        pid_bitmap = refl;
        parent = λ at. refl;
        page = refl;
      })
      (subst IsTerminal (sym display) w.shown) (subst IsTerminal (sym display) w.shown)
      (w.video ∙ rw (curr, display) refl) w
