-- ===== src/Machine/Tick.antt =====
-- A tick of the timer, on the kernel, with each branch of `pit_handler`.
use iaaa_os.Base.{
  ℕ, ◌-◌, ◌<◌, ◌≡◌, ◌≢◌, refl, sym, ap, subst, ◌∙◌, arith, true, false, ◌==◌, if_holds, Buf, ℤ, pos,
  negsuc, minus_one, inl, inr, Option, none, some,
}
use iaaa_os.Terminals.{Terminals}
use iaaa_os.Paging.{map_virt_user_to_physical}
use iaaa_os.Paging.User.{process_base}
use iaaa_os.Kernel.{Kernel, curr_pcb, get_pcb_process, get_kernel_stack_bottom_next}
use iaaa_os.System.{System, terminals_of, save_restore_remap_video_mem, eoi, set_terminals}
use iaaa_os.Process.{ExecResult, execute, shell_name}
use iaaa_os.Process.Table.{ProcessTable, RunsOwn, table}
use iaaa_os.Process.Spawn.{pos-injective, pos-distinct}
use iaaa_os.Process.Refine.{set-parent-kept}
use iaaa_os.Process.Safety.{
  IsTerminal, IsQuiet, IsQuiet-parts, IsQuiet-IsKernelSafe, IsMild-IsKernelSafe, IsKernelSafe,
  IsUserPage, Outcome, user_dir, map_virt-IsUserPage, map_virt-page_tab,
}
use iaaa_os.Process.Calls.{execute-IsKernelSafe}
use iaaa_os.Scheduler.{
  PitEnd, stayed, started, switched, user_halted, set_terminal_next, save_context, show_next,
  run_next, start_shell, resume_next, next_base, is_idle, is_full, switch_terminal, pit_handler,
}
use iaaa_os.Machine.Switch.{
  swapped-IsMild, save_restore-kernel, show-kernel, handed, swapped, handed-IsHanded,
  IsHanded-IsKernelSafe, swapped-terminals,
}
use iaaa_os.Machine.Refuse.{refuse-IsKernelSafe}

pub save_context-IsQuiet :
    (ebp esp : ℕ) (s : System) → IsQuiet s.kernel (save_context ebp esp s).kernel
unfolding save_context
save_context-IsQuiet ebp esp s =
    let k = s.kernel in
    IsQuiet-parts k (save_context ebp esp s).kernel refl refl refl
      (λ at.
        set-parent-kept (get_pcb_process k)
          (record (curr_pcb k) { schedule_ebp = ebp; schedule_esp = esp }) k at refl)
      refl

-- The state that a tick leaves, however it ends.
abbrev pub ended : PitEnd → System
ended (stayed s) = s
ended (started r s) = s
ended (switched esp ebp s) = s
ended (user_halted esp ebp s) = s

abbrev handed_kernel : Kernel → Kernel
handed_kernel k = record k { terminals = handed k.terminals }

abbrev paged : ℕ → Kernel → Kernel
paged base k = record k { paging = map_virt_user_to_physical base k.paging }

abbrev base_next : Kernel → ℕ
base_next k = next_base (k.pid_of k.terminals.terminal_next)

abbrev stacked : Kernel → Kernel
stacked k = record k { esp0 = get_kernel_stack_bottom_next k }

resume_next-kernel :
    (s : System)
    → (ended (resume_next s)).kernel
      ≡ handed_kernel (paged (base_next s.kernel) (swapped (stacked s.kernel)))
unfolding resume_next
resume_next-kernel s =
    let s0 = with_stack s in
    let s1 = save_restore_remap_video_mem s0 in
    let s2 = record s1 { kernel = paged (base_next s.kernel) s1.kernel } in
    let next = (terminals_of s).terminal_on_display_next in
    let x = s2.screen.screen_x next in
    let y = s2.screen.screen_y next in
    let s3 = eoi 0 (run_next (show_next x y s2)) in
    let e =
      show-kernel x y s2
      ∙ ap (λ (k : Kernel). handed_kernel (paged (base_next s.kernel) k))
          (save_restore-kernel s0) in
    if_holds
      (λ (r : PitEnd).
        (ended r).kernel ≡ handed_kernel (paged (base_next s.kernel) (swapped (stacked s.kernel))))
      (s3.keyboard.kb_exit_flag ((terminals_of s).terminal_next - 1) == 1) (λ _. e) (λ _. e)
  where
    with_stack : System → System
    with_stack s = record s { kernel = stacked s.kernel }

resume_next-IsKernelSafe :
    (s : System) (p : ℕ)
    → s.kernel.pid_of s.kernel.terminals.terminal_next ≡ pos p
    → p < 6
    → IsTerminal s.kernel.terminals.terminal_next
    → IsKernelSafe s.kernel
    → IsKernelSafe (ended (resume_next s)).kernel
resume_next-IsKernelSafe s p e small next v =
    let k = s.kernel in
    let k0 = swapped (stacked k) in
    let k1 = paged (base_next k) k0 in
    let q = swapped-IsMild (stacked k) in
    let (n, t) = swapped-terminals (stacked k) in
    let base : base_next k ≡ process_base p = ap next_base e ∙ ground arith in
    subst IsKernelSafe (sym (resume_next-kernel s)) (
      IsHanded-IsKernelSafe (stacked k) (handed_kernel k1)
        (handed-IsHanded (stacked k) k1 refl (map_virt-page_tab (base_next k) k0.paging) q.pid_of
          q.pid_bitmap q.parent next.high)
        next
        (λ p' e'.
          let runs =
            ap (λ f. f k.terminals.terminal_next) (sym q.pid_of)
            ∙ ap (λ (tm : Terminals). k1.pid_of tm.terminal_next) (sym t)
            ∙ e' in
          subst (λ b. IsUserPage ((map_virt_user_to_physical b k0.paging).page_dir user_dir) p')
            (sym base)
            (subst
              (λ r.
                IsUserPage
                  ((map_virt_user_to_physical (process_base p) k0.paging).page_dir user_dir) r)
              (pos-injective p p' (sym e ∙ runs)) (map_virt-IsUserPage k0.paging p small)))
        (IsQuiet-IsKernelSafe k (stacked k)
          (IsQuiet-parts k (stacked k) refl refl refl (λ at. refl) refl) v))

idle-minus_one : (z : ℤ) → is_idle z ≡ true → z ≡ minus_one
idle-minus_one (pos n) e = cc
idle-minus_one (negsuc n) e = ap negsuc (ground arith)

busy-pos :
    (s : ProcessTable) (t : ℕ)
    → RunsOwn s t
    → is_idle (s.running t) ≡ false
    → (p : ℕ) × (s.running t ≡ pos p) × (p < 6)
busy-pos s t (inl idle) e = absurd (true_false (sym (ap is_idle idle) ∙ e))
  where
    true_false : true ≢ false
    true_false e = cc
busy-pos s t (inr (p, e', b, own)) e = (p, e', b)

abbrev pub Tick : Option PitEnd → Type 0
Tick none = Unit {0}
Tick (some e) = IsKernelSafe (ended e).kernel

start_shell-IsKernelSafe :
    (behind : Buf) (ebp esp : ℕ) (s : System)
    → s.kernel.pid_of s.kernel.terminals.terminal_next ≡ minus_one
    → IsTerminal s.kernel.terminals.terminal_next
    → IsKernelSafe s.kernel
    → Tick (start_shell behind ebp esp s)
unfolding start_shell
start_shell-IsKernelSafe behind ebp esp s idle next v =
    let k = s.kernel in
    let s1 = eoi 0 (run_next (show_next 0 0 (save_restore_remap_video_mem s))) in
    let q = swapped-IsMild k in
    let (n, t) = swapped-terminals k in
    let k1 = handed_kernel (swapped k) in
    let e : s1.kernel ≡ k1 =
      show-kernel 0 0 (save_restore_remap_video_mem s) ∙ ap handed_kernel (save_restore-kernel s) in
    let safe : IsKernelSafe k1 =
      IsHanded-IsKernelSafe k k1
        (handed-IsHanded k (swapped k) refl refl q.pid_of q.pid_bitmap q.parent next.high) next
        (λ p e'. absurd (
          pos-distinct p (
            sym idle
            ∙ ap (λ f. f k.terminals.terminal_next) (sym q.pid_of)
            ∙ ap (λ (tm : Terminals). k1.pid_of tm.terminal_next) (sym t)
            ∙ e')))
        v in
    shell_call s1 (execute (some shell_name) behind ebp esp s1.kernel) (
      execute-IsKernelSafe (some shell_name) behind ebp esp s1.kernel
        (subst IsKernelSafe (sym e) safe))
  where
    shell_call :
        (s1 : System) (m : Option (ExecResult × Kernel))
        → Outcome IsKernelSafe m
        → Tick
            (elim m [ none ↦ none | some (r, k') ↦ some (started r (record s1 { kernel = k' })) ])
    shell_call s1 none u = tt
    shell_call s1 (some (r, k')) u = u

set_terminal_next-frame :
    (tm : Terminals)
    → IsTerminal tm.terminal_curr
    → let tm' = set_terminal_next tm in
      IsTerminal tm'.terminal_next
      × (tm'.terminal_curr ≡ tm.terminal_curr)
      × (tm'.terminal_on_display_curr ≡ tm.terminal_on_display_curr)
      × (tm'.terminal_on_display_next ≡ tm.terminal_on_display_next)
unfolding set_terminal_next
set_terminal_next-frame tm v = (
  record { low = ground (arith, v.low, v.high); high = ground (arith, v.low, v.high) },
  ground arith,
  ground arith,
  ground arith,
)

set_terminal_next-IsKernelSafe :
    (k : Kernel)
    → IsKernelSafe k
    → IsKernelSafe (record k { terminals = set_terminal_next k.terminals })
set_terminal_next-IsKernelSafe k v =
    let (next, curr, display, chosen) = set_terminal_next-frame k.terminals v.running in
    IsMild-IsKernelSafe k (record k { terminals = set_terminal_next k.terminals })
      (record {
        running = curr;
        pid_of = refl;
        pid_bitmap = refl;
        parent = λ at. refl;
        page = refl;
      })
      (subst IsTerminal (sym display) v.shown) (subst IsTerminal (sym chosen) v.chosen)
      (v.video ∙ rw (curr, display) refl) v

switch_terminal-IsKernelSafe :
    (ebp esp : ℕ) (behind : Buf) (ebp' esp' : ℕ) (s : System)
    → IsTerminal s.kernel.terminals.terminal_next
    → IsKernelSafe s.kernel
    → Tick (switch_terminal ebp esp behind ebp' esp' s)
unfolding switch_terminal save_context
switch_terminal-IsKernelSafe ebp esp behind ebp' esp' s next v =
    let s1 = save_context ebp esp s in
    let w = IsQuiet-IsKernelSafe s.kernel s1.kernel (save_context-IsQuiet ebp esp s) v in
    let t = s1.kernel.terminals.terminal_next in
    if_holds Tick (is_idle (s1.kernel.pid_of t))
      (λ e.
        if_holds Tick (is_full (s1.kernel.pid_of 0)) (λ _. refuse-IsKernelSafe s1 w)
          (λ _. start_shell-IsKernelSafe behind ebp' esp' s1 (idle-minus_one _ e) next w))
      (λ e.
        let (p, runs, small) =
          busy-pos (table s1.kernel) t (w.consistent.runs t next.low next.high) e in
        resume_next-IsKernelSafe s1 p runs small next w)

-- After a tick of the timer, however it ends.
pub pit_handler-IsKernelSafe :
    (ebp esp : ℕ) (behind : Buf) (ebp' esp' : ℕ) (s : System)
    → IsKernelSafe s.kernel
    → Tick (pit_handler ebp esp behind ebp' esp' s)
unfolding pit_handler
pit_handler-IsKernelSafe ebp esp behind ebp' esp' s v =
    let s1 = set_terminals (set_terminal_next (terminals_of s)) s in
    let tm = terminals_of s1 in
    let w = set_terminal_next-IsKernelSafe s.kernel v in
    if_holds Tick (tm.terminal_next == tm.terminal_curr) (λ _. w)
      (λ _.
        switch_terminal-IsKernelSafe ebp esp behind ebp' esp' s1
          (set_terminal_next-frame (terminals_of s) v.running).0 w)
