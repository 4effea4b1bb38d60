-- ===== src/Machine/Switch.antt =====
-- The change to the next terminal, on the kernel: the display, video memory and the page of the process.
use iaaa_os.Base.{
  ℕ, ◌+◌, ◌/◌, ◌≤◌, ◌≡◌, refl, sym, ap, subst, ◌∙◌, arith, true, false, ◌==◌, ◌&&◌, not,
  if◌then◌else◌, if_holds, Bool, pos,
}
use iaaa_os.Terminals.{Terminals}
use iaaa_os.Paging.{PageEntry, video_base, page_num_addrs}
use iaaa_os.Kernel.{Kernel, curr_pid}
use iaaa_os.System.{
  System, video_page, copy_paste_video_memory, terminals_of, remap, is_shown_next,
  save_restore_remap_video_mem,
}
use iaaa_os.Process.Safety.{
  IsTerminal, IsMild, IsMild-trans, IsKernelSafe, IsUserPage, own_page, user_dir, video_at,
  same_table,
}
use iaaa_os.Scheduler.{show_next, run_next}
use iaaa_os.Machine.Keys.{remapped, remapped-IsMild, remapped-video, if_ap}

-- The terminals once the next one runs, and is shown if it is to be.
abbrev pub handed : Terminals → Terminals
handed tm =
    record (if is_shown_next tm
      then record tm { terminal_on_display_curr = tm.terminal_on_display_next }
      else tm) { terminal_curr = tm.terminal_next }

abbrev is_hidden_next : Terminals → Bool
is_hidden_next tm =
    not (tm.terminal_next == tm.terminal_on_display_next)
    && not (tm.terminal_next == tm.terminal_on_display_curr)

-- `save_restore_remap_video_mem`, on the kernel's part of the state.
abbrev pub swapped : Kernel → Kernel
swapped k =
    let k0 = remapped 0 k in
    if is_hidden_next k.terminals then remapped k.terminals.terminal_next k0 else k0

pub swapped-IsMild : (k : Kernel) → IsMild k (swapped k)
swapped-IsMild k =
    let k0 = remapped 0 k in
    if_holds (IsMild k) (is_hidden_next k.terminals)
      (λ _.
        IsMild-trans k k0 (remapped k.terminals.terminal_next k0) (remapped-IsMild 0 k)
          (remapped-IsMild k.terminals.terminal_next k0))
      (λ _. remapped-IsMild 0 k)

-- The page is the one that the next terminal is to have.
own_page-handed :
    (tm : Terminals)
    → own_page (handed tm)
      ≡ (if is_hidden_next tm then video_at + tm.terminal_next else video_at + 0)
own_page-handed tm = ground arith

swapped-video :
    (k : Kernel)
    → k.terminals.terminal_next ≤ 3
    → ((swapped k).paging.page_tab video_at).addr ≡ own_page (handed k.terminals)
swapped-video k h =
    if_ap (λ (k' : Kernel). (k'.paging.page_tab video_at).addr) (is_hidden_next k.terminals) _ _
    ∙ if_both (is_hidden_next k.terminals)
        (remapped-video k.terminals.terminal_next (remapped 0 k) h)
        (remapped-video 0 k (omega arith))
    ∙ sym (own_page-handed k.terminals)
  where
    if_both :
        (b : Bool) {x y x' y' : ℕ} → x ≡ x' → y ≡ y' → (if b then x else y) ≡ (if b then x' else y')
    if_both true e e' = e
    if_both false e e' = e'

pub swapped-terminals :
    (k : Kernel) → (n : ℕ) × ((swapped k).terminals ≡ record k.terminals { terminal_type = n })
swapped-terminals k =
    if_holds (λ (k' : Kernel). (n : ℕ) × (k'.terminals ≡ record k.terminals { terminal_type = n }))
      (is_hidden_next k.terminals) (λ _. (k.terminals.terminal_next, refl)) (λ _. (0, refl))

-- `k'` is `k` with the next terminal running, and the display and video memory moved with it.
pub record IsHanded (k k' : Kernel) : Type 0 where
  running : k'.terminals.terminal_curr ≡ k.terminals.terminal_next
  shown : k'.terminals.terminal_on_display_curr ≡ (handed k.terminals).terminal_on_display_curr
  chosen : k'.terminals.terminal_on_display_next ≡ k.terminals.terminal_on_display_next
  pid_of : k'.pid_of ≡ k.pid_of
  pid_bitmap : k'.pid_bitmap ≡ k.pid_bitmap
  parent : (at : ℕ) → (k'.pcbs at).parent_id ≡ (k.pcbs at).parent_id
  video : (k'.paging.page_tab video_at).addr ≡ own_page (handed k.terminals)

handed-shown :
    (tm : Terminals)
    → IsTerminal tm.terminal_on_display_curr
    → IsTerminal tm.terminal_on_display_next
    → IsTerminal (handed tm).terminal_on_display_curr
handed-shown tm v w =
    if_holds (λ (t : Terminals). IsTerminal t.terminal_on_display_curr) (is_shown_next tm) (λ _. w)
      (λ _. v)

handed-chosen :
    (tm : Terminals) → (handed tm).terminal_on_display_next ≡ tm.terminal_on_display_next
handed-chosen tm =
    if_holds (λ (t : Terminals). t.terminal_on_display_next ≡ tm.terminal_on_display_next)
      (is_shown_next tm) (λ _. refl) (λ _. refl)

handed-type :
    (tm : Terminals) (n : ℕ)
    → (handed (record tm { terminal_type = n })).terminal_on_display_curr
      ≡ (handed tm).terminal_on_display_curr
handed-type tm n = same (is_shown_next tm)
  where
    same :
        (b : Bool)
        → Terminals.terminal_on_display_curr (
            if b
            then record tm {
              terminal_type = n;
              terminal_on_display_curr = tm.terminal_on_display_next;
            }
            else record tm { terminal_type = n })
          ≡ Terminals.terminal_on_display_curr (
              if b
              then record tm { terminal_on_display_curr = tm.terminal_on_display_next }
              else tm)
    same true = refl
    same false = refl

pub IsHanded-IsKernelSafe :
    (k k' : Kernel)
    → IsHanded k k'
    → IsTerminal k.terminals.terminal_next
    → ((p : ℕ) → curr_pid k' ≡ pos p → IsUserPage (k'.paging.page_dir user_dir) p)
    → IsKernelSafe k
    → IsKernelSafe k'
IsHanded-IsKernelSafe k k' h next mapped v = record {
  consistent = same_table k k' h.pid_of h.pid_bitmap h.parent v.consistent;
  running = subst IsTerminal (sym h.running) next;
  shown = subst IsTerminal (sym h.shown) (handed-shown k.terminals v.shown v.chosen);
  chosen = subst IsTerminal (sym h.chosen) v.chosen;
  mapped = mapped;
  video = h.video ∙ rw (h.running, h.shown) refl;
}

pub show-kernel :
    (x y : ℕ) (s : System)
    → (run_next (show_next x y s)).kernel
      ≡ record s.kernel { terminals = handed s.kernel.terminals }
unfolding show_next
show-kernel x y s =
    if_holds
      (λ (s' : System).
        (run_next s').kernel ≡ record s.kernel { terminals = handed s.kernel.terminals })
      (is_shown_next (terminals_of s)) (λ e. rw e refl) (λ e. rw e refl)

pub save_restore-kernel : (s : System) → (save_restore_remap_video_mem s).kernel ≡ swapped s.kernel
unfolding save_restore_remap_video_mem remap
save_restore-kernel s =
    let tm = s.kernel.terminals in
    let s1 = remap 0 s in
    let at = video_base / page_num_addrs in
    let s2 =
      if is_shown_next tm
      then record s1 {
        screen =
            copy_paste_video_memory (video_page s1) (at + tm.terminal_on_display_next) (
              copy_paste_video_memory (at + tm.terminal_on_display_curr) (video_page s1) s1.screen);
      }
      else s1 in
    let same : s2.kernel ≡ s1.kernel =
      if_holds (λ (s' : System). s'.kernel ≡ s1.kernel) (is_shown_next tm) (λ _. refl)
        (λ _. refl) in
    if_ap (λ (s' : System). s'.kernel) (is_hidden_next tm) _ _
    ∙ ap (λ (k : Kernel). if is_hidden_next tm then remapped tm.terminal_next k else k) same

-- The next terminal runs, with a page directory that may be another.
pub handed-IsHanded :
    (k k1 : Kernel)
    → k1.terminals ≡ (swapped k).terminals
    → k1.paging.page_tab ≡ (swapped k).paging.page_tab
    → k1.pid_of ≡ k.pid_of
    → k1.pid_bitmap ≡ k.pid_bitmap
    → ((at : ℕ) → (k1.pcbs at).parent_id ≡ (k.pcbs at).parent_id)
    → k.terminals.terminal_next ≤ 3
    → IsHanded k (record k1 { terminals = handed k1.terminals })
handed-IsHanded k k1 t g pid owner pcbs h =
    let (n, e) = swapped-terminals k in
    let e' = t ∙ e in
    record {
      running = ap (λ (tm : Terminals). tm.terminal_next) e';
      shown =
          ap (λ (tm : Terminals). (handed tm).terminal_on_display_curr) e'
          ∙ handed-type k.terminals n;
      chosen = handed-chosen k1.terminals ∙ ap (λ (tm : Terminals). tm.terminal_on_display_next) e';
      pid_of = pid;
      pid_bitmap = owner;
      parent = pcbs;
      video = ap (λ f. PageEntry.addr (f video_at)) g ∙ swapped-video k h;
    }
