-- ===== src/Machine/Boot.antt =====
-- What is to hold of a state, and that it holds at boot.
use iaaa_os.Base.{ℕ, ◌<◌, ◌≡◌, ◌≢◌, refl, sym, ap, subst, ◌∙◌, arith, inl}
use iaaa_os.Terminals.{Terminals}
use iaaa_os.Paging.{Paging, PageEntry, table_entry}
use iaaa_os.Paging.Init.{page_tab-init}
use iaaa_os.System.{System}
use iaaa_os.Process.Table.{IsConsistent, table, used}
use iaaa_os.Process.Spawn.{pos-distinct}
use iaaa_os.Process.Safety.{IsTerminal, IsKernelSafe, own_page, video_at}
use iaaa_os.Handler.Typing.{IsSafe}
use iaaa_os.Machine.{IsBoot}

pub record IsSystemSafe (s : System) : Type 0 where
  pub kernel : IsKernelSafe s.kernel
  pub typed : IsSafe s

boot-none :
    (s : System) → IsBoot s → (p : ℕ) → p < 6 → (table s.kernel).owner p ≢ 0 → {A : Type 0} → A
boot-none s b p h d = absurd (d (b.pid_bitmap p h))

boot-used : (s : System) → IsBoot s → used s.kernel.pid_bitmap ≡ 0
boot-used s b =
    let free : (p : ℕ) → p < 6 → s.kernel.pid_bitmap p ≡ 0 = b.pid_bitmap in
    rw
      (
        free 0 (omega arith),
        free 1 (omega arith),
        free 2 (omega arith),
        free 3 (omega arith),
        free 4 (omega arith),
        free 5 (omega arith),
      )
      refl

boot-IsConsistent : (s : System) → IsBoot s → IsConsistent (table s.kernel)
boot-IsConsistent s b = record {
  counted = b.pid_of 0 (omega arith) ∙ sym (rw (boot-used s b) refl);
  terminals = λ p h. omega (arith, b.pid_bitmap p h);
  runs = λ t lo hi. inl (b.pid_of t (omega arith));
  parents = λ p h d. boot-none s b p h d;
  leaf = λ t p q lo hi e h d. boot-none s b p h d;
  single = λ p p' q h h' d d' e e'. boot-none s b p h d;
}

boot-video : (s : System) → IsBoot s → (s.kernel.paging.page_tab video_at).addr ≡ video_at
unfolding table_entry
boot-video s b =
    let (p, e) = b.paging in
    ap (λ (g : Paging). PageEntry.addr (g.page_tab video_at)) e
    ∙ ap (λ (d : PageEntry). d.addr) (page_tab-init p video_at (omega arith))

pub boot-IsSystemSafe : (s : System) → IsBoot s → IsSystemSafe s
boot-IsSystemSafe s b =
    let t = b.terminals in
    record {
      kernel = record {
        consistent = boot-IsConsistent s b;
        running = subst (λ (tm : Terminals). IsTerminal tm.terminal_curr) (sym t) first;
        shown = subst (λ (tm : Terminals). IsTerminal tm.terminal_on_display_curr) (sym t) first;
        chosen = subst (λ (tm : Terminals). IsTerminal tm.terminal_on_display_next) (sym t) first;
        mapped = λ p e. absurd (
            pos-distinct p (
              sym (b.pid_of 1 (omega arith))
              ∙ ap (λ (tm : Terminals). s.kernel.pid_of tm.terminal_curr) (sym t)
              ∙ e));
        video = boot-video s b ∙ ap own_page (sym t);
      };
      typed = λ j. record { ends = b.kb_buf j 128; count = rw (b.kb_buf_num j) (omega arith) };
    }
  where
    first : IsTerminal 1
    first = record { low = omega arith; high = omega arith }
