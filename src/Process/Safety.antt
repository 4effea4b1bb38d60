-- ===== src/Process/Safety.antt =====
-- What is to hold of the kernel in every state, and what it is for a call to leave that alone, as `close`
-- is to.
use iaaa_os.Base.{
  ℕ, ◌+◌, ◌*◌, ◌/◌, ◌≤◌, ◌<◌, ◌≡◌, refl, sym, ap, subst, ◌∙◌, arith, ℤ, pos, negsuc, inl, inr,
  if_holds, Option, none, some, Option-cases, ltb, leb, ◌==◌, ◌||◌, if◌then◌else◌, upd,
}
use iaaa_os.Terminals.{Terminals}
use iaaa_os.Paging.{Paging, PageEntry, tab_num_addrs, user_base_virt, map_virt_user_to_physical}
use iaaa_os.Paging.Walk.{walk}
use iaaa_os.Paging.User.{process_base}
use iaaa_os.Rtc.{rtc_close}
use iaaa_os.Kernel.{
  Kernel, Fd, FileOps, null_ops, rtc_ops, dir_ops, file_ops, terminal_ops, curr_pid, curr_pcb,
  pcb_at, get_pcb_process, closed_fd,
}
use iaaa_os.Files.{fd_of, rtc_index, set_fd, table_close, close}
use iaaa_os.Process.Table.{IsConsistent, table}
use iaaa_os.Process.Same.{same-IsConsistent}
use iaaa_os.Process.Spawn.{pos-injective, pos-distinct}
use iaaa_os.Process.Refine.{set-parent-kept}

abbrev pub user_dir : ℕ
user_dir = 32

abbrev pub video_at : ℕ
video_at = 184

-- The entry of the large page at 128 MB: it is that of process `p`, for user programs.
pub record IsUserPage (entry_128 : PageEntry) (p : ℕ) : Type 0 where
  pub present : entry_128.present ≡ 1
  pub large : entry_128.ps_pat ≡ 1
  pub user : entry_128.u_s ≡ 1
  pub base : entry_128.addr / 1024 * tab_num_addrs ≡ process_base p

pub IsUserPage-walk :
    (paging : Paging) (p offset : ℕ)
    → IsUserPage (paging.page_dir user_dir) p
    → offset < tab_num_addrs
    → walk paging (user_base_virt + offset)
      ≡ some (record { phys = process_base p + offset; user = 1 })
unfolding walk
IsUserPage-walk paging p offset v h = ground (arith, v.present, v.large, v.user, v.base)

pub map_virt-IsUserPage :
    (paging : Paging) (p : ℕ)
    → p < 6
    → IsUserPage ((map_virt_user_to_physical (process_base p) paging).page_dir user_dir) p
unfolding map_virt_user_to_physical
map_virt-IsUserPage paging p h = record {
  present = ground arith;
  large = ground arith;
  user = ground arith;
  base = ground arith;
}

-- Only the entry of that page changes.
pub map_virt-page_tab :
    (base : ℕ) (paging : Paging)
    → (map_virt_user_to_physical base paging).page_tab ≡ paging.page_tab
unfolding map_virt_user_to_physical
map_virt-page_tab base paging = ground arith

pub record IsTerminal (t : ℕ) : Type 0 where
  pub low : 1 ≤ t
  pub high : t ≤ 3

-- The page that the running program writes for video memory: the display's if its terminal is shown,
-- and else the background's of its terminal.
abbrev pub own_page : Terminals → ℕ
own_page tm =
    if tm.terminal_curr == tm.terminal_on_display_curr
    then video_at
    else video_at + tm.terminal_curr

pub record IsKernelSafe (k : Kernel) : Type 0 where
  pub consistent : IsConsistent (table k)
  pub running : IsTerminal k.terminals.terminal_curr
  pub shown : IsTerminal k.terminals.terminal_on_display_curr
  pub chosen : IsTerminal k.terminals.terminal_on_display_next
  pub mapped : (p : ℕ) → curr_pid k ≡ pos p → IsUserPage (k.paging.page_dir user_dir) p
  pub video : (k.paging.page_tab video_at).addr ≡ own_page k.terminals

-- What holds of the kernel that a call leaves, if it returns.
abbrev pub Outcome : {R : Type 0} → (Kernel → Type 0) → Option (R × Kernel) → Type 0
Outcome P none = Unit {0}
Outcome P (some (r, k)) = P k

-- The number of the running process, if there is one.
pub curr_pid-small :
    (k : Kernel) (p : ℕ)
    → IsConsistent (table k)
    → 1 ≤ k.terminals.terminal_curr
    → k.terminals.terminal_curr ≤ 3
    → curr_pid k ≡ pos p
    → p < 6
curr_pid-small k p v lo hi e = elim (v.runs k.terminals.terminal_curr lo hi) [
  | inl idle ↦ absurd (pos-distinct p (sym idle ∙ e))
  | inr (q, e', b, own) ↦ let same = pos-injective p q (sym e ∙ e') in omega arith
]

-- A change that keeps PID, the bitmap, the running terminal, the parents in the control blocks and the
-- page of user programs.
pub record IsMild (k k' : Kernel) : Type 0 where
  pub running : k'.terminals.terminal_curr ≡ k.terminals.terminal_curr
  pub pid_of : k'.pid_of ≡ k.pid_of
  pub pid_bitmap : k'.pid_bitmap ≡ k.pid_bitmap
  pub parent : (at : ℕ) → (k'.pcbs at).parent_id ≡ (k.pcbs at).parent_id
  pub page : k'.paging.page_dir user_dir ≡ k.paging.page_dir user_dir

pub IsMild-trans : (a b c : Kernel) → IsMild a b → IsMild b c → IsMild a c
IsMild-trans a b c p q = record {
  running = q.running ∙ p.running;
  pid_of = q.pid_of ∙ p.pid_of;
  pid_bitmap = q.pid_bitmap ∙ p.pid_bitmap;
  parent = λ at. q.parent at ∙ p.parent at;
  page = q.page ∙ p.page;
}

-- The process table does not depend on the rest.
pub same_table :
    (k k' : Kernel)
    → k'.pid_of ≡ k.pid_of
    → k'.pid_bitmap ≡ k.pid_bitmap
    → ((at : ℕ) → (k'.pcbs at).parent_id ≡ (k.pcbs at).parent_id)
    → IsConsistent (table k)
    → IsConsistent (table k')
same_table k k' pid owner parent v =
    same-IsConsistent (table k') (table k)
      (record {
        count = ap (λ f. f 0) pid;
        running = λ j. ap (λ f. f j) pid;
        owner = owner;
        parent = λ p h. parent (pcb_at (pos p));
      })
      v

pub IsMild-IsKernelSafe :
    (k k' : Kernel)
    → IsMild k k'
    → IsTerminal k'.terminals.terminal_on_display_curr
    → IsTerminal k'.terminals.terminal_on_display_next
    → (k'.paging.page_tab video_at).addr ≡ own_page k'.terminals
    → IsKernelSafe k
    → IsKernelSafe k'
IsMild-IsKernelSafe k k' q shown chosen video v = record {
  consistent = same_table k k' q.pid_of q.pid_bitmap q.parent v.consistent;
  running = subst IsTerminal (sym q.running) v.running;
  shown = shown;
  chosen = chosen;
  mapped = λ p e.
      subst (λ g. IsUserPage g p) (sym q.page)
        (v.mapped p (
          ap (λ f. f k.terminals.terminal_curr) (sym q.pid_of) ∙ ap k'.pid_of (sym q.running) ∙ e));
  video = video;
}

-- A call that keeps these, the other terminals and the pages of video memory too.
pub record IsQuiet (k k' : Kernel) : Type 0 where
  pub mild : IsMild k k'
  pub terminals : k'.terminals ≡ k.terminals
  pub video : k'.paging.page_tab video_at ≡ k.paging.page_tab video_at

-- A kernel that keeps these parts whole.
pub IsQuiet-parts :
    (k k' : Kernel)
    → k'.terminals ≡ k.terminals
    → k'.pid_of ≡ k.pid_of
    → k'.pid_bitmap ≡ k.pid_bitmap
    → ((at : ℕ) → (k'.pcbs at).parent_id ≡ (k.pcbs at).parent_id)
    → k'.paging ≡ k.paging
    → IsQuiet k k'
IsQuiet-parts k k' t pid owner parent g = record {
  mild = record {
    running = ap (λ (tm : Terminals). tm.terminal_curr) t;
    pid_of = pid;
    pid_bitmap = owner;
    parent = parent;
    page = ap (λ (p : Paging). p.page_dir user_dir) g;
  };
  terminals = t;
  video = ap (λ (p : Paging). p.page_tab video_at) g;
}

pub IsQuiet-self : (k : Kernel) → IsQuiet k k
IsQuiet-self k = IsQuiet-parts k k refl refl refl (λ at. refl) refl

pub IsQuiet-trans : (a b c : Kernel) → IsQuiet a b → IsQuiet b c → IsQuiet a c
IsQuiet-trans a b c p q = record {
  mild = IsMild-trans a b c p.mild q.mild;
  terminals = q.terminals ∙ p.terminals;
  video = q.video ∙ p.video;
}

pub IsQuiet-IsKernelSafe : (k k' : Kernel) → IsQuiet k k' → IsKernelSafe k → IsKernelSafe k'
IsQuiet-IsKernelSafe k k' q v =
    let back = sym q.terminals in
    IsMild-IsKernelSafe k k' q.mild
      (subst (λ (tm : Terminals). IsTerminal tm.terminal_on_display_curr) back v.shown)
      (subst (λ (tm : Terminals). IsTerminal tm.terminal_on_display_next) back v.chosen)
      (ap (λ (e : PageEntry). e.addr) q.video ∙ v.video ∙ ap own_page back) v

pub set_fd-IsQuiet : (fd : ℕ) (d : Fd) (k : Kernel) → IsQuiet k (set_fd fd d k)
set_fd-IsQuiet fd d k =
    IsQuiet-parts k (set_fd fd d k) refl refl refl
      (λ at.
        set-parent-kept (get_pcb_process k)
          (record (curr_pcb k) { fd_arr = upd (curr_pcb k).fd_arr fd d }) k at refl)
      refl

table_close-IsQuiet : (ops : FileOps) (k : Kernel) → Outcome (IsQuiet k) (table_close ops k)
unfolding table_close
table_close-IsQuiet null_ops k = tt
table_close-IsQuiet rtc_ops k =
    IsQuiet-parts k (record k { rtc = (rtc_close (rtc_index k) k.rtc).1 }) refl refl refl
      (λ at. refl) refl
table_close-IsQuiet dir_ops k = IsQuiet-self k
table_close-IsQuiet file_ops k = IsQuiet-self k
table_close-IsQuiet terminal_ops k = IsQuiet-self k

pub close-IsQuiet : (z : ℤ) (k : Kernel) → Outcome (IsQuiet k) (close z k)
unfolding close
close-IsQuiet (negsuc n) k = IsQuiet-self k
close-IsQuiet (pos fd) k =
    if_holds (Outcome {R = ℤ} (IsQuiet k)) (ltb fd 2 || leb 8 fd) (λ _. IsQuiet-self k)
      (λ _.
        if_holds (Outcome {R = ℤ} (IsQuiet k)) ((fd_of k fd).flags == 0) (λ _. IsQuiet-self k)
          (λ _. elim (Option-cases (table_close (fd_of k fd).file_op k)) [
            | inl e ↦ rw e tt
            | inr ((r, k'), e) ↦
                let q =
                  subst (Outcome {R = ℤ} (IsQuiet k)) e
                    (table_close-IsQuiet (fd_of k fd).file_op k) in
                rw e
                  (IsQuiet-trans k k' (set_fd fd closed_fd k') q (set_fd-IsQuiet fd closed_fd k'))
          ]))
