-- ===== src/Process/Halts.antt =====
-- The branches of `halt`, with what is to hold by `Process.Safety`.
use iaaa_os.Base.{
  ℕ, zero, suc, ◌≤◌, ◌<◌, ◌≡◌, ◌⊎◌, refl, sym, ap, subst, ◌∙◌, arith, ℤ, pos, negsuc, minus_one,
  inl, inr, if_holds, is_neg, Buf, Option, none, some, Option-cases, ◌==◌, if◌then◌else◌, upd,
  upd_self, dec8,
}
use iaaa_os.Terminals.{Terminals}
use iaaa_os.Paging.{Paging, map_virt_user_to_physical}
use iaaa_os.Paging.User.{process_base}
use iaaa_os.Kernel.{Kernel, curr_pid, curr_pcb, pcb_at, get_pcb_process}
use iaaa_os.Files.{fd_of, close}
use iaaa_os.Process.{
  ExecResult, HaltResult, execute, close_all, release, restart_shell, halt, shell_name, base_of,
  resumed, restarted, status_extend,
}
use iaaa_os.Process.Table.{IsConsistent, table}
use iaaa_os.Process.Spawn.{pos-injective, pos-distinct, runs-owner}
use iaaa_os.Process.Refine.{release-IsConsistent, release-pid}
use iaaa_os.Process.Safety.{
  IsUserPage, map_virt-page_tab, user_dir, map_virt-IsUserPage, IsKernelSafe, Outcome,
  curr_pid-small, IsQuiet, IsQuiet-self, IsQuiet-trans, IsQuiet-IsKernelSafe, close-IsQuiet,
}
use iaaa_os.Process.Calls.{execute-IsKernelSafe, terminals_kept, curr_pid-same}

abbrev pub Ending : (Kernel → Type 0) → Option Kernel → Type 0
Ending P none = Unit {0}
Ending P (some k) = P k

Ending-IsQuiet-trans :
    (k k1 : Kernel) (m : Option Kernel)
    → IsQuiet k k1
    → Ending (IsQuiet k1) m
    → Ending (IsQuiet k) m
Ending-IsQuiet-trans k k1 none q v = tt
Ending-IsQuiet-trans k k1 (some k2) q v = IsQuiet-trans k k1 k2 q v

pub close_all-IsQuiet : (rounds i : ℕ) (k : Kernel) → Ending (IsQuiet k) (close_all rounds i k)
unfolding close_all
close_all-IsQuiet zero i k = IsQuiet-self k
close_all-IsQuiet (suc rounds) i k =
    if_holds (Ending (IsQuiet k)) ((fd_of k i).flags == 1)
      (λ _. elim (Option-cases (close (pos i) k)) [
        | inl e ↦ rw e tt
        | inr ((r, k1), e) ↦ rw e (
            Ending-IsQuiet-trans k k1 (close_all rounds (suc i) k1)
              (subst (Outcome {R = ℤ} (IsQuiet k)) e (close-IsQuiet (pos i) k))
              (close_all-IsQuiet rounds (suc i) k1))
      ])
      (λ _. close_all-IsQuiet rounds (suc i) k)

release-frame :
    (k : Kernel)
    → ((release k).terminals ≡ k.terminals) × ((release k).paging.page_tab ≡ k.paging.page_tab)
unfolding release
release-frame k =
    let same = map_virt-page_tab (base_of (curr_pcb k).parent_id) k.paging in
    if_holds
      (λ (k' : Kernel). (k'.terminals ≡ k.terminals) × (k'.paging.page_tab ≡ k.paging.page_tab))
      (is_neg (curr_pcb k).parent_id) (λ _. (refl, same)) (λ _. (refl, same))

release-page :
    (k : Kernel)
    → (release k).paging ≡ map_virt_user_to_physical (base_of (curr_pcb k).parent_id) k.paging
unfolding release
release-page k =
    if_holds
      (λ (k' : Kernel).
        k'.paging ≡ map_virt_user_to_physical (base_of (curr_pcb k).parent_id) k.paging)
      (is_neg (curr_pcb k).parent_id) (λ _. refl) (λ _. refl)

release-curr :
    (k : Kernel) (p : ℕ)
    → 1 ≤ k.terminals.terminal_curr
    → p < 6
    → curr_pid k ≡ pos p
    → curr_pid (release k) ≡ (curr_pcb k).parent_id
release-curr k p lo small e =
    ap (λ (tm : Terminals). (release k).pid_of tm.terminal_curr) (release-frame k).0
    ∙ ap (λ f. f k.terminals.terminal_curr) (release-pid k p lo small e)
    ∙ upd_self (upd k.pid_of 0 (dec8 (k.pid_of 0))) k.terminals.terminal_curr (curr_pcb k).parent_id

base_of-IsUserPage :
    (k : Kernel) (z : ℤ) (q : ℕ)
    → z ≡ pos q
    → q < 6
    → IsUserPage ((map_virt_user_to_physical (base_of z) k.paging).page_dir user_dir) q
base_of-IsUserPage k z q e small =
    let same : base_of z ≡ process_base q = ap base_of e ∙ ground arith in
    subst (λ b. IsUserPage ((map_virt_user_to_physical b k.paging).page_dir user_dir) q) (sym same)
      (map_virt-IsUserPage k.paging q small)

own-parent :
    (k : Kernel) (p : ℕ)
    → curr_pid k ≡ pos p
    → (curr_pcb k).parent_id ≡ (k.pcbs (pcb_at (pos p))).parent_id
unfolding get_pcb_process
own-parent k p e = ap (λ z. (k.pcbs (pcb_at z)).parent_id) e

parent-small :
    (k : Kernel) (p q : ℕ)
    → IsConsistent (table k)
    → 1 ≤ k.terminals.terminal_curr
    → k.terminals.terminal_curr ≤ 3
    → curr_pid k ≡ pos p
    → (curr_pcb k).parent_id ≡ pos q
    → q < 6
parent-small k p q v lo hi e e' =
    let own =
      runs-owner (table k) k.terminals.terminal_curr p (v.runs k.terminals.terminal_curr lo hi) e in
    elim (v.parents p (curr_pid-small k p v lo hi e) (omega (arith, own, lo))) [
      | inl idle ↦ absurd (pos-distinct q (sym idle ∙ sym (own-parent k p e) ∙ e'))
      | inr (q', same, b, ne, o) ↦
          let eq = pos-injective q q' (sym e' ∙ own-parent k p e ∙ same) in omega (arith, b, eq)
    ]

release-IsKernelSafe :
    (k : Kernel) (p : ℕ) → curr_pid k ≡ pos p → IsKernelSafe k → IsKernelSafe (release k)
release-IsKernelSafe k p e v =
    let lo = v.running.low in
    let hi = v.running.high in
    let small = curr_pid-small k p v.consistent lo hi e in
    terminals_kept k (release k) (release-frame k).0 (release-frame k).1
      (release-IsConsistent k p lo small e hi v.consistent)
      (λ q e'.
        let r = sym (release-curr k p lo small e) ∙ e' in
        subst (λ (g : Paging). IsUserPage (g.page_dir user_dir) q) (sym (release-page k))
          (base_of-IsUserPage k (curr_pcb k).parent_id q r
            (parent-small k p q v.consistent lo hi e r)))
      v

restart_shell-IsKernelSafe :
    (behind : Buf) (ebp esp : ℕ) (k : Kernel)
    → IsKernelSafe k
    → Outcome IsKernelSafe (restart_shell behind ebp esp k)
unfolding restart_shell
restart_shell-IsKernelSafe behind ebp esp k v = elim (sign (curr_pid k)) [
  | inl e ↦
      rw (Outcome, e)
        (restarted_call (execute (some shell_name) behind ebp esp k)
          (execute-IsKernelSafe (some shell_name) behind ebp esp k v))
  | inr (inl (n, e)) ↦ rw (Outcome, e) v
  | inr (inr (n, e)) ↦ rw (Outcome, e) v
]
  where
    sign : (z : ℤ) → (z ≡ minus_one) ⊎ (((n : ℕ) × (z ≡ negsuc (suc n))) ⊎ ((n : ℕ) × (z ≡ pos n)))
    sign (negsuc zero) = inl refl
    sign (negsuc (suc n)) = inr (inl (n, refl))
    sign (pos n) = inr (inr (n, refl))

    restarted_call :
        (m : Option (ExecResult × Kernel))
        → Outcome IsKernelSafe m
        → Outcome {R = HaltResult} IsKernelSafe
            (elim m [ none ↦ none | some (r, k') ↦ some (restarted r, k') ])
    restarted_call none u = tt
    restarted_call (some (r, k')) u = u

-- Every call of `halt` that returns, resumes the parent or starts a shell again leaves a consistent
-- process table, and the page of user programs is that of the process that runs then.
pub halt-IsKernelSafe :
    (status : ℕ) (behind : Buf) (ebp esp : ℕ) (k : Kernel)
    → IsKernelSafe k
    → Outcome IsKernelSafe (halt status behind ebp esp k)
unfolding halt
halt-IsKernelSafe status behind ebp esp k v = elim (sign (curr_pid k)) [
  | inl (n, e) ↦ rw (Outcome, e) (restart_shell-IsKernelSafe behind ebp esp k v)
  | inr (p, e) ↦
      rw (Outcome, e)
        (elim (Option-cases (close_all 8 0 k)) [
          | inl e' ↦ rw (Outcome, e') tt
          | inr (k1, e') ↦
              rw (Outcome, e')
                (ended p e k1 (subst (Ending (IsQuiet k)) e' (close_all-IsQuiet 8 0 k)))
        ])
]
  where
    sign : (z : ℤ) → ((n : ℕ) × (z ≡ negsuc n)) ⊎ ((n : ℕ) × (z ≡ pos n))
    sign (negsuc n) = inl (n, refl)
    sign (pos n) = inr (n, refl)

    ended :
        (p : ℕ)
        → curr_pid k ≡ pos p
        → (k1 : Kernel) → IsQuiet k k1
        → Outcome {R = HaltResult} IsKernelSafe (
            if is_neg (curr_pid (release k1))
            then restart_shell behind ebp esp (release k1)
            else some (resumed (status_extend status), release k1))
    ended p e k1 q =
        let u =
          release-IsKernelSafe k1 p (curr_pid-same k k1 q.terminals q.mild.pid_of ∙ e)
            (IsQuiet-IsKernelSafe k k1 q v) in
        if_holds (Outcome {R = HaltResult} IsKernelSafe) (is_neg (curr_pid (release k1)))
          (λ _. restart_shell-IsKernelSafe behind ebp esp (release k1) u) (λ _. u)
