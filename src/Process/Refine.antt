-- ===== src/Process/Refine.antt =====
-- `execute` and `halt` change the variables and the control blocks as `start` and `finish` say.
use native.Mathlib.Decide.{ℕ_discrete}
use iaaa_os.Base.{
  ℕ, ◌≤◌, ◌<◌, ◌≡◌, ◌≢◌, refl, sym, ap, ◌∙◌, arith, upd, upd_self, upd_ne, ℤ, pos, if_holds, is_neg,
  inc8, dec8,
}
use iaaa_os.Paging.{map_virt_user_to_physical}
use iaaa_os.Kernel.{
  Kernel, Pcb, pcb_at, get_pcb_process, get_parent_pcb_process, get_next_avail_pid,
  clear_pcb_struct, set_pcb, curr_pcb, curr_pid,
}
use iaaa_os.Process.{
  allocate, init_pcb, activate, spawn, release, as_u8, is_minus_one, terminal_fd, base_of,
}
use iaaa_os.Process.Same.{IsSameTable, same-IsConsistent}
use iaaa_os.Process.Spawn.{start-IsConsistent}
use iaaa_os.Process.Exit.{finish-IsConsistent}
use iaaa_os.Process.Table.{get_next_avail_pid-IsFreePid, table, IsConsistent, start, finish}

abbrev pub parent_of : Kernel → ℕ → ℤ
parent_of k at = (k.pcbs at).parent_id

set-parent-same : (a : ℕ) (x : Pcb) (k : Kernel) → parent_of (set_pcb a x k) a ≡ x.parent_id
set-parent-same a x k = ap (λ (p : Pcb). p.parent_id) (upd_self k.pcbs a x)

set-parent-other :
    (a : ℕ) (x : Pcb) (k : Kernel) (at : ℕ) → at ≢ a → parent_of (set_pcb a x k) at ≡ parent_of k at
set-parent-other a x k at d = ap (λ (p : Pcb). p.parent_id) (upd_ne k.pcbs a at x d)

-- A control block that keeps its parent.
pub set-parent-kept :
    (a : ℕ) (x : Pcb) (k : Kernel) (at : ℕ)
    → x.parent_id ≡ parent_of k a
    → parent_of (set_pcb a x k) at ≡ parent_of k at
set-parent-kept a x k at h = elim (ℕ_discrete at a) [
  | yes e ↦ rw e (set-parent-same a x k ∙ h)
  | no d ↦ set-parent-other a x k at d
]

-- Control blocks of different processes lie at different addresses.
pcb_at-distinct : (p q : ℕ) → p < 6 → q < 6 → p ≢ q → pcb_at (pos p) ≢ pcb_at (pos q)
pcb_at-distinct p q h g d e = absurd (omega arith)

pub init_pcb-variables :
    (parent : ℤ) (ebp esp : ℕ) (k : Kernel)
    → ((init_pcb parent ebp esp k).pid_of ≡ k.pid_of)
      × ((init_pcb parent ebp esp k).pid_bitmap ≡ k.pid_bitmap)
unfolding init_pcb
init_pcb-variables parent ebp esp k =
    if_holds (λ (k' : Kernel). (k'.pid_of ≡ k.pid_of) × (k'.pid_bitmap ≡ k.pid_bitmap))
      (is_minus_one parent) (λ _. (refl, refl)) (λ _. (refl, refl))

init_pcb-parent-same :
    (parent : ℤ) (ebp esp : ℕ) (k : Kernel)
    → parent_of (init_pcb parent ebp esp k) (get_pcb_process k) ≡ parent
unfolding init_pcb
init_pcb-parent-same parent ebp esp k =
    let fresh = record (clear_pcb_struct (curr_pcb k)) { pid = curr_pid k; parent_id = parent } in
    let saved = record fresh { old_ebp = ebp; old_esp = esp } in
    let k1 = set_pcb (get_pcb_process k) saved k in
    let at = get_parent_pcb_process k in
    if_holds (λ (k' : Kernel). parent_of k' (get_pcb_process k) ≡ parent) (is_minus_one parent)
      (λ _. set-parent-same (get_pcb_process k) fresh k)
      (λ _.
        set-parent-kept at (record (k1.pcbs at) { state = 0 }) k1 (get_pcb_process k) refl
        ∙ set-parent-same (get_pcb_process k) saved k)

init_pcb-parent-other :
    (parent : ℤ) (ebp esp : ℕ) (k : Kernel) (other : ℕ)
    → other ≢ get_pcb_process k
    → parent_of (init_pcb parent ebp esp k) other ≡ parent_of k other
unfolding init_pcb
init_pcb-parent-other parent ebp esp k other d =
    let fresh = record (clear_pcb_struct (curr_pcb k)) { pid = curr_pid k; parent_id = parent } in
    let saved = record fresh { old_ebp = ebp; old_esp = esp } in
    let k1 = set_pcb (get_pcb_process k) saved k in
    let at = get_parent_pcb_process k in
    if_holds (λ (k' : Kernel). parent_of k' other ≡ parent_of k other) (is_minus_one parent)
      (λ _. set-parent-other (get_pcb_process k) fresh k other d)
      (λ _.
        set-parent-kept at (record (k1.pcbs at) { state = 0 }) k1 other refl
        ∙ set-parent-other (get_pcb_process k) saved k other d)

activate-parent : (k : Kernel) (at : ℕ) → parent_of (activate k) at ≡ parent_of k at
unfolding activate
activate-parent k at =
    set-parent-kept (get_pcb_process k)
      (record (curr_pcb k) {
        state = 1;
        fd_arr =
            upd (upd (curr_pcb k).fd_arr 0 (terminal_fd ((curr_pcb k).fd_arr 0))) 1
              (terminal_fd ((curr_pcb k).fd_arr 1));
      })
      k at refl

module _ (k : Kernel) (ebp esp : ℕ) (lo : 1 ≤ k.terminals.terminal_curr) where
  abbrev t : ℕ
  t = k.terminals.terminal_curr

  abbrev p : ℕ
  p = get_next_avail_pid k.pid_bitmap

  -- The running process, which becomes the parent.
  abbrev old : ℤ
  old = upd k.pid_of 0 (inc8 (k.pid_of 0)) t

  allocate-at : get_pcb_process (allocate k) ≡ pcb_at (pos p)
  unfolding allocate get_pcb_process
  allocate-at = ap pcb_at (upd_self (upd k.pid_of 0 (inc8 (k.pid_of 0))) t (pos p))

  allocate-parent : (at : ℕ) → parent_of (allocate k) at ≡ parent_of k at
  unfolding allocate
  allocate-parent at = refl

  old-pid : old ≡ k.pid_of t
  old-pid = upd_ne k.pid_of 0 t (inc8 (k.pid_of 0)) (omega arith)

  spawn-parent :
      p < 6
      → (q : ℕ) → q < 6
      → parent_of (spawn ebp esp k) (pcb_at (pos q)) ≡ (start t p (table k)).parent q
  unfolding spawn start
  spawn-parent small q h =
      let k1 = init_pcb old ebp esp (allocate k) in
      elim (ℕ_discrete q p) [
        | yes e ↦ rw e (
            activate-parent k1 (pcb_at (pos p))
            ∙ ap (parent_of k1) (sym allocate-at)
            ∙ init_pcb-parent-same old ebp esp (allocate k)
            ∙ old-pid
            ∙ sym (upd_self (table k).parent p (k.pid_of t)))
        | no d ↦
            activate-parent k1 (pcb_at (pos q))
            ∙ init_pcb-parent-other old ebp esp (allocate k) (pcb_at (pos q))
                (λ z. pcb_at-distinct q p h small d (z ∙ allocate-at))
            ∙ allocate-parent (pcb_at (pos q))
            ∙ sym (upd_ne (table k).parent p q (k.pid_of t) d)
      ]

  allocate-count : (allocate k).pid_of 0 ≡ inc8 (k.pid_of 0)
  unfolding allocate
  allocate-count =
      upd_ne (upd k.pid_of 0 (inc8 (k.pid_of 0))) t 0 (pos p) (omega arith)
      ∙ upd_self k.pid_of 0 (inc8 (k.pid_of 0))

  allocate-running : (j : ℕ) → (allocate k).pid_of j ≡ (start t p (table k)).running j
  unfolding allocate start
  allocate-running j = refl

  allocate-owner : (allocate k).pid_bitmap ≡ (start t p (table k)).owner
  unfolding allocate start
  allocate-owner = refl

  spawn-IsSameTable : p < 6 → IsSameTable (table (spawn ebp esp k)) (start t p (table k))
  unfolding spawn activate start
  spawn-IsSameTable small =
      let vars = init_pcb-variables old ebp esp (allocate k) in
      record {
        count = ap (λ f. f 0) vars.0 ∙ allocate-count;
        running = λ j. ap (λ f. f j) vars.0 ∙ allocate-running j;
        owner = vars.1 ∙ allocate-owner;
        parent = λ q h. spawn-parent small q h;
      }

  -- When `execute` starts a program on terminal 1 to 3 while a number is free, a consistent process
  -- table, as PID, the bitmap and the parents in the control blocks give it, stays consistent.
  pub spawn-IsConsistent :
      k.terminals.terminal_curr ≤ 3
      → get_next_avail_pid k.pid_bitmap < 6
      → IsConsistent (table k)
      → IsConsistent (table (spawn ebp esp k))
  spawn-IsConsistent hi small v =
      same-IsConsistent (table (spawn ebp esp k)) (start t p (table k)) (spawn-IsSameTable small) (
        start-IsConsistent (table k) t p v lo hi small
          ((get_next_avail_pid-IsFreePid k.pid_bitmap).free small))

module _ (k : Kernel) (p : ℕ) (lo : 1 ≤ k.terminals.terminal_curr) (small : p < 6)
    (runs : curr_pid k ≡ pos p) where
  abbrev t' : ℕ
  t' = k.terminals.terminal_curr

  pub release-pid :
      (release k).pid_of ≡ upd (upd k.pid_of 0 (dec8 (k.pid_of 0))) t' (curr_pcb k).parent_id
  unfolding release
  release-pid =
      if_holds
        (λ (k' : Kernel).
          k'.pid_of ≡ upd (upd k.pid_of 0 (dec8 (k.pid_of 0))) t' (curr_pcb k).parent_id)
        (is_neg (curr_pcb k).parent_id) (λ _. refl) (λ _. refl)

  release-owner : (release k).pid_bitmap ≡ upd k.pid_bitmap p 0
  unfolding release
  release-owner =
      let e : as_u8 (curr_pid k) ≡ p = ap as_u8 runs ∙ omega arith in
      if_holds (λ (k' : Kernel). k'.pid_bitmap ≡ upd k.pid_bitmap p 0)
        (is_neg (curr_pcb k).parent_id) (λ _. ap (λ i. upd k.pid_bitmap i 0) e)
        (λ _. ap (λ i. upd k.pid_bitmap i 0) e)

  release-parent : (at : ℕ) → parent_of (release k) at ≡ parent_of k at
  unfolding release
  release-parent at =
      let ended = record (curr_pcb k) { state = 0 } in
      let parent = (curr_pcb k).parent_id in
      let k1 = set_pcb (get_pcb_process k) ended k in
      let k2 = record k1 {
        curr_prog_base_phys = base_of parent;
        paging = map_virt_user_to_physical (base_of parent) k.paging;
        pid_bitmap = upd k.pid_bitmap (as_u8 (curr_pid k)) 0;
        pid_of = upd (upd k.pid_of 0 (dec8 (k.pid_of 0))) t' parent;
      } in
      let up = get_pcb_process k2 in
      let kept = set-parent-kept (get_pcb_process k) ended k at refl in
      if_holds (λ (k' : Kernel). parent_of k' at ≡ parent_of k at) (is_neg parent) (λ _. kept)
        (λ _. set-parent-kept up (record (k2.pcbs up) { state = 1 }) k2 at refl ∙ kept)

  own-parent : (curr_pcb k).parent_id ≡ (table k).parent p
  unfolding get_pcb_process
  own-parent = ap (λ z. parent_of k (pcb_at z)) runs

  release-IsSameTable : IsSameTable (table (release k)) (finish t' p (table k))
  unfolding finish
  release-IsSameTable = record {
    count =
        ap (λ f. f 0) release-pid
        ∙ upd_ne (upd k.pid_of 0 (dec8 (k.pid_of 0))) t' 0 (curr_pcb k).parent_id (omega arith)
        ∙ upd_self k.pid_of 0 (dec8 (k.pid_of 0));
    running = λ j.
        ap (λ f. f j) release-pid
        ∙ ap (λ z. upd (upd k.pid_of 0 (dec8 (k.pid_of 0))) t' z j) own-parent;
    owner = release-owner;
    parent = λ q h. release-parent (pcb_at (pos q));
  }

  -- When `halt` ends the process, of number 0 to 5, that terminal 1 to 3 runs, a consistent process
  -- table, as PID, the bitmap and the parents in the control blocks give it, stays consistent.
  pub release-IsConsistent :
      k.terminals.terminal_curr ≤ 3 → IsConsistent (table k) → IsConsistent (table (release k))
  release-IsConsistent hi v =
      same-IsConsistent (table (release k)) (finish t' p (table k)) release-IsSameTable
        (finish-IsConsistent (table k) t' p v lo hi small runs)
