-- ===== src/Process/Resumes.antt =====
-- `halt` ends a program whose descriptors are valid, and resumes its parent.
use native.Mathlib.Decide.{dec_lt, ℕ_discrete}
use iaaa_os.Base.{
  ℕ, zero, suc, ◌+◌, ◌*◌, ◌/◌, ◌≢◌, ◌≤◌, ◌<◌, ◌≡◌, ◌∙◌, refl, ap, subst, arith, ◌==◌, if◌then◌else◌,
  Bool-cases, inl, inr, Buf, upd, upd_self, pos, is_neg, if_holds, Arr, dec8, some,
}
use iaaa_os.Kernel.{Kernel, curr_pid, curr_pcb, get_pcb_process, pcb_at, closed_fd}
use iaaa_os.Files.{fd_of}
use iaaa_os.Files.Table.{HasValidFds, Closes, close-Closes, close-refused}
use iaaa_os.Process.{as_u8, close_all, release, resumed, status_extend, halt}
use iaaa_os.Process.Safety.{IsQuiet}
use iaaa_os.Process.Calls.{curr_pid-same}
use iaaa_os.Process.Halts.{Ending, close_all-IsQuiet}

Closes-HasValidFds : (k k' : Kernel) (fd : ℕ) → HasValidFds k → Closes k fd k' → HasValidFds k'
unfolding HasValidFds Closes
Closes-HasValidFds k k' fd v c j lo hi = elim (ℕ_discrete j fd) [
  | yes e ↦
      let closed : fd_of k' j ≡ closed_fd = ground (arith, c j) in
      rw closed (record { cleared = λ _. refl; served = λ d. absurd (d refl) })
  | no d ↦ let same : fd_of k' j ≡ fd_of k j = ground (arith, c j) in rw same (v j lo hi)
]

close_all_total :
    (rounds i : ℕ) (k : Kernel)
    → i + rounds ≤ 8
    → HasValidFds k
    → (k1 : Kernel) × (close_all rounds i k ≡ some k1) × HasValidFds k1
unfolding close_all
close_all_total zero i k l v = (k, refl, v)
close_all_total (suc rounds) i k l v = elim (Bool-cases ((fd_of k i).flags == 1)) [
  | inr unused ↦
      let (k1, e, w) = close_all_total rounds (suc i) k (omega arith) v in
      (k1, rw (unused, close_all) e, w)
  | inl used ↦ elim (dec_lt i 2) [
    | yes std ↦
        let (k1, e, w) = close_all_total rounds (suc i) k (omega arith) v in
        (k1, rw (used, (close-refused k).1 i (inl std), close_all) e, w)
    | no file ↦
        let (r, k2, c, closes, result) =
          close-Closes k i v (omega arith) (omega arith) (λ z. ground (arith, used)) in
        let (k1, e, w) =
          close_all_total rounds (suc i) k2 (omega arith) (Closes-HasValidFds k k2 i v closes) in
        (k1, rw (used, c, close_all) e, w)
  ]
]

release-curr_pid : (k : Kernel) → curr_pid (release k) ≡ (curr_pcb k).parent_id
unfolding release
release-curr_pid k =
    let p = curr_pcb k in
    if_holds (λ (k' : Kernel). curr_pid k' ≡ p.parent_id) (is_neg p.parent_id)
      (λ _. upd_self (upd k.pid_of 0 (dec8 (k.pid_of 0))) k.terminals.terminal_curr p.parent_id)
      (λ _. upd_self (upd k.pid_of 0 (dec8 (k.pid_of 0))) k.terminals.terminal_curr p.parent_id)

release-bitmap :
    (k : Kernel) (p : ℕ)
    → curr_pid k ≡ pos p
    → p < 256
    → (release k).pid_bitmap ≡ upd k.pid_bitmap p 0
unfolding release
release-bitmap k p e l =
    let freed = upd k.pid_bitmap (as_u8 (curr_pid k)) 0 in
    let number : as_u8 (pos p) ≡ p = omega arith in
    if_holds (λ (k' : Kernel). k'.pid_bitmap ≡ freed) (is_neg (curr_pcb k).parent_id) (λ _. refl)
      (λ _. refl)
    ∙ ap (λ n. upd k.pid_bitmap n 0) (ap as_u8 e ∙ number)

address : (k k1 : Kernel) → curr_pid k1 ≡ curr_pid k → get_pcb_process k1 ≡ get_pcb_process k
unfolding get_pcb_process
address k k1 e = ap pcb_at e

-- What the parent's `execute` returns: 256 for the status 256, and for any other its low byte.
abbrev pub IsStatus : ℕ → ℕ → Type 0
IsStatus status r =
    (status ≡ 256 → r ≡ 256) × (status ≢ 256 → (r < 256) × (q : ℕ) × (status ≡ 256 * q + r))

status_extend-IsStatus : (status : ℕ) → IsStatus status (status_extend status)
unfolding status_extend
status_extend-IsStatus status =
    (λ e. ground (arith, e), λ d. (ground (arith, d), status / 256, ground (arith, d)))

-- If the running program has valid descriptors and a parent, `halt` returns to the `execute` of the parent: with
-- 256 for the status 256, and with the low byte of any other. The parent runs, and the number of the
-- program is free, as no other is that was not.
pub halt_lem :
    (status : ℕ) (behind : Buf) (ebp esp : ℕ) (k : Kernel) (p q : ℕ)
    → curr_pid k ≡ pos p
    → p < 6
    → (curr_pcb k).parent_id ≡ pos q
    → HasValidFds k
    → (k' : Kernel) × (r : ℕ) × (halt status behind ebp esp k ≡ some (resumed r, k'))
      × IsStatus status r
      × (curr_pid k' ≡ pos q)
      × ((j : ℕ) → k'.pid_bitmap j ≡ (if j == p then 0 else k.pid_bitmap j))
unfolding halt
halt_lem status behind ebp esp k p q e l parent v =
    let (k1, c, w) = close_all_total 8 0 k (omega arith) v in
    let quiet = subst (Ending (IsQuiet k)) c (close_all-IsQuiet 8 0 k) in
    let same = curr_pid-same k k1 quiet.terminals quiet.mild.pid_of in
    let at : get_pcb_process k1 ≡ get_pcb_process k = address k k1 same in
    let parent' =
      quiet.mild.parent (get_pcb_process k1) ∙ ap (λ n. (k.pcbs n).parent_id) at ∙ parent in
    let next = release-curr_pid k1 ∙ parent' in
    (
      release k1,
      status_extend status,
      steps k1 c next,
      status_extend-IsStatus status,
      next,
      λ j.
          ap (λ (b : Arr ℕ). b j)
            (release-bitmap k1 p (same ∙ e) (omega arith)
              ∙ ap (λ b. upd b p 0) quiet.mild.pid_bitmap),
    )
  where
    steps :
        (k1 : Kernel)
        → close_all 8 0 k ≡ some k1
        → curr_pid (release k1) ≡ pos q
        → halt status behind ebp esp k ≡ some (resumed (status_extend status), release k1)
    steps k1 c next = rw (e, c, next, halt) refl
