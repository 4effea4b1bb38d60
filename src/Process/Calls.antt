-- ===== src/Process/Calls.antt =====
-- The branches of `execute`, with what is to hold by `Process.Safety`.
use iaaa_os.Base.{
  ℕ, ◌+◌, ◌-◌, word, ltb, leb, ◌<◌, ◌≡◌, refl, sym, ap, subst, ◌∙◌, arith, ℤ, pos, inl, inr,
  if_holds, true, false, Buf, Option, none, some, Option-cases, ◌==◌, ◌||◌, if◌then◌else◌, Bool,
  not, is_zero, shift, upd, upd_self, inc8,
}
use iaaa_os.Str.{strcpy, strncmp, strlen}
use iaaa_os.FileSystem.{fail, entry, file_type, inode_num, read_dentry_by_name, read_data}
use iaaa_os.Terminals.{Terminals}
use iaaa_os.Paging.{Paging, PageEntry, map_virt_user_to_physical}
use iaaa_os.Paging.User.{process_base}
use iaaa_os.Kernel.{Kernel, curr_pid, get_kernel_stack_bottom, get_next_avail_pid}
use iaaa_os.Process.{
  rejected, parsed, parse_command, ExecResult, exec_failed, entered, run_file, run_command, execute,
  spawn, load_program, page_rest, args_size, stores_behind, buffer_of, is_full, exe_check, allocate,
  init_pcb, activate, program_base, is_minus_one,
}
use iaaa_os.Process.Table.{IsConsistent, table, get_next_avail_pid-IsFreePid}
use iaaa_os.Process.Spawn.{pos-injective}
use iaaa_os.Process.Refine.{spawn-IsConsistent, init_pcb-variables}
use iaaa_os.Process.Safety.{
  IsUserPage, map_virt-page_tab, user_dir, video_at, own_page, IsTerminal, map_virt-IsUserPage,
  IsKernelSafe, Outcome,
}

init_pcb-frame :
    (parent : ℤ) (ebp esp : ℕ) (k : Kernel)
    → ((init_pcb parent ebp esp k).terminals ≡ k.terminals)
      × ((init_pcb parent ebp esp k).paging ≡ k.paging)
unfolding init_pcb
init_pcb-frame parent ebp esp k =
    if_holds (λ (k' : Kernel). (k'.terminals ≡ k.terminals) × (k'.paging ≡ k.paging))
      (is_minus_one parent) (λ _. (refl, refl)) (λ _. (refl, refl))

activate-page :
    (k : Kernel) (p : ℕ)
    → curr_pid k ≡ pos p
    → p < 6
    → IsUserPage ((activate k).paging.page_dir user_dir) p
unfolding activate
activate-page k p e small =
    let same : program_base (curr_pid k) k.curr_prog_base_phys ≡ process_base p =
      ap (λ z. program_base z k.curr_prog_base_phys) e ∙ ground arith in
    subst (λ b. IsUserPage ((map_virt_user_to_physical b k.paging).page_dir user_dir) p) (sym same)
      (map_virt-IsUserPage k.paging p small)

activate-frame :
    (k : Kernel)
    → ((activate k).terminals ≡ k.terminals)
      × (curr_pid (activate k) ≡ curr_pid k)
      × ((activate k).paging.page_tab ≡ k.paging.page_tab)
unfolding activate
activate-frame k =
    (refl, refl, map_virt-page_tab (program_base (curr_pid k) k.curr_prog_base_phys) k.paging)

allocate-frame :
    (k : Kernel)
    → ((allocate k).terminals ≡ k.terminals)
      × (curr_pid (allocate k) ≡ pos (get_next_avail_pid k.pid_bitmap))
      × ((allocate k).paging ≡ k.paging)
unfolding allocate
allocate-frame k = (
  refl,
  upd_self (upd k.pid_of 0 (inc8 (k.pid_of 0))) k.terminals.terminal_curr
      (pos (get_next_avail_pid k.pid_bitmap)),
  refl,
)

-- The running process of a kernel, by its parts.
pub curr_pid-same :
    (k k' : Kernel) → k'.terminals ≡ k.terminals → k'.pid_of ≡ k.pid_of → curr_pid k' ≡ curr_pid k
curr_pid-same k k' t p =
    ap k'.pid_of (ap (λ (tm : Terminals). tm.terminal_curr) t)
    ∙ ap (λ f. f k.terminals.terminal_curr) p

-- A change of the process table that keeps the terminals and the pages of video memory.
pub terminals_kept :
    (k k' : Kernel)
    → k'.terminals ≡ k.terminals
    → k'.paging.page_tab ≡ k.paging.page_tab
    → IsConsistent (table k')
    → ((p : ℕ) → curr_pid k' ≡ pos p → IsUserPage (k'.paging.page_dir user_dir) p)
    → IsKernelSafe k
    → IsKernelSafe k'
terminals_kept k k' t g consistent mapped v =
    let back = sym t in
    record {
      consistent = consistent;
      running = subst (λ (tm : Terminals). IsTerminal tm.terminal_curr) back v.running;
      shown = subst (λ (tm : Terminals). IsTerminal tm.terminal_on_display_curr) back v.shown;
      chosen = subst (λ (tm : Terminals). IsTerminal tm.terminal_on_display_next) back v.chosen;
      mapped = mapped;
      video = ap (λ f. PageEntry.addr (f video_at)) g ∙ v.video ∙ ap own_page back;
    }

spawn-IsKernelSafe :
    (ebp esp : ℕ) (k : Kernel)
    → get_next_avail_pid k.pid_bitmap < 6
    → IsKernelSafe k
    → IsKernelSafe (spawn ebp esp k)
unfolding spawn
spawn-IsKernelSafe ebp esp k small v =
    let p = get_next_avail_pid k.pid_bitmap in
    let old = upd k.pid_of 0 (inc8 (k.pid_of 0)) k.terminals.terminal_curr in
    let k1 = init_pcb old ebp esp (allocate k) in
    let frame = init_pcb-frame old ebp esp (allocate k) in
    let curr =
      curr_pid-same (allocate k) k1 frame.0 (init_pcb-variables old ebp esp (allocate k)).0
      ∙ (allocate-frame k).1 in
    terminals_kept k (activate k1) ((activate-frame k1).0 ∙ frame.0 ∙ (allocate-frame k).0)
      ((activate-frame k1).2 ∙ ap (λ (g : Paging). g.page_tab) (frame.1 ∙ (allocate-frame k).2))
      (spawn-IsConsistent k ebp esp v.running.low v.running.high small v.consistent)
      (λ q e.
        subst (IsUserPage ((activate k1).paging.page_dir user_dir))
          (pos-injective p q (sym curr ∙ sym (activate-frame k1).1 ∙ e))
          (activate-page k1 p curr small))
      v

load_program-IsKernelSafe :
    (inode : ℕ) (k : Kernel) → IsKernelSafe k → Outcome IsKernelSafe (load_program inode k)
unfolding load_program buffer_of
load_program-IsKernelSafe inode k v = elim (Option-cases (read_data k.fs inode 24 (λ _. 0) 4)) [
  | inl e ↦ rw (Outcome, e) tt
  | inr ((r, eip), e) ↦
      rw (Outcome, e)
        (if_holds (Outcome {R = ℕ} IsKernelSafe)
          (stores_behind (read_data k.fs inode 0 (shift page 0x48000) (page_rest + 1))) (λ _. tt)
          (λ _. read eip))
]
  where
    page : Buf
    page = k.user_mem k.curr_prog_base_phys

    read :
        (eip : Buf)
        → Outcome {R = ℕ} IsKernelSafe
            (elim (buffer_of (read_data k.fs inode 0 (shift page 0x48000) 0x14048000)) [
              | none ↦ none
              | some b ↦ some (
                word eip 0,
                record k {
                  user_mem =
                      upd k.user_mem k.curr_prog_base_phys
                        (λ i. if ltb i 0x48000 then page i else b (i - 0x48000));
                  esp0 = get_kernel_stack_bottom k;
                },
              )
            ])
    read eip = elim (Option-cases (read_data k.fs inode 0 (shift page 0x48000) 0x14048000)) [
      | inl e ↦ rw e tt
      | inr ((r, b), e) ↦ rw e (terminals_kept k _ refl refl v.consistent v.mapped v)
    ]

args-IsKernelSafe :
    (k : Kernel) (args : Buf) → IsKernelSafe k → IsKernelSafe (record k { args = args })
args-IsKernelSafe k args v =
    terminals_kept k (record k { args = args }) refl refl v.consistent v.mapped v

run_file-IsKernelSafe :
    (name : Buf) (ebp esp : ℕ) (k : Kernel)
    → get_next_avail_pid k.pid_bitmap < 6
    → IsKernelSafe k
    → Outcome IsKernelSafe (run_file name ebp esp k)
unfolding run_file buffer_of
run_file-IsKernelSafe name ebp esp k small v =
    elim (Option-cases (read_dentry_by_name k.fs (some name) (λ _. 0))) [
      | inl e ↦ rw (Outcome, e) tt
      | inr (fail, e) ↦ rw (Outcome, e) v
      | inr (entry d, e) ↦
          rw (Outcome, e)
            (if_holds (Outcome {R = ExecResult} IsKernelSafe) (not (file_type d == 2)) (λ _. v)
              (λ _. start_file d))
    ]
  where
    start_program :
        (d : Buf)
        → Outcome {R = ExecResult} IsKernelSafe
            (elim (load_program (inode_num d) (spawn ebp esp k)) [
              | none ↦ none
              | some (eip, k') ↦ some (entered eip, k')
            ])
    start_program d = elim (Option-cases (load_program (inode_num d) (spawn ebp esp k))) [
      | inl e ↦ rw e tt
      | inr ((eip, k'), e) ↦ rw e (
          subst (Outcome {R = ℕ} IsKernelSafe) e (
            load_program-IsKernelSafe (inode_num d) (spawn ebp esp k)
              (spawn-IsKernelSafe ebp esp k small v)))
    ]

    start_file :
        (d : Buf)
        → Outcome {R = ExecResult} IsKernelSafe
            (elim (buffer_of (read_data k.fs (inode_num d) 0 name 4)) [
              | none ↦ none
              | some head ↦
                  if not (is_zero (strncmp exe_check head 4))
                  then some (exec_failed, k)
                  else elim (load_program (inode_num d) (spawn ebp esp k)) [
                    | none ↦ none
                    | some (eip, k') ↦ some (entered eip, k')
                  ]
            ])
    start_file d = elim (Option-cases (read_data k.fs (inode_num d) 0 name 4)) [
      | inl e ↦ rw e tt
      | inr ((r, head), e) ↦ rw e (
          if_holds (Outcome {R = ExecResult} IsKernelSafe)
            (not (is_zero (strncmp exe_check head 4))) (λ _. v) (λ _. start_program d))
    ]

or_false : (a b : Bool) → (a || b) ≡ false → b ≡ false
or_false true b e = cc
or_false false b e = e

room : (k : Kernel) → is_full k ≡ false → get_next_avail_pid k.pid_bitmap < 6
room k e =
    let free = get_next_avail_pid-IsFreePid k.pid_bitmap in
    let n = or_false _ (get_next_avail_pid k.pid_bitmap == 6) e in ground (arith, free.bound)

-- Every call of `execute` that returns or enters a program leaves a consistent process table, and the
-- page of user programs is that of the running process.
pub execute-IsKernelSafe :
    (command : Option Buf) (behind : Buf) (ebp esp : ℕ) (k : Kernel)
    → IsKernelSafe k
    → Outcome IsKernelSafe (execute command behind ebp esp k)
unfolding execute run_command
execute-IsKernelSafe none behind ebp esp k v = v
execute-IsKernelSafe (some command) behind ebp esp k v =
    if_holds (Outcome {R = ExecResult} IsKernelSafe) (is_full k) (λ _. v)
      (λ free. elim (Option-cases (parse_command command behind)) [
        | inl e ↦ rw (Outcome, e) tt
        | inr (rejected, e) ↦ rw (Outcome, e) v
        | inr (parsed name rest, e) ↦ elim (Option-cases (strlen (shift command rest))) [
          | inl e' ↦ rw (Outcome, e, e') tt
          | inr (n, e') ↦
              rw (Outcome, e, e')
                (if_holds (Outcome {R = ExecResult} IsKernelSafe) (leb args_size n) (λ _. tt)
                  (λ _. fitting name rest free))
        ]
      ])
  where
    fitting :
        (name : Buf) (rest : ℕ)
        → is_full k ≡ false
        → Outcome {R = ExecResult} IsKernelSafe (elim (strcpy k.args (shift command rest)) [
          | none ↦ none
          | some args ↦ run_file name ebp esp (record k { args = args })
        ])
    fitting name rest free = elim (Option-cases (strcpy k.args (shift command rest))) [
      | inl e ↦ rw e tt
      | inr (args, e) ↦ rw e (
          run_file-IsKernelSafe name ebp esp (record k { args = args }) (room k free)
            (args-IsKernelSafe k args v))
    ]
