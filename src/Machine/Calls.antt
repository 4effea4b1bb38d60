-- ===== src/Machine/Calls.antt =====
-- The calls on files and `vidmap`, with what `Process.Safety` has a quiet call leave alone.
use iaaa_os.Base.{
  ℕ, ◌+◌, refl, ◌==◌, ◌||◌, ltb, leb, if_holds, Buf, ℤ, pos, negsuc, inl, inr, some, Option-cases,
  u32, is_zero,
}
use iaaa_os.Str.{strncmp}
use iaaa_os.FileSystem.{fail, entry, file_type, inode_num, num_dir_entries, read_dentry_by_name}
use iaaa_os.Paging.{map_user_vidmap, user_base_virt, user_base_virt_4mb}
use iaaa_os.Kernel.{Kernel, Fd, rtc_ops, dir_ops, file_ops, curr_pcb}
use iaaa_os.Rtc.{Rtc, rtc_open}
use iaaa_os.Files.{
  rtc_index, rtc_name, fd_of, set_fd, free_fd, open_switch, open_call, dir_read, advance,
}
use iaaa_os.Syscalls.{vidmap, store_user}
use iaaa_os.Process.Safety.{
  IsQuiet, IsQuiet-self, IsQuiet-trans, IsQuiet-parts, set_fd-IsQuiet, Outcome,
}

pub clock-IsQuiet : (k : Kernel) (r : Rtc) → IsQuiet k (record k { rtc = r })
clock-IsQuiet k r = IsQuiet-parts k (record k { rtc = r }) refl refl refl (λ at. refl) refl

open_switch-IsQuiet : (i kind inode : ℕ) (k : Kernel) → IsQuiet k (open_switch i kind inode k).1
unfolding open_switch
open_switch-IsQuiet i kind inode k =
    let P : ℤ × Kernel → Type 0 = λ r. IsQuiet k r.1 in
    let set : (d : Fd) → IsQuiet k (set_fd i d k) = λ d. set_fd-IsQuiet i d k in
    if_holds P (kind == 0)
      (λ _.
        IsQuiet-trans k _ _ (set (record { file_op = rtc_ops; inode = 0; file_pos = 0; flags = 1 }))
          (clock-IsQuiet
            (set_fd i (record { file_op = rtc_ops; inode = 0; file_pos = 0; flags = 1 }) k)
            (rtc_open (rtc_index k) k.rtc).1))
      (λ _.
        if_holds P (kind == 1)
          (λ _. set (record { file_op = dir_ops; inode = 0; file_pos = 0; flags = 1 }))
          (λ _.
            if_holds P (kind == 2)
              (λ _. set (record { file_op = file_ops; inode = inode; file_pos = 0; flags = 1 }))
              (λ _. set (record (fd_of k i) { flags = 1 }))))

pub open_call-IsQuiet : (name : Buf) (k : Kernel) → Outcome (IsQuiet k) (open_call name k)
unfolding open_call
open_call-IsQuiet name k =
    let i = free_fd (curr_pcb k).fd_arr in
    let P = Outcome {R = ℤ} (IsQuiet k) in
    if_holds P (i == 8) (λ _. IsQuiet-self k)
      (λ _.
        if_holds P (is_zero (strncmp name rtc_name 4)) (λ _. open_switch-IsQuiet i 0 0 k)
          (λ _. elim (Option-cases (read_dentry_by_name k.fs (some name) (λ _. 0))) [
            | inl e ↦ rw e tt
            | inr (fail, e) ↦ rw e (IsQuiet-self k)
            | inr (entry d, e) ↦ rw e (open_switch-IsQuiet i (file_type d) (inode_num d) k)
          ]))

pub dir_read-IsQuiet : (fd : ℕ) (buf : Buf) (n : ℕ) (k : Kernel) → IsQuiet k (dir_read fd buf n k).2
unfolding dir_read
dir_read-IsQuiet fd buf n k =
    let d = fd_of k fd in
    if_holds (λ (r : ℤ × Buf × Kernel). IsQuiet k r.2) (leb (num_dir_entries k.fs) d.file_pos)
      (λ _. IsQuiet-self k)
      (λ _. set_fd-IsQuiet fd (record d { file_pos = u32 (d.file_pos + 1) }) k)

pub advance-IsQuiet : (fd : ℕ) (r : ℤ) (k : Kernel) → IsQuiet k (advance fd r k)
unfolding advance
advance-IsQuiet fd (pos n) k =
    set_fd-IsQuiet fd (record (fd_of k fd) { file_pos = u32 ((fd_of k fd).file_pos + n) }) k
advance-IsQuiet fd (negsuc n) k = IsQuiet-self k

pub vidmap-IsQuiet :
    (screen_start : ℕ) (k : Kernel) → Outcome {R = ℤ} (IsQuiet k) (vidmap screen_start k)
unfolding vidmap store_user map_user_vidmap
vidmap-IsQuiet screen_start k =
    if_holds (Outcome {R = ℤ} (IsQuiet k))
      (ltb screen_start user_base_virt || leb user_base_virt_4mb screen_start) (λ _. IsQuiet-self k)
      (λ _.
        if_holds (Outcome {R = ℤ} (IsQuiet k)) (ltb user_base_virt_4mb (screen_start + 4)) (λ _. tt)
          (λ _. record {
            mild = record {
              running = refl;
              pid_of = refl;
              pid_bitmap = refl;
              parent = λ at. refl;
              page = refl;
            };
            terminals = refl;
            video = refl;
          }))
