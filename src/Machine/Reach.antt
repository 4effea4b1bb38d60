-- ===== src/Machine/Reach.antt =====
-- The events of `Machine`, one by one, and the states that they reach.
use iaaa_os.Base.{
  ℕ, ◌+◌, ◌*◌, ◌<◌, ◌≡◌, sym, subst, if_holds, Buf, pos, inl, inr, Option, none, some, Option-cases,
}
use iaaa_os.Paging.Walk.{walk}
use iaaa_os.Paging.{user_base_virt, tab_num_addrs, shell_base_phys}
use iaaa_os.Kernel.{Kernel, curr_pid, null_ops, rtc_ops, dir_ops, file_ops, terminal_ops}
use iaaa_os.Keyboard.Buffer.{IsBounded}
use iaaa_os.System.{System}
use iaaa_os.Process.Safety.{
  IsKernelSafe, IsQuiet, IsQuiet-IsKernelSafe, Outcome, close-IsQuiet, IsUserPage-walk,
}
use iaaa_os.Handler.Typing.{final, IsSafe, keyboard_handler_call-IsSafe}
use iaaa_os.Rtc.{rtc_handler, rtc_write}
use iaaa_os.FileSystem.{read_data}
use iaaa_os.Files.{rtc_index, fd_of, open_call, close, advance, file_read}
use iaaa_os.Syscalls.{Dispatch, refused, called, read, write, vidmap}
use iaaa_os.Process.{execute, halt}
use iaaa_os.Process.Calls.{execute-IsKernelSafe}
use iaaa_os.Process.Halts.{halt-IsKernelSafe}
use iaaa_os.Terminal.{is_waiting, read_begin, read_reset, terminal_write}
use iaaa_os.Handler.{KeyEnd, keyboard_handler_call}
use iaaa_os.Scheduler.{PitEnd, stayed, started, switched, pit_handler}
use iaaa_os.Machine.{
  exception, after_exception, Entry, Event, key_interrupt, timer_interrupt, clock_interrupt,
  execute_call, halt_call, open_file, close_file, read_file, write_file, vidmap_call, read_ends,
  with_kernel, after_call, after_key, after_tick, rtc_begin, read_with, write_with, handle,
  Reachable, booted, after,
}
use iaaa_os.Machine.Keys.{keyboard_handler_call-IsKernelSafe}
use iaaa_os.Machine.Tick.{Tick, pit_handler-IsKernelSafe}
use iaaa_os.Machine.Buffers.{
  TickIsSafe, pit_handler-IsSafe, write_from-frame, read_begin-IsSafe, read_reset-IsSafe,
}
use iaaa_os.Machine.Calls.{
  clock-IsQuiet, open_call-IsQuiet, dir_read-IsQuiet, advance-IsQuiet, vidmap-IsQuiet,
}
use iaaa_os.Exceptions.{exception_handler_select, Printed, select-Printed}
use iaaa_os.Machine.Boot.{IsSystemSafe, boot-IsSystemSafe}

-- An event that leaves a state leaves a safe one.
abbrev After : Option System → Type 0
After none = Unit {0}
After (some s) = IsSystemSafe s

-- A call that ends in a safe kernel, and one that is quiet.
after_call-After :
    {R : Type 0} (s : System) (m : Option (R × Kernel))
    → IsSystemSafe s
    → Outcome IsKernelSafe m
    → After (after_call s m)
after_call-After s none v u = tt
after_call-After s (some (r, k)) v u = record { kernel = u; typed = v.typed }

quiet-IsSystemSafe :
    (s : System) (k : Kernel) → IsSystemSafe s → IsQuiet s.kernel k → IsSystemSafe (with_kernel s k)
quiet-IsSystemSafe s k v q = record {
  kernel = IsQuiet-IsKernelSafe s.kernel k q v.kernel;
  typed = v.typed;
}

after_call-quiet :
    {R : Type 0} (s : System) (m : Option (R × Kernel))
    → IsSystemSafe s
    → Outcome (IsQuiet s.kernel) m
    → After (after_call s m)
after_call-quiet s none v u = tt
after_call-quiet s (some (r, k)) v u = quiet-IsSystemSafe s k v u

after_key-After :
    (at : Entry) (e : KeyEnd)
    → IsKernelSafe (final e).kernel
    → IsSafe (final e)
    → After (after_key at e)
unfolding after_key
after_key-After at (KeyEnd.returned s) v w = record { kernel = v; typed = w }
after_key-After at (KeyEnd.user_halted s) v w =
    after_call-After s (halt 0 at.behind at.ebp at.esp s.kernel) (record { kernel = v; typed = w })
      (halt-IsKernelSafe 0 at.behind at.ebp at.esp s.kernel v)

after_tick-After :
    (at : Entry) (m : Option PitEnd) → Tick m → TickIsSafe m → After (after_tick at m)
unfolding after_tick
after_tick-After at none v w = tt
after_tick-After at (some (stayed s)) v w = record { kernel = v; typed = w }
after_tick-After at (some (started r s)) v w = record { kernel = v; typed = w }
after_tick-After at (some (switched esp ebp s)) v w = record { kernel = v; typed = w }
after_tick-After at (some (PitEnd.user_halted esp ebp s)) v w =
    after_call-After s (halt 0 at.behind at.ebp at.esp s.kernel) (record { kernel = v; typed = w })
      (halt-IsKernelSafe 0 at.behind at.ebp at.esp s.kernel v)

after_exception-After :
    (at : Entry) (s : System) (m : Option System)
    → IsSystemSafe s
    → Printed s m
    → After (after_exception at m)
unfolding after_exception
after_exception-After at s none v p = tt
after_exception-After at s (some s') v p =
    let w = subst IsKernelSafe (sym p.0) v.kernel in
    let typed : IsSafe s' = λ j. subst (IsBounded 131 j) (sym p.1) (v.typed j) in
    after_call-After s' (halt 256 at.behind at.ebp at.esp s'.kernel)
      (record { kernel = w; typed = typed })
      (halt-IsKernelSafe 256 at.behind at.ebp at.esp s'.kernel w)

read_with-After :
    (buf : Buf) (n : ℕ) (s : System) (d : Dispatch) → IsSystemSafe s → After (read_with buf n s d)
unfolding read_with file_read read_begin
read_with-After buf n s refused v = v
read_with-After buf n s (called null_ops fd) v = tt
read_with-After buf n s (called rtc_ops fd) v =
    quiet-IsSystemSafe s _ v (clock-IsQuiet s.kernel (rtc_begin (rtc_index s.kernel) s.kernel.rtc))
read_with-After buf n s (called dir_ops fd) v =
    quiet-IsSystemSafe s _ v (dir_read-IsQuiet fd buf n s.kernel)
read_with-After buf n s (called file_ops fd) v =
    let d = fd_of s.kernel fd in
    elim (Option-cases (read_data s.kernel.fs d.inode d.file_pos buf n)) [
      | inl e ↦ rw (After, e) tt
      | inr ((r, b), e) ↦
          rw (After, e)
            (quiet-IsSystemSafe s (advance fd r s.kernel) v (advance-IsQuiet fd r s.kernel))
    ]
read_with-After buf n s (called terminal_ops fd) v = record {
  kernel = v.kernel;
  typed = read_begin-IsSafe s v.typed;
}

write_with-After :
    (buf : Buf) (n : ℕ) (s : System) (d : Dispatch) → IsSystemSafe s → After (write_with buf n s d)
unfolding write_with terminal_write
write_with-After buf n s refused v = v
write_with-After buf n s (called null_ops fd) v = tt
write_with-After buf n s (called rtc_ops fd) v =
    quiet-IsSystemSafe s _ v
      (clock-IsQuiet s.kernel (rtc_write (rtc_index s.kernel) buf n s.kernel.rtc).1)
write_with-After buf n s (called dir_ops fd) v = v
write_with-After buf n s (called file_ops fd) v = v
write_with-After buf n s (called terminal_ops fd) v =
    let (keyboard, kernel) = write_from-frame n 0 buf s in
    record {
      kernel = subst IsKernelSafe (sym kernel) v.kernel;
      typed = λ j. subst (IsBounded 131 j) (sym keyboard) (v.typed j);
    }

-- Every event that leaves a state leaves a safe one, on each branch of its handler or call.
pub handle-IsSystemSafe : (e : Event) (s : System) → IsSystemSafe s → After (handle e s)
unfolding handle read_reset
handle-IsSystemSafe (key_interrupt behind key at) s v =
    after_key-After at (keyboard_handler_call behind key s)
      (keyboard_handler_call-IsKernelSafe behind key s v.kernel)
      (keyboard_handler_call-IsSafe behind key s v.typed)
handle-IsSystemSafe (timer_interrupt ebp esp at) s v =
    after_tick-After at (pit_handler ebp esp at.behind at.ebp at.esp s)
      (pit_handler-IsKernelSafe ebp esp at.behind at.ebp at.esp s v.kernel)
      (pit_handler-IsSafe ebp esp at.behind at.ebp at.esp s v.typed)
handle-IsSystemSafe clock_interrupt s v =
    let w = quiet-IsSystemSafe s _ v (clock-IsQuiet s.kernel (rtc_handler s.kernel.rtc)) in
    record { kernel = w.kernel; typed = w.typed }
handle-IsSystemSafe (exception memory irq error cr2 at) s v =
    after_exception-After at s (exception_handler_select memory irq error cr2 s) v
      (select-Printed memory irq error cr2 s)
handle-IsSystemSafe (execute_call command at) s v =
    after_call-After s (execute command at.behind at.ebp at.esp s.kernel) v
      (execute-IsKernelSafe command at.behind at.ebp at.esp s.kernel v.kernel)
handle-IsSystemSafe (halt_call status at) s v =
    after_call-After s (halt status at.behind at.ebp at.esp s.kernel) v
      (halt-IsKernelSafe status at.behind at.ebp at.esp s.kernel v.kernel)
handle-IsSystemSafe (open_file name) s v =
    after_call-quiet s (open_call name s.kernel) v (open_call-IsQuiet name s.kernel)
handle-IsSystemSafe (close_file fd) s v =
    after_call-quiet s (close fd s.kernel) v (close-IsQuiet fd s.kernel)
handle-IsSystemSafe (read_file fd buf n) s v = read_with-After buf n s (read fd s.kernel) v
handle-IsSystemSafe (write_file fd buf n) s v = write_with-After buf n s (write fd s.kernel) v
handle-IsSystemSafe (vidmap_call screen_start) s v =
    after_call-quiet s (vidmap screen_start s.kernel) v (vidmap-IsQuiet screen_start s.kernel)
handle-IsSystemSafe read_ends s v =
    if_holds After (is_waiting s) (λ _. tt)
      (λ _. record { kernel = v.kernel; typed = read_reset-IsSafe s v.typed })

-- In every state that events lead to from boot, in any order and number: the process table is
-- consistent; terminals 1 to 3 run, are shown and are chosen; the page at 128 MB is that of the running
-- process, for user programs; video memory is the display's page if the running terminal is shown, and
-- else its own background; and each keyboard buffer ends with a NUL, with a count of at most 131.
pub Reachable-IsSystemSafe : (s : System) → Reachable s → IsSystemSafe s
Reachable-IsSystemSafe s (booted _ b) = boot-IsSystemSafe s b
Reachable-IsSystemSafe s (after e s0 _ r h) =
    subst After h (handle-IsSystemSafe e s0 (Reachable-IsSystemSafe s0 r))

-- In every such state in which a process runs, its 4 MB at 128 MB are those of its number, behind those
-- of the processes before it, and a user program may use them.
pub Reachable-walk :
    (s : System) (p offset : ℕ)
    → Reachable s
    → curr_pid s.kernel ≡ pos p
    → offset < tab_num_addrs
    → walk s.kernel.paging (user_base_virt + offset)
      ≡ some (record { phys = shell_base_phys + p * tab_num_addrs + offset; user = 1 })
Reachable-walk s p offset r e h =
    IsUserPage-walk s.kernel.paging p offset ((Reachable-IsSystemSafe s r).kernel.mapped p e) h
