-- ===== src/Machine/Faults.antt =====
-- An exception in a running program.
use iaaa_os.Base.{ℕ, ◌<◌, ◌≡◌, ◌∙◌, refl, ap, subst, arith, pos, some}
use iaaa_os.Kernel.{Kernel, curr_pid, curr_pcb}
use iaaa_os.Files.Table.{HasValidFds}
use iaaa_os.System.{System}
use iaaa_os.System.Print.{Surroundings, IsMemory}
use iaaa_os.Exceptions.{exception_handler_select, Printed, select-Printed, select_total}
use iaaa_os.Process.{halt, resumed}
use iaaa_os.Process.Resumes.{halt_lem}
use iaaa_os.Machine.{Entry, exception, handle, after_exception, with_kernel}

-- An exception, of any number, ends a running program that has a parent and valid descriptors: the message
-- is printed to its end, and `execute` of the parent returns 256. In the state behind the exception the parent
-- runs and the number of the program is free.
pub exception-resumes :
    (m : Surroundings) (irq error cr2 : ℕ) (at : Entry) (s : System) (p q : ℕ)
    → IsMemory m
    → irq < 0x100000000
    → error < 0x100000000
    → cr2 < 0x100000000
    → curr_pid s.kernel ≡ pos p
    → p < 6
    → (curr_pcb s.kernel).parent_id ≡ pos q
    → HasValidFds s.kernel
    → (s1 : System) × (k' : Kernel) × (exception_handler_select m irq error cr2 s ≡ some s1)
      × (halt 256 at.behind at.ebp at.esp s1.kernel ≡ some (resumed 256, k'))
      × (handle (exception m irq error cr2 at) s ≡ some (with_kernel s1 k'))
      × (curr_pid k' ≡ pos q)
      × (k'.pid_bitmap p ≡ 0)
unfolding handle after_exception
exception-resumes m irq error cr2 at s p q memory hi he hc run l parent v =
    let (s1, e) = select_total m memory irq error cr2 s hi he hc in
    let printed = subst (Printed s) e (select-Printed m irq error cr2 s) in
    let (k', r, ends, status, next, free) =
      halt_lem 256 at.behind at.ebp at.esp s.kernel p q run l parent v in
    let ends' =
      ap (λ (k : Kernel). halt 256 at.behind at.ebp at.esp k) printed.0
      ∙ ends
      ∙ ap (λ (n : ℕ). some (resumed n, k')) (status.0 refl) in
    (s1, k', e, ends', steps s1 k' e ends', next, free p ∙ ground arith)
  where
    steps :
        (s1 : System) (k' : Kernel)
        → exception_handler_select m irq error cr2 s ≡ some s1
        → halt 256 at.behind at.ebp at.esp s1.kernel ≡ some (resumed 256, k')
        → handle (exception m irq error cr2 at) s ≡ some (with_kernel s1 k')
    steps s1 k' e ends = rw (e, ends, handle, after_exception) refl
