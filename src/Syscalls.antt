-- ===== src/Syscalls.antt =====
-- The system calls of student-distrib/system_calls.c that neither start or end a program nor open or
-- close a file: `getargs`, `vidmap`, `set_handler`, `sigreturn`, and the guards of `read` and `write`.
pub mod Guards
use iaaa_os.Base.{
  ℕ, zero, suc, ◌+◌, ◌-◌, ◌/◌, ◌%◌, ◌^◌, upd, Bool, true, false, ltb, leb, ◌==◌, ◌||◌,
  if◌then◌else◌, Buf, ℤ, pos, negsuc, minus_one, Option, none, some,
}
use iaaa_os.Str.{strlen, strncpy}
use iaaa_os.Paging.{user_base_virt, user_base_virt_4mb, user_base_virt_8mb, map_user_vidmap}
use iaaa_os.Kernel.{FileOps, Kernel}
use iaaa_os.Files.{fd_of}

-- The comparison with `nbytes` is unsigned, so a negative count is a large one. `none`: the arguments
-- have no end in memory.
unfoldable pub getargs : Buf → ℕ → Kernel → Option (ℤ × Buf)
getargs buf nbytes k = elim (strlen k.args) [
  | none ↦ none
  | some n ↦
      if leb nbytes n || k.args 0 == 0
      then some (minus_one, buf)
      else some (pos 0, strncpy buf k.args nbytes)
]

-- A double word is stored in the page of the running program, `offset` bytes into it.
unfoldable pub store_user : ℕ → ℕ → Kernel → Kernel
store_user offset value k =
    let page = k.user_mem k.curr_prog_base_phys in
    let b = upd (upd page offset (value % 256)) (offset + 1) (value / 2 ^ 8 % 256) in
    let b' = upd (upd b (offset + 2) (value / 2 ^ 16 % 256)) (offset + 3) (value / 2 ^ 24 % 256) in
    record k { user_mem = upd k.user_mem k.curr_prog_base_phys b' }

-- `none`: the store of the four bytes of `*screen_start` reaches behind the page of the program, where no
-- page is, and faults.
unfoldable pub vidmap : ℕ → Kernel → Option (ℤ × Kernel)
unfolding store_user
vidmap screen_start k =
    if ltb screen_start user_base_virt || leb user_base_virt_4mb screen_start
    then some (minus_one, k)
    else if ltb user_base_virt_4mb (screen_start + 4)
    then none
    else some (
      pos 0,
      store_user (screen_start - user_base_virt) user_base_virt_8mb
          (record k { paging = map_user_vidmap k.paging }),
    )

unfoldable pub set_handler : ℤ → ℕ → ℤ
set_handler signum handler_address = pos 0

unfoldable pub sigreturn : ℤ
sigreturn = pos 0

-- A call is refused, or goes to the function of a table with a descriptor.
pub data Dispatch : Type 0 where
  refused : Dispatch
  called : FileOps → ℕ → Dispatch

unfoldable pub read : ℤ → Kernel → Dispatch
read (negsuc n) k = refused
read (pos fd) k =
    if fd == 1 || leb 8 fd
    then refused
    else if (fd_of k fd).flags == 0
    then refused
    else called (fd_of k fd).file_op fd

unfoldable pub write : ℤ → Kernel → Dispatch
write (negsuc n) k = refused
write (pos fd) k =
    if fd == 0 || leb 8 fd
    then refused
    else if (fd_of k fd).flags == 0
    then refused
    else called (fd_of k fd).file_op fd
