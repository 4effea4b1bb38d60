-- ===== src/Machine/Keys.antt =====
-- An interrupt of the keyboard, on the kernel: its terminals and the page of video memory.
use iaaa_os.Base.{
  ℕ, ◌+◌, ◌≤◌, ◌≡◌, refl, sym, ap, subst, ◌∙◌, arith, true, false, ◌==◌, leb, if◌then◌else◌,
  if_holds, Buf, Bool,
}
use iaaa_os.Terminals.{Terminals}
use iaaa_os.Paging.{change_video_phys_addr}
use iaaa_os.Kernel.{Kernel}
use iaaa_os.Keyboard.{Keyboard}
use iaaa_os.System.{System, terminals_of, shown, remap, on_screen}
use iaaa_os.Handler.{
  KeyEnd, unmap, leave, request_exit, control, type_char, enter, backspace, letter, press,
  is_ignored, type_key, note_keys, note_ctrl, note_case, choose_terminal, keyboard_handler_call,
  num_keys,
}
use iaaa_os.Handler.Typing.{final}
use iaaa_os.Screen.{update_cursor, clear_screen}
use iaaa_os.Process.Safety.{
  IsTerminal, IsMild, IsMild-trans, IsMild-IsKernelSafe, IsKernelSafe, video_at,
}

-- `remap`, on the kernel's part of the state.
abbrev pub remapped : ℕ → Kernel → Kernel
remapped n k = record k {
  paging = change_video_phys_addr n k.paging;
  terminals = record k.terminals { terminal_type = n };
}

pub remapped-IsMild : (n : ℕ) (k : Kernel) → IsMild k (remapped n k)
unfolding change_video_phys_addr
remapped-IsMild n k = record {
  running = refl;
  pid_of = refl;
  pid_bitmap = refl;
  parent = λ at. refl;
  page = refl;
}

pub remapped-video :
    (n : ℕ) (k : Kernel) → n ≤ 3 → ((remapped n k).paging.page_tab video_at).addr ≡ video_at + n
unfolding change_video_phys_addr
remapped-video n k h = ground arith

-- `unmap`, on the kernel's part.
abbrev pub unmapped : Kernel → Kernel
unmapped k =
    if k.terminals.terminal_curr == k.terminals.terminal_on_display_curr
    then k
    else remapped k.terminals.terminal_curr k

pub if_ap :
    {A B : Type 0} (f : A → B) (b : Bool) (x y : A)
    → f (if b then x else y) ≡ (if b then f x else f y)
if_ap f true x y = refl
if_ap f false x y = refl

unmap-kernel : (s : System) → (unmap s).kernel ≡ unmapped s.kernel
unfolding unmap remap
unmap-kernel s =
    if_ap (λ (s' : System). s'.kernel)
      ((terminals_of s).terminal_curr == (terminals_of s).terminal_on_display_curr) _ _

letter-kernel : (behind : Buf) (key : ℕ) (s : System) → (letter behind key s).kernel ≡ s.kernel
unfolding letter type_char
letter-kernel behind key s =
    let P : System → Type 0 = λ s'. s'.kernel ≡ s.kernel in
    if_holds P (leb num_keys key) (λ _. refl)
      (λ _.
        if_holds P (s.keyboard.shift_flag == 1)
          (λ _. if_holds P (key == 42) (λ _. refl) (λ _. refl))
          (λ _. if_holds P (s.keyboard.caps_flag == 1) (λ _. refl) (λ _. refl)))

backspace-kernel : (s : System) → (backspace s).kernel ≡ s.kernel
unfolding backspace
backspace-kernel s =
    if_holds (λ (s' : System). s'.kernel ≡ s.kernel) (s.keyboard.kb_buf_num (shown s) == 0)
      (λ _. refl) (λ _. refl)

press-kernel : (behind : Buf) (key : ℕ) (s : System) → (press behind key s).kernel ≡ s.kernel
unfolding press type_char
press-kernel behind key s =
    let P : System → Type 0 = λ s'. s'.kernel ≡ s.kernel in
    if_holds P (key == 0x39) (λ _. refl)
      (λ _.
        if_holds P (key == 0x0F) (λ _. refl)
          (λ _.
            if_holds P (key == 0x0E) (λ _. backspace-kernel s)
              (λ _. if_holds P (key == 0x01) (λ _. refl) (λ _. letter-kernel behind key s))))

leave-kernel : (s : System) → (leave s).kernel ≡ unmapped s.kernel
unfolding leave
leave-kernel s = unmap-kernel _

type_key-kernel :
    (behind : Buf) (key : ℕ) (s : System) → (type_key behind key s).kernel ≡ unmapped s.kernel
unfolding type_key enter
type_key-kernel behind key s =
    let P : System → Type 0 = λ s'. s'.kernel ≡ unmapped s.kernel in
    let s1 = record s { keyboard = note_case key s.keyboard } in
    if_holds P (is_ignored key s) (λ _. leave-kernel s)
      (λ _.
        if_holds P (key == 0x1C) (λ _. unmap-kernel _)
          (λ _. leave-kernel (press behind key s1) ∙ ap unmapped (press-kernel behind key s1)))

unmapped-shown :
    (k : Kernel)
    → (k.terminals.terminal_curr == k.terminals.terminal_on_display_curr) ≡ true
    → k ≡ unmapped k
unmapped-shown k e = rw e refl

request_exit-kernel : (s : System) → (final (request_exit s)).kernel ≡ unmapped s.kernel
unfolding request_exit
request_exit-kernel s =
    if_holds (λ (e : KeyEnd). (final e).kernel ≡ unmapped s.kernel)
      ((terminals_of s).terminal_curr == (terminals_of s).terminal_on_display_curr)
      (λ e. unmapped-shown s.kernel e) (λ _. leave-kernel _)

control-kernel : (s : System) → (final (control s)).kernel ≡ unmapped s.kernel
unfolding control
control-kernel s =
    let s1 =
      if s.keyboard.l_flag == 0
      then s
      else on_screen (λ tm page screen. update_cursor tm 0 0 (clear_screen tm page screen)) s in
    let same : s1.kernel ≡ s.kernel =
      if_holds (λ (s' : System). s'.kernel ≡ s.kernel) (s.keyboard.l_flag == 0) (λ _. refl)
        (λ _. refl) in
    if_holds (λ (e : KeyEnd). (final e).kernel ≡ unmapped s.kernel) (s.keyboard.c_flag == 0)
      (λ _. leave-kernel s1 ∙ ap unmapped same) (λ _. request_exit-kernel s1 ∙ ap unmapped same)

-- Video memory is that of a running terminal that is not shown.
pub hidden-IsKernelSafe :
    (k : Kernel)
    → (k.terminals.terminal_curr == k.terminals.terminal_on_display_curr) ≡ false
    → IsKernelSafe k
    → IsKernelSafe (remapped k.terminals.terminal_curr (remapped 0 k))
hidden-IsKernelSafe k e v =
    let t = k.terminals.terminal_curr in
    let k0 = remapped 0 k in
    IsMild-IsKernelSafe k (remapped t k0)
      (IsMild-trans k k0 (remapped t k0) (remapped-IsMild 0 k) (remapped-IsMild t k0)) v.shown
      v.chosen (remapped-video t k0 v.running.high ∙ rw e refl) v

-- Video memory goes back to the running terminal.
own-IsKernelSafe : (k : Kernel) → IsKernelSafe k → IsKernelSafe (unmapped (remapped 0 k))
own-IsKernelSafe k v =
    if_holds IsKernelSafe (k.terminals.terminal_curr == k.terminals.terminal_on_display_curr)
      (λ e.
        IsMild-IsKernelSafe k (remapped 0 k) (remapped-IsMild 0 k) v.shown v.chosen
          (remapped-video 0 k (omega arith) ∙ rw e refl) v)
      (λ e. hidden-IsKernelSafe k e v)

choose_terminal-frame :
    (b : Keyboard) (tm : Terminals)
    → let tm' = choose_terminal b tm in
      (tm'.terminal_curr ≡ tm.terminal_curr)
      × (tm'.terminal_on_display_curr ≡ tm.terminal_on_display_curr)
      × (IsTerminal tm.terminal_on_display_next → IsTerminal tm'.terminal_on_display_next)
unfolding choose_terminal
choose_terminal-frame b tm = (
  ground arith,
  ground arith,
  λ v. record { low = ground (arith, v.low); high = ground (arith, v.high) },
)

choose_terminal-IsKernelSafe :
    (b : Keyboard) (k : Kernel)
    → IsKernelSafe k
    → IsKernelSafe (record k { terminals = choose_terminal b k.terminals })
choose_terminal-IsKernelSafe b k v =
    let (curr, display, next) = choose_terminal-frame b k.terminals in
    let k' = record k { terminals = choose_terminal b k.terminals } in
    IsMild-IsKernelSafe k k'
      (record {
        running = curr;
        pid_of = refl;
        pid_bitmap = refl;
        parent = λ at. refl;
        page = refl;
      })
      (subst IsTerminal (sym display) v.shown) (next v.chosen) (v.video ∙ rw (curr, display) refl) v

-- After an interrupt of the keyboard, however it ends.
pub keyboard_handler_call-IsKernelSafe :
    (behind : Buf) (key : ℕ) (s : System)
    → IsKernelSafe s.kernel
    → IsKernelSafe (final (keyboard_handler_call behind key s)).kernel
unfolding keyboard_handler_call note_keys note_ctrl remap
keyboard_handler_call-IsKernelSafe behind key s v =
    let P : KeyEnd → Type 0 = λ e. IsKernelSafe (final e).kernel in
    let s1 = record s { keyboard = note_keys key s.keyboard } in
    let s2 = remap 0 s1 in
    let s3 = record s2 { keyboard = note_ctrl behind key s2.keyboard } in
    let own = own-IsKernelSafe s.kernel v in
    if_holds P (s1.keyboard.alt_flag == 1)
      (λ _. choose_terminal-IsKernelSafe s1.keyboard s.kernel v)
      (λ _.
        if_holds P (s3.keyboard.ctrl_flag == 1)
          (λ _. subst IsKernelSafe (sym (control-kernel s3)) own)
          (λ _. subst IsKernelSafe (sym (type_key-kernel behind key s3)) own))
