-- ===== src/Handler/Typing.antt =====
-- What one interrupt of the keyboard does to the buffers of `Keyboard`.
use iaaa_os.Base.{
  ℕ, ◌<◌, ◌≡◌, ◌≢◌, refl, arith, false, leb, ◌==◌, if◌then◌else◌, if_holds, Buf, upd,
}
use iaaa_os.Keyboard.{Keyboard, kb_buffer, kb_buf_add_1_char, kb_buf_add_tab, kb_buf_clear}
use iaaa_os.Keyboard.Buffer.{
  IsBounded, add_char-IsBounded, add_spaces-IsBounded, remove-IsBounded, clear-IsBounded,
}
use iaaa_os.System.{System, terminals_of, shown, remap, on_screen}
use iaaa_os.Screen.{update_cursor, clear_screen}
use iaaa_os.Handler.{
  KeyEnd, returned, user_halted, unmap, leave, request_exit, control, type_char, enter, backspace,
  letter, press, is_ignored, type_key, note_keys, note_ctrl, note_case, keyboard_handler_call,
  scan_code_translate, num_keys,
}

-- The state that the handler leaves, however it ends.
abbrev pub final : KeyEnd → System
final (returned s) = s
final (user_halted s) = s

-- All three buffers end with a NUL, and no count is above 131.
abbrev pub IsSafe : System → Type 0
IsSafe s = (j : ℕ) → IsBounded 131 j s.keyboard

leave-keyboard : (s : System) → (leave s).keyboard ≡ s.keyboard
unfolding leave unmap remap
leave-keyboard s =
    if_holds (λ (s' : System). s'.keyboard ≡ s.keyboard)
      ((terminals_of s).terminal_curr == (terminals_of s).terminal_on_display_curr) (λ _. refl)
      (λ _. refl)

leave-IsSafe : (s : System) → IsSafe s → IsSafe (leave s)
leave-IsSafe s v j = rw (leave-keyboard s) (v j)

unmap-keyboard : (s : System) → (unmap s).keyboard ≡ s.keyboard
unfolding unmap remap
unmap-keyboard s =
    if_holds (λ (s' : System). s'.keyboard ≡ s.keyboard)
      ((terminals_of s).terminal_curr == (terminals_of s).terminal_on_display_curr) (λ _. refl)
      (λ _. refl)

type_char-IsSafe :
    (ch : ℕ) (s : System)
    → IsSafe s
    → s.keyboard.kb_buf_num (shown s) < kb_buffer
    → IsSafe (type_char ch s)
unfolding type_char kb_buf_add_1_char
type_char-IsSafe ch s v h j =
    add_char-IsBounded 131 j (shown s) ch (record s.keyboard { c = ch })
      (record { ends = (v j).ends; count = (v j).count }) (omega arith)

letter-IsSafe :
    (behind : Buf) (key : ℕ) (s : System)
    → IsSafe s
    → s.keyboard.kb_buf_num (shown s) < kb_buffer
    → IsSafe (letter behind key s)
unfolding letter
letter-IsSafe behind key s v h =
    let type : (ch : ℕ) → IsSafe (type_char ch s) = λ ch. type_char-IsSafe ch s v h in
    if_holds IsSafe (leb num_keys key) (λ _. v)
      (λ _.
        if_holds IsSafe (s.keyboard.shift_flag == 1)
          (λ _. if_holds IsSafe (key == 42) (λ _. v) (λ _. type (scan_code_translate behind 2 key)))
          (λ _.
            if_holds IsSafe (s.keyboard.caps_flag == 1)
              (λ _. type (scan_code_translate behind 1 key))
              (λ _. type (scan_code_translate behind 0 key))))

backspace-IsSafe : (s : System) → IsSafe s → IsSafe (backspace s)
unfolding backspace
backspace-IsSafe s v =
    if_holds IsSafe (s.keyboard.kb_buf_num (shown s) == 0) (λ _. v)
      (λ _ j. remove-IsBounded 131 j (shown s) s.keyboard (v j))

tab-IsSafe :
    (s : System)
    → IsSafe s
    → s.keyboard.kb_buf_num (shown s) < kb_buffer
    → (j : ℕ) → IsBounded 131 j (kb_buf_add_tab (shown s) s.keyboard)
unfolding kb_buf_add_tab
tab-IsSafe s v h j = add_spaces-IsBounded 4 131 j (shown s) s.keyboard (v j) (omega arith)

press-IsSafe :
    (behind : Buf) (key : ℕ) (s : System)
    → IsSafe s
    → (key ≢ 0x0E → s.keyboard.kb_buf_num (shown s) < kb_buffer)
    → IsSafe (press behind key s)
unfolding press
press-IsSafe behind key s v h =
    if_holds IsSafe (key == 0x39) (λ e. type_char-IsSafe b' ' s v (h (ground arith)))
      (λ _.
        if_holds IsSafe (key == 0x0F) (λ e j. tab-IsSafe s v (h (ground arith)) j)
          (λ _.
            if_holds IsSafe (key == 0x0E) (λ _. backspace-IsSafe s v)
              (λ n.
                if_holds IsSafe (key == 0x01) (λ _. v)
                  (λ _. letter-IsSafe behind key s v (h (ground arith))))))

room :
    (key : ℕ) (s : System)
    → is_ignored key s ≡ false
    → (key == 0x1C) ≡ false
    → key ≢ 0x0E
    → s.keyboard.kb_buf_num (shown s) < kb_buffer
unfolding is_ignored
room key s h n d = ground arith

zero_count :
    (j i : ℕ) (k : Keyboard)
    → IsBounded 131 j k
    → IsBounded 131 j (record k { kb_buf_num = upd k.kb_buf_num i 0 })
zero_count j i k v = let c = v.count in record { ends = v.ends; count = ground arith }

enter-IsSafe : (s : System) → IsSafe s → IsSafe (enter s)
unfolding enter
enter-IsSafe s v j =
    let w = zero_count j (shown s) s.keyboard (v j) in
    rw (unmap-keyboard _) (record { ends = w.ends; count = w.count })

type_key-IsSafe : (behind : Buf) (key : ℕ) (s : System) → IsSafe s → IsSafe (type_key behind key s)
unfolding type_key note_case
type_key-IsSafe behind key s v =
    let s1 = record s { keyboard = note_case key s.keyboard } in
    let v1 : IsSafe s1 = λ j. record { ends = (v j).ends; count = (v j).count } in
    if_holds IsSafe (is_ignored key s) (λ _. leave-IsSafe s v)
      (λ n.
        if_holds IsSafe (key == 0x1C) (λ _. enter-IsSafe s1 v1)
          (λ n'.
            leave-IsSafe (press behind key s1) (press-IsSafe behind key s1 v1 (room key s n n'))))

request_exit-IsSafe : (s : System) → IsSafe s → IsSafe (final (request_exit s))
unfolding request_exit
request_exit-IsSafe s v =
    let i = shown s in
    let k0 = record s.keyboard { kb_buf_num = upd s.keyboard.kb_buf_num i 0 } in
    let w : (j : ℕ) → IsBounded 131 j (kb_buf_clear i k0) =
      λ j. clear-IsBounded 131 j i k0 (zero_count j i s.keyboard (v j)) in
    if_holds (λ e. IsSafe (final e))
      ((terminals_of s).terminal_curr == (terminals_of s).terminal_on_display_curr) (λ _. w)
      (λ _. leave-IsSafe _ (λ j. record { ends = (w j).ends; count = (w j).count }))

control-IsSafe : (s : System) → IsSafe s → IsSafe (final (control s))
unfolding control
control-IsSafe s v =
    let s1 =
      if s.keyboard.l_flag == 0
      then s
      else on_screen (λ tm page screen. update_cursor tm 0 0 (clear_screen tm page screen)) s in
    let v1 : IsSafe s1 = if_holds IsSafe (s.keyboard.l_flag == 0) (λ _. v) (λ _. v) in
    if_holds (λ e. IsSafe (final e)) (s.keyboard.c_flag == 0) (λ _. leave-IsSafe s1 v1)
      (λ _. request_exit-IsSafe s1 v1)

-- Whatever the key, an interrupt of the keyboard keeps a NUL at the end of each terminal's buffer and
-- each count at most 131, also when the handler calls `user_halt`.
pub keyboard_handler_call-IsSafe :
    (behind : Buf) (key : ℕ) (s : System)
    → IsSafe s
    → IsSafe (final (keyboard_handler_call behind key s))
unfolding keyboard_handler_call note_keys note_ctrl remap
keyboard_handler_call-IsSafe behind key s v =
    let s1 = record s { keyboard = note_keys key s.keyboard } in
    let s2 = remap 0 s1 in
    let s3 = record s2 { keyboard = note_ctrl behind key s2.keyboard } in
    let v3 : IsSafe s3 = λ j. record { ends = (v j).ends; count = (v j).count } in
    if_holds (λ e. IsSafe (final e)) (s1.keyboard.alt_flag == 1)
      (λ _ j. record { ends = (v j).ends; count = (v j).count })
      (λ _.
        if_holds (λ e. IsSafe (final e)) (s3.keyboard.ctrl_flag == 1) (λ _. control-IsSafe s3 v3)
          (λ _. type_key-IsSafe behind key s3 v3))
