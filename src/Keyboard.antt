-- ===== src/Keyboard.antt =====
-- The buffers of student-distrib/keyboard.c, one for each terminal, and the flags of its keys. The
-- argument `i` is `terminal_on_display_curr - 1`.
pub mod Buffer
use iaaa_os.Base.{ℕ, zero, suc, ◌+◌, ◌-◌, ltb, ◌==◌, if◌then◌else◌, Arr, Buf, upd}

pub record Keyboard : Type 0 where
  pub kb_buf : Arr Buf
  pub kb_buf_num : Arr ℕ
  pub enter_flag : Arr ℕ
  pub kb_buf_full_flag : Arr ℕ
  pub kb_exit_flag : Arr ℕ
  pub terminal_read_flag : Arr ℕ
  pub caps_flag : ℕ
  pub shift_flag : ℕ
  pub ctrl_flag : ℕ
  pub l_flag : ℕ
  pub c_flag : ℕ
  pub c : ℕ
  pub alt_flag : ℕ
  pub f1_flag : ℕ
  pub f2_flag : ℕ
  pub f3_flag : ℕ

abbrev pub kb_buffer : ℕ
kb_buffer = 128

-- One character goes to the buffer, or the full flag is set; the count goes up in both cases.
unfoldable pub add_char : ℕ → ℕ → Keyboard → Keyboard
add_char i ch k =
    let n = k.kb_buf_num i in
    let k1 =
      if ltb n kb_buffer
      then record k { kb_buf = upd k.kb_buf i (upd (k.kb_buf i) n ch) }
      else record k { kb_buf_full_flag = upd k.kb_buf_full_flag i 1 } in
    record k1 { kb_buf_num = upd k1.kb_buf_num i (n + 1) }

unfoldable pub kb_buf_add_1_char : ℕ → Keyboard → Keyboard
kb_buf_add_1_char i k = add_char i k.c k

-- The loop of `kb_buf_add_tab`.
unfoldable pub add_spaces : ℕ → ℕ → Keyboard → Keyboard
unfolding add_char
add_spaces zero i k = k
add_spaces (suc rounds) i k = add_spaces rounds i (add_char i b' ' k)

unfoldable pub kb_buf_add_tab : ℕ → Keyboard → Keyboard
kb_buf_add_tab i k = add_spaces 4 i k

unfoldable pub kb_buf_remove_last_char : ℕ → Keyboard → Keyboard
kb_buf_remove_last_char i k =
    let n = k.kb_buf_num i - 1 in
    if k.kb_buf_num i == 0
    then k
    else if ltb n kb_buffer
    then record k {
      kb_buf_num = upd k.kb_buf_num i n;
      kb_buf = upd k.kb_buf i (upd (k.kb_buf i) n 0);
      kb_buf_full_flag = upd k.kb_buf_full_flag i 0;
    }
    else record k { kb_buf_num = upd k.kb_buf_num i n }

-- The loop of `kb_buf_clear`.
pub zero_from : ℕ → ℕ → Buf → Buf
zero_from zero j b = b
zero_from (suc rounds) j b = zero_from rounds (j + 1) (upd b j 0)

unfoldable pub kb_buf_clear : ℕ → Keyboard → Keyboard
kb_buf_clear i k = record k {
  kb_buf = upd k.kb_buf i (zero_from kb_buffer 0 (k.kb_buf i));
  kb_buf_full_flag = upd k.kb_buf_full_flag i 0;
}
