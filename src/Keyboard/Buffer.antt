-- ===== src/Keyboard/Buffer.antt =====
-- What the keyboard's buffers keep: a NUL at their end, and a bound on the count.
use native.Mathlib.Decide.{ℕ_discrete, dec_lt}
use iaaa_os.Base.{ℕ, zero, suc, ◌+◌, ◌≤◌, ◌<◌, ◌≡◌, refl, ◌∙◌, arith, Buf, upd}
use iaaa_os.Keyboard.{
  Keyboard, kb_buffer, add_char, add_spaces, kb_buf_add_1_char, kb_buf_remove_last_char, zero_from,
  kb_buf_clear,
}

-- The buffer of terminal `j + 1` ends with the NUL behind its 128 bytes, and its count is at most `bound`.
pub record IsBounded (bound j : ℕ) (k : Keyboard) : Type 0 where
  pub ends : k.kb_buf j 128 ≡ 0
  pub count : k.kb_buf_num j ≤ bound

pub add_char-IsBounded :
    (b j i ch : ℕ) (k : Keyboard)
    → IsBounded b j k
    → k.kb_buf_num i < b
    → IsBounded b j (add_char i ch k)
unfolding add_char
add_char-IsBounded b j i ch k v h =
    let e = v.ends in
    let c = v.count in
    record {
      ends = ground arith;
      count = elim (ℕ_discrete i j) [ yes same ↦ ground arith | no d ↦ ground arith ];
    }

add_char-count : (i ch : ℕ) (k : Keyboard) → (add_char i ch k).kb_buf_num i ≡ k.kb_buf_num i + 1
unfolding add_char
add_char-count i ch k = ground arith

pub add_spaces-IsBounded :
    (n b j i : ℕ) (k : Keyboard)
    → IsBounded b j k
    → k.kb_buf_num i + n ≤ b
    → IsBounded b j (add_spaces n i k)
unfolding add_spaces
add_spaces-IsBounded zero b j i k v h = v
add_spaces-IsBounded (suc n) b j i k v h =
    let c = add_char-count i b' ' k in
    add_spaces-IsBounded n b j i (add_char i b' ' k)
      (add_char-IsBounded b j i b' ' k v (omega arith)) (omega arith)

pub remove-IsBounded :
    (b j i : ℕ) (k : Keyboard) → IsBounded b j k → IsBounded b j (kb_buf_remove_last_char i k)
unfolding kb_buf_remove_last_char
remove-IsBounded b j i k v =
    let e = v.ends in let c = v.count in record { ends = ground arith; count = ground arith }

zero_from-above : (n i j : ℕ) (b : Buf) → n + i ≤ j → zero_from n i b j ≡ b j
unfolding zero_from
zero_from-above zero i j b h = refl
zero_from-above (suc n) i j b h =
    zero_from-above n (i + 1) j (upd b i 0) (omega arith) ∙ ground arith

zero_from-below : (n i j : ℕ) (b : Buf) → j < i → zero_from n i b j ≡ b j
unfolding zero_from
zero_from-below zero i j b h = refl
zero_from-below (suc n) i j b h =
    zero_from-below n (i + 1) j (upd b i 0) (omega arith) ∙ ground arith

zero_from-inside : (n i j : ℕ) (b : Buf) → i ≤ j → j < n + i → zero_from n i b j ≡ 0
unfolding zero_from
zero_from-inside zero i j b l h = absurd (omega arith)
zero_from-inside (suc n) i j b l h = elim (dec_lt i j) [
  | yes d ↦ zero_from-inside n (i + 1) j (upd b i 0) (omega arith) (omega arith)
  | no d ↦
      let e : i ≡ j = omega arith in
      zero_from-below n (i + 1) j (upd b i 0) (omega arith) ∙ ground arith
]

pub kb_buf_clear_lem : (i j : ℕ) (k : Keyboard) → j < 128 → (kb_buf_clear i k).kb_buf i j ≡ 0
unfolding kb_buf_clear
kb_buf_clear_lem i j k h =
    let z = zero_from-inside 128 0 j (k.kb_buf i) (omega arith) (omega arith) in ground arith

pub clear-IsBounded :
    (b j i : ℕ) (k : Keyboard) → IsBounded b j k → IsBounded b j (kb_buf_clear i k)
unfolding kb_buf_clear
clear-IsBounded b j i k v =
    let e = v.ends in
    let z = zero_from-above kb_buffer 0 128 (k.kb_buf i) (omega arith) in
    record {
      ends = elim (ℕ_discrete i j) [ yes same ↦ ground arith | no d ↦ ground arith ];
      count = v.count;
    }

-- The two states give each terminal the same buffer, count and full flag.
pub record IsSameTyped (k k' : Keyboard) : Type 0 where
  pub byte : (j m : ℕ) → k.kb_buf j m ≡ k'.kb_buf j m
  pub count : (j : ℕ) → k.kb_buf_num j ≡ k'.kb_buf_num j
  pub full : (j : ℕ) → k.kb_buf_full_flag j ≡ k'.kb_buf_full_flag j

same_byte :
    (k : Keyboard) (i : ℕ)
    → k.kb_buf_num i < kb_buffer
    → k.kb_buf i (k.kb_buf_num i) ≡ 0
    → (j m : ℕ) → (kb_buf_remove_last_char i (kb_buf_add_1_char i k)).kb_buf j m ≡ k.kb_buf j m
unfolding kb_buf_remove_last_char kb_buf_add_1_char add_char
same_byte k i room blank j m = elim (ℕ_discrete j i) [
  | yes e ↦ elim (ℕ_discrete m (k.kb_buf_num i)) [ yes e' ↦ ground arith | no d ↦ ground arith ]
  | no d ↦ ground arith
]

-- Backspace undoes a typed character: if the buffer of the terminal has room, is zero at its count, and
-- is not marked full, then adding a character and removing it again gives every terminal the buffer, the
-- count and the full flag that it had.
pub remove-add :
    (k : Keyboard) (i : ℕ)
    → k.kb_buf_num i < kb_buffer
    → k.kb_buf i (k.kb_buf_num i) ≡ 0
    → k.kb_buf_full_flag i ≡ 0
    → IsSameTyped (kb_buf_remove_last_char i (kb_buf_add_1_char i k)) k
unfolding kb_buf_remove_last_char kb_buf_add_1_char add_char
remove-add k i room blank full = record {
  byte = same_byte k i room blank;
  count = λ j. elim (ℕ_discrete j i) [ yes e ↦ ground arith | no d ↦ ground arith ];
  full = λ j. elim (ℕ_discrete j i) [ yes e ↦ ground arith | no d ↦ ground arith ];
}
