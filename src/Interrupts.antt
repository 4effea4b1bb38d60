-- ===== src/Interrupts.antt =====
-- `IDT_init` of student-distrib/handler_setup.c: the gates of the 256 vectors. `lidt` only tells the
-- processor where the table is.
use iaaa_os.Base.{
  ℕ, zero, suc, ◌+◌, ◌<◌, ◌≡◌, ◌⊎◌, ◌↔◌, ◌∙◌, sym, subst, arith, ltb, leb, ◌==◌, ◌&&◌,
  if◌then◌else◌, Arr, upd,
}

-- The functions that a gate leads to.
pub data Target : Type 0 where
  exception_array : ℕ → Target
  system_call_check : Target
  call_rtc_handler : Target
  keyboard_handler : Target
  call_pit_handler : Target

-- `idt_desc_t`, with the offset as the function behind it.
pub record Gate : Type 0 where
  pub target : Target
  pub seg_selector : ℕ
  pub reserved4 : ℕ
  pub reserved3 : ℕ
  pub reserved2 : ℕ
  pub reserved1 : ℕ
  pub size : ℕ
  pub reserved0 : ℕ
  pub dpl : ℕ
  pub present : ℕ

abbrev pub kernel_cs : ℕ
kernel_cs = 0x10

-- A 32-bit interrupt gate that is not present.
abbrev pub empty_gate : Gate → Gate
empty_gate g = record g {
  seg_selector = kernel_cs;
  reserved4 = 0;
  reserved3 = 0;
  reserved2 = 1;
  reserved1 = 1;
  size = 1;
  reserved0 = 0;
  dpl = 0;
  present = 0;
}

abbrev pub set_idt_entry : Target → Gate → Gate
set_idt_entry f g = record g { target = f; present = 1 }

-- The body of the loop.
unfoldable pub init_gate : ℕ → Gate → Gate
init_gate i g =
    let e = empty_gate g in
    if ltb i 0x20
    then set_idt_entry (exception_array i) e
    else if i == 0x80
    then set_idt_entry system_call_check e
    else if i == 0x28
    then set_idt_entry call_rtc_handler e
    else if i == 0x21
    then set_idt_entry keyboard_handler e
    else if i == 0x20
    then set_idt_entry call_pit_handler e
    else e

pub idt_from : ℕ → ℕ → Arr Gate → Arr Gate
idt_from zero i idt = idt
idt_from (suc rounds) i idt = idt_from rounds (i + 1) (upd idt i (init_gate i (idt i)))

unfoldable pub idt_init : Arr Gate → Arr Gate
unfolding idt_from
idt_init idt = idt_from 256 0 idt

idt_from_lem :
    (n i j : ℕ) (idt : Arr Gate)
    → idt_from n i idt j ≡ (if leb i j && ltb j (i + n) then init_gate j (idt j) else idt j)
unfolding idt_from
idt_from_lem zero i j idt = ground arith
idt_from_lem (suc n) i j idt =
    idt_from_lem n (i + 1) j (upd idt i (init_gate i (idt i))) ∙ ground arith

-- The vectors that the kernel serves: the exceptions, the timer, the keyboard, the clock and the calls.
abbrev pub IsServed : ℕ → Type 0
IsServed j = (j < 0x20) ⊎ (j ≡ 0x20) ⊎ (j ≡ 0x21) ⊎ (j ≡ 0x28) ⊎ (j ≡ 0x80)

init_gate-IsServed : (j : ℕ) (g : Gate) → ((init_gate j g).present ≡ 1) ↔ IsServed j
unfolding init_gate
init_gate-IsServed j g = (λ h. ground arith, λ h. ground arith)

-- What each vector's gate leads to, if it is served, with the kernel's privilege on all.
pub record IsGate (j : ℕ) (g : Gate) : Type 0 where
  pub served : (g.present ≡ 1) ↔ IsServed j
  pub privilege : (g.dpl ≡ 0) × (g.seg_selector ≡ kernel_cs) × (g.size ≡ 1)
  pub exceptions : j < 0x20 → g.target ≡ exception_array j
  pub timer : j ≡ 0x20 → g.target ≡ call_pit_handler
  pub keyboard : j ≡ 0x21 → g.target ≡ keyboard_handler
  pub clock : j ≡ 0x28 → g.target ≡ call_rtc_handler
  pub calls : j ≡ 0x80 → g.target ≡ system_call_check

init_gate-IsGate : (j : ℕ) (g : Gate) → IsGate j (init_gate j g)
unfolding init_gate
init_gate-IsGate j g = record {
  served = init_gate-IsServed j g;
  privilege = (ground arith, ground arith, ground arith);
  exceptions = λ h. ground arith;
  timer = λ h. ground arith;
  keyboard = λ h. ground arith;
  clock = λ h. ground arith;
  calls = λ h. ground arith;
}

pub idt_init-IsGate : (idt : Arr Gate) (j : ℕ) → j < 256 → IsGate j (idt_init idt j)
unfolding idt_init
idt_init-IsGate idt j h =
    let e : idt_from 256 0 idt j ≡ init_gate j (idt j) = idt_from_lem 256 0 j idt ∙ ground arith in
    subst (IsGate j) (sym e) (init_gate-IsGate j (idt j))
