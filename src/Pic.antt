-- ===== src/Pic.antt =====
-- student-distrib/i8259.c: the two interrupt controllers, with the constants of i8259.h. A write to a
-- port is an entry of `outs`, the latest in front.
pub mod Masks
pub mod Ports
use iaaa_os.Base.{ℕ, ◌+◌, ◌-◌, ◌*◌, ◌%◌, ◌^◌, List, [], ◌∷◌, ltb, if◌then◌else◌, bit_and, bit_or}

pub record Pic : Type 0 where
  pub master_mask : ℕ
  pub slave_mask : ℕ
  pub outs : List (ℕ × ℕ)

abbrev pub master_command : ℕ
master_command = 0x20

abbrev pub slave_command : ℕ
slave_command = 0xA0

abbrev pub master_data : ℕ
master_data = 0x21

abbrev pub slave_data : ℕ
slave_data = 0xA1

abbrev pub icw3_slave : ℕ
icw3_slave = 0x02

abbrev pub eoi : ℕ
eoi = 0x60

-- The port comes second, as in the source.
abbrev pub outb : ℕ → ℕ → Pic → Pic
outb value port p = record p { outs = (value, port) ∷ p.outs }

-- `mask & ~(1 << irq_num)` and `mask | (1 << irq_num)`, stored in a uint8_t.
unfoldable pub clear_bit : ℕ → ℕ → ℕ
clear_bit mask irq = bit_and mask (2 ^ 32 - 1 - 2 ^ irq) % 256

unfoldable pub set_bit : ℕ → ℕ → ℕ
set_bit mask irq = bit_or mask (2 ^ irq) % 256

-- `irq_num` is unsigned, so the tests `irq_num < 0` are never true.
unfoldable pub enable_irq : ℕ → Pic → Pic
enable_irq irq p =
    if ltb 15 irq
    then p
    else if ltb irq 8
    then (let q = record p { master_mask = clear_bit p.master_mask irq } in
        outb q.master_mask master_data q)
    else let q = record p { slave_mask = clear_bit p.slave_mask (irq - 8) } in
      outb q.slave_mask slave_data q

unfoldable pub disable_irq : ℕ → Pic → Pic
disable_irq irq p =
    if ltb 15 irq
    then p
    else if ltb irq 8
    then (let q = record p { master_mask = set_bit p.master_mask irq } in
        outb q.master_mask master_data q)
    else let q = record p { slave_mask = set_bit p.slave_mask (irq - 8) } in
      outb q.slave_mask slave_data q

unfoldable pub send_eoi : ℕ → Pic → Pic
send_eoi irq p =
    if ltb 15 irq
    then p
    else if ltb irq 8
    then outb (bit_or eoi irq) master_command p
    else outb (bit_or eoi icw3_slave) master_command (outb (bit_or eoi (irq - 8)) slave_command p)

-- ICW1 to ICW4 to both controllers, the masks, and the line of the slave.
unfoldable pub i8259_init : Pic → Pic
unfolding enable_irq
i8259_init p =
    let a = record p { master_mask = 0xFF; slave_mask = 0xFF } in
    let b = outb 0x11 slave_command (outb 0x11 master_command a) in
    let c = outb 0x28 slave_data (outb 0x20 master_data b) in
    let d = outb icw3_slave slave_data (outb 0x04 master_data c) in
    let e = outb 0x01 slave_data (outb 0x01 master_data d) in
    let f = outb e.slave_mask slave_data (outb e.master_mask master_data e) in
    enable_irq icw3_slave f
