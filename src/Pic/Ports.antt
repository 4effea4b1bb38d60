-- ===== src/Pic/Ports.antt =====
-- What the controllers have been told: the masks in them are those in the kernel's variables.
use iaaa_os.Base.{
  ℕ, ◌-◌, ◌≡◌, refl, arith, ltb, ◌==◌, if◌then◌else◌, List, [], ◌∷◌, Option, none, some, bit_or,
}
use iaaa_os.Pic.{
  Pic, clear_bit, enable_irq, disable_irq, send_eoi, i8259_init, master_data, slave_data,
  master_command, slave_command, eoi, icw3_slave,
}

-- The latest value written to a port.
pub latest : ℕ → List (ℕ × ℕ) → Option ℕ
latest port [] = none
latest port ((v, q) ∷ outs) = if q == port then some v else latest port outs

-- Both mask registers of the hardware hold the masks that the kernel remembers.
pub record IsMirrored (p : Pic) : Type 0 where
  pub master : latest master_data p.outs ≡ some p.master_mask
  pub slave : latest slave_data p.outs ≡ some p.slave_mask

-- `i8259_init` masks every line but that of the slave, in the variables and in the hardware.
pub i8259_init_lem :
    (p : Pic)
    → IsMirrored (i8259_init p)
      × ((i8259_init p).master_mask ≡ 0xFB)
      × ((i8259_init p).slave_mask ≡ 0xFF)
unfolding i8259_init latest clear_bit
i8259_init_lem p = (record { master = refl; slave = refl }, refl, refl)

module _ (p : Pic) (irq : ℕ) (v : IsMirrored p) where
  pub enable_irq-IsMirrored : IsMirrored (enable_irq irq p)
  unfolding enable_irq latest
  enable_irq-IsMirrored = ground (arith, v)

  pub disable_irq-IsMirrored : IsMirrored (disable_irq irq p)
  unfolding disable_irq latest
  disable_irq-IsMirrored = ground (arith, v)

  pub send_eoi-IsMirrored : IsMirrored (send_eoi irq p)
  unfolding send_eoi latest
  send_eoi-IsMirrored = ground (arith, v)

-- After any sequence of calls the hardware's masks are the kernel's.
pub data Call : Type 0 where
  enables disables ends : ℕ → Call

pub run : List Call → Pic → Pic
run [] p = p
run (enables irq ∷ cs) p = run cs (enable_irq irq p)
run (disables irq ∷ cs) p = run cs (disable_irq irq p)
run (ends irq ∷ cs) p = run cs (send_eoi irq p)

run-IsMirrored' : (cs : List Call) (p : Pic) → IsMirrored p → IsMirrored (run cs p)
unfolding run
run-IsMirrored' [] p v = v
run-IsMirrored' (enables irq ∷ cs) p v = run-IsMirrored' cs _ (enable_irq-IsMirrored p irq v)
run-IsMirrored' (disables irq ∷ cs) p v = run-IsMirrored' cs _ (disable_irq-IsMirrored p irq v)
run-IsMirrored' (ends irq ∷ cs) p v = run-IsMirrored' cs _ (send_eoi-IsMirrored p irq v)

-- After `i8259_init` and any sequence of calls of `enable_irq`, `disable_irq` and `send_eoi`, the
-- mask registers of both controllers hold what `master_mask` and `slave_mask` say.
pub run-IsMirrored : (cs : List Call) (p : Pic) → IsMirrored (run cs (i8259_init p))
run-IsMirrored cs p = run-IsMirrored' cs (i8259_init p) (i8259_init_lem p).0

-- `send_eoi` ends a line of the slave at both controllers, the slave first, a line of the master at
-- the master alone, and nothing for a number above 15; the masks stay.
pub send_eoi_lem :
    (p : Pic) (irq : ℕ)
    → ((send_eoi irq p).outs ≡ (
        if ltb irq 8
        then (bit_or eoi irq, master_command) ∷ p.outs
        else if ltb irq 16
        then (bit_or eoi icw3_slave, master_command)
          ∷ (bit_or eoi (irq - 8), slave_command)
          ∷ p.outs
        else p.outs))
      × ((send_eoi irq p).master_mask ≡ p.master_mask)
      × ((send_eoi irq p).slave_mask ≡ p.slave_mask)
unfolding send_eoi
send_eoi_lem p irq = ground arith
