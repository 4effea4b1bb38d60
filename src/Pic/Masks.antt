-- ===== src/Pic/Masks.antt =====
-- Which interrupt lines `enable_irq` and `disable_irq` change.
use iaaa_os.Base.{
  ℕ, ◌-◌, ◌/◌, ◌%◌, ◌^◌, ◌<◌, ◌≡◌, refl, arith, ltb, ◌==◌, ◌&&◌, if◌then◌else◌, passes_under,
  passes_under_each, Bool,
}
use iaaa_os.Pic.{Pic, clear_bit, set_bit, enable_irq, disable_irq}

abbrev pub bit : ℕ → ℕ → ℕ
bit m k = m / 2 ^ k % 2

-- 1 if the line is masked in the registers kept by the kernel.
pub masked : Pic → ℕ → ℕ
masked p irq = if ltb irq 8 then bit p.master_mask irq else bit p.slave_mask (irq - 8)

pub record IsByteMasks (p : Pic) : Type 0 where
  pub master : p.master_mask < 256
  pub slave : p.slave_mask < 256

bits_agree : ℕ → ℕ → ℕ → Bool
bits_agree m irq k =
    bit (clear_bit m irq) k == (if k == irq then 0 else bit m k)
    && bit (set_bit m irq) k == (if k == irq then 1 else bit m k)

-- All lines of one controller, for one mask.
mask_agrees : ℕ → Bool
mask_agrees m = passes_under (λ irq. passes_under (bits_agree m irq) 8) 8

bits_table : passes_under mask_agrees 256 ≡ Bool.true
unfolding passes_under mask_agrees bits_agree clear_bit set_bit
bits_table = refl

bits_checked :
    (m irq k : ℕ)
    → m < 256
    → irq < 8
    → k < 8
    → (bit (clear_bit m irq) k ≡ (if k == irq then 0 else bit m k))
      × (bit (set_bit m irq) k ≡ (if k == irq then 1 else bit m k))
unfolding mask_agrees bits_agree
bits_checked m irq k hm hi hk =
    let a = passes_under_each mask_agrees 256 m hm bits_table in
    let b = passes_under_each (λ irq. passes_under (bits_agree m irq) 8) 8 irq hi a in
    let c = passes_under_each (bits_agree m irq) 8 k hk b in ground (arith, c)

-- `enable_irq` clears the mask of its line, and leaves that of each of the other fifteen.
pub enable_irq-masked :
    (p : Pic) (irq k : ℕ)
    → IsByteMasks p
    → irq < 16
    → k < 16
    → masked (enable_irq irq p) k ≡ (if k == irq then 0 else masked p k)
unfolding enable_irq masked
enable_irq-masked p irq k v hi hk = ground (
  arith,
  bits_checked p.master_mask irq k v.master,
  bits_checked p.slave_mask (irq - 8) (k - 8) v.slave,
)

-- `disable_irq` sets the mask of its line, and leaves that of each of the other fifteen.
pub disable_irq-masked :
    (p : Pic) (irq k : ℕ)
    → IsByteMasks p
    → irq < 16
    → k < 16
    → masked (disable_irq irq p) k ≡ (if k == irq then 1 else masked p k)
unfolding disable_irq masked
disable_irq-masked p irq k v hi hk = ground (
  arith,
  bits_checked p.master_mask irq k v.master,
  bits_checked p.slave_mask (irq - 8) (k - 8) v.slave,
)

-- Of the sixteen lines, `enable_irq` clears the mask of its own and `disable_irq` sets it; neither changes
-- that of another line.
pub masked_lem :
    (p : Pic) (irq k : ℕ)
    → IsByteMasks p
    → irq < 16
    → k < 16
    → (masked (enable_irq irq p) k ≡ (if k == irq then 0 else masked p k))
      × (masked (disable_irq irq p) k ≡ (if k == irq then 1 else masked p k))
masked_lem p irq k v hi hk = (enable_irq-masked p irq k v hi hk, disable_irq-masked p irq k v hi hk)
