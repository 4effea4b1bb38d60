-- ===== src/Descriptors.antt =====
-- The segment descriptors of student-distrib/x86_desc.h, and those that `entry` of student-distrib/kernel.c
-- makes for the table of local descriptors and the task state segment.
use iaaa_os.Base.{ℕ, ◌+◌, ◌*◌, ◌/◌, ◌%◌, ◌^◌, ◌<◌, ◌≡◌, arith}

-- `seg_desc_t`
pub record SegDesc : Type 0 where
  pub seg_lim_15_00 : ℕ
  pub base_15_00 : ℕ
  pub base_23_16 : ℕ
  pub type : ℕ
  pub sys : ℕ
  pub dpl : ℕ
  pub present : ℕ
  pub seg_lim_19_16 : ℕ
  pub avail : ℕ
  pub reserved : ℕ
  pub opsize : ℕ
  pub granularity : ℕ
  pub base_31_24 : ℕ

-- The two words `val` of the union: the fields lie from the low bits on.
unfoldable pub val_low : SegDesc → ℕ
val_low d = d.seg_lim_15_00 + 2 ^ 16 * d.base_15_00

unfoldable pub val_high : SegDesc → ℕ
val_high d =
    d.base_23_16
    + 2 ^ 8 * d.type
    + 2 ^ 12 * d.sys
    + 2 ^ 13 * d.dpl
    + 2 ^ 15 * d.present
    + 2 ^ 16 * d.seg_lim_19_16
    + 2 ^ 20 * d.avail
    + 2 ^ 21 * d.reserved
    + 2 ^ 22 * d.opsize
    + 2 ^ 23 * d.granularity
    + 2 ^ 24 * d.base_31_24

-- SET_LDT_PARAMS, and SET_TSS_PARAMS, which has the same text.
unfoldable pub set_params : ℕ → ℕ → SegDesc → SegDesc
set_params addr lim d = record d {
  base_31_24 = addr / 2 ^ 24 % 2 ^ 8;
  base_23_16 = addr / 2 ^ 16 % 2 ^ 8;
  base_15_00 = addr % 2 ^ 16;
  seg_lim_19_16 = lim / 2 ^ 16 % 2 ^ 4;
  seg_lim_15_00 = lim % 2 ^ 16;
}

-- A local variable of `entry` has what lay on the stack.
unfoldable pub the_ldt_desc : SegDesc → ℕ → ℕ → SegDesc
unfolding set_params
the_ldt_desc junk ldt ldt_size = set_params ldt ldt_size (record junk {
  granularity = 0;
  opsize = 1;
  reserved = 0;
  avail = 0;
  present = 1;
  dpl = 0;
  sys = 0;
  type = 2;
})

abbrev pub tss_bytes : ℕ
tss_bytes = 104

-- TSS_SIZE & 0x000F0000 is stored in four bits.
unfoldable pub the_tss_desc : SegDesc → ℕ → ℕ → SegDesc
unfolding set_params
the_tss_desc junk tss tss_size = set_params tss tss_size (record junk {
  granularity = 0;
  opsize = 0;
  reserved = 0;
  avail = 0;
  seg_lim_19_16 = tss_bytes / 2 ^ 16 % 2 ^ 4 * 2 ^ 16 % 2 ^ 4;
  present = 1;
  dpl = 0;
  sys = 0;
  type = 9;
  seg_lim_15_00 = tss_bytes % 2 ^ 16;
})

-- How the processor reads the two words of a descriptor.
abbrev pub base_of : ℕ → ℕ → ℕ
base_of low high = low / 2 ^ 16 + 2 ^ 16 * (high % 2 ^ 8) + 2 ^ 24 * (high / 2 ^ 24)

abbrev pub limit_of : ℕ → ℕ → ℕ
limit_of low high = low % 2 ^ 16 + 2 ^ 16 * (high / 2 ^ 16 % 2 ^ 4)

-- Type, S, DPL and P.
abbrev pub access_of : ℕ → ℕ
access_of high = high / 2 ^ 8 % 2 ^ 8

-- For an address of 32 bits and a limit of 20, the two words of the descriptors say to the processor: the base
-- and the limit that were given, in bytes, present, for the kernel, a table of local descriptors (type 2) and
-- an available 32-bit task state segment (type 9).
pub descriptors_lem :
    (junk : SegDesc) (addr lim : ℕ)
    → addr < 2 ^ 32
    → lim < 2 ^ 20
    → (let d = the_ldt_desc junk addr lim in
        (base_of (val_low d) (val_high d) ≡ addr)
        × (limit_of (val_low d) (val_high d) ≡ lim)
        × (access_of (val_high d) ≡ 0x82)
        × (val_high d / 2 ^ 23 % 2 ≡ 0))
      × (let t = the_tss_desc junk addr lim in
          (base_of (val_low t) (val_high t) ≡ addr)
          × (limit_of (val_low t) (val_high t) ≡ lim)
          × (access_of (val_high t) ≡ 0x89)
          × (val_high t / 2 ^ 23 % 2 ≡ 0))
unfolding the_ldt_desc the_tss_desc val_low val_high
descriptors_lem junk addr lim h l = (
  (omega arith, omega arith, omega arith, omega arith),
  (omega arith, omega arith, omega arith, omega arith),
)
