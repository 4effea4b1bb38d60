-- ===== src/Entry.antt =====
-- `entry` of student-distrib/kernel.c, with `pit_init` and `rtc_init`. Paging is off up to `enable_paging`, so
-- until then the console writes the physical page of video memory. The interrupts that `sti` lets in are
-- events behind `entry`.
pub mod Boots
pub mod Start
pub mod Shell
pub mod Refuses
use iaaa_os.Base.{
  ℕ, zero, suc, ◌+◌, ◌*◌, ◌/◌, ◌%◌, ◌^◌, Bool, true, false, ltb, leb, ◌==◌, ◌&&◌, not,
  if◌then◌else◌, Arr, Buf, shift, word, u32, bit_and, bit_or, Option, none, some, List, [], ◌∷◌,
  ◌++◌, codes,
}
use iaaa_os.Str.{mem_size}
use iaaa_os.FileSystem.{file_system_init}
use iaaa_os.Paging.{video_base, page_num_addrs}
use iaaa_os.Paging.Init.{paging_init}
use iaaa_os.Kernel.{Kernel}
use iaaa_os.Screen.{clear, clear_screen, update_cursor}
use iaaa_os.Pic.{i8259_init, enable_irq}
use iaaa_os.Interrupts.{Gate, idt_init}
use iaaa_os.Descriptors.{SegDesc, the_ldt_desc, the_tss_desc}
use iaaa_os.Programs.{text_of}
use iaaa_os.System.{System, on_screen}
use iaaa_os.System.Print.{Surroundings, print_on}

abbrev pub Act : Type 0
Act = System → Option System

infixr 5 ◌>=>◌
abbrev pub ◌>=>◌ : Act → Act → Act
◌>=>◌ f g s = elim (f s) [ none ↦ none | some s' ↦ g s' ]

abbrev pub nothing : Act
nothing s = some s

abbrev pub when : Bool → Act → Act
when b f = if b then f else nothing

-- CHECK_FLAG
abbrev pub check_flag : ℕ → ℕ → Bool
check_flag flags bit = flags / 2 ^ bit % 2 == 1

-- A `char` as the word on the stack.
abbrev pub char_word : ℕ → ℕ
char_word b = if ltb b 128 then b else b + 0xFFFFFF00

abbrev pub boot_page : ℕ
boot_page = video_base / page_num_addrs

-- What `entry` finds in memory: the information of the loader at `mbi`.
module _ (m : Surroundings) (mem : Buf) where
  abbrev pub say : List ℕ → List ℕ → Act
  say format args = print_on boot_page m (text_of format) args

  -- `for (i = 0; i < 16; i++)`
  pub say_bytes : ℕ → ℕ → Act
  say_bytes zero at = nothing
  say_bytes (suc rounds) at =
      say (codes "0x%x ") (char_word (mem at) ∷ []) >=> say_bytes rounds (at + 1)

  -- `rounds` is the number of modules that are left.
  pub say_modules : ℕ → ℕ → ℕ → Act
  say_modules zero mod_count at = nothing
  say_modules (suc rounds) mod_count at =
      say (codes "Module %d loaded at address: 0x%#x\n") (mod_count ∷ word mem at ∷ [])
      >=> say (codes "Module %d ends at address: 0x%#x\n") (mod_count ∷ word mem (at + 4) ∷ [])
      >=> say (codes "First few bytes of module:\n") []
      >=> say_bytes 16 (word mem at)
      >=> say (codes "\n") []
      >=> say_modules rounds (mod_count + 1) (at + 16)

  -- The memory map; `none` if it does not end within `fuel` entries.
  pub say_mmap : ℕ → ℕ → ℕ → Act
  say_mmap zero end at s = none
  say_mmap (suc fuel) end at s =
      if ltb at end
      then (say
              (codes
                "    size = 0x%x, base_addr = 0x%#x%#x\n    type = 0x%x,  length    = 0x%#x%#x\n")
              (word mem at
                ∷ word mem (at + 8)
                ∷ word mem (at + 4)
                ∷ word mem (at + 20)
                ∷ word mem (at + 16)
                ∷ word mem (at + 12)
                ∷ [])
            >=> say_mmap fuel end (u32 (at + word mem at + 4)))
          s
      else some s

  -- The lines about flags 0 to 3.
  unfoldable pub say_loader : ℕ → Act
  say_loader mbi =
      let flags = word mem mbi in
      say (codes "flags = 0x%#x\n") (flags ∷ [])
      >=> when (check_flag flags 0) (
          say (codes "mem_lower = %uKB, mem_upper = %uKB\n")
            (word mem (mbi + 4) ∷ word mem (mbi + 8) ∷ []))
      >=> when (check_flag flags 1) (say (codes "boot_device = 0x%#x\n") (word mem (mbi + 12) ∷ []))
      >=> when (check_flag flags 2) (say (codes "cmdline = %s\n") (word mem (mbi + 16) ∷ []))
      >=> when (check_flag flags 3) (say_modules (word mem (mbi + 20)) 0 (word mem (mbi + 24)))

  -- The lines about flags 5 and 6.
  unfoldable pub say_maps : ℕ → Act
  say_maps mbi =
      let flags = word mem mbi in
      when (check_flag flags 5) (
        say (codes "elf_sec: num = %u, size = 0x%#x, addr = 0x%#x, shndx = 0x%#x\n") (
          word mem (mbi + 28)
          ∷ word mem (mbi + 32)
          ∷ word mem (mbi + 36)
          ∷ word mem (mbi + 40)
          ∷ []))
      >=> when (check_flag flags 6) (
          say (codes "mmap_addr = 0x%#x, mmap_length = 0x%x\n")
            (word mem (mbi + 48) ∷ word mem (mbi + 44) ∷ [])
          >=> say_mmap mem_size (u32 (word mem (mbi + 48) + word mem (mbi + 44)))
              (word mem (mbi + 48)))

-- The fields of `tss_t` that `entry` sets, but `esp0`, which the kernel changes.
pub record Tss : Type 0 where
  pub ldt_segment_selector : ℕ
  pub ss0 : ℕ

-- The tables and the ports of the timer and the clock chip, with the latest write in front.
pub record Board : Type 0 where
  pub system : System
  pub idt : Arr Gate
  pub ldt_desc : SegDesc
  pub tss_desc : SegDesc
  pub tss : Tss
  pub outs : List (ℕ × ℕ)

unfoldable pub pit_init : Board → Board
pit_init b = record b { outs = (20 / 2 ^ 8, 0x40) ∷ (20 % 2 ^ 8, 0x40) ∷ (0x36, 0x43) ∷ b.outs }

-- `reg_a` and `reg_b` are what the two reads of port 0x71 give.
unfoldable pub rtc_init : ℕ → ℕ → Board → Board
rtc_init reg_a reg_b b = record b {
  outs =
      (0, 0x70)
      ∷ (bit_or reg_b 0x40, 0x71)
      ∷ (0x8B, 0x70)
      ∷ (0x8B, 0x70)
      ∷ (bit_or (bit_and reg_a 0xF0) 0x0A, 0x71)
      ∷ (0x8A, 0x70)
      ∷ (0x8A, 0x70)
      ∷ b.outs;
}

-- Addresses and sizes that the linker gives, and what lies on the stack.
pub record Layout : Type 0 where
  pub ldt : ℕ
  pub ldt_size : ℕ
  pub tss : ℕ
  pub tss_size : ℕ
  pub junk : SegDesc
  pub filesys_start : ℕ

-- The descriptors, the table of interrupts, the controllers and the devices, up to `pit_init`.
unfoldable pub init_tables : Layout → ℕ → ℕ → ℕ → Board → Board
unfolding pit_init rtc_init
init_tables at reg_a reg_b filesys_start_ptr b =
    let b1 = record b {
      ldt_desc = the_ldt_desc at.junk at.ldt at.ldt_size;
      tss_desc = the_tss_desc at.junk at.tss at.tss_size;
      tss = record { ldt_segment_selector = 0x38; ss0 = 0x18 };
      idt = idt_init b.idt;
    } in
    let s = record b1.system { kernel = record b1.system.kernel { esp0 = 0x800000 } } in
    let s1 = record s { pic = enable_irq 1 (i8259_init s.pic) } in
    let b2 = rtc_init reg_a reg_b (record b1 { system = s1 }) in
    let s2 = record s1 { pic = enable_irq 8 s1.pic } in
    let s3 = record s2 {
      kernel = record s2.kernel { fs = file_system_init s2.kernel.fs.mem filesys_start_ptr };
    } in
    let b3 = pit_init (record b2 { system = s3 }) in
    record b3 { system = record s3 { pic = enable_irq 0 s3.pic } }

-- Paging and the screen, behind `sti`, and the `clear` before the tests.
unfoldable pub init_paging : System → System
init_paging s =
    on_screen (λ tm page screen. clear page (update_cursor tm 0 0 (clear_screen tm page screen)))
      (record s { kernel = record s.kernel { paging = paging_init s.kernel.paging } })

-- `entry` returns, which ends in `boot.S`, or goes to `launch_tests` of student-distrib/tests.c, which
-- executes "shell".
pub data EntryEnd : Type 0 where
  returned : System → EntryEnd
  launches : Board → EntryEnd

abbrev pub magic_number : ℕ
magic_number = 0x2BADB002

-- From the tables on.
unfoldable pub start_up : Surroundings → Buf → Layout → ℕ → ℕ → ℕ → Board → Option EntryEnd
unfolding init_tables init_paging
start_up m mem at reg_a reg_b filesys_start_ptr b =
    let b1 = init_tables at reg_a reg_b filesys_start_ptr b in
    elim (say m mem (codes "Enabling Interrupts\n") [] b1.system) [
      | none ↦ none
      | some s ↦ some (launches (record b1 { system = init_paging s }))
    ]

unfoldable pub cleared : System → System
cleared s = record s { screen = clear boot_page s.screen }

unfoldable pub entry : Surroundings → Buf → Layout → ℕ → ℕ → ℕ → ℕ → Board → Option EntryEnd
unfolding start_up say_loader say_maps cleared
entry m mem at magic mbi reg_a reg_b b =
    let s = cleared b.system in
    if not (magic == magic_number)
    then elim (say m mem (codes "Invalid magic number: 0x%#x\n") (magic ∷ []) s) [
      | none ↦ none
      | some s1 ↦ some (returned s1)
    ]
    else let flags = word mem mbi in
      let filesys_start_ptr =
        if check_flag flags 3 then word mem (word mem (mbi + 24)) else at.filesys_start in
      elim (say_loader m mem mbi s) [
        | none ↦ none
        | some s1 ↦
            if check_flag flags 4 && check_flag flags 5
            then elim (say m mem (codes "Both bits 4 and 5 are set.\n") [] s1) [
              | none ↦ none
              | some s2 ↦ some (returned s2)
            ]
            else elim (say_maps m mem mbi s1) [
              | none ↦ none
              | some s2 ↦ start_up m mem at reg_a reg_b filesys_start_ptr (record b { system = s2 })
            ]
      ]
