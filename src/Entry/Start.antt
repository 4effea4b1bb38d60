-- ===== src/Entry/Start.antt =====
-- `entry` leads to the state from which the events of Machine begin.
use iaaa_os.Base.{
  ℕ, ◌+◌, ◌<◌, ◌≡◌, ◌∙◌, refl, ap, subst, sym, arith, ◌&&◌, true, false, if◌then◌else◌, Buf, word,
  u32, minus_one, some, [], codes,
}
use iaaa_os.Str.{mem_size}
use iaaa_os.Str.Compare.{IsBytes}
use iaaa_os.Printf.Total.{length}
use iaaa_os.FileSystem.{file_system_init}
use iaaa_os.Terminals.{initial}
use iaaa_os.Paging.Init.{paging_init}
use iaaa_os.Pic.{Pic, i8259_init, enable_irq, clear_bit}
use iaaa_os.Interrupts.{IsGate, idt_init, idt_init-IsGate}
use iaaa_os.Kernel.{Kernel}
use iaaa_os.System.{System}
use iaaa_os.System.Print.{Surroundings, IsMemory}
use iaaa_os.Exceptions.{IsMessage}
use iaaa_os.Machine.{IsBoot}
use iaaa_os.Entry.{
  check_flag, say_loader, say_maps, Board, Layout, init_tables, init_paging, launches, magic_number,
  start_up, cleared, entry,
}
use iaaa_os.Entry.Boots.{MapEnds, say-Says, say_loader-Says, say_maps-Says}

-- The variables as the image of the kernel has them.
pub record IsStatic (s : System) : Type 0 where
  pub terminals : s.kernel.terminals ≡ initial
  pub pid_of : (t : ℕ) → t < 4 → s.kernel.pid_of t ≡ minus_one
  pub pid_bitmap : (p : ℕ) → p < 6 → s.kernel.pid_bitmap p ≡ 0
  pub kb_buf : (j i : ℕ) → s.keyboard.kb_buf j i ≡ 0
  pub kb_buf_num : (j : ℕ) → s.keyboard.kb_buf_num j ≡ 0

enabling_line : IsMessage (codes "Enabling Interrupts\n")
unfolding length mem_size
enabling_line = record { text = refl; closes = tt; fits = omega arith }

-- The lines of the timer, the keyboard, the second controller and the clock are open.
open_lines :
    (p : Pic)
    → (let q = enable_irq 0 (enable_irq 8 (enable_irq 1 (i8259_init p))) in
        (q.master_mask ≡ 0xF8) × (q.slave_mask ≡ 0xFE))
unfolding i8259_init enable_irq clear_bit
open_lines p = (refl, refl)

module _ (at : Layout) (reg_a reg_b start : ℕ) (b : Board) where
  tables_lem :
      (let c = init_tables at reg_a reg_b start b in
        (c.system.keyboard ≡ b.system.keyboard)
        × (c.system.kernel ≡ record b.system.kernel {
          esp0 = 0x800000;
          fs = file_system_init b.system.kernel.fs.mem start;
        })
        × (c.system.pic.master_mask ≡ 0xF8)
        × (c.system.pic.slave_mask ≡ 0xFE)
        × (c.idt ≡ idt_init b.idt))
  unfolding init_tables
  tables_lem = let (x, y) = open_lines b.system.pic in (refl, refl, x, y, refl)

paging_lem :
    (s : System)
    → ((init_paging s).kernel ≡ record s.kernel { paging = paging_init s.kernel.paging })
      × ((init_paging s).keyboard ≡ s.keyboard)
      × ((init_paging s).pic ≡ s.pic)
unfolding init_paging
paging_lem s = (refl, refl, refl)

-- What `entry` leaves to `launch_tests`, with the image of the file system at `start`.
pub record IsBooted (b : Board) (start : ℕ) (b' : Board) : Type 0 where
  pub boot : IsBoot b'.system
  pub disk : b'.system.kernel.fs ≡ file_system_init b.system.kernel.fs.mem start
  pub stack : b'.system.kernel.esp0 ≡ 0x800000
  pub gates : (i : ℕ) → i < 256 → IsGate i (b'.idt i)
  pub master : b'.system.pic.master_mask ≡ 0xF8
  pub slave : b'.system.pic.slave_mask ≡ 0xFE

module _ (at : Layout) (reg_a reg_b start : ℕ) (b : Board) (s3 : System)
    (static : IsStatic b.system)
    (kernel : s3.kernel ≡ (init_tables at reg_a reg_b start b).system.kernel)
    (keyboard : s3.keyboard ≡ (init_tables at reg_a reg_b start b).system.keyboard)
    (pic : s3.pic ≡ (init_tables at reg_a reg_b start b).system.pic) where
  kernel_lem : (init_paging s3).kernel ≡ record b.system.kernel {
    esp0 = 0x800000;
    fs = file_system_init b.system.kernel.fs.mem start;
    paging = paging_init b.system.kernel.paging;
  }
  kernel_lem =
      (paging_lem s3).0
      ∙ ap {A = Kernel} (λ k. record k { paging = paging_init k.paging })
          (kernel ∙ (tables_lem at reg_a reg_b start b).1)

  keyboard_lem : (init_paging s3).keyboard ≡ b.system.keyboard
  keyboard_lem = (paging_lem s3).1 ∙ keyboard ∙ (tables_lem at reg_a reg_b start b).0

  tables-IsBooted :
      IsBooted b start (record (init_tables at reg_a reg_b start b) { system = init_paging s3 })
  tables-IsBooted =
      let (y, k, x, z, i) = tables_lem at reg_a reg_b start b in
      let lines = (paging_lem s3).2 ∙ pic in
      record {
        boot = record {
          terminals = ap (λ k. k.terminals) kernel_lem ∙ static.terminals;
          pid_of = λ t h. ap (λ k. k.pid_of t) kernel_lem ∙ static.pid_of t h;
          pid_bitmap = λ p h. ap (λ k. k.pid_bitmap p) kernel_lem ∙ static.pid_bitmap p h;
          kb_buf = λ j i. ap (λ k. k.kb_buf j i) keyboard_lem ∙ static.kb_buf j i;
          kb_buf_num = λ j. ap (λ k. k.kb_buf_num j) keyboard_lem ∙ static.kb_buf_num j;
          paging = (b.system.kernel.paging, ap (λ k. k.paging) kernel_lem);
        };
        disk = ap (λ k. k.fs) kernel_lem;
        stack = ap (λ k. k.esp0) kernel_lem;
        gates = λ j h. subst (λ t. IsGate j (t j)) (sym i) (idt_init-IsGate b.idt j h);
        master = ap (λ p. p.master_mask) lines ∙ x;
        slave = ap (λ p. p.slave_mask) lines ∙ z;
      }

cleared_lem : (s : System) → ((cleared s).kernel ≡ s.kernel) × ((cleared s).keyboard ≡ s.keyboard)
unfolding cleared
cleared_lem s = (refl, refl)

static :
    (s s2 : System) → s2.kernel ≡ s.kernel → s2.keyboard ≡ s.keyboard → IsStatic s → IsStatic s2
static s s2 k y h = record {
  terminals = ap (λ k. k.terminals) k ∙ h.terminals;
  pid_of = λ t l. ap (λ k. k.pid_of t) k ∙ h.pid_of t l;
  pid_bitmap = λ p l. ap (λ k. k.pid_bitmap p) k ∙ h.pid_bitmap p l;
  kb_buf = λ j i. ap (λ k. k.kb_buf j i) y ∙ h.kb_buf j i;
  kb_buf_num = λ j. ap (λ k. k.kb_buf_num j) y ∙ h.kb_buf_num j;
}

moved :
    (b : Board) (s2 : System) (start : ℕ) (b' : Board)
    → s2.kernel ≡ b.system.kernel
    → IsBooted (record b { system = s2 }) start b'
    → IsBooted b start b'
moved b s2 start b' k l = record {
  boot = l.boot;
  disk = l.disk ∙ ap (λ k. file_system_init k.fs.mem start) k;
  stack = l.stack;
  gates = l.gates;
  master = l.master;
  slave = l.slave;
}

module _ (m : Surroundings) (memory : IsMemory m) (mem : Buf) (bytes : IsBytes mem) where
  start_up_lem :
      (at : Layout) (reg_a reg_b start : ℕ) (b : Board)
      → IsStatic b.system
      → (b' : Board) × (start_up m mem at reg_a reg_b start b ≡ some (launches b'))
        × IsBooted b start b'
  unfolding start_up
  start_up_lem at reg_a reg_b start b h =
      let c = init_tables at reg_a reg_b start b in
      let (s3, e, k3, y3, p3) =
        say-Says m memory mem bytes (codes "Enabling Interrupts\n") [] enabling_line tt c.system in
      (
        record c { system = init_paging s3 },
        rw (e, start_up) refl,
        tables-IsBooted at reg_a reg_b start b s3 h k3 y3 p3,
      )

  entered :
      (at : Layout) (mbi reg_a reg_b : ℕ) (b : Board) (s1 s2 : System) (b' : Board)
      → say_loader m mem mbi (cleared b.system) ≡ some s1
      → (check_flag (word mem mbi) 4 && check_flag (word mem mbi) 5) ≡ false
      → say_maps m mem mbi s1 ≡ some s2
      → start_up m mem at reg_a reg_b
          (if check_flag (word mem mbi) 3 then word mem (word mem (mbi + 24)) else at.filesys_start)
          (record b { system = s2 })
        ≡ some (launches b')
      → entry m mem at magic_number mbi reg_a reg_b b ≡ some (launches b')
  unfolding entry
  entered at mbi reg_a reg_b b s1 s2 b' e1 flags e2 e3 = rw (e1, flags, e2, entry) e3

  -- Behind a compliant loader whose flags do not contradict each other and whose memory map ends, on a
  -- memory of bytes in which strings end, and with the kernel's variables as in its image, `entry` comes
  -- to the tests that start the shell. Then the machine can begin: the file system is the first module's,
  -- if there are modules, the kernel's stack is set, each of the 256 gates is right, and exactly the
  -- interrupts of the timer, the keyboard, the second controller and the clock are let in.
  pub entry_lem :
      (at : Layout) (mbi reg_a reg_b n : ℕ) (b : Board)
      → IsStatic b.system
      → (check_flag (word mem mbi) 4 && check_flag (word mem mbi) 5) ≡ false
      → n < mem_size
      → (check_flag (word mem mbi) 6 ≡ true
          → MapEnds mem n (u32 (word mem (mbi + 48) + word mem (mbi + 44))) (word mem (mbi + 48)))
      → (b' : Board) × (entry m mem at magic_number mbi reg_a reg_b b ≡ some (launches b'))
        × IsBooted b
            (if check_flag (word mem mbi) 3
              then word mem (word mem (mbi + 24))
              else at.filesys_start)
            b'
  entry_lem at mbi reg_a reg_b n b h flags small ends =
      let start =
        if check_flag (word mem mbi) 3 then word mem (word mem (mbi + 24)) else at.filesys_start in
      let (s1, e1, k1, y1, p1) = say_loader-Says m memory mem bytes mbi (cleared b.system) in
      let (s2, e2, k2, y2, p2) = say_maps-Says m memory mem bytes mbi n small ends s1 in
      let (b', e3, l) =
        start_up_lem at reg_a reg_b start (record b { system = s2 })
          (static b.system s2 (k2 ∙ k1 ∙ (cleared_lem b.system).0)
            (y2 ∙ y1 ∙ (cleared_lem b.system).1) h) in
      (
        b',
        entered at mbi reg_a reg_b b s1 s2 b' e1 flags e2 e3,
        moved b s2 start b' (k2 ∙ k1 ∙ (cleared_lem b.system).0) l,
      )
