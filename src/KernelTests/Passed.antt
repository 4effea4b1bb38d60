-- ===== src/KernelTests/Passed.antt =====
-- The tests on the tables that the kernel sets up.
use iaaa_os.Base.{
  ℕ, zero, suc, ◌+◌, ◌*◌, ◌/◌, ◌%◌, ◌^◌, ◌<◌, ◌≤◌, ◌≡◌, refl, arith, false, ◌==◌, ◌&&◌, ◌||◌, not,
  Arr, u32, some, inl, inr,
}
use iaaa_os.Interrupts.{
  Gate, Target, idt_init, idt_init-IsGate, system_call_check, call_rtc_handler, keyboard_handler,
}
use iaaa_os.Paging.{Paging, table_entry, directory_entry}
use iaaa_os.Paging.Init.{paging_init, page_tab-init, page_dir-init, page_tab_at-init}
use iaaa_os.KernelTests.{pass, is_null, is_other, null_test, idt_test, unused_test, pages_test}

module _ (address : Target → ℕ)
    (placed : (f : Target) → (0 < address f) × (address f < 2 ^ 32)) where
  assembled : (f : Target) → 2 ^ 16 * (address f / 2 ^ 16 % 2 ^ 16) + address f % 2 ^ 16 ≡ address f
  assembled f = omega (arith, (placed f).1)

  not_null : (g : Gate) → g.present ≡ 1 → is_null address g ≡ false
  not_null g e = ground (arith, e, placed g.target)

  not_other : (f : Target) (g : Gate) → g.present ≡ 1 → g.target ≡ f → is_other address f g ≡ false
  not_other f g e t = rw t (ground (arith, e, assembled f))

  null_test_lem :
      (rounds i : ℕ) (idt : Arr Gate)
      → ((j : ℕ) → j < i + rounds → (idt j).present ≡ 1)
      → null_test address rounds i idt ≡ some pass
  unfolding null_test
  null_test_lem zero i idt h = refl
  null_test_lem (suc rounds) i idt h =
      rw
        (
          not_null (idt i) (h i (omega arith)),
          null_test_lem rounds (i + 1) idt (λ j l. h j (omega arith)),
        )
        refl

  idt_test-run :
      (t : Arr Gate)
      → null_test address 10 0 t ≡ some pass
      → is_other address call_rtc_handler (t 0x28) ≡ false
      → is_other address keyboard_handler (t 0x21) ≡ false
      → is_other address system_call_check (t 0x80) ≡ false
      → idt_test address t ≡ some pass
  unfolding idt_test
  idt_test-run t e0 e1 e2 e3 = rw (e0, e1, e2, e3, idt_test) refl

  idt_test_lem : (idt : Arr Gate) → idt_test address (idt_init idt) ≡ some pass
  idt_test_lem idt =
      let g = idt_init-IsGate idt in
      let clock = g 0x28 (omega arith) in
      let keys = g 0x21 (omega arith) in
      let calls = g 0x80 (omega arith) in
      idt_test-run (idt_init idt)
        (null_test_lem 10 0 (idt_init idt)
          (λ j h. (g j (omega arith)).served.1 (inl (omega arith))))
        (not_other call_rtc_handler (idt_init idt 0x28)
          (clock.served.1 (inr (inr (inr (inl refl))))) (clock.clock refl))
        (not_other keyboard_handler (idt_init idt 0x21) (keys.served.1 (inr (inr (inl refl))))
          (keys.keyboard refl))
        (not_other system_call_check (idt_init idt 0x80)
          (calls.served.1 (inr (inr (inr (inr refl))))) (calls.calls refl))

unused_page : (i : ℕ) → i < 10 → (table_entry (i * 4096)).present ≡ 0
unfolding table_entry
unused_page i h = ground arith

unused_dir : (at i : ℕ) → 2 ≤ i → i < 10 → (directory_entry at (u32 (i * 0x400000))).present ≡ 0
unfolding directory_entry
unused_dir at i lo hi = ground arith

module _ (p : Paging) where
  page_unused : (i : ℕ) → i < 10 → ((paging_init p).page_tab i).present ≡ 0
  page_unused i h = rw (page_tab-init p i (omega arith)) (unused_page i h)

  dir_unused : (i : ℕ) → 2 ≤ i → i < 10 → ((paging_init p).page_dir i).present ≡ 0
  dir_unused i lo hi = rw (page_dir-init p i (omega arith)) (unused_dir p.page_tab_at i lo hi)

  unused_test_lem :
      (rounds i : ℕ) → i + rounds ≤ 10 → unused_test rounds i (paging_init p) ≡ some pass
  unfolding unused_test
  unused_test_lem zero i h = refl
  unused_test_lem (suc rounds) i h =
      let page : (not (i == 0xB8) && not (((paging_init p).page_tab i).present == 0)) ≡ false =
        ground (arith, page_unused i) in
      let dir : (not (i == 0) && not (i == 1) && not (((paging_init p).page_dir i).present == 0))
          ≡ false =
        ground (arith, dir_unused i) in
      rw (page, dir, unused_test_lem rounds (i + 1) (omega arith)) refl

  video_right :
      (let video = (paging_init p).page_tab 0xB8 in
        (not (video.present == 1) || not (video.pcd == 0) || not (video.addr == 0xB8000 / 4096))
        ≡ false)
  unfolding table_entry
  video_right = rw (page_tab-init p 0xB8 (omega arith)) refl

  table_right :
      (let table = (paging_init p).page_dir 0 in
        (not (table.present == 1)
          || not (table.pcd == 0)
          || not (table.ps_pat == 0)
          || not (table.addr == (paging_init p).page_tab_at / 4096))
        ≡ false)
  unfolding directory_entry
  table_right = rw (page_dir-init p 0 (omega arith), page_tab_at-init p) (ground arith)

  kernel_right :
      (let kernel = (paging_init p).page_dir 1 in
        (not (kernel.present == 1)
          || not (kernel.u_s == 0)
          || not (kernel.ps_pat == 1)
          || not (kernel.avl_g == 1)
          || not (kernel.addr == 0x400000 / 4096 / 1024 * 1024 % 0x100000))
        ≡ false)
  unfolding directory_entry
  kernel_right = rw (page_dir-init p 1 (omega arith)) refl

  pages_test_lem : pages_test (paging_init p) ≡ some pass
  unfolding pages_test
  pages_test_lem =
      rw (unused_test_lem 10 0 (omega arith), video_right, table_right, kernel_right, pages_test)
        refl

-- With the functions of the kernel at addresses of 32 bits other than 0, `idt_test` and `pages_test` pass on the
-- tables that the kernel sets up.
pub kernel_tests-pass :
    (address : Target → ℕ) (idt : Arr Gate) (p : Paging)
    → ((f : Target) → (0 < address f) × (address f < 2 ^ 32))
    → (idt_test address (idt_init idt) ≡ some pass) × (pages_test (paging_init p) ≡ some pass)
kernel_tests-pass address idt p placed = (idt_test_lem address placed idt, pages_test_lem p)
