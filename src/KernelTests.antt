-- ===== src/KernelTests.antt =====
-- The first tests of student-distrib/tests.c, behind their header line: `idt_test` and `pages_test`. A failed
-- assertion raises exception 15, which does not come back.
pub mod Passed
use iaaa_os.Base.{
  ℕ, zero, suc, ◌+◌, ◌*◌, ◌/◌, ◌%◌, ◌^◌, Bool, true, false, ◌==◌, ◌&&◌, ◌||◌, not, if◌then◌else◌,
  Arr, Option, none, some,
}
use iaaa_os.Interrupts.{Gate, Target, system_call_check, call_rtc_handler, keyboard_handler}
use iaaa_os.Paging.{Paging}

abbrev pub pass : ℕ
pass = 1

-- `assertion_failure` if a condition holds.
abbrev pub assert_not : Bool → Option ℕ → Option ℕ
assert_not wrong rest = if wrong then none else rest

-- `address` says where the functions of the kernel lie.
module _ (address : Target → ℕ) where
  abbrev pub offset_15_00 : Gate → ℕ
  offset_15_00 g = address g.target % 2 ^ 16

  abbrev pub offset_31_16 : Gate → ℕ
  offset_31_16 g = address g.target / 2 ^ 16 % 2 ^ 16

  abbrev pub is_null : Gate → Bool
  is_null g = (offset_15_00 g == 0 && offset_31_16 g == 0) || not (g.present == 1)

  abbrev pub is_other : Target → Gate → Bool
  is_other f g = not (g.present == 1) || not (2 ^ 16 * offset_31_16 g + offset_15_00 g == address f)

  -- `for (i = 0; i < 10; ++i)`
  pub null_test : ℕ → ℕ → Arr Gate → Option ℕ
  null_test zero i idt = some pass
  null_test (suc rounds) i idt =
      let rest = null_test rounds (i + 1) idt in assert_not (is_null (idt i)) rest

  unfoldable pub idt_test : Arr Gate → Option ℕ
  unfolding null_test
  idt_test idt = elim (null_test 10 0 idt) [
    | none ↦ none
    | some result ↦ assert_not (is_other call_rtc_handler (idt 0x28)) (
        assert_not (is_other keyboard_handler (idt 0x21))
          (assert_not (is_other system_call_check (idt 0x80)) (some result)))
  ]

-- `for (i = 0; i < 10; i++)`
pub unused_test : ℕ → ℕ → Paging → Option ℕ
unused_test zero i p = some pass
unused_test (suc rounds) i p =
    let rest = unused_test rounds (i + 1) p in
    assert_not (not (i == 0xB8) && not ((p.page_tab i).present == 0))
      (assert_not (not (i == 0) && not (i == 1) && not ((p.page_dir i).present == 0)) rest)

unfoldable pub pages_test : Paging → Option ℕ
unfolding unused_test
pages_test p = elim (unused_test 10 0 p) [
  | none ↦ none
  | some result ↦
      let video = p.page_tab 0xB8 in
      let table = p.page_dir 0 in
      let kernel = p.page_dir 1 in
      assert_not
        (not (video.present == 1) || not (video.pcd == 0) || not (video.addr == 0xB8000 / 4096))
        (assert_not
          (not (table.present == 1)
            || not (table.pcd == 0)
            || not (table.ps_pat == 0)
            || not (table.addr == p.page_tab_at / 4096))
          (assert_not
            (not (kernel.present == 1)
              || not (kernel.u_s == 0)
              || not (kernel.ps_pat == 1)
              || not (kernel.avl_g == 1)
              || not (kernel.addr == 0x400000 / 4096 / 1024 * 1024 % 0x100000))
            (some result)))
]
