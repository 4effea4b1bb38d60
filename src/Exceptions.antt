-- ===== src/Exceptions.antt =====
-- The exception handlers of student-distrib/handler_setup.c, up to their call of `user_halt` with 256. The
-- words that the processor and the linkage leave (the number, the error code and CR2) are arguments.
use iaaa_os.Base.{
  ℕ, ◌<◌, ◌≡◌, refl, ◌∙◌, arith, ◌==◌, leb, ltb, ◌||◌, if◌then◌else◌, if_holds, Option, none, some,
  List, [], ◌∷◌, codes, Option-cases, Bool-cases, inl, inr, true, subst,
}
use iaaa_os.Screen.{puts}
use iaaa_os.Str.{mem_size}
use iaaa_os.Printf.{printf, plain}
use iaaa_os.Printf.Total.{Closes, length}
use iaaa_os.Programs.{text_of}
use iaaa_os.Programs.Texts.{is_text, text_of-Holds}
use iaaa_os.System.{System, terminals_of, video_page}
use iaaa_os.System.Print.{Surroundings, IsMemory, words, print, print_on, print_total}

abbrev first_line : List ℕ
first_line = codes "encountered exception 0x%#x\n"

abbrev error_line : List ℕ
error_line = codes "error code = 0x%#x\n"

abbrev page_fault_line : List ℕ
page_fault_line = codes "encountered exception #%d: Page Fault\n"

abbrev address_line : List ℕ
address_line = codes "virtual address that caused the Page Fault: 0x%#x\n"

-- Two lines with a number each.
unfoldable pub print_both : Surroundings → List ℕ → ℕ → List ℕ → ℕ → System → Option System
print_both m first v second w s = elim (print m (text_of first) (v ∷ []) s) [
  | none ↦ none
  | some s1 ↦ print m (text_of second) (w ∷ []) s1
]

unfoldable pub exception_handler_generic : Surroundings → ℕ → ℕ → System → Option System
exception_handler_generic m irq error = print_both m first_line irq error_line error

unfoldable pub exception_handler_x_e : Surroundings → ℕ → ℕ → System → Option System
exception_handler_x_e m irq page_fault_addr =
    print_both m page_fault_line irq address_line page_fault_addr

-- The number is unsigned, so the test of the range holds always.
unfoldable pub exception_handler_select : Surroundings → ℕ → ℕ → ℕ → System → Option System
exception_handler_select m irq error cr2 s =
    if irq == 0xE
    then exception_handler_x_e m irq cr2 s
    else if leb 0 irq || ltb irq 32
    then exception_handler_generic m irq error s
    else some s

-- A format that `printf` prints to its end.
pub record IsMessage (format : List ℕ) : Type 0 where
  pub text : is_text format ≡ true
  pub closes : Closes plain format
  pub fits : length format < mem_size

first_line-IsMessage : IsMessage first_line
unfolding length mem_size
first_line-IsMessage = record { text = refl; closes = tt; fits = omega arith }

error_line-IsMessage : IsMessage error_line
unfolding length mem_size
error_line-IsMessage = record { text = refl; closes = tt; fits = omega arith }

page_fault_line-IsMessage : IsMessage page_fault_line
unfolding length mem_size
page_fault_line-IsMessage = record { text = refl; closes = tt; fits = omega arith }

address_line-IsMessage : IsMessage address_line
unfolding length mem_size
address_line-IsMessage = record { text = refl; closes = tt; fits = omega arith }

-- What a handler leaves, if it comes to its end.
abbrev pub Printed : System → Option System → Type 0
Printed s none = Unit {0}
Printed s (some s') = (s'.kernel ≡ s.kernel) × (s'.keyboard ≡ s.keyboard)

print-Printed :
    (m : Surroundings) (format args : List ℕ) (s : System)
    → Printed s (print m (text_of format) args s)
unfolding print print_on
print-Printed m format args s =
    let r =
      printf m.behind m.junk m.string_at (terminals_of s) (video_page s) (text_of format)
        (words args m.stack) s.screen in
    elim (Option-cases r) [
      | inl e ↦ rw (e, Printed) tt
      | inr ((n, screen), e) ↦ rw (e, Printed) (refl, refl)
    ]

print_both-Printed :
    (m : Surroundings) (first : List ℕ) (v : ℕ) (second : List ℕ) (w : ℕ) (s : System)
    → Printed s (print_both m first v second w s)
unfolding print_both
print_both-Printed m first v second w s = elim (Option-cases (print m (text_of first) (v ∷ []) s)) [
  | inl e ↦ rw (e, Printed) tt
  | inr (s1, e) ↦
      rw (e, Printed)
        (behind s1 (print m (text_of second) (w ∷ []) s1)
          (subst (Printed s) e (print-Printed m first (v ∷ []) s))
          (print-Printed m second (w ∷ []) s1))
]
  where
    behind : (s1 : System) (r : Option System) → Printed s (some s1) → Printed s1 r → Printed s r
    behind s1 none p q = tt
    behind s1 (some s2) p q = (q.0 ∙ p.0, q.1 ∙ p.1)

-- A handler changes nothing but the screen.
pub select-Printed :
    (m : Surroundings) (irq error cr2 : ℕ) (s : System)
    → Printed s (exception_handler_select m irq error cr2 s)
unfolding exception_handler_select exception_handler_generic exception_handler_x_e
select-Printed m irq error cr2 s =
    if_holds (Printed s) (irq == 0xE)
      (λ _. print_both-Printed m page_fault_line irq address_line cr2 s)
      (λ _.
        if_holds (Printed s) (leb 0 irq || ltb irq 32)
          (λ _. print_both-Printed m first_line irq error_line error s) (λ _. (refl, refl)))

module _ (m : Surroundings) (memory : IsMemory m) where
  print_both_total :
      (first : List ℕ) (v : ℕ) (second : List ℕ) (w : ℕ) (s : System)
      → IsMessage first
      → IsMessage second
      → v < 0x100000000
      → w < 0x100000000
      → (s' : System) × (print_both m first v second w s ≡ some s')
  unfolding print_both
  print_both_total first v second w s f g hv hw =
      let (out1, e1) =
        print_total m (text_of first) (v ∷ []) first s memory (hv, tt) (text_of-Holds first f.text)
          f.closes f.fits in
      let s1 = record s { screen = puts (terminals_of s) (video_page s) out1 s.screen } in
      let (out2, e2) =
        print_total m (text_of second) (w ∷ []) second s1 memory (hw, tt)
          (text_of-Holds second g.text) g.closes g.fits in
      (
        record s1 { screen = puts (terminals_of s1) (video_page s1) out2 s1.screen },
        rw (e1, print_both) e2,
      )

  pub select_total :
      (irq error cr2 : ℕ) (s : System)
      → irq < 0x100000000
      → error < 0x100000000
      → cr2 < 0x100000000
      → (s' : System) × (exception_handler_select m irq error cr2 s ≡ some s')
  unfolding exception_handler_select exception_handler_generic exception_handler_x_e
  select_total irq error cr2 s hi he hc = elim (Bool-cases (irq == 0xE)) [
    | inl e ↦
        let (s', same) =
          print_both_total page_fault_line irq address_line cr2 s page_fault_line-IsMessage
            address_line-IsMessage hi hc in
        (s', rw (e, exception_handler_select) same)
    | inr e ↦
        let (s', same) =
          print_both_total first_line irq error_line error s first_line-IsMessage
            error_line-IsMessage hi he in
        let ranged : (leb 0 irq || ltb irq 32) ≡ true = ground arith in
        (s', rw (e, ranged, exception_handler_select) same)
  ]
