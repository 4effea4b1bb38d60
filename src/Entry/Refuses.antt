-- ===== src/Entry/Refuses.antt =====
-- The two ends of `entry` before it sets anything up.
use native.Mathlib.Decide.{ℕ_discrete}
use iaaa_os.Base.{
  ℕ, ◌<◌, ◌≡◌, ◌≢◌, ◌⊎◌, inl, inr, ◌∙◌, refl, arith, ◌==◌, ◌&&◌, true, false, Buf, word, some, [],
  ◌∷◌, codes,
}
use iaaa_os.Str.{mem_size}
use iaaa_os.Str.Compare.{IsBytes}
use iaaa_os.Printf.Total.{length}
use iaaa_os.System.{System}
use iaaa_os.System.Print.{Surroundings, IsMemory}
use iaaa_os.Exceptions.{IsMessage}
use iaaa_os.Entry.{check_flag, Board, Layout, returned, magic_number, cleared, entry}
use iaaa_os.Entry.Boots.{say-Says, say_loader-Says}

magic_line : IsMessage (codes "Invalid magic number: 0x%#x\n")
unfolding length mem_size
magic_line = record { text = refl; closes = tt; fits = omega arith }

flags_line : IsMessage (codes "Both bits 4 and 5 are set.\n")
unfolding length mem_size
flags_line = record { text = refl; closes = tt; fits = omega arith }

module _ (m : Surroundings) (memory : IsMemory m) (mem : Buf) (bytes : IsBytes mem) where
  -- Behind a loader with another magic number, or whose flags contradict each other, `entry` comes to its end before it
  -- has changed the kernel, the keyboard or the interrupt controllers.
  pub entry_refuses :
      (at : Layout) (magic mbi reg_a reg_b : ℕ) (b : Board)
      → magic < 0x100000000
      → (magic ≢ magic_number)
        ⊎ ((check_flag (word mem mbi) 4 && check_flag (word mem mbi) 5) ≡ true)
      → (s' : System) × (entry m mem at magic mbi reg_a reg_b b ≡ some (returned s'))
        × (s'.kernel ≡ b.system.kernel)
        × (s'.keyboard ≡ b.system.keyboard)
        × (s'.pic ≡ b.system.pic)
  unfolding entry cleared
  entry_refuses at magic mbi reg_a reg_b b small flags =
      let (s0, e0, k0, y0, p0) =
        say-Says m memory mem bytes (codes "Invalid magic number: 0x%#x\n") (magic ∷ []) magic_line
          (small, tt) (cleared b.system) in
      let (s1, e1, k1, y1, p1) = say_loader-Says m memory mem bytes mbi (cleared b.system) in
      let (s2, e2, k2, y2, p2) =
        say-Says m memory mem bytes (codes "Both bits 4 and 5 are set.\n") [] flags_line tt s1 in
      elim (ℕ_discrete magic magic_number) [
        | no d ↦
            let other : (magic == magic_number) ≡ false = ground (arith, d) in
            (s0, rw (other, e0, entry) refl, k0, y0, p0)
        | yes e ↦ elim flags [
          | inl d ↦ absurd (d e)
          | inr c ↦
              let same : (magic == magic_number) ≡ true = ground (arith, e) in
              (s2, rw (same, e1, c, e2, entry) refl, k2 ∙ k1, y2 ∙ y1, p2 ∙ p1)
        ]
      ]
