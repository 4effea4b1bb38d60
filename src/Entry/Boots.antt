-- ===== src/Entry/Boots.antt =====
-- The lines that `entry` prints come to their end and change the screen only.
use iaaa_os.Base.{
  ℕ, zero, suc, ◌+◌, ◌<◌, ◌≤◌, ◌≡◌, ◌⊎◌, ◌∙◌, refl, arith, ltb, Bool, true, false, if_holds, inl,
  inr, Buf, word, u32, Option, some, List, [], ◌∷◌, codes,
}
use iaaa_os.Str.{mem_size}
use iaaa_os.Str.Compare.{IsBytes}
use iaaa_os.Printf.Total.{length}
use iaaa_os.Screen.{puts}
use iaaa_os.Programs.{text_of}
use iaaa_os.Programs.Texts.{text_of-Holds}
use iaaa_os.System.{System, terminals_of}
use iaaa_os.System.Print.{Surroundings, IsMemory, IsWords, print_on_total}
use iaaa_os.Exceptions.{IsMessage}
use iaaa_os.Entry.{
  Act, ◌>=>◌, nothing, when, check_flag, boot_page, char_word, say, say_bytes, say_modules,
  say_mmap, say_loader, say_maps,
}

-- `r` comes to its end and has changed nothing but the screen.
abbrev pub SaysTo : System → Option System → Type 0
SaysTo s r =
    (s' : System) × (r ≡ some s')
    × (s'.kernel ≡ s.kernel)
    × (s'.keyboard ≡ s.keyboard)
    × (s'.pic ≡ s.pic)

-- `f` comes to its end and changes nothing but the screen.
abbrev pub Says : Act → Type 0
Says f = (s : System) → SaysTo s (f s)

nothing-Says : Says nothing
nothing-Says s = (s, refl, refl, refl, refl)

>=>-Says : (f g : Act) → Says f → Says g → Says (f >=> g)
>=>-Says f g p q s =
    let (s1, e1, k1, b1, c1) = p s in
    let (s2, e2, k2, b2, c2) = q s1 in (s2, rw (e1, ◌>=>◌) e2, k2 ∙ k1, b2 ∙ b1, c2 ∙ c1)

when-Says : {f : Act} (b : Bool) → (b ≡ true → Says f) → Says (when b f)
when-Says true p = p refl
when-Says false p = nothing-Says

not_below : (end at : ℕ) → end ≤ at → ltb at end ≡ true → ⊥
not_below end at h e = ground arith

sections_line : IsMessage (codes "elf_sec: num = %u, size = 0x%#x, addr = 0x%#x, shndx = 0x%#x\n")
unfolding length mem_size
sections_line = record { text = refl; closes = tt; fits = omega arith }

map_line : IsMessage (codes "mmap_addr = 0x%#x, mmap_length = 0x%x\n")
unfolding length mem_size
map_line = record { text = refl; closes = tt; fits = omega arith }

-- The memory map ends within `n` entries from `at` on.
unfoldable pub MapEnds : Buf → ℕ → ℕ → ℕ → Type 0
MapEnds mem zero end at = end ≤ at
MapEnds mem (suc n) end at = (end ≤ at) ⊎ MapEnds mem n end (u32 (at + word mem at + 4))

module _ (m : Surroundings) (memory : IsMemory m) (mem : Buf) (bytes : IsBytes mem) where
  pub say-Says :
      (format args : List ℕ) → IsMessage format → IsWords args → Says (say m mem format args)
  say-Says format args f w s =
      let (out, e) =
        print_on_total boot_page m (text_of format) args format s memory w
          (text_of-Holds format f.text) f.closes f.fits in
      (record s { screen = puts (terminals_of s) boot_page out s.screen }, e, refl, refl, refl)

  word_small : (at : ℕ) → word mem at < 0x100000000
  unfolding word
  word_small at = omega (arith, bytes at, bytes (at + 1), bytes (at + 2), bytes (at + 3))

  char_small : (at : ℕ) → char_word (mem at) < 0x100000000
  char_small at = ground (arith, bytes at)

  say_bytes-Says : (rounds at : ℕ) → Says (say_bytes m mem rounds at)
  unfolding say_bytes length mem_size
  say_bytes-Says zero at = nothing-Says
  say_bytes-Says (suc rounds) at =
      >=>-Says _ _
        (say-Says (codes "0x%x ") (char_word (mem at) ∷ [])
          (record { text = refl; closes = tt; fits = omega arith }) (char_small at, tt))
        (say_bytes-Says rounds (at + 1))

  say_modules-Says :
      (rounds mod_count at : ℕ)
      → mod_count + rounds < 0x100000000
      → Says (say_modules m mem rounds mod_count at)
  unfolding say_modules length mem_size
  say_modules-Says zero mod_count at h = nothing-Says
  say_modules-Says (suc rounds) mod_count at h =
      let small : mod_count < 0x100000000 = omega arith in
      >=>-Says _ _
        (say-Says (codes "Module %d loaded at address: 0x%#x\n") (mod_count ∷ word mem at ∷ [])
          (record { text = refl; closes = tt; fits = omega arith }) (small, (word_small at, tt)))
        (>=>-Says _ _
          (say-Says (codes "Module %d ends at address: 0x%#x\n")
            (mod_count ∷ word mem (at + 4) ∷ [])
            (record { text = refl; closes = tt; fits = omega arith })
            (small, (word_small (at + 4), tt)))
          (>=>-Says _ _
            (say-Says (codes "First few bytes of module:\n") []
              (record { text = refl; closes = tt; fits = omega arith }) tt)
            (>=>-Says _ _ (say_bytes-Says 16 (word mem at)) (
              >=>-Says _ _
                (say-Says (codes "\n") [] (record { text = refl; closes = tt; fits = omega arith })
                  tt)
                (say_modules-Says rounds (mod_count + 1) (at + 16) (omega arith))))))

  say_mmap-Says :
      (fuel n end at : ℕ) → n < fuel → MapEnds mem n end at → Says (say_mmap m mem fuel end at)
  unfolding say_mmap length mem_size MapEnds
  say_mmap-Says zero n end at h ends s = absurd (omega arith)
  say_mmap-Says (suc fuel) zero end at h ends s =
      if_holds (λ r. SaysTo s r) (ltb at end) (λ e. absurd (not_below end at ends e))
        (λ _. nothing-Says s)
  say_mmap-Says (suc fuel) (suc n) end at h (inl e) s =
      if_holds (λ r. SaysTo s r) (ltb at end) (λ b. absurd (not_below end at e b))
        (λ _. nothing-Says s)
  say_mmap-Says (suc fuel) (suc n) end at h (inr later) s =
      if_holds (λ r. SaysTo s r) (ltb at end)
        (λ _.
          >=>-Says _ _
            (say-Says
              (codes
                "    size = 0x%x, base_addr = 0x%#x%#x\n    type = 0x%x,  length    = 0x%#x%#x\n")
              _ (record { text = refl; closes = tt; fits = omega arith })
              (
                word_small at,
                (
                  word_small (at + 8),
                  (
                    word_small (at + 4),
                    (word_small (at + 20), (word_small (at + 16), (word_small (at + 12), tt))),
                  ),
                ),
              ))
            (say_mmap-Says fuel n end (u32 (at + word mem at + 4)) (omega arith) later) s)
        (λ _. nothing-Says s)

  -- The lines about the loader's flags, boot device, command line and modules.
  pub say_loader-Says : (mbi : ℕ) → Says (say_loader m mem mbi)
  unfolding say_loader length mem_size
  say_loader-Says mbi =
      let flags = word mem mbi in
      >=>-Says _ _
        (say-Says (codes "flags = 0x%#x\n") (flags ∷ [])
          (record { text = refl; closes = tt; fits = omega arith }) (word_small mbi, tt))
        (>=>-Says _ _
          (when-Says (check_flag flags 0) (λ _.
            say-Says (codes "mem_lower = %uKB, mem_upper = %uKB\n")
              (word mem (mbi + 4) ∷ word mem (mbi + 8) ∷ [])
              (record { text = refl; closes = tt; fits = omega arith })
              (word_small (mbi + 4), (word_small (mbi + 8), tt))))
          (>=>-Says _ _
            (when-Says (check_flag flags 1) (λ _.
              say-Says (codes "boot_device = 0x%#x\n") (word mem (mbi + 12) ∷ [])
                (record { text = refl; closes = tt; fits = omega arith })
                (word_small (mbi + 12), tt)))
            (>=>-Says _ _
              (when-Says (check_flag flags 2) (λ _.
                say-Says (codes "cmdline = %s\n") (word mem (mbi + 16) ∷ [])
                  (record { text = refl; closes = tt; fits = omega arith })
                  (word_small (mbi + 16), tt)))
              (when-Says (check_flag flags 3) (λ _.
                say_modules-Says (word mem (mbi + 20)) 0 (word mem (mbi + 24))
                  (omega (arith, word_small (mbi + 20))))))))

  -- The lines about the sections and the memory map, if the map ends.
  pub say_maps-Says :
      (mbi n : ℕ)
      → n < mem_size
      → (check_flag (word mem mbi) 6 ≡ true
          → MapEnds mem n (u32 (word mem (mbi + 48) + word mem (mbi + 44))) (word mem (mbi + 48)))
      → Says (say_maps m mem mbi)
  unfolding say_maps
  say_maps-Says mbi n small ends =
      let flags = word mem mbi in
      >=>-Says _ _
        (when-Says (check_flag flags 5) (λ _.
          say-Says (codes "elf_sec: num = %u, size = 0x%#x, addr = 0x%#x, shndx = 0x%#x\n")
            (word mem (mbi + 28)
              ∷ word mem (mbi + 32)
              ∷ word mem (mbi + 36)
              ∷ word mem (mbi + 40)
              ∷ [])
            (sections_line)
            (
              word_small (mbi + 28),
              (word_small (mbi + 32), (word_small (mbi + 36), (word_small (mbi + 40), tt))),
            )))
        (when-Says (check_flag flags 6) (λ six.
          >=>-Says _ _
            (say-Says (codes "mmap_addr = 0x%#x, mmap_length = 0x%x\n")
              (word mem (mbi + 48) ∷ word mem (mbi + 44) ∷ []) map_line
              (word_small (mbi + 48), (word_small (mbi + 44), tt)))
            (say_mmap-Says mem_size n (u32 (word mem (mbi + 48) + word mem (mbi + 44)))
              (word mem (mbi + 48)) small (ends six))))
