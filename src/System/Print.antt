-- ===== src/System/Print.antt =====
-- `printf` on the running system: the text goes to the screen of the terminals as they are.
use iaaa_os.Base.{ℕ, zero, suc, ◌<◌, ◌≡◌, refl, Arr, Buf, Option, none, some, List, [], ◌∷◌}
use iaaa_os.Screen.{puts}
use iaaa_os.Str.{mem_size}
use iaaa_os.Printf.{printf, plain}
use iaaa_os.Printf.Total.{Holds, Closes, IsString, length, printf_total}
use iaaa_os.System.{System, terminals_of, video_page}

-- What `printf` may read beyond its arguments: the bytes behind the digits of `itoa`, an array before it is
-- written, the strings in memory, and the words behind its arguments on the stack.
pub record Surroundings : Type 0 where
  pub behind : Buf
  pub junk : Buf
  pub string_at : ℕ → Buf
  pub stack : Arr ℕ

-- The words behind the format on the stack.
abbrev pub words : List ℕ → Arr ℕ → Arr ℕ
words [] stack k = stack k
words (v ∷ vs) stack zero = v
words (v ∷ vs) stack (suc k) = words vs stack k

-- On a physical page of video memory. `none`: the format or a string has no end.
unfoldable pub print_on : ℕ → Surroundings → Buf → List ℕ → System → Option System
print_on page m format args s =
    elim (printf m.behind m.junk m.string_at (terminals_of s) page format (words args m.stack)
      s.screen) [ none ↦ none | some (n, screen) ↦ some (record s { screen = screen }) ]

unfoldable pub print : Surroundings → Buf → List ℕ → System → Option System
print m format args s = print_on (video_page s) m format args s

-- Memory in which every string has an end, and the stack words of 32 bits.
pub record IsMemory (m : Surroundings) : Type 0 where
  pub strings : (at : ℕ) → IsString (m.string_at at)
  pub stack : (k : ℕ) → m.stack k < 0x100000000

abbrev pub IsWords : List ℕ → Type 0
IsWords [] = Unit {0}
IsWords (v ∷ vs) = (v < 0x100000000) × IsWords vs

words_small :
    (vs : List ℕ) (stack : Arr ℕ)
    → IsWords vs
    → ((k : ℕ) → stack k < 0x100000000)
    → (k : ℕ) → words vs stack k < 0x100000000
words_small [] stack h small k = small k
words_small (v ∷ vs) stack h small zero = h.0
words_small (v ∷ vs) stack h small (suc k) = words_small vs stack h.1 small k

-- A print comes to its end and changes nothing but the screen.
pub print_on_total :
    (page : ℕ) (m : Surroundings) (format : Buf) (args cs : List ℕ) (s : System)
    → IsMemory m
    → IsWords args
    → Holds format 0 cs
    → Closes plain cs
    → length cs < mem_size
    → (out : List ℕ) × (print_on page m format args s
        ≡ some (record s { screen = puts (terminals_of s) page out s.screen }))
unfolding print_on
print_on_total page m format args cs s memory small h c p =
    let stack = words args m.stack in
    let (out, e) =
      printf_total m.behind m.junk m.string_at format stack
        (words_small args m.stack small memory.stack) (λ k. memory.strings (stack k))
        (terminals_of s) page cs s.screen h c p in
    (out, rw (e, print_on) refl)

pub print_total :
    (m : Surroundings) (format : Buf) (args cs : List ℕ) (s : System)
    → IsMemory m
    → IsWords args
    → Holds format 0 cs
    → Closes plain cs
    → length cs < mem_size
    → (out : List ℕ) × (print m format args s
        ≡ some (record s { screen = puts (terminals_of s) (video_page s) out s.screen }))
unfolding print
print_total m format args cs s = print_on_total (video_page s) m format args cs s
