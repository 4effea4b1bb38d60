-- ===== src/Tests/Users.antt =====
-- The properties of the programs on small texts.
use iaaa_os.Base.{zero, suc, ℕ, ◌<◌, ◌≡◌, ◌≢◌, ◌⊎◌, upd, refl, arith, Buf, pos, some}
use iaaa_os.Str.{mem_size}
use iaaa_os.Str.Length.{HasLength}
use iaaa_os.Str.Compare.{IsBytes}
use iaaa_os.Programs.Shell.{request, leaves, asks, runs, IsLine, IsExit, request_lem}
use iaaa_os.Tests.{zeros, name_a}

name_a-IsBytes : IsBytes name_a
name_a-IsBytes i = ground arith

zeros-IsBytes : IsBytes zeros
zeros-IsBytes i = ground arith

-- "ls", with a newline.
abbrev ls_line : Buf
ls_line zero = b'l'
ls_line (suc zero) = b's'
ls_line (suc (suc i)) = 10

ls_line-IsLine : IsLine 2 ls_line
ls_line-IsLine = record { newline = refl; chars = chars }
  where
    chars : (i : ℕ) → i < 2 → ls_line i ≢ 0
    chars zero h = omega arith
    chars (suc zero) h = omega arith
    chars (suc (suc i)) h = omega arith

two_fits : 2 < mem_size
unfolding mem_size
two_fits = omega arith

request_lem_example :
    ((request (pos 3) ls_line ≡ some leaves) × IsExit 2 ls_line)
    ⊎ ((request (pos 3) ls_line ≡ some asks) × (◌≡◌ {A = ℕ} 2 0))
    ⊎ ((◌≢◌ {A = ℕ} 2 0)
        × (¬ IsExit 2 ls_line)
        × (request (pos 3) ls_line ≡ some (runs (upd ls_line 2 0)))
        × HasLength (upd ls_line 2 0) 2)
request_lem_example = request_lem 2 ls_line ls_line-IsLine two_fits
