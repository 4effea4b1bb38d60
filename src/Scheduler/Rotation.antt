-- ===== src/Scheduler/Rotation.antt =====
-- The order in which `set_terminal_next` of student-distrib/pit_init.c lets the terminals run.
use iaaa_os.Base.{ℕ, ◌+◌, ◌-◌, ◌%◌, ◌≤◌, ◌≡◌, ◌≢◌, ◌⊎◌, arith}
use iaaa_os.Terminals.{Terminals}
use iaaa_os.Scheduler.{set_terminal_next}

-- Terminal `t` was opened: the first is always open.
abbrev pub IsOpen : Terminals → ℕ → Type 0
IsOpen tm t =
    (t ≡ 1) ⊎ ((t ≡ 2) × (tm.terminal_2_active ≢ 0)) ⊎ ((t ≡ 3) × (tm.terminal_3_active ≢ 0))

-- The turns from `t` to `t'` in the circle of three; a full turn is three.
abbrev pub turns : ℕ → ℕ → ℕ
turns t t' = (t' + 2 - t) % 3 + 1

pub record IsNext (tm : Terminals) (t : ℕ) : Type 0 where
  pub is_open : IsOpen tm t
  pub nearest : (t' : ℕ) → IsOpen tm t' → turns tm.terminal_curr t ≤ turns tm.terminal_curr t'

-- The running terminal is one of the three.
abbrev pub IsRunning : Terminals → Type 0
IsRunning tm = (tm.terminal_curr ≡ 1) ⊎ (tm.terminal_curr ≡ 2) ⊎ (tm.terminal_curr ≡ 3)

IsOpen-next : (tm : Terminals) → IsRunning tm → IsOpen tm (set_terminal_next tm).terminal_next
unfolding set_terminal_next
IsOpen-next tm h = ground arith

nearest_next :
    (tm : Terminals)
    → IsRunning tm
    → (t : ℕ) → IsOpen tm t
    → turns tm.terminal_curr (set_terminal_next tm).terminal_next ≤ turns tm.terminal_curr t
unfolding set_terminal_next
nearest_next tm h t o = ground arith

-- The next terminal is open, and no open one comes before it in the circle that starts behind the
-- running terminal.
pub set_terminal_next-IsNext :
    (tm : Terminals) → IsRunning tm → IsNext tm (set_terminal_next tm).terminal_next
set_terminal_next-IsNext tm h = record { is_open = IsOpen-next tm h; nearest = nearest_next tm h }
