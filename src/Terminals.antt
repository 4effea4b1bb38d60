-- ===== src/Terminals.antt =====
-- The variables of student-distrib/system_calls.c that say which terminal runs and which is shown.
use iaaa_os.Base.{ℕ}

pub record Terminals : Type 0 where
  pub terminal_curr : ℕ
  pub terminal_next : ℕ
  pub terminal_type : ℕ
  pub terminal_on_display_curr : ℕ
  pub terminal_on_display_next : ℕ
  pub terminal_2_active : ℕ
  pub terminal_3_active : ℕ

-- The values at boot.
abbrev pub initial : Terminals
initial = record {
  terminal_curr = 1;
  terminal_next = 1;
  terminal_type = 0;
  terminal_on_display_curr = 1;
  terminal_on_display_next = 1;
  terminal_2_active = 0;
  terminal_3_active = 0;
}
