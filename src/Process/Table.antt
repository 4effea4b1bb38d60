-- ===== src/Process/Table.antt =====
-- The process table as the kernel's variables give it, and what is to hold of it: an abstract view of
-- PID, the bitmap, and the parents in the control blocks.
use iaaa_os.Base.{
  ℕ, zero, suc, ◌+◌, ◌≤◌, ◌<◌, ◌≡◌, ◌≢◌, ◌⊎◌, refl, arith, Arr, upd, ℤ, pos, minus_one, inc8, dec8,
  sub_ℕ, ◌==◌, if◌then◌else◌,
}
use iaaa_os.Kernel.{Kernel, pcb_at, get_next_avail_pid}

-- The number of programs less one, the process of each terminal, the terminal of each process (0 if
-- there is no such process), and the parent of each process.
pub record ProcessTable : Type 0 where
  pub count : ℤ
  pub running : Arr ℤ
  pub owner : Arr ℕ
  pub parent : Arr ℤ

abbrev pub table : Kernel → ProcessTable
table k = record {
  count = k.pid_of 0;
  running = k.pid_of;
  owner = k.pid_bitmap;
  parent = λ p. (k.pcbs (pcb_at (pos p))).parent_id;
}

abbrev pub live : ℕ → ℕ
live o = if o == 0 then 0 else 1

-- The processes that exist.
abbrev pub used : Arr ℕ → ℕ
used owner =
    live (owner 0)
    + live (owner 1)
    + live (owner 2)
    + live (owner 3)
    + live (owner 4)
    + live (owner 5)

-- Terminal `t` runs a process of its own, or none.
abbrev pub RunsOwn : ProcessTable → ℕ → Type 0
RunsOwn s t =
    (s.running t ≡ minus_one) ⊎ ((p : ℕ) × (s.running t ≡ pos p) × (p < 6) × (s.owner p ≡ t))

-- The parent of a process is another process of its terminal, or there is none.
abbrev pub HasParent : ProcessTable → ℕ → Type 0
HasParent s p =
    (s.parent p ≡ minus_one)
    ⊎ ((q : ℕ) × (s.parent p ≡ pos q) × (q < 6) × (q ≢ p) × (s.owner q ≡ s.owner p))

pub record IsConsistent (s : ProcessTable) : Type 0 where
  pub counted : s.count ≡ sub_ℕ (used s.owner) 1
  pub terminals : (p : ℕ) → p < 6 → s.owner p ≤ 3
  pub runs : (t : ℕ) → 1 ≤ t → t ≤ 3 → RunsOwn s t
  pub parents : (p : ℕ) → p < 6 → s.owner p ≢ 0 → HasParent s p
  -- The process that a terminal runs is nobody's parent.
  pub leaf :
      (t p q : ℕ) → 1 ≤ t → t ≤ 3 → s.running t ≡ pos q → p < 6 → s.owner p ≢ 0 → s.parent p ≢ pos q
  -- A process has one child at most.
  pub single :
      (p p' q : ℕ)
      → p < 6
      → p' < 6
      → s.owner p ≢ 0
      → s.owner p' ≢ 0
      → s.parent p ≡ pos q
      → s.parent p' ≡ pos q
      → p ≡ p'

-- `pid` is the first number that no process has.
pub record IsFreePid (owner : Arr ℕ) (pid : ℕ) : Type 0 where
  pub bound : pid ≤ 6
  pub free : pid < 6 → owner pid ≡ 0
  pub taken : (j : ℕ) → j < pid → owner j ≢ 0

avail_bound : (owner : Arr ℕ) → get_next_avail_pid owner ≤ 6
unfolding get_next_avail_pid
avail_bound owner = ground arith

avail_taken : (owner : Arr ℕ) (j : ℕ) → j < get_next_avail_pid owner → owner j ≢ 0
unfolding get_next_avail_pid
avail_taken owner zero h = ground arith
avail_taken owner (suc zero) h = ground arith
avail_taken owner (suc (suc zero)) h = ground arith
avail_taken owner (suc (suc (suc zero))) h = ground arith
avail_taken owner (suc (suc (suc (suc zero)))) h = ground arith
avail_taken owner (suc (suc (suc (suc (suc zero))))) h = ground arith
avail_taken owner (suc (suc (suc (suc (suc (suc j)))))) h =
    absurd (omega (arith, avail_bound owner))

-- `get_next_avail_pid` returns the first free number from 0 to 5, and 6 if there is none.
pub get_next_avail_pid-IsFreePid : (owner : Arr ℕ) → IsFreePid owner (get_next_avail_pid owner)
unfolding get_next_avail_pid
get_next_avail_pid-IsFreePid owner = record {
  bound = avail_bound owner;
  free = λ h. ground arith;
  taken = λ j h. avail_taken owner j h;
}

-- Terminal `t` starts process `p`.
unfoldable pub start : ℕ → ℕ → ProcessTable → ProcessTable
start t p s = record {
  count = inc8 s.count;
  running = upd (upd s.running 0 (inc8 s.count)) t (pos p);
  owner = upd s.owner p t;
  parent = upd s.parent p (s.running t);
}

-- Terminal `t` ends the process `p` that it runs, and goes on with the parent.
unfoldable pub finish : ℕ → ℕ → ProcessTable → ProcessTable
finish t p s = record {
  count = dec8 s.count;
  running = upd (upd s.running 0 (dec8 s.count)) t (s.parent p);
  owner = upd s.owner p 0;
  parent = s.parent;
}

used-upd :
    (owner : Arr ℕ) (p o : ℕ) → p < 6 → used (upd owner p o) + live (owner p) ≡ used owner + live o
used-upd owner zero o h = omega arith
used-upd owner (suc zero) o h = omega arith
used-upd owner (suc (suc zero)) o h = omega arith
used-upd owner (suc (suc (suc zero))) o h = omega arith
used-upd owner (suc (suc (suc (suc zero)))) o h = omega arith
used-upd owner (suc (suc (suc (suc (suc zero))))) o h = omega arith
used-upd owner (suc (suc (suc (suc (suc (suc p)))))) o h = absurd (omega arith)

live_zero : (o : ℕ) → o ≡ 0 → live o ≡ 0
live_zero o h = ground arith

live_one : (o : ℕ) → o ≢ 0 → live o ≡ 1
live_one o h = ground arith

pub used-start :
    (owner : Arr ℕ) (p t : ℕ) → p < 6 → owner p ≡ 0 → t ≢ 0 → used (upd owner p t) ≡ used owner + 1
used-start owner p t h f n =
    omega (arith, used-upd owner p t h, live_zero (owner p) f, live_one t n)

pub used-finish :
    (owner : Arr ℕ) (p : ℕ) → p < 6 → owner p ≢ 0 → used (upd owner p 0) + 1 ≡ used owner
used-finish owner p h n = omega (arith, used-upd owner p 0 h, live_one (owner p) n)

pub used_bound : (owner : Arr ℕ) → used owner ≤ 6
used_bound owner = ground arith

sub_suc : (n : ℕ) → sub_ℕ (suc n) 1 ≡ pos n
sub_suc n = ground arith

pub inc8-count : (n : ℕ) → n ≤ 6 → inc8 (sub_ℕ n 1) ≡ sub_ℕ (n + 1) 1
inc8-count zero h = refl
inc8-count (suc n) h = ground arith

pub dec8-count : (n : ℕ) → dec8 (sub_ℕ (n + 1) 1) ≡ sub_ℕ n 1
dec8-count zero = refl
dec8-count (suc n) = let e : suc n + 1 ≡ suc (suc n) = omega arith in rw (e, sub_suc, sub_suc) refl
