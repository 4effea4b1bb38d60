-- ===== src/Process/Spawn.antt =====
-- Starting a process keeps the process table consistent.
use native.Mathlib.Decide.{ℕ_discrete}
use iaaa_os.Base.{
  ℕ, ◌≤◌, ◌<◌, ◌≡◌, ◌≢◌, sym, ap, ◌∙◌, arith, Arr, upd, upd_self, upd_ne, pos, minus_one, inl, inr,
  pos_part, neg_part, sub_ℕ,
}
use iaaa_os.Process.Table.{
  ProcessTable, IsConsistent, RunsOwn, HasParent, start, used, used-start, used_bound, inc8-count,
}

pub pos-injective : (p q : ℕ) → pos p ≡ pos q → p ≡ q
pos-injective p q e = ap pos_part e

pub pos-distinct : (q : ℕ) → minus_one ≢ pos q
pos-distinct q e = absurd (omega (arith, ap neg_part e))

-- Numbers with different entries are different.
pub old-ne : (owner : Arr ℕ) (q p : ℕ) → owner q ≢ owner p → q ≢ p
old-ne owner q p d e = d (ap owner e)

-- The process that a terminal runs belongs to it.
pub runs-owner : (s : ProcessTable) (t q : ℕ) → RunsOwn s t → s.running t ≡ pos q → s.owner q ≡ t
runs-owner s t q (inl none) e = absurd (pos-distinct q (sym none ∙ e))
runs-owner s t q (inr (q', e', b, own)) e = ap s.owner (pos-injective q q' (sym e ∙ e')) ∙ own

-- A parent belongs to the terminal of its child.
pub parent-owner :
    (s : ProcessTable) (p q : ℕ) → HasParent s p → s.parent p ≡ pos q → s.owner q ≡ s.owner p
parent-owner s p q (inl none) e = absurd (pos-distinct q (sym none ∙ e))
parent-owner s p q (inr (q', e', b, ne, own)) e = ap s.owner (pos-injective q q' (sym e ∙ e')) ∙ own

module _ (s : ProcessTable) (t p : ℕ) where
  running-same : (start t p s).running t ≡ pos p
  unfolding start
  running-same = upd_self (upd s.running 0 _) t (pos p)

  running-other : (t' : ℕ) → t' ≢ t → t' ≢ 0 → (start t p s).running t' ≡ s.running t'
  unfolding start
  running-other t' d z = upd_ne (upd s.running 0 _) t t' (pos p) d ∙ upd_ne s.running 0 t' _ z

  owner-same : (start t p s).owner p ≡ t
  unfolding start
  owner-same = upd_self s.owner p t

  owner-other : (q : ℕ) → q ≢ p → (start t p s).owner q ≡ s.owner q
  unfolding start
  owner-other q d = upd_ne s.owner p q t d

  parent-same : (start t p s).parent p ≡ s.running t
  unfolding start
  parent-same = upd_self s.parent p (s.running t)

  parent-other : (q : ℕ) → q ≢ p → (start t p s).parent q ≡ s.parent q
  unfolding start
  parent-other q d = upd_ne s.parent p q (s.running t) d

module _ (s : ProcessTable) (t p : ℕ) (v : IsConsistent s) (lo : 1 ≤ t) (hi : t ≤ 3) (bound : p < 6)
    (free : s.owner p ≡ 0) where
  -- A process that exists is not the new one.
  exists-ne : (q : ℕ) → s.owner q ≢ 0 → q ≢ p
  exists-ne q h = old-ne s.owner q p (λ e. h (e ∙ free))

  owned : (q o : ℕ) → s.owner q ≡ o → 1 ≤ o → s.owner q ≢ 0
  owned q o e h z = absurd (omega arith)

  running-free : s.running t ≢ pos p
  running-free e = owned p t (runs-owner s t p (v.runs t lo hi) e) lo free

  start-runs : (t' : ℕ) → 1 ≤ t' → t' ≤ 3 → RunsOwn (start t p s) t'
  start-runs t' lo' hi' = elim (ℕ_discrete t' t) [
    | yes e ↦ rw e (inr (p, running-same s t p, bound, owner-same s t p))
    | no d ↦ elim (v.runs t' lo' hi') [
      | inl none ↦ inl (running-other s t p t' d (omega arith) ∙ none)
      | inr (q, e, b, own) ↦ inr (
        q,
        running-other s t p t' d (omega arith) ∙ e,
        b,
        owner-other s t p q (exists-ne q (owned q t' own lo')) ∙ own,
      )
    ]
  ]

  start-exists : (q : ℕ) → q ≢ p → (start t p s).owner q ≢ 0 → s.owner q ≢ 0
  start-exists q d h z = h (owner-other s t p q d ∙ z)

  new-parent : HasParent (start t p s) p
  new-parent = elim (v.runs t lo hi) [
    | inl none ↦ inl (parent-same s t p ∙ none)
    | inr (q, e, b, own) ↦
        let ne = exists-ne q (owned q t own lo) in
        inr (q, parent-same s t p ∙ e, b, ne, owner-other s t p q ne ∙ own ∙ sym (owner-same s t p))
  ]

  start-parents : (p' : ℕ) → p' < 6 → (start t p s).owner p' ≢ 0 → HasParent (start t p s) p'
  start-parents p' h exists = elim (ℕ_discrete p' p) [
    | yes e ↦ rw e new-parent
    | no d ↦ elim (v.parents p' h (start-exists p' d exists)) [
      | inl none ↦ inl (parent-other s t p p' d ∙ none)
      | inr (q, e, b, ne, own) ↦
          let ne' = exists-ne q (λ z. start-exists p' d exists (sym own ∙ z)) in
          inr (
            q,
            parent-other s t p p' d ∙ e,
            b,
            ne,
            owner-other s t p q ne' ∙ own ∙ sym (owner-other s t p p' d),
          )
    ]
  ]

  -- No child of the new process, and none of what the terminal ran but the new process.
  no-child : (p' : ℕ) → p' < 6 → s.owner p' ≢ 0 → s.parent p' ≢ pos p
  no-child p' h exists e = exists (sym (parent-owner s p' p (v.parents p' h exists) e) ∙ free)

  start-leaf :
      (t' p' q : ℕ)
      → 1 ≤ t'
      → t' ≤ 3
      → (start t p s).running t' ≡ pos q
      → p' < 6
      → (start t p s).owner p' ≢ 0
      → (start t p s).parent p' ≢ pos q
  start-leaf t' p' q lo' hi' run h exists par = elim (ℕ_discrete p' p) [
    | yes e ↦
        let par' : s.running t ≡ pos q = sym (parent-same s t p) ∙ (rw e at par) in
        elim (ℕ_discrete t' t) [
          | yes e' ↦
              let run' : pos p ≡ pos q = sym (running-same s t p) ∙ (rw e' at run) in
              running-free (par' ∙ sym run')
          | no d ↦
              let run' : s.running t' ≡ pos q =
                sym (running-other s t p t' d (omega arith)) ∙ run in
              d (
                sym (runs-owner s t' q (v.runs t' lo' hi') run')
                ∙ runs-owner s t q (v.runs t lo hi) par')
        ]
    | no d ↦
        let par' : s.parent p' ≡ pos q = sym (parent-other s t p p' d) ∙ par in
        let old = start-exists p' d exists in
        elim (ℕ_discrete t' t) [
          | yes e' ↦
              let run' : pos p ≡ pos q = sym (running-same s t p) ∙ (rw e' at run) in
              no-child p' h old (par' ∙ sym run')
          | no d' ↦
              v.leaf t' p' q lo' hi' (sym (running-other s t p t' d' (omega arith)) ∙ run) h old
                par'
        ]
  ]

  start-single :
      (p1 p2 q : ℕ)
      → p1 < 6
      → p2 < 6
      → (start t p s).owner p1 ≢ 0
      → (start t p s).owner p2 ≢ 0
      → (start t p s).parent p1 ≡ pos q
      → (start t p s).parent p2 ≡ pos q
      → p1 ≡ p2
  start-single p1 p2 q h1 h2 o1 o2 e1 e2 = elim (ℕ_discrete p1 p) [
    | yes a ↦ elim (ℕ_discrete p2 p) [
      | yes b ↦ a ∙ sym b
      | no b ↦ absurd (only-child p2 q h2 b o2 (sym (parent-same s t p) ∙ (rw a at e1)) e2)
    ]
    | no a ↦ elim (ℕ_discrete p2 p) [
      | yes b ↦ absurd (only-child p1 q h1 a o1 (sym (parent-same s t p) ∙ (rw b at e2)) e1)
      | no b ↦
          v.single p1 p2 q h1 h2 (start-exists p1 a o1) (start-exists p2 b o2)
            (sym (parent-other s t p p1 a) ∙ e1) (sym (parent-other s t p p2 b) ∙ e2)
    ]
  ]
    where
      only-child :
          (p' q : ℕ)
          → p' < 6
          → p' ≢ p
          → (start t p s).owner p' ≢ 0
          → s.running t ≡ pos q
          → (start t p s).parent p' ≢ pos q
      only-child p' q h d o run e =
          v.leaf t p' q lo hi run h (start-exists p' d o) (sym (parent-other s t p p' d) ∙ e)

  start-counted : (start t p s).count ≡ sub_ℕ (used (start t p s).owner) 1
  unfolding start
  start-counted =
      rw (v.counted, used-start s.owner p t bound free (omega arith))
        (inc8-count (used s.owner) (used_bound s.owner))

  start-terminals : (q : ℕ) → q < 6 → (start t p s).owner q ≤ 3
  start-terminals q h = elim (ℕ_discrete q p) [
    | yes e ↦ rw (e, owner-same s t p) hi
    | no d ↦ rw (owner-other s t p q d) (v.terminals q h)
  ]

  -- If terminal `t` (1 to 3) starts a process under a number from 0 to 5 that is free, a consistent
  -- process table stays consistent.
  pub start-IsConsistent : IsConsistent (start t p s)
  start-IsConsistent = record {
    counted = start-counted;
    terminals = start-terminals;
    runs = start-runs;
    parents = start-parents;
    leaf = start-leaf;
    single = start-single;
  }
