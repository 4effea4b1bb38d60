-- ===== src/Process/Exit.antt =====
-- Ending a process keeps the process table consistent.
use native.Mathlib.Decide.{ℕ_discrete}
use iaaa_os.Base.{
  ℕ, ◌≤◌, ◌<◌, ◌≡◌, ◌≢◌, refl, sym, ap, ◌∙◌, arith, upd, upd_self, upd_ne, pos, inl, inr, sub_ℕ,
}
use iaaa_os.Process.Table.{
  ProcessTable, IsConsistent, RunsOwn, HasParent, finish, used, used-finish, dec8-count,
}
use iaaa_os.Process.Spawn.{old-ne, runs-owner}

module _ (s : ProcessTable) (t p : ℕ) where
  running-same : (finish t p s).running t ≡ s.parent p
  unfolding finish
  running-same = upd_self (upd s.running 0 _) t (s.parent p)

  running-other : (t' : ℕ) → t' ≢ t → t' ≢ 0 → (finish t p s).running t' ≡ s.running t'
  unfolding finish
  running-other t' d z = upd_ne (upd s.running 0 _) t t' (s.parent p) d ∙ upd_ne s.running 0 t' _ z

  owner-same : (finish t p s).owner p ≡ 0
  unfolding finish
  owner-same = upd_self s.owner p 0

  owner-other : (q : ℕ) → q ≢ p → (finish t p s).owner q ≡ s.owner q
  unfolding finish
  owner-other q d = upd_ne s.owner p q 0 d

  parent-finish : (q : ℕ) → (finish t p s).parent q ≡ s.parent q
  unfolding finish
  parent-finish q = refl

module _ (s : ProcessTable) (t p : ℕ) (v : IsConsistent s) (lo : 1 ≤ t) (hi : t ≤ 3) (bound : p < 6)
    (run : s.running t ≡ pos p) where
  owned : s.owner p ≡ t
  owned = runs-owner s t p (v.runs t lo hi) run

  ended-exists : s.owner p ≢ 0
  ended-exists z = absurd (omega (arith, owned))

  -- What still exists is another process.
  left-ne : (q : ℕ) → (finish t p s).owner q ≢ 0 → q ≢ p
  left-ne q h e = h (ap (finish t p s).owner e ∙ owner-same s t p)

  left-exists : (q : ℕ) → (finish t p s).owner q ≢ 0 → s.owner q ≢ 0
  left-exists q h z = h (owner-other s t p q (left-ne q h) ∙ z)

  parent-runs : RunsOwn (finish t p s) t
  parent-runs = elim (v.parents p bound ended-exists) [
    | inl none ↦ inl (running-same s t p ∙ none)
    | inr (q, e, b, ne, own) ↦
        inr (q, running-same s t p ∙ e, b, owner-other s t p q ne ∙ own ∙ owned)
  ]

  finish-runs : (t' : ℕ) → 1 ≤ t' → t' ≤ 3 → RunsOwn (finish t p s) t'
  finish-runs t' lo' hi' = elim (ℕ_discrete t' t) [
    | yes e ↦ rw e parent-runs
    | no d ↦ elim (v.runs t' lo' hi') [
      | inl none ↦ inl (running-other s t p t' d (omega arith) ∙ none)
      | inr (q, e, b, own) ↦
          let ne = old-ne s.owner q p (λ z. d (sym own ∙ z ∙ owned)) in
          inr (q, running-other s t p t' d (omega arith) ∙ e, b, owner-other s t p q ne ∙ own)
    ]
  ]

  finish-parents : (p' : ℕ) → p' < 6 → (finish t p s).owner p' ≢ 0 → HasParent (finish t p s) p'
  finish-parents p' h exists = elim (v.parents p' h (left-exists p' exists)) [
    | inl none ↦ inl (parent-finish s t p p' ∙ none)
    | inr (q, e, b, ne, own) ↦
        let ne' : q ≢ p =
          λ same. v.leaf t p' p lo hi run h (left-exists p' exists) (e ∙ ap pos same) in
        inr (
          q,
          parent-finish s t p p' ∙ e,
          b,
          ne,
          owner-other s t p q ne' ∙ own ∙ sym (owner-other s t p p' (left-ne p' exists)),
        )
  ]

  finish-leaf :
      (t' p' q : ℕ)
      → 1 ≤ t'
      → t' ≤ 3
      → (finish t p s).running t' ≡ pos q
      → p' < 6
      → (finish t p s).owner p' ≢ 0
      → (finish t p s).parent p' ≢ pos q
  finish-leaf t' p' q lo' hi' now h exists par =
      let par' : s.parent p' ≡ pos q = sym (parent-finish s t p p') ∙ par in
      elim (ℕ_discrete t' t) [
        | yes e ↦
            let up : s.parent p ≡ pos q = sym (running-same s t p) ∙ (rw e at now) in
            left-ne p' exists (v.single p' p q h bound (left-exists p' exists) ended-exists par' up)
        | no d ↦
            v.leaf t' p' q lo' hi' (sym (running-other s t p t' d (omega arith)) ∙ now) h
              (left-exists p' exists) par'
      ]

  finish-counted : (finish t p s).count ≡ sub_ℕ (used (finish t p s).owner) 1
  unfolding finish
  finish-counted =
      rw (v.counted, sym (used-finish s.owner p bound ended-exists))
        (dec8-count (used (upd s.owner p 0)))

  finish-terminals : (q : ℕ) → q < 6 → (finish t p s).owner q ≤ 3
  finish-terminals q h = elim (ℕ_discrete q p) [
    | yes e ↦ rw (e, owner-same s t p) (omega arith)
    | no d ↦ rw (owner-other s t p q d) (v.terminals q h)
  ]

  -- If terminal `t` (1 to 3) ends the process that it runs, and goes on with the parent, a consistent
  -- process table stays consistent.
  pub finish-IsConsistent : IsConsistent (finish t p s)
  finish-IsConsistent = record {
    counted = finish-counted;
    terminals = finish-terminals;
    runs = finish-runs;
    parents = finish-parents;
    leaf = finish-leaf;
    single = λ p1 p2 q h1 h2 o1 o2 e1 e2.
        v.single p1 p2 q h1 h2 (left-exists p1 o1) (left-exists p2 o2)
          (sym (parent-finish s t p p1) ∙ e1) (sym (parent-finish s t p p2) ∙ e2);
  }
