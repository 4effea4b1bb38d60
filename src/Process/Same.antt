-- ===== src/Process/Same.antt =====
-- Two views of the process table that agree, of which one is consistent if the other is.
use iaaa_os.Base.{ℕ, ◌<◌, ◌≡◌, ◌≢◌, sym, ap, ◌∙◌, inl, inr, sub_ℕ, sub_ℕ}
use iaaa_os.Process.Table.{ProcessTable, IsConsistent, RunsOwn, HasParent, used}

-- The tables agree, in the parents for the six processes.
pub record IsSameTable (s s' : ProcessTable) : Type 0 where
  pub count : s.count ≡ s'.count
  pub running : (t : ℕ) → s.running t ≡ s'.running t
  pub owner : s.owner ≡ s'.owner
  pub parent : (p : ℕ) → p < 6 → s.parent p ≡ s'.parent p

same-RunsOwn : (s s' : ProcessTable) → IsSameTable s s' → (t : ℕ) → RunsOwn s' t → RunsOwn s t
same-RunsOwn s s' e t (inl none) = inl (e.running t ∙ none)
same-RunsOwn s s' e t (inr (p, r, b, own)) =
    inr (p, e.running t ∙ r, b, ap (λ f. f p) e.owner ∙ own)

same-HasParent :
    (s s' : ProcessTable) → IsSameTable s s' → (p : ℕ) → p < 6 → HasParent s' p → HasParent s p
same-HasParent s s' e p h (inl none) = inl (e.parent p h ∙ none)
same-HasParent s s' e p h (inr (q, r, b, ne, own)) =
    inr (q, e.parent p h ∙ r, b, ne, ap (λ f. f q) e.owner ∙ own ∙ sym (ap (λ f. f p) e.owner))

pub same-IsConsistent : (s s' : ProcessTable) → IsSameTable s s' → IsConsistent s' → IsConsistent s
same-IsConsistent s s' e v = record {
  counted = e.count ∙ v.counted ∙ ap (λ o. sub_ℕ (used o) 1) (sym e.owner);
  terminals = λ q h. rw (ap (λ f. f q) e.owner) (v.terminals q h);
  runs = λ t lo hi. same-RunsOwn s s' e t (v.runs t lo hi);
  parents = λ p h x. same-HasParent s s' e p h (v.parents p h (moved p x));
  leaf = λ t p q lo hi r h x par.
      v.leaf t p q lo hi (sym (e.running t) ∙ r) h (moved p x) (sym (e.parent p h) ∙ par);
  single = λ p1 p2 q h1 h2 x1 x2 r1 r2.
      v.single p1 p2 q h1 h2 (moved p1 x1) (moved p2 x2) (sym (e.parent p1 h1) ∙ r1)
        (sym (e.parent p2 h2) ∙ r2);
}
  where
    moved : (p : ℕ) → s.owner p ≢ 0 → s'.owner p ≢ 0
    moved p x z = x (ap (λ f. f p) e.owner ∙ z)
