-- ===== src/Explain/Loop.antt =====
-- The loops of unit propagation: they end, and what they conclude follows from the clauses used.
use gophersat.Prelude.{
  ℕ, zero, suc, ◌+◌, ◌<◌, ◌≤◌, ◌≡◌, refl, ap, ◌∙◌, Bool, true, false, some, List, [], ◌∷◌, length,
  get_elem?, get_elem?-some, arith, inl, inr,
}
use mathlib.Core.Bool.{false≢true}
use gophersat.Prelude.Run.{Returns, returns, Returns-map, Returns-if, Returns-bind}
use gophersat.Semantics.{Assignment, IsClause}
use gophersat.Explain.{Clause, Propagation, visit, pass, propagate}
use gophersat.Explain.Scanning.{scan_clause-Returns}
use gophersat.Explain.Rounds.{undone, Includes, StepPost, Uses, conclude-Returns}

visit-Returns :
    (nb_clauses i : ℕ) (clause : Clause) (p : Propagation)
    → length p.tagged ≡ nb_clauses
    → i < length p.done
    → IsClause (length p.units) clause
    → Returns (StepPost nb_clauses (Uses nb_clauses i clause) p) (visit nb_clauses i clause p)
unfolding visit
visit-Returns nb_clauses i clause p sized lt h =
    let (b, e) = get_elem?-some p.done i lt in
    rw e (
      Returns-if b
        (λ proved. returns (record {
          same_units = refl;
          same_done = refl;
          tags = (refl, λ j t. t);
          progress = omega arith;
          marks = λ f m. inl m;
          refutes = λ a g u t. false≢true t;
          extends = λ a g u f. g;
        }))
        (λ left.
          Returns-bind (scan_clause-Returns p.units clause _ h (omega arith))
            λ s sp. conclude-Returns nb_clauses i clause p sized (e ∙ ap some left) s sp))

-- The assignment makes the clauses from the i-th on true that are learned or tagged.
abbrev pub Backs : ℕ → ℕ → List Clause → Assignment → List Bool → Type 0
Backs nb_clauses i clauses a tagged =
    (j : ℕ) (c : Clause) → get_elem? clauses j ≡ some c → Uses nb_clauses (i + j) c a tagged

Backs-head :
    (nb_clauses i : ℕ) (c : Clause) (cs : List Clause) (a : Assignment) (t : List Bool)
    → Backs nb_clauses i (c ∷ cs) a t
    → Uses nb_clauses i c a t
Backs-head nb_clauses i c cs a t b = let e : i + 0 ≡ i = omega arith in rw e at (b 0 c refl)

Backs-tail :
    (nb_clauses i : ℕ) (c : Clause) (cs : List Clause) (a : Assignment) (t : List Bool)
    → Backs nb_clauses i (c ∷ cs) a t
    → Backs nb_clauses (i + 1) cs a t
Backs-tail nb_clauses i c cs a t b j d h =
    let e : i + suc j ≡ i + 1 + j = omega arith in rw e at (b (suc j) d h)

StepPost-weaken :
    (nb_clauses : ℕ) (used less : Assignment → List Bool → Type 0)
    → ((a : Assignment) (t : List Bool) → used a t → less a t)
    → (p : Propagation) (r : Bool × Propagation) → StepPost nb_clauses less p r
    → StepPost nb_clauses used p r
StepPost-weaken nb_clauses used less weaken p r s = record {
  same_units = s.same_units;
  same_done = s.same_done;
  tags = s.tags;
  progress = s.progress;
  marks = s.marks;
  refutes = λ a g u. s.refutes a g (weaken a r.1.tagged u);
  extends = λ a g u. s.extends a g (weaken a r.1.tagged u);
}

StepPost-trans :
    (nb_clauses : ℕ) (used first rest : Assignment → List Bool → Type 0)
    → ((a : Assignment) (t t' : List Bool) → Includes t t' → used a t' → first a t)
    → ((a : Assignment) (t : List Bool) → used a t → rest a t)
    → (p q : Propagation) (r : Bool × Propagation) → StepPost nb_clauses first p (false, q)
    → StepPost nb_clauses rest q r
    → StepPost nb_clauses used p r
StepPost-trans nb_clauses used first rest anti weaken p q r s t = record {
  same_units = t.same_units ∙ s.same_units;
  same_done = t.same_done ∙ s.same_done;
  tags = (t.tags.0 ∙ s.tags.0, λ j e. t.tags.1 j (s.tags.1 j e));
  progress = omega (arith, s.progress, t.progress);
  marks = λ f m. grind (arith, s.marks, t.marks, s.progress, t.progress);
  refutes = λ a g u c.
      t.refutes a (s.extends a g (anti a q.tagged r.1.tagged t.tags u) refl) (weaken a r.1.tagged u)
        c;
  extends = λ a g u f.
      t.extends a (s.extends a g (anti a q.tagged r.1.tagged t.tags u) refl) (weaken a r.1.tagged u)
        f;
}

abbrev pub AreClauses : ℕ → List Clause → Type 0
AreClauses n [] = Unit {0}
AreClauses n (c ∷ cs) = IsClause n c × AreClauses n cs

pass-Returns :
    (nb_clauses i : ℕ) (clauses : List Clause) (p : Propagation)
    → length p.tagged ≡ nb_clauses
    → i + length clauses ≤ length p.done
    → AreClauses (length p.units) clauses
    → Returns (StepPost nb_clauses (Backs nb_clauses i clauses) p) (pass nb_clauses i clauses p)
unfolding pass
pass-Returns nb_clauses i [] p sized lt h = returns (record {
  same_units = refl;
  same_done = refl;
  tags = (refl, λ j t. t);
  progress = omega arith;
  marks = λ f m. inl m;
  refutes = λ a g u t. false≢true t;
  extends = λ a g u f. g;
})
pass-Returns nb_clauses i (clause ∷ clauses) p sized lt h =
    Returns-bind (visit-Returns nb_clauses i clause p sized (omega arith) h.0) λ (conflict, q) s.
      Returns-if conflict
        (λ found. returns (
          StepPost-weaken nb_clauses (Backs nb_clauses i (clause ∷ clauses))
            (Uses nb_clauses i clause) (Backs-head nb_clauses i clause clauses) p (true, q)
            (rw found at s)))
        (λ none_yet.
          Returns-map
            (pass-Returns nb_clauses (i + 1) clauses q (s.tags.0 ∙ sized)
              (omega (arith, s.same_done)) (rw s.same_units h.1))
            λ r t.
              StepPost-trans nb_clauses (Backs nb_clauses i (clause ∷ clauses))
                (Uses nb_clauses i clause) (Backs nb_clauses (i + 1) clauses)
                (λ a t t' inc b own.
                  Backs-head nb_clauses i clause clauses a t' b (λ lt. inc.1 i (own lt)))
                (Backs-tail nb_clauses i clause clauses) p q r (rw none_yet at s) t)

-- With more fuel than clauses that are not done, the rounds end.
pub propagate-Returns :
    (fuel nb_clauses : ℕ) (clauses : List Clause) (p : Propagation)
    → undone p.done < fuel
    → length p.tagged ≡ nb_clauses
    → length clauses ≤ length p.done
    → AreClauses (length p.units) clauses
    → Returns
        (StepPost nb_clauses (Backs nb_clauses 0 clauses) p)
        (propagate fuel nb_clauses clauses p)
unfolding propagate
propagate-Returns zero nb_clauses clauses p lt sized fits h = absurd (omega arith)
propagate-Returns (suc fuel) nb_clauses clauses p lt sized fits h =
    Returns-bind
      (pass-Returns nb_clauses 0 clauses (record p { modified = false }) sized (omega arith) h)
      λ (conflict, q) s.
        let s' = reset s in
        Returns-if conflict (λ found. returns (rw found at s'))
          (λ none_yet.
            Returns-if q.modified
              (λ again.
                let fewer : undone q.done < undone p.done = elim (s.marks none_yet again) [
                  | inl bad ↦ absurd (false≢true bad)
                  | inr lower ↦ lower
                ] in
                Returns-map
                  (propagate-Returns fuel nb_clauses clauses q (omega arith) (s.tags.0 ∙ sized)
                    (omega (arith, s.same_done)) (rw s.same_units h))
                  λ r t.
                    StepPost-trans nb_clauses (Backs nb_clauses 0 clauses)
                      (Backs nb_clauses 0 clauses) (Backs nb_clauses 0 clauses)
                      (λ a t t' inc b j c e own. b j c e (λ lt. inc.1 (0 + j) (own lt)))
                      (λ a t b. b) p q r (rw none_yet at s') t)
              (λ settled. returns (rw none_yet at s')))
  where
    reset :
        {r : Bool × Propagation}
        → StepPost nb_clauses (Backs nb_clauses 0 clauses) (record p { modified = false }) r
        → StepPost nb_clauses (Backs nb_clauses 0 clauses) p r
    reset s = record {
      same_units = s.same_units;
      same_done = s.same_done;
      tags = s.tags;
      progress = s.progress;
      marks =
          λ f m. elim (s.marks f m) [ inl bad ↦ absurd (false≢true bad) | inr lower ↦ inr lower ];
      refutes = s.refutes;
      extends = s.extends;
    }
