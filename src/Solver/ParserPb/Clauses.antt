-- ===== src/Solver/ParserPb/Clauses.antt =====
-- What NewPBClause makes, with or without weights, is a clause that simplifyPB takes, and it means what
-- the literals and weights do.
use gophersat.Prelude.{
  ℕ, ◌^◌, ◌<◌, ◌≤◌, ◌≡◌, ◌↔◌, refl, sym, ap, ◌∙◌, Bool, true, false, Option, some, none, List, [],
  ◌∷◌, length, replicate, arith, Bool-cases, inl, inr,
}
use gophersat.Prelude.Run.{ok, Returns, returns}
use gophersat.Prelude.Slices.{each_of}
use gophersat.Prelude.Int.{ℤ, pos, ltb_ℤ, ◌+ℤ◌, ◌-ℤ◌, ◌≤ℤ◌, parts_of_eq, int_laws}
use gophersat.Semantics.{Assignment}
use gophersat.Solver.Types.{Lit}
use gophersat.Solver.Problem.{Clause}
use gophersat.Solver.Problem.Literals.{below}
use gophersat.Solver.Clause.{
  Term, terms_of, sort_terms, insert_term, term_lits, term_weights, total, new_pb_clause, uint32,
  weights_of,
}
use gophersat.Solver.Clause.Meaning.{
  sum_true, terms_value, cardinality_word, uint32_pred, positive_test, sum_true-terms, length-terms,
  value-sort, members-sort,
}
use gophersat.Solver.Clause.Simplify.{NonNegative}
use gophersat.Solver.Pb.Meaning
use gophersat.Solver.SimplifyPb.Meets.{meets, not_below}
use gophersat.Solver.SimplifyPb.Fit.{IsFitClause}

-- The terms, in whatever order.
record Arranged (lits : List Lit) (ws : List ℤ) (ts : List Term) : Type 0 where
  value : (a : Assignment) → terms_value a ts ≡ sum_true a lits ws
  members : (p : Lit → Bool) → each_of p (term_lits ts) ≡ each_of p lits
  weights : NonNegative ws → NonNegative (term_weights ts)
  total_kept : total (term_weights ts) ≡ total ws

terms_of-ok :
    (lits : List Lit) (ws : List ℤ)
    → length lits ≡ length ws
    → (ts : List Term) × (terms_of lits ws ≡ ok ts) × (term_lits ts ≡ lits) × (term_weights ts ≡ ws)
unfolding terms_of term_lits term_weights
terms_of-ok [] [] e = ([], refl, refl, refl)
terms_of-ok [] (w ∷ ws) e = absurd (omega arith)
terms_of-ok (l ∷ lits) [] e = absurd (omega arith)
terms_of-ok (l ∷ lits) (w ∷ ws) e =
    let (ts, f, g, h) = terms_of-ok lits ws (omega arith) in
    ((l, w) ∷ ts, rw f refl, ap (λ ls. l ∷ ls) g, ap (λ vs. w ∷ vs) h)

weights-insert :
    (l : Lit) (w : ℤ) (ts : List Term)
    → (NonNegative (w ∷ term_weights ts) → NonNegative (term_weights (insert_term (l, w) ts)))
      × (total (term_weights (insert_term (l, w) ts)) ≡ w +ℤ total (term_weights ts))
unfolding insert_term term_weights total
weights-insert l w [] = (λ h. h, refl)
weights-insert l w ((k, v) ∷ ts) = elim (Bool-cases (ltb_ℤ v w)) [
  | inl above ↦ rw above (λ h. h, refl)
  | inr below ↦
      let (f, e) = weights-insert l w ts in
      rw below (λ h. (h.1.0, f (h.0, h.1.1)), swapped v w (total (term_weights ts)) e)
]
  where
    swapped : {t : ℤ} (x y z : ℤ) → t ≡ y +ℤ z → x +ℤ t ≡ y +ℤ (x +ℤ z)
    swapped x y z e = omega (int_laws, parts_of_eq e)

weights-sort :
    (acc ts : List Term)
    → (NonNegative (term_weights acc)
        → NonNegative (term_weights ts)
        → NonNegative (term_weights (sort_terms acc ts)))
      × (total (term_weights (sort_terms acc ts))
          ≡ total (term_weights acc) +ℤ total (term_weights ts))
unfolding sort_terms term_weights total
weights-sort acc [] = (λ h _. h, zero_right (total (term_weights acc)))
  where
    zero_right : (x : ℤ) → x ≡ x +ℤ pos 0
    zero_right x = omega int_laws
weights-sort acc ((l, w) ∷ ts) =
    let (f, e) = weights-sort (insert_term (l, w) acc) ts in
    let (g, d) = weights-insert l w acc in
    (λ h k. f (g (k.0, h)) k.1, regroup w (total (term_weights acc)) (total (term_weights ts)) e d)
  where
    regroup : {s t : ℤ} (x y z : ℤ) → s ≡ t +ℤ z → t ≡ x +ℤ y → s ≡ y +ℤ (x +ℤ z)
    regroup x y z p q = omega (int_laws, parts_of_eq p, parts_of_eq q)

Arranged-in_order :
    (lits : List Lit) (ws : List ℤ) (ts : List Term)
    → term_lits ts ≡ lits
    → term_weights ts ≡ ws
    → Arranged lits ws ts
Arranged-in_order lits ws ts e f = record {
  value = λ a. sym (sum_true-terms a ts) ∙ rw (e, f) refl;
  members = λ p. ap (each_of p) e;
  weights = λ h. rw f h;
  total_kept = ap total f;
}

Arranged-by_weight :
    (lits : List Lit) (ws : List ℤ) (ts : List Term)
    → term_lits ts ≡ lits
    → term_weights ts ≡ ws
    → Arranged lits ws (sort_terms [] ts)
unfolding terms_value term_weights term_lits total
Arranged-by_weight lits ws ts e f =
    let d = Arranged-in_order lits ws ts e f in
    let (keep, same) = weights-sort [] ts in
    record {
      value = λ a. value-sort a [] ts ∙ zero_left _ ∙ d.value a;
      members = λ p. members-sort p [] ts ∙ d.members p;
      weights = λ h. keep tt (d.weights h);
      total_kept = same ∙ zero_left _ ∙ d.total_kept;
    }
  where
    zero_left : (x : ℤ) → pos 0 +ℤ x ≡ x
    zero_left x = omega int_laws

abbrev clause_with : ℕ → List Term → List Bool → Clause
clause_with card ts watched = record {
  lits = term_lits ts;
  lbd_value = uint32 (pos card -ℤ pos 1);
  pb_data = some (record { weights = term_weights ts; watched = watched });
}

-- The clause fits, and is met where the weights of the true literals reach the degree.
pub record FitClauseOf (n : ℕ) (lits : List Lit) (ws : List ℤ) (card : ℕ) (c : Clause)
    : Type 0 where
  pub fit : IsFitClause n c
  pub means : (a : Assignment) → (meets a c ≡ true) ↔ (pos card ≤ℤ sum_true a lits ws)

module _ (n : ℕ) (lits : List Lit) (ws : List ℤ) (card : ℕ) (h : 0 < card) (k : card ≤ 2 ^ 30)
    (signs : NonNegative ws) (bounded : total ws ≤ℤ pos (2 ^ 31))
    (ranged : each_of (below n) lits ≡ true) where
  made :
      (ts : List Term) (watched : List Bool)
      → Arranged lits ws ts
      → FitClauseOf n lits ws card (clause_with card ts watched)
  unfolding weights_of
  made ts watched d = record {
    fit = record {
      sized = length-terms ts;
      weights = d.weights signs;
      bounded = rw d.total_kept bounded;
      word = rw (uint32_pred card h k) (omega arith);
      ranged = d.members (below n) ∙ ranged;
    };
    means = λ a.
        rw
          (
            cardinality_word (clause_with card ts watched) card h k (uint32_pred card h k),
            sum_true-terms a ts,
            d.value a,
          )
          (not_below (sum_true a lits ws) (pos card));
  }

  pub new_pb_clause-FitClauseOf :
      (weights : Option (List ℤ))
      → gophersat.Solver.Pb.Meaning.weights_of (length lits) weights ≡ ws
      → length lits ≡ length ws
      → Returns (FitClauseOf n lits ws card) (new_pb_clause lits weights (pos card))
  unfolding new_pb_clause
  new_pb_clause-FitClauseOf none e s =
      let (ts, f, g, q) = terms_of-ok lits ws s in
      rw (positive_test card h, e, f)
        (returns (made ts (replicate (length lits) false) (Arranged-in_order lits ws ts g q)))
  new_pb_clause-FitClauseOf (some vs) e s =
      let (ts, f, g, q) = terms_of-ok lits ws s in
      rw (positive_test card h, e, f)
        (returns (
          made (sort_terms [] ts) (replicate (length lits) false)
            (Arranged-by_weight lits ws ts g q)))
