-- ===== src/Solver/Optimize/Costs.antt =====
-- The cost of a model, and the constraint that asks for a lower one.
use gophersat.Prelude.{
  ℕ, suc, ◌+◌, ◌-◌, ◌^◌, ◌<◌, ◌≤◌, ◌≡◌, ◌↔◌, refl, ap, ◌∙◌, Bool, true, false, not, some, List, [],
  ◌∷◌, map, length, get_elem?, ltb→lt, arith, if◌then◌else◌,
}
use gophersat.Prelude.Run.{ok, ◌>>=◌, Returns, returns, Returns-bind, Returns-map}
use gophersat.Prelude.Slices.{load-ok, each_of}
use gophersat.Prelude.Int.{ℤ, pos, ltb_ℤ, ◌+ℤ◌, ◌-ℤ◌, ◌≤ℤ◌, parts_of_eq, int_laws, eq_of_parts}
use gophersat.Semantics.{Assignment}
use gophersat.Solver.Types.{Lit, lit_var, is_positive, negation}
use gophersat.Solver.Types.Codec.{lit_true, negation_lem}
use gophersat.Solver.Problem.{Clause, same_sign}
use gophersat.Solver.Problem.Literals.{below, lit_true-negation}
use gophersat.Solver.Clause.{terms_of, sort_terms, term_lits, term_weights, total, new_pb_clause}
use gophersat.Solver.Clause.Meaning.{
  sum_true, terms_value, terms_of-Returns, value-sort, sum_true-terms, members-sort, length-terms,
  MeetsClause, new_pb_clause_correct,
}
use gophersat.Solver.Optimize.{read, model_cost, sorted_hypothesis}

read_at :
    (model : List ℤ) (v : ℕ) (b : ℤ) → get_elem? model v ≡ some b → read model v ≡ ltb_ℤ (pos 0) b
unfolding read
read_at model v b at = rw (read, at) refl

agree : (x y : Bool) → same_sign x y ≡ (if y then x else not x)
unfolding same_sign
agree x y = ground arith

reads :
    (model : List ℤ) (b : ℤ) (l : Lit)
    → get_elem? model (lit_var l) ≡ some b
    → same_sign (ltb_ℤ (pos 0) b) (is_positive l) ≡ lit_true (read model) l
reads model b l at = rw (read_at model (lit_var l) b at) (agree (ltb_ℤ (pos 0) b) (is_positive l))

pub model_cost-Returns :
    (model : List ℤ) (lits : List Lit) (ws : List ℤ)
    → each_of (below (length model)) lits ≡ true
    → length lits ≡ length ws
    → Returns (λ c. c ≡ sum_true (read model) lits ws) (model_cost model lits (some ws))
unfolding model_cost sum_true
model_cost-Returns model [] ws r e = returns refl
model_cost-Returns model (l ∷ lits) [] r e = absurd (omega arith)
model_cost-Returns model (l ∷ lits) (w ∷ ws) r e =
    let (b, at, loaded) =
      load-ok model (lit_var l) (ltb→lt (lit_var l) (length model) (ground arith)) in
    rw loaded (
      Returns-bind (model_cost-Returns model lits ws (ground arith) (omega arith))
        (λ rest ih. returns (rw (ih, reads model b l at) refl)))

-- The negated literals count what the literals do not.
negated_sum :
    (a : Assignment) (lits : List Lit) (ws : List ℤ)
    → length lits ≡ length ws
    → sum_true a (map negation lits) ws +ℤ sum_true a lits ws ≡ total ws
unfolding sum_true total
negated_sum a [] [] e = omega int_laws
negated_sum a [] (w ∷ ws) e = absurd (omega arith)
negated_sum a (l ∷ lits) [] e = absurd (omega arith)
negated_sum a (l ∷ lits) (w ∷ ws) e =
    rw (lit_true-negation a l) (joined (lit_true a l) _ _ _ (negated_sum a lits ws (omega arith)))
  where
    joined :
        (b : Bool) (x y t : ℤ)
        → x +ℤ y ≡ t
        → (if not b then w else pos 0) +ℤ x +ℤ ((if b then w else pos 0) +ℤ y) ≡ w +ℤ t
    joined true x y t h = omega (int_laws, parts_of_eq h)
    joined false x y t h = omega (int_laws, parts_of_eq h)

below-negation :
    (n : ℕ) (lits : List Lit) → each_of (below n) (map negation lits) ≡ each_of (below n) lits
below-negation n [] = refl
below-negation n (l ∷ lits) = let g = negation_lem l in rw (g.same_var, below-negation n lits) refl

length-map-negation : (lits : List Lit) → length (map negation lits) ≡ length lits
length-map-negation [] = refl
length-map-negation (l ∷ lits) = ap suc (length-map-negation lits)

-- The sorted hypothesis of the literals and their weights.
pub record Hypothesis (lits : List Lit) (ws : List ℤ) (negated : List Lit × List ℤ) : Type 0 where
  pub sized : length negated.0 ≡ length negated.1
  pub balance : (a : Assignment) → sum_true a negated.0 negated.1 +ℤ sum_true a lits ws ≡ total ws
  pub ranged : (n : ℕ) → each_of (below n) negated.0 ≡ each_of (below n) lits

collected :
    (lits : List Lit) (ws : List ℤ)
    → length lits ≡ length ws
    → Returns (Hypothesis lits ws) (
        terms_of (map negation lits) ws >>= λ terms.
        let sorted = sort_terms [] terms in ok (term_lits sorted, term_weights sorted))
unfolding terms_value term_lits
collected lits ws e =
    Returns-bind (terms_of-Returns (map negation lits) ws (length-map-negation lits ∙ e))
      (λ ts (f, m). returns (record {
        sized = length-terms (sort_terms [] ts);
        balance = λ a.
            rw (sum_true-terms a (sort_terms [] ts), value-sort a [] ts, f a)
              (added _ _ _ (negated_sum a lits ws e));
        ranged =
            λ n. members-sort (below n) [] ts ∙ ap (each_of (below n)) m ∙ below-negation n lits;
      }))
  where
    added : (x y t : ℤ) → x +ℤ y ≡ t → pos 0 +ℤ x +ℤ y ≡ t
    added x y t h = omega (int_laws, parts_of_eq h)

-- The constraint that the cost is below k, where all weights make up m.
pub record Cheaper (lits : List Lit) (ws : List ℤ) (k : ℕ) (c : Clause) : Type 0 where
  pub meets : (a : Assignment) → MeetsClause a c ↔ (sum_true a lits ws +ℤ pos 1 ≤ℤ pos k)
  pub ranged : (n : ℕ) → each_of (below n) c.lits ≡ each_of (below n) lits

pub sorted_hypothesis-Returns :
    (lits : List Lit) (ws : List ℤ)
    → length lits ≡ length ws
    → Returns (Hypothesis lits ws) (sorted_hypothesis lits (some ws))
unfolding sorted_hypothesis terms_value term_lits
sorted_hypothesis-Returns [] ws e = collected [] ws e
sorted_hypothesis-Returns (l ∷ []) ws e = collected (l ∷ []) ws e
sorted_hypothesis-Returns (l ∷ k ∷ lits) ws e = collected (l ∷ k ∷ lits) ws e

pub Cheaper-Returns :
    (lits : List Lit) (ws : List ℤ) (negated : List Lit × List ℤ) (m k : ℕ)
    → Hypothesis lits ws negated
    → total ws ≡ pos m
    → k ≤ m
    → m < 2 ^ 30
    → Returns
        (Cheaper lits ws k)
        (new_pb_clause negated.0 (some negated.1) (pos m -ℤ pos k +ℤ pos 1))
Cheaper-Returns lits ws (ls, vs) m k h t le small =
    let degree : pos m -ℤ pos k +ℤ pos 1 ≡ pos (m - k + 1) = eq_of_parts _ _ (omega int_laws) in
    rw degree (
      Returns-map (new_pb_clause_correct ls vs (m - k + 1) h.sized (omega arith) (omega arith))
        (λ c p. record {
          meets = λ a.
              rw (p.degree, p.value a)
                (lower (sum_true a ls vs) (sum_true a lits ws) (h.balance a ∙ t));
          ranged = λ n. p.members (below n) ∙ h.ranged n;
        }))
  where
    lower : (x y : ℤ) → x +ℤ y ≡ pos m → (pos (m - k + 1) ≤ℤ x) ↔ (y +ℤ pos 1 ≤ℤ pos k)
    lower x y q = (λ u. omega (int_laws, parts_of_eq q), λ u. omega (int_laws, parts_of_eq q))
