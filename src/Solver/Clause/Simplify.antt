-- ===== src/Solver/Clause/Simplify.antt =====
-- solver/clause.go: SimplifyPB, and that it keeps the solutions of the clause.
use gophersat.Prelude.{
  ◌≡◌, refl, Bool, true, false, ◌&&◌, Option, none, some, List, [], ◌∷◌, length, arith,
  if◌then◌else◌,
}
use gophersat.Prelude.Run.{Run, ok, panic, ◌>>=◌, Returns, returns, Returns-if, Returns-bind}
use gophersat.Prelude.Slices.{each_of}
use gophersat.Prelude.Int.{ℤ, pos, negsuc, ltb_ℤ, ◌+ℤ◌, ◌-ℤ◌, ◌≤ℤ◌, parts_of_eq, int_laws}
use gophersat.Semantics.{Assignment}
use gophersat.Solver.Types.{Lit}
use gophersat.Solver.Types.Codec.{lit_true}
use gophersat.Solver.Problem.{Clause}
use gophersat.Solver.Clause.{new_pb_clause, cardinality, weights_of, weight_sum, total}
use gophersat.Solver.Clause.Meaning.{sum_true}

-- The loop over the literals that must be true: they, and the literals, the weights and the degree
-- that are left.
unfoldable pub forced : ℤ → List Lit → List ℤ → ℤ → Run (List Lit × List Lit × List ℤ × ℤ)
forced thresh [] weights card = ok ([], [], weights, card)
forced thresh (l ∷ lits) [] card = panic
forced thresh (l ∷ lits) (w ∷ weights) card =
    let rest : Run (List Lit × List Lit × List ℤ × ℤ) =
      forced thresh lits weights (card -ℤ w) >>= λ (units, ls, ws, k). ok (l ∷ units, ls, ws, k) in
    if ltb_ℤ thresh w then rest else ok ([], l ∷ lits, w ∷ weights, card)

-- `for newWeights[0] > card { newWeights[0] = card }`
unfoldable pub saturate : ℤ → List ℤ → Run (List ℤ)
saturate card [] = panic
saturate card (w ∷ weights) = ok ((if ltb_ℤ card w then card else w) ∷ weights)

-- `(units, c2, ok)`
pub data Simplification : Type 0 where
  unsatisfiable : Simplification
  reduced : List Lit → Option Clause → Simplification

unfoldable pub simplify_pb : Clause → Run Simplification
unfolding forced saturate
simplify_pb c =
    let card = pos (cardinality c) in
    let thresh = weight_sum c -ℤ card in
    let split : Run Simplification =
      forced thresh c.lits (weights_of c) card >>= λ (units, lits, weights, k).
      let rest : Run Simplification = elim c.pb_data [
        | none ↦ panic
        | some d ↦ saturate k weights >>= λ saturated.
            new_pb_clause lits (some saturated) k >>= λ c2. ok (reduced units (some c2))
      ] in
      if ltb_ℤ (pos 0) k then rest else ok (reduced units none) in
    if ltb_ℤ thresh (pos 0) then ok unsatisfiable else split

abbrev pub NonNegative : List ℤ → Type 0
NonNegative [] = Unit {0}
NonNegative (w ∷ ws) = (pos 0 ≤ℤ w) × NonNegative ws

-- The value is between 0 and the sum of the weights.
pub sum_true_bounds :
    (a : Assignment) (ls : List Lit) (ws : List ℤ)
    → NonNegative ws
    → (pos 0 ≤ℤ sum_true a ls ws) × (sum_true a ls ws ≤ℤ total ws)
unfolding sum_true total
sum_true_bounds a [] [] h = omega int_laws
sum_true_bounds a [] (w ∷ ws) h =
    let ih = sum_true_bounds a [] ws h.1 in widen w (sum_true a [] ws) (total ws) h.0 ih
  where
    widen :
        (w s t : ℤ) → pos 0 ≤ℤ w → (pos 0 ≤ℤ s) × (s ≤ℤ t) → (pos 0 ≤ℤ pos 0) × (pos 0 ≤ℤ w +ℤ t)
    widen w s t h i = omega int_laws
sum_true_bounds a (l ∷ ls) [] h = omega int_laws
sum_true_bounds a (l ∷ ls) (w ∷ ws) h =
    counted (lit_true a l) w _ _ h.0 (sum_true_bounds a ls ws h.1)
  where
    counted :
        (b : Bool) (w s t : ℤ)
        → pos 0 ≤ℤ w
        → (pos 0 ≤ℤ s) × (s ≤ℤ t)
        → (pos 0 ≤ℤ (if b then w else pos 0) +ℤ s) × ((if b then w else pos 0) +ℤ s ≤ℤ w +ℤ t)
    counted true w s t h i = omega int_laws
    counted false w s t h i = omega int_laws

-- What the loop leaves: the balance of the sum of weights and the degree is kept, the forced literals
-- count for the difference, and without one of them the threshold is missed.
pub record Forced (thresh : ℤ) (lits : List Lit) (ws : List ℤ) (card : ℤ)
    (r : List Lit × List Lit × List ℤ × ℤ) : Type 0 where
  pub balance : total r.2 +ℤ card ≡ total ws +ℤ r.3
  pub sized : length r.1 ≡ length r.2
  pub weights : NonNegative r.2
  pub degree : r.3 ≤ℤ card
  pub counts :
      (a : Assignment)
      → each_of (lit_true a) r.0 ≡ true
      → sum_true a lits ws +ℤ r.3 ≡ sum_true a r.1 r.2 +ℤ card
  pub needs :
      (a : Assignment)
      → each_of (lit_true a) r.0 ≡ false
      → sum_true a lits ws +ℤ thresh +ℤ pos 1 ≤ℤ total ws

pub above_lt : (x y : ℤ) → ltb_ℤ x y ≡ true → x +ℤ pos 1 ≤ℤ y
unfolding ◌+ℤ◌
above_lt (pos n) (pos m) e = ground arith
above_lt (pos n) (negsuc m) e = cc
above_lt (negsuc n) (pos m) e = ground arith
above_lt (negsuc n) (negsuc m) e = ground arith

step_lem :
    (thresh : ℤ) (l : Lit) (lits : List Lit) (w : ℤ) (ws : List ℤ) (card : ℤ) (units ls : List Lit)
    (vs : List ℤ) (k : ℤ)
    → NonNegative (w ∷ ws)
    → thresh +ℤ pos 1 ≤ℤ w
    → Forced thresh lits ws (card -ℤ w) (units, ls, vs, k)
    → Forced thresh (l ∷ lits) (w ∷ ws) card (l ∷ units, ls, vs, k)
unfolding total sum_true
step_lem thresh l lits w ws card units ls vs k h above f = record {
  balance = balanced (total vs) (total ws) f.balance;
  sized = f.sized;
  weights = f.weights;
  degree = lowered h.0 f.degree;
  counts = λ a t. counted (lit_true a l) _ _ (ground (arith, t)) (f.counts a (ground (arith, t)));
  needs = λ a t.
      needed (lit_true a l) (each_of (lit_true a) units) _ (total ws)
        (sum_true_bounds a lits ws h.1).1 (f.needs a) t;
}
  where
    balanced : (v t : ℤ) → v +ℤ (card -ℤ w) ≡ t +ℤ k → v +ℤ card ≡ w +ℤ t +ℤ k
    balanced v t e = omega (int_laws, parts_of_eq e)

    lowered : pos 0 ≤ℤ w → k ≤ℤ card -ℤ w → k ≤ℤ card
    lowered p q = omega int_laws

    counted :
        (b : Bool) (x y : ℤ)
        → b ≡ true
        → x +ℤ k ≡ y +ℤ (card -ℤ w)
        → (if b then w else pos 0) +ℤ x +ℤ k ≡ y +ℤ card
    counted true x y t e = omega (int_laws, parts_of_eq e)
    counted false x y t e = cc

    needed :
        (b c : Bool) (x t : ℤ)
        → x ≤ℤ t
        → (c ≡ false → x +ℤ thresh +ℤ pos 1 ≤ℤ t)
        → (b && c) ≡ false
        → (if b then w else pos 0) +ℤ x +ℤ thresh +ℤ pos 1 ≤ℤ w +ℤ t
    needed true c x t p q e = let r = q e in omega int_laws
    needed false c x t p q e = omega int_laws

pub forced-Returns :
    (thresh : ℤ) (lits : List Lit) (ws : List ℤ) (card : ℤ)
    → length lits ≡ length ws
    → NonNegative ws
    → Returns (Forced thresh lits ws card) (forced thresh lits ws card)
unfolding forced
forced-Returns thresh [] [] card e h = returns (record {
  balance = refl;
  sized = refl;
  weights = tt;
  degree = omega arith;
  counts = λ a t. refl;
  needs = λ a t. cc;
})
forced-Returns thresh [] (w ∷ ws) card e h = absurd (omega arith)
forced-Returns thresh (l ∷ lits) [] card e h = absurd (omega arith)
forced-Returns thresh (l ∷ lits) (w ∷ ws) card e h =
    Returns-if (ltb_ℤ thresh w)
      (λ above.
        Returns-bind (forced-Returns thresh lits ws (card -ℤ w) (omega arith) h.1)
          (λ (units, ls, vs, k) f.
            returns (step_lem thresh l lits w ws card units ls vs k h (above_lt thresh w above) f)))
      (λ below. returns (record {
        balance = refl;
        sized = e;
        weights = h;
        degree = omega arith;
        counts = λ a t. refl;
        needs = λ a t. cc;
      }))
