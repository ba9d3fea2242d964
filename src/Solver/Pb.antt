-- ===== src/Solver/Pb.antt =====
-- solver/pb.go and solver/card.go: pseudo-Boolean and cardinality constraints over DIMACS literals.
-- Weights, degrees and their sums are Go `int`s that are taken not to overflow. A slice of weights
-- is `none` where it is nil.
pub mod Meaning
pub mod Counting
mod Tests
use gophersat.Prelude.{
  ℕ, zero, suc, ◌+◌, Bool, true, false, ◌&&◌, not, Option, none, some, List, [], ◌∷◌, ◌++◌, map,
  length, replicate, ◌==◌, if◌then◌else◌,
}
use gophersat.Prelude.Run.{Run, ok, panic, ◌>>=◌}
use gophersat.Prelude.Int.{ℤ, pos, negsuc, neg, ◌+ℤ◌, ◌-ℤ◌, ltb_ℤ, ◌==ℤ◌}

pub record PbConstr : Type 0 where
  pub lits : List ℤ
  pub weights : Option (List ℤ)
  pub at_least : ℤ

unfoldable pub sum : List ℤ → ℤ
sum [] = pos 0
sum (w ∷ weights) = w +ℤ sum weights

unfoldable pub weight_sum : PbConstr → ℤ
unfolding sum
weight_sum c = elim c.weights [ none ↦ pos (length c.lits) | some weights ↦ sum weights ]

unfoldable pub prop_clause : List ℤ → PbConstr
prop_clause lits = record { lits = lits; weights = none; at_least = pos 1 }

unfoldable pub at_least : List ℤ → ℤ → PbConstr
at_least lits n = record { lits = lits; weights = none; at_least = n }

unfoldable pub at_most : List ℤ → ℤ → PbConstr
at_most lits n = record { lits = map neg lits; weights = none; at_least = pos (length lits) -ℤ n }

-- What the loop of GtEq makes of literals, weights and degree.
pub record Terms : Type 0 where
  pub lits : List ℤ
  pub weights : List ℤ
  pub n : ℤ

-- A negative weight is made positive on the negated literal; a term of weight 0 goes.
unfoldable pub normalise : List ℤ → List ℤ → ℤ → Terms
normalise [] weights n = record { lits = []; weights = weights; n = n }
normalise (lit ∷ lits) [] n = record { lits = lit ∷ lits; weights = []; n = n }
normalise (lit ∷ lits) (w ∷ weights) n =
    let negative = ltb_ℤ w (pos 0) in
    let w' = if negative then neg w else w in
    let lit' = if negative then neg lit else lit in
    let rest = normalise lits weights (if negative then n +ℤ w' else n) in
    if w' ==ℤ pos 0
    then rest
    else record { lits = lit' ∷ rest.lits; weights = w' ∷ rest.weights; n = rest.n }

constr_of : Terms → PbConstr
constr_of t = record { lits = t.lits; weights = some t.weights; at_least = t.n }

unfoldable pub gt_eq : List ℤ → Option (List ℤ) → ℤ → Run PbConstr
unfolding normalise constr_of
gt_eq lits none n = ok (record { lits = lits; weights = none; at_least = n })
gt_eq lits (some []) n = ok (record { lits = lits; weights = some []; at_least = n })
gt_eq lits (some (w ∷ weights)) n =
    if length lits == length (w ∷ weights)
    then ok (constr_of (normalise lits (w ∷ weights) n))
    else panic

-- The sum of LtEq, with a weight read for each literal.
weights_sum : List ℤ → List ℤ → Run ℤ
weights_sum [] weights = ok (pos 0)
weights_sum (lit ∷ lits) [] = panic
weights_sum (lit ∷ lits) (w ∷ weights) = do rest ← weights_sum lits weights; ok (w +ℤ rest)

abbrev slice : Option (List ℤ) → List ℤ
slice none = []
slice (some weights) = weights

unfoldable pub lt_eq : List ℤ → Option (List ℤ) → ℤ → Run PbConstr
unfolding weights_sum gt_eq
lt_eq lits weights n = do
  total ← weights_sum lits (slice weights)
  gt_eq (map neg lits) weights (total -ℤ n)

-- Is the constraint kept by Eq?
matters : PbConstr → Bool
matters c = ltb_ℤ (pos 0) c.at_least

-- `copy` makes empty slices of nil ones for the first constraint.
unfoldable pub eq : List ℤ → Option (List ℤ) → ℤ → Run (List PbConstr)
unfolding lt_eq matters
eq lits weights n = do
  ge ← gt_eq lits (some (slice weights)) n
  le ← lt_eq lits weights n
  ok ((if matters ge then ge ∷ [] else []) ++ (if matters le then le ∷ [] else []))

-- card.go
pub record CardConstr : Type 0 where
  pub lits : List ℤ
  pub at_least : ℤ

unfoldable pub at_least1 : List ℤ → CardConstr
at_least1 lits = record { lits = lits; at_least = pos 1 }

unfoldable pub at_most1 : List ℤ → CardConstr
at_most1 lits = record { lits = map neg lits; at_least = pos (length lits) -ℤ pos 1 }

unfoldable pub exactly1 : List ℤ → List CardConstr
unfolding at_least1 at_most1
exactly1 lits = at_least1 lits ∷ at_most1 lits ∷ []
