-- ===== src/Solver/ParserPb/Constraints.antt =====
-- What a constraint over DIMACS literals means over the solver's literals.
use gophersat.Prelude.{
  ℕ, zero, suc, ◌^◌, ◌≤◌, ◌≡◌, ◌↔◌, refl, sym, ap, ◌∙◌, Bool, true, false, ◌&&◌, Option, some, none,
  List, [], ◌∷◌, ◌++◌, map, length, replicate, arith, if◌then◌else◌, Bool-cases, inl, inr, ◌==◌,
  ==→eq,
}
use gophersat.Prelude.Slices.{each_of, some_of}
use gophersat.Prelude.Int.{ℤ, pos, negsuc, ◌+ℤ◌, ◌≤ℤ◌, int_laws}
use gophersat.Semantics.{Assignment, IsClause}
use gophersat.Solver.Types.{Lit}
use gophersat.Solver.Types.Codec.{lit_true}
use gophersat.Solver.Problem.Literals.{below}
use gophersat.Solver.Clause.{total}
use gophersat.Solver.Clause.Meaning.{sum_true}
use gophersat.Solver.Clause.Simplify.{NonNegative, sum_true_bounds}
use gophersat.Solver.Pb.{PbConstr, sum, weight_sum}
use gophersat.Solver.Pb.Meaning.{value, weights_of, ArePositive}
use gophersat.Solver.Parser.{lit_of, count_var}
use gophersat.Solver.Parser.Lines.{lit_of-holds, each_of-append, below_mono, count_var_bounds}
use gophersat.Solver.ParserPb.{count_vars, add_distinct}

-- Literals of at most 2^30 other than 0, and a positive weight for each; the weights add up to at most 2^30.
pub record IsFitConstr (c : PbConstr) : Type 0 where
  pub literals : IsClause (2 ^ 30) c.lits
  pub sized : length c.lits ≡ length (weights_of (length c.lits) c.weights)
  pub positive : ArePositive (weights_of (length c.lits) c.weights)
  pub bounded : total (weights_of (length c.lits) c.weights) ≤ℤ pos (2 ^ 30)

pub value-sum_true :
    (a : Assignment) (lits weights : List ℤ)
    → IsClause (2 ^ 30) lits
    → value a lits weights ≡ sum_true a (map lit_of lits) weights
unfolding value sum_true
value-sum_true a [] weights h = refl
value-sum_true a (l ∷ lits) [] h = refl
value-sum_true a (l ∷ lits) (w ∷ weights) h =
    rw (lit_of-holds a l h.0, value-sum_true a lits weights h.1) refl

pub positive-NonNegative : (ws : List ℤ) → ArePositive ws → NonNegative ws
positive-NonNegative [] h = tt
positive-NonNegative (pos zero ∷ ws) h = absurd h.0
positive-NonNegative (pos (suc k) ∷ ws) h = (omega arith, positive-NonNegative ws h.1)
positive-NonNegative (negsuc k ∷ ws) h = absurd h.0

sum-total : (ws : List ℤ) → sum ws ≡ total ws
unfolding sum total
sum-total [] = refl
sum-total (w ∷ ws) = ap (λ t. w +ℤ t) (sum-total ws)

total-ones : (n : ℕ) → total (replicate n (pos 1)) ≡ pos n
unfolding total ◌+ℤ◌
total-ones zero = refl
total-ones (suc n) = rw (total-ones n) (ground arith)

pub weight_sum-total : (c : PbConstr) → weight_sum c ≡ total (weights_of (length c.lits) c.weights)
unfolding weight_sum
weight_sum-total c = of_weights c.lits c.weights c.at_least
  where
    of_weights :
        (lits : List ℤ) (weights : Option (List ℤ)) (n : ℤ)
        → weight_sum (record { lits = lits; weights = weights; at_least = n })
          ≡ total (weights_of (length lits) weights)
    of_weights lits none n = sym (total-ones (length lits))
    of_weights lits (some ws) n = sum-total ws

-- Only if all literals are true do the weights make up their sum.
pub all_needed :
    (a : Assignment) (lits : List Lit) (ws : List ℤ)
    → ArePositive ws
    → length lits ≡ length ws
    → (total ws ≤ℤ sum_true a lits ws) ↔ (each_of (lit_true a) lits ≡ true)
unfolding total sum_true
all_needed a [] [] h e = (λ _. refl, λ _. omega arith)
all_needed a [] (w ∷ ws) h e = absurd (omega arith)
all_needed a (l ∷ lits) [] h e = absurd (omega arith)
all_needed a (l ∷ lits) (pos zero ∷ ws) h e = absurd h.0
all_needed a (l ∷ lits) (negsuc k ∷ ws) h e = absurd h.0
all_needed a (l ∷ lits) (pos (suc k) ∷ ws) h e =
    let (f, b) = all_needed a lits ws h.1 (omega arith) in
    let high = (sum_true_bounds a lits ws (positive-NonNegative ws h.1)).1 in
    first (lit_true a l) (each_of (lit_true a) lits) k (total ws) (sum_true a lits ws) f b high
  where
    first :
        (x y : Bool) (k : ℕ) (t s : ℤ)
        → (t ≤ℤ s → y ≡ true)
        → (y ≡ true → t ≤ℤ s)
        → s ≤ℤ t
        → (pos (suc k) +ℤ t ≤ℤ (if x then pos (suc k) else pos 0) +ℤ s) ↔ ((x && y) ≡ true)
    first true y k t s f b high = (λ h. f (omega int_laws), λ h. let g = b h in omega int_laws)
    first false y k t s f b high = (λ h. absurd (omega int_laws), λ h. cc)

member_lem :
    (p : Lit → Bool) (l : Lit) (units : List Lit)
    → some_of (λ u. u == l) units ≡ true
    → each_of p units ≡ true
    → p l ≡ true
member_lem p l [] m h = cc
member_lem p l (u ∷ units) m h = elim (Bool-cases (u == l)) [
  | inl e ↦ ap p (sym (==→eq u l e)) ∙ (ground arith)
  | inr n ↦ member_lem p l units (ground arith) (ground arith)
]

pub each_of-add_distinct :
    (p : Lit → Bool) (lits : List ℤ) (units : List Lit)
    → each_of p (add_distinct lits units) ≡ (each_of p units && each_of p (map lit_of lits))
unfolding add_distinct
each_of-add_distinct p [] units = ground arith
each_of-add_distinct p (x ∷ lits) units = elim (Bool-cases (some_of (λ u. u == lit_of x) units)) [
  | inl m ↦ rw m (
      let ih = each_of-add_distinct p lits units in
      let known = member_lem p (lit_of x) units m in
      elim (Bool-cases (each_of p units)) [
        | inl t ↦ ground (arith, known t)
        | inr f ↦ ground arith
      ])
  | inr n ↦ rw n (
      ground (
        arith,
        each_of-add_distinct p lits (units ++ lit_of x ∷ []),
        each_of-append p units (lit_of x ∷ []),
      ))
]

pub count_vars_bounds :
    (lits : List ℤ) (n : ℕ)
    → (n ≤ count_vars lits n) × (each_of (below (count_vars lits n)) (map lit_of lits) ≡ true)
unfolding count_vars
count_vars_bounds [] n = (omega arith, refl)
count_vars_bounds (x ∷ lits) n =
    let m = count_var (lit_of x) n in
    let (grown, inside) = count_var_bounds (lit_of x) n in
    let (more, ranged) = count_vars_bounds lits m in
    (omega arith, ground (arith, below_mono m (count_vars lits m) more (lit_of x) inside))
