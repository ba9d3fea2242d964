-- ===== src/Solver/SimplifyPb/Fit.antt =====
-- The clauses that simplifyPB takes, and their scan.
use mathlib.Core.Path.{subst}
use gophersat.Prelude.{
  ℕ, zero, suc, ◌+◌, ◌^◌, ◌<◌, ◌≡◌, ◌↔◌, refl, ap, Bool, true, false, Option, some, none, List, [],
  ◌∷◌, length, get_elem?, set, arith,
}
use gophersat.Prelude.Run.{Returns, Returns-map}
use gophersat.Prelude.Slices.{last_of, init_of, swap_remove, each_of}
use gophersat.Prelude.Int.{pos, ◌-ℤ◌, ◌≤ℤ◌}
use gophersat.Semantics.{Assignment}
use gophersat.Solver.Types.{Lit}
use gophersat.Solver.Problem.{Clause, PbData, Problem, is_unsat}
use gophersat.Solver.Problem.Literals.{below}
use gophersat.Solver.Problem.Units.{is_binding}
use gophersat.Solver.Clause.{total, cardinality, learned, weight_sum, weights_of}
use gophersat.Solver.Clause.Meaning.{sum_true}
use gophersat.Solver.Clause.Simplify.{NonNegative}
use gophersat.Solver.SimplifyPb.{Outcome, scan_terms, size}
use gophersat.Solver.SimplifyPb.Meets.{some_inj, meets, not_below}
use gophersat.Solver.SimplifyPb.States.{State, pb_clause, IsFit, Promises}
use gophersat.Solver.SimplifyPb.Terms.{scan_terms-Returns}

-- A pseudo-Boolean clause of n variables with a degree of at most 2^30, a weight that is not negative for
-- each literal, and weights that add up to at most 2^31.
pub record FitData (n : ℕ) (c : Clause) (d : PbData) : Type 0 where
  pub sized : length c.lits ≡ length d.weights
  pub weights : NonNegative d.weights
  pub bounded : total d.weights ≤ℤ pos (2 ^ 31)
  pub word : c.lbd_value < 2 ^ 30
  pub ranged : each_of (below n) c.lits ≡ true

abbrev pub FitOption : ℕ → Clause → Option PbData → Type 0
FitOption n c none = ⊥
FitOption n c (some d) = FitData n c d

abbrev pub IsFitClause : ℕ → Clause → Type 0
IsFitClause n c = FitOption n c c.pb_data

abbrev pub AreFit : ℕ → List Clause → Type 0
AreFit n [] = Unit {0}
AreFit n (c ∷ clauses) = IsFitClause n c × AreFit n clauses

pub AreFit-get :
    (n : ℕ) (cs : List Clause) (i : ℕ) (c : Clause)
    → AreFit n cs
    → get_elem? cs i ≡ some c
    → IsFitClause n c
AreFit-get n [] i c h e = cc
AreFit-get n (d ∷ cs) zero c h e = subst (IsFitClause n) (some_inj e) h.0
AreFit-get n (d ∷ cs) (suc i) c h e = AreFit-get n cs i c h.1 e

pub AreFit-set :
    (n : ℕ) (cs : List Clause) (i : ℕ) (c : Clause)
    → AreFit n cs
    → IsFitClause n c
    → AreFit n (set cs i c)
AreFit-set n [] i c h e = tt
AreFit-set n (d ∷ cs) zero c h e = (e, h.1)
AreFit-set n (d ∷ cs) (suc i) c h e = (h.0, AreFit-set n cs i c h.1 e)

AreFit-last :
    (n : ℕ) (c : Clause) (cs : List Clause)
    → AreFit n (c ∷ cs)
    → AreFit n (last_of c cs ∷ init_of c cs)
unfolding last_of init_of
AreFit-last n c [] h = h
AreFit-last n c (d ∷ cs) h = let r = AreFit-last n d cs h.1 in (r.0, (h.0, r.1))

pub AreFit-swap_remove :
    (n : ℕ) (cs : List Clause) (i : ℕ) → AreFit n cs → AreFit n (swap_remove cs i)
unfolding swap_remove
AreFit-swap_remove n [] i h = tt
AreFit-swap_remove n (c ∷ []) zero h = tt
AreFit-swap_remove n (c ∷ []) (suc i) h = h
AreFit-swap_remove n (c ∷ d ∷ cs) zero h = AreFit-last n d cs h.1
AreFit-swap_remove n (c ∷ d ∷ cs) (suc i) h = (h.0, AreFit-swap_remove n (d ∷ cs) i h.1)

size-last : (c : Clause) (cs : List Clause) → size (c ∷ cs) ≡ size (last_of c cs ∷ init_of c cs)
unfolding size last_of init_of
size-last c [] = refl
size-last c (d ∷ cs) = omega (arith, size-last d cs)

pub size-swap_remove :
    (cs : List Clause) (i : ℕ) → i < length cs → size (swap_remove cs i) < size cs
unfolding size swap_remove
size-swap_remove [] i h = absurd (omega arith)
size-swap_remove (c ∷ []) zero h = omega arith
size-swap_remove (c ∷ []) (suc i) h = absurd (omega arith)
size-swap_remove (c ∷ d ∷ cs) zero h = omega (arith, size-last d cs)
size-swap_remove (c ∷ d ∷ cs) (suc i) h = omega (arith, size-swap_remove (d ∷ cs) i (omega arith))

pub size-set :
    (cs : List Clause) (i : ℕ) (c d : Clause)
    → get_elem? cs i ≡ some c
    → size (set cs i d) + length c.lits ≡ size cs + length d.lits
unfolding size
size-set [] i c d e = cc
size-set (b ∷ cs) zero c d e = omega (arith, ap (λ k. length k.lits) (some_inj e))
size-set (b ∷ cs) (suc i) c d e = omega (arith, size-set cs i c d e)

-- The literals and weights of a fit clause that make up the state of its scan.
abbrev pub start : Problem → Bool → Clause → PbData → State
start pb modified c d = record {
  lits = c.lits;
  ws = d.weights;
  lbd = c.lbd_value;
  watched = d.watched;
  card = pos (cardinality c);
  w_sum = weight_sum c;
  modified = modified;
  pb = pb;
}

small_cardinality : (c : Clause) → c.lbd_value < 2 ^ 30 → cardinality c ≡ c.lbd_value + 1
unfolding cardinality learned
small_cardinality c h = ground arith

-- The scan of the clause keeps what it promises, and the clause is met where its degree is reached.
abbrev pub ClauseOutcome : Problem → Bool → Clause → Outcome → Type 0
ClauseOutcome pb modified c out =
    (d : PbData) × Promises (start pb modified c d) out
    × ((a : Assignment) → (meets a c ≡ true) ↔ (pos (cardinality c) ≤ℤ sum_true a c.lits d.weights))

start-IsFit :
    (pb : Problem) (modified : Bool) (lits : List Lit) (lbd : ℕ) (d : PbData)
    → FitData (length pb.model) (pb_clause lits lbd d.weights d.watched) d
    → each_of is_binding pb.model ≡ true
    → is_unsat pb.status ≡ false
    → IsFit (start pb modified (pb_clause lits lbd d.weights d.watched) d)
unfolding weight_sum ◌-ℤ◌
start-IsFit pb modified lits lbd d f b l =
    let e = small_cardinality (pb_clause lits lbd d.weights d.watched) f.word in
    record {
      sized = f.sized;
      weights = f.weights;
      bounded = f.bounded;
      sum_up = refl;
      degree = omega (arith, e, f.word);
      word = rw e (ground arith);
      ranged = f.ranged;
      bindings = b;
      live = l;
    }

scan_data :
    (pb : Problem) (modified : Bool) (lits : List Lit) (lbd : ℕ) (o : Option PbData)
    → (let c : Clause = record { lits = lits; lbd_value = lbd; pb_data = o } in
        FitOption (length pb.model) c o
        → each_of is_binding pb.model ≡ true
        → is_unsat pb.status ≡ false
        → Returns (ClauseOutcome pb modified c) (
            scan_terms (length c.lits + 1) 0 (record {
              clause = c;
              card = pos (cardinality c);
              w_sum = weight_sum c;
              modified = modified;
              pb = pb;
            })))
unfolding weights_of
scan_data pb modified lits lbd none f b l = absurd f
scan_data pb modified lits lbd (some d) f b l =
    let c = pb_clause lits lbd d.weights d.watched in
    Returns-map
      (scan_terms-Returns (length lits + 1) 0 (start pb modified c d)
        (start-IsFit pb modified lits lbd d f b l) (omega arith))
      (λ out h. (d, h, λ a. not_below (sum_true a lits d.weights) (pos (cardinality c))))

pub scan_clause-Returns :
    (pb : Problem) (modified : Bool) (c : Clause)
    → IsFitClause (length pb.model) c
    → each_of is_binding pb.model ≡ true
    → is_unsat pb.status ≡ false
    → Returns (ClauseOutcome pb modified c) (
        scan_terms (length c.lits + 1) 0 (record {
          clause = c;
          card = pos (cardinality c);
          w_sum = weight_sum c;
          modified = modified;
          pb = pb;
        }))
scan_clause-Returns pb modified c = scan_data pb modified c.lits c.lbd_value c.pb_data
