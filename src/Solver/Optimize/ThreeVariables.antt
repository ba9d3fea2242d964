-- ===== src/Solver/Optimize/ThreeVariables.antt =====
-- A solver of three variables that tries all values, and keeps the contract.
use gophersat.Prelude.{
  ℕ, zero, suc, ◌≡◌, ◌↔◌, ◌<◌, refl, Bool, true, false, not, ◌&&◌, Option, none, some, List, [],
  ◌∷◌, length, arith, if◌then◌else◌, Bool-cases, inl, inr,
}
use gophersat.Prelude.Run.{Run, ok, Returns, returns}
use gophersat.Prelude.Slices.{each_of}
use gophersat.Prelude.Int.{ℤ, pos, negsuc, ltb_ℤ}
use gophersat.Semantics.{Assignment}
use gophersat.Solver.Types.{Status, sat, unsat, Lit, lit_var}
use gophersat.Solver.Types.Codec.{lit_true}
use gophersat.Solver.Problem.{Clause, is_unsat}
use gophersat.Solver.Problem.Literals.{below}
use gophersat.Solver.Clause.{cardinality, weights_of}
use gophersat.Solver.Clause.Meaning.{sum_true}
use gophersat.Solver.Optimize.{read, is_sat, Solver, Contract}
use gophersat.Solver.Optimize.OneVariable.{not_lower}

abbrev pub Test : Type 0
Test = Bool → Bool → Bool → Bool

-- The values of the three variables that are allowed, and those that are without the assumptions.
pub record ThreeVariables : Type 0 where
  pub base : Test
  pub limits : Test
  pub model : List ℤ
  pub last_model : Option (List ℤ)

abbrev pub corner : Bool → Bool → Bool → Assignment
corner x y z zero = x
corner x y z (suc zero) = y
corner x y z (suc (suc v)) = z

-- The test on the first three variables.
abbrev pub at_three : Test → Assignment → Bool
at_three test a = test (a 0) (a 1) (a 2)

abbrev pub first_three : Assignment → Assignment
first_three a = corner (a 0) (a 1) (a 2)

pub first_three-same : (a : Assignment) (v : ℕ) → v < 3 → a v ≡ first_three a v
first_three-same a zero lt = refl
first_three-same a (suc zero) lt = refl
first_three-same a (suc (suc zero)) lt = refl
first_three-same a (suc (suc (suc v))) lt = absurd (omega arith)

abbrev binding : Bool → ℤ
binding true = pos 1
binding false = negsuc 0

-- The first of two values that the search finds something for.
abbrev first_of : Option (List ℤ) → Option (List ℤ) → Option (List ℤ)
first_of (some m) other = some m
first_of none other = other

abbrev try_both : (Bool → Option (List ℤ)) → Option (List ℤ)
try_both search = first_of (search true) (search false)

abbrev scan : Test → Option (List ℤ)
scan test = try_both (λ x. try_both (λ y.
    try_both (λ z. if test x y z then some (binding x ∷ binding y ∷ binding z ∷ []) else none)))

-- What is found has the property, or there is nothing to find.
abbrev Outcome : (List ℤ → Type 0) → Type 0 → Option (List ℤ) → Type 0
Outcome Found Nothing none = Nothing
Outcome Found Nothing (some m) = Found m

try_both-Outcome :
    (Found : List ℤ → Type 0) (Nothing : Bool → Type 0) (search : Bool → Option (List ℤ))
    → ((x : Bool) → Outcome Found (Nothing x) (search x))
    → Outcome Found ((x : Bool) → Nothing x) (try_both search)
try_both-Outcome Found Nothing search h = joined (search true) (search false) (h true) (h false)
  where
    joined :
        (p q : Option (List ℤ))
        → Outcome Found (Nothing true) p
        → Outcome Found (Nothing false) q
        → Outcome Found ((x : Bool) → Nothing x) (first_of p q)
    joined (some m) q g k = g
    joined none (some m) g k = k
    joined none none g k = both
      where
        both : (x : Bool) → Nothing x
        both true = g
        both false = k

-- A total binding of the variables that the test allows.
abbrev Passes : Test → List ℤ → Type 0
Passes test m = (at_three test (read m) ≡ true) × (length m ≡ 3)

scan-Outcome :
    (test : Test) → Outcome (Passes test) ((x y z : Bool) → test x y z ≡ false) (scan test)
unfolding read
scan-Outcome test =
    try_both-Outcome (Passes test) (λ x. (y z : Bool) → test x y z ≡ false) _
      (λ x.
        try_both-Outcome (Passes test) (λ y. (z : Bool) → test x y z ≡ false) _
          (λ y. try_both-Outcome (Passes test) (λ z. test x y z ≡ false) _ (λ z. one x y z)))
  where
    positive : (x : Bool) → ltb_ℤ (pos 0) (binding x) ≡ x
    positive true = refl
    positive false = refl

    one :
        (x y z : Bool)
        → Outcome
            (Passes test)
            (test x y z ≡ false)
            (if test x y z then some (binding x ∷ binding y ∷ binding z ∷ []) else none)
    one x y z = elim (Bool-cases (test x y z)) [
      | inl good ↦ rw (good, positive x, positive y, positive z) (good, refl)
      | inr bad ↦ rw bad refl
    ]

abbrev meets : Clause → Assignment → Bool
meets c a = not (ltb_ℤ (sum_true a c.lits (weights_of c)) (pos (cardinality c)))

-- The status and the state after the search.
abbrev pub settled : Option (List ℤ) → ThreeVariables → Run (Status × ThreeVariables)
settled none s = ok (unsat, s)
settled (some m) s = ok (sat, record s { model = m; last_model = some m })

abbrev pub three_variables : Solver
three_variables = record {
  State = ThreeVariables;
  nb_vars = 3;
  solve = λ s. settled (scan s.limits) s;
  append_clause =
      λ c s. ok (record s { limits = λ x y z. s.limits x y z && meets c (corner x y z) });
  rebuild_order_heap = λ s. s;
  model = λ s. s.model;
  last_model = λ s. s.last_model;
  save_model = λ m s. record s { last_model = some m };
  Solutions = λ s a. at_three s.limits a ≡ true;
}

first_three-sum :
    (a : Assignment) (ls : List Lit) (ws : List ℤ)
    → each_of (below 3) ls ≡ true
    → sum_true a ls ws ≡ sum_true (first_three a) ls ws
unfolding sum_true
first_three-sum a [] ws r = refl
first_three-sum a (l ∷ ls) [] r = refl
first_three-sum a (l ∷ ls) (w ∷ ws) r =
    rw (first_three-same a (lit_var l) (ground arith), first_three-sum a ls ws (ground arith)) refl

pub first_three-lits :
    (a : Assignment) (ls : List Lit)
    → each_of (below 3) ls ≡ true
    → each_of (lit_true a) ls ≡ each_of (lit_true (first_three a)) ls
first_three-lits a [] r = refl
first_three-lits a (l ∷ ls) r =
    rw (first_three-same a (lit_var l) (ground arith), first_three-lits a ls (ground arith)) refl

solve_lem :
    (s : ThreeVariables) (found : Option (List ℤ))
    → Outcome (Passes s.limits) ((x y z : Bool) → s.limits x y z ≡ false) found
    → Returns
        (λ r.
          ((a : Assignment) → (at_three r.1.limits a ≡ true) ↔ (at_three s.limits a ≡ true))
          × (is_unsat r.0 ≡ not (is_sat r.0))
          × (is_sat r.0 ≡ true → Passes s.limits r.1.model)
          × (is_sat r.0 ≡ false
              → ((a : Assignment) → at_three s.limits a ≡ true → ⊥)
                × (r.1.last_model ≡ s.last_model)))
        (settled found s)
unfolding is_sat is_unsat
solve_lem s (some m) h = returns (λ a. (λ e. e, λ e. e), refl, λ e. h, λ e. cc)
solve_lem s none h =
    returns
      (λ a. (λ e. e, λ e. e), refl, λ e. cc, λ e. (λ a t. let f = h (a 0) (a 1) (a 2) in cc, refl))

pub three_variables-Contract : Contract three_variables
three_variables-Contract = record {
  solve_answers = λ s. solve_lem s (scan s.limits) (scan-Outcome s.limits);
  append_adds = λ c s r. returns (
    λ a.
        rw (first_three-sum a c.lits (weights_of c) r)
          (not_lower _ (pos (cardinality c)) (at_three s.limits a)),
    refl,
  );
  rebuild_keeps = λ s. (λ a. (λ h. h, λ h. h), refl);
  save_keeps = λ m s. (λ a. (λ h. h, λ h. h), refl, refl);
}
