-- ===== src/Explain/Mus/Minimal.antt =====
-- MUSInsertion returns an unsatisfiable subset that is minimal.
use gophersat.Prelude.{
  ℕ, zero, suc, ◌<◌, ◌≡◌, refl, sym, ap, true, ◌&&◌, Option, none, some, List, [], ◌∷◌, length,
  get_elem?,
}
use gophersat.Semantics.{Assignment, clause_true, IsClause}
use gophersat.Solver.Parser.Lines.{cnf_true}
use gophersat.Solver.Optimize.{Solver}
use gophersat.Solver.Problem
use gophersat.Explain.{Clause, Problem}
use gophersat.Explain.Loop.{AreClauses}
use gophersat.Explain.Subset.{Within, Subset}
use gophersat.Explain.Mus.Transition.{Transition}

-- Without the i-th of the clauses, the others can be made true, with further clauses beside them.
abbrev pub Spared : List Clause → ℕ → List Clause → Type 0
Spared clauses i beside =
    (a : Assignment) × (cnf_true a beside ≡ true)
    × ((j : ℕ) (c : Clause) → get_elem? clauses j ≡ some c → (j ≡ i → ⊥) → clause_true a c ≡ true)

-- Clauses of the first list that have no model, of which none can be left out.
pub record IsMus (clauses : List Clause) (mus : Problem) : Type 0 where
  pub within : Within mus.clauses clauses
  pub count : mus.nb_clauses ≡ length mus.clauses
  pub refuted : (a : Assignment) → cnf_true a mus.clauses ≡ true → ⊥
  pub minimal : (i : ℕ) → i < length mus.clauses → Spared mus.clauses i []

-- The result of MUSInsertion: an error, or such clauses.
abbrev pub IsMusOr : List Clause → Option Problem → Type 0
IsMusOr clauses none = Unit {0}
IsMusOr clauses (some mus) = IsMus clauses mus

-- What a round keeps.
record Growing (all clauses : List Clause) (mus : Problem) : Type 0 where
  within : Within mus.clauses all
  rest_within : Within clauses all
  count : mus.nb_clauses ≡ length mus.clauses
  refuted : (a : Assignment) → (cnf_true a mus.clauses && cnf_true a clauses) ≡ true → ⊥
  minimal : (i : ℕ) → i < length mus.clauses → Spared mus.clauses i clauses

AreClauses-get :
    (n : ℕ) (xs : List Clause) (i : ℕ) (c : Clause)
    → AreClauses n xs
    → get_elem? xs i ≡ some c
    → IsClause n c
AreClauses-get n [] i c h e = cc
AreClauses-get n (x ∷ xs) zero c h e =
    let same : x ≡ c = ap (λ o. elim o [ none ↦ x | some z ↦ z ]) e in rw (sym same) h.0
AreClauses-get n (x ∷ xs) (suc i) c h e = AreClauses-get n xs i c h.1 e

pub AreClauses-Within :
    (n : ℕ) (xs ys : List Clause) → Within xs ys → AreClauses n ys → AreClauses n xs
AreClauses-Within n [] ys w h = tt
AreClauses-Within n (x ∷ xs) ys w h =
    let (k, e) = w 0 x refl in
    (AreClauses-get n ys k x h e, AreClauses-Within n xs ys (λ j c f. w (suc j) c f) h)
