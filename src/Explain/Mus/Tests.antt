-- ===== src/Explain/Mus/Tests.antt =====
-- MUSInsertion with a solver of one variable.
use gophersat.Prelude.{
  zero, suc, ◌≡◌, ◌↔◌, refl, Bool, true, false, not, ◌&&◌, none, [], ◌∷◌, arith,
}
use gophersat.Prelude.Slices.{each_of}
use gophersat.Prelude.Int.{ℤ, pos, negsuc}
use gophersat.Semantics.{Assignment, Reads}
use gophersat.Solver.Types.Codec.{lit_true}
use gophersat.Solver.Problem.{is_unsat}
use gophersat.Solver.Problem
use gophersat.Solver.Problem.Solutions.{clause_holds}
use gophersat.Solver.Optimize.OneVariable.{OneVariable}
use gophersat.Explain.{Problem}
use gophersat.Explain.Subset.{SolverRun}

abbrev pub bears : Bool → ℤ → Bool
bears x (pos zero) = true
bears x (pos (suc zero)) = x
bears x (pos (suc (suc n))) = false
bears x (negsuc zero) = not x
bears x (negsuc (suc n)) = false

pub bears-Reads : (x : Bool) (b : ℤ) → (bears x b ≡ true) ↔ Reads b x
bears-Reads x (pos zero) = (λ e. tt, λ r. refl)
bears-Reads x (pos (suc zero)) = (λ e. e, λ r. r)
bears-Reads x (pos (suc (suc n))) = (λ e. cc, λ r. absurd r)
bears-Reads x (negsuc zero) = (λ e. ground arith, λ r. ground arith)
bears-Reads x (negsuc (suc n)) = (λ e. cc, λ r. absurd r)

abbrev constantly : Bool → Assignment
constantly x v = x

-- Whether the assignment of the value to all variables solves the problem.
abbrev solved_by : gophersat.Solver.Problem.Problem → Bool → Bool
solved_by pb x =
    not (is_unsat pb.status)
    && each_of (bears x) pb.model
    && each_of (lit_true (constantly x)) pb.units
    && each_of (clause_holds (constantly x)) pb.clauses

abbrev new_one_variable : gophersat.Solver.Problem.Problem → OneVariable
new_one_variable pb = record {
  low = solved_by pb false;
  base_low = solved_by pb false;
  high = solved_by pb true;
  base_high = solved_by pb true;
  model = [];
  last_model = none;
}

-- The variable twice, and its negation.
abbrev twice : Problem
twice = record {
  clauses = (pos 1 ∷ []) ∷ (pos 1 ∷ []) ∷ (negsuc 0 ∷ []) ∷ [];
  nb_vars = 1;
  nb_clauses = 3;
  units = pos 0 ∷ [];
  tagged = [];
}

abbrev twice_run : SolverRun
twice_run = record { trivially_unsat = true; certificate = []; sat = true }
