-- ===== src/Explain/Mus/Deletion/Tests.antt =====
-- MUSDeletion with a solver of three variables, which can be assumed.
use gophersat.Prelude.{suc, ◌≡◌, refl, Bool, true, not, ◌&&◌, none, some, List, [], ◌∷◌}
use gophersat.Prelude.Run.{ok}
use gophersat.Prelude.Slices.{each_of}
use gophersat.Prelude.Int.{ℤ, pos, negsuc}
use gophersat.Solver.Problem
use gophersat.Solver.Problem.{is_unsat}
use gophersat.Solver.Problem.Solutions.{clause_holds}
use gophersat.Semantics.{Assignment}
use gophersat.Solver.Types.{indet, Lit, lit_var, int_to_lit, is_positive, negation}
use gophersat.Solver.Types.Codec.{lit_true}
use gophersat.Solver.Optimize.ThreeVariables.{ThreeVariables, corner, at_three, three_variables}
use gophersat.Explain.{Problem}
use gophersat.Explain.Subset.{SolverRun}
use gophersat.Explain.Mus.Tests.{bears}
use gophersat.Explain.Mus.Deletion.{Assuming, mus_deletion}

-- Whether the assignment has the values of the bindings.
abbrev reads : Assignment → List ℤ → Bool
reads a [] = true
reads a (b ∷ model) = bears (a 0) b && reads (λ v. a (suc v)) model

-- Whether the assignment solves the problem.
abbrev solved_by : gophersat.Solver.Problem.Problem → Assignment → Bool
solved_by pb a =
    not (is_unsat pb.status)
    && reads a pb.model
    && each_of (lit_true a) pb.units
    && each_of (clause_holds a) pb.clauses

abbrev new_three : gophersat.Solver.Problem.Problem → ThreeVariables
new_three pb = record {
  base = λ x y z. solved_by pb (corner x y z);
  limits = λ x y z. solved_by pb (corner x y z);
  model = [];
  last_model = none;
}

abbrev restricted : List Lit → ThreeVariables → ThreeVariables
restricted lits s = record s {
  limits = λ x y z. s.base x y z && each_of (lit_true (corner x y z)) lits;
}

abbrev assuming : Assuming three_variables
assuming = record {
  assume = λ lits s. ok (indet, restricted lits s);
  new_solver = new_three;
  Base = λ s a. at_three s.base a ≡ true;
}

-- A variable and its negation.
abbrev clash : Problem
clash = record {
  clauses = (pos 1 ∷ []) ∷ (negsuc 0 ∷ []) ∷ [];
  nb_vars = 1;
  nb_clauses = 2;
  units = pos 0 ∷ [];
  tagged = [];
}

abbrev clash_run : SolverRun
clash_run = record { trivially_unsat = true; certificate = []; sat = true }

mus_deletion_runs :
    mus_deletion three_variables assuming clash clash_run
    ≡ ok (
      some (record clash { units = [] }),
      record clash { clauses = (pos 1 ∷ pos 2 ∷ []) ∷ (negsuc 0 ∷ pos 3 ∷ []) ∷ [] },
    )
unfolding mus_deletion lit_var int_to_lit is_positive negation
mus_deletion_runs = refl
