-- ===== src/Solver/Problem/Tests.antt =====
-- Runs of the simplification.
use gophersat.Prelude.{◌≡◌, refl, none, [], ◌∷◌, List}
use gophersat.Prelude.Run.{ok, Returns}
use gophersat.Prelude.Slices.{swap_remove}
use gophersat.Prelude.Int.{pos}
use gophersat.Solver.Types.{indet, Lit, lit_var, is_positive, negation}
use gophersat.Solver.Problem.{Clause, Problem, simplify2, is_unsat}
use gophersat.Solver.Problem.Solutions.{Wf}
use gophersat.Solver.Problem.Simplify.{Simplified, simplify2_correct}

abbrev clause_of : List Lit → Clause
clause_of ls = record { lits = ls; lbd_value = 0; pb_data = none }

abbrev problem_of : List Clause → Problem
problem_of cs = record {
  nb_vars = 4;
  clauses = cs;
  status = indet;
  units = [];
  model = pos 0 ∷ pos 0 ∷ pos 0 ∷ pos 0 ∷ [];
  min_lits = none;
  min_weights = none;
}

-- 1; -1 or 2; -2 or 3 or 4 or 3; 1 or 2.
abbrev chain : Problem
chain = problem_of (
    clause_of (0 ∷ [])
    ∷ clause_of (1 ∷ 2 ∷ [])
    ∷ clause_of (3 ∷ 4 ∷ 6 ∷ 4 ∷ [])
    ∷ clause_of (0 ∷ 2 ∷ [])
    ∷ [])

abbrev chain_simplified : Problem
chain_simplified = record {
  nb_vars = 4;
  clauses = clause_of (6 ∷ 4 ∷ []) ∷ [];
  status = indet;
  units = 0 ∷ 2 ∷ [];
  model = pos 1 ∷ pos 1 ∷ pos 0 ∷ pos 0 ∷ [];
  min_lits = none;
  min_weights = none;
}

chain_run : simplify2 chain ≡ ok chain_simplified
unfolding simplify2 lit_var is_positive negation swap_remove
chain_run = refl

chain-Wf : Wf chain
unfolding is_unsat lit_var
chain-Wf = record { live = refl; bindings = refl; ranged = refl }

simplify2_correct_example : Returns (Simplified chain) (simplify2 chain)
simplify2_correct_example = simplify2_correct chain chain-Wf
