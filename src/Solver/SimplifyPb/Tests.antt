-- ===== src/Solver/SimplifyPb/Tests.antt =====
-- Runs of simplifyPB.
use gophersat.Prelude.{ℕ, ◌≡◌, refl, none, some, [], ◌∷◌, List, arith}
use gophersat.Prelude.Run.{ok, Returns}
use gophersat.Prelude.Slices.{swap_remove}
use gophersat.Prelude.Int.{ℤ, pos, negsuc, ◌+ℤ◌, ◌-ℤ◌}
use gophersat.Semantics.{Assignment, Agrees}
use gophersat.Solver.Types.{indet, Lit, lit_var, is_positive}
use gophersat.Solver.Problem.{Clause, Problem, is_unsat, add_unit}
use gophersat.Solver.Clause.{total}
use gophersat.Solver.SimplifyPb.{simplify_pb_problem}
use gophersat.Solver.SimplifyPb.Passes.{IsFitProblem}
use gophersat.Solver.SimplifyPb.Rounds.{Simplified}
use gophersat.Solver.SimplifyPb.Correct.{simplify_pb_problem_correct}

abbrev clause_of : List Lit → List ℤ → ℕ → Clause
clause_of ls ws lbd = record {
  lits = ls;
  lbd_value = lbd;
  pb_data = some (record { weights = ws; watched = [] });
}

-- 3x + 2y + z >= 3 with -x, and y + z + v >= 2: y and z follow.
abbrev weighted : Problem
weighted = record {
  nb_vars = 5;
  clauses =
      clause_of (2 ∷ 4 ∷ 6 ∷ []) (pos 1 ∷ pos 1 ∷ pos 1 ∷ []) 1
      ∷ clause_of (0 ∷ 2 ∷ 4 ∷ []) (pos 3 ∷ pos 2 ∷ pos 1 ∷ []) 2
      ∷ clause_of (1 ∷ 6 ∷ 8 ∷ []) (pos 1 ∷ pos 2 ∷ pos 2 ∷ []) 2
      ∷ [];
  status = indet;
  units = 1 ∷ [];
  model = pos 0 ∷ pos 0 ∷ pos 0 ∷ pos 0 ∷ pos 0 ∷ [];
  min_lits = none;
  min_weights = none;
}

weighted_run :
    simplify_pb_problem weighted
    ≡ ok (record weighted {
      clauses = clause_of (8 ∷ 6 ∷ []) (pos 2 ∷ pos 2 ∷ []) 1 ∷ [];
      units = 1 ∷ 4 ∷ 2 ∷ [];
      model = negsuc 0 ∷ pos 1 ∷ pos 1 ∷ pos 0 ∷ pos 0 ∷ [];
    })
unfolding simplify_pb_problem lit_var is_positive swap_remove add_unit ◌+ℤ◌ ◌-ℤ◌
weighted_run = refl

weighted-IsFitProblem : IsFitProblem weighted
unfolding is_unsat lit_var total ◌+ℤ◌
weighted-IsFitProblem = record {
  live = refl;
  bindings = refl;
  fit = (
    record {
      sized = refl;
      weights = ground arith;
      bounded = omega arith;
      word = omega arith;
      ranged = refl;
    },
    (
      record {
        sized = refl;
        weights = ground arith;
        bounded = omega arith;
        word = omega arith;
        ranged = refl;
      },
      (
        record {
          sized = refl;
          weights = ground arith;
          bounded = omega arith;
          word = omega arith;
          ranged = refl;
        },
        tt,
      ),
    ),
  );
}

no_binding : (a : Assignment) → Agrees a weighted.model
no_binding a k b e = ground arith

simplify_pb_problem_correct_example : Returns (Simplified weighted) (simplify_pb_problem weighted)
unfolding lit_var
simplify_pb_problem_correct_example =
    simplify_pb_problem_correct weighted weighted-IsFitProblem refl (λ a u. no_binding a)
