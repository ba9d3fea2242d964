-- ===== src/Explain/Mus/Deletion/Correct.antt =====
-- MUSDeletion returns an unsatisfiable subset that is minimal.
use gophersat.Prelude.{◌≡◌, true, false}
use gophersat.Solver.Optimize.{Solver}
use gophersat.Explain.{Problem}
use gophersat.Explain.Subset.{Subset, SolverRun}
use gophersat.Explain.Mus.Deletion.{relax}

-- The problem after the call: where it is trivially unsatisfiable, its own clauses have relaxation
-- literals.
abbrev pub After : Problem → SolverRun → Problem → Type 0
After pb run after =
    (run.trivially_unsat ≡ true → after.clauses ≡ relax pb.nb_vars 0 pb.clauses)
    × (run.trivially_unsat ≡ false → after.clauses ≡ pb.clauses)
