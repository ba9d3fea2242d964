-- ===== src/Explain/Mus.antt =====
-- explain/mus.go: MUSInsertion, over a solver and what solver.New makes of a problem.
pub mod Session
pub mod Transition
pub mod Minimal
pub mod Deletion
pub mod Units
mod Tests
use gophersat.Prelude.{
  ℕ, zero, suc, ◌+◌, Option, none, some, List, [], ◌∷◌, ◌++◌, length, map, take, if◌then◌else◌,
}
use gophersat.Prelude.Run.{Run, ok, panic, out_of_fuel, ◌>>=◌}
use gophersat.Prelude.Slices.{load}
use gophersat.Solver.Types.{Status}
use gophersat.Solver.Problem.{is_unsat, new_clause}
use gophersat.Solver.Problem
use gophersat.Solver.Parser.{lit_of, parse_slice_nb}
use gophersat.Solver.Optimize.{Solver, is_sat}
use gophersat.Explain.{Clause, Problem}
use gophersat.Explain.Subset.{SolverRun, not_unsat, subset, unsat_subset}

-- `solver.NewClause(lits)`, for the literals of a clause.
abbrev pub clause_of : Clause → gophersat.Solver.Problem.Clause
clause_of clause = new_clause (map lit_of clause)

-- `&Problem{NbVars: pb2.NbVars}`
abbrev pub empty_mus : ℕ → Problem
empty_mus nb_vars = record {
  clauses = [];
  nb_vars = nb_vars;
  nb_clauses = 0;
  units = [];
  tagged = [];
}

module _ (solver : Solver) (new_solver : gophersat.Solver.Problem.Problem → solver.State) where
  open solver use {State, solve, append_clause}

  -- `for st == solver.Sat`, from the clause of index idx on: the index after the last clause added.
  unfoldable pub add_until_unsat : List Clause → ℕ → Status → State → Run ℕ
  unfolding is_sat new_clause
  add_until_unsat [] idx st s = if is_sat st then panic else ok idx
  add_until_unsat (clause ∷ clauses) idx st s =
      let again : Run ℕ = do
        s' ← append_clause (clause_of clause) s
        (st', s'') ← solve s'
        add_until_unsat clauses (idx + 1) st' s''
      in if is_sat st then again else ok idx

  -- The outer loop, with fuel for its rounds.
  unfoldable pub insertion_loop : ℕ → List Clause → Problem → Run Problem
  unfolding add_until_unsat parse_slice_nb is_unsat
  insertion_loop zero clauses mus = out_of_fuel
  insertion_loop (suc fuel) clauses mus = do
    pb ← parse_slice_nb mus.clauses mus.nb_vars
    (st, s) ← solve (new_solver pb)
    let grow : ℕ → Run Problem = elim [
      | zero ↦ panic
      | suc idx ↦ load clauses idx >>= λ clause.
          insertion_loop fuel (take idx clauses)
            (record mus { clauses = mus.clauses ++ clause ∷ []; nb_clauses = mus.nb_clauses + 1 })
    ]
    if is_unsat st then ok mus else (add_until_unsat clauses 0 st s >>= grow)

  -- `pb.MUSInsertion()`: the result, or none with an error, and the problem after the call.
  unfoldable pub mus_insertion : Problem → SolverRun → Run (Option Problem × Problem)
  unfolding insertion_loop unsat_subset
  mus_insertion pb run = unsat_subset pb run >>= λ (found, pb'). elim found [
    | not_unsat ↦ ok (none, pb')
    | subset pb2 ↦
        insertion_loop (length pb2.clauses + 1) pb2.clauses (empty_mus pb2.nb_vars) >>= λ mus.
        ok (some mus, pb')
  ]
