-- ===== src/Explain/Mus/Deletion.antt =====
-- explain/mus.go: MUSDeletion, over a solver with assumptions.
pub mod Relaxed
pub mod Rounds
pub mod Kept
pub mod Correct
mod Tests
use gophersat.Prelude.{
  ℕ, zero, suc, ◌+◌, ◌-◌, ◌≡◌, ◌≤◌, ◌↔◌, get_elem?, Bool, true, Option, none, some, List, [], ◌∷◌,
  ◌++◌, length, take, if◌then◌else◌,
}
use gophersat.Prelude.Run.{Run, ok, ◌>>=◌, Returns}
use gophersat.Prelude.Slices.{load, store, each_of}
use gophersat.Prelude.Int.{pos, negsuc}
use gophersat.Semantics.{Assignment}
use gophersat.Solver.Types.{Status, Lit, is_positive, negation}
use gophersat.Solver.Types.Codec.{lit_true}
use gophersat.Solver.Problem
use gophersat.Solver.Problem.Literals.{below}
use gophersat.Solver.Problem.Solutions.{Solves}
use gophersat.Solver.Parser.{lit_of, parse_slice}
use gophersat.Solver.Parser.Models.{ParsedSlice}
use gophersat.Solver.Optimize.{Solver, Contract, is_sat}
use gophersat.Explain.{Clause, Problem}
use gophersat.Explain.Loop.{AreClauses}
use gophersat.Explain.Subset.{SolverRun, not_unsat, subset, unsat_subset}

-- The clauses with their relaxation literals, where the first clause has the index i.
unfoldable pub relax : ℕ → ℕ → List Clause → List Clause
relax n i [] = []
relax n i (clause ∷ clauses) = (clause ++ pos (n + i + 1) ∷ []) ∷ relax n (i + 1) clauses

-- The assumptions at first, for the clauses of indices i to i + count - 1.
unfoldable pub first_assumptions : ℕ → ℕ → ℕ → List Lit
first_assumptions n i zero = []
first_assumptions n i (suc count) = lit_of (negsuc (n + i)) ∷ first_assumptions n (i + 1) count

-- Each clause has so many literals, or more.
abbrev pub AtLeast : ℕ → List Clause → Type 0
AtLeast k clauses = (j : ℕ) (c : Clause) → get_elem? clauses j ≡ some c → k ≤ length c

-- `asumptions[i] = asumptions[i].Negation()`
unfoldable pub negate_at : List Lit → ℕ → Run (List Lit)
negate_at assumptions i = do lit ← load assumptions i; store assumptions i (negation lit)

-- The clauses whose relaxation literal is assumed to be false, without that literal.
unfoldable pub kept_clauses : ℕ → List Lit → List Clause → Run (List Clause)
kept_clauses i [] clauses = ok []
kept_clauses i (val ∷ assumptions) clauses = do
  rest ← kept_clauses (i + 1) assumptions clauses
  let kept : Run (List Clause) = do
    clause ← load clauses i
    ok (take (length clause - 1) clause ∷ rest)
  if is_positive val then ok rest else kept

module _ (solver : Solver) where
  -- `s.Assume(lits)` and solver.New. `Base` is what holds without the assumptions and without the bindings of
  -- the problem's own units, which Assume drops.
  pub record Assuming : Type 1 where
    pub assume : List Lit → solver.State → Run (Status × solver.State)
    pub new_solver : gophersat.Solver.Problem.Problem → solver.State
    pub Base : solver.State → Assignment → Type 0

  -- Assume replaces the bindings of units by the assumptions, and Solve keeps what holds without them. For
  -- clauses of two literals or more, which leave no unit to the problem, New starts with the solutions
  -- of its problem.
  pub record AssumingContract (session : Assuming) : Type 0 where
    pub assume_adds :
        (lits : List Lit) (s : solver.State)
        → each_of (below solver.nb_vars) lits ≡ true
        → Returns
            (λ r.
              ((a : Assignment)
                → solver.Solutions r.1 a ↔ (session.Base s a × (each_of (lit_true a) lits ≡ true)))
              × ((a : Assignment) → session.Base r.1 a ↔ session.Base s a))
            (session.assume lits s)
    pub solve_keeps :
        (s : solver.State)
        → Returns (λ r. (a : Assignment) → session.Base r.1 a ↔ session.Base s a) (solver.solve s)
    pub starts :
        (cnf : List Clause) (pb : gophersat.Solver.Problem.Problem)
        → AreClauses solver.nb_vars cnf
        → AtLeast 2 cnf
        → ParsedSlice cnf pb
        → (a : Assignment) → session.Base (session.new_solver pb) a ↔ Solves a pb

  module _ (session : Assuming) where
    open solver use {State, solve}
    open session use {assume, new_solver}

    -- `for i := range pb2.Clauses`, from the clause i on.
    unfoldable pub deletion_loop : ℕ → ℕ → List Lit → State → Run (List Lit)
    unfolding negate_at is_sat
    deletion_loop zero i assumptions s = ok assumptions
    deletion_loop (suc count) i assumptions s = do
      relaxed ← negate_at assumptions i
      (st, s') ← assume relaxed s
      (st', s'') ← solve s'
      assumptions' ← if is_sat st' then negate_at relaxed i else ok relaxed
      deletion_loop count (i + 1) assumptions' s''

    -- `pb.MUSDeletion()`: the result, or none with an error, and the problem after the call. Where
    -- UnsatSubset returns a copy of the problem, the relaxed clauses are written into the problem's own.
    unfoldable pub mus_deletion : Problem → SolverRun → Run (Option Problem × Problem)
    unfolding unsat_subset relax first_assumptions deletion_loop kept_clauses parse_slice
    mus_deletion pb run = unsat_subset pb run >>= λ (found, pb'). elim found [
      | not_unsat ↦ ok (none, pb')
      | subset pb2 ↦
          let relaxed = relax pb.nb_vars 0 pb2.clauses in
          let after = if run.trivially_unsat then record pb' { clauses = relaxed } else pb' in
          do
            spb ← parse_slice relaxed
            assumptions ←
                deletion_loop (length relaxed) 0 (first_assumptions pb.nb_vars 0 pb2.nb_clauses)
                  (new_solver spb)
            clauses ← kept_clauses 0 assumptions relaxed
            ok (
              some (record {
                clauses = clauses;
                nb_vars = pb.nb_vars;
                nb_clauses = length clauses;
                units = [];
                tagged = [];
              }),
              after,
            )
    ]
