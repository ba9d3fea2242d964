-- ===== src/Solver/Optimize/Results.antt =====
-- Optimal sends results of falling cost, and the last one is the one it returns and the optimum.
use gophersat.Prelude.{ℕ, ◌≡◌, ◌⊎◌, true, false, some, List, [], ◌∷◌, ◌++◌, length}
use gophersat.Prelude.Int.{ℤ, pos, ◌≤ℤ◌}
use gophersat.Semantics.{Assignment}
use gophersat.Solver.Types.{Status, sat, unsat, Lit}
use gophersat.Solver.Clause.Meaning.{sum_true}
use gophersat.Solver.Optimize.{Solver, Contract, Result, read, is_sat, model_of}

-- The result is the last one sent.
abbrev pub LastSent : List Result → Result → Type 0
LastSent sent res = (earlier : List Result) × (sent ≡ earlier ++ res ∷ [])

module _ (solver : Solver) (laws : Contract solver) where
  open solver use {State, Solutions, model, last_model, save_model, nb_vars}

  -- The result is Sat, with the model that is saved, a solution, and its cost.
  abbrev pub IsFound : State → List Lit → List ℤ → Result → State → Type 0
  IsFound s lits ws res s' =
      (m : List ℤ) × (last_model s' ≡ some m)
      × (res ≡ record { status = sat; model = model_of m; weight = sum_true (read m) lits ws })
      × Solutions s (read m)

  -- Either the result is Unsat, with no model, and there is no solution, or it is Sat, with a model of the
  -- weight that it names, and no solution has a lower one.
  abbrev pub IsBest : State → List Lit → List ℤ → Result → State → Type 0
  IsBest s lits ws res s' =
      ((res ≡ record { status = unsat; model = []; weight = pos 0 })
        × ((a : Assignment) → Solutions s a → ⊥))
      ⊎ (IsFound s lits ws res s'
          × ((a : Assignment) → Solutions s a → res.weight ≤ℤ sum_true a lits ws))

  -- What a call of Solve left: a model, or no solution below the cost k of the last result.
  abbrev Pending : State → List Lit → List ℤ → ℕ → List Result → Result → Status → State → Type 0
  Pending s lits ws k sent res status s' =
      (is_sat status ≡ true → Solutions s' (read (model s')) × (length (model s') ≡ nb_vars))
      × (is_sat status ≡ false
          → ((a : Assignment) → Solutions s' a → ⊥)
            × LastSent sent res
            × IsFound s lits ws res s'
            × (pos k ≡ res.weight))
