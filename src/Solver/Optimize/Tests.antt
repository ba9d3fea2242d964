-- ===== src/Solver/Optimize/Tests.antt =====
-- Minimize and Optimal over a solver of one variable.
use gophersat.Prelude.{◌≡◌, refl, true, false, none, some, [], ◌∷◌}
use gophersat.Prelude.Run.{ok}
use gophersat.Prelude.Int.{pos, negsuc, ◌+ℤ◌, ◌-ℤ◌}
use gophersat.Solver.Types.{lit_var, is_positive, negation}
use gophersat.Solver.Clause.{cardinality, weights_of}
use gophersat.Solver.Clause.Meaning.{sum_true}
use gophersat.Solver.Optimize.{minimize}
use gophersat.Solver.Optimize.OneVariable.{OneVariable, one_variable}

abbrev free : OneVariable
free = record {
  base_low = true;
  base_high = true;
  low = true;
  high = true;
  model = [];
  last_model = none;
}

-- The first model makes the literal true, and the constraint added then leaves the other one.
minimize_two_rounds :
    minimize one_variable (some (0 ∷ [])) (some (pos 3 ∷ [])) free
    ≡ ok (
      pos 0,
      record {
        low = true;
        high = false;
        base_low = true;
        base_high = true;
        model = negsuc 0 ∷ [];
        last_model = some (negsuc 0 ∷ []);
      },
    )
unfolding minimize ◌+ℤ◌ lit_var is_positive ◌-ℤ◌ sum_true weights_of negation cardinality
minimize_two_rounds = refl
