-- ===== src/Solver/SimplifyCard/Tests.antt =====
-- Runs of simplifyCard.
use gophersat.Prelude.{◌≡◌, refl, none, [], ◌∷◌, List, arith, ℕ}
use gophersat.Prelude.Run.{ok, Returns}
use gophersat.Prelude.Slices.{swap_remove}
use gophersat.Prelude.Int.{pos}
use gophersat.Solver.Types.{indet, sat, Lit, lit_var, is_positive}
use gophersat.Solver.Problem.{Clause, Problem, is_unsat, add_unit, same_sign}
use gophersat.Solver.SimplifyCard.{simplify_card, scan_card}
use gophersat.Solver.SimplifyCard.Scan.{scan_card-true_literal}
use gophersat.Solver.SimplifyCard.Correct.{SimplifiedCard, simplify_card_correct}

abbrev at_least_of : ℕ → List Lit → Clause
at_least_of lbd ls = record { lits = ls; lbd_value = lbd; pb_data = none }

-- 1 is true, and two of 1, 2 and 3 are to be: the constraint is dropped.
abbrev two_of_three : Problem
two_of_three = record {
  nb_vars = 3;
  clauses = at_least_of 1 (0 ∷ 2 ∷ 4 ∷ []) ∷ [];
  status = indet;
  units = 0 ∷ [];
  model = pos 1 ∷ pos 0 ∷ pos 0 ∷ [];
  min_lits = none;
  min_weights = none;
}

two_of_three_run :
    simplify_card two_of_three ≡ ok (record two_of_three { clauses = []; status = sat })
unfolding simplify_card lit_var is_positive swap_remove
two_of_three_run = refl

-- At least two of 1, 2 and -3; at least two of 3, 4 and 5; 4 or -3. With 3 bound to true: 1 and 2 follow.
abbrev mixed : Problem
mixed = record {
  nb_vars = 6;
  clauses =
      at_least_of 1 (8 ∷ 10 ∷ 5 ∷ 6 ∷ [])
      ∷ at_least_of 1 (0 ∷ 2 ∷ 5 ∷ [])
      ∷ at_least_of 0 (6 ∷ 5 ∷ 8 ∷ [])
      ∷ [];
  status = indet;
  units = 4 ∷ [];
  model = pos 0 ∷ pos 0 ∷ pos 1 ∷ pos 0 ∷ pos 0 ∷ pos 0 ∷ [];
  min_lits = none;
  min_weights = none;
}

mixed_run :
    simplify_card mixed
    ≡ ok (record mixed {
      clauses = at_least_of 1 (8 ∷ 10 ∷ 6 ∷ []) ∷ at_least_of 0 (6 ∷ 8 ∷ []) ∷ [];
      units = 4 ∷ 0 ∷ 2 ∷ [];
      model = pos 1 ∷ pos 1 ∷ pos 1 ∷ pos 0 ∷ pos 0 ∷ pos 0 ∷ [];
    })
unfolding simplify_card lit_var is_positive swap_remove add_unit
mixed_run = refl

simplify_card_correct_example : Returns (SimplifiedCard mixed) (simplify_card mixed)
unfolding is_unsat lit_var
simplify_card_correct_example =
    simplify_card_correct mixed (record { live = refl; bindings = refl; ranged = refl })

-- Two of 1, 2 and 3 with 1 true.
scan_card-true_literal_example : scan_card 6 two_of_three.model 2 0 (0 ∷ 2 ∷ 4 ∷ []) 0 ≡ ok none
unfolding lit_var is_positive same_sign
scan_card-true_literal_example =
    scan_card-true_literal 6 two_of_three.model 2 0 (0 ∷ 2 ∷ 4 ∷ []) 0 0 (pos 1) refl refl refl refl
      (omega arith) (omega arith)
