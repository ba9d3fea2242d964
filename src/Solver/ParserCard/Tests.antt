-- ===== src/Solver/ParserCard/Tests.antt =====
-- Runs of ParseCardConstrs.
use gophersat.Prelude.{◌≡◌, refl, none, [], ◌∷◌, List, arith}
use gophersat.Prelude.Run.{ok, Returns}
use gophersat.Prelude.Slices.{swap_remove}
use gophersat.Prelude.Int.{pos, negsuc, ◌-ℤ◌}
use gophersat.Solver.Types.{indet, sat, int_to_lit, lit_var, is_positive}
use gophersat.Solver.Problem.{add_unit}
use gophersat.Solver.Pb.{CardConstr}
use gophersat.Solver.ParserCard.{parse_card_constrs}
use gophersat.Solver.ParserCard.Joins.{AreFitCards}
use gophersat.Solver.ParserCard.Correct.{ParsedCard, parse_card_constrs_correct}

-- -1 and 2; two of 1, 3, 4 and -2: 3 and 4 follow; one of 5, 6 and -7.
abbrev three : List CardConstr
three =
    record { lits = negsuc 0 ∷ pos 2 ∷ []; at_least = pos 2 }
    ∷ record { lits = pos 1 ∷ pos 3 ∷ pos 4 ∷ negsuc 1 ∷ []; at_least = pos 2 }
    ∷ record { lits = pos 5 ∷ pos 6 ∷ negsuc 6 ∷ []; at_least = pos 1 }
    ∷ []

three_run :
    parse_card_constrs three
    ≡ ok (record {
      nb_vars = 7;
      clauses = record { lits = 8 ∷ 10 ∷ 13 ∷ []; lbd_value = 0; pb_data = none } ∷ [];
      status = indet;
      units = 1 ∷ 2 ∷ 6 ∷ 4 ∷ [];
      model = negsuc 0 ∷ pos 1 ∷ pos 1 ∷ pos 1 ∷ pos 0 ∷ pos 0 ∷ pos 0 ∷ [];
      min_lits = none;
      min_weights = none;
    })
unfolding parse_card_constrs lit_var is_positive swap_remove ◌-ℤ◌ int_to_lit add_unit
three_run = refl

-- 1, and two of 1, 2 and 3: no clause is left, and 2 and 3 are free.
too_free :
    parse_card_constrs (
      record { lits = pos 1 ∷ []; at_least = pos 1 }
      ∷ record { lits = pos 1 ∷ pos 2 ∷ pos 3 ∷ []; at_least = pos 2 }
      ∷ [])
    ≡ ok (record {
      nb_vars = 3;
      clauses = [];
      status = sat;
      units = 0 ∷ [];
      model = pos 1 ∷ pos 0 ∷ pos 0 ∷ [];
      min_lits = none;
      min_weights = none;
    })
unfolding parse_card_constrs lit_var is_positive swap_remove ◌-ℤ◌ int_to_lit
too_free = refl

three-AreFitCards : AreFitCards three
three-AreFitCards = (
  record { literals = ground arith; few = omega arith },
  (
    record { literals = ground arith; few = omega arith },
    (record { literals = ground arith; few = omega arith }, tt),
  ),
)

parse_card_constrs_correct_example : Returns (ParsedCard three) (parse_card_constrs three)
parse_card_constrs_correct_example = parse_card_constrs_correct three three-AreFitCards
