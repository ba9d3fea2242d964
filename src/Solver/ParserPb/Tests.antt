-- ===== src/Solver/ParserPb/Tests.antt =====
-- Runs of ParsePBConstrs.
use gophersat.Prelude.{◌≡◌, refl, false, none, some, [], ◌∷◌, List, arith}
use gophersat.Prelude.Run.{ok, Returns}
use gophersat.Prelude.Slices.{swap_remove}
use gophersat.Prelude.Int.{pos, negsuc, ◌+ℤ◌, ◌-ℤ◌}
use gophersat.Solver.Types.{indet, unsat, int_to_lit, lit_var, is_positive}
use gophersat.Solver.Clause.{total}
use gophersat.Solver.Pb.{PbConstr}
use gophersat.Solver.Parser.{empty_problem}
use gophersat.Solver.ParserPb.{parse_pb_constrs}
use gophersat.Solver.ParserPb.Joins.{AreFitConstrs}
use gophersat.Solver.ParserPb.Correct.{ParsedPb, parse_pb_constrs_correct}

-- -1 + 2 >= 2, both unweighted; 3*1 + 2*3 + 2*4 + 5 >= 3; 1 >= 0.
abbrev three : List PbConstr
three =
    record { lits = negsuc 0 ∷ pos 2 ∷ []; weights = none; at_least = pos 2 }
    ∷ record {
      lits = pos 5 ∷ pos 1 ∷ pos 3 ∷ pos 4 ∷ [];
      weights = some (pos 1 ∷ pos 3 ∷ pos 2 ∷ pos 2 ∷ []);
      at_least = pos 3;
    }
    ∷ record { lits = pos 1 ∷ []; weights = none; at_least = pos 0 }
    ∷ []

three_run :
    parse_pb_constrs three
    ≡ ok (record {
      nb_vars = 5;
      clauses =
          record {
            lits = 8 ∷ 4 ∷ 6 ∷ [];
            lbd_value = 2;
            pb_data = some (record {
              weights = pos 1 ∷ pos 2 ∷ pos 2 ∷ [];
              watched = false ∷ false ∷ false ∷ false ∷ [];
            });
          }
          ∷ [];
      status = indet;
      units = 1 ∷ 2 ∷ [];
      model = negsuc 0 ∷ pos 1 ∷ pos 0 ∷ pos 0 ∷ pos 0 ∷ [];
      min_lits = none;
      min_weights = none;
    })
unfolding parse_pb_constrs lit_var is_positive swap_remove ◌+ℤ◌ ◌-ℤ◌ int_to_lit
three_run = refl

-- 1 + 2 >= 3 asks for too much.
too_much :
    parse_pb_constrs (record { lits = pos 1 ∷ pos 2 ∷ []; weights = none; at_least = pos 3 } ∷ [])
    ≡ ok (record (empty_problem 2) { status = unsat })
unfolding parse_pb_constrs lit_var ◌+ℤ◌ int_to_lit
too_much = refl

three-AreFitConstrs : AreFitConstrs three
unfolding total ◌+ℤ◌
three-AreFitConstrs = (
  record { literals = ground arith; sized = refl; positive = ground arith; bounded = omega arith },
  (
    record {
      literals = ground arith;
      sized = refl;
      positive = ground arith;
      bounded = omega arith;
    },
    (
      record {
        literals = ground arith;
        sized = refl;
        positive = ground arith;
        bounded = omega arith;
      },
      tt,
    ),
  ),
)

parse_pb_constrs_correct_example : Returns (ParsedPb three) (parse_pb_constrs three)
parse_pb_constrs_correct_example = parse_pb_constrs_correct three three-AreFitConstrs
