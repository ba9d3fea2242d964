-- ===== src/Solver/Parser/Tests.antt =====
-- Runs of ParseSlice.
use gophersat.Prelude.{◌≡◌, refl, none, [], ◌∷◌, List, arith}
use gophersat.Prelude.Run.{ok, Returns}
use gophersat.Prelude.Slices.{swap_remove}
use gophersat.Prelude.Int.{ℤ, pos, negsuc}
use gophersat.Solver.Types.{indet, int_to_lit, lit_var, is_positive, negation}
use gophersat.Solver.Parser.{parse_slice, parse_slice_nb}
use gophersat.Solver.Parser.Models.{ParsedSlice, parse_slice_correct}

-- 1; -1 or 2; 3 or -2 or 4.
abbrev chain : List (List ℤ)
chain = (pos 1 ∷ []) ∷ (negsuc 0 ∷ pos 2 ∷ []) ∷ (pos 3 ∷ negsuc 1 ∷ pos 4 ∷ []) ∷ []

chain_run :
    parse_slice chain
    ≡ ok (record {
      nb_vars = 4;
      clauses = record { lits = 4 ∷ 6 ∷ []; lbd_value = 0; pb_data = none } ∷ [];
      status = indet;
      units = 0 ∷ 2 ∷ [];
      model = pos 1 ∷ pos 1 ∷ pos 0 ∷ pos 0 ∷ [];
      min_lits = none;
      min_weights = none;
    })
unfolding parse_slice int_to_lit lit_var is_positive negation swap_remove
chain_run = refl

parse_slice_correct_example :
    Returns (ParsedSlice chain) (parse_slice chain)
    × Returns (ParsedSlice chain) (parse_slice_nb chain 9)
parse_slice_correct_example = parse_slice_correct chain 9 (omega arith)
