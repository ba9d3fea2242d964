-- ===== src/Solver/Clause/Tests.antt =====
-- Runs of the clause methods.
use gophersat.Prelude.{◌≡◌, refl, false, some, List, [], ◌∷◌, arith}
use gophersat.Prelude.Run.{ok, Returns}
use gophersat.Prelude.Int.{ℤ, pos, ◌+ℤ◌, ◌-ℤ◌}
use gophersat.Solver.Problem.{Clause, PbData}
use gophersat.Solver.Clause.{
  new_pb_clause, lbd, weights_of, weight_sum, cardinality, new_learned_clause,
}
use gophersat.Solver.Clause.Flags.{FlagLaws, flag_laws}
use gophersat.Solver.Clause.Meaning.{PbClauseOf, new_pb_clause_correct}
use gophersat.Solver.Clause.Simplify.{simplify_pb, reduced}
use gophersat.Solver.Clause.Reduction.{Simplifies, simplify_pb_correct}

flag_laws_example : FlagLaws (new_learned_clause (0 ∷ 3 ∷ [])) 7
unfolding new_learned_clause lbd
flag_laws_example =
    flag_laws (new_learned_clause (0 ∷ 3 ∷ [])) 7 (omega arith) (omega arith) (omega arith)

new_pb_clause_correct_example :
    Returns
      (PbClauseOf (0 ∷ 2 ∷ 5 ∷ []) (pos 1 ∷ pos 4 ∷ pos 2 ∷ []) 5)
      (new_pb_clause (0 ∷ 2 ∷ 5 ∷ []) (some (pos 1 ∷ pos 4 ∷ pos 2 ∷ [])) (pos 5))
new_pb_clause_correct_example =
    new_pb_clause_correct (0 ∷ 2 ∷ 5 ∷ []) (pos 1 ∷ pos 4 ∷ pos 2 ∷ []) 5 refl (omega arith)
      (omega arith)

abbrev data_of : List ℤ → PbData
data_of ws = record { weights = ws; watched = false ∷ false ∷ false ∷ [] }

abbrev three : Clause
three = record {
  lits = 2 ∷ 5 ∷ 0 ∷ [];
  lbd_value = 4;
  pb_data = some (data_of (pos 4 ∷ pos 2 ∷ pos 1 ∷ []));
}

-- 4 x2 + 2 ~x3 + x1 >= 5: x2 must be true, and one of the others.
simplify_pb_run :
    simplify_pb three
    ≡ ok (
        reduced (2 ∷ []) (
          some (record {
            lits = 5 ∷ 0 ∷ [];
            lbd_value = 0;
            pb_data = some (record { weights = pos 1 ∷ pos 1 ∷ []; watched = false ∷ false ∷ [] });
          })))
unfolding simplify_pb weight_sum weights_of cardinality new_pb_clause ◌+ℤ◌ ◌-ℤ◌
simplify_pb_run = refl

simplify_pb_correct_example : Returns (Simplifies three) (simplify_pb three)
unfolding weights_of cardinality
simplify_pb_correct_example =
    simplify_pb_correct three (data_of (pos 4 ∷ pos 2 ∷ pos 1 ∷ [])) refl refl (omega arith)
      (omega arith)
