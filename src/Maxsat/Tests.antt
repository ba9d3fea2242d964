-- ===== src/Maxsat/Tests.antt =====
-- Runs of the translation of MAXSAT constraints.
use gophersat.Prelude.{◌≡◌, refl, false, none, some, List, [], ◌∷◌}
use gophersat.Prelude.Run.{ok, Returns}
use gophersat.Prelude.Int.{pos, negsuc, ◌+ℤ◌, ◌-ℤ◌}
use gophersat.Solver.Types.{indet, int_to_lit, lit_var, is_positive}
use gophersat.Maxsat.{
  Constr, positive, negative, hard_clause, soft_clause, weighted_pb, no_names, encode_all,
  new_problem,
}
use gophersat.Maxsat.Correct.{AreNamedConstrs, EncodesAll, encode_all_correct}

-- a or not b; softly b; of weight 4, softly 2a + 3b + c >= 3.
abbrev mixed : List Constr
mixed =
    hard_clause (positive (97 ∷ []) ∷ negative (98 ∷ []) ∷ [])
    ∷ soft_clause (positive (98 ∷ []) ∷ [])
    ∷ weighted_pb (positive (97 ∷ []) ∷ positive (98 ∷ []) ∷ positive (99 ∷ []) ∷ [])
        (pos 2 ∷ pos 3 ∷ pos 1 ∷ []) (pos 3) (pos 4)
    ∷ []

mixed_run :
    encode_all mixed no_names
    ≡ ok (
      record { lits = pos 1 ∷ negsuc 1 ∷ []; weights = none; at_least = pos 1 }
          ∷ record { lits = pos 2 ∷ pos 3 ∷ []; weights = none; at_least = pos 1 }
          ∷ record {
            lits = pos 1 ∷ pos 2 ∷ pos 4 ∷ pos 5 ∷ [];
            weights = some (pos 2 ∷ pos 3 ∷ pos 1 ∷ pos 3 ∷ []);
            at_least = pos 3;
          }
          ∷ [],
      record {
        int_vars = (99 ∷ [], 4) ∷ (98 ∷ [], 2) ∷ (97 ∷ [], 1) ∷ [];
        var_ints = (97 ∷ []) ∷ (98 ∷ []) ∷ [] ∷ (99 ∷ []) ∷ [] ∷ [];
        block_weights = (3, pos 1) ∷ (5, pos 4) ∷ [];
        max_weight = pos 5;
      },
    )
unfolding encode_all ◌+ℤ◌
mixed_run = refl

-- The problem minimises the weights of the blocking literals.
mixed_problem :
    new_problem (λ blocks. blocks) (soft_clause (positive (97 ∷ []) ∷ []) ∷ [])
    ≡ ok (
      record {
        nb_vars = 2;
        clauses =
            record {
              lits = 0 ∷ 2 ∷ [];
              lbd_value = 0;
              pb_data =
                  some (record { weights = pos 1 ∷ pos 1 ∷ []; watched = false ∷ false ∷ [] });
            }
            ∷ [];
        status = indet;
        units = [];
        model = pos 0 ∷ pos 0 ∷ [];
        min_lits = some (2 ∷ []);
        min_weights = some (pos 1 ∷ []);
      },
      record {
        int_vars = (97 ∷ [], 1) ∷ [];
        var_ints = (97 ∷ []) ∷ [] ∷ [];
        block_weights = (2, pos 1) ∷ [];
        max_weight = pos 1;
      },
    )
unfolding new_problem ◌+ℤ◌ ◌-ℤ◌ int_to_lit lit_var is_positive
mixed_problem = refl

-- No name is empty.
mixed-AreNamedConstrs : AreNamedConstrs mixed
mixed-AreNamedConstrs = (
  record { named = (λ e. cc, (λ e. cc, tt)); sized = refl },
  (
    record { named = (λ e. cc, tt); sized = refl },
    (record { named = (λ e. cc, (λ e. cc, (λ e. cc, tt))); sized = refl }, tt),
  ),
)

encode_all_correct_example : Returns (EncodesAll mixed) (encode_all mixed no_names)
encode_all_correct_example = encode_all_correct mixed mixed-AreNamedConstrs
