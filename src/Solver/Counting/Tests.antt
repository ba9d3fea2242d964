-- ===== src/Solver/Counting/Tests.antt =====
-- The count of the models of a partial assignment.
use gophersat.Prelude.{ℕ, ◌*◌, ◌^◌, ◌<◌, ◌≡◌, refl, List, [], ◌∷◌, length, replicate}
use gophersat.Prelude.Int.{ℤ, pos, negsuc}
use gophersat.Solver.Counting.{count_current_models, completions, count_current_models_lem}

-- Of four variables, the second and the fourth are bound.
abbrev half_bound : List ℤ
half_bound = pos 0 ∷ pos 3 ∷ pos 0 ∷ negsuc 1 ∷ []

half_bound_count : count_current_models half_bound ≡ pos 4
unfolding count_current_models
half_bound_count = refl

-- With 64 variables that are not bound the number is 0.
unbound_count : count_current_models (replicate 64 (pos 0)) ≡ pos 0
unfolding count_current_models
unbound_count = refl

count_current_models_example :
    (length (completions half_bound) < 2 ^ 63
      → count_current_models half_bound ≡ pos (length (completions half_bound)))
    × ((k : ℕ)
        → length (completions half_bound) ≡ 2 ^ 64 * k
        → count_current_models half_bound ≡ pos 0)
count_current_models_example = count_current_models_lem half_bound
