-- ===== src/Solver/Pb/Tests.antt =====
-- The constraints at concrete literals and weights.
use gophersat.Prelude.{◌≡◌, ◌↔◌, refl, true, some, List, [], ◌∷◌}
use gophersat.Prelude.Run.{ok, Returns}
use gophersat.Prelude.Int.{ℤ, pos, negsuc, ◌+ℤ◌, ◌≤ℤ◌}
use gophersat.Semantics.{Assignment}
use gophersat.Solver.Pb.{gt_eq, lt_eq, eq, at_most, exactly1}
use gophersat.Solver.Pb.Meaning.{
  value, count_true, Meets, Nonzero, SaysAtLeast, SaysAtMost, gt_eq_correct, lt_eq_correct,
}
use gophersat.Solver.Pb.Counting.{
  MeetsAll, MeetsCards, eq_correct, at_most_correct, exactly1_correct,
}

-- 2 x1 - 3 x2 + 0 x3
abbrev lits : List ℤ
lits = pos 1 ∷ pos 2 ∷ pos 3 ∷ []

abbrev weights : List ℤ
weights = pos 2 ∷ negsuc 2 ∷ pos 0 ∷ []

gt_eq_runs :
    gt_eq lits (some weights) (pos 1)
    ≡ ok (record {
      lits = pos 1 ∷ negsuc 1 ∷ [];
      weights = some (pos 2 ∷ pos 3 ∷ []);
      at_least = pos 4;
    })
unfolding gt_eq ◌+ℤ◌
gt_eq_runs = refl

lits-Nonzero : Nonzero lits
lits-Nonzero = (refl, (refl, (refl, tt)))

gt_eq_correct_example :
    Returns (SaysAtLeast lits weights (pos 1)) (gt_eq lits (some weights) (pos 1))
gt_eq_correct_example = gt_eq_correct lits weights (pos 1) lits-Nonzero refl

lt_eq_correct_example :
    Returns (SaysAtMost lits weights (pos 1)) (lt_eq lits (some weights) (pos 1))
lt_eq_correct_example = lt_eq_correct lits weights (pos 1) lits-Nonzero refl

eq_correct_example :
    Returns
      (λ cs. (a : Assignment) → MeetsAll a cs ↔ (value a lits weights ≡ negsuc 0))
      (eq lits (some weights) (negsuc 0))
eq_correct_example = eq_correct lits weights (negsuc 0) lits-Nonzero refl

at_most_correct_example :
    Meets (λ v. true) (at_most lits (pos 2)) ↔ (pos (count_true (λ v. true) lits) ≤ℤ pos 2)
at_most_correct_example = at_most_correct (λ v. true) lits (pos 2) lits-Nonzero

exactly1_correct_example :
    MeetsCards (λ v. true) (exactly1 lits) ↔ (count_true (λ v. true) lits ≡ 1)
exactly1_correct_example = exactly1_correct (λ v. true) lits lits-Nonzero
