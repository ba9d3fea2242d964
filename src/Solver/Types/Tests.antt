-- ===== src/Solver/Types/Tests.antt =====
-- The coding of literals at concrete literals.
use gophersat.Prelude.{◌≡◌, refl, ◌^◌, ◌+◌, ◌↔◌, arith}
use gophersat.Prelude.Int.{pos, negsuc}
use gophersat.Semantics.{IsLit}
use gophersat.Solver.Types.{int_to_lit, lit_to_int, negation}
use gophersat.Solver.Types.Codec.{
  IsSigned31, Negates, lit_to_int-int_to_lit, int_to_lit-lit_to_int, int_to_lit_bounds,
  negation-Negates,
}

-- The literal -3 is coded as 5.
int_to_lit_runs : int_to_lit (negsuc 2) ≡ 5
unfolding int_to_lit
int_to_lit_runs = refl

lit_to_int-int_to_lit_example :
    (lit_to_int (int_to_lit (negsuc 2)) ≡ negsuc 2) × IsSigned31 (int_to_lit (negsuc 2))
lit_to_int-int_to_lit_example = lit_to_int-int_to_lit (negsuc 2) (omega arith)

int_to_lit-lit_to_int_example : int_to_lit (lit_to_int 5) ≡ 5
int_to_lit-lit_to_int_example = int_to_lit-lit_to_int 5 (omega arith)

int_to_lit_bounds_example :
    IsSigned31 (int_to_lit (pos (2 ^ 30 + 1))) ↔ IsLit (2 ^ 30) (pos (2 ^ 30 + 1))
int_to_lit_bounds_example = int_to_lit_bounds (pos (2 ^ 30 + 1)) (omega arith)

negation-Negates_example : IsSigned31 (negation 5) × Negates 5
negation-Negates_example = negation-Negates 5 (omega arith)
