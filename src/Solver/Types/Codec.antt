-- ===== src/Solver/Types/Codec.antt =====
-- The coding of DIMACS literals as `Lit`s.
use gophersat.Prelude.{ℕ, zero, suc, ◌+◌, ◌/◌, ◌^◌, ◌<◌, ◌≡◌, ◌↔◌, Bool, not, arith, if◌then◌else◌}
use gophersat.Prelude.Bits.{bit_and-one, bit_xor-one}
use gophersat.Prelude.Int.{ℤ, pos, negsuc, neg, nat_abs}
use gophersat.Semantics.{Assignment, holds, IsLit}
use gophersat.Solver.Types.{Lit, int_to_lit, signed_lit, lit_var, lit_to_int, is_positive, negation}

-- A pattern whose sign bit is clear.
abbrev pub IsSigned31 : Lit → Type 0
IsSigned31 l = l < 2 ^ 31

-- A DIMACS literal of at most 2^30 for its absolute value survives the coding, and the sign bit of
-- its code is clear.
pub lit_to_int-int_to_lit :
    (i : ℤ) → IsLit (2 ^ 30) i → (lit_to_int (int_to_lit i) ≡ i) × IsSigned31 (int_to_lit i)
unfolding lit_to_int int_to_lit
lit_to_int-int_to_lit (pos zero) h = absurd (omega arith)
lit_to_int-int_to_lit (pos (suc k)) h =
    (ground (arith, bit_and-one (int_to_lit (pos (suc k)))), ground arith)
lit_to_int-int_to_lit (negsuc k) h =
    (ground (arith, bit_and-one (int_to_lit (negsuc k))), ground arith)

-- A code whose sign bit is clear is the code of the literal that it is read as.
pub int_to_lit-lit_to_int : (l : Lit) → IsSigned31 l → int_to_lit (lit_to_int l) ≡ l
unfolding lit_to_int int_to_lit
int_to_lit-lit_to_int l h = ground (arith, bit_and-one l)

-- For a literal of an int32, the sign bit of the code is clear exactly if the literal is not 0 and
-- of at most 2^30 for its absolute value.
pub int_to_lit_bounds : (i : ℤ) → nat_abs i < 2 ^ 31 → IsSigned31 (int_to_lit i) ↔ IsLit (2 ^ 30) i
unfolding int_to_lit
int_to_lit_bounds (pos zero) h = (λ s. ground arith, λ l. ground arith)
int_to_lit_bounds (pos (suc k)) h = (λ s. ground arith, λ l. ground arith)
int_to_lit_bounds (negsuc k) h = (λ s. ground arith, λ l. ground arith)

-- The facts on the negation of a literal.
pub record Negates (l : Lit) : Type 0 where
  pub same_var : lit_var (negation l) ≡ lit_var l
  pub sign : is_positive (negation l) ≡ not (is_positive l)
  pub involutive : negation (negation l) ≡ l
  pub int : lit_to_int (negation l) ≡ neg (lit_to_int l)

-- `lit_var` and `lit_to_int` divide a pattern without its sign, where these facts need no condition.
pub negation_lem : (l : Lit) → Negates l
unfolding negation lit_var is_positive lit_to_int
negation_lem l = record {
  same_var = ground (arith, bit_xor-one l);
  sign = ground (arith, bit_xor-one l);
  involutive = ground (arith, bit_xor-one l, bit_xor-one (negation l));
  int = ground (arith, bit_xor-one l, bit_and-one l, bit_and-one (negation l));
}

-- For a literal whose sign bit is clear: its negation has a clear sign bit and the same variable, the
-- other sign, the negated DIMACS literal, and the literal itself for its negation.
pub negation-Negates : (l : Lit) → IsSigned31 l → IsSigned31 (negation l) × Negates l
unfolding negation
negation-Negates l h = (ground (arith, bit_xor-one l), negation_lem l)

-- The literal of a variable below 2^30 and a sign has that variable and that sign.
pub signed_lit_lem :
    (v : ℕ) (signed : Bool)
    → v < 2 ^ 30
    → (lit_var (signed_lit v signed) ≡ v) × (is_positive (signed_lit v signed) ≡ not signed)
unfolding signed_lit lit_var is_positive
signed_lit_lem v signed h = ground arith

-- What a literal means under an assignment.
abbrev pub lit_true : Assignment → Lit → Bool
lit_true a l = if is_positive l then a (lit_var l) else not (a (lit_var l))

-- It means what its DIMACS literal does.
pub holds-lit_to_int : (a : Assignment) (l : Lit) → holds a (lit_to_int l) ≡ lit_true a l
unfolding lit_to_int is_positive lit_var
holds-lit_to_int a l =
    let next : l / 2 + 1 ≡ suc (l / 2) = omega arith in rw (bit_and-one l, next) (ground arith)
