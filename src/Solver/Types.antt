-- ===== src/Solver/Types.antt =====
-- solver/types.go: statuses, and literals as numbers whose last bit is the sign.
-- A `Lit` is an int32. It stands here as its bit pattern, a number below 2^32; the operations on
-- literals are those on patterns below 2^31, whose sign bit is clear.
pub mod Codec
mod Tests
use Prim.Native.Nat.{bit_and, bit_xor}
use gophersat.Prelude.{
  ℕ, zero, suc, ◌+◌, ◌-◌, ◌*◌, ◌/◌, ◌%◌, ◌^◌, Bool, true, false, List, map, ◌==◌, if◌then◌else◌,
}
use gophersat.Prelude.Int.{ℤ, pos, neg, neg_part, pos_part, ltb_ℤ}

pub data Status : Type 0 where
  indet sat unsat unit many : Status

abbrev pub Var : Type 0
Var = ℕ

abbrev pub Lit : Type 0
Lit = ℕ

abbrev pub wrap32 : ℕ → ℕ
wrap32 n = n % 2 ^ 32

-- For i < 0, `-i - 1` is `neg_part i - 1`; else `i - 1` is added modulo 2^32.
unfoldable pub int_to_lit : ℤ → Lit
int_to_lit i =
    if ltb_ℤ i (pos 0)
    then wrap32 (2 * (neg_part i - 1) + 1)
    else wrap32 (2 * (pos_part i + (2 ^ 32 - 1)))

unfoldable pub ints_to_lits : List ℤ → List Lit
ints_to_lits vals = map int_to_lit vals

-- For i > 0.
unfoldable pub int_to_var : ℤ → Var
int_to_var i = pos_part i - 1

-- `v.Lit()`
unfoldable pub var_to_lit : Var → Lit
var_to_lit v = wrap32 (v * 2)

-- `v.Int()`
unfoldable pub var_to_int : Var → ℤ
var_to_int v = pos (v + 1)

unfoldable pub signed_lit : Var → Bool → Lit
signed_lit v signed = if signed then wrap32 (wrap32 (v * 2) + 1) else wrap32 (v * 2)

-- `l.Var()`, for a literal whose sign bit is clear: the source divides the int32 with its sign.
unfoldable pub lit_var : Lit → Var
lit_var l = l / 2

-- `l.Int()`, for a literal whose sign bit is clear.
unfoldable pub lit_to_int : Lit → ℤ
lit_to_int l = let res = pos (l / 2 + 1) in if bit_and l 1 == 1 then neg res else res

unfoldable pub is_positive : Lit → Bool
is_positive l = l % 2 == 0

unfoldable pub negation : Lit → Lit
negation l = bit_xor l 1
