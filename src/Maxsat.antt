-- ===== src/Maxsat.antt =====
-- maxsat/constr.go and maxsat/problem.go: constraints over named variables, and the pseudo-Boolean problem
-- that New makes of them. Go iterates over the map of blocking literals in an order of its own, which is a
-- parameter.
pub mod Names
pub mod Literals
pub mod Blocks
pub mod Encoding
pub mod Correct
mod Tests
use gophersat.Prelude.{
  ℕ, ◌+◌, Bool, true, false, ◌&&◌, not, Option, none, some, List, [], ◌∷◌, ◌++◌, map, length, ◌==◌,
  if◌then◌else◌,
}
use gophersat.Prelude.Run.{Run, ok, panic, ◌>>=◌}
use gophersat.Prelude.Int.{ℤ, pos, neg, ◌+ℤ◌, ◌==ℤ◌}
use gophersat.Text.{Str}
use gophersat.Solver.Problem.{Problem}
use gophersat.Solver.Pb.{PbConstr, gt_eq}
use gophersat.Solver.Parser.{lit_of, to_int32}
use gophersat.Solver.ParserPb.{parse_pb_constrs}
use gophersat.Solver.Types

pub record Lit : Type 0 where
  pub var : Str
  pub negated : Bool

-- `Var(name)` and `Not(name)`
abbrev pub positive : Str → Lit
positive name = record { var = name; negated = false }

abbrev pub negative : Str → Lit
negative name = record { var = name; negated = true }

-- An empty list of coefficients stands for a nil one too.
pub record Constr : Type 0 where
  pub lits : List Lit
  pub coeffs : List ℤ
  pub at_least : ℤ
  pub weight : ℤ

abbrev pub weighted_clause : List Lit → ℤ → Constr
weighted_clause lits weight = record { lits = lits; coeffs = []; at_least = pos 1; weight = weight }

abbrev pub hard_clause : List Lit → Constr
hard_clause lits = weighted_clause lits (pos 0)

abbrev pub soft_clause : List Lit → Constr
soft_clause lits = weighted_clause lits (pos 1)

abbrev pub weighted_pb : List Lit → List ℤ → ℤ → ℤ → Constr
weighted_pb lits coeffs n weight = record {
  lits = lits;
  coeffs = coeffs;
  at_least = n;
  weight = weight;
}

abbrev pub hard_pb : List Lit → List ℤ → ℤ → Constr
hard_pb lits coeffs n = weighted_pb lits coeffs n (pos 0)

abbrev pub soft_pb : List Lit → List ℤ → ℤ → Constr
soft_pb lits coeffs n = weighted_pb lits coeffs n (pos 1)

-- The maps and the sum that New builds.
pub record Encoder : Type 0 where
  pub int_vars : List (Str × ℕ)
  pub var_ints : List Str
  pub block_weights : List (ℕ × ℤ)
  pub max_weight : ℤ

unfoldable pub same_text : Str → Str → Bool
same_text [] [] = true
same_text [] (d ∷ t) = false
same_text (c ∷ s) [] = false
same_text (c ∷ s) (d ∷ t) = (c == d) && same_text s t

unfoldable pub int_of : Str → List (Str × ℕ) → Option ℕ
unfolding same_text
int_of name [] = none
int_of name ((other, k) ∷ vars) = if same_text name other then some k else int_of name vars

-- The literal's number, with the variable entered if it is new.
unfoldable pub encode_lit : Lit → Encoder → ℤ × Encoder
unfolding int_of
encode_lit l e =
    let signed : ℕ → ℤ = λ k. if l.negated then neg (pos k) else pos k in
    elim (int_of l.var e.int_vars) [
      | some k ↦ (signed k, e)
      | none ↦
          let k = length e.var_ints + 1 in
          (
            signed k,
            record e { var_ints = e.var_ints ++ l.var ∷ []; int_vars = (l.var, k) ∷ e.int_vars },
          )
    ]

unfoldable pub encode_lits : List Lit → Encoder → List ℤ × Encoder
unfolding encode_lit
encode_lits [] e = ([], e)
encode_lits (l ∷ lits) e =
    let (x, e') = encode_lit l e in let (xs, e'') = encode_lits lits e' in (x ∷ xs, e'')

abbrev pub coefficients : List ℤ → Option (List ℤ)
coefficients [] = none
coefficients (w ∷ ws) = some (w ∷ ws)

-- The coefficients with the one of the blocking literal, unless they are nil.
abbrev pub blocked_coeffs : List ℤ → ℤ → List ℤ
blocked_coeffs [] n = []
blocked_coeffs (w ∷ ws) n = w ∷ ws ++ n ∷ []

-- The body of the loop over the constraints.
unfoldable pub encode : Constr → Encoder → Run (PbConstr × Encoder)
unfolding encode_lits gt_eq
encode c e =
    let (lits, e') = encode_lits c.lits e in
    let hard : Run (PbConstr × Encoder) =
      gt_eq lits (coefficients c.coeffs) c.at_least >>= λ p. ok (p, e') in
    let bl = length e'.var_ints + 1 in
    let blocked : Encoder = record e' {
      var_ints = e'.var_ints ++ [] ∷ [];
      block_weights = e'.block_weights ++ (bl, c.weight) ∷ [];
      max_weight = e'.max_weight +ℤ c.weight;
    } in
    let soft : Run (PbConstr × Encoder) =
      gt_eq (lits ++ pos bl ∷ []) (coefficients (blocked_coeffs c.coeffs c.at_least)) c.at_least
      >>= λ p. ok (p, blocked) in
    if c.weight ==ℤ pos 0 then hard else soft

unfoldable pub encode_all : List Constr → Encoder → Run (List PbConstr × Encoder)
unfolding encode
encode_all [] e = ok ([], e)
encode_all (c ∷ constrs) e =
    encode c e >>= λ (p, e'). encode_all constrs e' >>= λ (ps, e''). ok (p ∷ ps, e'')

abbrev no_names : Encoder
no_names = record { int_vars = []; var_ints = []; block_weights = []; max_weight = pos 0 }

-- A slice of weights is `none` where it is nil.
unfoldable pub set_cost_func :
    List gophersat.Solver.Types.Lit → Option (List ℤ) → Problem → Run Problem
set_cost_func lits weights pb =
    let set : Problem = record pb { min_lits = some lits; min_weights = weights } in
    elim weights [ none ↦ ok set | some ws ↦ if length lits == length ws then ok set else panic ]

-- The problem that New gives to solver.New, and what New keeps beside it.
unfoldable pub new_problem : (List (ℕ × ℤ) → List (ℕ × ℤ)) → List Constr → Run (Problem × Encoder)
unfolding encode_all parse_pb_constrs set_cost_func to_int32
new_problem order constrs = encode_all constrs no_names >>= λ (clauses, e).
    let blocks = order e.block_weights in
    parse_pb_constrs clauses >>= λ prob.
    set_cost_func (map (λ (bl, w). lit_of (pos bl)) blocks) (some (map (λ (bl, w). w) blocks)) prob
    >>= λ prob'. ok (prob', e)
