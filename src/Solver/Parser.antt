-- ===== src/Solver/Parser.antt =====
-- solver/parser.go: ParseSlice, which makes a problem of clauses of DIMACS literals.
pub mod Lines
pub mod Binding
pub mod Models
mod Tests
use gophersat.Prelude.{
  ℕ, ◌+◌, ◌-◌, ◌%◌, ◌^◌, Bool, true, false, none, List, [], ◌∷◌, ◌++◌, replicate, ltb, leb,
  if◌then◌else◌,
}
use gophersat.Prelude.Run.{Run, ok, panic, ◌>>=◌}
use gophersat.Prelude.Slices.{load, store}
use gophersat.Prelude.Int.{ℤ, pos, negsuc, neg, pos_part, neg_part, ltb_ℤ, ◌==ℤ◌}
use gophersat.Solver.Types.{indet, unsat, Lit, int_to_lit, lit_var, is_positive}
use gophersat.Solver.Problem.{Problem, new_clause, same_sign, simplify2}

-- int32(x), for an int x.
unfoldable pub to_int32 : ℤ → ℤ
to_int32 x =
    let pattern = (pos_part x + (2 ^ 32 - neg_part x % 2 ^ 32)) % 2 ^ 32 in
    if ltb pattern (2 ^ 31) then pos pattern else neg (pos (2 ^ 32 - pattern))

-- `IntToLit(int32(x))`
abbrev pub lit_of : ℤ → Lit
lit_of x = int_to_lit (to_int32 x)

-- `if v >= pb.NbVars { pb.NbVars = v + 1 }`
unfoldable pub count_var : Lit → ℕ → ℕ
count_var l n = if leb n (lit_var l) then lit_var l + 1 else n

-- The literals of a line, and the number of variables after them.
unfoldable pub parse_lits : List ℤ → ℕ → Run (List Lit × ℕ)
unfolding count_var to_int32
parse_lits [] n = ok ([], n)
parse_lits (val ∷ line) n =
    if val ==ℤ pos 0
    then panic
    else do (lits, n') ← parse_lits line (count_var (lit_of val) n); ok (lit_of val ∷ lits, n')

-- The loop over the lines; the result says whether the function returns.
unfoldable pub parse_rows : List (List ℤ) → Problem → Run (Bool × Problem)
unfolding parse_lits count_var to_int32 new_clause
parse_rows [] pb = ok (false, pb)
parse_rows ([] ∷ cnf) pb = ok (true, record pb { status = unsat })
parse_rows ((val ∷ []) ∷ cnf) pb =
    let lit = lit_of val in
    if val ==ℤ pos 0
    then panic
    else parse_rows cnf
        (record pb { nb_vars = count_var lit pb.nb_vars; units = pb.units ++ lit ∷ [] })
parse_rows ((val ∷ val2 ∷ line) ∷ cnf) pb =
    parse_lits (val ∷ val2 ∷ line) pb.nb_vars >>= λ (lits, n).
    parse_rows cnf (record pb { nb_vars = n; clauses = pb.clauses ++ new_clause lits ∷ [] })

-- The loop over the units.
unfoldable pub bind_units : List Lit → Problem → Run (Bool × Problem)
unfolding same_sign
bind_units [] pb = ok (false, pb)
bind_units (lit ∷ units) pb = do
  binding ← load pb.model (lit_var lit)
  let fresh : Run (Bool × Problem) = do
    model ← store pb.model (lit_var lit) (if is_positive lit then pos 1 else negsuc 0)
    bind_units units (record pb { model = model })
  let rest = bind_units units pb
  if binding ==ℤ pos 0
      then fresh
      else if same_sign (ltb_ℤ (pos 0) binding) (is_positive lit)
      then rest
      else ok (true, record pb { status = unsat })

-- `pb.parseSlice(cnf)`
unfoldable pub parse_into : List (List ℤ) → Problem → Run Problem
unfolding parse_rows bind_units simplify2
parse_into cnf pb = do
  (returned, pb') ← parse_rows cnf pb
  let bound : Run Problem = do
    (clash, pb'') ← bind_units pb'.units (record pb' { model = replicate pb'.nb_vars (pos 0) })
    if clash then ok pb'' else simplify2 pb''
  if returned then ok pb' else bound

-- The zero value of the type, with a number of variables.
abbrev pub empty_problem : ℕ → Problem
empty_problem nb_vars = record {
  nb_vars = nb_vars;
  clauses = [];
  status = indet;
  units = [];
  model = [];
  min_lits = none;
  min_weights = none;
}

unfoldable pub parse_slice : List (List ℤ) → Run Problem
unfolding parse_into
parse_slice cnf = parse_into cnf (empty_problem 0)

unfoldable pub parse_slice_nb : List (List ℤ) → ℕ → Run Problem
unfolding parse_into
parse_slice_nb cnf nb_vars = parse_into cnf (empty_problem nb_vars)
