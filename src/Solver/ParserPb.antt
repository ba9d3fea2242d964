-- ===== src/Solver/ParserPb.antt =====
-- solver/parser_pb.go: ParsePBConstrs, which makes a problem of pseudo-Boolean constraints.
pub mod Clauses
pub mod Constraints
pub mod Joins
pub mod Correct
mod Tests
use gophersat.Prelude.{
  ℕ, ◌+◌, Bool, true, false, not, List, [], ◌∷◌, ◌++◌, map, replicate, ◌==◌, if◌then◌else◌,
}
use gophersat.Prelude.Run.{Run, ok, ◌>>=◌}
use gophersat.Prelude.Slices.{some_of}
use gophersat.Prelude.Int.{ℤ, pos, ltb_ℤ, ◌==ℤ◌}
use gophersat.Solver.Types.{unsat, Lit}
use gophersat.Solver.Problem.{Problem}
use gophersat.Solver.Clause.{new_pb_clause}
use gophersat.Solver.Pb.{PbConstr, weight_sum}
use gophersat.Solver.Parser.{lit_of, to_int32, count_var, bind_units, empty_problem}
use gophersat.Solver.SimplifyPb.{simplify_pb_problem}

-- The loop that counts the variables of a constraint.
unfoldable pub count_vars : List ℤ → ℕ → ℕ
unfolding count_var to_int32
count_vars [] n = n
count_vars (val ∷ lits) n = count_vars lits (count_var (lit_of val) n)

-- The loop that makes units of all literals, but of those that are units already.
unfoldable pub add_distinct : List ℤ → List Lit → List Lit
unfolding to_int32
add_distinct [] units = units
add_distinct (val ∷ lits) units =
    add_distinct lits
      (if some_of (λ u. u == lit_of val) units then units else units ++ lit_of val ∷ [])

unfoldable pub append_clause : PbConstr → Problem → Run Problem
unfolding new_pb_clause to_int32
append_clause constr pb =
    new_pb_clause (map lit_of constr.lits) constr.weights constr.at_least >>= λ c.
    ok (record pb { clauses = pb.clauses ++ c ∷ [] })

-- The loop over the constraints; the result says whether the function returns.
unfoldable pub constr_loop : List PbConstr → Problem → Run (Bool × Problem)
unfolding count_vars add_distinct append_clause weight_sum
constr_loop [] pb = ok (false, pb)
constr_loop (constr ∷ constrs) pb =
    let counted : Problem = record pb { nb_vars = count_vars constr.lits pb.nb_vars } in
    let card = constr.at_least in
    let sum_w = weight_sum constr in
    let ignored = constr_loop constrs counted in
    let all_true =
      constr_loop constrs (record counted { units = add_distinct constr.lits counted.units }) in
    let appended = append_clause constr counted >>= constr_loop constrs in
    if not (ltb_ℤ (pos 0) card)
    then ignored
    else if ltb_ℤ sum_w card
    then ok (true, record counted { status = unsat })
    else if sum_w ==ℤ card
    then all_true
    else appended

unfoldable pub parse_pb_constrs : List PbConstr → Run Problem
unfolding constr_loop bind_units simplify_pb_problem
parse_pb_constrs constrs = constr_loop constrs (empty_problem 0) >>= λ (returned, pb).
    let bound : Run Problem =
      bind_units pb.units (record pb { model = replicate pb.nb_vars (pos 0) }) >>= λ (clash, pb').
      if clash then ok pb' else simplify_pb_problem pb' in
    if returned then ok pb else bound
