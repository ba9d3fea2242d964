-- ===== src/Solver/ParserCard.antt =====
-- solver/parser_pb.go: ParseCardConstrs, which makes a problem of cardinality constraints.
pub mod Constraints
pub mod Joins
pub mod Correct
mod Tests
use gophersat.Prelude.{
  Bool, true, false, not, List, [], ◌∷◌, ◌++◌, length, replicate, if◌then◌else◌,
}
use gophersat.Prelude.Run.{Run, ok, ◌>>=◌}
use gophersat.Prelude.Int.{pos, ltb_ℤ, ◌==ℤ◌}
use gophersat.Solver.Types.{unsat}
use gophersat.Solver.Problem.{Problem}
use gophersat.Solver.Clause.{new_card_clause}
use gophersat.Solver.Pb.{CardConstr}
use gophersat.Solver.Parser.{parse_lits, bind_units, empty_problem}
use gophersat.Solver.SimplifyCard.{simplify_card}

-- The loop over the constraints; the result says whether the function returns. Both loops over the literals
-- of a constraint panic at a 0 and count the variables, as the one of Solver/Parser does.
unfoldable pub card_constrs : List CardConstr → Problem → Run (Bool × Problem)
unfolding parse_lits new_card_clause
card_constrs [] pb = ok (false, pb)
card_constrs (constr ∷ constrs) pb =
    let card = constr.at_least in
    let size = pos (length constr.lits) in
    let ignored = card_constrs constrs pb in
    let all_true : Run (Bool × Problem) = parse_lits constr.lits pb.nb_vars >>= λ (lits, n).
    card_constrs constrs (record pb { nb_vars = n; units = pb.units ++ lits }) in
    let appended : Run (Bool × Problem) = parse_lits constr.lits pb.nb_vars >>= λ (lits, n).
    new_card_clause lits card >>= λ c.
    card_constrs constrs (record pb { nb_vars = n; clauses = pb.clauses ++ c ∷ [] }) in
    if not (ltb_ℤ (pos 0) card)
    then ignored
    else if ltb_ℤ size card
    then ok (true, record pb { status = unsat })
    else if size ==ℤ card
    then all_true
    else appended

unfoldable pub parse_card_constrs : List CardConstr → Run Problem
unfolding card_constrs bind_units simplify_card
parse_card_constrs constrs = card_constrs constrs (empty_problem 0) >>= λ (returned, pb).
    let bound : Run Problem =
      bind_units pb.units (record pb { model = replicate pb.nb_vars (pos 0) }) >>= λ (clash, pb').
      if clash then ok pb' else simplify_card pb' in
    if returned then ok pb else bound
