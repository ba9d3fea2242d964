-- ===== src/Solver/SimplifyCard.antt =====
-- solver/problem.go: simplifyCard, unit propagation on cardinality constraints. As in Solver/Problem, a
-- clause's list holds its live literals and the problem's list its live clauses.
pub mod Scan
pub mod Binding
pub mod Keeps
pub mod Loop
pub mod Correct
mod Tests
use gophersat.Prelude.{
  ℕ, zero, suc, ◌+◌, ◌≡◌, Bool, true, false, Option, none, some, List, [], ◌∷◌, length, set, ltb,
  ◌==◌, if◌then◌else◌,
}
use gophersat.Prelude.Run.{Run, ok, out_of_fuel, ◌>>=◌}
use gophersat.Prelude.Slices.{load, swap_remove}
use gophersat.Prelude.Int.{ℤ, pos, ◌==ℤ◌}
use gophersat.Solver.Types.{unsat, Lit, lit_var, is_positive}
use gophersat.Solver.Problem.{
  Clause, Problem, Round, returned, over, same_sign, is_unsat, add_unit, shrink, update_status,
}
use gophersat.Solver.Clause.{cardinality}

-- The loop over j: `none` if the clause counts as satisfied, else its literals that are not false. A true
-- literal is not passed.
unfoldable pub scan_card : ℕ → List ℤ → ℕ → ℕ → List Lit → ℕ → Run (Option (List Lit))
unfolding same_sign
scan_card zero model card nb_sat lits j = out_of_fuel
scan_card (suc fuel) model card nb_sat lits j =
    let visit : Run (Option (List Lit)) = load lits j >>= λ lit.
    load model (lit_var lit) >>= λ binding.
    let free = scan_card fuel model card nb_sat lits (j + 1) in
    let counted = scan_card fuel model card (nb_sat + 1) lits j in
    let falsified = scan_card fuel model card nb_sat (swap_remove lits j) j in
    if binding ==ℤ pos 0
    then free
    else if same_sign (binding ==ℤ pos 1) (is_positive lit)
    then (if nb_sat + 1 == card then ok none else counted)
    else falsified in
    if ltb j (length lits) then visit else ok (some lits)

-- `pb.addUnits(c, nbLits)`
unfoldable pub add_units : List Lit → Problem → Run Problem
unfolding add_unit
add_units [] pb = ok pb
add_units (lit ∷ lits) pb = add_unit lit pb >>= add_units lits

-- The loop over i.
unfoldable pub card_loop : ℕ → ℕ → Bool → Problem → Run Round
unfolding scan_card add_units is_unsat shrink cardinality
card_loop zero i restart pb = out_of_fuel
card_loop (suc fuel) i restart pb =
    let visit : Run Round = load pb.clauses i >>= λ c.
    let card = cardinality c in
    let satisfied = card_loop fuel i restart (record pb { clauses = swap_remove pb.clauses i }) in
    scan_card (length c.lits + card + 1) pb.model card 0 c.lits 0 >>= elim [
      | none ↦ satisfied
      | some left ↦
          let bind_all : Run Round = add_units left pb >>= λ pb'.
          let rest = card_loop fuel i true (record pb' { clauses = swap_remove pb'.clauses i }) in
          if is_unsat pb'.status then ok (returned pb') else rest in
          let c' =
            if length c.lits == length left
            then record c { lits = left }
            else shrink (record c { lits = left }) (length left) in
          let kept = card_loop fuel (i + 1) restart (record pb { clauses = set pb.clauses i c' }) in
          if ltb (length left) card
          then ok (returned (record pb { status = unsat }))
          else if length left == card
          then bind_all
          else kept
    ] in
    if ltb i (length pb.clauses) then visit else ok (over restart pb)

-- `for restart`
unfoldable pub card_rounds : ℕ → Problem → Run Problem
unfolding card_loop update_status
card_rounds zero pb = out_of_fuel
card_rounds (suc fuel) pb = card_loop (length pb.clauses + 1) 0 false pb >>= elim [
  | returned pb' ↦ ok pb'
  | over restart pb' ↦
      let again = card_rounds fuel pb' in if restart then again else ok (update_status pb')
]

unfoldable pub simplify_card : Problem → Run Problem
unfolding card_rounds
simplify_card pb = card_rounds (length pb.clauses + 1) pb
