-- ===== src/Solver/SimplifyPb.antt =====
-- solver/problem.go: simplifyPB, unit propagation on pseudo-Boolean constraints. Where the function
-- returns because of a clash, the clause at work and the ones behind it are left as they were before.
pub mod Meets
pub mod States
pub mod Scan
pub mod Terms
pub mod Fit
pub mod Passes
pub mod Loop
pub mod Rounds
pub mod Correct
mod Tests
use gophersat.Prelude.{
  ℕ, zero, suc, ◌+◌, ◌≡◌, Bool, true, false, ◌&&◌, not, List, [], ◌∷◌, length, set, ltb,
  if◌then◌else◌,
}
use gophersat.Prelude.Run.{Run, ok, out_of_fuel, ◌>>=◌}
use gophersat.Prelude.Slices.{load, store, swap_remove}
use gophersat.Prelude.Int.{ℤ, pos, negsuc, neg, ltb_ℤ, ◌==ℤ◌, ◌-ℤ◌}
use gophersat.Solver.Types.{Status, indet, sat, unsat, Lit, lit_var, is_positive}
use gophersat.Solver.Problem.{Clause, Problem, same_sign, is_unsat, add_unit}
use gophersat.Solver.Clause.{weight, weight_sum, cardinality, update_cardinality, remove_lit}

-- What the loop over j leaves in its variables, unless addUnit finds a clash.
pub record Scanned : Type 0 where
  pub clause : Clause
  pub card : ℤ
  pub w_sum : ℤ
  pub modified : Bool
  pub pb : Problem

pub data Outcome : Type 0 where
  clash : Problem → Outcome
  scanned : Scanned → Outcome

-- A literal leaves the clause.
unfoldable pub without : ℕ → ℤ → Scanned → Run Scanned
unfolding remove_lit
without j w s = remove_lit j s.clause >>= λ c.
    ok (record s { clause = c; w_sum = s.w_sum -ℤ w; modified = true })

-- It counts for the degree.
unfoldable pub counted : ℤ → Scanned → Scanned
unfolding update_cardinality
counted w s = record s { clause = update_cardinality (neg w) s.clause; card = s.card -ℤ w }

-- The loop over j.
unfoldable pub scan_terms : ℕ → ℕ → Scanned → Run Outcome
unfolding without counted weight same_sign is_unsat
scan_terms zero j s = out_of_fuel
scan_terms (suc fuel) j s =
    let visit : Run Outcome = load s.clause.lits j >>= λ lit. weight s.clause j >>= λ w.
    load s.pb.model (lit_var lit) >>= λ binding.
    let force : Run Outcome = add_unit lit s.pb >>= λ pb.
    let go : Run Outcome =
      without j w (counted w (record s { pb = pb })) >>= λ s'. scan_terms fuel j s' in
    if is_unsat pb.status then ok (clash pb) else go in
    let skip : Run Outcome = scan_terms fuel (j + 1) s in
    let drop : Run Outcome =
      without j w (if same_sign (binding ==ℤ pos 1) (is_positive lit) then counted w s else s)
      >>= λ s'. scan_terms fuel j s' in
    if binding ==ℤ pos 0 then (if ltb_ℤ (s.w_sum -ℤ w) s.card then force else skip) else drop in
    if ltb j (length s.clause.lits) then visit else ok (scanned s)

-- Whether the function returns, and else whether a clause was modified.
pub data Pass : Type 0 where
  returned : Problem → Pass
  ended : Bool → Problem → Pass

-- The loop over i.
unfoldable pub pass_loop : ℕ → ℕ → Bool → Problem → Run Pass
unfolding scan_terms weight_sum cardinality
pass_loop zero i modified pb = out_of_fuel
pass_loop (suc fuel) i modified pb =
    let visit : Run Pass = load pb.clauses i >>= λ c.
    scan_terms (length c.lits + 1) 0 (record {
      clause = c;
      card = pos (cardinality c);
      w_sum = weight_sum c;
      modified = modified;
      pb = pb;
    })
    >>= λ outcome. elim outcome [
      | clash pb' ↦ ok (returned pb')
      | scanned s ↦
          let satisfied : Run Pass =
            pass_loop fuel i true (record s.pb { clauses = swap_remove pb.clauses i }) in
          let kept : Run Pass =
            pass_loop fuel (i + 1) s.modified
              (record s.pb { clauses = set pb.clauses i s.clause }) in
          if not (ltb_ℤ (pos 0) s.card)
          then satisfied
          else if ltb_ℤ s.w_sum s.card
          then ok (returned (record s.pb { clauses = []; status = unsat }))
          else kept
    ] in
    if ltb i (length pb.clauses) then visit else ok (ended modified pb)

unfoldable pub final_status : Problem → Problem
final_status pb = elim pb.status [
  | indet ↦ elim pb.clauses [ [] ↦ record pb { status = sat } | c ∷ clauses ↦ pb ]
  | other ↦ pb
]

-- `for modified`
unfoldable pub rounds : ℕ → Problem → Run Problem
unfolding pass_loop final_status
rounds zero pb = out_of_fuel
rounds (suc fuel) pb = pass_loop (length pb.clauses + 1) 0 false pb >>= λ pass. elim pass [
  | returned pb' ↦ ok pb'
  | ended modified pb' ↦
      let again = rounds fuel pb' in if modified then again else ok (final_status pb')
]

-- `pb.replicateUnits()`
unfoldable pub replicate_units : List Lit → List ℤ → Run (List ℤ)
replicate_units [] model = ok model
replicate_units (lit ∷ units) model =
    store model (lit_var lit) (if is_positive lit then pos 1 else negsuc 0)
    >>= replicate_units units

-- The literals and the clauses, of which each round but the last removes one.
unfoldable pub size : List Clause → ℕ
size [] = 0
size (c ∷ clauses) = length c.lits + 1 + size clauses

unfoldable pub simplify_pb_problem : Problem → Run Problem
unfolding rounds replicate_units size
simplify_pb_problem pb = replicate_units pb.units pb.model >>= λ model.
    rounds (size pb.clauses + 1) (record pb { model = model })
