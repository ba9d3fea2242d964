-- ===== src/Solver/Problem.antt =====
-- solver/problem.go: the solver's problem and its simplification by unit propagation.
-- A clause's list holds its live literals, and the problem's list its live clauses: what the code
-- leaves behind the counters nbLits and nbClauses is cut off by Shrink and updateStatus, or not
-- read again after the status has become Unsat.
pub mod Literals
pub mod Units
pub mod Solutions
pub mod Prefix
pub mod Settle
pub mod Simplify
mod Tests
use gophersat.Prelude.{
  ℕ, zero, suc, ◌+◌, ◌*◌, Bool, true, false, ◌&&◌, not, Option, none, some, List, [], ◌∷◌, ◌++◌,
  length, set, take, ltb, ◌==◌, if◌then◌else◌,
}
use gophersat.Prelude.Run.{Run, ok, panic, out_of_fuel, ◌>>=◌}
use gophersat.Prelude.Slices.{load, store, swap_remove}
use gophersat.Prelude.Int.{ℤ, pos, negsuc, ◌==ℤ◌}
use gophersat.Solver.Types.{Status, indet, sat, unsat, Lit, lit_var, is_positive, negation}

-- The data of a pseudo-Boolean clause, and a clause without its activity.
pub record PbData : Type 0 where
  pub weights : List ℤ
  pub watched : List Bool

pub record Clause : Type 0 where
  pub lits : List Lit
  pub lbd_value : ℕ
  pub pb_data : Option PbData

unfoldable pub new_clause : List Lit → Clause
new_clause lits = record { lits = lits; lbd_value = 0; pb_data = none }

unfoldable pub shrink : Clause → ℕ → Clause
shrink c new_len = elim c.pb_data [
  | none ↦ record c { lits = take new_len c.lits }
  | some d ↦ record c {
    lits = take new_len c.lits;
    pb_data = some (record { weights = take new_len d.weights; watched = take new_len d.watched });
  }
]

pub record Problem : Type 0 where
  pub nb_vars : ℕ
  pub clauses : List Clause
  pub status : Status
  pub units : List Lit
  pub model : List ℤ
  pub min_lits : Option (List Lit)
  pub min_weights : Option (List ℤ)

unfoldable pub is_unsat : Status → Bool
is_unsat unsat = true
is_unsat _ = false

unfoldable pub add_unit : Lit → Problem → Run Problem
add_unit lit pb = do
  binding ← load pb.model (lit_var lit)
  let opposite = if is_positive lit then negsuc 0 else pos 1
  let value = if is_positive lit then pos 1 else negsuc 0
  if binding ==ℤ opposite then ok (record pb { status = unsat }) else do
    model ← store pb.model (lit_var lit) value
    ok (record pb { model = model; units = pb.units ++ lit ∷ [] })

-- The loop over k: duplicates of the literal go; `none` if its negation is met.
unfoldable pub drop_duplicates : ℕ → Lit → List Lit → ℕ → Run (Option (List Lit))
drop_duplicates zero lit lits k = out_of_fuel
drop_duplicates (suc fuel) lit lits k =
    let visit : Run (Option (List Lit)) = do
      lit2 ← load lits k
      let without = drop_duplicates fuel lit (swap_remove lits k) k
      let next = drop_duplicates fuel lit lits (k + 1)
      if lit2 == negation lit then ok none else if lit2 == lit then without else next
    in if ltb k (length lits) then visit else ok (some lits)

-- `==` on Booleans.
unfoldable pub same_sign : Bool → Bool → Bool
same_sign true b = b
same_sign false b = not b

-- The loop over j: `none` if the clause is satisfied, else its literals that are not false.
unfoldable pub scan_lits : ℕ → List ℤ → List Lit → ℕ → Run (Option (List Lit))
unfolding drop_duplicates same_sign
scan_lits zero model lits j = out_of_fuel
scan_lits (suc fuel) model lits j =
    let visit : Run (Option (List Lit)) = load lits j >>= λ lit.
    drop_duplicates (length lits + 1) lit lits (j + 1) >>= elim [
      | none ↦ ok none
      | some lits' ↦ load model (lit_var lit) >>= λ binding.
          let free = scan_lits fuel model lits' (j + 1) in
          let falsified = scan_lits fuel model (swap_remove lits' j) j in
          if binding ==ℤ pos 0
          then free
          else if same_sign (binding ==ℤ pos 1) (is_positive lit)
          then ok none
          else falsified
    ] in
    if ltb j (length lits) then visit else ok (some lits)

-- How the loop over the clauses ends: the function returns, or a round is over.
pub data Round : Type 0 where
  returned : Problem → Round
  over : Bool → Problem → Round

-- What the loop over the clauses does at clause i with the result of the scan, before the rest of
-- the round.
unfoldable pub settle :
    ℕ → Bool → Clause → Problem → Option (List Lit) → (ℕ → Bool → Problem → Run Round) → Run Round
unfolding add_unit is_unsat shrink
settle i restart c pb none next = next i restart (record pb { clauses = swap_remove pb.clauses i })
settle i restart c pb (some []) next = ok (returned (record pb { status = unsat }))
settle i restart c pb (some (lit ∷ [])) next = add_unit lit pb >>= λ pb'.
    let rest = next i true (record pb' { clauses = swap_remove pb'.clauses i }) in
    if is_unsat pb'.status then ok (returned pb') else rest
settle i restart c pb (some (lit ∷ lit2 ∷ lits)) next =
    let left = lit ∷ lit2 ∷ lits in
    let c' =
      if length c.lits == length left
      then record c { lits = left }
      else shrink (record c { lits = left }) (length left) in
    next (i + 1) restart (record pb { clauses = set pb.clauses i c' })

-- `for i < nbClauses`
unfoldable pub clause_loop : ℕ → ℕ → Bool → Problem → Run Round
unfolding scan_lits settle
clause_loop zero i restart pb = out_of_fuel
clause_loop (suc fuel) i restart pb =
    let visit : Run Round = load pb.clauses i >>= λ c.
    scan_lits (length c.lits + 1) pb.model c.lits 0 >>= λ r.
    settle i restart c pb r (clause_loop fuel) in
    if ltb i (length pb.clauses) then visit else ok (over restart pb)

-- The status of a problem whose clauses are these.
settled_status : Status → List Clause → Status
settled_status indet [] = sat
settled_status s clauses = s

unfoldable pub update_status : Problem → Problem
unfolding settled_status
update_status pb = record pb { status = settled_status pb.status pb.clauses }

unfoldable pub restart_loop : ℕ → Problem → Run Problem
unfolding clause_loop update_status
restart_loop zero pb = out_of_fuel
restart_loop (suc fuel) pb = clause_loop (length pb.clauses + 1) 0 false pb >>= elim [
  | returned pb' ↦ ok pb'
  | over restart pb' ↦
      let again = restart_loop fuel pb' in if restart then again else ok (update_status pb')
]

unfoldable pub simplify2 : Problem → Run Problem
unfolding restart_loop
simplify2 pb = restart_loop (length pb.clauses + 1) pb
