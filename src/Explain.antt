-- ===== src/Explain.antt =====
-- explain/problem.go: the problem of the certificate checker, and its unit propagation.
-- Literals and bindings are Go `int`s; a literal has at most `nb_vars` for its absolute value, so
-- that `-lit` and `binding * lit` do not overflow.
pub mod Scanning
pub mod Rounds
pub mod Loop
pub mod Parse
pub mod Check
pub mod Rup
pub mod Certificate
pub mod Lines
pub mod Verdicts
pub mod Subset
pub mod Mus
mod Tests
use gophersat.Prelude.{
  ℕ, zero, suc, ◌+◌, ◌<◌, ◌≡◌, Bool, true, false, Option, none, some, List, [], ◌∷◌, length,
  get_elem?, set, replicate, ltb, ◌==◌, if◌then◌else◌,
}
use gophersat.Prelude.Run.{Run, ok, panic, out_of_fuel, ◌>>=◌, or_panic}
use gophersat.Prelude.Slices.{store}
use gophersat.Prelude.Int.{ℤ, pos, negsuc, nat_abs, ◌*ℤ◌, ◌==ℤ◌, ltb_ℤ}

abbrev pub Clause : Type 0
Clause = List ℤ

-- `Options` only switches output on.
pub record Problem : Type 0 where
  pub clauses : List Clause
  pub nb_vars : ℕ
  pub nb_clauses : ℕ
  pub units : List ℤ
  pub tagged : List Bool

-- xs[n-1], for an index that the code computes by a subtraction.
abbrev pub load_pred {ℓ} : {A : Type ℓ} → List A → ℕ → Run A
load_pred xs zero = panic
load_pred xs (suc k) = or_panic (get_elem? xs k)

-- xs[n-1] = v
abbrev pub store_pred {ℓ} : {A : Type ℓ} → List A → ℕ → A → Run (List A)
store_pred xs zero v = panic
store_pred xs (suc k) v = store xs k v

-- What the loop over a clause's literals leaves in its variables.
pub record Scan : Type 0 where
  pub unbound : ℕ
  pub unit : ℤ
  pub sat : Bool

-- The loop over a clause's literals; it is left at the second unbound literal and at a true one.
unfoldable pub scan_clause : List ℤ → Clause → Scan → Run Scan
scan_clause units [] s = ok s
scan_clause units (lit ∷ lits) s =
    let rest_unbound = scan_clause units lits (record s { unbound = s.unbound + 1; unit = lit }) in
    let rest_false = scan_clause units lits s in
    load_pred units (nat_abs lit) >>= λ binding.
    if binding ==ℤ pos 0
    then (if s.unbound + 1 == 1 then rest_unbound else ok (record s { unbound = s.unbound + 1 }))
    else (if binding *ℤ lit ==ℤ pos (nat_abs lit) then ok (record s { sat = true }) else rest_false)

-- The variables of a call of `unsat`, with the fields of the problem that it writes.
pub record Propagation : Type 0 where
  pub units : List ℤ
  pub tagged : List Bool
  pub done : List Bool
  pub modified : Bool

-- `if i < pb.NbClauses { pb.tagged[i] = true }`
unfoldable pub tag : ℕ → ℕ → List Bool → Run (List Bool)
tag nb_clauses i tagged = if ltb i nb_clauses then store tagged i true else ok tagged

-- pb.units[unit-1] = 1, or pb.units[-unit-1] = -1
unfoldable pub bind_unit : ℤ → List ℤ → Run (List ℤ)
bind_unit unit units =
    if ltb_ℤ unit (pos 0)
    then store_pred units (nat_abs unit) (negsuc 0)
    else store_pred units (nat_abs unit) (pos 1)

abbrev unscanned : Scan
unscanned = record { unbound = 0; unit = pos 0; sat = false }

-- What the loop over the clauses does after the scan of clause `i`: the result says whether the
-- function returns true.
unfoldable pub conclude : ℕ → ℕ → Scan → Propagation → Run (Bool × Propagation)
unfolding tag bind_unit
conclude nb_clauses i s p =
    if s.sat
    then (do done ← store p.done i true; ok (false, record p { done = done }))
    else if s.unbound == 0
    then (do tagged ← tag nb_clauses i p.tagged; ok (true, record p { tagged = tagged }))
    else if s.unbound == 1
    then (do
      units ← bind_unit s.unit p.units
      done ← store p.done i true
      tagged ← tag nb_clauses i p.tagged
      ok (false, record p { units = units; done = done; tagged = tagged; modified = true }))
    else ok (false, p)

-- One round of the loop over the clauses, for clause `i`.
unfoldable pub visit : ℕ → ℕ → Clause → Propagation → Run (Bool × Propagation)
unfolding scan_clause conclude
visit nb_clauses i clause p = do
  proved ← or_panic (get_elem? p.done i)
  if proved
      then ok (false, p)
      else scan_clause p.units clause unscanned >>= λ s. conclude nb_clauses i s p

-- `for i, clause := range pb.Clauses`
unfoldable pub pass : ℕ → ℕ → List Clause → Propagation → Run (Bool × Propagation)
unfolding visit
pass nb_clauses i [] p = ok (false, p)
pass nb_clauses i (clause ∷ clauses) p = do
  (conflict, p') ← visit nb_clauses i clause p
  let rest = pass nb_clauses (i + 1) clauses p'
  if conflict then ok (true, p') else rest

-- `for modified`, with fuel.
unfoldable pub propagate : ℕ → ℕ → List Clause → Propagation → Run (Bool × Propagation)
unfolding pass
propagate zero nb_clauses clauses p = out_of_fuel
propagate (suc fuel) nb_clauses clauses p = do
  (conflict, p') ← pass nb_clauses 0 clauses (record p { modified = false })
  let rest = propagate fuel nb_clauses clauses p'
  if conflict then ok (true, p') else if p'.modified then rest else ok (false, p')

-- Each round but the last marks one more clause as done.
unfoldable pub unsat : Problem → Run (Bool × Problem)
unfolding propagate
unsat pb = do
  (res, p) ← propagate (length pb.clauses + 1) pb.nb_clauses pb.clauses (record {
    units = pb.units;
    tagged = pb.tagged;
    done = replicate (length pb.clauses) false;
    modified = true;
  })
  ok (res, record pb { units = p.units; tagged = p.tagged })
