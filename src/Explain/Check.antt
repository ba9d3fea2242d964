-- ===== src/Explain/Check.antt =====
-- explain/check.go: the check of a RUP certificate, and the subset that it marks.
-- A certificate is given as its lines, and whether its reader fails after them.
use gophersat.Prelude.{
  ℕ, ◌+◌, Bool, false, none, some, List, [], ◌∷◌, ◌++◌, length, replicate, take, ◌==◌,
  if◌then◌else◌,
}
use gophersat.Prelude.Run.{Run, ok, ◌>>=◌}
use gophersat.Prelude.Slices.{store}
use gophersat.Prelude.Int.{ℤ, pos, negsuc, nat_abs, ltb_ℤ}
use gophersat.Text.{Str, fields, atoi}
use gophersat.Explain.{Clause, Problem, unsat, store_pred}
use gophersat.Explain.Parse.{parse_clause}

-- `for _, lit := range clause`: the negation of each literal as a unit.
unfoldable pub assume : Clause → List ℤ → Run (List ℤ)
assume [] units = ok units
assume (lit ∷ clause) units = do
  units' ←
      if ltb_ℤ (pos 0) lit
      then store_pred units (nat_abs lit) (negsuc 0)
      else store_pred units (nat_abs lit) (pos 1)
  assume clause units'

-- `unsat(pb, clause)`
unfoldable pub check_clause : Problem → Clause → Run (Bool × Problem)
unfolding assume unsat
check_clause pb clause = do
  units ← assume clause pb.units
  (res, pb') ← unsat (record pb { units = units })
  ok (res, record pb' { units = pb.units })

-- What a line of a certificate is to the checker.
pub data Line : Type 0 where
  ignored malformed : Line
  derived : Clause → Line

classify : List Str → Line
classify [] = ignored
classify (f ∷ fs) = elim (atoi f) [
  | none ↦ ignored
  | some _ ↦ elim (parse_clause (f ∷ fs)) [ none ↦ malformed | some clause ↦ derived clause ]
]

unfoldable pub read_line : Str → Line
unfolding classify parse_clause
read_line line = classify (fields line)

-- `(valid, err)`
pub data Verdict : Type 0 where
  valid invalid bad_clause read_error : Verdict

unfoldable pub is_unit : Clause → Bool
is_unit clause = length clause == 1

-- `for i, clause := range pb.Clauses { pb.tagged[i] = len(clause) == 1 }`, from the clause i on.
unfoldable pub tag_units : ℕ → List Clause → List Bool → Run (List Bool)
unfolding is_unit
tag_units i [] tagged = ok tagged
tag_units i (clause ∷ clauses) tagged =
    store tagged i (is_unit clause) >>= tag_units (i + 1) clauses

unfoldable pub init_tagged : Problem → Run Problem
unfolding tag_units
init_tagged pb = do
  tagged ← tag_units 0 pb.clauses (replicate pb.nb_clauses false)
  ok (record pb { tagged = tagged })

unfoldable pub restore : Problem → Problem
restore pb = record pb { clauses = take pb.nb_clauses pb.clauses }

unfoldable pub learn : Problem → Clause → Problem
learn pb clause = record pb { clauses = pb.clauses ++ clause ∷ [] }

unfoldable pub is_empty : Clause → Bool
is_empty clause = length clause == 0

-- `for line := range ch`
unfoldable pub chan_loop : List Str → Problem → Run (Verdict × Problem)
unfolding read_line check_clause learn is_empty
chan_loop [] pb = ok (valid, pb)
chan_loop (line ∷ lines) pb = elim (read_line line) [
  | ignored ↦ chan_loop lines pb
  | malformed ↦ ok (bad_clause, pb)
  | derived clause ↦ check_clause pb clause >>= λ (good, pb').
      let rest = chan_loop lines (learn pb' clause) in
      if good then (if is_empty clause then ok (valid, pb') else rest) else ok (invalid, pb')
]

unfoldable pub unsat_chan : Problem → List Str → Run (Verdict × Problem)
unfolding init_tagged chan_loop restore
unsat_chan pb lines = do
  pb' ← init_tagged pb
  (verdict, pb'') ← chan_loop lines pb'
  ok (verdict, restore pb'')

-- `for sc.Scan()`
unfoldable pub cert_loop : List Str → Bool → Problem → Run (Verdict × Problem)
unfolding read_line check_clause learn
cert_loop [] fails pb = ok (if fails then read_error else valid, pb)
cert_loop (line ∷ lines) fails pb = elim (read_line line) [
  | ignored ↦ cert_loop lines fails pb
  | malformed ↦ ok (bad_clause, pb)
  | derived clause ↦ check_clause pb clause >>= λ (good, pb').
      let rest = cert_loop lines fails (learn pb' clause) in
      if good then rest else ok (invalid, pb')
]

-- `pb.Unsat(cert)`
unfoldable pub unsat_cert : Problem → List Str → Bool → Run (Verdict × Problem)
unfolding init_tagged cert_loop restore
unsat_cert pb lines fails = do
  pb' ← init_tagged pb
  (verdict, pb'') ← cert_loop lines fails pb'
  ok (verdict, restore pb'')
