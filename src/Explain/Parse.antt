-- ===== src/Explain/Parse.antt =====
-- explain/parser.go: DIMACS text to a problem of the certificate checker.
-- A text is given as the lines that bufio.Scanner delivers, and whether it fails after them.
use gophersat.Prelude.{
  ℕ, Bool, false, Option, none, some, List, [], ◌∷◌, ◌++◌, replicate, ltb, ◌==◌, if◌then◌else◌,
}
use gophersat.Prelude.Run.{Run, ok, ◌>>=◌}
use gophersat.Prelude.Int.{ℤ, pos, negsuc, nat_abs, ◌==ℤ◌}
use gophersat.Text.{Str, fields, atoi}
use gophersat.Explain.{Clause, Problem, bind_unit}

-- The literals of the fields; the terminating 0, as any other, is left out.
unfoldable pub parse_clause : List Str → Option Clause
parse_clause [] = some []
parse_clause (raw_lit ∷ raw_lits) = elim (atoi raw_lit) [
  | none ↦ none
  | some lit ↦ elim (parse_clause raw_lits) [
    | none ↦ none
    | some clause ↦ if lit ==ℤ pos 0 then some clause else some (lit ∷ clause)
  ]
]

pub data Error : Type 0 where
  field_count bad_vars negative_vars bad_clauses negative_clauses : Error
  bad_clause too_large read_error : Error

-- An error, or the problem.
pub data Parsed : Type 0 where
  parsed : Problem → Parsed
  failed : Error → Parsed

-- The counts of a header line.
set_header : Option ℤ → Option ℤ → Problem → Parsed
set_header none _ pb = failed bad_vars
set_header (some (negsuc n)) _ pb = failed negative_vars
set_header (some (pos n)) none pb = failed bad_clauses
set_header (some (pos n)) (some (negsuc m)) pb = failed negative_clauses
set_header (some (pos n)) (some (pos m)) pb =
    parsed (record pb { nb_vars = n; units = replicate n (pos 0); nb_clauses = m; clauses = [] })

unfoldable pub parse_header : List Str → Problem → Parsed
unfolding set_header
parse_header (_ ∷ _ ∷ str_vars ∷ str_clauses ∷ []) pb =
    set_header (atoi str_vars) (atoi str_clauses) pb
parse_header _ pb = failed field_count

-- The clause joins the problem; a unit clause binds its variable.
unfoldable pub add_clause : Clause → Problem → Run Parsed
add_clause (lit ∷ []) pb = if ltb pb.nb_vars (nat_abs lit) then ok (failed too_large) else do
  units ← bind_unit lit pb.units
  ok (parsed (record pb { clauses = pb.clauses ++ (lit ∷ []) ∷ []; units = units }))
add_clause clause pb = ok (parsed (record pb { clauses = pb.clauses ++ clause ∷ [] }))

unfoldable pub parse_clause_line : List Str → Problem → Run Parsed
unfolding parse_clause add_clause
parse_clause_line fs pb = elim (parse_clause fs) [
  | none ↦ ok (failed bad_clause)
  | some clause ↦ add_clause clause pb
]

-- Is the word the one letter?
is_letter : ℕ → Str → Bool
is_letter c [] = false
is_letter c (d ∷ []) = d == c
is_letter c (d ∷ e ∷ text) = false

unfoldable pub parse_line : List Str → Problem → Run Parsed
unfolding is_letter parse_header parse_clause_line
parse_line [] pb = ok (parsed pb)
parse_line (f ∷ fs) pb =
    if is_letter b'c' f
    then ok (parsed pb)
    else if is_letter b'p' f
    then ok (parse_header (f ∷ fs) pb)
    else parse_clause_line (f ∷ fs) pb

unfoldable pub parse_lines : List Str → Bool → Problem → Run Parsed
unfolding parse_line
parse_lines [] fails pb = ok (if fails then failed read_error else parsed pb)
parse_lines (line ∷ lines) fails pb =
    parse_line (fields line) pb
    >>= elim [ failed e ↦ ok (failed e) | parsed pb' ↦ parse_lines lines fails pb' ]

-- The zero value of the type.
abbrev pub no_problem : Problem
no_problem = record { clauses = []; nb_vars = 0; nb_clauses = 0; units = []; tagged = [] }

unfoldable pub parse_cnf : List Str → Bool → Run Parsed
unfolding parse_lines
parse_cnf lines fails = parse_lines lines fails no_problem
