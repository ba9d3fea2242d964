-- ===== src/Formula/Cnf.antt =====
-- bf/bf.go: the conversion of a formula in negation normal form to clauses.
-- A map is the list of its entries, in the order in which they were made.
use gophersat.Prelude.{
  ℕ, zero, suc, ◌+◌, ◌/◌, ◌%◌, Bool, true, false, not, ◌&&◌, Option, none, some, List, [], ◌∷◌,
  ◌++◌, length, ltb, ◌==◌, if◌then◌else◌,
}
use gophersat.Prelude.Run.{Run, ok, panic, ◌>>=◌}
use gophersat.Prelude.Int.{ℤ, pos, neg}
use gophersat.Text.{Str}
use gophersat.Formula.{
  Variable, Formula, Formulas, true_const, false_const, variable, lit, negated, all_of, any_of, nil,
  cons, nnf,
}

-- `==` on strings, Booleans and variables.
unfoldable pub same_name : Str → Str → Bool
same_name [] [] = true
same_name [] (d ∷ ds) = false
same_name (c ∷ cs) [] = false
same_name (c ∷ cs) (d ∷ ds) = c == d && same_name cs ds

abbrev same_flag : Bool → Bool → Bool
same_flag true b = b
same_flag false b = not b

unfoldable pub same_variable : Variable → Variable → Bool
unfolding same_name
same_variable v w = same_name v.name w.name && same_flag v.dummy w.dummy

abbrev pub Indices : Type 0
Indices = List (Variable × ℕ)

unfoldable pub lookup : Variable → Indices → Option ℕ
unfolding same_variable
lookup v [] = none
lookup v ((w, k) ∷ entries) = if same_variable v w then some k else lookup v entries

pub record Vars : Type 0 where
  pub all : Indices
  pub pb : Indices

abbrev signed : Bool → ℕ → ℤ
signed s val = if s then neg (pos val) else pos val

unfoldable pub lit_value : Variable → Bool → Vars → ℤ × Vars
unfolding lookup
lit_value v s vars = elim (lookup v vars.all) [
  | some val ↦ (signed s val, vars)
  | none ↦
      let val = length vars.all + 1 in
      (signed s val, record { all = vars.all ++ (v, val) ∷ []; pb = vars.pb ++ (v, val) ∷ [] })
]

-- "%d" of a number: the digits before those given, with fuel for their number.
unfoldable pub decimal : ℕ → ℕ → Str → Str
decimal zero n digits = digits
decimal (suc fuel) n digits =
    let longer = (48 + n % 10) ∷ digits in
    let rest = decimal fuel (n / 10) longer in if ltb n 10 then longer else rest

-- "dummy-%d"
unfoldable pub dummy_name : ℕ → Str
unfolding decimal
dummy_name val = 100 ∷ 117 ∷ 109 ∷ 109 ∷ 121 ∷ 45 ∷ decimal (suc val) val []

unfoldable pub dummy : Vars → ℕ × Vars
unfolding dummy_name
dummy vars =
    let val = length vars.all + 1 in
    (
      val,
      record vars { all = vars.all ++ (record { name = dummy_name val; dummy = true }, val) ∷ [] },
    )

-- cnf[0] = append(cnf[0], -d)
unfoldable pub guard_first : ℕ → List (List ℤ) → Run (List (List ℤ))
guard_first d [] = panic
guard_first d (c ∷ cs) = ok ((c ++ neg (pos d) ∷ []) ∷ cs)

unfoldable mutual
  unfolding lit_value dummy guard_first

  pub cnf_rec : Formula → Vars → Run (List (List ℤ) × Vars)
  cnf_rec (lit v s) vars = let (val, vars') = lit_value v s vars in ok ((val ∷ []) ∷ [], vars')
  cnf_rec (all_of fs) vars = cnf_all fs vars
  cnf_rec (any_of fs) vars = cnf_any fs vars >>= λ (res, lits, vars'). ok (res ++ lits ∷ [], vars')
  cnf_rec true_const vars = ok ([], vars)
  cnf_rec false_const vars = ok ([] ∷ [], vars)
  cnf_rec (variable v) vars = panic
  cnf_rec (negated f) vars = panic

  -- The loop of the case `and`.
  pub cnf_all : Formulas → Vars → Run (List (List ℤ) × Vars)
  cnf_all nil vars = ok ([], vars)
  cnf_all (cons f fs) vars = cnf_rec f vars >>= λ (clauses, vars').
      cnf_all fs vars' >>= λ (rest, vars''). ok (clauses ++ rest, vars'')

  -- The loop of the case `or`: the clauses and the literals.
  pub cnf_any : Formulas → Vars → Run (List (List ℤ) × List ℤ × Vars)
  cnf_any nil vars = ok ([], [], vars)
  cnf_any (cons (lit v s) fs) vars =
      let (val, vars') = lit_value v s vars in
      cnf_any fs vars' >>= λ (res, lits, vars''). ok (res, val ∷ lits, vars'')
  cnf_any (cons (all_of gs) fs) vars =
      let (d, vars') = dummy vars in
      cnf_guarded d gs vars' >>= λ (clauses, guarded).
      cnf_any fs guarded >>= λ (res, lits, vars''). ok (clauses ++ res, pos d ∷ lits, vars'')
  cnf_any (cons (any_of gs) fs) vars = panic
  cnf_any (cons true_const fs) vars = panic
  cnf_any (cons false_const fs) vars = panic
  cnf_any (cons (variable v) fs) vars = panic
  cnf_any (cons (negated f) fs) vars = panic

  -- The loop over the operands of an `and` inside an `or`.
  pub cnf_guarded : ℕ → Formulas → Vars → Run (List (List ℤ) × Vars)
  cnf_guarded d nil vars = ok ([], vars)
  cnf_guarded d (cons g gs) vars = cnf_rec g vars >>= λ (clauses, vars').
      guard_first d clauses >>= λ first.
      cnf_guarded d gs vars' >>= λ (rest, vars''). ok (first ++ rest, vars'')

-- The clauses and the variables of a formula, with the fuel of its normal form.
unfoldable pub as_cnf : ℕ → Formula → Run (List (List ℤ) × Vars)
unfolding nnf cnf_rec
as_cnf fuel f = nnf fuel f >>= λ g. cnf_rec g (record { all = []; pb = [] })
