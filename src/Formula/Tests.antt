-- ===== src/Formula/Tests.antt =====
-- Formulas at concrete inputs.
use gophersat.Prelude.{
  ◌==◌, ℕ, Bool, List, ◌≡◌, refl, ◌≤◌, some, none, if◌then◌else◌, true, false, [], ◌∷◌, arith,
}
use gophersat.Prelude.Run.{ok, Returns}
use gophersat.Formula.{
  Bindings, Formula, Formulas, true_const, false_const, variable, lit, negated, all_of, any_of, nil,
  cons, eval, nnf,
}
use gophersat.Prelude.Int.{ℤ}
use gophersat.Semantics.{Assignment}
use gophersat.Formula.Cnf.{Vars, as_cnf, same_name, decimal}
use gophersat.Formula.Unique.{unique_small, count_true, unique_small_correct}
use gophersat.Formula.Indices.{clauses_true}
use gophersat.Formula.Models.{GivesModels, as_cnf_sound}
use gophersat.Formula.Meaning.{Valuation, meaning, Binds, eval_total}
use gophersat.Formula.Nnf.{Plain}
use gophersat.Formula.Depth.{depth}
use gophersat.Formula.Collect.{Normal}
use gophersat.Formula.Normal.{AllTrue, nnf_correct, nnf-true_lost}

abbrev x : Formula
x = variable (record { name = 120 ∷ []; dummy = false })

abbrev y : Formula
y = variable (record { name = 121 ∷ []; dummy = false })

-- not (x and (y or not x))
abbrev sample : Formula
sample = negated (all_of (cons x (cons (any_of (cons y (cons (negated x) nil))) nil)))

sample-Plain : Plain sample
unfolding Plain
sample-Plain = (tt, (tt, ((tt, (tt, (tt, tt))), tt)))

depth-sample : depth sample ≤ 5
unfolding depth
depth-sample = omega arith

nnf_correct_example : Returns (Normal sample) (nnf 5 sample)
nnf_correct_example = nnf_correct 5 sample sample-Plain depth-sample

-- True, Not(False) and Not(Not(True))
abbrev three_true : Formulas
three_true = cons true_const (cons (negated false_const) (cons (negated (negated true_const)) nil))

three-AllTrue : AllTrue 3 three_true
unfolding nnf meaning
three-AllTrue = (refl, λ a. refl, (refl, λ a. refl, (refl, λ a. refl, tt)))

nnf-true_lost_example :
    (nnf 4 (all_of three_true) ≡ ok false_const)
    × ((a : Valuation) → meaning a (all_of three_true) ≡ true)
nnf-true_lost_example = nnf-true_lost 3 three_true three-AllTrue

-- A map with two keys: x is true and y is false.
abbrev two_bindings : Bindings
two_bindings name =
    if same_name name (120 ∷ [])
    then some true
    else if same_name name (121 ∷ [])
    then some false
    else none

abbrev x_only : Valuation
x_only v = same_name v.name (120 ∷ [])

sample-Binds : Binds two_bindings x_only sample
unfolding Binds same_name decimal
sample-Binds = (refl, ((refl, (refl, tt)), tt))

eval_total_example : eval two_bindings sample ≡ ok (meaning x_only sample)
eval_total_example = eval_total two_bindings x_only sample sample-Binds

as_cnf_sound_example : Returns (GivesModels sample) (as_cnf 5 sample)
as_cnf_sound_example = as_cnf_sound 5 sample sample-Plain depth-sample

abbrev name_lit : ℕ → Bool → Formula
name_lit k negative = lit (record { name = k ∷ []; dummy = false }) negative

-- (a or (b and (c or (d and e)))) and not c and not e
abbrev nested : Formula
nested = all_of (
    cons
      (any_of (
        cons (name_lit 97 false) (
          cons
            (all_of (
              cons (name_lit 98 false) (
                cons
                  (any_of (
                    cons (name_lit 99 false) (
                      cons (all_of (cons (name_lit 100 false) (cons (name_lit 101 false) nil)))
                        nil)))
                  nil)))
            nil)))
      (cons (name_lit 99 true) (cons (name_lit 101 true) nil)))

-- It is true where a alone is, and its clauses have no model: the guard of the conjunction with b
-- stands in the first of the clauses that its second member has, and not in the others.
nested_lost :
    (r : List (List ℤ) × Vars) × (as_cnf 9 nested ≡ ok r)
    × ((b : Assignment) → clauses_true b r.0 ≡ false)
    × (meaning (λ v. same_name v.name (97 ∷ [])) nested ≡ true)
unfolding as_cnf meaning same_name decimal
nested_lost = (_, refl, λ b. ground arith, refl)

unique_small_correct_example :
    meaning
      (λ v. same_name v.name (97 ∷ []))
      (unique_small
        (record { name = 97 ∷ []; dummy = false } ∷ record { name = 98 ∷ []; dummy = false } ∷ []))
    ≡ (count_true
          (λ v. same_name v.name (97 ∷ []))
          (record { name = 97 ∷ []; dummy = false } ∷ record { name = 98 ∷ []; dummy = false } ∷ [])
        == 1)
unique_small_correct_example =
    unique_small_correct (λ v. same_name v.name (97 ∷ []))
      (record { name = 97 ∷ []; dummy = false } ∷ record { name = 98 ∷ []; dummy = false } ∷ [])
