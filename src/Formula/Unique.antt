-- ===== src/Formula/Unique.antt =====
-- bf/bf.go: uniqueSmall, and what its formula means.
use gophersat.Prelude.{
  ℕ, ◌+◌, ◌≡◌, refl, ◌∙◌, not, ◌||◌, List, [], ◌∷◌, ltb, leb, ◌==◌, arith, if◌then◌else◌,
}
use gophersat.Formula.{
  Variable, Formula, Formulas, variable, negated, all_of, any_of, nil, cons, append,
}
use gophersat.Formula.Meaning.{Valuation, meaning, all_true, any_true, all_true-append}

-- `varsAsForms`
unfoldable pub as_forms : List Variable → Formulas
as_forms [] = nil
as_forms (v ∷ vs) = cons (variable v) (as_forms vs)

-- The loop over j: the formula is not true together with one of those behind it.
unfoldable pub not_with : Formula → Formulas → Formulas
not_with f nil = nil
not_with f (cons g gs) = cons (any_of (cons (negated f) (cons (negated g) nil))) (not_with f gs)

-- The loop over i.
unfoldable pub not_two : Formulas → Formulas
unfolding append not_with
not_two nil = nil
not_two (cons f fs) = append (not_with f fs) (not_two fs)

unfoldable pub unique_small : List Variable → Formula
unfolding as_forms not_two
unique_small vars = all_of (cons (any_of (as_forms vars)) (not_two (as_forms vars)))

-- How many of the variables are true.
unfoldable pub count_true : Valuation → List Variable → ℕ
count_true a [] = 0
count_true a (v ∷ vs) = if a v then count_true a vs + 1 else count_true a vs

not_with-meaning :
    (a : Valuation) (f : Formula) (fs : Formulas)
    → all_true a (not_with f fs) ≡ (not (meaning a f) || not (any_true a fs))
unfolding not_with meaning all_true any_true
not_with-meaning a f nil = ground arith
not_with-meaning a f (cons g gs) = ground (arith, not_with-meaning a f gs)

some_true :
    (a : Valuation) (vs : List Variable) → any_true a (as_forms vs) ≡ ltb 0 (count_true a vs)
unfolding as_forms meaning any_true count_true
some_true a [] = refl
some_true a (v ∷ vs) = ground (arith, some_true a vs)

not_two-meaning :
    (a : Valuation) (vs : List Variable)
    → all_true a (not_two (as_forms vs)) ≡ leb (count_true a vs) 1
unfolding not_two as_forms meaning all_true count_true
not_two-meaning a [] = refl
not_two-meaning a (v ∷ vs) =
    all_true-append a (not_with (variable v) (as_forms vs)) (not_two (as_forms vs))
    ∙ ground
        (arith, not_with-meaning a (variable v) (as_forms vs), not_two-meaning a vs, some_true a vs)

-- The formula of uniqueSmall is true exactly under the valuations that make one of the variables
-- true, by their places in the list, and no more.
pub unique_small_correct :
    (a : Valuation) (vars : List Variable)
    → meaning a (unique_small vars) ≡ (count_true a vars == 1)
unfolding unique_small meaning all_true
unique_small_correct a vars = ground (arith, some_true a vars, not_two-meaning a vars)
