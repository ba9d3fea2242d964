-- ===== src/Formula/Normal.antt =====
-- The methods nnf as a whole.
use gophersat.Prelude.{
  ℕ, zero, suc, ◌+◌, ◌≤◌, ◌≡◌, refl, sym, ◌∙◌, Bool, true, false, not, some, arith,
}
use gophersat.Prelude.Run.{Run, ok, Returns, returns, Returns-bind, Returns-map}
use gophersat.Formula.{
  Formula, Formulas, true_const, false_const, variable, lit, negated, all_of, any_of, nil, cons,
  collect_and, negate_all, nnf_not, nnf,
}
use gophersat.Formula.Meaning.{Valuation, meaning, all_true, any_true}
use gophersat.Formula.Nnf.{Plain, ArePlain, Nonempty, IsNnf}
use gophersat.Formula.Depth.{depth, depths, height, heights, heights-le-depths, IsNnf-Plain}
use gophersat.Formula.Collect.{Normal, Calls, and-Returns, or-Returns}

-- The call gives normal forms of the plain formulas of at most the depth.
abbrev pub Normalises : ℕ → (Formula → Run Formula) → Type 0
Normalises n call = (f : Formula) → Plain f → depth f ≤ n → Returns (Normal f) (call f)

calls :
    (n : ℕ) (call : Formula → Run Formula) (fs : Formulas)
    → Normalises n call
    → ArePlain fs
    → depths fs ≤ n
    → Calls call fs
unfolding ArePlain depths
calls n call nil ih h d = tt
calls n call (cons f fs) ih h d = (ih f h.0 (omega arith), calls n call fs ih h.1 (omega arith))

-- The normal forms of the negations.
record Negations (fs gs : Formulas) : Type 0 where
  plain : ArePlain gs
  low : depths gs ≤ heights fs
  filled : Nonempty fs → Nonempty gs
  any_same : (a : Valuation) → any_true a gs ≡ not (all_true a fs)
  all_same : (a : Valuation) → all_true a gs ≡ not (any_true a fs)

negate_all-Returns :
    (n : ℕ) (call : Formula → Run Formula) (fs : Formulas)
    → Normalises n call
    → ArePlain fs
    → depths fs + 1 ≤ n
    → Returns (Negations fs) (negate_all call fs)
unfolding negate_all ArePlain Plain depths depth heights height all_true any_true meaning
negate_all-Returns n call nil ih h d = returns (record {
  plain = tt;
  low = omega arith;
  filled = λ e. e;
  any_same = λ a. refl;
  all_same = λ a. refl;
})
negate_all-Returns n call (cons f fs) ih h d =
    Returns-bind (ih (negated f) h.0 (omega arith)) λ g s.
      Returns-bind (negate_all-Returns n call fs ih h.1 (omega arith)) λ gs r. returns (record {
        plain = (IsNnf-Plain g s.normal, r.plain);
        low = omega (arith, s.low, r.low);
        filled = λ _. tt;
        any_same = λ a. ground (arith, s.same a, r.any_same a);
        all_same = λ a. ground (arith, s.same a, r.all_same a);
      })

not-not : (b : Bool) → not (not b) ≡ b
not-not true = refl
not-not false = refl

nnf_not-Returns :
    (n : ℕ) (call : Formula → Run Formula) (f : Formula)
    → Normalises n call
    → Plain f
    → depth f ≤ n
    → Returns (Normal (negated f)) (nnf_not call f)
unfolding nnf_not Plain depth height meaning IsNnf
nnf_not-Returns n call (variable v) ih h d =
    returns (record { normal = tt; low = omega arith; same = λ a. refl })
nnf_not-Returns n call (lit v signed) ih h d =
    returns (record { normal = tt; low = omega arith; same = λ a. ground arith })
nnf_not-Returns n call (negated f) ih h d = Returns-map (ih f h (omega arith)) λ g s. record {
  normal = s.normal;
  low = s.low;
  same = λ a. s.same a ∙ sym (not-not (meaning a f));
}
nnf_not-Returns n call (all_of fs) ih h d =
    Returns-bind (negate_all-Returns n call fs ih h.1 (omega arith)) λ gs r.
      Returns-map
        (ih (any_of gs) (r.filled h.0, r.plain) (omega (arith, r.low, heights-le-depths fs)))
        λ g s. record {
          normal = s.normal;
          low = omega (arith, s.low, r.low, heights-le-depths gs);
          same = λ a. s.same a ∙ r.any_same a;
        }
nnf_not-Returns n call (any_of fs) ih h d =
    Returns-bind (negate_all-Returns n call fs ih h.1 (omega arith)) λ gs r.
      Returns-map
        (ih (all_of gs) (r.filled h.0, r.plain) (omega (arith, r.low, heights-le-depths fs)))
        λ g s. record {
          normal = s.normal;
          low = omega (arith, s.low, r.low, heights-le-depths gs);
          same = λ a. s.same a ∙ r.all_same a;
        }
nnf_not-Returns n call true_const ih h d = absurd h
nnf_not-Returns n call false_const ih h d = absurd h

-- For a formula with no constant and no empty conjunction or disjunction, and fuel for its depth:
-- nnf returns a formula in negation normal form that is no deeper, negations aside, and has the
-- same truth value under every valuation.
pub nnf_correct :
    (fuel : ℕ) (f : Formula) → Plain f → depth f ≤ fuel → Returns (Normal f) (nnf fuel f)
unfolding nnf Plain depth height meaning IsNnf
nnf_correct zero f h d = absurd (positive f d)
  where
    positive : (f : Formula) → depth f ≤ 0 → ⊥
    positive true_const d = omega arith
    positive false_const d = omega arith
    positive (variable v) d = omega arith
    positive (lit v signed) d = omega arith
    positive (negated f) d = omega arith
    positive (all_of fs) d = omega arith
    positive (any_of fs) d = omega arith
nnf_correct (suc fuel) (variable v) h d =
    returns (record { normal = tt; low = omega arith; same = λ a. refl })
nnf_correct (suc fuel) (lit v signed) h d =
    returns (record { normal = tt; low = omega arith; same = λ a. refl })
nnf_correct (suc fuel) (negated f) h d =
    nnf_not-Returns fuel (nnf fuel) f (nnf_correct fuel) h (omega arith)
nnf_correct (suc fuel) (all_of fs) h d =
    and-Returns (nnf fuel) fs h.0 (calls fuel (nnf fuel) fs (nnf_correct fuel) h.1 (omega arith))
nnf_correct (suc fuel) (any_of fs) h d =
    or-Returns (nnf fuel) fs h.0 (calls fuel (nnf fuel) fs (nnf_correct fuel) h.1 (omega arith))
nnf_correct (suc fuel) true_const h d = absurd h
nnf_correct (suc fuel) false_const h d = absurd h

-- Operands that are true under every valuation, and whose normal form is the constant True.
abbrev pub AllTrue : ℕ → Formulas → Type 0
AllTrue fuel nil = Unit {0}
AllTrue fuel (cons f fs) =
    (nnf fuel f ≡ ok true_const) × ((a : Valuation) → meaning a f ≡ true) × AllTrue fuel fs

-- A conjunction of any number of operands that are true under every valuation and whose normal form is the
-- constant True is itself true under every valuation, and nnf turns it into False.
pub nnf-true_lost :
    (fuel : ℕ) (fs : Formulas)
    → AllTrue fuel fs
    → (nnf (suc fuel) (all_of fs) ≡ ok false_const)
      × ((a : Valuation) → meaning a (all_of fs) ≡ true)
unfolding nnf meaning all_true
nnf-true_lost fuel fs h = (rw (nothing fs h), λ a. holds a fs h)
  where
    nothing : (fs : Formulas) → AllTrue fuel fs → collect_and (nnf fuel) fs ≡ ok (some nil)
    nothing nil h = refl
    nothing (cons f fs) h = rw h.0 (nothing fs h.2)

    holds : (a : Valuation) (fs : Formulas) → AllTrue fuel fs → all_true a fs ≡ true
    holds a nil h = refl
    holds a (cons f fs) h = rw (h.1 a) (holds a fs h.2)
