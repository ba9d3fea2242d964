-- ===== src/Formula/Meaning.antt =====
-- The truth value of a formula, and that evaluation computes it.
use gophersat.Prelude.{
  ◌≡◌, refl, ◌∙◌, Bool, true, false, not, ◌&&◌, ◌||◌, some, arith, if◌then◌else◌,
}
use gophersat.Prelude.Run.{ok}
use gophersat.Formula.{
  Bindings, Variable, Formula, Formulas, true_const, false_const, variable, lit, negated, all_of,
  any_of, nil, cons, eval, eval_all, eval_any, append,
}

abbrev pub Valuation : Type 0
Valuation = Variable → Bool

unfoldable mutual
  pub meaning : Valuation → Formula → Bool
  meaning a true_const = true
  meaning a false_const = false
  meaning a (variable v) = a v
  meaning a (lit v signed) = if signed then not (a v) else a v
  meaning a (negated f) = not (meaning a f)
  meaning a (all_of fs) = all_true a fs
  meaning a (any_of fs) = any_true a fs

  pub all_true : Valuation → Formulas → Bool
  all_true a nil = true
  all_true a (cons f fs) = meaning a f && all_true a fs

  pub any_true : Valuation → Formulas → Bool
  any_true a nil = false
  any_true a (cons f fs) = meaning a f || any_true a fs

pub all_true-append :
    (a : Valuation) (fs gs : Formulas)
    → all_true a (append fs gs) ≡ (all_true a fs && all_true a gs)
unfolding append meaning all_true
all_true-append a nil gs = refl
all_true-append a (cons f fs) gs = ground (arith, all_true-append a fs gs)

pub any_true-append :
    (a : Valuation) (fs gs : Formulas)
    → any_true a (append fs gs) ≡ (any_true a fs || any_true a gs)
unfolding append meaning any_true
any_true-append a nil gs = refl
any_true-append a (cons f fs) gs = ground (arith, any_true-append a fs gs)

-- The model binds each variable that occurs in the formula, to its value.
unfoldable mutual
  pub Binds : Bindings → Valuation → Formula → Type 0
  Binds model a true_const = Unit
  Binds model a false_const = Unit
  Binds model a (variable v) = model v.name ≡ some (a v)
  Binds model a (lit v signed) = model v.name ≡ some (a v)
  Binds model a (negated f) = Binds model a f
  Binds model a (all_of fs) = BindsAll model a fs
  Binds model a (any_of fs) = BindsAll model a fs

  pub BindsAll : Bindings → Valuation → Formulas → Type 0
  BindsAll model a nil = Unit
  BindsAll model a (cons f fs) = Binds model a f × BindsAll model a fs

module _ (model : Bindings) (a : Valuation) where
  mutual
    unfolding eval eval_all eval_any meaning all_true any_true Binds BindsAll

    eval-bound : (f : Formula) → Binds model a f → eval model f ≡ ok (meaning a f)
    eval-bound true_const h = refl
    eval-bound false_const h = refl
    eval-bound (variable v) h = rw h refl
    eval-bound (lit v signed) h = rw h refl
    eval-bound (negated f) h = rw (eval-bound f h) refl
    eval-bound (all_of fs) h = eval_all-first fs h
    eval-bound (any_of fs) h = eval_any-first fs h

    eval_all-first :
        (fs : Formulas) → BindsAll model a fs → eval_all model true true fs ≡ ok (all_true a fs)
    eval_all-first nil h = refl
    eval_all-first (cons f fs) h = rw (eval-bound f h.0) (eval_all-rest (meaning a f) fs h.1)

    eval_all-rest :
        (res : Bool) (fs : Formulas)
        → BindsAll model a fs
        → eval_all model false res fs ≡ ok (res && all_true a fs)
    eval_all-rest res nil h = ground arith
    eval_all-rest res (cons f fs) h =
        rw (eval-bound f h.0) (eval_all-rest (res && meaning a f) fs h.1 ∙ (ground arith))

    eval_any-first :
        (fs : Formulas) → BindsAll model a fs → eval_any model true false fs ≡ ok (any_true a fs)
    eval_any-first nil h = refl
    eval_any-first (cons f fs) h = rw (eval-bound f h.0) (eval_any-rest (meaning a f) fs h.1)

    eval_any-rest :
        (res : Bool) (fs : Formulas)
        → BindsAll model a fs
        → eval_any model false res fs ≡ ok (res || any_true a fs)
    eval_any-rest res nil h = ground arith
    eval_any-rest res (cons f fs) h =
        rw (eval-bound f h.0) (eval_any-rest (res || meaning a f) fs h.1 ∙ (ground arith))

-- Where the model binds each variable that occurs in the formula, whatever other names it binds or
-- leaves out, Eval returns, with no panic, and its result is the truth value of the formula under these
-- bindings.
pub eval_total :
    (model : Bindings) (a : Valuation) (f : Formula)
    → Binds model a f
    → eval model f ≡ ok (meaning a f)
eval_total model a f h = eval-bound model a f h
