-- ===== src/Formula.antt =====
-- bf/bf.go: Boolean formulas, their evaluation and their negation normal form.
pub mod Meaning
pub mod Nnf
pub mod Depth
pub mod Collect
pub mod Normal
pub mod Unique
pub mod Cnf
pub mod Indices
pub mod Conversion
pub mod Models
mod Tests
use gophersat.Prelude.{
  ℕ, zero, suc, Bool, true, false, not, ◌&&◌, ◌||◌, Option, none, some, List, [], ◌∷◌,
  if◌then◌else◌,
}
use gophersat.Prelude.Run.{Run, ok, out_of_fuel, ◌>>=◌, or_panic}
use gophersat.Text.{Str}

pub record Variable : Type 0 where
  pub name : Str
  pub dummy : Bool

-- The types that implement Formula. `Formulas` is the slice of subformulas.
mutual
  pub data Formula : Type 0 where
    true_const false_const : Formula
    variable : Variable → Formula
    lit : Variable → Bool → Formula
    negated : Formula → Formula
    all_of any_of : Formulas → Formula

  pub data Formulas : Type 0 where
    nil : Formulas
    cons : Formula → Formulas → Formulas

-- map[string]bool
abbrev pub Bindings : Type 0
Bindings = Str → Option Bool

-- The loops of Eval get the first flag, `i == 0`, and the result so far.
unfoldable mutual
  pub eval : Bindings → Formula → Run Bool
  eval model true_const = ok true
  eval model false_const = ok false
  eval model (variable v) = or_panic (model v.name)
  eval model (lit v signed) = or_panic (model v.name) >>= λ b. ok (if signed then not b else b)
  eval model (negated f) = eval model f >>= λ b. ok (not b)
  eval model (all_of fs) = eval_all model true true fs
  eval model (any_of fs) = eval_any model true false fs

  pub eval_all : Bindings → Bool → Bool → Formulas → Run Bool
  eval_all model first res nil = ok res
  eval_all model first res (cons f fs) =
      eval model f >>= λ b. eval_all model false (if first then b else res && b) fs

  pub eval_any : Bindings → Bool → Bool → Formulas → Run Bool
  eval_any model first res nil = ok res
  eval_any model first res (cons f fs) =
      eval model f >>= λ b. eval_any model false (if first then b else res || b) fs

-- append
unfoldable pub append : Formulas → Formulas → Formulas
append nil gs = gs
append (cons f fs) gs = cons f (append fs gs)

-- What the loop of `and.nnf` does with a subformula's normal form, before the rest: `none` is the
-- early return of False.
unfoldable pub add_and : Formula → Run (Option Formulas) → Run (Option Formulas)
unfolding append
add_and (all_of gs) rest = rest >>= elim [ none ↦ ok none | some fs ↦ ok (some (append gs fs)) ]
add_and true_const rest = rest
add_and false_const rest = ok none
add_and f rest = rest >>= elim [ none ↦ ok none | some fs ↦ ok (some (cons f fs)) ]

unfoldable pub add_or : Formula → Run (Option Formulas) → Run (Option Formulas)
unfolding append
add_or (any_of gs) rest = rest >>= elim [ none ↦ ok none | some fs ↦ ok (some (append gs fs)) ]
add_or false_const rest = rest
add_or true_const rest = ok none
add_or f rest = rest >>= elim [ none ↦ ok none | some fs ↦ ok (some (cons f fs)) ]

unfoldable pub collect_and : (Formula → Run Formula) → Formulas → Run (Option Formulas)
unfolding add_and
collect_and nnf nil = ok (some nil)
collect_and nnf (cons s subs) = nnf s >>= λ f. add_and f (collect_and nnf subs)

unfoldable pub collect_or : (Formula → Run Formula) → Formulas → Run (Option Formulas)
unfolding add_or
collect_or nnf nil = ok (some nil)
collect_or nnf (cons s subs) = nnf s >>= λ f. add_or f (collect_or nnf subs)

-- The end of `and.nnf` and of `or.nnf`.
unfoldable pub finish_and : Option Formulas → Formula
finish_and none = false_const
finish_and (some nil) = false_const
finish_and (some (cons f nil)) = f
finish_and (some (cons f (cons g fs))) = all_of (cons f (cons g fs))

unfoldable pub finish_or : Option Formulas → Formula
finish_or none = true_const
finish_or (some nil) = true_const
finish_or (some (cons f nil)) = f
finish_or (some (cons f (cons g fs))) = any_of (cons f (cons g fs))

-- `subs[i] = not{sub}.nnf()`
unfoldable pub negate_all : (Formula → Run Formula) → Formulas → Run Formulas
negate_all nnf nil = ok nil
negate_all nnf (cons s subs) = do f ← nnf (negated s); fs ← negate_all nnf subs; ok (cons f fs)

-- `not.nnf`
unfoldable pub nnf_not : (Formula → Run Formula) → Formula → Run Formula
unfolding negate_all
nnf_not nnf (variable v) = ok (lit v true)
nnf_not nnf (lit v signed) = ok (lit v (not signed))
nnf_not nnf (negated f) = nnf f
nnf_not nnf (all_of fs) = negate_all nnf fs >>= λ subs. nnf (any_of subs)
nnf_not nnf (any_of fs) = negate_all nnf fs >>= λ subs. nnf (all_of subs)
nnf_not nnf true_const = ok false_const
nnf_not nnf false_const = ok true_const

-- The methods `nnf`, with fuel for the depth of their calls.
unfoldable pub nnf : ℕ → Formula → Run Formula
unfolding collect_and collect_or finish_and finish_or nnf_not
nnf zero f = out_of_fuel
nnf (suc fuel) true_const = ok true_const
nnf (suc fuel) false_const = ok false_const
nnf (suc fuel) (variable v) = ok (lit v false)
nnf (suc fuel) (lit v signed) = ok (lit v signed)
nnf (suc fuel) (negated f) = nnf_not (nnf fuel) f
nnf (suc fuel) (all_of fs) = collect_and (nnf fuel) fs >>= λ res. ok (finish_and res)
nnf (suc fuel) (any_of fs) = collect_or (nnf fuel) fs >>= λ res. ok (finish_or res)

-- Implies, Eq and Xor.
unfoldable pub implies : Formula → Formula → Formula
implies f1 f2 = any_of (cons (negated f1) (cons f2 nil))

unfoldable pub eq : Formula → Formula → Formula
eq f1 f2 = all_of (
    cons (any_of (cons (negated f1) (cons f2 nil)))
      (cons (any_of (cons f1 (cons (negated f2) nil))) nil))

unfoldable pub xor : Formula → Formula → Formula
xor f1 f2 = all_of (
    cons (any_of (cons (negated f1) (cons (negated f2) nil)))
      (cons (any_of (cons f1 (cons f2 nil))) nil))
