-- ===== src/Formula/Models.antt =====
-- bf/bf.go: a model of the clauses of a formula gives a model of the formula.
use gophersat.Prelude.{ℕ, ◌<◌, ◌≤◌, ◌≡◌, refl, sym, ◌∙◌, true, false, none, some, List, []}
use gophersat.Prelude.Run.{Returns, returns, Returns-bind, Returns-map}
use gophersat.Prelude.Int.{ℤ, pos}
use gophersat.Semantics.{Assignment, holds}
use gophersat.Formula.{Formula, Formulas, lit, all_of, any_of, nil, cons}
use gophersat.Formula.Meaning.{Valuation, meaning, all_true, any_true}
use gophersat.Formula.Nnf.{Plain, IsNnf, AndMembers, OrMembers}
use gophersat.Formula.Depth.{depth}
use gophersat.Formula.Normal.{nnf_correct}
use gophersat.Formula.Cnf.{Vars, lookup, dummy, cnf_rec, cnf_all, cnf_any, cnf_guarded, as_cnf}
use gophersat.Formula.Indices.{clauses_true, Agree, Positive, Step-refl}
use gophersat.Formula.Conversion.{
  Converted, Disjoined, Guarded, dummy-positive, lit-Filled, any_of-Filled, all-step, guard_step,
  any-literal, any-conjunction,
}

mutual
  unfolding cnf_all cnf_any cnf_guarded all_true any_true meaning IsNnf AndMembers OrMembers

  cnf_all-Returns :
      (fs : Formulas) (vars : Vars)
      → AndMembers fs
      → Returns (Converted (λ a. all_true a fs) vars) (cnf_all fs vars)
  cnf_all-Returns nil vars h = returns (record { step = Step-refl vars; sound = λ a b g c. refl })
  cnf_all-Returns (cons (lit v s) fs) vars h =
      all-step (lit v s) fs vars (lit-Filled v s vars) (λ p. cnf_all-Returns fs p h)
  cnf_all-Returns (cons (any_of gs) fs) vars h =
      all-step (any_of gs) fs vars (any_of-Filled gs vars (cnf_any-Returns gs vars h.1))
        (λ p. cnf_all-Returns fs p h.2)
  cnf_all-Returns (cons _ fs) vars h = absurd h

  cnf_any-Returns :
      (fs : Formulas) (vars : Vars) → OrMembers fs → Returns (Disjoined fs vars) (cnf_any fs vars)
  cnf_any-Returns nil vars h = returns (record { step = Step-refl vars; sound = λ a b g c l. cc })
  cnf_any-Returns (cons (lit v s) fs) vars h = any-literal v s fs vars (λ p. cnf_any-Returns fs p h)
  cnf_any-Returns (cons (all_of gs) fs) vars h =
      any-conjunction gs fs vars
        (λ p. cnf_guarded-Returns (dummy vars).0 gs p (dummy-positive vars) h.1)
        (λ p. cnf_any-Returns fs p h.2)
  cnf_any-Returns (cons _ fs) vars h = absurd h

  cnf_guarded-Returns :
      (d : ℕ) (gs : Formulas) (vars : Vars)
      → 0 < d
      → AndMembers gs
      → Returns (Guarded d gs vars) (cnf_guarded d gs vars)
  cnf_guarded-Returns d nil vars l h =
      returns (record { step = Step-refl vars; sound = λ a b g t c. refl })
  cnf_guarded-Returns d (cons (lit v s) fs) vars l h =
      guard_step d (lit v s) fs vars l (lit-Filled v s vars) (λ p. cnf_guarded-Returns d fs p l h)
  cnf_guarded-Returns d (cons (any_of gs) fs) vars l h =
      guard_step d (any_of gs) fs vars l (any_of-Filled gs vars (cnf_any-Returns gs vars h.1))
        (λ p. cnf_guarded-Returns d fs p l h.2)
  cnf_guarded-Returns d (cons _ fs) vars l h = absurd h

cnf_rec-Returns :
    (f : Formula) (vars : Vars)
    → IsNnf f
    → Returns (Converted (λ a. meaning a f) vars) (cnf_rec f vars)
unfolding cnf_rec IsNnf meaning
cnf_rec-Returns (lit v s) vars h = Returns-map (lit-Filled v s vars) (λ r c. c.0)
cnf_rec-Returns (any_of fs) vars h =
    Returns-map (any_of-Filled fs vars (cnf_any-Returns fs vars h.1)) (λ r c. c.0)
cnf_rec-Returns (all_of fs) vars h = cnf_all-Returns fs vars h.1
cnf_rec-Returns _ vars h = absurd h

-- The value of a variable in a model of the clauses: false if it has no index.
unfoldable pub read_model : Assignment → Vars → Valuation
unfolding lookup
read_model b vars v = elim (lookup v vars.all) [ none ↦ false | some k ↦ holds b (pos k) ]

-- A model of the clauses gives a model of the formula.
abbrev pub GivesModels : Formula → List (List ℤ) × Vars → Type 0
GivesModels f r = (b : Assignment) → clauses_true b r.0 ≡ true → meaning (read_model b r.1) f ≡ true

read_model-Agree : (b : Assignment) (vars : Vars) → Positive vars → Agree (read_model b vars) b vars
unfolding read_model
read_model-Agree b vars h v k e = (h v k e, rw (read_model, e) refl)

empty-Positive : Positive (record { all = []; pb = [] })
unfolding lookup
empty-Positive v k e = cc

-- The conversion of a formula without constants and empty operands returns, with no panic, if its
-- fuel is the depth of the formula or more. Every assignment that makes the clauses true gives a
-- model of the formula: each variable has the value of its index.
pub as_cnf_sound :
    (fuel : ℕ) (f : Formula) → Plain f → depth f ≤ fuel → Returns (GivesModels f) (as_cnf fuel f)
unfolding as_cnf
as_cnf_sound fuel f h d = Returns-bind (nnf_correct fuel f h d) (λ g n.
    Returns-map (cnf_rec-Returns g (record { all = []; pb = [] }) n.normal) (λ (cs, vars) c b t.
      sym (n.same (read_model b vars))
      ∙ c.sound (read_model b vars) b (read_model-Agree b vars (c.step.positive empty-Positive)) t))
