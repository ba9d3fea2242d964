-- ===== src/Formula/Conversion.antt =====
-- bf/bf.go: what one step of the conversion to clauses keeps of the formula's meaning.
use gophersat.Prelude.{
  ℕ, zero, suc, ◌<◌, ◌≡◌, refl, sym, ◌∙◌, Bool, true, false, ◌&&◌, ◌||◌, List, [], ◌∷◌, ◌++◌,
  length, arith,
}
use gophersat.Prelude.Run.{Returns, returns, Returns-bind}
use gophersat.Prelude.Int.{ℤ, pos, negsuc}
use gophersat.Semantics.{Assignment, holds, clause_true}
use gophersat.Formula.{Variable, Formula, Formulas, lit, all_of, any_of, cons}
use gophersat.Formula.Meaning.{Valuation, meaning, all_true, any_true}
use gophersat.Formula.Cnf.{
  Vars, lit_value, dummy, guard_first, cnf_rec, cnf_all, cnf_any, cnf_guarded,
}
use gophersat.Formula.Indices.{clauses_true, Agree, Step, Step-trans, dummy-Step, lit_value-Valued}

clause_true-append :
    (b : Assignment) (c d : List ℤ) → clause_true b (c ++ d) ≡ (clause_true b c || clause_true b d)
clause_true-append b [] d = refl
clause_true-append b (x ∷ c) d = ground (arith, clause_true-append b c d)

clauses_true-append :
    (b : Assignment) (cs ds : List (List ℤ))
    → clauses_true b (cs ++ ds) ≡ (clauses_true b cs && clauses_true b ds)
clauses_true-append b [] ds = refl
clauses_true-append b (x ∷ cs) ds = ground (arith, clauses_true-append b cs ds)

-- The clauses with the guard are no weaker where the guard's variable is true.
guard_first-Returns :
    (d : ℕ) (cs : List (List ℤ))
    → 0 < d
    → 0 < length cs
    → Returns
        (λ out.
          (b : Assignment)
          → holds b (pos d) ≡ true
          → clauses_true b out ≡ true
          → clauses_true b cs ≡ true)
        (guard_first d cs)
unfolding guard_first
guard_first-Returns d [] h l = absurd (omega arith)
guard_first-Returns zero (c ∷ cs) h l = absurd (omega arith)
guard_first-Returns (suc d) (c ∷ cs) h l =
    returns (λ b t e. ground (arith, clause_true-append b c (negsuc d ∷ []), e, t))

-- What the conversion gives for a formula, or a list of them: a model of the clauses makes `means` true.
pub record Converted (means : Valuation → Bool) (vars : Vars) (r : List (List ℤ) × Vars)
    : Type 0 where
  pub step : Step vars r.1
  pub sound :
      (a : Valuation) (b : Assignment) → Agree a b r.1 → clauses_true b r.0 ≡ true → means a ≡ true

-- The same of the operands of a disjunction, whose literals are given apart.
pub record Disjoined (fs : Formulas) (vars : Vars) (r : List (List ℤ) × List ℤ × Vars)
    : Type 0 where
  pub step : Step vars r.2
  pub sound :
      (a : Valuation) (b : Assignment)
      → Agree a b r.2
      → clauses_true b r.0 ≡ true
      → clause_true b r.1 ≡ true
      → any_true a fs ≡ true

-- The same of the operands of a conjunction behind a guard.
pub record Guarded (d : ℕ) (gs : Formulas) (vars : Vars) (r : List (List ℤ) × Vars) : Type 0 where
  pub step : Step vars r.1
  pub sound :
      (a : Valuation) (b : Assignment)
      → Agree a b r.1
      → holds b (pos d) ≡ true
      → clauses_true b r.0 ≡ true
      → all_true a gs ≡ true

-- With one clause at least.
abbrev Filled : (Valuation → Bool) → Vars → List (List ℤ) × Vars → Type 0
Filled means vars r = Converted means vars r × (0 < length r.0)

pub dummy-positive : (vars : Vars) → 0 < (dummy vars).0
unfolding dummy
dummy-positive vars = omega arith

pub lit-Filled :
    (v : Variable) (s : Bool) (vars : Vars)
    → Returns (Filled (λ a. meaning a (lit v s)) vars) (cnf_rec (lit v s) vars)
unfolding cnf_rec meaning
lit-Filled v s vars =
    let (st, val) = lit_value-Valued v s vars in
    returns (record { step = st; sound = λ a b g c. ground (arith, val a b g, c) }, omega arith)

length-snoc : (cs : List (List ℤ)) (c : List ℤ) → 0 < length (cs ++ c ∷ [])
length-snoc [] c = omega arith
length-snoc (x ∷ cs) c = omega arith

pub any_of-Filled :
    (fs : Formulas) (vars : Vars)
    → Returns (Disjoined fs vars) (cnf_any fs vars)
    → Returns (Filled (λ a. any_true a fs) vars) (cnf_rec (any_of fs) vars)
unfolding cnf_rec
any_of-Filled fs vars call = Returns-bind call (λ (res, lits, vars') d. returns (
  record {
    step = d.step;
    sound = λ a b g c.
        let split = clauses_true-append b res (lits ∷ []) in
        d.sound a b g (ground (arith, split, c)) (ground (arith, split, c));
  },
  length-snoc res lits,
))

pub all-step :
    (f : Formula) (fs : Formulas) (vars : Vars)
    → Returns (Filled (λ a. meaning a f) vars) (cnf_rec f vars)
    → ((p : Vars) → Returns (Converted (λ a. all_true a fs) p) (cnf_all fs p))
    → Returns (Converted (λ a. all_true a (cons f fs)) vars) (cnf_all (cons f fs) vars)
unfolding cnf_all all_true
all-step f fs vars first rest = Returns-bind first (λ (cs, p) (c, l).
    Returns-bind (rest p) (λ (ds, q) d. returns (record {
      step = Step-trans vars p q c.step d.step;
      sound = λ a b g e.
          let split = clauses_true-append b cs ds in
          let left = c.sound a b (d.step.grows a b g) (ground (arith, split, e)) in
          let right = d.sound a b g (ground (arith, split, e)) in ground (arith, left, right);
    })))

pub guard_step :
    (d : ℕ) (f : Formula) (fs : Formulas) (vars : Vars)
    → 0 < d
    → Returns (Filled (λ a. meaning a f) vars) (cnf_rec f vars)
    → ((p : Vars) → Returns (Guarded d fs p) (cnf_guarded d fs p))
    → Returns (Guarded d (cons f fs) vars) (cnf_guarded d (cons f fs) vars)
unfolding cnf_guarded all_true
guard_step d f fs vars h first rest = Returns-bind first (λ (cs, p) (c, l).
    Returns-bind (guard_first-Returns d cs h l) (λ out o. Returns-bind (rest p) (λ (ds, q) r.
      returns (record {
        step = Step-trans vars p q c.step r.step;
        sound = λ a b g t e.
            let split = clauses_true-append b out ds in
            let left = c.sound a b (r.step.grows a b g) (o b t (ground (arith, split, e))) in
            let right = r.sound a b g t (ground (arith, split, e)) in ground (arith, left, right);
      }))))

or_mono :
    {x x' y' : Bool} (y : Bool)
    → (x ≡ true → x' ≡ true)
    → (y ≡ true → y' ≡ true)
    → (x || y) ≡ true
    → (x' || y') ≡ true
or_mono {x} {x'} {y'} true f g e = rw (g refl) (ground arith)
or_mono {x} {x'} {y'} false f g e = rw (f (ground arith)) refl

pub any-literal :
    (v : Variable) (s : Bool) (fs : Formulas) (vars : Vars)
    → ((p : Vars) → Returns (Disjoined fs p) (cnf_any fs p))
    → Returns (Disjoined (cons (lit v s) fs) vars) (cnf_any (cons (lit v s) fs) vars)
unfolding cnf_any any_true meaning
any-literal v s fs vars rest =
    let p = (lit_value v s vars).1 in
    let (st, val) = lit_value-Valued v s vars in
    Returns-bind (rest p) (λ (res, lits, q) d. returns (record {
      step = Step-trans vars p q st d.step;
      sound = λ a b g c l.
          let same = val a b (d.step.grows a b g) in
          or_mono (clause_true b lits) (λ t. sym same ∙ t) (d.sound a b g c) l;
    }))

pub any-conjunction :
    (gs fs : Formulas) (vars : Vars)
    → ((p : Vars) → Returns (Guarded (dummy vars).0 gs p) (cnf_guarded (dummy vars).0 gs p))
    → ((p : Vars) → Returns (Disjoined fs p) (cnf_any fs p))
    → Returns (Disjoined (cons (all_of gs) fs) vars) (cnf_any (cons (all_of gs) fs) vars)
unfolding cnf_any any_true meaning
any-conjunction gs fs vars first rest =
    let d = (dummy vars).0 in
    let p = (dummy vars).1 in
    Returns-bind (first p) (λ (cs, q) o. Returns-bind (rest q) (λ (res, lits, r) j.
      returns (record {
        step = Step-trans vars p r (dummy-Step vars) (Step-trans p q r o.step j.step);
        sound = λ a b g c l.
            let split = clauses_true-append b cs res in
            let left : clauses_true b cs ≡ true = ground (arith, split, c) in
            let right : clauses_true b res ≡ true = ground (arith, split, c) in
            or_mono (clause_true b lits) (λ t. o.sound a b (j.step.grows a b g) t left)
              (j.sound a b g right) l;
      })))
