-- ===== src/Solver/Pb/Meaning.antt =====
-- What the constraints mean, and that the constructors say what they are called.
use gophersat.Prelude.{
  ℕ, zero, suc, ◌+◌, ◌≡◌, ◌↔◌, refl, ap, ◌∙◌, Bool, true, false, not, Option, none, some, List, [],
  ◌∷◌, ltb-suc-zero, ==-suc-zero, map, length, replicate, arith, ◌==◌, if◌then◌else◌, Bool-cases,
  inl, inr,
}
use gophersat.Prelude.Run.{Returns, returns, Returns-bind, Returns-map, Returns-if}
use gophersat.Prelude.Int.{ℤ, pos, negsuc, neg, ◌+ℤ◌, ◌-ℤ◌, ◌≤ℤ◌, ◌==ℤ◌, parts_of_eq, int_laws}
use gophersat.Semantics.{Assignment, holds}
use gophersat.Solver.Pb.{PbConstr, normalise, gt_eq, lt_eq, weights_sum}

-- The sum of the weights of the true literals.
unfoldable pub value : Assignment → List ℤ → List ℤ → ℤ
value a [] weights = pos 0
value a (lit ∷ lits) [] = pos 0
value a (lit ∷ lits) (w ∷ weights) = (if holds a lit then w else pos 0) +ℤ value a lits weights

-- How many literals are true.
unfoldable pub count_true : Assignment → List ℤ → ℕ
count_true a [] = 0
count_true a (lit ∷ lits) = (if holds a lit then 1 else 0) + count_true a lits

-- The weights that a constraint has, 1 each where they are left out.
abbrev pub weights_of : ℕ → Option (List ℤ) → List ℤ
weights_of n none = replicate n (pos 1)
weights_of n (some weights) = weights

-- The assignment satisfies the constraint.
abbrev pub Meets : Assignment → PbConstr → Type 0
Meets a c = c.at_least ≤ℤ value a c.lits (weights_of (length c.lits) c.weights)

-- No literal is 0.
abbrev pub Nonzero : List ℤ → Type 0
Nonzero [] = Unit {0}
Nonzero (lit ∷ lits) = ((lit ==ℤ pos 0) ≡ false) × Nonzero lits

pub holds-neg :
    (a : Assignment) (lit : ℤ) → (lit ==ℤ pos 0) ≡ false → holds a (neg lit) ≡ not (holds a lit)
holds-neg a (pos zero) h = ground arith
holds-neg a (pos (suc k)) h = refl
holds-neg a (negsuc k) h = ground arith

-- The three cases of a term: it goes, it stays, or it is negated.
dropped :
    (b : Bool) (v n v' n' : ℤ)
    → v +ℤ n ≡ v' +ℤ n'
    → v +ℤ n ≡ (if b then pos 0 else pos 0) +ℤ v' +ℤ n'
dropped true v n v' n' h = omega (int_laws, parts_of_eq h)
dropped false v n v' n' h = omega (int_laws, parts_of_eq h)

kept : (x v n v' n' : ℤ) → v +ℤ n ≡ v' +ℤ n' → x +ℤ v +ℤ n ≡ x +ℤ v' +ℤ n'
kept x v n v' n' h = omega (int_laws, parts_of_eq h)

negated :
    (b : Bool) (k : ℕ) (v n v' n' : ℤ)
    → v +ℤ (n +ℤ pos (suc k)) ≡ v' +ℤ n'
    → (if not b then pos (suc k) else pos 0) +ℤ v +ℤ n ≡ (if b then negsuc k else pos 0) +ℤ v' +ℤ n'
negated true k v n v' n' h = omega (int_laws, parts_of_eq h)
negated false k v n v' n' h = omega (int_laws, parts_of_eq h)

module _ (a : Assignment) where
  -- The loop of GtEq moves value and degree by the same amount.
  value-normalise :
      (lits weights : List ℤ) (n : ℤ)
      → Nonzero lits
      → length lits ≡ length weights
      → (let t = normalise lits weights n in value a t.lits t.weights +ℤ n)
        ≡ value a lits weights +ℤ (normalise lits weights n).n
  unfolding normalise value
  value-normalise [] weights n z e = refl
  value-normalise (lit ∷ lits) [] n z e = absurd (omega arith)
  value-normalise (lit ∷ lits) (pos zero ∷ weights) n z e =
      dropped (holds a lit) _ n _ _ (value-normalise lits weights n z.1 (omega arith))
  value-normalise (lit ∷ lits) (pos (suc k) ∷ weights) n z e =
      rw (ltb-suc-zero k, ==-suc-zero k)
        (kept _ _ n _ _ (value-normalise lits weights n z.1 (omega arith)))
  value-normalise (lit ∷ lits) (negsuc k ∷ weights) n z e =
      rw (==-suc-zero k, holds-neg a lit z.0)
        (negated (holds a lit) k _ n _ _
          (value-normalise lits weights (n +ℤ pos (suc k)) z.1 (omega arith)))

-- The value of the negated literals is the rest of the sum of the weights.
weights_sum-Returns :
    (lits weights : List ℤ)
    → Nonzero lits
    → length lits ≡ length weights
    → Returns
        (λ total. (a : Assignment) → value a (map neg lits) weights +ℤ value a lits weights ≡ total)
        (weights_sum lits weights)
unfolding value weights_sum
weights_sum-Returns [] weights z e = returns (λ a. omega int_laws)
weights_sum-Returns (lit ∷ lits) [] z e = absurd (omega arith)
weights_sum-Returns (lit ∷ lits) (w ∷ weights) z e =
    Returns-bind (weights_sum-Returns lits weights z.1 (omega arith))
      λ rest ih. returns (λ a. rw (holds-neg a lit z.0) (joined (holds a lit) w _ _ rest (ih a)))
  where
    joined :
        (b : Bool) (w v v' rest : ℤ)
        → v +ℤ v' ≡ rest
        → (if not b then w else pos 0) +ℤ v +ℤ ((if b then w else pos 0) +ℤ v') ≡ w +ℤ rest
    joined true w v v' rest h = omega (int_laws, parts_of_eq h)
    joined false w v v' rest h = omega (int_laws, parts_of_eq h)

Nonzero-neg : (lits : List ℤ) → Nonzero lits → Nonzero (map neg lits)
Nonzero-neg [] z = tt
Nonzero-neg (lit ∷ lits) z = (ground arith, Nonzero-neg lits z.1)

pub length-map-neg : (lits : List ℤ) → length (map neg lits) ≡ length lits
length-map-neg [] = refl
length-map-neg (lit ∷ lits) = ap suc (length-map-neg lits)

abbrev pub IsPositive : ℤ → Type 0
IsPositive (pos zero) = ⊥
IsPositive (pos (suc k)) = Unit {0}
IsPositive (negsuc k) = ⊥

abbrev pub ArePositive : List ℤ → Type 0
ArePositive [] = Unit {0}
ArePositive (w ∷ weights) = IsPositive w × ArePositive weights

ArePositive-normalise :
    (lits weights : List ℤ) (n : ℤ)
    → length lits ≡ length weights
    → ArePositive (normalise lits weights n).weights
unfolding normalise
ArePositive-normalise [] [] n e = tt
ArePositive-normalise [] (w ∷ weights) n e = absurd (omega arith)
ArePositive-normalise (lit ∷ lits) [] n e = absurd (omega arith)
ArePositive-normalise (lit ∷ lits) (pos zero ∷ weights) n e =
    ArePositive-normalise lits weights n (omega arith)
ArePositive-normalise (lit ∷ lits) (pos (suc k) ∷ weights) n e =
    rw (ltb-suc-zero k, ==-suc-zero k) (tt, ArePositive-normalise lits weights n (omega arith))
ArePositive-normalise (lit ∷ lits) (negsuc k ∷ weights) n e =
    rw (==-suc-zero k) (tt, ArePositive-normalise lits weights (n +ℤ pos (suc k)) (omega arith))

pub value-nonneg :
    (a : Assignment) (lits weights : List ℤ) → ArePositive weights → pos 0 ≤ℤ value a lits weights
unfolding value
value-nonneg a [] weights h = omega arith
value-nonneg a (lit ∷ lits) [] h = omega arith
value-nonneg a (lit ∷ lits) (pos zero ∷ weights) h = absurd h.0
value-nonneg a (lit ∷ lits) (pos (suc k) ∷ weights) h = elim (Bool-cases (holds a lit)) [
  | inl yes' ↦ rw yes' (omega (int_laws, value-nonneg a lits weights h.1))
  | inr no' ↦ rw no' (omega (int_laws, value-nonneg a lits weights h.1))
]
value-nonneg a (lit ∷ lits) (negsuc k ∷ weights) h = absurd h.0

-- A constraint that says that the literals' weights sum to n or more, with positive weights only.
pub record SaysAtLeast (lits weights : List ℤ) (n : ℤ) (c : PbConstr) : Type 0 where
  pub meaning : (a : Assignment) → Meets a c ↔ (n ≤ℤ value a lits weights)
  pub positive : ArePositive (weights_of (length c.lits) c.weights)

-- For literals other than 0, as many as there are weights: GtEq returns a constraint that an
-- assignment meets exactly if the weights of the literals that it makes true sum to n or more, and
-- whose weights are all positive.
pub gt_eq_correct :
    (lits weights : List ℤ) (n : ℤ)
    → Nonzero lits
    → length lits ≡ length weights
    → Returns (SaysAtLeast lits weights n) (gt_eq lits (some weights) n)
unfolding gt_eq
gt_eq_correct [] [] n z e = returns (record { meaning = λ a. (λ h. h, λ h. h); positive = tt })
gt_eq_correct (lit ∷ lits) [] n z e = absurd (omega arith)
gt_eq_correct lits (w ∷ weights) n z e =
    Returns-if (length lits == length (w ∷ weights))
      (λ _. returns (record {
        meaning = λ a.
            let same = parts_of_eq (value-normalise a lits (w ∷ weights) n z e) in
            (λ h. omega (int_laws, same), λ h. omega (int_laws, same));
        positive = ArePositive-normalise lits (w ∷ weights) n e;
      }))
      (λ bad. absurd (ground arith))

-- A constraint that says that the literals' weights sum to n or less, with positive weights only.
pub record SaysAtMost (lits weights : List ℤ) (n : ℤ) (c : PbConstr) : Type 0 where
  pub meaning : (a : Assignment) → Meets a c ↔ (value a lits weights ≤ℤ n)
  pub positive : ArePositive (weights_of (length c.lits) c.weights)

-- Under the same conditions LtEq returns a constraint that an assignment meets exactly if the
-- weights of the literals that it makes true sum to n or less, and whose weights are all positive.
pub lt_eq_correct :
    (lits weights : List ℤ) (n : ℤ)
    → Nonzero lits
    → length lits ≡ length weights
    → Returns (SaysAtMost lits weights n) (lt_eq lits (some weights) n)
unfolding lt_eq
lt_eq_correct lits weights n z e = Returns-bind (weights_sum-Returns lits weights z e) λ total s.
    Returns-map
      (gt_eq_correct (map neg lits) weights (total -ℤ n) (Nonzero-neg lits z)
        (length-map-neg lits ∙ e))
      λ c says. record {
        meaning = λ a.
            let sum = parts_of_eq (s a) in
            (
              λ m. let le = (says.meaning a).0 m in omega (int_laws, sum, le),
              λ le. (says.meaning a).1 (omega (int_laws, sum)),
            );
        positive = says.positive;
      }
