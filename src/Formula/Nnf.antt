-- ===== src/Formula/Nnf.antt =====
-- The negation normal form of a formula with no constant and no empty conjunction or disjunction.
use gophersat.Formula.{
  Formula, Formulas, true_const, false_const, variable, lit, negated, all_of, any_of, nil, cons,
}

abbrev pub Nonempty : Formulas → Type 0
Nonempty nil = ⊥
Nonempty (cons f fs) = Unit {0}

-- No constant, and no empty conjunction or disjunction.
unfoldable mutual
  pub Plain : Formula → Type 0
  Plain true_const = ⊥
  Plain false_const = ⊥
  Plain (variable v) = Unit {0}
  Plain (lit v signed) = Unit {0}
  Plain (negated f) = Plain f
  Plain (all_of fs) = Nonempty fs × ArePlain fs
  Plain (any_of fs) = Nonempty fs × ArePlain fs

  pub ArePlain : Formulas → Type 0
  ArePlain nil = Unit {0}
  ArePlain (cons f fs) = Plain f × ArePlain fs

abbrev pub TwoOrMore : Formulas → Type 0
TwoOrMore nil = ⊥
TwoOrMore (cons f nil) = ⊥
TwoOrMore (cons f (cons g fs)) = Unit {0}

-- Negation normal form: literals, conjunctions of literals and disjunctions, and disjunctions of
-- literals and conjunctions, of two members or more.
unfoldable mutual
  pub IsNnf : Formula → Type 0
  IsNnf true_const = ⊥
  IsNnf false_const = ⊥
  IsNnf (variable v) = ⊥
  IsNnf (lit v signed) = Unit {0}
  IsNnf (negated f) = ⊥
  IsNnf (all_of fs) = TwoOrMore fs × AndMembers fs
  IsNnf (any_of fs) = TwoOrMore fs × OrMembers fs

  pub AndMembers : Formulas → Type 0
  AndMembers nil = Unit {0}
  AndMembers (cons true_const fs) = ⊥
  AndMembers (cons false_const fs) = ⊥
  AndMembers (cons (variable v) fs) = ⊥
  AndMembers (cons (lit v signed) fs) = AndMembers fs
  AndMembers (cons (negated f) fs) = ⊥
  AndMembers (cons (all_of gs) fs) = ⊥
  AndMembers (cons (any_of gs) fs) = TwoOrMore gs × OrMembers gs × AndMembers fs

  pub OrMembers : Formulas → Type 0
  OrMembers nil = Unit {0}
  OrMembers (cons true_const fs) = ⊥
  OrMembers (cons false_const fs) = ⊥
  OrMembers (cons (variable v) fs) = ⊥
  OrMembers (cons (lit v signed) fs) = OrMembers fs
  OrMembers (cons (negated f) fs) = ⊥
  OrMembers (cons (any_of gs) fs) = ⊥
  OrMembers (cons (all_of gs) fs) = TwoOrMore gs × AndMembers gs × OrMembers fs
