-- ===== src/Formula/Depth.antt =====
-- Depths of formulas, which bound the depth of the calls of nnf.
use Prim.Native.Nat.{max}
use gophersat.Prelude.{ℕ, suc, ◌≤◌, ◌≡◌, arith}
use gophersat.Formula.{
  Formula, Formulas, true_const, false_const, variable, lit, negated, all_of, any_of, nil, cons,
  append,
}
use gophersat.Formula.Nnf.{Plain, ArePlain, Nonempty, TwoOrMore, IsNnf, AndMembers, OrMembers}

unfoldable mutual
  pub depth : Formula → ℕ
  depth true_const = 1
  depth false_const = 1
  depth (variable v) = 1
  depth (lit v signed) = 1
  depth (negated f) = suc (depth f)
  depth (all_of fs) = suc (depths fs)
  depth (any_of fs) = suc (depths fs)

  pub depths : Formulas → ℕ
  depths nil = 0
  depths (cons f fs) = max (depth f) (depths fs)

-- The depth that counts no negation.
unfoldable mutual
  pub height : Formula → ℕ
  height true_const = 1
  height false_const = 1
  height (variable v) = 1
  height (lit v signed) = 1
  height (negated f) = height f
  height (all_of fs) = suc (heights fs)
  height (any_of fs) = suc (heights fs)

  pub heights : Formulas → ℕ
  heights nil = 0
  heights (cons f fs) = max (height f) (heights fs)

mutual
  unfolding depth depths height heights

  pub height-le-depth : (f : Formula) → height f ≤ depth f
  height-le-depth true_const = omega arith
  height-le-depth false_const = omega arith
  height-le-depth (variable v) = omega arith
  height-le-depth (lit v signed) = omega arith
  height-le-depth (negated f) = omega (arith, height-le-depth f)
  height-le-depth (all_of fs) = omega (arith, heights-le-depths fs)
  height-le-depth (any_of fs) = omega (arith, heights-le-depths fs)

  pub heights-le-depths : (fs : Formulas) → heights fs ≤ depths fs
  heights-le-depths nil = omega arith
  heights-le-depths (cons f fs) = omega (arith, height-le-depth f, heights-le-depths fs)

pub depths-append : (fs gs : Formulas) → depths (append fs gs) ≡ max (depths fs) (depths gs)
unfolding depths append
depths-append nil gs = omega arith
depths-append (cons f fs) gs = omega (arith, depths-append fs gs)

TwoOrMore-Nonempty : (fs : Formulas) → TwoOrMore fs → Nonempty fs
TwoOrMore-Nonempty nil h = h
TwoOrMore-Nonempty (cons f fs) h = tt

-- A normal form is plain.
mutual
  unfolding IsNnf AndMembers OrMembers Plain ArePlain

  pub AndMembers-ArePlain : (fs : Formulas) → AndMembers fs → ArePlain fs
  AndMembers-ArePlain nil h = tt
  AndMembers-ArePlain (cons (lit v signed) fs) h = (tt, AndMembers-ArePlain fs h)
  AndMembers-ArePlain (cons (any_of gs) fs) h =
      ((TwoOrMore-Nonempty gs h.0, OrMembers-ArePlain gs h.1), AndMembers-ArePlain fs h.2)
  AndMembers-ArePlain (cons _ fs) h = absurd h

  pub OrMembers-ArePlain : (fs : Formulas) → OrMembers fs → ArePlain fs
  OrMembers-ArePlain nil h = tt
  OrMembers-ArePlain (cons (lit v signed) fs) h = (tt, OrMembers-ArePlain fs h)
  OrMembers-ArePlain (cons (all_of gs) fs) h =
      ((TwoOrMore-Nonempty gs h.0, AndMembers-ArePlain gs h.1), OrMembers-ArePlain fs h.2)
  OrMembers-ArePlain (cons _ fs) h = absurd h

pub IsNnf-Plain : (f : Formula) → IsNnf f → Plain f
unfolding IsNnf Plain
IsNnf-Plain (lit v signed) h = tt
IsNnf-Plain (all_of fs) h = (TwoOrMore-Nonempty fs h.0, AndMembers-ArePlain fs h.1)
IsNnf-Plain (any_of fs) h = (TwoOrMore-Nonempty fs h.0, OrMembers-ArePlain fs h.1)
IsNnf-Plain _ h = absurd h

pub AndMembers-append :
    (fs gs : Formulas) → AndMembers fs → AndMembers gs → AndMembers (append fs gs)
unfolding AndMembers append
AndMembers-append nil gs h k = k
AndMembers-append (cons (lit v signed) fs) gs h k = AndMembers-append fs gs h k
AndMembers-append (cons (any_of es) fs) gs h k = (h.0, h.1, AndMembers-append fs gs h.2 k)
AndMembers-append (cons _ fs) gs h k = absurd h

pub OrMembers-append : (fs gs : Formulas) → OrMembers fs → OrMembers gs → OrMembers (append fs gs)
unfolding OrMembers append
OrMembers-append nil gs h k = k
OrMembers-append (cons (lit v signed) fs) gs h k = OrMembers-append fs gs h k
OrMembers-append (cons (all_of es) fs) gs h k = (h.0, h.1, OrMembers-append fs gs h.2 k)
OrMembers-append (cons _ fs) gs h k = absurd h
