-- ===== src/Formula/Collect.antt =====
-- The loops of and.nnf and or.nnf on the normal forms of the subformulas.
use gophersat.Prelude.{
  ◌≤◌, ◌≡◌, refl, sym, ◌∙◌, Bool, true, false, ◌&&◌, ◌||◌, Option, none, some, arith,
}
use gophersat.Prelude.Run.{Run, ok, ◌>>=◌, Returns, returns, Returns-bind, Returns-value}
use gophersat.Formula.{
  Formula, Formulas, true_const, false_const, variable, lit, negated, all_of, any_of, nil, cons,
  append, add_and, add_or, collect_and, collect_or, finish_and, finish_or,
}
use gophersat.Formula.Meaning.{
  Valuation, meaning, all_true, any_true, all_true-append, any_true-append,
}
use gophersat.Formula.Nnf.{Nonempty, TwoOrMore, IsNnf, AndMembers, OrMembers}
use gophersat.Formula.Depth.{
  depth, depths, height, heights, depths-append, AndMembers-append, OrMembers-append,
}

-- g is a normal form of f, and no deeper.
pub record Normal (f g : Formula) : Type 0 where
  pub normal : IsNnf g
  pub low : depth g ≤ height f
  pub same : (a : Valuation) → meaning a g ≡ meaning a f

-- The call gives normal forms of the formulas.
abbrev pub Calls : (Formula → Run Formula) → Formulas → Type 0
Calls call nil = Unit {0}
Calls call (cons s subs) = Returns (Normal s) (call s) × Calls call subs

-- What the loop of and.nnf has collected from the subformulas.
record Conjuncts (subs gs : Formulas) : Type 0 where
  members : AndMembers gs
  low : depths gs ≤ heights subs
  same : (a : Valuation) → all_true a gs ≡ all_true a subs
  filled : Nonempty subs → Nonempty gs

abbrev Conjoined : Formulas → Option Formulas → Type 0
Conjoined subs none = ⊥
Conjoined subs (some gs) = Conjuncts subs gs

Nonempty-append : (fs gs : Formulas) → TwoOrMore fs → Nonempty (append fs gs)
unfolding append
Nonempty-append nil gs h = absurd h
Nonempty-append (cons f fs) gs h = tt

add_and-Returns :
    (s f : Formula) (subs gs : Formulas)
    → Normal s f
    → Conjuncts subs gs
    → Returns (Conjoined (cons s subs)) (add_and f (ok (some gs)))
unfolding add_and IsNnf AndMembers all_true meaning heights depths depth
add_and-Returns s (lit v signed) subs gs n c = returns (record {
  members = c.members;
  low = omega (arith, n.low, c.low);
  same = λ a. ground (arith, n.same a, c.same a);
  filled = λ _. tt;
})
add_and-Returns s (any_of es) subs gs n c = returns (record {
  members = (n.normal.0, n.normal.1, c.members);
  low = omega (arith, n.low, c.low);
  same = λ a. ground (arith, n.same a, c.same a);
  filled = λ _. tt;
})
add_and-Returns s (all_of es) subs gs n c = returns (record {
  members = AndMembers-append es gs n.normal.1 c.members;
  low = omega (arith, n.low, c.low, depths-append es gs);
  same = λ a. ground (arith, n.same a, c.same a, all_true-append a es gs);
  filled = λ _. Nonempty-append es gs n.normal.0;
})
add_and-Returns s true_const subs gs n c = absurd n.normal
add_and-Returns s false_const subs gs n c = absurd n.normal
add_and-Returns s (variable v) subs gs n c = absurd n.normal
add_and-Returns s (negated f) subs gs n c = absurd n.normal

collect_and-Returns :
    (call : Formula → Run Formula) (subs : Formulas)
    → Calls call subs
    → Returns (Conjoined subs) (collect_and call subs)
unfolding collect_and AndMembers depths heights all_true
collect_and-Returns call nil h =
    returns (record { members = tt; low = omega arith; same = λ a. refl; filled = λ e. e })
collect_and-Returns call (cons s subs) h =
    let (o, e, c) = Returns-value (collect_and-Returns call subs h.1) in
    Returns-bind h.0 λ f n. rw e (next f n o c)
  where
    next :
        (f : Formula)
        → Normal s f
        → (o : Option Formulas) → Conjoined subs o
        → Returns (Conjoined (cons s subs)) (add_and f (ok o))
    next f n none c = absurd c
    next f n (some gs) c = add_and-Returns s f subs gs n c

and_unit : (b : Bool) → (b && true) ≡ b
and_unit true = refl
and_unit false = refl

finish_and-Normal :
    (subs : Formulas) (o : Option Formulas)
    → Nonempty subs
    → Conjoined subs o
    → Normal (all_of subs) (finish_and o)
unfolding finish_and IsNnf AndMembers all_true meaning height depth depths
finish_and-Normal subs none h c = absurd c
finish_and-Normal subs (some nil) h c = absurd (c.filled h)
finish_and-Normal subs (some (cons f nil)) h c = record {
  normal = single f c.members;
  low = omega (arith, c.low);
  same = λ a. sym (and_unit (meaning a f)) ∙ c.same a;
}
  where
    single : (f : Formula) → AndMembers (cons f nil) → IsNnf f
    single (lit v signed) m = tt
    single (any_of gs) m = (m.0, m.1)
    single _ m = absurd m
finish_and-Normal subs (some (cons f (cons g fs))) h c = record {
  normal = (tt, c.members);
  low = omega (arith, c.low);
  same = λ a. c.same a;
}

-- and.nnf, where the calls give normal forms.
pub and-Returns :
    (call : Formula → Run Formula) (subs : Formulas)
    → Nonempty subs
    → Calls call subs
    → Returns (Normal (all_of subs)) (collect_and call subs >>= λ res. ok (finish_and res))
and-Returns call subs h calls =
    Returns-bind (collect_and-Returns call subs calls) λ o c. returns (finish_and-Normal subs o h c)

-- What the loop of or.nnf has collected from the subformulas.
record Disjuncts (subs gs : Formulas) : Type 0 where
  members : OrMembers gs
  low : depths gs ≤ heights subs
  same : (a : Valuation) → any_true a gs ≡ any_true a subs
  filled : Nonempty subs → Nonempty gs

abbrev Disjoined : Formulas → Option Formulas → Type 0
Disjoined subs none = ⊥
Disjoined subs (some gs) = Disjuncts subs gs

add_or-Returns :
    (s f : Formula) (subs gs : Formulas)
    → Normal s f
    → Disjuncts subs gs
    → Returns (Disjoined (cons s subs)) (add_or f (ok (some gs)))
unfolding add_or IsNnf OrMembers any_true meaning heights depths depth
add_or-Returns s (lit v signed) subs gs n c = returns (record {
  members = c.members;
  low = omega (arith, n.low, c.low);
  same = λ a. ground (arith, n.same a, c.same a);
  filled = λ _. tt;
})
add_or-Returns s (all_of es) subs gs n c = returns (record {
  members = (n.normal.0, n.normal.1, c.members);
  low = omega (arith, n.low, c.low);
  same = λ a. ground (arith, n.same a, c.same a);
  filled = λ _. tt;
})
add_or-Returns s (any_of es) subs gs n c = returns (record {
  members = OrMembers-append es gs n.normal.1 c.members;
  low = omega (arith, n.low, c.low, depths-append es gs);
  same = λ a. ground (arith, n.same a, c.same a, any_true-append a es gs);
  filled = λ _. Nonempty-append es gs n.normal.0;
})
add_or-Returns s true_const subs gs n c = absurd n.normal
add_or-Returns s false_const subs gs n c = absurd n.normal
add_or-Returns s (variable v) subs gs n c = absurd n.normal
add_or-Returns s (negated f) subs gs n c = absurd n.normal

collect_or-Returns :
    (call : Formula → Run Formula) (subs : Formulas)
    → Calls call subs
    → Returns (Disjoined subs) (collect_or call subs)
unfolding collect_or OrMembers depths heights any_true
collect_or-Returns call nil h =
    returns (record { members = tt; low = omega arith; same = λ a. refl; filled = λ e. e })
collect_or-Returns call (cons s subs) h =
    let (o, e, c) = Returns-value (collect_or-Returns call subs h.1) in
    Returns-bind h.0 λ f n. rw e (next f n o c)
  where
    next :
        (f : Formula)
        → Normal s f
        → (o : Option Formulas) → Disjoined subs o
        → Returns (Disjoined (cons s subs)) (add_or f (ok o))
    next f n none c = absurd c
    next f n (some gs) c = add_or-Returns s f subs gs n c

or_unit : (b : Bool) → (b || false) ≡ b
or_unit true = refl
or_unit false = refl

finish_or-Normal :
    (subs : Formulas) (o : Option Formulas)
    → Nonempty subs
    → Disjoined subs o
    → Normal (any_of subs) (finish_or o)
unfolding finish_or IsNnf OrMembers any_true meaning height depth depths
finish_or-Normal subs none h c = absurd c
finish_or-Normal subs (some nil) h c = absurd (c.filled h)
finish_or-Normal subs (some (cons f nil)) h c = record {
  normal = single f c.members;
  low = omega (arith, c.low);
  same = λ a. sym (or_unit (meaning a f)) ∙ c.same a;
}
  where
    single : (f : Formula) → OrMembers (cons f nil) → IsNnf f
    single (lit v signed) m = tt
    single (all_of gs) m = (m.0, m.1)
    single _ m = absurd m
finish_or-Normal subs (some (cons f (cons g fs))) h c = record {
  normal = (tt, c.members);
  low = omega (arith, c.low);
  same = λ a. c.same a;
}

-- or.nnf, where the calls give normal forms.
pub or-Returns :
    (call : Formula → Run Formula) (subs : Formulas)
    → Nonempty subs
    → Calls call subs
    → Returns (Normal (any_of subs)) (collect_or call subs >>= λ res. ok (finish_or res))
or-Returns call subs h calls =
    Returns-bind (collect_or-Returns call subs calls) λ o c. returns (finish_or-Normal subs o h c)
