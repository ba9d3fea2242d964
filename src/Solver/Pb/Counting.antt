-- ===== src/Solver/Pb/Counting.antt =====
-- Exact sums, and constraints that count literals.
use gophersat.Prelude.{
  zero, suc, ◌+◌, ◌≡◌, ◌↔◌, refl, false, some, List, [], ◌∷◌, ◌++◌, map, length, replicate, arith,
  if◌then◌else◌, Bool-cases, inl, inr,
}
use gophersat.Prelude.Run.{Returns, returns, Returns-bind}
use gophersat.Prelude.Int.{ℤ, pos, negsuc, neg, ◌≤ℤ◌, ltb_ℤ, parts_of_eq, int_laws}
use gophersat.Semantics.{Assignment, holds}
use gophersat.Solver.Pb.{PbConstr, CardConstr, at_least, at_most, eq, matters, exactly1}
use gophersat.Solver.Pb.Meaning.{
  value, count_true, weights_of, Meets, Nonzero, gt_eq_correct, lt_eq_correct, value-nonneg,
  holds-neg,
}

-- The assignment satisfies each constraint.
abbrev pub MeetsAll : Assignment → List PbConstr → Type 0
MeetsAll a [] = Unit {0}
MeetsAll a (c ∷ cs) = Meets a c × MeetsAll a cs

-- What Eq keeps says the same as both constraints: one that it drops is always met.
MeetsAll-kept :
    (a : Assignment) (ge le : PbConstr)
    → (matters ge ≡ false → Meets a ge)
    → (matters le ≡ false → Meets a le)
    → MeetsAll a ((if matters ge then ge ∷ [] else []) ++ (if matters le then le ∷ [] else []))
      ↔ (Meets a ge × Meets a le)
MeetsAll-kept a ge le g l = elim (Bool-cases (matters ge)) [
  | inl keep_ge ↦ elim (Bool-cases (matters le)) [
    | inl keep_le ↦ rw (keep_ge, keep_le) (λ h. (h.0, h.1.0), λ h. (h.0, (h.1, tt)))
    | inr drop_le ↦ rw (keep_ge, drop_le) (λ h. (h.0, l drop_le), λ h. (h.0, tt))
  ]
  | inr drop_ge ↦ elim (Bool-cases (matters le)) [
    | inl keep_le ↦ rw (drop_ge, keep_le) (λ h. (g drop_ge, h.0), λ h. (h.1, tt))
    | inr drop_le ↦ rw (drop_ge, drop_le) (λ h. (g drop_ge, l drop_le), λ h. tt)
  ]
]

nonpositive : (d : ℤ) → ltb_ℤ (pos 0) d ≡ false → d ≤ℤ pos 0
nonpositive (pos zero) e = omega arith
nonpositive (pos (suc k)) e = absurd (ground arith)
nonpositive (negsuc k) e = omega arith

unneeded :
    (a : Assignment) (c : PbConstr)
    → pos 0 ≤ℤ value a c.lits (weights_of (length c.lits) c.weights)
    → matters c ≡ false
    → Meets a c
unfolding matters
unneeded a c h e = omega (arith, nonpositive c.at_least e)

-- For literals other than 0, as many as there are weights: an assignment meets all the constraints
-- that Eq returns exactly if the weights of the literals that it makes true sum to n.
pub eq_correct :
    (lits weights : List ℤ) (n : ℤ)
    → Nonzero lits
    → length lits ≡ length weights
    → Returns
        (λ cs. (a : Assignment) → MeetsAll a cs ↔ (value a lits weights ≡ n))
        (eq lits (some weights) n)
unfolding eq
eq_correct lits weights n z e = Returns-bind (gt_eq_correct lits weights n z e) λ ge above.
    Returns-bind (lt_eq_correct lits weights n z e) λ le below. returns (λ a.
      let both =
        MeetsAll-kept a ge le (unneeded a ge (value-nonneg a ge.lits _ above.positive))
          (unneeded a le (value-nonneg a le.lits _ below.positive)) in
      (
        λ m.
            let (g, l) = both.0 m in
            let lower = (above.meaning a).0 g in
            let upper = (below.meaning a).0 l in omega (int_laws, lower, upper),
        λ same.
            let parts = parts_of_eq same in
            both.1 (
              (above.meaning a).1 (omega (arith, parts)),
              (below.meaning a).1 (omega (arith, parts)),
            ),
      ))

value-ones :
    (a : Assignment) (lits : List ℤ)
    → value a lits (replicate (length lits) (pos 1)) ≡ pos (count_true a lits)
unfolding value count_true
value-ones a [] = refl
value-ones a (lit ∷ lits) = elim (Bool-cases (holds a lit)) [
  | inl yes' ↦ rw yes' (omega (int_laws, parts_of_eq (value-ones a lits)))
  | inr no' ↦ rw no' (omega (int_laws, parts_of_eq (value-ones a lits)))
]

count_true-neg :
    (a : Assignment) (lits : List ℤ)
    → Nonzero lits
    → count_true a (map neg lits) + count_true a lits ≡ length lits
unfolding count_true
count_true-neg a [] z = omega arith
count_true-neg a (lit ∷ lits) z = ground (arith, holds-neg a lit z.0, count_true-neg a lits z.1)

-- An assignment meets AtLeast exactly if it makes n literals true or more.
pub at_least_correct :
    (a : Assignment) (lits : List ℤ) (n : ℤ)
    → Meets a (at_least lits n) ↔ (n ≤ℤ pos (count_true a lits))
unfolding at_least
at_least_correct a lits n = rw (value-ones a lits) (λ h. h, λ h. h)

-- For literals other than 0: an assignment meets AtMost exactly if it makes n literals true or fewer.
pub at_most_correct :
    (a : Assignment) (lits : List ℤ) (n : ℤ)
    → Nonzero lits
    → Meets a (at_most lits n) ↔ (pos (count_true a lits) ≤ℤ n)
unfolding at_most
at_most_correct a lits n z =
    let rest = count_true-neg a lits z in
    rw (value-ones a (map neg lits)) (λ h. omega (int_laws, rest), λ h. omega (int_laws, rest))

-- An assignment satisfies the cardinality constraint.
abbrev pub MeetsCard : Assignment → CardConstr → Type 0
MeetsCard a c = c.at_least ≤ℤ pos (count_true a c.lits)

abbrev pub MeetsCards : Assignment → List CardConstr → Type 0
MeetsCards a [] = Unit {0}
MeetsCards a (c ∷ cs) = MeetsCard a c × MeetsCards a cs

-- For literals other than 0: an assignment meets both constraints of Exactly1 exactly if it makes
-- just one of the literals true.
pub exactly1_correct :
    (a : Assignment) (lits : List ℤ)
    → Nonzero lits
    → MeetsCards a (exactly1 lits) ↔ (count_true a lits ≡ 1)
unfolding exactly1
exactly1_correct a lits z =
    let rest = count_true-neg a lits z in
    (λ h. omega (int_laws, rest, h.0, h.1.0), λ one. (omega arith, (omega (int_laws, rest), tt)))
