-- ===== src/Solver/ParserPb/Joins.antt =====
-- What the loop over the constraints keeps: the units and clauses mean what the constraints read so far do.
use gophersat.Prelude.{
  ℕ, suc, ◌≤◌, ◌≡◌, ◌↔◌, refl, sym, ap, ◌∙◌, Bool, true, false, not, Option, some, none, List, [],
  ◌∷◌, ◌++◌, map, length, arith, ==→eq,
}
use gophersat.Prelude.Slices.{each_of}
use gophersat.Prelude.Int.{ℤ, pos, negsuc, ltb_ℤ, ◌≤ℤ◌, ◌==ℤ◌, parts_of_eq, int_laws}
use gophersat.Semantics.{Assignment}
use gophersat.Solver.Types.{unsat, Lit}
use gophersat.Solver.Types.Codec.{lit_true}
use gophersat.Solver.Problem.{Clause, PbData, Problem}
use gophersat.Solver.Problem.Literals.{below}
use gophersat.Solver.Clause.{total}
use gophersat.Solver.Clause.Meaning.{sum_true}
use gophersat.Solver.Clause.Simplify.{sum_true_bounds, above_lt}
use gophersat.Solver.Pb.{PbConstr, weight_sum}
use gophersat.Solver.Pb.Meaning.{Meets, weights_of}
use gophersat.Solver.Parser.{lit_of}
use gophersat.Solver.Parser.Lines.{each_of-append, each_of_mono, below_mono}
use gophersat.Solver.SimplifyPb.Meets.{meets}
use gophersat.Solver.SimplifyPb.Fit.{FitOption, IsFitClause, AreFit}
use gophersat.Solver.ParserPb.{count_vars, add_distinct}
use gophersat.Solver.ParserPb.Clauses.{FitClauseOf}
use gophersat.Solver.ParserPb.Constraints.{
  IsFitConstr, value-sum_true, positive-NonNegative, weight_sum-total, all_needed,
  each_of-add_distinct, count_vars_bounds,
}

abbrev pub MeetsAll : Assignment → List PbConstr → Type 0
MeetsAll a [] = Unit {0}
MeetsAll a (c ∷ constrs) = Meets a c × MeetsAll a constrs

abbrev pub AreFitConstrs : List PbConstr → Type 0
AreFitConstrs [] = Unit {0}
AreFitConstrs (c ∷ constrs) = IsFitConstr c × AreFitConstrs constrs

-- The assignment satisfies the units and the clauses.
abbrev pub HoldsIn : Assignment → Problem → Type 0
HoldsIn a pb = (each_of (lit_true a) pb.units ≡ true) × (each_of (meets a) pb.clauses ≡ true)

-- The units and the clauses are over the variables that are counted.
pub record Counted (pb : Problem) : Type 0 where
  pub units_below : each_of (below pb.nb_vars) pb.units ≡ true
  pub fit : AreFit pb.nb_vars pb.clauses

-- What the loop over the constraints leaves.
abbrev pub Read : List PbConstr → Problem → Bool × Problem → Type 0
Read constrs pb (true, pb') = (pb'.status ≡ unsat) × ((a : Assignment) → MeetsAll a constrs → ⊥)
Read constrs pb (false, pb') =
    Counted pb'
    × (pb'.status ≡ pb.status)
    × ((a : Assignment) → (HoldsIn a pb × MeetsAll a constrs) ↔ HoldsIn a pb')

pub Read-from :
    (c : PbConstr) (constrs : List PbConstr) (pb mid : Problem) (r : Bool × Problem)
    → mid.status ≡ pb.status
    → ((a : Assignment) → (HoldsIn a pb × Meets a c) ↔ HoldsIn a mid)
    → Read constrs mid r
    → Read (c ∷ constrs) pb r
Read-from c constrs pb mid (true, out) s e (u, f) = (u, λ a m. f a m.1)
Read-from c constrs pb mid (false, out) s e (d, t, f) = (
  d,
  t ∙ s,
  λ a.
      let (g, b) = e a in
      let (g', b') = f a in
      (
        λ (h, (m, ms)). g' (g (h, m), ms),
        λ k. let (h, ms) = b' k in let (h', m) = b h in (h', (m, ms)),
      ),
)

fit_mono : (n m : ℕ) → n ≤ m → (c : Clause) (o : Option PbData) → FitOption n c o → FitOption m c o
fit_mono n m le c none h = h
fit_mono n m le c (some d) h = record {
  sized = h.sized;
  weights = h.weights;
  bounded = h.bounded;
  word = h.word;
  ranged = each_of_mono (below n) (below m) c.lits (below_mono n m le) h.ranged;
}

AreFit-mono : (n m : ℕ) → n ≤ m → (cs : List Clause) → AreFit n cs → AreFit m cs
AreFit-mono n m le [] h = tt
AreFit-mono n m le (c ∷ cs) h = (fit_mono n m le c c.pb_data h.0, AreFit-mono n m le cs h.1)

AreFit-append :
    (n : ℕ) (cs : List Clause) (c : Clause)
    → AreFit n cs
    → IsFitClause n c
    → AreFit n (cs ++ c ∷ [])
AreFit-append n [] c h k = (k, tt)
AreFit-append n (d ∷ cs) c h k = (h.0, AreFit-append n cs c h.1 k)

pub Counted-more :
    (pb : Problem) (n : ℕ) → pb.nb_vars ≤ n → Counted pb → Counted (record pb { nb_vars = n })
Counted-more pb n le h = record {
  units_below =
      each_of_mono (below pb.nb_vars) (below n) pb.units (below_mono pb.nb_vars n le) h.units_below;
  fit = AreFit-mono pb.nb_vars n le pb.clauses h.fit;
}

pub length-lits : (xs : List ℤ) → length (map lit_of xs) ≡ length xs
length-lits [] = refl
length-lits (x ∷ xs) = ap suc (length-lits xs)

==ℤ→eq : (x y : ℤ) → (x ==ℤ y) ≡ true → x ≡ y
==ℤ→eq (pos n) (pos m) e = ap pos (==→eq n m e)
==ℤ→eq (pos n) (negsuc m) e = cc
==ℤ→eq (negsuc n) (pos m) e = cc
==ℤ→eq (negsuc n) (negsuc m) e = ap negsuc (==→eq n m e)

same_degree : (x y z : ℤ) → x ≡ y → (x ≤ℤ z) ↔ (y ≤ℤ z)
same_degree x y z e = (λ h. omega (int_laws, parts_of_eq e), λ h. omega (int_laws, parts_of_eq e))

module _ (c : PbConstr) (fits : IsFitConstr c) where
  unfoldable pub lits : List Lit
  lits = map lit_of c.lits

  unfoldable pub ws : List ℤ
  ws = weights_of (length c.lits) c.weights

  reached : (a : Assignment) → Meets a c ↔ (c.at_least ≤ℤ sum_true a lits ws)
  unfolding lits ws
  reached a = let e = value-sum_true a c.lits ws fits.literals in rw e (λ m. m, λ m. m)

  -- A degree of 0 or less asks for nothing, one above the sum of the weights for too much, and the sum
  -- itself for all literals.
  pub ignored_meets : (a : Assignment) → not (ltb_ℤ (pos 0) c.at_least) ≡ true → Meets a c
  unfolding ws
  ignored_meets a p = (reached a).1 (
      at_most_zero c.at_least _ p
        (sum_true_bounds a lits ws (positive-NonNegative ws fits.positive)).0)
    where
      at_most_zero : (x y : ℤ) → not (ltb_ℤ (pos 0) x) ≡ true → pos 0 ≤ℤ y → x ≤ℤ y
      at_most_zero (pos n) y p q = ground arith
      at_most_zero (negsuc n) y p q = omega arith

  pub never_meets : (a : Assignment) → ltb_ℤ (weight_sum c) c.at_least ≡ true → Meets a c → ⊥
  unfolding ws
  never_meets a p m =
      let high = (sum_true_bounds a lits ws (positive-NonNegative ws fits.positive)).1 in
      let low = above_lt (weight_sum c) c.at_least p in
      let m' = (reached a).0 m in
      absurd (omega (int_laws, parts_of_eq (weight_sum-total c), high, low, m'))

  all_true_meets :
      (a : Assignment)
      → (weight_sum c ==ℤ c.at_least) ≡ true
      → Meets a c ↔ (each_of (lit_true a) lits ≡ true)
  unfolding lits ws
  all_true_meets a p =
      let e : c.at_least ≡ total ws =
        sym (==ℤ→eq (weight_sum c) c.at_least p) ∙ weight_sum-total c in
      let (f, b) = reached a in
      let (g, h) = all_needed a lits ws fits.positive (length-lits c.lits ∙ fits.sized) in
      let (to, from) = same_degree _ _ (sum_true a lits ws) e in
      (λ m. g (to (f m)), λ t. b (from (h t)))

  pub all_true_joins :
      (pb : Problem)
      → (weight_sum c ==ℤ c.at_least) ≡ true
      → Counted pb
      → (let counted = record pb { nb_vars = count_vars c.lits pb.nb_vars } in
          let mid = record counted { units = add_distinct c.lits counted.units } in
          Counted mid × ((a : Assignment) → (HoldsIn a pb × Meets a c) ↔ HoldsIn a mid))
  unfolding lits
  all_true_joins pb p h =
      let (more, ranged) = count_vars_bounds c.lits pb.nb_vars in
      let n = count_vars c.lits pb.nb_vars in
      let old = Counted-more pb n more h in
      (
        record {
          units_below =
              ground
                (arith, each_of-add_distinct (below n) c.lits pb.units, old.units_below, ranged);
          fit = old.fit;
        },
        λ a.
            let (f, b) = all_true_meets a p in
            let split = each_of-add_distinct (lit_true a) c.lits pb.units in
            (
              λ ((u, k), m). (let t = f m in ground arith, k),
              λ (u, k). ((ground arith, k), b (ground arith)),
            ),
      )

  pub appended_joins :
      (pb : Problem) (d : Clause) (card : ℕ)
      → c.at_least ≡ pos card
      → Counted pb
      → FitClauseOf (count_vars c.lits pb.nb_vars) lits ws card d
      → (let counted = record pb { nb_vars = count_vars c.lits pb.nb_vars } in
          let mid = record counted { clauses = counted.clauses ++ d ∷ [] } in
          Counted mid × ((a : Assignment) → (HoldsIn a pb × Meets a c) ↔ HoldsIn a mid))
  appended_joins pb d card e h k =
      let (more, ranged) = count_vars_bounds c.lits pb.nb_vars in
      let n = count_vars c.lits pb.nb_vars in
      let old = Counted-more pb n more h in
      (
        record { units_below = old.units_below; fit = AreFit-append n pb.clauses d old.fit k.fit },
        λ a.
            let (f, b) = reached a in
            let (g, q) = k.means a in
            let (to, from) = same_degree _ _ (sum_true a lits ws) e in
            let split = each_of-append (meets a) pb.clauses (d ∷ []) in
            (
              λ ((u, t), m). (u, let t' = q (to (f m)) in ground arith),
              λ (u, t). ((u, ground arith), b (from (g (ground arith)))),
            ),
      )
