-- ===== src/Solver/ParserCard/Joins.antt =====
-- What the loop over the cardinality constraints keeps.
use gophersat.Prelude.{
  ℕ, ◌≤◌, ◌≡◌, ◌↔◌, refl, ◌∙◌, Bool, true, false, not, List, [], ◌∷◌, ◌++◌, length, arith,
}
use gophersat.Prelude.Run.{Returns, returns, Returns-bind, Returns-if, Returns-map}
use gophersat.Prelude.Slices.{each_of}
use gophersat.Prelude.Int.{ℤ, pos, negsuc, ltb_ℤ, ◌≤ℤ◌, ◌==ℤ◌}
use gophersat.Semantics.{Assignment}
use gophersat.Solver.Types.{unsat, Lit}
use gophersat.Solver.Types.Codec.{lit_true}
use gophersat.Solver.Problem.{Clause, Problem}
use gophersat.Solver.Problem.Literals.{below}
use gophersat.Solver.Problem.Solutions.{lits_below}
use gophersat.Solver.Pb.{CardConstr}
use gophersat.Solver.Pb.Meaning.{count_true}
use gophersat.Solver.Parser.Lines.{
  each_of-append, each_of_mono, below_mono, lits_below_mono, Counted,
}
use gophersat.Solver.SimplifyCard.Keeps.{card_met, asks_one}
use gophersat.Solver.ParserCard.{card_constrs}
use gophersat.Solver.ParserCard.Constraints.{
  MeetsCard, IsFitCard, LitsRead, parse_lits-LitsRead, all_true_met, clause_made,
}

abbrev pub MeetsCards : Assignment → List CardConstr → Type 0
MeetsCards a [] = Unit {0}
MeetsCards a (c ∷ constrs) = MeetsCard a c × MeetsCards a constrs

abbrev pub AreFitCards : List CardConstr → Type 0
AreFitCards [] = Unit {0}
AreFitCards (c ∷ constrs) = IsFitCard c × AreFitCards constrs

-- No constraint asks for more than one literal.
abbrev pub AskOne : List CardConstr → Type 0
AskOne [] = Unit {0}
AskOne (c ∷ constrs) = (c.at_least ≤ℤ pos 1) × AskOne constrs

abbrev pub HoldsCards : Assignment → Problem → Type 0
HoldsCards a pb = (each_of (lit_true a) pb.units ≡ true) × (each_of (card_met a) pb.clauses ≡ true)

-- From the problem before some constraints to the one with them.
pub record Joined (constrs : List CardConstr) (pb pb' : Problem) : Type 0 where
  pub counted : Counted pb'
  pub status : pb'.status ≡ pb.status
  pub same : (a : Assignment) → (HoldsCards a pb × MeetsCards a constrs) ↔ HoldsCards a pb'
  pub ones :
      AskOne constrs → each_of asks_one pb.clauses ≡ true → each_of asks_one pb'.clauses ≡ true

-- What the loop over the constraints leaves.
abbrev pub ReadCards : List CardConstr → Problem → Bool × Problem → Type 0
ReadCards constrs pb (true, pb') =
    (pb'.status ≡ unsat) × ((a : Assignment) → MeetsCards a constrs → ⊥)
ReadCards constrs pb (false, pb') = Joined constrs pb pb'

ReadCards-from :
    (c : CardConstr) (constrs : List CardConstr) (pb mid : Problem) (r : Bool × Problem)
    → Joined (c ∷ []) pb mid
    → ReadCards constrs mid r
    → ReadCards (c ∷ constrs) pb r
ReadCards-from c constrs pb mid (true, out) j (u, f) = (u, λ a m. f a m.1)
ReadCards-from c constrs pb mid (false, out) j d = record {
  counted = d.counted;
  status = d.status ∙ j.status;
  same = λ a.
      let (g, b) = j.same a in
      let (g', b') = d.same a in
      (
        λ (h, m). g' (g (h, (m.0, tt)), m.1),
        λ k. let (h, ms) = b' k in let (h', m) = b h in (h', (m.0, ms)),
      );
  ones = λ o e. d.ones o.1 (j.ones (o.0, tt) e);
}

counted_with :
    (pb : Problem) (n : ℕ) → pb.nb_vars ≤ n → Counted pb → Counted (record pb { nb_vars = n })
counted_with pb n le h = record {
  units_below =
      each_of_mono (below pb.nb_vars) (below n) pb.units (below_mono pb.nb_vars n le) h.units_below;
  clauses_below =
      each_of_mono (lits_below pb.nb_vars) (lits_below n) pb.clauses
        (lits_below_mono pb.nb_vars n le) h.clauses_below;
}

ignored-Joined :
    (c : CardConstr) (pb : Problem)
    → not (ltb_ℤ (pos 0) c.at_least) ≡ true
    → Counted pb
    → Joined (c ∷ []) pb pb
ignored-Joined c pb p h = record {
  counted = h;
  status = refl;
  same = λ a. (λ x. x.0, λ x. (x, (at_most_zero c.at_least (count_true a c.lits) p, tt)));
  ones = λ o e. e;
}
  where
    at_most_zero : (x : ℤ) (n : ℕ) → not (ltb_ℤ (pos 0) x) ≡ true → x ≤ℤ pos n
    at_most_zero (pos x) n p = ground arith
    at_most_zero (negsuc x) n p = omega arith

module _ (c : CardConstr) (pb : Problem) (h : Counted pb) (lits : List Lit) (n : ℕ)
    (r : LitsRead c.lits pb.nb_vars (lits, n)) where
  all_true-Joined :
      (pos (length c.lits) ==ℤ c.at_least) ≡ true
      → Joined (c ∷ []) pb (record pb { nb_vars = n; units = pb.units ++ lits })
  all_true-Joined e =
      let old = counted_with pb n r.more h in
      record {
        counted = record {
          units_below =
              ground (arith, each_of-append (below n) pb.units lits, old.units_below, r.ranged);
          clauses_below = old.clauses_below;
        };
        status = refl;
        same = λ a.
            let (f, b) = all_true_met c pb.nb_vars lits n r e a in
            let split = each_of-append (lit_true a) pb.units lits in
            (
              λ ((u, k), m). (let t = f m.0 in ground arith, k),
              λ (u, k). ((ground arith, k), (b (ground arith), tt)),
            );
        ones = λ o k. k;
      }

  appended-Joined :
      (d : Clause)
      → d.lits ≡ lits
      → ((a : Assignment) → MeetsCard a c ↔ (card_met a d ≡ true))
      → (c.at_least ≤ℤ pos 1 → asks_one d ≡ true)
      → Joined (c ∷ []) pb (record pb { nb_vars = n; clauses = pb.clauses ++ d ∷ [] })
  appended-Joined d e means one =
      let old = counted_with pb n r.more h in
      let inside : lits_below n d ≡ true = rw e r.ranged in
      record {
        counted = record {
          units_below = old.units_below;
          clauses_below =
              ground (
                arith,
                each_of-append (lits_below n) pb.clauses (d ∷ []),
                old.clauses_below,
                inside,
              );
        };
        status = refl;
        same = λ a.
            let (f, b) = means a in
            let split = each_of-append (card_met a) pb.clauses (d ∷ []) in
            (
              λ ((u, k), m). (u, let t = f m.0 in ground arith),
              λ (u, k). ((u, ground arith), (b (ground arith), tt)),
            );
        ones =
            λ o k. let t = one o.0 in ground (arith, each_of-append asks_one pb.clauses (d ∷ []));
      }

count_true_bound : (a : Assignment) (ls : List ℤ) → count_true a ls ≤ length ls
unfolding count_true
count_true_bound a [] = omega arith
count_true_bound a (l ∷ ls) = ground (arith, count_true_bound a ls)

-- The constraint asks for more literals than it has.
too_much :
    (c : CardConstr)
    → ltb_ℤ (pos (length c.lits)) c.at_least ≡ true
    → (a : Assignment) → MeetsCard a c
    → ⊥
too_much c p a m =
    above c.at_least (length c.lits) (count_true a c.lits) p (count_true_bound a c.lits) m
  where
    above : (x : ℤ) (len count : ℕ) → ltb_ℤ (pos len) x ≡ true → count ≤ len → x ≤ℤ pos count → ⊥
    above (pos x) len count p le m = absurd (ground arith)
    above (negsuc x) len count p le m = cc

pub card_constrs-Returns :
    (constrs : List CardConstr) (pb : Problem)
    → AreFitCards constrs
    → Counted pb
    → Returns (ReadCards constrs pb) (card_constrs constrs pb)
unfolding card_constrs
card_constrs-Returns [] pb h k =
    returns
      (record { counted = k; status = refl; same = λ a. (λ x. x.0, λ x. (x, tt)); ones = λ o e. e })
card_constrs-Returns (c ∷ constrs) pb h k =
    Returns-if (not (ltb_ℤ (pos 0) c.at_least))
      (λ trivial.
        Returns-map (card_constrs-Returns constrs pb h.1 k)
          (λ r. ReadCards-from c constrs pb pb r (ignored-Joined c pb trivial k)))
      (λ positive.
        Returns-if (ltb_ℤ (pos (length c.lits)) c.at_least)
          (λ low. returns (refl, λ a m. too_much c low a m.0))
          (λ enough.
            Returns-if (pos (length c.lits) ==ℤ c.at_least)
              (λ exact.
                Returns-bind (parse_lits-LitsRead c.lits pb.nb_vars h.0.literals) (λ (lits, n) r.
                  let j = all_true-Joined c pb k lits n r exact in
                  Returns-map (card_constrs-Returns constrs _ h.1 j.counted)
                    (λ q. ReadCards-from c constrs pb _ q j)))
              (λ more.
                Returns-bind (parse_lits-LitsRead c.lits pb.nb_vars h.0.literals) (λ (lits, n) r.
                  Returns-bind (clause_made c pb.nb_vars lits n r positive enough h.0.few)
                    (λ d (e, means, one).
                      let j = appended-Joined c pb k lits n r d e means one in
                      Returns-map (card_constrs-Returns constrs _ h.1 j.counted)
                        (λ q. ReadCards-from c constrs pb _ q j))))))
