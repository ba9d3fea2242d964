-- ===== src/Solver/SimplifyCard/Keeps.antt =====
-- What one clause of the round does to the solutions of the problem.
use mathlib.Core.Bool.{false≢true}
use gophersat.Prelude.{
  ℕ, ◌<◌, ◌≤◌, ◌≡◌, ◌↔◌, refl, sym, ◌∙◌, Bool, true, false, Option, none, some, List, length,
  get_elem?, set, ltb, leb, ◌==◌, ==→eq, arith, if◌then◌else◌,
}
use gophersat.Prelude.Slices.{swap_remove, each_of, each_of-swap_remove, each_of-get, each_of-set}
use gophersat.Semantics.{Assignment, Agrees}
use gophersat.Solver.Types.{Lit}
use gophersat.Solver.Types.Codec.{lit_true}
use gophersat.Solver.Problem.{Clause, PbData, Problem, shrink}
use gophersat.Solver.Problem.Solutions.{lits_below, Wf}
use gophersat.Solver.Clause.{cardinality, learned}
use gophersat.Solver.SimplifyCard.Scan.{true_count, true_count_all, Counted}
use gophersat.Solver.SimplifyCard.Binding.{AddedAll}

-- The assignment makes as many literals true as the clause asks for.
abbrev pub card_met : Assignment → Clause → Bool
card_met a c = leb (cardinality c) (true_count a c.lits)

-- The clause asks for one true literal.
abbrev pub asks_one : Clause → Bool
asks_one c = cardinality c == 1

pub record CardSolution (a : Assignment) (pb : Problem) : Type 0 where
  pub agrees : Agrees a pb.model
  pub units_hold : each_of (lit_true a) pb.units ≡ true
  pub clauses_hold : each_of (card_met a) pb.clauses ≡ true

-- From a problem to a later one: no solution is lost, and none is gained if each clause asks for one literal.
pub record Follows (pb pb' : Problem) : Type 0 where
  pub keeps : (a : Assignment) → CardSolution a pb → CardSolution a pb'
  pub ones : each_of asks_one pb.clauses ≡ true → each_of asks_one pb'.clauses ≡ true
  pub back :
      each_of asks_one pb.clauses ≡ true → (a : Assignment) → CardSolution a pb' → CardSolution a pb
  pub wf : Wf pb'
  pub status : pb'.status ≡ pb.status

pub Follows-trans : (p q r : Problem) → Follows p q → Follows q r → Follows p r
Follows-trans p q r f g = record {
  keeps = λ a s. g.keeps a (f.keeps a s);
  ones = λ o. g.ones (f.ones o);
  back = λ o a s. f.back o a (g.back (f.ones o) a s);
  wf = g.wf;
  status = g.status ∙ f.status;
}

module _ (pb : Problem) (i : ℕ) (c : Clause) (at : get_elem? pb.clauses i ≡ some c)
    (wf : Wf pb) where
  pub at_met : (a : Assignment) → CardSolution a pb → cardinality c ≤ true_count a c.lits
  at_met a s = let m = each_of-get (card_met a) pb.clauses i c s.clauses_hold at in ground arith

  rest_below : each_of (lits_below (length pb.model)) (swap_remove pb.clauses i) ≡ true
  rest_below =
      ground
        (arith, wf.ranged, each_of-swap_remove (lits_below (length pb.model)) pb.clauses i c at)

  -- A clause that counts as satisfied goes.
  pub satisfied-Follows :
      ((a : Assignment) → Agrees a pb.model → 0 < true_count a c.lits)
      → Follows pb (record pb { clauses = swap_remove pb.clauses i })
  satisfied-Follows t = record {
    keeps = λ a s. record {
      agrees = s.agrees;
      units_hold = s.units_hold;
      clauses_hold =
          ground (arith, s.clauses_hold, each_of-swap_remove (card_met a) pb.clauses i c at);
    };
    ones = λ o. ground (arith, each_of-swap_remove asks_one pb.clauses i c at);
    back = λ o a s. record {
      agrees = s.agrees;
      units_hold = s.units_hold;
      clauses_hold =
          let one = each_of-get asks_one pb.clauses i c o at in
          let some_true = t a s.agrees in
          let met : card_met a c ≡ true = ground arith in
          ground (arith, s.clauses_hold, each_of-swap_remove (card_met a) pb.clauses i c at);
    };
    wf = record { live = wf.live; bindings = wf.bindings; ranged = rest_below };
    status = refl;
  }

  module _ (left : List Lit) (d : Counted pb.model c.lits left) where
    -- Too few literals are left.
    pub too_few :
        ltb (length left) (cardinality c) ≡ true → (a : Assignment) → CardSolution a pb → ⊥
    too_few low a s =
        let (le, _) = true_count_all a left in
        let m = at_met a s in absurd (ground (arith, d.same a s.agrees))

    -- Just as many literals are left as the clause asks for.
    all_met :
        (length left == cardinality c) ≡ true
        → (a : Assignment) → Agrees a pb.model
        → (cardinality c ≤ true_count a c.lits) ↔ (each_of (lit_true a) left ≡ true)
    all_met e a g =
        let (_, (f, b)) = true_count_all a left in
        let same = d.same a g in
        let eq = ==→eq (length left) (cardinality c) e in
        (λ h. f (omega arith), λ t. let h = b t in omega arith)

    pub not_all :
        (length left == cardinality c) ≡ true
        → ((a : Assignment) → Agrees a pb.model → each_of (lit_true a) left ≡ false)
        → (a : Assignment) → CardSolution a pb
        → ⊥
    not_all e never a s =
        absurd (false≢true (sym (never a s.agrees) ∙ (all_met e a s.agrees).0 (at_met a s)))

    pub bound-Follows :
        (pb' : Problem)
        → (length left == cardinality c) ≡ true
        → AddedAll left pb pb'
        → Follows pb (record pb' { clauses = swap_remove pb'.clauses i })
    bound-Follows pb' e q = record {
      keeps = λ a s.
          let t = (all_met e a s.agrees).0 (at_met a s) in
          let g = q.back a s.agrees t in
          record {
            agrees = g;
            units_hold = q.units_same a g ∙ s.units_hold;
            clauses_hold = rw q.clauses (
                ground (arith, s.clauses_hold, each_of-swap_remove (card_met a) pb.clauses i c at));
          };
      ones = λ o. rw q.clauses (ground (arith, o, each_of-swap_remove asks_one pb.clauses i c at));
      back = λ o a s.
          let (g, t) = q.forth a s.agrees in
          let h = (all_met e a g).1 t in
          let met : card_met a c ≡ true = ground arith in
          let others = rw q.clauses at s.clauses_hold in
          record {
            agrees = g;
            units_hold = sym (q.units_same a s.agrees) ∙ s.units_hold;
            clauses_hold =
                ground (arith, met, others, each_of-swap_remove (card_met a) pb.clauses i c at);
          };
      wf = record {
        live = rw q.status wf.live;
        bindings = q.bindings;
        ranged = rw (q.clauses, q.model_length) rest_below;
      };
      status = q.status;
    }

    -- The clause keeps the literals that are not false.
    pub kept-Follows :
        (c' : Clause)
        → c'.lits ≡ left
        → cardinality c' ≡ cardinality c
        → Follows pb (record pb { clauses = set pb.clauses i c' })
    kept-Follows c' e f =
        let same = λ (a : Assignment) (g : Agrees a pb.model).
          each_of-set (card_met a) pb.clauses i c c' at (rw (f, e, d.same a g) refl) in
        record {
          keeps = λ a s. record {
            agrees = s.agrees;
            units_hold = s.units_hold;
            clauses_hold = same a s.agrees ∙ s.clauses_hold;
          };
          ones = λ o. each_of-set asks_one pb.clauses i c c' at (rw f refl) ∙ o;
          back = λ o a s. record {
            agrees = s.agrees;
            units_hold = s.units_hold;
            clauses_hold = sym (same a s.agrees) ∙ s.clauses_hold;
          };
          wf = record {
            live = wf.live;
            bindings = wf.bindings;
            ranged =
                each_of-set (lits_below (length pb.model)) pb.clauses i c c' at (
                  rw e d.ranged
                  ∙ sym (each_of-get (lits_below (length pb.model)) pb.clauses i c wf.ranged at))
                ∙ wf.ranged;
          };
          status = refl;
        }

stored_word :
    (c : Clause) (left : List Lit) (test : Bool)
    → (if test
        then record c { lits = left }
        else shrink (record c { lits = left }) (length left)).lbd_value
      ≡ c.lbd_value
unfolding shrink
stored_word c left true = refl
stored_word c left false = shrunk c.pb_data
  where
    shrunk :
        (o : Option PbData)
        → (shrink
            (record { lits = left; lbd_value = c.lbd_value; pb_data = o })
            (length left)).lbd_value
          ≡ c.lbd_value
    shrunk none = refl
    shrunk (some d) = refl

pub stored_cardinality :
    (c : Clause) (left : List Lit) (test : Bool)
    → cardinality
        (if test then record c { lits = left } else shrink (record c { lits = left }) (length left))
      ≡ cardinality c
unfolding cardinality learned
stored_cardinality c left test = rw (stored_word c left test) refl
