-- ===== src/Solver/SimplifyCard/Loop.antt =====
-- The loop over the clauses returns, and loses no solution.
use gophersat.Prelude.{
  ℕ, zero, suc, ◌+◌, ◌-◌, ◌<◌, ◌≤◌, ◌≡◌, refl, Bool, true, false, none, some, List, length,
  length-set, get_elem?, get_elem?-lt, set, ltb, ltb→lt, ◌==◌, ◌⊎◌, inl, inr, arith, if◌then◌else◌,
}
use gophersat.Prelude.Run.{ok, ◌>>=◌, Returns, returns, Returns-if, Returns-map, Returns-bind}
use gophersat.Prelude.Slices.{load-ok, swap_remove, length-swap_remove, each_of-get}
use gophersat.Semantics.{Assignment}
use gophersat.Solver.Types.{unsat, Lit}
use gophersat.Solver.Problem.{Clause, Problem, Round, returned, over, is_unsat, shrink}
use gophersat.Solver.Problem.Settle.{stored_lits}
use gophersat.Solver.Problem.Solutions.{lits_below, Wf}
use gophersat.Solver.Clause.{cardinality, learned}
use gophersat.Solver.SimplifyCard.{add_units, card_loop}
use gophersat.Solver.SimplifyCard.Scan.{Counted, scan_card-Returns}
use gophersat.Solver.SimplifyCard.Binding.{add_units-Returns}
use gophersat.Solver.SimplifyCard.Keeps.{
  CardSolution, Follows, Follows-trans, satisfied-Follows, too_few, not_all, bound-Follows,
  kept-Follows, stored_cardinality,
}

pub record RoundEnd (restart : Bool) (pb : Problem) (restart' : Bool) (pb' : Problem) : Type 0 where
  pub follows : Follows pb pb'
  pub no_longer : length pb'.clauses ≤ length pb.clauses
  pub progress : restart' ≡ true → (restart ≡ true) ⊎ (length pb'.clauses < length pb.clauses)

abbrev pub RoundDone : Bool → Problem → Round → Type 0
RoundDone restart pb (returned pb') =
    (pb'.status ≡ unsat) × ((a : Assignment) → CardSolution a pb → ⊥)
RoundDone restart pb (over restart' pb') = RoundEnd restart pb restart' pb'

RoundDone-from :
    (r r' : Bool) (pb mid : Problem)
    → Follows pb mid
    → length mid.clauses ≤ length pb.clauses
    → (r' ≡ true → (r ≡ true) ⊎ (length mid.clauses < length pb.clauses))
    → (round : Round) → RoundDone r' mid round
    → RoundDone r pb round
RoundDone-from r r' pb mid f le p (returned pb') (e, never) = (e, λ a s. never a (f.keeps a s))
RoundDone-from r r' pb mid f le p (over r'' pb') h = record {
  follows = Follows-trans pb mid pb' f h.follows;
  no_longer = omega (arith, h.no_longer);
  progress = λ e. elim (h.progress e) [
    | inl k ↦ elim (p k) [ inl j ↦ inl j | inr lt ↦ inr (omega (arith, h.no_longer)) ]
    | inr lt ↦ inr (omega arith)
  ];
}

degree_positive : (c : Clause) → 0 < cardinality c
unfolding cardinality learned
degree_positive c = ground arith

Follows-refl : (pb : Problem) → Wf pb → Follows pb pb
Follows-refl pb w = record {
  keeps = λ a s. s;
  ones = λ o. o;
  back = λ o a s. s;
  wf = w;
  status = refl;
}

-- The clause at place i, with the literals that its scan leaves, and what the rest of the round promises.
module _ (fuel i : ℕ) (restart : Bool) (pb : Problem) (c : Clause)
    (at : get_elem? pb.clauses i ≡ some c) (w : Wf pb) (left : List Lit)
    (d : Counted pb.model c.lits left)
    (rest : (k : ℕ) (r : Bool) (q : Problem)
      → Wf q
      → length q.clauses - k ≤ length pb.clauses - i - 1
      → Returns (RoundDone r q) (card_loop fuel k r q)) where
  bound_rest :
      (length left == cardinality c) ≡ true
      → Returns (RoundDone restart pb) (
          add_units left pb >>= λ pb'.
          let more = card_loop fuel i true (record pb' { clauses = swap_remove pb'.clauses i }) in
          if is_unsat pb'.status then ok (returned pb') else more)
  unfolding is_unsat
  bound_rest exact = Returns-bind (add_units-Returns left pb w.bindings d.ranged) (λ pb'. elim [
    | inl (u, never) ↦ rw u (returns (refl, not_all pb i c at w left d exact never))
    | inr q ↦
        let mid = record pb' { clauses = swap_remove pb'.clauses i } in
        let g = bound-Follows pb i c at w left d pb' exact q in
        let live : is_unsat pb'.status ≡ false = rw q.status w.live in
        let fewer = length-swap_remove pb.clauses i (get_elem?-lt pb.clauses i c at) in
        let less : length (swap_remove pb'.clauses i) < length pb.clauses =
          rw q.clauses (omega arith) in
        rw live (
          Returns-map (rest i true mid g.wf (rw q.clauses (omega arith)))
            (RoundDone-from restart true pb mid g (omega arith) (λ _. inr less)))
  ])

  kept_rest :
      let c' =
        if length c.lits == length left
        then record c { lits = left }
        else shrink (record c { lits = left }) (length left) in
      Returns
        (RoundDone restart pb)
        (card_loop fuel (i + 1) restart (record pb { clauses = set pb.clauses i c' }))
  kept_rest =
      let c' : Clause =
        if length c.lits == length left
        then record c { lits = left }
        else shrink (record c { lits = left }) (length left) in
      let mid = record pb { clauses = set pb.clauses i c' } in
      let g =
        kept-Follows pb i c at w left d c' (stored_lits c left (length c.lits == length left))
          (stored_cardinality c left (length c.lits == length left)) in
      let as_many = length-set pb.clauses i c' in
      Returns-map (rest (i + 1) restart mid g.wf (omega arith))
        (RoundDone-from restart restart pb mid g (omega arith) inl)

pub card_loop-Returns :
    (fuel i : ℕ) (restart : Bool) (pb : Problem)
    → Wf pb
    → length pb.clauses - i < fuel
    → Returns (RoundDone restart pb) (card_loop fuel i restart pb)
unfolding card_loop
card_loop-Returns zero i restart pb w f = absurd (omega arith)
card_loop-Returns (suc fuel) i restart pb w f =
    Returns-if (ltb i (length pb.clauses))
      (λ inside.
        let lt = ltb→lt i (length pb.clauses) inside in
        let (c, at, loaded) = load-ok pb.clauses i lt in
        let fewer = length-swap_remove pb.clauses i lt in
        let ranged = each_of-get (lits_below (length pb.model)) pb.clauses i c w.ranged at in
        let rest =
          λ (k : ℕ) (r : Bool) (q : Problem) (v : Wf q)
              (h : length q.clauses - k ≤ length pb.clauses - i - 1).
            card_loop-Returns fuel k r q v (omega arith) in
        rw loaded (
          Returns-bind
            (scan_card-Returns (length c.lits + cardinality c + 1) pb.model (cardinality c) 0 c.lits
              0 ranged (degree_positive c) (omega arith))
            (elim [
              | none ↦ λ t.
                  let mid = record pb { clauses = swap_remove pb.clauses i } in
                  let g = satisfied-Follows pb i c at w t in
                  Returns-map (rest i restart mid g.wf (omega arith))
                    (RoundDone-from restart restart pb mid g (omega arith) inl)
              | some left ↦ λ d.
                  Returns-if (ltb (length left) (cardinality c))
                    (λ low. returns (refl, too_few pb i c at w left d low))
                    (λ _.
                      Returns-if (length left == cardinality c)
                        (bound_rest fuel i restart pb c at w left d rest)
                        (λ _. kept_rest fuel i restart pb c at w left d rest))
            ])))
      (λ outside.
        returns (record { follows = Follows-refl pb w; no_longer = omega arith; progress = inl }))
