-- ===== src/Solver/ParserCard/Correct.antt =====
-- ParseCardConstrs returns, and its problem loses no solution of the constraints.
use gophersat.Prelude.{
  ◌≡◌, refl, sym, ◌∙◌, Bool, true, false, List, length-replicate, replicate, if◌then◌else◌,
}
use gophersat.Prelude.Run.{ok, ◌>>=◌, Returns, returns, Returns-bind, Returns-map}
use gophersat.Prelude.Int.{pos}
use gophersat.Semantics.{Assignment}
use gophersat.Solver.Types.{unsat}
use gophersat.Solver.Problem.{Problem, is_unsat}
use gophersat.Solver.Pb.{CardConstr}
use gophersat.Solver.Parser.{bind_units, empty_problem}
use gophersat.Solver.Parser.Binding.{BoundOr, bind_units-Returns}
use gophersat.Solver.Parser.Models.{replicate-bindings, replicate-Agrees}
use gophersat.Solver.SimplifyPb.Rounds.{IsSettled}
use gophersat.Solver.SimplifyCard.{simplify_card}
use gophersat.Solver.SimplifyCard.Correct.{SolvesCard, simplify_card_correct}
use gophersat.Solver.ParserCard.{parse_card_constrs}
use gophersat.Solver.ParserCard.Joins.{
  MeetsCards, AreFitCards, AskOne, Joined, ReadCards, card_constrs-Returns,
}

-- What ParseCardConstrs promises: an assignment that meets the constraints solves the problem, so one that is
-- found Unsat has none; the converse holds if no constraint asks for more than one literal; and the status
-- is Unsat, or Sat exactly if no clause is left.
pub record ParsedCard (constrs : List CardConstr) (pb : Problem) : Type 0 where
  pub keeps : (a : Assignment) → MeetsCards a constrs → SolvesCard a pb
  pub back : AskOne constrs → (a : Assignment) → SolvesCard a pb → MeetsCards a constrs
  pub settled : IsSettled pb.status pb.clauses

refuted :
    (constrs : List CardConstr) (pb : Problem)
    → pb.status ≡ unsat
    → ((a : Assignment) → MeetsCards a constrs → ⊥)
    → ParsedCard constrs pb
unfolding is_unsat
refuted constrs pb u never = record {
  keeps = λ a m. absurd (never a m);
  back = λ _ a (l, _). absurd (let l' = rw u at l in cc l');
  settled = rw u tt;
}

after_units :
    (constrs : List CardConstr) (pb : Problem) (clash : Bool) (pb' : Problem)
    → Joined constrs (empty_problem 0) pb
    → BoundOr pb.units (record pb { model = replicate pb.nb_vars (pos 0) }) (clash, pb')
    → Returns (ParsedCard constrs) (if clash then ok pb' else simplify_card pb')
unfolding is_unsat
after_units constrs pb true pb' j (f, u) = returns (
    refuted constrs pb' u (λ a m.
      let t = ((j.same a).0 ((refl, refl), m)).0 in
      let g = f a (replicate-Agrees a pb.nb_vars) in absurd (cc g)))
after_units constrs pb false pb' j d =
    let n = d.length ∙ length-replicate pb.nb_vars (pos 0) in
    let live : is_unsat pb'.status ≡ false = rw (d.status, j.status) refl in
    Returns-map
      (simplify_card_correct pb' (record {
        live = live;
        bindings = d.bindings;
        ranged = rw (n, d.clauses) j.counted.clauses_below;
      }))
      (λ out s. record {
        keeps = λ a m.
            let (u, k) = (j.same a).0 ((refl, refl), m) in
            s.keeps a (
              live,
              record {
                agrees = d.back a (replicate-Agrees a pb.nb_vars) u;
                units_hold = rw d.units_kept u;
                clauses_hold = rw d.clauses k;
              },
            );
        back = λ o a x.
            let y = (s.back (rw d.clauses (j.ones o refl)) a x).1 in
            ((j.same a).1
              (rw (sym d.units_kept) y.units_hold, rw (sym d.clauses) y.clauses_hold)).1;
        settled = s.settled (d.status ∙ j.status);
      })

after_constrs :
    (constrs : List CardConstr) (returned : Bool) (pb : Problem)
    → ReadCards constrs (empty_problem 0) (returned, pb)
    → Returns (ParsedCard constrs) (
        if returned
        then ok pb
        else bind_units pb.units (record pb { model = replicate pb.nb_vars (pos 0) })
          >>= λ (clash, pb'). if clash then ok pb' else simplify_card pb')
after_constrs constrs true pb (u, never) = returns (refuted constrs pb u never)
after_constrs constrs false pb j =
    Returns-bind
      (bind_units-Returns pb.units (record pb { model = replicate pb.nb_vars (pos 0) })
        (replicate-bindings pb.nb_vars)
        (rw (length-replicate pb.nb_vars (pos 0)) j.counted.units_below))
      (λ (clash, pb') d. after_units constrs pb clash pb' j d)

-- For constraints of at most 2^30 literals, none 0 and none above 2^30 for its absolute value:
-- ParseCardConstrs returns, with no panic. An assignment that meets the constraints solves its problem, so one
-- whose status is Unsat has none; the converse holds if no constraint asks for more than one literal. The
-- status is Unsat, or Sat exactly if no clause is left.
pub parse_card_constrs_correct :
    (constrs : List CardConstr)
    → AreFitCards constrs
    → Returns (ParsedCard constrs) (parse_card_constrs constrs)
unfolding parse_card_constrs
parse_card_constrs_correct constrs h =
    Returns-bind
      (card_constrs-Returns constrs (empty_problem 0) h
        (record { units_below = refl; clauses_below = refl }))
      (λ (returned, pb) r. after_constrs constrs returned pb r)
