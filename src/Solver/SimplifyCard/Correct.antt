-- ===== src/Solver/SimplifyCard/Correct.antt =====
-- simplifyCard returns, and loses no solution.
use gophersat.Prelude.{
  ℕ, zero, suc, ◌+◌, ◌<◌, ◌≡◌, refl, ◌∙◌, Bool, true, false, List, [], ◌∷◌, length, inl, inr, arith,
}
use gophersat.Prelude.Run.{Returns, returns, Returns-if, Returns-map, Returns-bind}
use gophersat.Prelude.Slices.{each_of}
use gophersat.Semantics.{Assignment}
use gophersat.Solver.Types.{Status, indet, sat, unsat, unit, many}
use gophersat.Solver.Problem.{Clause, Problem, returned, over, is_unsat, update_status}
use gophersat.Solver.Problem.Solutions.{Wf}
use gophersat.Solver.SimplifyPb.Rounds.{IsSettled}
use gophersat.Solver.SimplifyCard.{card_rounds, simplify_card}
use gophersat.Solver.SimplifyCard.Keeps.{asks_one, CardSolution, Follows}
use gophersat.Solver.SimplifyCard.Loop.{RoundEnd, card_loop-Returns}

abbrev pub SolvesCard : Assignment → Problem → Type 0
SolvesCard a pb = (is_unsat pb.status ≡ false) × CardSolution a pb

-- What simplifyCard promises: no solution is lost, so a problem that is found Unsat has none; none is gained
-- if each clause asks for one literal; and the status of an Indet problem is settled.
pub record SimplifiedCard (pb pb' : Problem) : Type 0 where
  pub keeps : (a : Assignment) → SolvesCard a pb → SolvesCard a pb'
  pub back :
      each_of asks_one pb.clauses ≡ true → (a : Assignment) → SolvesCard a pb' → SolvesCard a pb
  pub settled : pb.status ≡ indet → IsSettled pb'.status pb'.clauses

refuted :
    (pb pb' : Problem)
    → pb'.status ≡ unsat
    → ((a : Assignment) → CardSolution a pb → ⊥)
    → SimplifiedCard pb pb'
unfolding is_unsat
refuted pb pb' e never = record {
  keeps = λ a (_, s). absurd (never a s);
  back = λ _ a (l, _). absurd (let l' = rw e at l in cc l');
  settled = λ _. rw e tt;
}

finished_lem :
    (pb : Problem) (s : Status) (clauses : List Clause)
    → (let q : Problem = record pb { status = s; clauses = clauses } in
        (is_unsat s ≡ false → is_unsat (update_status q).status ≡ false)
        × (s ≡ indet → IsSettled (update_status q).status clauses))
unfolding update_status is_unsat
finished_lem pb indet [] = (λ l. refl, λ _. tt)
finished_lem pb indet (c ∷ clauses) = (λ l. l, λ _. tt)
finished_lem pb sat clauses = (λ l. l, λ e. cc)
finished_lem pb unsat clauses = (λ l. l, λ e. cc)
finished_lem pb unit clauses = (λ l. l, λ e. cc)
finished_lem pb many clauses = (λ l. l, λ e. cc)

finished : (pb pb' : Problem) → Wf pb → Follows pb pb' → SimplifiedCard pb (update_status pb')
unfolding update_status
finished pb pb' w f =
    let (live, settled) = finished_lem pb' pb'.status pb'.clauses in
    record {
      keeps = λ a (_, s).
          let t = f.keeps a s in
          (
            live f.wf.live,
            record { agrees = t.agrees; units_hold = t.units_hold; clauses_hold = t.clauses_hold },
          );
      back = λ o a (_, t). (
        w.live,
        f.back o a (record {
          agrees = t.agrees;
          units_hold = t.units_hold;
          clauses_hold = t.clauses_hold;
        }),
      );
      settled = λ e. settled (f.status ∙ e);
    }

card_rounds-Returns :
    (fuel : ℕ) (pb : Problem)
    → Wf pb
    → length pb.clauses < fuel
    → Returns (SimplifiedCard pb) (card_rounds fuel pb)
unfolding card_rounds
card_rounds-Returns zero pb w f = absurd (omega arith)
card_rounds-Returns (suc fuel) pb w f =
    Returns-bind (card_loop-Returns (length pb.clauses + 1) 0 false pb w (omega arith)) (elim [
      | returned pb' ↦ λ (e, never). returns (refuted pb pb' e never)
      | over restart pb' ↦ λ p.
          Returns-if restart
            (λ m. Returns-map (card_rounds-Returns fuel pb' p.follows.wf (less p m)) (λ out r.
              record {
                keeps = λ a (_, s). r.keeps a (p.follows.wf.live, p.follows.keeps a s);
                back = λ o a s. (w.live, p.follows.back o a (r.back (p.follows.ones o) a s).1);
                settled = λ e. r.settled (p.follows.status ∙ e);
              }))
            (λ _. returns (finished pb pb' w p.follows))
    ])
  where
    less :
        {pb' : Problem} {restart : Bool}
        → RoundEnd false pb restart pb'
        → restart ≡ true
        → length pb'.clauses < fuel
    less p m = elim (p.progress m) [ inl e ↦ cc | inr lt ↦ omega arith ]

-- simplifyCard returns, for bindings of 0, 1 and -1 and literals in range. A solution of the problem is one of
-- the problem that it leaves, so a problem that is found Unsat has none; the converse holds if each clause asks
-- for one literal. An Indet problem ends Unsat, or Sat exactly if no clause is left.
pub simplify_card_correct : (pb : Problem) → Wf pb → Returns (SimplifiedCard pb) (simplify_card pb)
unfolding simplify_card
simplify_card_correct pb w = card_rounds-Returns (length pb.clauses + 1) pb w (omega arith)
