-- ===== src/Solver/Problem/Simplify.antt =====
-- simplify2 of solver/problem.go keeps the solutions of the problem.
use gophersat.Prelude.{
  ℕ, zero, suc, ◌+◌, ◌-◌, ◌<◌, ◌≡◌, refl, sym, ap, ◌∙◌, Bool, true, false, List, [], ◌∷◌, length,
  take, ltb, ltb→lt, ◌⊎◌, inl, inr, arith,
}
use gophersat.Prelude.Run.{Returns, returns, Returns-if, Returns-bind, Returns-map}
use gophersat.Prelude.Slices.{load-ok, each_of, each_of-get}
use gophersat.Solver.Types.{Status, indet, sat, unsat, unit, many}
use gophersat.Solver.Problem.{
  Clause, Problem, returned, over, is_unsat, clause_loop, restart_loop, settled_status,
  update_status, simplify2,
}
use gophersat.Solver.Problem.Literals.{scan_lits-Returns}
use gophersat.Solver.Problem.Prefix.{is_long, not_lt, take-all}
use gophersat.Solver.Problem.Solutions.{lits_below, SameModels, Wf, SameModels-trans}
use gophersat.Solver.Problem.Settle.{RoundPost, settle-Returns}

clause_loop-Returns :
    (fuel i : ℕ) (before : Bool) (pb : Problem)
    → Wf pb
    → each_of is_long (take i pb.clauses) ≡ true
    → length pb.clauses - i < fuel
    → Returns (RoundPost pb before) (clause_loop fuel i before pb)
unfolding clause_loop
clause_loop-Returns zero i before pb w h f = absurd (omega arith)
clause_loop-Returns (suc fuel) i before pb w h f =
    Returns-if (ltb i (length pb.clauses))
      (λ inside.
        let (c, at, loaded) = load-ok pb.clauses i (ltb→lt i (length pb.clauses) inside) in
        let ranged = each_of-get (lits_below (length pb.model)) pb.clauses i c w.ranged at in
        rw loaded (
          Returns-bind
            (scan_lits-Returns (length c.lits + 1) pb.model c.lits 0 ranged (omega arith))
            (λ r d.
              settle-Returns i before c pb r (clause_loop fuel) at w h d
                (λ k b q wq hq l. clause_loop-Returns fuel k b q wq hq (omega arith)))))
      (λ outside. returns (record {
        same = λ a. (λ s. s, λ s. s);
        wf = w;
        long =
            ap (each_of is_long)
              (sym (take-all pb.clauses i (omega (arith, not_lt i (length pb.clauses) outside))))
            ∙ h;
        no_longer = omega arith;
        restarts = λ b t. cc;
      }))

settled_status-live :
    (s : Status) (cs : List Clause) → is_unsat s ≡ false → is_unsat (settled_status s cs) ≡ false
unfolding settled_status is_unsat
settled_status-live indet [] l = refl
settled_status-live indet (c ∷ cs) l = refl
settled_status-live sat cs l = refl
settled_status-live unsat cs l = l
settled_status-live unit cs l = refl
settled_status-live many cs l = refl

-- Setting the status at the end keeps the models.
update_status-SameModels :
    (pb : Problem) → is_unsat pb.status ≡ false → SameModels pb (update_status pb)
unfolding update_status
update_status-SameModels pb l a = (
  λ s. record {
    live = settled_status-live pb.status pb.clauses l;
    agrees = s.agrees;
    units_hold = s.units_hold;
    clauses_hold = s.clauses_hold;
  },
  λ s. record {
    live = l;
    agrees = s.agrees;
    units_hold = s.units_hold;
    clauses_hold = s.clauses_hold;
  },
)

-- What the simplification leaves.
pub record Simplified (pb pb' : Problem) : Type 0 where
  pub same : SameModels pb pb'
  pub settled : (is_unsat pb'.status ≡ true) ⊎ (each_of is_long pb'.clauses ≡ true)

restart_loop-Returns :
    (fuel : ℕ) (pb : Problem)
    → Wf pb
    → length pb.clauses < fuel
    → Returns (Simplified pb) (restart_loop fuel pb)
unfolding restart_loop update_status
restart_loop-Returns zero pb w f = absurd (omega arith)
restart_loop-Returns (suc fuel) pb w f =
    Returns-bind (clause_loop-Returns (length pb.clauses + 1) 0 false pb w refl (omega arith))
      (elim [
        | returned pb' ↦ λ (same, dead). returns (record { same = same; settled = inl dead })
        | over again pb' ↦ λ d.
            Returns-if again
              (λ yes.
                Returns-map
                  (restart_loop-Returns fuel pb' d.wf
                    (let less = d.restarts refl yes in omega arith))
                  (λ out o. record {
                    same = SameModels-trans pb pb' out d.same o.same;
                    settled = o.settled;
                  }))
              (λ done. returns (record {
                same =
                    SameModels-trans pb pb' (update_status pb') d.same
                      (update_status-SameModels pb' d.wf.live);
                settled = inr d.long;
              }))
      ])

-- From a problem that is not Unsat, whose bindings are 0, 1 or -1 and whose literals are of its
-- variables, simplify2 returns: no index is out of range, and its loops end. The problem it leaves
-- has the same solutions, the assignments that extend the bindings and make the units and the
-- clauses true; one whose status is Unsat has none. Its status is Unsat, or each of its clauses has
-- two literals or more.
pub simplify2_correct : (pb : Problem) → Wf pb → Returns (Simplified pb) (simplify2 pb)
unfolding simplify2
simplify2_correct pb w = restart_loop-Returns (length pb.clauses + 1) pb w (omega arith)
