-- ===== src/Solver/SimplifyPb/Rounds.antt =====
-- The rounds end, and keep the solutions of the problem.
use gophersat.Prelude.{
  ℕ, zero, suc, ◌+◌, ◌<◌, ◌≡◌, ◌↔◌, refl, ◌∙◌, Bool, true, false, List, [], ◌∷◌, length, arith, ◌⊎◌,
  inl, inr,
}
use gophersat.Prelude.Run.{Returns, returns, Returns-bind, Returns-if, Returns-map}
use gophersat.Semantics.{Assignment}
use gophersat.Solver.Types.{Status, indet, sat, unsat, unit, many}
use gophersat.Solver.Problem.{Clause, Problem, is_unsat}
use gophersat.Solver.SimplifyPb.{rounds, final_status, returned, ended, size}
use gophersat.Solver.SimplifyPb.Passes.{Solution, IsFitProblem}
use gophersat.Solver.SimplifyPb.Loop.{PassEnd, pass_loop-Returns}

-- The problem is not found Unsat, and the assignment extends its bindings and satisfies its units and clauses.
abbrev pub SolvesPb : Assignment → Problem → Type 0
SolvesPb a pb = (is_unsat pb.status ≡ false) × Solution a pb

-- A status other than Unsat is Sat if there is no clause, and else Indet.
abbrev pub IsSettled : Status → List Clause → Type 0
IsSettled unsat clauses = Unit {0}
IsSettled sat [] = Unit {0}
IsSettled indet (c ∷ clauses) = Unit {0}
IsSettled _ _ = ⊥

-- What simplifyPB promises: the solutions are the same, the problem is found Unsat or fits, and the status
-- of an Indet problem is settled.
pub record Simplified (pb pb' : Problem) : Type 0 where
  pub same : (a : Assignment) → SolvesPb a pb ↔ SolvesPb a pb'
  pub fits : (pb'.status ≡ unsat) ⊎ IsFitProblem pb'
  pub settled : pb.status ≡ indet → IsSettled pb'.status pb'.clauses

refuted :
    (pb pb' : Problem)
    → pb'.status ≡ unsat
    → ((a : Assignment) → Solution a pb → ⊥)
    → Simplified pb pb'
unfolding is_unsat
refuted pb pb' e never = record {
  same = λ a. (λ (_, s). absurd (never a s), λ (l, _). absurd (let l' = rw e at l in cc l'));
  fits = inl e;
  settled = λ _. rw e tt;
}

passed :
    (modified modified' : Bool) (pb pb' : Problem)
    → IsFitProblem pb
    → PassEnd modified pb modified' pb'
    → (a : Assignment) → SolvesPb a pb ↔ SolvesPb a pb'
passed modified modified' pb pb' h p a =
    let (f, b) = p.same a in (λ (_, s). (p.fits.live, f s), λ (_, s). (h.live, b s))

-- The last step changes the status alone.
record Final (pb pb' : Problem) : Type 0 where
  same : (a : Assignment) → SolvesPb a pb ↔ SolvesPb a pb'
  fits : IsFitProblem pb → IsFitProblem pb'
  settled : pb.status ≡ indet → IsSettled pb'.status pb'.clauses

unchanged : (pb : Problem) → (pb.status ≡ indet → IsSettled pb.status pb.clauses) → Final pb pb
unchanged pb s = record { same = λ a. (λ h. h, λ h. h); fits = λ h. h; settled = s }

final_status-Final :
    (pb : Problem) (s : Status) (clauses : List Clause)
    → (let q : Problem = record pb { status = s; clauses = clauses } in Final q (final_status q))
unfolding final_status is_unsat
final_status-Final pb indet [] = record {
  same = λ a. (
    λ (l, h). (refl, record { agrees = h.agrees; units_hold = h.units_hold; clauses_hold = refl }),
    λ (l, h). (refl, record { agrees = h.agrees; units_hold = h.units_hold; clauses_hold = refl }),
  );
  fits = λ h. record { live = refl; bindings = h.bindings; fit = tt };
  settled = λ _. tt;
}
final_status-Final pb indet (c ∷ clauses) =
    unchanged (record pb { status = indet; clauses = c ∷ clauses }) (λ _. tt)
final_status-Final pb sat clauses =
    unchanged (record pb { status = sat; clauses = clauses }) (λ e. cc)
final_status-Final pb unsat clauses =
    unchanged (record pb { status = unsat; clauses = clauses }) (λ e. tt)
final_status-Final pb unit clauses =
    unchanged (record pb { status = unit; clauses = clauses }) (λ e. cc)
final_status-Final pb many clauses =
    unchanged (record pb { status = many; clauses = clauses }) (λ e. cc)

finished :
    (modified modified' : Bool) (pb pb' : Problem)
    → IsFitProblem pb
    → PassEnd modified pb modified' pb'
    → Simplified pb (final_status pb')
finished modified modified' pb pb' h p =
    let last = final_status-Final pb' pb'.status pb'.clauses in
    record {
      same = λ a.
          let (f, b) = passed modified modified' pb pb' h p a in
          let (f', b') = last.same a in (λ s. f' (f s), λ s. b (b' s));
      fits = inr (last.fits p.fits);
      settled = λ e. last.settled (p.status ∙ e);
    }

pub rounds-Returns :
    (fuel : ℕ) (pb : Problem)
    → IsFitProblem pb
    → size pb.clauses < fuel
    → Returns (Simplified pb) (rounds fuel pb)
unfolding rounds
rounds-Returns zero pb h f = absurd (omega arith)
rounds-Returns (suc fuel) pb h f =
    Returns-bind (pass_loop-Returns (length pb.clauses + 1) 0 false pb h (omega arith)) (elim [
      | returned pb' ↦ λ (e, never). returns (refuted pb pb' e never)
      | ended modified pb' ↦ λ p.
          Returns-if modified
            (λ m. Returns-map (rounds-Returns fuel pb' p.fits (omega (arith, less p m))) (λ out r.
              record {
                same = λ a.
                    let (f, b) = passed false modified pb pb' h p a in
                    let (f', b') = r.same a in (λ s. f' (f s), λ s. b (b' s));
                fits = r.fits;
                settled = λ e. r.settled (p.status ∙ e);
              }))
            (λ _. returns (finished false modified pb pb' h p))
    ])
  where
    less :
        {pb pb' : Problem} {modified : Bool}
        → PassEnd false pb modified pb'
        → modified ≡ true
        → size pb'.clauses < size pb.clauses
    less p m = elim (p.progress m) [ inl e ↦ cc | inr lt ↦ lt ]
