-- ===== src/Solver/ParserPb/Correct.antt =====
-- ParsePBConstrs gives a problem with the solutions of the constraints that it reads.
use gophersat.Prelude.{
  ℕ, ◌^◌, ◌<◌, ◌≤◌, ◌≡◌, ◌↔◌, refl, sym, ap, ◌∙◌, Bool, true, false, not, List, [], ◌∷◌,
  length-replicate, replicate, arith, if◌then◌else◌, inl, ◌⊎◌,
}
use gophersat.Prelude.Run.{ok, ◌>>=◌, Returns, returns, Returns-bind, Returns-if, Returns-map}
use gophersat.Prelude.Slices.{each_of}
use gophersat.Prelude.Int.{ℤ, pos, negsuc, ltb_ℤ, ◌≤ℤ◌, ◌==ℤ◌, parts_of_eq, int_laws}
use gophersat.Semantics.{Assignment}
use gophersat.Solver.Types.{indet, unsat}
use gophersat.Solver.Problem.{Problem, is_unsat}
use gophersat.Solver.Problem.Literals.{below}
use gophersat.Solver.Clause.{total, new_pb_clause}
use gophersat.Solver.Pb.{PbConstr, weight_sum}
use gophersat.Solver.Pb.Meaning.{Meets}
use gophersat.Solver.Parser.{bind_units, empty_problem}
use gophersat.Solver.Parser.Binding.{BoundOr, bind_units-Returns}
use gophersat.Solver.Parser.Models.{replicate-bindings, replicate-Agrees}
use gophersat.Solver.SimplifyPb.{simplify_pb_problem}
use gophersat.Solver.SimplifyPb.Meets.{not_below}
use gophersat.Solver.SimplifyPb.Passes.{IsFitProblem}
use gophersat.Solver.SimplifyPb.Rounds.{SolvesPb, IsSettled}
use gophersat.Solver.SimplifyPb.Correct.{simplify_pb_problem_correct}
use gophersat.Solver.ParserPb.{
  count_vars, add_distinct, append_clause, constr_loop, parse_pb_constrs,
}
use gophersat.Solver.ParserPb.Clauses.{FitClauseOf, new_pb_clause-FitClauseOf}
use gophersat.Solver.ParserPb.Constraints.{
  IsFitConstr, positive-NonNegative, weight_sum-total, count_vars_bounds,
}
use gophersat.Solver.ParserPb.Joins.{
  MeetsAll, AreFitConstrs, HoldsIn, Counted, Read, Read-from, Counted-more, length-lits, lits, ws,
  ignored_meets, never_meets, all_true_joins, appended_joins,
}

-- A problem with more variables.
counted_lem :
    (c : PbConstr) (pb : Problem)
    → Counted pb
    → Counted (record pb { nb_vars = count_vars c.lits pb.nb_vars })
counted_lem c pb h =
    Counted-more pb (count_vars c.lits pb.nb_vars) (count_vars_bounds c.lits pb.nb_vars).0 h

-- The clause of a constraint fits, and means what the constraint does.
constr_clause :
    (c : PbConstr) (fits : IsFitConstr c) (n : ℕ)
    → not (ltb_ℤ (pos 0) c.at_least) ≡ false
    → ltb_ℤ (weight_sum c) c.at_least ≡ false
    → each_of (below n) (lits c fits) ≡ true
    → Returns
        (λ d. (card : ℕ) × (c.at_least ≡ pos card) × FitClauseOf n (lits c fits) (ws c fits) card d)
        (new_pb_clause (lits c fits) c.weights c.at_least)
unfolding lits ws
constr_clause c fits n p q ranged =
    let (card, e, above) = positive c.at_least p in
    let small =
      at_most c.at_least (total (ws c fits)) card e
        ((not_below (weight_sum c) c.at_least).0 (ap not q)) (weight_sum-total c) fits.bounded in
    rw e (
      Returns-map
        (new_pb_clause-FitClauseOf n (lits c fits) (ws c fits) card above small
          (positive-NonNegative (ws c fits) fits.positive) (wider (total (ws c fits)) fits.bounded)
          ranged c.weights (rw (length-lits c.lits) refl) (length-lits c.lits ∙ fits.sized))
        (λ d k. (card, refl, k)))
  where
    positive : (x : ℤ) → not (ltb_ℤ (pos 0) x) ≡ false → (n : ℕ) × (x ≡ pos n) × (0 < n)
    positive (pos n) p = (n, refl, ground arith)
    positive (negsuc n) p = absurd (ground arith)

    wider : (x : ℤ) → x ≤ℤ pos (2 ^ 30) → x ≤ℤ pos (2 ^ 31)
    wider x h = omega arith

    at_most :
        {s : ℤ} (x t : ℤ) (n : ℕ) → x ≡ pos n → x ≤ℤ s → s ≡ t → t ≤ℤ pos (2 ^ 30) → n ≤ 2 ^ 30
    at_most x t n e q f h = omega (int_laws, parts_of_eq e, parts_of_eq f)

append_clause-Returns :
    (c : PbConstr) (pb : Problem)
    → IsFitConstr c
    → not (ltb_ℤ (pos 0) c.at_least) ≡ false
    → ltb_ℤ (weight_sum c) c.at_least ≡ false
    → Counted pb
    → Returns
        (λ mid.
          Counted mid
          × (mid.status ≡ pb.status)
          × ((a : Assignment) → (HoldsIn a pb × Meets a c) ↔ HoldsIn a mid))
        (append_clause c (record pb { nb_vars = count_vars c.lits pb.nb_vars }))
unfolding append_clause lits
append_clause-Returns c pb fits p q h =
    Returns-bind
      (constr_clause c fits (count_vars c.lits pb.nb_vars) p q
        (count_vars_bounds c.lits pb.nb_vars).1)
      (λ d (card, e, k).
        let (h', s) = appended_joins c fits pb d card e h k in returns (h', refl, s))

constr_loop-Returns :
    (constrs : List PbConstr) (pb : Problem)
    → AreFitConstrs constrs
    → Counted pb
    → Returns (Read constrs pb) (constr_loop constrs pb)
unfolding constr_loop
constr_loop-Returns [] pb h c = returns (c, refl, λ a. (λ k. k.0, λ k. (k, tt)))
constr_loop-Returns (c ∷ constrs) pb h k =
    let counted = record pb { nb_vars = count_vars c.lits pb.nb_vars } in
    Returns-if (not (ltb_ℤ (pos 0) c.at_least))
      (λ trivial. Returns-map (constr_loop-Returns constrs counted h.1 (counted_lem c pb k)) (λ r.
        Read-from c constrs pb counted r refl
          (λ a. (λ x. x.0, λ x. (x, ignored_meets c h.0 a trivial)))))
      (λ positive.
        Returns-if (ltb_ℤ (weight_sum c) c.at_least)
          (λ low. returns (refl, λ a m. never_meets c h.0 a low m.0))
          (λ enough.
            Returns-if (weight_sum c ==ℤ c.at_least)
              (λ exact.
                let mid = record counted { units = add_distinct c.lits counted.units } in
                let (k', s) = all_true_joins c h.0 pb exact k in
                Returns-map (constr_loop-Returns constrs mid h.1 k')
                  (λ r. Read-from c constrs pb mid r refl s))
              (λ more.
                Returns-bind (append_clause-Returns c pb h.0 positive enough k) (λ mid (k', e, s).
                  Returns-map (constr_loop-Returns constrs mid h.1 k')
                    (λ r. Read-from c constrs pb mid r e s)))))

-- What ParsePBConstrs promises: the solutions of the problem are the assignments that meet the constraints,
-- and it is found Unsat or fits; if it is found Sat it has no clause, and if it is left Indet it has one.
pub record ParsedPb (constrs : List PbConstr) (pb : Problem) : Type 0 where
  pub same : (a : Assignment) → MeetsAll a constrs ↔ SolvesPb a pb
  pub fits : (pb.status ≡ unsat) ⊎ IsFitProblem pb
  pub settled : IsSettled pb.status pb.clauses

refuted_lem :
    (constrs : List PbConstr) (pb : Problem)
    → pb.status ≡ unsat
    → ((a : Assignment) → MeetsAll a constrs → ⊥)
    → ParsedPb constrs pb
unfolding is_unsat
refuted_lem constrs pb u never = record {
  same = λ a. (λ m. absurd (never a m), λ (l, _). absurd (let l' = rw u at l in cc l'));
  fits = inl u;
  settled = rw u tt;
}

after_units :
    (constrs : List PbConstr) (pb : Problem) (clash : Bool) (pb' : Problem)
    → pb.status ≡ indet
    → Counted pb
    → ((a : Assignment) → (HoldsIn a (empty_problem 0) × MeetsAll a constrs) ↔ HoldsIn a pb)
    → BoundOr pb.units (record pb { model = replicate pb.nb_vars (pos 0) }) (clash, pb')
    → Returns (ParsedPb constrs) (if clash then ok pb' else simplify_pb_problem pb')
unfolding is_unsat
after_units constrs pb true pb' l c e (f, u) = returns (
    refuted_lem constrs pb' u (λ a m.
      let t = ((e a).0 ((refl, refl), m)).0 in
      let g = f a (replicate-Agrees a pb.nb_vars) in absurd (cc g)))
after_units constrs pb false pb' l c e d =
    let n = d.length ∙ length-replicate pb.nb_vars (pos 0) in
    Returns-map
      (simplify_pb_problem_correct pb'
        (record {
          live = rw (d.status, l) refl;
          bindings = d.bindings;
          fit = rw (n, d.clauses) c.fit;
        })
        (rw (n, d.units_kept) c.units_below)
        (λ a u. d.back a (replicate-Agrees a pb.nb_vars) (rw (sym d.units_kept) u)))
      (λ out s. record {
        same = λ a.
            let (f, b) = e a in
            let (g, h) = s.same a in
            (
              λ m.
                  let (u, k) = f ((refl, refl), m) in
                  g (
                    rw (d.status, l) refl,
                    record {
                      agrees = d.back a (replicate-Agrees a pb.nb_vars) u;
                      units_hold = rw d.units_kept u;
                      clauses_hold = rw d.clauses k;
                    },
                  ),
              λ x.
                  let (_, y) = h x in
                  (b (rw (sym d.units_kept) y.units_hold, rw (sym d.clauses) y.clauses_hold)).1,
            );
        fits = s.fits;
        settled = s.settled (d.status ∙ l);
      })

after_constrs :
    (constrs : List PbConstr) (returned : Bool) (pb : Problem)
    → Read constrs (empty_problem 0) (returned, pb)
    → Returns (ParsedPb constrs) (
        if returned
        then ok pb
        else bind_units pb.units (record pb { model = replicate pb.nb_vars (pos 0) })
          >>= λ (clash, pb'). if clash then ok pb' else simplify_pb_problem pb')
after_constrs constrs true pb (u, never) = returns (refuted_lem constrs pb u never)
after_constrs constrs false pb (c, t, f) =
    Returns-bind
      (bind_units-Returns pb.units (record pb { model = replicate pb.nb_vars (pos 0) })
        (replicate-bindings pb.nb_vars) (rw (length-replicate pb.nb_vars (pos 0)) c.units_below))
      (λ (clash, pb') d. after_units constrs pb clash pb' t c f d)

-- For constraints of literals other than 0 and of at most 2^30 for their absolute value, with a positive
-- weight for each and a sum of weights of at most 2^30: ParsePBConstrs returns, with no panic. The solutions
-- of its problem are the assignments that meet the constraints; one whose status is Unsat has none, and else
-- its status is Sat exactly if no clause is left.
pub parse_pb_constrs_correct :
    (constrs : List PbConstr)
    → AreFitConstrs constrs
    → Returns (ParsedPb constrs) (parse_pb_constrs constrs)
unfolding parse_pb_constrs
parse_pb_constrs_correct constrs h =
    Returns-bind
      (constr_loop-Returns constrs (empty_problem 0) h (record { units_below = refl; fit = tt }))
      (λ (returned, pb) r. after_constrs constrs returned pb r)
