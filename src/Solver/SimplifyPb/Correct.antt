-- ===== src/Solver/SimplifyPb/Correct.antt =====
-- simplifyPB returns, and keeps the solutions of the problem.
use gophersat.Prelude.{
  ◌+◌, ◌≡◌, refl, sym, ◌∙◌, true, List, [], ◌∷◌, length, length-set, set, arith, ltb→lt,
}
use gophersat.Prelude.Run.{Returns, returns, Returns-bind, Returns-map}
use gophersat.Prelude.Slices.{load-ok, each_of, each_of-get, each_of-set}
use gophersat.Prelude.Int.{ℤ}
use gophersat.Semantics.{Assignment, Agrees}
use gophersat.Solver.Types.{Lit, lit_var, is_positive}
use gophersat.Solver.Types.Codec.{lit_true}
use gophersat.Solver.Problem.{Problem}
use gophersat.Solver.Problem.Units.{is_binding}
use gophersat.Solver.SimplifyPb.{simplify_pb_problem, replicate_units, size}
use gophersat.Solver.SimplifyPb.Passes.{IsFitProblem}
use gophersat.Semantics.{set-Agrees}
use gophersat.Prelude.Slices.{store-Returns, each_of-set}
use gophersat.Solver.Problem.Literals.{below}
use gophersat.Solver.Problem.Units.{value_of, value-Reads, is_binding-value}
use gophersat.Solver.SimplifyPb.Rounds.{Simplified, rounds-Returns}

-- The bindings with those of the units.
record Replicated (units : List Lit) (model model' : List ℤ) : Type 0 where
  sized : length model' ≡ length model
  bindings : each_of is_binding model' ≡ true
  agrees : (a : Assignment) → each_of (lit_true a) units ≡ true → Agrees a model → Agrees a model'

replicate_units-Returns :
    (units : List Lit) (model : List ℤ)
    → each_of (below (length model)) units ≡ true
    → each_of is_binding model ≡ true
    → Returns (Replicated units model) (replicate_units units model)
unfolding replicate_units
replicate_units-Returns [] model r b =
    returns (record { sized = refl; bindings = b; agrees = λ a u g. g })
replicate_units-Returns (l ∷ units) model r b =
    let v = lit_var l in
    let value = value_of (is_positive l) in
    let lt = ltb→lt v (length model) (ground arith) in
    let (old, at, _) = load-ok model v lt in
    let same_length = length-set model v value in
    let bound : each_of is_binding (set model v value) ≡ true =
      each_of-set is_binding model v old value at
        (is_binding-value (is_positive l) ∙ sym (each_of-get is_binding model v old b at))
      ∙ b in
    Returns-bind (store-Returns {P = λ m. m ≡ set model v value} model v value lt refl) (λ m e.
      rw e (
        Returns-map
          (replicate_units-Returns units (set model v value) (rw same_length (ground arith)) bound)
          (λ m' d. record {
            sized = d.sized ∙ same_length;
            bindings = d.bindings;
            agrees = λ a u g. d.agrees a (ground arith) (
                set-Agrees a model v value lt (value-Reads (is_positive l) (a v) (ground arith)) g);
          })))

-- simplifyPB returns: the problem that it leaves has the same solutions, it is found Unsat, and so has none,
-- or fits, and the status of an Indet problem is settled. The problem fits, its units are of its variables,
-- and its bindings are what the units impose.
pub simplify_pb_problem_correct :
    (pb : Problem)
    → IsFitProblem pb
    → each_of (below (length pb.model)) pb.units ≡ true
    → ((a : Assignment) → each_of (lit_true a) pb.units ≡ true → Agrees a pb.model)
    → Returns (Simplified pb) (simplify_pb_problem pb)
unfolding simplify_pb_problem
simplify_pb_problem_correct pb h r imposed =
    Returns-bind (replicate_units-Returns pb.units pb.model r h.bindings) (λ model d.
      let fits : IsFitProblem (record pb { model = model }) = record {
        live = h.live;
        bindings = d.bindings;
        fit = rw d.sized h.fit;
      } in
      Returns-map
        (rounds-Returns (size pb.clauses + 1) (record pb { model = model }) fits (omega arith))
        (λ pb' s. record {
          same = λ a.
              let (f, b) = s.same a in
              (
                λ (l, g). f (
                  l,
                  record {
                    agrees = d.agrees a g.units_hold g.agrees;
                    units_hold = g.units_hold;
                    clauses_hold = g.clauses_hold;
                  },
                ),
                λ g.
                    let (l, g') = b g in
                    (
                      l,
                      record {
                        agrees = imposed a g'.units_hold;
                        units_hold = g'.units_hold;
                        clauses_hold = g'.clauses_hold;
                      },
                    ),
              );
          fits = s.fits;
          settled = s.settled;
        }))
