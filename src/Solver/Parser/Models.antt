-- ===== src/Solver/Parser/Models.antt =====
-- ParseSlice gives a problem with the models of the clauses that it reads.
use gophersat.Prelude.{
  ℕ, zero, suc, some, ◌≡◌, ◌↔◌, refl, ◌∙◌, Bool, true, false, List, length-replicate, replicate,
  get_elem?, arith, if◌then◌else◌, ◌⊎◌, inl,
}
use gophersat.Prelude.Run.{ok, ◌>>=◌, Returns, returns, Returns-bind, Returns-map}
use gophersat.Prelude.Slices.{each_of}
use gophersat.Prelude.Int.{ℤ, pos}
use gophersat.Semantics.{Assignment, Agrees}
use gophersat.Solver.Types.{unsat}
use gophersat.Solver.Problem.{Problem, is_unsat, simplify2}
use gophersat.Solver.Problem.Units.{is_binding}
use gophersat.Solver.Problem.Solutions.{Solves}
use gophersat.Solver.Problem.Prefix.{is_long}
use gophersat.Solver.Problem.Simplify.{simplify2_correct}
use gophersat.Solver.Parser.{bind_units, parse_into, parse_slice, parse_slice_nb, empty_problem}
use gophersat.Solver.Parser.Lines.{
  AreClauses, Counted, LinesRead, cnf_true, holds_in, parse_rows-Returns,
}
use gophersat.Solver.Parser.Binding.{Bound, BoundOr, bind_units-Returns}

pub replicate-bindings : (n : ℕ) → each_of is_binding (replicate n (pos 0)) ≡ true
replicate-bindings zero = refl
replicate-bindings (suc n) = replicate-bindings n

get_elem?-replicate : (n k : ℕ) (b : ℤ) → get_elem? (replicate n (pos 0)) k ≡ some b → b ≡ pos 0
get_elem?-replicate zero k b e = cc
get_elem?-replicate (suc n) zero b e = cc
get_elem?-replicate (suc n) (suc k) b e = get_elem?-replicate n k b e

pub replicate-Agrees : (a : Assignment) (n : ℕ) → Agrees a (replicate n (pos 0))
replicate-Agrees a n k b e = rw (get_elem?-replicate n k b e) tt

-- What ParseSlice promises: the models of the problem are those of the clauses, and it is found
-- Unsat or its clauses have two literals or more.
pub record ParsedSlice (cnf : List (List ℤ)) (pb : Problem) : Type 0 where
  pub same : (a : Assignment) → (cnf_true a cnf ≡ true) ↔ Solves a pb
  pub settled : (is_unsat pb.status ≡ true) ⊎ (each_of is_long pb.clauses ≡ true)

-- A problem found Unsat has no solution.
unsat-Solves : (a : Assignment) (pb : Problem) → pb.status ≡ unsat → Solves a pb → ⊥
unfolding is_unsat
unsat-Solves a pb e s = let l = s.live in cc (rw e at l)

-- The clauses that are read, once the units are bound: solving the problem is making them true.
solved_lem :
    (cnf : List (List ℤ)) (pb pb' : Problem) (a : Assignment)
    → is_unsat pb'.status ≡ false
    → holds_in a pb ≡ cnf_true a cnf
    → Bound pb.units (record pb { model = replicate pb.nb_vars (pos 0) }) pb'
    → (cnf_true a cnf ≡ true) ↔ Solves a pb'
solved_lem cnf pb pb' a l e d = (
  λ t. record {
    live = l;
    agrees = d.back a (replicate-Agrees a pb.nb_vars) (ground (arith, e));
    units_hold = rw d.units_kept (ground (arith, e));
    clauses_hold = rw d.clauses (ground (arith, e));
  },
  λ s.
      let c = rw d.clauses at s.clauses_hold in let u = (d.forth a s.agrees).1 in ground (arith, e),
)

after_units :
    (cnf : List (List ℤ)) (pb : Problem) (clash : Bool) (pb' : Problem)
    → is_unsat pb.status ≡ false
    → Counted pb
    → ((a : Assignment) → holds_in a pb ≡ cnf_true a cnf)
    → BoundOr pb.units (record pb { model = replicate pb.nb_vars (pos 0) }) (clash, pb')
    → Returns (ParsedSlice cnf) (if clash then ok pb' else simplify2 pb')
unfolding is_unsat
after_units cnf pb true pb' l c e (f, u) = returns (record {
  same = λ a. (
    λ t. let g = f a (replicate-Agrees a pb.nb_vars) in absurd (ground (arith, e a)),
    λ s. absurd (unsat-Solves a pb' u s),
  );
  settled = inl (rw u refl);
})
after_units cnf pb false pb' l c e d =
    let live : is_unsat pb'.status ≡ false = rw d.status l in
    let n = d.length ∙ length-replicate pb.nb_vars (pos 0) in
    Returns-map
      (simplify2_correct pb'
        (record { live = live; bindings = d.bindings; ranged = rw (n, d.clauses) c.clauses_below }))
      (λ out o. record {
        same = λ a.
            let first = solved_lem cnf pb pb' a live (e a) d in
            let then' = o.same a in (λ t. then'.0 (first.0 t), λ s. first.1 (then'.1 s));
        settled = o.settled;
      })

after_lines :
    (cnf : List (List ℤ)) (n : ℕ) (returned : Bool) (pb : Problem)
    → LinesRead cnf (empty_problem n) (returned, pb)
    → Returns (ParsedSlice cnf) (
        if returned
        then ok pb
        else bind_units pb.units (record pb { model = replicate pb.nb_vars (pos 0) })
          >>= λ (clash, pb'). if clash then ok pb' else simplify2 pb')
unfolding is_unsat
after_lines cnf n true pb (f, u) = returns (record {
  same = λ a. (λ t. absurd (ground (arith, f a)), λ s. absurd (unsat-Solves a pb u s));
  settled = inl (rw u refl);
})
after_lines cnf n false pb (c, t, f) =
    let start = record pb { model = replicate pb.nb_vars (pos 0) } in
    Returns-bind
      (bind_units-Returns pb.units start (replicate-bindings pb.nb_vars)
        (rw (length-replicate pb.nb_vars (pos 0)) c.units_below))
      (λ (clash, pb') d. after_units cnf pb clash pb' (rw t refl) c f d)

parse_into-ParsedSlice :
    (cnf : List (List ℤ)) (n : ℕ)
    → AreClauses cnf
    → Returns (ParsedSlice cnf) (parse_into cnf (empty_problem n))
unfolding parse_into
parse_into-ParsedSlice cnf n h =
    Returns-bind
      (parse_rows-Returns cnf (empty_problem n) h
        (record { units_below = refl; clauses_below = refl }))
      (λ (returned, pb) r. after_lines cnf n returned pb r)

-- For clauses of literals other than 0 and of at most 2^30 for their absolute value, ParseSlice and
-- ParseSliceNb return, with no panic. The solutions of their problem are the assignments that make
-- the clauses true; one whose status is Unsat has none. Its status is Unsat, or each of its clauses
-- has two literals or more.
pub parse_slice_correct :
    (cnf : List (List ℤ)) (nb_vars : ℕ)
    → AreClauses cnf
    → Returns (ParsedSlice cnf) (parse_slice cnf)
      × Returns (ParsedSlice cnf) (parse_slice_nb cnf nb_vars)
unfolding parse_slice parse_slice_nb
parse_slice_correct cnf nb_vars h =
    (parse_into-ParsedSlice cnf 0 h, parse_into-ParsedSlice cnf nb_vars h)
