-- ===== src/Solver/SimplifyPb/Loop.antt =====
-- The loop over the clauses returns, and keeps the solutions of the problem.
use gophersat.Prelude.{
  ℕ, zero, suc, ◌+◌, ◌-◌, ◌<◌, ◌≤◌, ◌≡◌, ◌↔◌, refl, ◌∙◌, Bool, true, false, not, some, get_elem?,
  get_elem?-lt, length, length-set, set, arith, ltb, ltb→lt, ◌⊎◌, inl, inr,
}
use gophersat.Prelude.Run.{Returns, returns, Returns-bind, Returns-if, Returns-map}
use gophersat.Prelude.Slices.{load-ok, swap_remove, length-swap_remove, each_of-get}
use gophersat.Prelude.Int.{pos, ltb_ℤ, ◌≤ℤ◌}
use gophersat.Semantics.{Assignment}
use gophersat.Solver.Types.{unsat}
use gophersat.Solver.Problem.{Clause, PbData, Problem}
use gophersat.Solver.Clause.{cardinality}
use gophersat.Solver.Clause.Meaning.{sum_true}
use gophersat.Solver.SimplifyPb.{scanned, clash, Pass, returned, ended, pass_loop, size}
use gophersat.Solver.SimplifyPb.Meets.{meets}
use gophersat.Solver.SimplifyPb.States.{State, IsFit, Link}
use gophersat.Solver.SimplifyPb.Fit.{
  start, AreFit-get, size-swap_remove, size-set, scan_clause-Returns,
}
use gophersat.Solver.SimplifyPb.Passes.{
  left, Solution, SameSolutions, IsFitProblem, kept-SameSolutions, gone-SameSolutions, unmet,
  kept-IsFitProblem, gone-IsFitProblem,
}

-- A pass keeps the solutions, and leaves a smaller problem if it modifies one.
pub record PassEnd (modified : Bool) (pb : Problem) (modified' : Bool) (pb' : Problem)
    : Type 0 where
  pub same : SameSolutions pb pb'
  pub fits : IsFitProblem pb'
  pub status : pb'.status ≡ pb.status
  pub smaller : size pb'.clauses ≤ size pb.clauses
  pub progress : modified' ≡ true → (modified ≡ true) ⊎ (size pb'.clauses < size pb.clauses)

abbrev pub Passed : Bool → Problem → Pass → Type 0
Passed modified pb (returned pb') = (pb'.status ≡ unsat) × ((a : Assignment) → Solution a pb → ⊥)
Passed modified pb (ended modified' pb') = PassEnd modified pb modified' pb'

pub SameSolutions-trans :
    (p q r : Problem) → SameSolutions p q → SameSolutions q r → SameSolutions p r
SameSolutions-trans p q r f g a =
    let (f0, f1) = f a in let (g0, g1) = g a in (λ s. g0 (f0 s), λ s. f1 (g1 s))

-- What the rest of the pass promises, after clause i.
Passed-from :
    (m m' : Bool) (pb mid : Problem)
    → SameSolutions pb mid
    → mid.status ≡ pb.status
    → size mid.clauses ≤ size pb.clauses
    → (m' ≡ true → (m ≡ true) ⊎ (size mid.clauses < size pb.clauses))
    → (pass : Pass) → Passed m' mid pass
    → Passed m pb pass
Passed-from m m' pb mid f st le p (returned pb') (e, h) = (e, λ a s. h a ((f a).0 s))
Passed-from m m' pb mid f st le p (ended m'' pb') h = record {
  same = SameSolutions-trans pb mid pb' f h.same;
  fits = h.fits;
  status = h.status ∙ st;
  smaller = omega (arith, h.smaller, le);
  progress = λ e. elim (h.progress e) [
    | inl k ↦ elim (p k) [ inl j ↦ inl j | inr lt ↦ inr (omega (arith, h.smaller)) ]
    | inr lt ↦ inr (omega (arith, le))
  ];
}

-- The clause at place i, with the state that its scan leaves, and what the rest of the pass promises.
module _ (fuel i : ℕ) (modified : Bool) (pb : Problem) (c : Clause) (d : PbData) (t : State)
    (at : get_elem? pb.clauses i ≡ some c) (fits : IsFit t) (l : Link (start pb modified c d) t)
    (same : (a : Assignment)
      → (meets a c ≡ true) ↔ (pos (cardinality c) ≤ℤ sum_true a c.lits d.weights))
    (h : IsFitProblem pb)
    (rest : (k : ℕ) (m : Bool) (q : Problem)
      → IsFitProblem q
      → length q.clauses - k ≤ length pb.clauses - i - 1
      → Returns (Passed m q) (pass_loop fuel k m q)) where
  gone_rest :
      not (ltb_ℤ (pos 0) t.card) ≡ true
      → Returns
          (Passed modified pb)
          (pass_loop fuel i true (record t.pb { clauses = swap_remove pb.clauses i }))
  gone_rest satisfied =
      let mid = record t.pb { clauses = swap_remove pb.clauses i } in
      let lt = get_elem?-lt pb.clauses i c at in
      let fewer = length-swap_remove pb.clauses i lt in
      let less = size-swap_remove pb.clauses i lt in
      Returns-map
        (rest i true mid (gone-IsFitProblem pb modified i c d t at fits l same h) (omega arith))
        (Passed-from modified true pb mid
          (gone-SameSolutions pb modified i c d t at fits l same satisfied) l.status (omega arith)
          (λ _. inr less))

  kept_rest :
      not (ltb_ℤ (pos 0) t.card) ≡ false
      → Returns
          (Passed modified pb)
          (pass_loop fuel (i + 1) t.modified (record t.pb { clauses = set pb.clauses i (left t) }))
  kept_rest positive =
      let mid = record t.pb { clauses = set pb.clauses i (left t) } in
      let sized = size-set pb.clauses i c (left t) at in
      let as_many = length-set pb.clauses i (left t) in
      Returns-map
        (rest (i + 1) t.modified mid
          (kept-IsFitProblem pb modified i c d t at fits l same h positive) (omega arith))
        (Passed-from modified t.modified pb mid
          (kept-SameSolutions pb modified i c d t at fits l same positive) l.status
          (omega (arith, l.shorter))
          (λ m. elim (l.progress m) [ inl k ↦ inl k | inr lt ↦ inr (omega arith) ]))

pub pass_loop-Returns :
    (fuel i : ℕ) (modified : Bool) (pb : Problem)
    → IsFitProblem pb
    → length pb.clauses - i < fuel
    → Returns (Passed modified pb) (pass_loop fuel i modified pb)
unfolding pass_loop
pass_loop-Returns zero i modified pb h f = absurd (omega arith)
pass_loop-Returns (suc fuel) i modified pb h f =
    Returns-if (ltb i (length pb.clauses))
      (λ inside.
        let lt = ltb→lt i (length pb.clauses) inside in
        let (c, at, loaded) = load-ok pb.clauses i lt in
        let rest =
          λ (k : ℕ) (m : Bool) (q : Problem) (v : IsFitProblem q)
              (g : length q.clauses - k ≤ length pb.clauses - i - 1).
            pass_loop-Returns fuel k m q v (omega arith) in
        rw loaded (
          Returns-bind
            (scan_clause-Returns pb modified c
              (AreFit-get (length pb.model) pb.clauses i c h.fit at) h.bindings h.live)
            (elim [
              | clash pb' ↦ λ (d, (e, never), same).
                  let met = λ (a : Assignment) (s : Solution a pb).
                    (same a).0 (each_of-get (meets a) pb.clauses i c s.clauses_hold at) in
                  returns (e, λ a s. never a (s.agrees, met a s))
              | scanned s ↦ λ (d, (t, e, fits, l), same). rw e (
                  Returns-if (not (ltb_ℤ (pos 0) t.card))
                    (gone_rest fuel i modified pb c d t at fits l same h rest)
                    (λ positive.
                      Returns-if (ltb_ℤ t.w_sum t.card)
                        (λ low. returns (refl, unmet pb modified i c d t at fits l same low))
                        (λ _. kept_rest fuel i modified pb c d t at fits l same h rest positive)))
            ])))
      (λ outside. returns (record {
        same = λ a. (λ s. s, λ s. s);
        fits = h;
        status = refl;
        smaller = omega arith;
        progress = λ e. inl e;
      }))
