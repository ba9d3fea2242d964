-- ===== src/Solver/SimplifyPb/Passes.antt =====
-- One pass over the clauses keeps the solutions of the problem.
use gophersat.Prelude.{
  ℕ, ◌-◌, ◌^◌, ◌<◌, ◌≡◌, ◌↔◌, refl, sym, ap, ◌∙◌, Bool, true, false, not, some, List, length,
  get_elem?, set, arith,
}
use gophersat.Prelude.Slices.{swap_remove, each_of, each_of-get, each_of-set, each_of-swap_remove}
use gophersat.Prelude.Int.{ℤ, pos, negsuc, pos_part, ltb_ℤ, ◌-ℤ◌, ◌≤ℤ◌, parts_of_eq, int_laws}
use gophersat.Semantics.{Assignment, Agrees}
use gophersat.Solver.Types.Codec.{lit_true}
use gophersat.Solver.Problem.{Clause, PbData, Problem, is_unsat}
use gophersat.Solver.Problem.Units.{is_binding}
use gophersat.Solver.Clause.{cardinality, weights_of}
use gophersat.Solver.Clause.Meaning.{sum_true, cardinality_word}
use gophersat.Solver.Clause.Simplify.{sum_true_bounds, above_lt}
use gophersat.Solver.SimplifyPb.Meets.{meets, not_below}
use gophersat.Solver.SimplifyPb.States.{State, pb_clause, IsFit, Fulfils, Link}
use gophersat.Solver.SimplifyPb.Fit.{IsFitClause, AreFit, AreFit-set, AreFit-swap_remove, start}

-- The assignment extends the bindings and satisfies the units and the clauses.
pub record Solution (a : Assignment) (pb : Problem) : Type 0 where
  pub agrees : Agrees a pb.model
  pub units_hold : each_of (lit_true a) pb.units ≡ true
  pub clauses_hold : each_of (meets a) pb.clauses ≡ true

abbrev pub SameSolutions : Problem → Problem → Type 0
SameSolutions pb pb' = (a : Assignment) → Solution a pb ↔ Solution a pb'

-- The problem is not found Unsat, its bindings are 0, 1 or -1, and its clauses fit.
pub record IsFitProblem (pb : Problem) : Type 0 where
  pub live : is_unsat pb.status ≡ false
  pub bindings : each_of is_binding pb.model ≡ true
  pub fit : AreFit (length pb.model) pb.clauses

-- The clause that a scan leaves.
abbrev pub left : State → Clause
left t = pb_clause t.lits t.lbd t.ws t.watched

left_degree :
    (c : Clause) (card : ℤ)
    → c.lbd_value ≡ pos_part (card -ℤ pos 1)
    → card ≤ℤ pos (2 ^ 30)
    → not (ltb_ℤ (pos 0) card) ≡ false
    → (pos (cardinality c) ≡ card) × (c.lbd_value < 2 ^ 30)
unfolding ◌-ℤ◌
left_degree c (negsuc n) e d p = absurd (ground arith)
left_degree c (pos n) e d p =
    let above : 0 < n = ground arith in
    let word : c.lbd_value ≡ n - 1 = ground arith in
    (ap pos (cardinality_word c n above (omega arith) word), omega arith)

Bool-ext : (x y : Bool) → (x ≡ true) ↔ (y ≡ true) → x ≡ y
Bool-ext true y h = sym (h.0 refl)
Bool-ext false true h = h.1 refl
Bool-ext false false h = refl

module _ (pb : Problem) (modified : Bool) (i : ℕ) (c : Clause) (d : PbData) (t : State)
    (at : get_elem? pb.clauses i ≡ some c) (fits : IsFit t) (l : Link (start pb modified c d) t)
    (same : (a : Assignment)
      → (meets a c ≡ true) ↔ (pos (cardinality c) ≤ℤ sum_true a c.lits d.weights)) where
  fulfils : (a : Assignment) → Solution a pb → Fulfils a t
  fulfils a h =
      (l.same a).0 (h.agrees, (same a).0 (each_of-get (meets a) pb.clauses i c h.clauses_hold at))

  -- Clauses that hold where the ones before do, under the new bindings.
  moved :
      (cs : List Clause)
      → ((a : Assignment)
          → Agrees a t.pb.model
          → each_of (meets a) cs ≡ each_of (meets a) pb.clauses)
      → SameSolutions pb (record t.pb { clauses = cs })
  moved cs e a = (
    λ h.
        let g = (fulfils a h).0 in
        record {
          agrees = g;
          units_hold = l.units a g ∙ h.units_hold;
          clauses_hold = e a g ∙ h.clauses_hold;
        },
    λ h. record {
      agrees = l.agree a h.agrees;
      units_hold = sym (l.units a h.agrees) ∙ h.units_hold;
      clauses_hold = sym (e a h.agrees) ∙ h.clauses_hold;
    },
  )

  -- The clause is met where the one that the scan leaves reaches its degree.
  scanned_meets :
      (a : Assignment)
      → Agrees a t.pb.model
      → (meets a c ≡ true) ↔ (t.card ≤ℤ sum_true a t.lits t.ws)
  scanned_meets a g =
      (λ m. ((l.same a).0 (l.agree a g, (same a).0 m)).1, λ m. (same a).1 ((l.same a).1 (g, m)).1)

  left_meets :
      not (ltb_ℤ (pos 0) t.card) ≡ false
      → (a : Assignment) → Agrees a t.pb.model
      → meets a (left t) ≡ meets a c
  unfolding weights_of
  left_meets p a g =
      let (e, _) = left_degree (left t) t.card fits.word fits.degree p in
      let (f, b) = not_below (sum_true a t.lits t.ws) t.card in
      let (f', b') = scanned_meets a g in Bool-ext _ _ (rw e (λ m. b' (f m), λ m. b (f' m)))

  pub kept-SameSolutions :
      not (ltb_ℤ (pos 0) t.card) ≡ false
      → SameSolutions pb (record t.pb { clauses = set pb.clauses i (left t) })
  kept-SameSolutions p =
      moved (set pb.clauses i (left t))
        (λ a g. each_of-set (meets a) pb.clauses i c (left t) at (left_meets p a g))

  pub gone-SameSolutions :
      not (ltb_ℤ (pos 0) t.card) ≡ true
      → SameSolutions pb (record t.pb { clauses = swap_remove pb.clauses i })
  gone-SameSolutions p = moved (swap_remove pb.clauses i) (λ a g.
      let m =
        (scanned_meets a g).1
          (at_most_zero t.card _ p (sum_true_bounds a t.lits t.ws fits.weights).0) in
      ground (arith, each_of-swap_remove (meets a) pb.clauses i c at))
    where
      at_most_zero : (x y : ℤ) → not (ltb_ℤ (pos 0) x) ≡ true → pos 0 ≤ℤ y → x ≤ℤ y
      at_most_zero (pos n) y p q = ground arith
      at_most_zero (negsuc n) y p q = omega arith

  pub unmet : ltb_ℤ t.w_sum t.card ≡ true → (a : Assignment) → Solution a pb → ⊥
  unmet p a h =
      let (g, m) = fulfils a h in
      let (_, high) = sum_true_bounds a t.lits t.ws fits.weights in
      let low = above_lt t.w_sum t.card p in
      absurd (omega (int_laws, parts_of_eq fits.sum_up, high, low, m))

  left-IsFitClause : not (ltb_ℤ (pos 0) t.card) ≡ false → IsFitClause (length pb.model) (left t)
  left-IsFitClause p = record {
    sized = fits.sized;
    weights = fits.weights;
    bounded = fits.bounded;
    word = (left_degree (left t) t.card fits.word fits.degree p).1;
    ranged = rw (sym l.model_length) fits.ranged;
  }

  pub kept-IsFitProblem :
      IsFitProblem pb
      → not (ltb_ℤ (pos 0) t.card) ≡ false
      → IsFitProblem (record t.pb { clauses = set pb.clauses i (left t) })
  kept-IsFitProblem h p = record {
    live = fits.live;
    bindings = fits.bindings;
    fit =
        rw l.model_length
          (AreFit-set (length pb.model) pb.clauses i (left t) h.fit (left-IsFitClause p));
  }

  pub gone-IsFitProblem :
      IsFitProblem pb → IsFitProblem (record t.pb { clauses = swap_remove pb.clauses i })
  gone-IsFitProblem h = record {
    live = fits.live;
    bindings = fits.bindings;
    fit = rw l.model_length (AreFit-swap_remove (length pb.model) pb.clauses i h.fit);
  }
