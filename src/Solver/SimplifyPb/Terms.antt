-- ===== src/Solver/SimplifyPb/Terms.antt =====
-- The loop over the literals of a clause returns, and keeps what the clause and the bindings mean.
use mathlib.Core.Bool.{false≢true}
use gophersat.Prelude.{
  ℕ, zero, suc, ◌+◌, ◌-◌, ◌<◌, ◌≡◌, refl, sym, ◌∙◌, Bool, true, false, not, some, List, [], ◌∷◌,
  ◌++◌, length, get_elem?, arith, ltb, ltb→lt, if◌then◌else◌, Bool-cases, inl, inr, get_elem?-lt,
}
use gophersat.Prelude.Run.{Run, ok, ◌>>=◌, Returns, returns, Returns-bind, Returns-if, Returns-map}
use gophersat.Prelude.Slices.{load-ok, swap_remove, length-swap_remove, each_of, each_of-get}
use gophersat.Prelude.Int.{ℤ, pos, ltb_ℤ, ◌==ℤ◌, ◌+ℤ◌, ◌-ℤ◌, ◌≤ℤ◌, parts_of_eq, int_laws}
use gophersat.Semantics.{Assignment, Agrees, Reads}
use gophersat.Solver.Types.{Lit, lit_var, is_positive}
use gophersat.Solver.Types.Codec.{lit_true}
use gophersat.Solver.Problem.{Problem, same_sign, is_unsat}
use gophersat.Solver.Problem.Literals.{below, bound_true, bound_false}
use gophersat.Solver.Problem.Settle.{each_of-snoc}
use gophersat.Solver.Problem.Units.{is_binding, AddedUnit, clash, added, add_unit-Returns}
use gophersat.Solver.Clause.{weight, total}
use gophersat.Solver.Clause.Meaning.{sum_true}
use gophersat.Solver.Clause.Simplify.{sum_true_bounds, above_lt}
use gophersat.Solver.SimplifyPb.{Scanned, Outcome, scanned, without, counted, scan_terms}
use gophersat.Solver.SimplifyPb.Meets.{
  sum_true-swap_remove, total-swap_remove, NonNegative-swap_remove,
}
use gophersat.Solver.SimplifyPb.States.{
  State, scanned_of, IsFit, Link-refl, Promises, Promises-from,
}
use gophersat.Solver.SimplifyPb.Scan.{after, without-ok, Settles, after-Link, after-IsFit}
use gophersat.Solver.SimplifyPb

-- A bound literal has its value in every assignment that extends the bindings.
bound_Settles :
    (s : State) (lit : Lit) (w b : ℤ)
    → get_elem? s.pb.model (lit_var lit) ≡ some b
    → (b ==ℤ pos 0) ≡ false
    → each_of is_binding s.pb.model ≡ true
    → Settles s lit w (same_sign (b ==ℤ pos 1) (is_positive lit)) s.pb
bound_Settles s lit w b at is_bound i = record {
  agree = λ a g. (g, known (a (lit_var lit)) (g (lit_var lit) b at));
  back = λ a h. h.0;
  units = λ a g. refl;
  status = refl;
  clauses = refl;
  model_length = refl;
  bindings = i;
}
  where
    known :
        (x : Bool)
        → Reads b x
        → (if is_positive lit then x else not x) ≡ same_sign (b ==ℤ pos 1) (is_positive lit)
    known x r = elim (Bool-cases (same_sign (b ==ℤ pos 1) (is_positive lit))) [
      | inl e ↦ bound_true b lit x r is_bound e ∙ sym e
      | inr e ↦ bound_false b lit x r is_bound e ∙ sym e
    ]

-- Without the literal the weights do not reach the degree.
needed :
    (a : Assignment) (s : State) (j : ℕ) (lit : Lit) (w : ℤ)
    → get_elem? s.lits j ≡ some lit
    → get_elem? s.ws j ≡ some w
    → IsFit s
    → ltb_ℤ (s.w_sum -ℤ w) s.card ≡ true
    → s.card ≤ℤ sum_true a s.lits s.ws
    → lit_true a lit ≡ true
needed a s j lit w e f i low h =
    reached (lit_true a lit) _ _ (total s.ws) s.w_sum s.card
      (sum_true-swap_remove a s.lits s.ws j lit w e f i.sized) (total-swap_remove s.ws j w f)
      i.sum_up
      (sum_true_bounds a (swap_remove s.lits j) (swap_remove s.ws j)
        (NonNegative-swap_remove s.ws j i.weights)).1
      (above_lt (s.w_sum -ℤ w) s.card low) h
  where
    reached :
        (b : Bool) {x : ℤ} (y v t z c : ℤ)
        → x ≡ (if b then w else pos 0) +ℤ y
        → t ≡ w +ℤ v
        → z ≡ t
        → y ≤ℤ v
        → (z -ℤ w) +ℤ pos 1 ≤ℤ c
        → c ≤ℤ x
        → b ≡ true
    reached true y v t z c p q r u l h = refl
    reached false y v t z c p q r u l h =
        absurd (omega (int_laws, parts_of_eq p, parts_of_eq q, parts_of_eq r))

AddedUnit-Settles :
    (s : State) (j : ℕ) (lit : Lit) (w : ℤ)
    → get_elem? s.lits j ≡ some lit
    → get_elem? s.ws j ≡ some w
    → IsFit s
    → ltb_ℤ (s.w_sum -ℤ w) s.card ≡ true
    → (model : List ℤ) → length model ≡ length s.pb.model
    → each_of is_binding model ≡ true
    → ((a : Assignment) → Agrees a model → Agrees a s.pb.model × (lit_true a lit ≡ true))
    → ((a : Assignment) → Agrees a s.pb.model → lit_true a lit ≡ true → Agrees a model)
    → Settles s lit w true (record s.pb { model = model; units = s.pb.units ++ lit ∷ [] })
AddedUnit-Settles s j lit w e f i low model sized bound agree back = record {
  agree = agree;
  back = λ a (g, h). back a g (needed a s j lit w e f i low h);
  units = λ a g. let (_, t) = agree a g in ground (arith, each_of-snoc (lit_true a) s.pb.units lit);
  status = refl;
  clauses = refl;
  model_length = sized;
  bindings = bound;
}

-- The loop goes on with the literal gone.
gone :
    (fuel j : ℕ) (s : State) (lit : Lit) (w : ℤ) (counts : Bool) (pb : Problem)
    → get_elem? s.lits j ≡ some lit
    → get_elem? s.ws j ≡ some w
    → IsFit s
    → Settles s lit w counts pb
    → Returns
        (Promises (after j w counts pb s))
        (scan_terms fuel j (scanned_of (after j w counts pb s)))
    → Returns (Promises s) (
        without j w (
          if counts
          then counted w (record (scanned_of s) { pb = pb })
          else record (scanned_of s) { pb = pb })
        >>= λ s'. scan_terms fuel j s')
gone fuel j s lit w counts pb e f i h r =
    rw (without-ok j w counts pb s (get_elem?-lt s.lits j lit e) i.sized) (
      Returns-map r (λ out.
        Promises-from s (after j w counts pb s) out (after-Link s j lit w counts pb e f i.sized h)))

-- The problem that addUnit leaves.
forced :
    (fuel j : ℕ) (s : State) (lit : Lit) (w : ℤ)
    → get_elem? s.lits j ≡ some lit
    → get_elem? s.ws j ≡ some w
    → IsFit s
    → ltb_ℤ (s.w_sum -ℤ w) s.card ≡ true
    → ((pb : Problem)
        → Settles s lit w true pb
        → Returns (Promises s) (
            without j w (counted w (record (scanned_of s) { pb = pb })) >>= λ s'.
            scan_terms fuel j s'))
    → (pb : Problem) → AddedUnit lit s.pb pb
    → Returns (Promises s) (
        let go : Run Outcome = without j w (counted w (record (scanned_of s) { pb = pb })) >>= λ s'.
        scan_terms fuel j s' in
        if is_unsat pb.status then ok (gophersat.Solver.SimplifyPb.clash pb) else go)
unfolding is_unsat
forced fuel j s lit w e f i low rest pb (clash never) =
    returns
      (refl, λ a (g, h). absurd (false≢true (sym (never a g) ∙ needed a s j lit w e f i low h)))
forced fuel j s lit w e f i low rest pb (added model sized binds agree back) = rw i.live (
    rest (record s.pb { model = model; units = s.pb.units ++ lit ∷ [] })
      (AddedUnit-Settles s j lit w e f i low model sized binds agree back))

pub scan_terms-Returns :
    (fuel j : ℕ) (s : State)
    → IsFit s
    → length s.lits - j < fuel
    → Returns (Promises s) (scan_terms fuel j (scanned_of s))
unfolding scan_terms weight
scan_terms-Returns zero j s i f = absurd (omega arith)
scan_terms-Returns (suc fuel) j s i f =
    Returns-if (ltb j (length s.lits))
      (λ inside.
        let lt = ltb→lt j (length s.lits) inside in
        let (lit, at, loaded) = load-ok s.lits j lt in
        let (w, at_w, loaded_w) = load-ok s.ws j (omega (arith, i.sized)) in
        let ranged = each_of-get (below (length s.pb.model)) s.lits j lit i.ranged at in
        let hv = ltb→lt (lit_var lit) (length s.pb.model) ranged in
        let (b, bound, loaded_b) = load-ok s.pb.model (lit_var lit) hv in
        let less = length-swap_remove s.lits j lt in
        let rest = λ (counts : Bool) (pb : Problem) (h : Settles s lit w counts pb).
          gone fuel j s lit w counts pb at at_w i h (
            scan_terms-Returns fuel j (after j w counts pb s)
              (after-IsFit s j lit w counts pb at at_w i h) (omega (arith, less))) in
        rw (loaded, loaded_w, loaded_b)
          (Returns-if (b ==ℤ pos 0)
            (λ free.
              Returns-if (ltb_ℤ (s.w_sum -ℤ w) s.card)
                (λ low.
                  Returns-bind (add_unit-Returns lit s.pb i.bindings ranged)
                    (forced fuel j s lit w at at_w i low (rest true)))
                (λ high. scan_terms-Returns fuel (j + 1) s i (omega arith)))
            (λ is_bound. rest _ s.pb (bound_Settles s lit w b bound is_bound i.bindings))))
      (λ outside. returns (s, refl, i, Link-refl s))
