-- ===== src/Solver/Optimize/Minimum.antt =====
-- Minimize returns the least cost, and leaves a model of that cost.
use gophersat.Prelude.{
  ℕ, ◌+◌, ◌^◌, ◌<◌, ◌≤◌, ◌≡◌, ◌↔◌, refl, sym, ap, ◌∙◌, Bool, true, false, not, some, List, length,
  ◌⊎◌, ◌==◌, arith,
}
use gophersat.Prelude.Run.{Returns, Returns-bind, Returns-map}
use gophersat.Prelude.Slices.{each_of}
use gophersat.Prelude.Int.{ℤ, pos, negsuc, pos_part, ◌+ℤ◌, ◌≤ℤ◌, parts_of_eq, int_laws}
use gophersat.Semantics.{Assignment}
use gophersat.Solver.Types.{Status, Lit}
use gophersat.Solver.Problem.Literals.{below}
use gophersat.Solver.Clause.{total}
use gophersat.Solver.Clause.Meaning.{sum_true}
use gophersat.Solver.Clause.Simplify.{NonNegative, sum_true_bounds}
use gophersat.Solver.Optimize.{Solver, Contract, read, is_sat, improve}
use gophersat.Solver.Optimize.Costs.{Hypothesis, Cheaper-Returns}

pub follow : {P Q R : Type 0} → P ↔ Q → Q ↔ R → P ↔ R
follow (to, from) (add, take) = (λ p. add (to p), λ q. from (take q))

-- Facts on the costs of a round.
pub natural : (x : ℤ) → pos 0 ≤ℤ x → x ≡ pos (pos_part x)
natural (pos n) p = refl
natural (negsuc n) p = absurd (omega arith)

pub least : {x : ℤ} {n : ℕ} → x ≡ pos n → (n == 0) ≡ true → pos 0 ≡ x
least {x} {n} v z = rw v (ap pos (ground arith))

pub at_most : {x y : ℤ} {n m : ℕ} → x ≡ pos n → y ≡ pos m → x ≤ℤ y → n ≤ m
at_most v t p = omega (int_laws, parts_of_eq v, parts_of_eq t)

pub lower : {x : ℤ} {n k : ℕ} → x ≡ pos n → x +ℤ pos 1 ≤ℤ pos k → n < k
lower v p = omega (int_laws, parts_of_eq v)

pub not_below : (x : ℤ) (k : ℕ) → (x +ℤ pos 1 ≤ℤ pos k → ⊥) → pos k ≤ℤ x
not_below x k p = omega int_laws

-- What Solve says of the status.
pub unsat-sat : {x y : Bool} → x ≡ not y → x ≡ true → y ≡ false
unsat-sat p q = ground arith

pub possible-sat : {x y : Bool} → x ≡ not y → x ≡ false → y ≡ true
possible-sat p q = ground arith

-- The total of the weights bounds each cost.
pub below_total :
    (a : Assignment) (lits : List Lit) (ws : List ℤ) (m : ℕ)
    → NonNegative ws
    → total ws ≡ pos m
    → sum_true a lits ws +ℤ pos 1 ≤ℤ pos (m + 1)
below_total a lits ws m nn t = omega (int_laws, parts_of_eq t, (sum_true_bounds a lits ws nn).1)

module _ (solver : Solver) (laws : Contract solver) where
  open solver use {State, Solutions, model, last_model, save_model, nb_vars}

  -- Either there is no solution and the cost is -1, or the saved model is a solution of that cost, and
  -- no solution has a lower one.
  abbrev pub Optimum : State → List Lit → List ℤ → ℤ × State → Type 0
  Optimum s lits ws (c, s') =
      ((c ≡ negsuc 0) × ((a : Assignment) → Solutions s a → ⊥))
      ⊎ ((m : List ℤ) × (last_model s' ≡ some m)
          × Solutions s (read m)
          × (c ≡ sum_true (read m) lits ws)
          × ((a : Assignment) → Solutions s a → c ≤ℤ sum_true a lits ws))

  -- The solutions are those of the first state with a cost below k.
  abbrev pub Below : State → List Lit → List ℤ → ℕ → State → Type 0
  Below s lits ws k s' =
      (a : Assignment) → Solutions s' a ↔ (Solutions s a × (sum_true a lits ws +ℤ pos 1 ≤ℤ pos k))

  -- What a call of Solve left: a model, or no solution and the saved model of cost k.
  abbrev pub Answer : State → List Lit → List ℤ → ℕ → ℤ → Status → State → Type 0
  Answer s lits ws k cost status s' =
      (is_sat status ≡ true → Solutions s' (read (model s')) × (length (model s') ≡ nb_vars))
      × (is_sat status ≡ false
          → ((a : Assignment) → Solutions s' a → ⊥)
            × (m : List ℤ) × (last_model s' ≡ some m)
            × Solutions s (read m)
            × (pos k ≡ sum_true (read m) lits ws)
            × (cost ≡ pos k))

  pub improve-Returns :
      (s0 : State) (lits : List Lit) (ws : List ℤ) (ts : List Lit × List ℤ) (m k n : ℕ) (s : State)
      (b : List ℤ)
      → Hypothesis lits ws ts
      → each_of (below nb_vars) lits ≡ true
      → total ws ≡ pos m
      → m < 2 ^ 30
      → n ≤ m
      → n < k
      → Below s0 lits ws k s
      → last_model s ≡ some b
      → Solutions s0 (read b)
      → sum_true (read b) lits ws ≡ pos n
      → Returns
          (λ r.
            Below s0 lits ws n r.1
            × Answer s0 lits ws n (pos n) r.0 r.1
            × (is_sat r.0 ≡ false → last_model r.1 ≡ some b))
          (improve solver ts (pos m) (pos n) s)
  unfolding improve
  improve-Returns s0 lits ws ts m k n s b h r t small le lt was last sol cost =
      Returns-bind (Cheaper-Returns lits ws ts m n h t le small) (λ c cheaper.
        Returns-bind (laws.append_adds c s (cheaper.ranged nb_vars ∙ r)) (λ s' (adds, kept).
          let (same, kept') = laws.rebuild_keeps s' in
          let lower : Below s0 lits ws n (solver.rebuild_order_heap s') =
            λ a. narrow _ (same a) (adds a) (was a) (cheaper.meets a) in
          Returns-map (laws.solve_answers (solver.rebuild_order_heap s'))
            (λ (status, s2) (keeps, u, found, none_left). (
              λ a. follow (keeps a) (lower a),
              (
                λ e. ((keeps _).1 (found e).0, (found e).1),
                λ e. (
                  λ a sat. (none_left e).0 a ((keeps a).0 sat),
                  b,
                  (none_left e).1 ∙ kept' ∙ kept ∙ last,
                  sol,
                  sym cost,
                  refl,
                ),
              ),
              λ e. (none_left e).1 ∙ kept' ∙ kept ∙ last,
            ))))
    where
      widen : (x : ℤ) → x +ℤ pos 1 ≤ℤ pos n → x +ℤ pos 1 ≤ℤ pos k
      widen x p = omega int_laws

      narrow :
          {P Q R S M : Type 0} (x : ℤ)
          → P ↔ Q
          → Q ↔ (R × M)
          → R ↔ (S × (x +ℤ pos 1 ≤ℤ pos k))
          → M ↔ (x +ℤ pos 1 ≤ℤ pos n)
          → P ↔ (S × (x +ℤ pos 1 ≤ℤ pos n))
      narrow x (to, from) (add, take) (above, into) (meet, met) = (
        λ p. let q = add (to p) in ((above q.0).0, meet q.1),
        λ (y, below_n). from (take (into (y, widen x below_n), met below_n)),
      )
