-- ===== src/Solver/Optimize.antt =====
-- solver/solver.go: Minimize and Optimal, over the operations of the solver that they call.
pub mod Costs
pub mod Minimum
pub mod Results
pub mod OneVariable
pub mod ThreeVariables
mod Tests
use gophersat.Prelude.{
  ℕ, zero, suc, ◌+◌, ◌≡◌, ◌↔◌, Bool, true, false, not, ◌&&◌, Option, none, some, List, [], ◌∷◌,
  ◌++◌, map, length, get_elem?, ◌==◌, if◌then◌else◌,
}
use gophersat.Prelude.Run.{Run, ok, panic, out_of_fuel, ◌>>=◌, Returns}
use gophersat.Prelude.Slices.{load, each_of}
use gophersat.Prelude.Int.{ℤ, pos, negsuc, pos_part, ltb_ℤ, ◌==ℤ◌, ◌+ℤ◌, ◌-ℤ◌}
use gophersat.Semantics.{Assignment}
use gophersat.Solver.Types.{Status, indet, sat, unsat, Lit, lit_var, is_positive, negation}
use gophersat.Solver.Problem.{Clause, same_sign, is_unsat}
use gophersat.Solver.Problem.Literals.{below}
use gophersat.Solver.Clause.{
  Term, terms_of, sort_terms, term_lits, term_weights, total, new_pb_clause,
}
use gophersat.Solver.Clause.Meaning.{MeetsClause}

unfoldable pub is_sat : Status → Bool
is_sat sat = true
is_sat _ = false

-- The assignment that a total binding of the variables stands for.
unfoldable pub read : List ℤ → Assignment
read model v = elim (get_elem? model v) [ none ↦ false | some b ↦ ltb_ℤ (pos 0) b ]

-- The operations of the solver that Minimize and Optimal call, and the fields they read and write.
pub record Solver : Type 1 where
  pub State : Type 0
  pub nb_vars : ℕ
  pub solve : State → Run (Status × State)
  pub append_clause : Clause → State → Run State
  pub rebuild_order_heap : State → State
  pub model : State → List ℤ
  pub last_model : State → Option (List ℤ)
  pub save_model : List ℤ → State → State
  pub Solutions : State → Assignment → Type 0

-- What Solve promises of the status and the state after it, what AppendClause promises, and that the
-- other operations keep the solutions.
pub record Contract (solver : Solver) : Type 0 where
  pub solve_answers :
      (s : solver.State)
      → Returns
          (λ r.
            ((a : Assignment) → solver.Solutions r.1 a ↔ solver.Solutions s a)
            × (is_unsat r.0 ≡ not (is_sat r.0))
            × (is_sat r.0 ≡ true
                → solver.Solutions s (read (solver.model r.1))
                  × (length (solver.model r.1) ≡ solver.nb_vars))
            × (is_sat r.0 ≡ false
                → ((a : Assignment) → solver.Solutions s a → ⊥)
                  × (solver.last_model r.1 ≡ solver.last_model s)))
          (solver.solve s)
  pub append_adds :
      (c : Clause) (s : solver.State)
      → each_of (below solver.nb_vars) c.lits ≡ true
      → Returns
          (λ s'.
            ((a : Assignment) → solver.Solutions s' a ↔ (solver.Solutions s a × MeetsClause a c))
            × (solver.last_model s' ≡ solver.last_model s))
          (solver.append_clause c s)
  pub rebuild_keeps :
      (s : solver.State)
      → ((a : Assignment) → solver.Solutions (solver.rebuild_order_heap s) a ↔ solver.Solutions s a)
        × (solver.last_model (solver.rebuild_order_heap s) ≡ solver.last_model s)
  pub save_keeps :
      (m : List ℤ) (s : solver.State)
      → ((a : Assignment) → solver.Solutions (solver.save_model m s) a ↔ solver.Solutions s a)
        × (solver.model (solver.save_model m s) ≡ solver.model s)
        × (solver.last_model (solver.save_model m s) ≡ some m)

-- The loop over minLits: the cost of the bindings. Without weights each literal counts 1.
unfoldable pub model_cost : List ℤ → List Lit → Option (List ℤ) → Run ℤ
unfolding same_sign
model_cost model [] weights = ok (pos 0)
model_cost model (l ∷ lits) none = do
  b ← load model (lit_var l)
  rest ← model_cost model lits none
  ok ((if same_sign (ltb_ℤ (pos 0) b) (is_positive l) then pos 1 else pos 0) +ℤ rest)
model_cost model (l ∷ lits) (some []) = do
  b ← load model (lit_var l)
  rest ← model_cost model lits (some [])
  if same_sign (ltb_ℤ (pos 0) b) (is_positive l) then panic else ok rest
model_cost model (l ∷ lits) (some (w ∷ weights)) = do
  b ← load model (lit_var l)
  rest ← model_cost model lits (some weights)
  ok ((if same_sign (ltb_ℤ (pos 0) b) (is_positive l) then w else pos 0) +ℤ rest)

-- `maxCost`
unfoldable pub max_cost : List Lit → Option (List ℤ) → ℤ
unfolding total
max_cost lits none = pos (length lits)
max_cost lits (some weights) = total weights

-- `hypothesis` and `weights`, sorted. Where minWeights is nil, `weights` is empty: with two literals or
-- more the sort calls Less, which reads the weight at index 1.
unfoldable pub sorted_hypothesis : List Lit → Option (List ℤ) → Run (List Lit × List ℤ)
unfolding terms_of sort_terms
sorted_hypothesis [] none = ok ([], [])
sorted_hypothesis (l ∷ []) none = ok (negation l ∷ [], [])
sorted_hypothesis (l ∷ k ∷ lits) none =
    let weights : List ℤ = [] in
    load weights 1 >>= λ weight. ok (map negation (l ∷ k ∷ lits), weights)
sorted_hypothesis lits (some weights) = terms_of (map negation lits) weights >>= λ terms.
    let sorted = sort_terms [] terms in ok (term_lits sorted, term_weights sorted)

-- `make(Model, len(s.model))`
abbrev pub blank : List ℤ → List ℤ
blank model = map (λ b. pos 0) model

-- `Result`
pub record Result : Type 0 where
  pub status : Status
  pub model : List Bool
  pub weight : ℤ

-- `var res Result`
abbrev pub no_result : Result
no_result = record { status = indet; model = []; weight = pos 0 }

-- `s.Model()`, of the saved model, which Optimal has just copied.
unfoldable pub model_of : List ℤ → List Bool
model_of model = map (ltb_ℤ (pos 0)) model

module _ (solver : Solver) where
  open solver use {State, solve, append_clause, rebuild_order_heap, model, save_model}

  -- The constraint that the cost is lower, and the next call of Solve: the end of the loop's body, which
  -- is the same in Minimize and in Optimal.
  unfoldable pub improve : List Lit × List ℤ → ℤ → ℤ → State → Run (Status × State)
  unfolding new_pb_clause
  improve (lits2, weights2) max cost s = do
    c ← new_pb_clause lits2 (some weights2) (max -ℤ cost +ℤ pos 1)
    s' ← append_clause c s
    solve (rebuild_order_heap s')

  -- `for status == Sat` of Minimize, after a first round's status.
  unfoldable pub minimize_loop :
      ℕ → List Lit → Option (List ℤ) → List Lit × List ℤ → ℤ → ℤ → Status → State → Run (ℤ × State)
  unfolding model_cost improve is_sat
  minimize_loop zero lits weights hypothesis max cost status s = out_of_fuel
  minimize_loop (suc fuel) lits weights hypothesis max cost status s =
      let saved = save_model (model s) s in
      let round : Run (ℤ × State) = model_cost (model saved) lits weights >>= λ now.
      let next : Run (ℤ × State) = improve hypothesis max now saved >>= λ (status', s').
      minimize_loop fuel lits weights hypothesis max now status' s' in
      if now ==ℤ pos 0 then ok (pos 0, saved) else next in
      if is_sat status then round else ok (cost, s)

  -- `s.Minimize()`, with fuel for the rounds of its loop.
  unfoldable pub minimize : Option (List Lit) → Option (List ℤ) → State → Run (ℤ × State)
  unfolding minimize_loop sorted_hypothesis max_cost is_unsat
  minimize min_lits min_weights s = solve s >>= λ (status, s').
      let optimise : Run (ℤ × State) = elim min_lits [
        | none ↦ ok (pos 0, s')
        | some lits ↦ sorted_hypothesis lits min_weights >>= λ hypothesis.
            minimize_loop (pos_part (max_cost lits min_weights) + 2) lits min_weights hypothesis
              (max_cost lits min_weights) (pos 0) status (save_model (blank (model s')) s')
      ] in
      if is_unsat status then ok (negsuc 0, s') else optimise

  -- `for status == Sat` of Optimal: the results that are sent, and the last one.
  unfoldable pub optimal_loop :
      ℕ
      → List Lit
      → Option (List ℤ)
      → List Lit × List ℤ
      → ℤ
      → List Result
      → Result
      → Status
      → State
      → Run (List Result × Result × State)
  unfolding model_cost improve is_sat model_of
  optimal_loop zero lits weights hypothesis max sent res status s = out_of_fuel
  optimal_loop (suc fuel) lits weights hypothesis max sent res status s =
      let saved = save_model (model s) s in
      let round : Run (List Result × Result × State) =
        model_cost (model saved) lits weights >>= λ now.
        let found : Result = record { status = sat; model = model_of (model s); weight = now } in
        let next : Run (List Result × Result × State) =
          improve hypothesis max now saved >>= λ (status', s').
          optimal_loop fuel lits weights hypothesis max (sent ++ found ∷ []) found status' s' in
        if now ==ℤ pos 0 then ok (sent ++ found ∷ [], found, saved) else next in
      if is_sat status then round else ok (sent, res, s)

  unfoldable pub optimal :
      Option (List Lit) → Option (List ℤ) → State → Run (List Result × Result × State)
  unfolding optimal_loop sorted_hypothesis max_cost is_unsat model_of
  optimal min_lits min_weights s = solve s >>= λ (status, s').
      let refuted : Result = record { status = unsat; model = []; weight = pos 0 } in
      let decided : Result = record { status = sat; model = model_of (model s'); weight = pos 0 } in
      let optimise : Run (List Result × Result × State) = elim min_lits [
        | none ↦ ok (decided ∷ [], decided, save_model (model s') s')
        | some lits ↦ sorted_hypothesis lits min_weights >>= λ hypothesis.
            optimal_loop (pos_part (max_cost lits min_weights) + 2) lits min_weights hypothesis
              (max_cost lits min_weights) [] no_result status (save_model (blank (model s')) s')
      ] in
      if is_unsat status then ok (refuted ∷ [], refuted, s') else optimise
