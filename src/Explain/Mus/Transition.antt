-- ===== src/Explain/Mus/Transition.antt =====
-- The inner loop of MUSInsertion finds the clause that makes the problem unsatisfiable.
use gophersat.Prelude.{
  ℕ, zero, suc, ◌+◌, ◌^◌, ◌≤◌, ◌≡◌, refl, sym, ap, ◌∙◌, Bool, true, false, ◌&&◌, none, some, List,
  [], ◌∷◌, get_elem?, take, arith,
}
use gophersat.Prelude.Run.{Returns, returns, Returns-if}
use gophersat.Prelude.Slices.{each_of}
use gophersat.Semantics.{Assignment, clause_true}
use gophersat.Solver.Types.{Status}
use gophersat.Solver.Parser.Lines.{cnf_true}
use gophersat.Solver.Optimize.{Solver, Contract, read, is_sat}
use gophersat.Solver.Problem
use gophersat.Explain.{Clause}
use gophersat.Explain.Loop.{AreClauses}
use gophersat.Explain.Mus.{add_until_unsat, clause_of}
use gophersat.Explain.Mus.Session.{Knows, Knows-same, append-Knows, Returns-bind_two}

module _ {ℓ} {A : Type ℓ} (p : A → Bool) where
  -- One element more.
  pub each_of-take_suc :
      (xs : List A) (i : ℕ) (x : A)
      → get_elem? xs i ≡ some x
      → each_of p (take (i + 1) xs) ≡ (each_of p (take i xs) && p x)
  each_of-take_suc [] i x e = cc
  each_of-take_suc (y ∷ xs) zero x e = ground arith
  each_of-take_suc (y ∷ xs) (suc i) x e =
      let s : suc i + 1 ≡ suc (i + 1) = omega arith in
      rw s (ground (arith, each_of-take_suc xs i x e))

  pub each_of-take_all :
      (xs : List A) (i : ℕ) → get_elem? xs i ≡ none → each_of p (take i xs) ≡ each_of p xs
  each_of-take_all [] zero e = refl
  each_of-take_all [] (suc i) e = refl
  each_of-take_all (y ∷ xs) zero e = cc
  each_of-take_all (y ∷ xs) (suc i) e = ap (λ b. p y && b) (each_of-take_all xs i e)

  pub each_of-take : (xs : List A) (i : ℕ) → each_of p xs ≡ true → each_of p (take i xs) ≡ true
  each_of-take xs zero e = refl
  each_of-take [] (suc i) e = refl
  each_of-take (y ∷ xs) (suc i) e = ground (arith, each_of-take xs i)

-- The clause before the index is there; without it the clauses so far can be made true, with it they
-- cannot.
pub record Transition (kept : Assignment → Bool) (clauses : List Clause) (k : ℕ) (c : Clause)
    : Type 0 where
  pub there : get_elem? clauses k ≡ some c
  pub model : Assignment
  pub model_holds : (kept model && cnf_true model (take k clauses)) ≡ true
  pub refuted :
      (a : Assignment) → (kept a && cnf_true a (take k clauses) && clause_true a c) ≡ true → ⊥

abbrev pub TransitionAt : (Assignment → Bool) → List Clause → ℕ → Type 0
TransitionAt kept clauses zero = ⊥
TransitionAt kept clauses (suc k) = (c : Clause) × Transition kept clauses k c

module _ (solver : Solver) (new_solver : gophersat.Solver.Problem.Problem → solver.State)
    (laws : Contract solver) where
  open solver use {State, solve, append_clause, model, nb_vars}

  pub add_until_unsat-Returns :
      (kept : Assignment → Bool) (clauses rest : List Clause) (idx : ℕ) (st : Status) (s : State)
      → nb_vars ≤ 2 ^ 30
      → AreClauses nb_vars rest
      → ((j : ℕ) → get_elem? clauses (idx + j) ≡ get_elem? rest j)
      → ((a : Assignment) → (kept a && cnf_true a clauses) ≡ true → ⊥)
      → Knows solver laws (λ a. kept a && cnf_true a (take idx clauses)) st s
      → (is_sat st ≡ false → TransitionAt kept clauses idx)
      → Returns (TransitionAt kept clauses) (add_until_unsat solver new_solver rest idx st s)
  unfolding add_until_unsat
  add_until_unsat-Returns kept clauses [] idx st s le h at never k done =
      let z : idx + 0 ≡ idx = omega arith in
      let first = at 0 in
      Returns-if (is_sat st)
        (λ more.
          let all = each_of-take_all (clause_true (read (model s))) clauses idx (rw z at first) in
          absurd (
            never (read (model s)) (sym (ap (λ b. kept (read (model s)) && b) all) ∙ k.found more)))
        (λ over. returns (done over))
  add_until_unsat-Returns kept clauses (clause ∷ rest) idx st s le h at never k done =
      let z : idx + 0 ≡ idx = omega arith in
      let first = at 0 in
      let here = rw z at first in
      Returns-if (is_sat st)
        (λ more.
          Returns-bind_two (append_clause (clause_of clause) s) solve _
            (append-Knows solver laws (λ a. kept a && cnf_true a (take idx clauses)) st s clause le
              h.0 k)
            (λ (st', s') k'.
              add_until_unsat-Returns kept clauses rest (idx + 1) st' s' le h.1
                (λ j.
                  let e : idx + suc j ≡ idx + 1 + j = omega arith in
                  let f = at (suc j) in rw e at f)
                never (Knows-same solver laws _ _ st' s' (λ a. longer a here) k')
                (λ over. at_next _ (omega arith) (record {
                  there = here;
                  model = read (model s);
                  model_holds = k.found more;
                  refuted = k'.refuted over;
                }))))
        (λ over. returns (done over))
    where
      longer :
          (a : Assignment)
          → get_elem? clauses idx ≡ some clause
          → (kept a && cnf_true a (take idx clauses) && clause_true a clause)
            ≡ (kept a && cnf_true a (take (idx + 1) clauses))
      longer a e = rw (each_of-take_suc (clause_true a) clauses idx clause e) (ground arith)

      at_next :
          (n : ℕ) → n ≡ suc idx → Transition kept clauses idx clause → TransitionAt kept clauses n
      at_next n e t = rw e (clause, t)
