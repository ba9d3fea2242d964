-- ===== src/Explain/Mus/Session.antt =====
-- What a solver knows after New, AppendClause and Solve, in terms of the clauses of the package explain.
use gophersat.Prelude.{
  ℕ, ◌^◌, ◌≤◌, ◌≡◌, ◌↔◌, refl, sym, ◌∙◌, Bool, true, false, not, ◌&&◌, ◌||◌, List, [], ◌∷◌, length,
  map, replicate, arith, if◌then◌else◌,
}
use gophersat.Prelude.Run.{Run, panic, out_of_fuel, ok, ◌>>=◌, Returns, Returns-bind, Returns-map}
use gophersat.Prelude.Slices.{each_of}
use gophersat.Prelude.Int.{ℤ, pos, negsuc, ◌+ℤ◌, ◌≤ℤ◌, int_laws}
use gophersat.Semantics.{Assignment, clause_true, IsLit, IsClause}
use gophersat.Solver.Types.{Status, Lit, int_to_lit, lit_var}
use gophersat.Solver.Types.Codec.{lit_true}
use gophersat.Solver.Problem.{is_unsat, new_clause}
use gophersat.Solver.Problem
use gophersat.Solver.Problem.Literals.{below, lits_true}
use gophersat.Solver.Problem.Solutions.{Solves}
use gophersat.Solver.Clause.{cardinality, weights_of}
use gophersat.Solver.Clause.Meaning.{sum_true, MeetsClause}
use gophersat.Solver.Parser.{lit_of, parse_slice_nb, parse_slice}
use gophersat.Solver.Parser.Lines.{cnf_true, lit_of-holds, to_int32_id}
use gophersat.Solver.Parser.Lines
use gophersat.Solver.Parser.Models.{ParsedSlice, parse_slice_correct}
use gophersat.Solver.Optimize.{Solver, Contract, read, is_sat}
use gophersat.Explain.{Clause}
use gophersat.Explain.Loop.{AreClauses}
use gophersat.Explain.Mus.{clause_of}

pub IsLit-mono : (n m : ℕ) → n ≤ m → (x : ℤ) → IsLit n x → IsLit m x
IsLit-mono n m le x h = (h.0, omega arith)

pub IsClause-mono : (n m : ℕ) → n ≤ m → (c : Clause) → IsClause n c → IsClause m c
IsClause-mono n m le [] h = tt
IsClause-mono n m le (x ∷ c) h = (IsLit-mono n m le x h.0, IsClause-mono n m le c h.1)

pub parseable :
    (n : ℕ)
    → n ≤ 2 ^ 30
    → (cnf : List Clause) → AreClauses n cnf
    → gophersat.Solver.Parser.Lines.AreClauses cnf
parseable n le [] h = tt
parseable n le (c ∷ cnf) h = (IsClause-mono n (2 ^ 30) le c h.0, parseable n le cnf h.1)

-- The coded literal is of a variable of the problem.
pub code_below : (n : ℕ) (x : ℤ) → n ≤ 2 ^ 30 → IsLit n x → below n (int_to_lit x) ≡ true
unfolding int_to_lit lit_var
code_below n (pos k) le h = ground arith
code_below n (negsuc k) le h = ground arith

pub clause_of-below :
    (n : ℕ) (c : Clause) → n ≤ 2 ^ 30 → IsClause n c → each_of (below n) (map lit_of c) ≡ true
clause_of-below n [] le h = refl
clause_of-below n (x ∷ c) le h =
    rw (to_int32_id x (omega arith))
      (ground (arith, code_below n x le h.0, clause_of-below n c le h.1))

lits_true-clause_of :
    (a : Assignment) (c : Clause)
    → IsClause (2 ^ 30) c
    → lits_true a (map lit_of c) ≡ clause_true a c
lits_true-clause_of a [] h = refl
lits_true-clause_of a (x ∷ c) h = rw (lit_of-holds a x h.0, lits_true-clause_of a c h.1) refl

-- With weights of 1, the value is positive where a literal is true.
positive_sum :
    (a : Assignment) (lits : List Lit)
    → (pos 0 ≤ℤ sum_true a lits (replicate (length lits) (pos 1)))
      × ((pos 1 ≤ℤ sum_true a lits (replicate (length lits) (pos 1))) ↔ (lits_true a lits ≡ true))
unfolding sum_true
positive_sum a [] = (omega arith, (λ h. absurd (omega arith), λ e. cc))
positive_sum a (l ∷ lits) = counted (lit_true a l) _ _ (positive_sum a lits)
  where
    counted :
        (b c : Bool) (x : ℤ)
        → (pos 0 ≤ℤ x) × ((pos 1 ≤ℤ x) ↔ (c ≡ true))
        → (pos 0 ≤ℤ (if b then pos 1 else pos 0) +ℤ x)
          × ((pos 1 ≤ℤ (if b then pos 1 else pos 0) +ℤ x) ↔ ((b || c) ≡ true))
    counted true c x h = (omega int_laws, (λ p. refl, λ e. omega int_laws))
    counted false c x h =
        (omega int_laws, (λ p. h.1.0 (omega int_laws), λ e. let q = h.1.1 e in omega int_laws))

clause_of-Meets :
    (a : Assignment) (c : Clause)
    → IsClause (2 ^ 30) c
    → MeetsClause a (clause_of c) ↔ (clause_true a c ≡ true)
unfolding cardinality weights_of new_clause
clause_of-Meets a c h = rw (sym (lits_true-clause_of a c h)) ((positive_sum a (map lit_of c)).1)

-- The rest of the call after two of its parts.
pub Returns-bind_two :
    {A B C : Type 0} {Post : B → Type 0} {Final : C → Type 0} (call : Run A) (second : A → Run B)
    (next : B → Run C)
    → Returns Post (call >>= second)
    → ((x : B) → Post x → Returns Final (next x))
    → Returns Final (call >>= λ a. second a >>= next)
Returns-bind_two panic second next p rest = elim p [ ]
Returns-bind_two out_of_fuel second next p rest = elim p [ ]
Returns-bind_two (ok a) second next p rest = Returns-bind p rest

module _ (solver : Solver) (laws : Contract solver) where
  open solver use {State, solve, append_clause, Solutions, model, nb_vars}

  -- After a call of Solve: the solutions are the assignments of the test, and the status is right.
  pub record Knows (holds_of : Assignment → Bool) (st : Status) (s : State) : Type 0 where
    pub solutions : (a : Assignment) → Solutions s a ↔ (holds_of a ≡ true)
    pub decided : is_unsat st ≡ not (is_sat st)
    pub found : is_sat st ≡ true → holds_of (read (model s)) ≡ true
    pub refuted : is_sat st ≡ false → (a : Assignment) → holds_of a ≡ true → ⊥

  pub Knows-same :
      (p q : Assignment → Bool) (st : Status) (s : State)
      → ((a : Assignment) → p a ≡ q a)
      → Knows p st s
      → Knows q st s
  Knows-same p q st s same k = record {
    solutions = λ a. (λ h. sym (same a) ∙ (k.solutions a).0 h, λ e. (k.solutions a).1 (same a ∙ e));
    decided = k.decided;
    found = λ e. sym (same _) ∙ k.found e;
    refuted = λ e a h. k.refuted e a (same a ∙ h);
  }

  pub solve-Knows :
      (holds_of : Assignment → Bool) (s : State)
      → ((a : Assignment) → Solutions s a ↔ (holds_of a ≡ true))
      → Returns (λ (st, s'). Knows holds_of st s') (solve s)
  solve-Knows holds_of s same =
      Returns-map (laws.solve_answers s) (λ (st, s') (keeps, u, yes_sat, no_sat). record {
        solutions = λ a. (λ h. (same a).0 ((keeps a).0 h), λ h. (keeps a).1 ((same a).1 h));
        decided = u;
        found = λ e. (same _).0 (yes_sat e).0;
        refuted = λ e a h. (no_sat e).0 a ((same a).1 h);
      })

  pub append-Knows :
      (holds_of : Assignment → Bool) (st : Status) (s : State) (c : Clause)
      → nb_vars ≤ 2 ^ 30
      → IsClause nb_vars c
      → Knows holds_of st s
      → Returns
          (λ (st', s'). Knows (λ a. holds_of a && clause_true a c) st' s')
          (append_clause (clause_of c) s >>= solve)
  unfolding new_clause
  append-Knows holds_of st s c le h k =
      Returns-bind (laws.append_adds (clause_of c) s (clause_of-below nb_vars c le h))
        (λ s' (adds, kept).
          solve-Knows (λ a. holds_of a && clause_true a c) s'
            (λ a.
              both (k.solutions a) (clause_of-Meets a c (IsClause-mono nb_vars (2 ^ 30) le c h))
                (adds a)))
    where
      both :
          {P Q M : Type 0} {x y : Bool}
          → P ↔ (x ≡ true)
          → M ↔ (y ≡ true)
          → Q ↔ (P × M)
          → Q ↔ ((x && y) ≡ true)
      both (p, p') (m, m') (q, q') = (
        λ h. let r = q h in let e = p r.0 in let f = m r.1 in ground arith,
        λ e. q' (p' (ground arith), m' (ground arith)),
      )

  -- What New does with the problem that ParseSliceNb makes of clauses over the solver's variables.
  abbrev pub Starts : (gophersat.Solver.Problem.Problem → State) → Type 0
  Starts new_solver =
      (cnf : List Clause) (pb : gophersat.Solver.Problem.Problem)
      → AreClauses nb_vars cnf
      → ParsedSlice cnf pb
      → (a : Assignment) → Solutions (new_solver pb) a ↔ Solves a pb

  pub start-Knows :
      (new_solver : gophersat.Solver.Problem.Problem → State) (cnf : List Clause) (n : ℕ)
      → nb_vars ≤ 2 ^ 30
      → Starts new_solver
      → AreClauses nb_vars cnf
      → Returns
          (λ (st, s). Knows (λ a. cnf_true a cnf) st s)
          (parse_slice_nb cnf n >>= λ pb. solve (new_solver pb))
  start-Knows new_solver cnf n le starts h =
      Returns-bind (parse_slice_correct cnf n (parseable nb_vars le cnf h)).1 (λ pb p.
        solve-Knows (λ a. cnf_true a cnf) (new_solver pb)
          (λ a.
            let (to, from) = starts cnf pb h p a in
            (λ s. (p.same a).1 (to s), λ e. from ((p.same a).0 e))))
