-- ===== src/Explain/Mus/Deletion/Rounds.antt =====
-- The rounds of MUSDeletion: the clauses that are not relaxed stay unsatisfiable, and each of them that
-- has been tried is needed.
use gophersat.Prelude.{
  ℕ, zero, suc, ◌+◌, ◌^◌, ◌<◌, ◌≤◌, ◌≡◌, ◌↔◌, refl, sym, ap, ◌∙◌, Bool, true, false, not, none,
  some, List, [], ◌∷◌, length, get_elem?, get_elem?-some, get_elem?-lt, get_elem?-set, set,
  length-set, ltb, ◌==◌, ==→eq, Bool-cases, inl, inr, arith,
}
use gophersat.Prelude.Run.{
  Run, ok, panic, out_of_fuel, ◌>>=◌, Returns, returns, Returns-bind, Returns-map,
}
use gophersat.Prelude.Slices.{each_of}
use gophersat.Semantics.{Assignment}
use gophersat.Solver.Types.{Status}
use gophersat.Solver.Problem.Literals.{below}
use gophersat.Solver.Parser.Lines.{cnf_true, to_int32_id}
use gophersat.Solver.Optimize.{Solver, Contract, is_sat}
use gophersat.Explain.{Clause}
use gophersat.Explain.Loop.{AreClauses}
use gophersat.Explain.Mus.Session.{code_below, Returns-bind_two}
use gophersat.Explain.Mus.Deletion.{relax, negate_at, Assuming, AssumingContract, deletion_loop}
use gophersat.Explain.Mus.Deletion.Relaxed.{
  flag, flag-IsLit, assumed, get_elem?-assumed, length-assumed, set-assumed, negation-flag,
  active_true, active_of, relaxed_of, extended, extended-Extends,
}

-- Two facts on the same call.
Returns-both :
    {A : Type 0} {P Q : A → Type 0} (call : Run A)
    → Returns P call
    → Returns Q call
    → Returns (λ x. P x × Q x) call
Returns-both (ok x) (returns p) (returns q) = returns (p, q)
Returns-both panic p q = elim p [ ]
Returns-both out_of_fuel p q = elim p [ ]

below-assumed :
    (m n i : ℕ) (rs : List Bool)
    → n + i + length rs ≤ m
    → m ≤ 2 ^ 30
    → each_of (below m) (assumed n i rs) ≡ true
below-assumed m n i [] le small = refl
below-assumed m n i (r ∷ rs) le small =
    let g = flag-IsLit (n + i) r m (omega arith) in
    let first = code_below m (flag (n + i) r) small g in
    let rest = below-assumed m n (i + 1) rs (omega arith) small in
    rw (to_int32_id (flag (n + i) r) (omega arith)) (ground (arith, first, rest))

negate_at-assumed :
    (n : ℕ) (rs : List Bool) (i : ℕ) (r : Bool)
    → n + length rs ≤ 2 ^ 30
    → get_elem? rs i ≡ some r
    → negate_at (assumed n 0 rs) i ≡ ok (assumed n 0 (set rs i (not r)))
unfolding negate_at
negate_at-assumed n rs i r le e =
    let lt = get_elem?-lt rs i r e in
    let inside : ltb i (length (assumed n 0 rs)) ≡ true = ground (arith, length-assumed n 0 rs) in
    rw
      (
        get_elem?-assumed n 0 rs i r e,
        inside,
        negation-flag (n + 0 + i) r (omega arith),
        set-assumed n 0 rs i (not r),
      )
      refl

set_back :
    (rs : List Bool) (i : ℕ) (r x : Bool) → get_elem? rs i ≡ some r → set (set rs i x) i r ≡ rs
set_back [] i r x e = refl
set_back (y ∷ rs) zero r x e = ap (λ o. elim o [ none ↦ y | some z ↦ z ] ∷ rs) (sym e)
set_back (y ∷ rs) (suc i) r x e = ap (◌∷◌ y) (set_back rs i r x e)

set_comm :
    (rs : List Bool) (i j : ℕ) (x y : Bool)
    → (i ≡ j → ⊥)
    → set (set rs i x) j y ≡ set (set rs j y) i x
set_comm [] i j x y ne = refl
set_comm (r ∷ rs) zero zero x y ne = absurd (ne refl)
set_comm (r ∷ rs) zero (suc j) x y ne = refl
set_comm (r ∷ rs) (suc i) zero x y ne = refl
set_comm (r ∷ rs) (suc i) (suc j) x y ne = ap (◌∷◌ r) (set_comm rs i j x y (λ e. ne (ap suc e)))

-- Relaxing one more keeps the others true.
active_more :
    (a : Assignment) (rs : List Bool) (clauses : List Clause) (i : ℕ)
    → active_true a rs clauses ≡ true
    → active_true a (set rs i true) clauses ≡ true
active_more a [] clauses i t = refl
active_more a (r ∷ rs) [] zero t = refl
active_more a (r ∷ rs) [] (suc i) t = refl
active_more a (r ∷ rs) (c ∷ clauses) zero t = ground arith
active_more a (r ∷ rs) (c ∷ clauses) (suc i) t = ground (arith, active_more a rs clauses i)

-- Without the j-th clause, the active ones can be made true.
abbrev pub Needed : List Clause → List Bool → ℕ → Type 0
Needed clauses rs j = (a : Assignment) × (active_true a (set rs j true) clauses ≡ true)

-- Before the round i.
pub record Pending (clauses : List Clause) (rs : List Bool) (i : ℕ) : Type 0 where
  pub sized : length rs ≡ length clauses
  pub refuted : (a : Assignment) → active_true a rs clauses ≡ true → ⊥
  pub needed : (j : ℕ) → j < i → get_elem? rs j ≡ some false → Needed clauses rs j
  pub pending : (j : ℕ) (r : Bool) → i ≤ j → get_elem? rs j ≡ some r → r ≡ false

keep_round :
    (clauses : List Clause) (rs : List Bool) (i : ℕ)
    → Pending clauses rs i
    → Needed clauses rs i
    → Pending clauses rs (i + 1)
keep_round clauses rs i p need = record {
  sized = p.sized;
  refuted = p.refuted;
  needed = λ j lt e. elim (Bool-cases (j == i)) [
    | inl here ↦ rw (==→eq j i here) need
    | inr there ↦ p.needed j (ground arith) e
  ];
  pending = λ j r le e. p.pending j r (omega arith) e;
}

drop_round :
    (clauses : List Clause) (rs : List Bool) (i : ℕ)
    → i < length rs
    → Pending clauses rs i
    → ((a : Assignment) → active_true a (set rs i true) clauses ≡ true → ⊥)
    → Pending clauses (set rs i true) (i + 1)
drop_round clauses rs i lt p none_left = record {
  sized = length-set rs i true ∙ p.sized;
  refuted = none_left;
  needed = λ j below_next e. elim (Bool-cases (i == j)) [
    | inl here ↦ let f = get_elem?-set rs i j true lt in absurd (ground arith)
    | inr there ↦
        let f = get_elem?-set rs i j true lt in
        let (a, t) = p.needed j (ground arith) (ground arith) in
        (
          a,
          rw (set_comm rs i j true true (apart i j there))
              (active_more a (set rs j true) clauses i t),
        )
  ];
  pending = λ j r le e.
      let f = get_elem?-set rs i j true lt in
      let apart_test : (i == j) ≡ false = ground arith in
      p.pending j r (omega arith) (ground arith);
}
  where
    apart : (i j : ℕ) → (i == j) ≡ false → i ≡ j → ⊥
    apart i j e h = ground arith

module _ (solver : Solver) (laws : Contract solver) (session : Assuming solver)
    (promises : AssumingContract solver session) (n : ℕ) (clauses : List Clause) where
  open solver use {State, solve, nb_vars}
  open session use {assume, Base}

  -- Without assumptions the solver has the relaxed clauses.
  abbrev pub Loaded : State → Type 0
  Loaded s = (a : Assignment) → Base s a ↔ (cnf_true a (relax n 0 clauses) ≡ true)

  -- What a call of Solve tells under the assumptions.
  record Told (rs : List Bool) (st : Status) (s : State) : Type 0 where
    loaded : Loaded s
    found : is_sat st ≡ true → (a : Assignment) × (active_true a rs clauses ≡ true)
    refuted : is_sat st ≡ false → (a : Assignment) → active_true a rs clauses ≡ true → ⊥

  Told-Returns :
      (rs : List Bool) (s : State)
      → length rs ≡ length clauses
      → n + length clauses ≤ nb_vars
      → nb_vars ≤ 2 ^ 30
      → AreClauses n clauses
      → Loaded s
      → Returns (λ (st, s'). Told rs st s') (assume (assumed n 0 rs) s >>= λ (st, s'). solve s')
  Told-Returns rs s sized le small h loaded =
      Returns-bind
        (promises.assume_adds (assumed n 0 rs) s (below-assumed nb_vars n 0 rs (omega arith) small))
        (λ (st, s1) (adds, same).
          Returns-map (Returns-both (solve s1) (laws.solve_answers s1) (promises.solve_keeps s1))
            (λ (st', s2) ((keeps, u, found, none_left), base). record {
              loaded = λ a. (
                λ x. (loaded a).0 ((same a).0 ((base a).0 x)),
                λ e. (base a).1 ((same a).1 ((loaded a).1 e)),
              );
              found = λ e.
                  let (x, flags) = (adds _).0 (found e).0 in
                  (_, active_of _ n 0 rs clauses (omega arith) ((loaded _).0 x) flags);
              refuted = λ e a t.
                  let b = extended n rs a in
                  let both =
                    relaxed_of a b n 0 rs clauses (extended-Extends n rs a) (omega arith) sized h
                      t in
                  (none_left e).0 b ((adds b).1 ((loaded b).1 (ground arith), ground arith));
            }))

  pub deletion_loop-Returns :
      (count i : ℕ) (rs : List Bool) (s : State)
      → i + count ≡ length clauses
      → n + length clauses ≤ nb_vars
      → nb_vars ≤ 2 ^ 30
      → AreClauses n clauses
      → Loaded s
      → Pending clauses rs i
      → Returns
          (λ out.
            (rs' : List Bool) × (out ≡ assumed n 0 rs') × Pending clauses rs' (length clauses))
          (deletion_loop solver session count i (assumed n 0 rs) s)
  unfolding deletion_loop
  deletion_loop-Returns zero i rs s e le small h loaded p =
      let z : length clauses ≡ i = omega arith in returns (rs, refl, rw z p)
  deletion_loop-Returns (suc count) i rs s e le small h loaded p =
      let (r, at) = get_elem?-some rs i (omega (arith, p.sized)) in
      let fresh = p.pending i r (omega arith) at in
      let relaxed = set rs i true in
      let here = rw fresh at at in
      rw (negate_at-assumed n rs i false (omega (arith, p.sized)) here) (
        Returns-bind_two (assume (assumed n 0 relaxed) s) (λ (st, s'). solve s') _
          (Told-Returns relaxed s (length-set rs i true ∙ p.sized) le small h loaded)
          (λ (st', s'') t. elim (Bool-cases (is_sat st')) [
            | inl kept ↦ rw kept (
                let back = get_elem?-set rs i i true (omega (arith, p.sized)) in
                let set_here : get_elem? relaxed i ≡ some true = ground arith in
                rw
                  (
                    negate_at-assumed n relaxed i true
                        (omega (arith, p.sized, length-set rs i true)) set_here,
                    set_back rs i false true here,
                  )
                  (deletion_loop-Returns count (i + 1) rs s'' (omega arith) le small h t.loaded
                    (keep_round clauses rs i p (t.found kept))))
            | inr dropped ↦ rw dropped (
                deletion_loop-Returns count (i + 1) relaxed s'' (omega arith) le small h t.loaded
                  (drop_round clauses rs i (omega (arith, p.sized)) p (t.refuted dropped)))
          ]))
