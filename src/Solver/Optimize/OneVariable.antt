-- ===== src/Solver/Optimize/OneVariable.antt =====
-- A solver of one variable, which keeps the contract.
use gophersat.Prelude.{
  ◌≡◌, ◌↔◌, refl, Bool, true, false, not, ◌&&◌, Option, some, List, [], ◌∷◌, arith, if◌then◌else◌,
}
use gophersat.Prelude.Run.{ok, returns, Returns-if}
use gophersat.Prelude.Slices.{each_of}
use gophersat.Prelude.Int.{ℤ, pos, negsuc, ltb_ℤ, ◌≤ℤ◌}
use gophersat.Semantics.{Assignment}
use gophersat.Solver.Types.{sat, unsat, Lit, lit_var}
use gophersat.Solver.Problem.{Clause, is_unsat}
use gophersat.Solver.Problem.Literals.{below}
use gophersat.Solver.Clause.{cardinality, weights_of}
use gophersat.Solver.Clause.Meaning.{sum_true, MeetsClause}
use gophersat.Solver.Optimize.{read, is_sat, Solver, Contract}

-- Which values the variable may have, and which it may without the assumptions.
pub record OneVariable : Type 0 where
  pub low : Bool
  pub high : Bool
  pub base_low : Bool
  pub base_high : Bool
  pub model : List ℤ
  pub last_model : Option (List ℤ)

abbrev pub allowed : OneVariable → Bool → Bool
allowed s true = s.high
allowed s false = s.low

abbrev meets : Clause → Bool → Bool
meets c b = not (ltb_ℤ (sum_true (λ v. b) c.lits (weights_of c)) (pos (cardinality c)))

abbrev pub found : ℤ → OneVariable → OneVariable
found b s = record s { model = b ∷ []; last_model = some (b ∷ []) }

abbrev pub one_variable : Solver
one_variable = record {
  State = OneVariable;
  nb_vars = 1;
  solve = λ s.
      if s.high
      then ok (sat, found (pos 1) s)
      else (if s.low then ok (sat, found (negsuc 0) s) else ok (unsat, s));
  append_clause =
      λ c s. ok (record s { low = s.low && meets c false; high = s.high && meets c true });
  rebuild_order_heap = λ s. s;
  model = λ s. s.model;
  last_model = λ s. s.last_model;
  save_model = λ m s. record s { last_model = some m };
  Solutions = λ s a. allowed s (a 0) ≡ true;
}

only_variable :
    (a : Assignment) (ls : List Lit) (ws : List ℤ)
    → each_of (below 1) ls ≡ true
    → sum_true a ls ws ≡ sum_true (λ v. a 0) ls ws
unfolding sum_true
only_variable a [] ws r = refl
only_variable a (l ∷ ls) [] r = refl
only_variable a (l ∷ ls) (w ∷ ws) r =
    let v : lit_var l ≡ 0 = ground arith in rw (v, only_variable a ls ws (ground arith)) refl

pub not_lower : (x y : ℤ) (b : Bool) → ((b && not (ltb_ℤ x y)) ≡ true) ↔ ((b ≡ true) × (y ≤ℤ x))
not_lower (pos x) (pos y) b = ground arith
not_lower (pos x) (negsuc y) b = ground arith
not_lower (negsuc x) (pos y) b = ground arith
not_lower (negsuc x) (negsuc y) b = ground arith

appended :
    (c : Clause) (s : OneVariable) (a : Assignment)
    → each_of (below 1) c.lits ≡ true
    → (allowed (record s { low = s.low && meets c false; high = s.high && meets c true }) (a 0)
        ≡ true)
      ↔ ((allowed s (a 0) ≡ true) × MeetsClause a c)
appended c s a r = rw (only_variable a c.lits (weights_of c) r) (at_value (a 0))
  where
    at_value :
        (b : Bool)
        → (allowed (record s { low = s.low && meets c false; high = s.high && meets c true }) b
            ≡ true)
          ↔ ((allowed s b ≡ true)
              × (pos (cardinality c) ≤ℤ sum_true (λ v. b) c.lits (weights_of c)))
    at_value true = not_lower _ (pos (cardinality c)) s.high
    at_value false = not_lower _ (pos (cardinality c)) s.low

neither : (s : OneVariable) (b : Bool) → s.high ≡ false → s.low ≡ false → allowed s b ≡ true → ⊥
neither s true h l e = cc
neither s false h l e = cc

pub one_variable-Contract : Contract one_variable
unfolding read is_sat is_unsat
one_variable-Contract = record {
  solve_answers = λ s.
      Returns-if s.high (λ h. returns (λ a. (λ e. e, λ e. e), refl, λ e. (h, refl), λ e. cc))
        (λ h.
          Returns-if s.low (λ l. returns (λ a. (λ e. e, λ e. e), refl, λ e. (l, refl), λ e. cc))
            (λ l.
              returns
                (λ a. (λ e. e, λ e. e), refl, λ e. cc, λ e. (λ a. neither s (a 0) h l, refl))));
  append_adds = λ c s r. returns (λ a. appended c s a r, refl);
  rebuild_keeps = λ s. (λ a. (λ h. h, λ h. h), refl);
  save_keeps = λ m s. (λ a. (λ h. h, λ h. h), refl, refl);
}
