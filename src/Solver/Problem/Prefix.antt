-- ===== src/Solver/Problem/Prefix.antt =====
-- The clauses before the place that the loop of simplify2 has reached: each has two literals or more.
use gophersat.Prelude.{
  ℕ, zero, suc, ◌+◌, ◌<◌, ◌≤◌, ◌≡◌, refl, ap, Bool, true, false, List, [], ◌∷◌, length, take, set,
  ltb, arith,
}
use gophersat.Prelude.Slices.{swap_remove, each_of}
use gophersat.Solver.Types.{Lit}
use gophersat.Solver.Problem.{Clause}

abbrev pub is_long_lits : List Lit → Bool
is_long_lits ls = ltb 1 (length ls)

abbrev pub is_long : Clause → Bool
is_long c = is_long_lits c.lits

pub not_lt : (a b : ℕ) → ltb a b ≡ false → b ≤ a
not_lt a b e = ground arith

pub take-swap_remove :
    (xs : List Clause) (i : ℕ) → i < length xs → take i (swap_remove xs i) ≡ take i xs
unfolding swap_remove
take-swap_remove [] i h = absurd (omega arith)
take-swap_remove (x ∷ []) zero h = refl
take-swap_remove (x ∷ y ∷ ys) zero h = refl
take-swap_remove (x ∷ []) (suc i) h = absurd (omega arith)
take-swap_remove (x ∷ y ∷ ys) (suc i) h =
    ap (λ t. x ∷ t) (take-swap_remove (y ∷ ys) i (omega arith))

pub take-all : (xs : List Clause) (i : ℕ) → length xs ≤ i → take i xs ≡ xs
take-all [] zero h = refl
take-all [] (suc i) h = refl
take-all (x ∷ xs) zero h = absurd (omega arith)
take-all (x ∷ xs) (suc i) h = ap (λ t. x ∷ t) (take-all xs i (omega arith))

each_of-take-suc-set :
    (p : Clause → Bool) (xs : List Clause) (i : ℕ) (c : Clause)
    → i < length xs
    → p c ≡ true
    → each_of p (take i xs) ≡ true
    → each_of p (take (suc i) (set xs i c)) ≡ true
each_of-take-suc-set p [] i c h t e = absurd (omega arith)
each_of-take-suc-set p (x ∷ xs) zero c h t e = ground arith
each_of-take-suc-set p (x ∷ xs) (suc i) c h t e =
    ground (arith, each_of-take-suc-set p xs i c (omega arith) t)

pub each_of-take-set :
    (p : Clause → Bool) (xs : List Clause) (i : ℕ) (c : Clause)
    → i < length xs
    → p c ≡ true
    → each_of p (take i xs) ≡ true
    → each_of p (take (i + 1) (set xs i c)) ≡ true
each_of-take-set p xs i c h t e =
    let next : i + 1 ≡ suc i = omega arith in rw next (each_of-take-suc-set p xs i c h t e)
