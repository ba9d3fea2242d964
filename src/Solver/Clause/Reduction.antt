-- ===== src/Solver/Clause/Reduction.antt =====
-- SimplifyPB keeps the solutions of the clause.
use gophersat.Prelude.{
  ℕ, ◌^◌, ◌<◌, ◌≤◌, ◌≡◌, ◌↔◌, refl, sym, ap, Bool, true, false, none, some, List, [], ◌∷◌, length,
  arith, if◌then◌else◌, Bool-cases, ◌⊎◌, inl, inr,
}
use mathlib.Core.Path.{subst}
use gophersat.Prelude.Run.{ok, ◌>>=◌, Returns, returns, Returns-if, Returns-bind}
use gophersat.Prelude.Slices.{each_of}
use gophersat.Prelude.Int.{ℤ, pos, negsuc, ltb_ℤ, ◌+ℤ◌, ◌-ℤ◌, ◌≤ℤ◌, parts_of_eq, int_laws}
use gophersat.Semantics.{Assignment}
use gophersat.Solver.Types.{Lit}
use gophersat.Solver.Types.Codec.{lit_true}
use gophersat.Solver.Problem.{Clause, PbData}
use gophersat.Solver.Clause.{new_pb_clause, cardinality, weights_of, weight_sum, total}
use gophersat.Solver.Clause.Meaning.{sum_true, MeetsClause, new_pb_clause_correct}
use gophersat.Solver.Clause.Simplify.{
  saturate, Simplification, unsatisfiable, reduced, simplify_pb, NonNegative, sum_true_bounds,
  above_lt, Forced, forced-Returns,
}

-- A weight above the degree counts as the degree.
saturate-Returns :
    (n : ℕ) (ls : List Lit) (vs : List ℤ)
    → NonNegative vs
    → 0 < length vs
    → Returns
        (λ out.
          (length out ≡ length vs)
          × ((a : Assignment) → (pos n ≤ℤ sum_true a ls vs) ↔ (pos n ≤ℤ sum_true a ls out)))
        (saturate (pos n) vs)
unfolding saturate sum_true
saturate-Returns n ls [] h l = absurd (omega arith)
saturate-Returns n [] (w ∷ vs) h l = returns (refl, λ a. (λ x. x, λ x. x))
saturate-Returns n (l1 ∷ ls) (w ∷ vs) h l = returns (
  refl,
  λ a. cut (Bool-cases (ltb_ℤ (pos n) w)) (lit_true a l1) _ (sum_true_bounds a ls vs h.1).0,
)
  where
    cut :
        (ltb_ℤ (pos n) w ≡ true) ⊎ (ltb_ℤ (pos n) w ≡ false)
        → (b : Bool) (x : ℤ) → pos 0 ≤ℤ x
        → (pos n ≤ℤ (if b then w else pos 0) +ℤ x)
          ↔ (pos n ≤ℤ (if b then (if ltb_ℤ (pos n) w then pos n else w) else pos 0) +ℤ x)
    cut (inl above) true x p =
        let q = above_lt (pos n) w above in rw above (λ u. omega int_laws, λ u. omega int_laws)
    cut (inl above) false x p = (λ u. u, λ u. u)
    cut (inr below) b x p = rw below (λ u. u, λ u. u)

-- What SimplifyPB says of the clause.
abbrev pub Simplifies : Clause → Simplification → Type 0
Simplifies c unsatisfiable = (a : Assignment) → MeetsClause a c → ⊥
Simplifies c (reduced units none) =
    (a : Assignment) → MeetsClause a c ↔ (each_of (lit_true a) units ≡ true)
Simplifies c (reduced units (some c2)) =
    (a : Assignment) → MeetsClause a c ↔ ((each_of (lit_true a) units ≡ true) × MeetsClause a c2)

-- In terms of the sums: x of the clause, y of what is left, t of all weights.
all_units :
    (n : ℕ) (x t : ℤ) (b : Bool)
    → (b ≡ false → x +ℤ (t -ℤ pos n) +ℤ pos 1 ≤ℤ t)
    → pos n ≤ℤ x
    → b ≡ true
all_units n x t true f h = refl
all_units n x t false f h = let g = f refl in absurd (omega int_laws)

left_over : (n : ℕ) (x y k : ℤ) → x +ℤ k ≡ y +ℤ pos n → (pos n ≤ℤ x) ↔ (k ≤ℤ y)
left_over n x y k e = (λ h. omega (int_laws, parts_of_eq e), λ h. omega (int_laws, parts_of_eq e))

not_positive : (k : ℤ) → ltb_ℤ (pos 0) k ≡ false → k ≤ℤ pos 0
not_positive (pos n) e = ground arith
not_positive (negsuc n) e = omega arith

not_negative : (k : ℤ) → ltb_ℤ k (pos 0) ≡ false → pos 0 ≤ℤ k
not_negative (pos n) e = omega arith
not_negative (negsuc n) e = cc

negative : (k : ℤ) → ltb_ℤ k (pos 0) ≡ true → k +ℤ pos 1 ≤ℤ pos 0
negative k e = above_lt k (pos 0) e

positive_of : (k : ℤ) → ltb_ℤ (pos 0) k ≡ true → (n : ℕ) × (k ≡ pos n) × (0 < n)
positive_of (pos n) e = (n, refl, ground arith)
positive_of (negsuc n) e = cc

le_trans_ℤ : (x y z : ℤ) → x ≤ℤ y → y ≤ℤ z → x ≤ℤ z
le_trans_ℤ x y z p q = omega arith

missed : (t : ℤ) (n : ℕ) (x : ℤ) → (t -ℤ pos n) +ℤ pos 1 ≤ℤ pos 0 → x ≤ℤ t → pos n ≤ℤ x → ⊥
missed t n x p q r = omega int_laws

abbrev pb_clause : List Lit → ℕ → PbData → Clause
pb_clause lits v d = record { lits = lits; lbd_value = v; pb_data = some d }

module _ (lits : List Lit) (v : ℕ) (d : PbData) (e : length lits ≡ length d.weights)
    (h : NonNegative d.weights) (bounded : cardinality (pb_clause lits v d) ≤ 2 ^ 30) where
  abbrev c : Clause
  c = pb_clause lits v d

  abbrev thresh : ℤ
  thresh = total d.weights -ℤ pos (cardinality c)

  weights_lem : weights_of c ≡ d.weights
  unfolding weights_of
  weights_lem = refl

  -- The clause is met exactly if the forced literals are true and what is left meets its degree.
  split_meets :
      (units ls : List Lit) (vs : List ℤ) (k : ℤ) (a : Assignment)
      → Forced thresh c.lits d.weights (pos (cardinality c)) (units, ls, vs, k)
      → MeetsClause a c ↔ ((each_of (lit_true a) units ≡ true) × (k ≤ℤ sum_true a ls vs))
  split_meets units ls vs k a f = (
    λ m.
        let m' = rw weights_lem at m in
        let t =
          all_units (cardinality c) (sum_true a c.lits d.weights) (total d.weights)
            (each_of (lit_true a) units) (f.needs a) m' in
        (t, (left_over (cardinality c) _ (sum_true a ls vs) k (f.counts a t)).0 m'),
    λ (t, m).
        rw weights_lem ((left_over (cardinality c) _ (sum_true a ls vs) k (f.counts a t)).1 m),
  )

  left_nonempty :
      (vs : List ℤ) (n : ℕ)
      → pos 0 ≤ℤ thresh
      → 0 < n
      → total vs +ℤ pos (cardinality c) ≡ total d.weights +ℤ pos n
      → 0 < length vs
  unfolding total
  left_nonempty [] n live p b = absurd (none_left (total d.weights) live b)
    where
      none_left :
          (t : ℤ)
          → pos 0 ≤ℤ t -ℤ pos (cardinality c)
          → pos 0 +ℤ pos (cardinality c) ≡ t +ℤ pos n
          → ⊥
      none_left t l q = omega (int_laws, parts_of_eq q)
  left_nonempty (v ∷ vs) n live p b = omega arith

  kept_clause :
      (live : pos 0 ≤ℤ thresh) (units ls : List Lit) (vs : List ℤ) (n : ℕ)
      → 0 < n
      → Forced thresh c.lits d.weights (pos (cardinality c)) (units, ls, vs, pos n)
      → Returns (Simplifies c) (
          saturate (pos n) vs >>= λ saturated.
          new_pb_clause ls (some saturated) (pos n) >>= λ c2. ok (reduced units (some c2)))
  kept_clause live units ls vs n p f =
      Returns-bind (saturate-Returns n ls vs f.weights (left_nonempty vs n live p f.balance))
        (λ out (l, same).
          Returns-bind
            (new_pb_clause_correct ls out n (omega (arith, f.sized)) p
              (omega (arith, f.degree, bounded)))
            (λ c2 q. returns (λ a.
              let whole = split_meets units ls vs (pos n) a f in
              (
                λ m. let (t, u) = whole.0 m in (t, rw (q.degree, q.value a) ((same a).0 u)),
                λ (t, u). whole.1 (t, (same a).1 (rw (q.degree, q.value a) at u)),
              ))))

  simplified :
      (live : pos 0 ≤ℤ thresh) (units ls : List Lit) (vs : List ℤ) (k : ℤ)
      → Forced thresh c.lits d.weights (pos (cardinality c)) (units, ls, vs, k)
      → Returns (Simplifies c) (
          if ltb_ℤ (pos 0) k
          then (saturate k vs >>= λ saturated.
              new_pb_clause ls (some saturated) k >>= λ c2. ok (reduced units (some c2)))
          else ok (reduced units none))
  simplified live units ls vs k f =
      Returns-if (ltb_ℤ (pos 0) k)
        (λ above.
          let (n, q, p) = positive_of k above in
          rw q (kept_clause live units ls vs n p (rw q at f)))
        (λ below. returns (λ a.
          let whole = split_meets units ls vs k a f in
          (
            λ m. (whole.0 m).0,
            λ t. whole.1 (
              t,
              le_trans_ℤ k (pos 0) _ (not_positive k below) (sum_true_bounds a ls vs f.weights).0,
            ),
          )))

  simplify_data_lem : Returns (Simplifies c) (simplify_pb c)
  unfolding simplify_pb weight_sum weights_of
  simplify_data_lem =
      Returns-if (ltb_ℤ (total d.weights -ℤ pos (cardinality c)) (pos 0))
        (λ below. returns (λ a m.
          missed (total d.weights) (cardinality c) _ (negative _ below)
            (sum_true_bounds a lits d.weights h).1 m))
        (λ live.
          Returns-bind
            (forced-Returns (total d.weights -ℤ pos (cardinality c)) lits d.weights
              (pos (cardinality c)) e h)
            (λ (units, ls, vs, k) f. simplified (not_negative _ live) units ls vs k f))

-- For a pseudo-Boolean clause with as many weights as literals, none of them negative, and a degree
-- of at most 2^30, SimplifyPB returns. If it reports that the clause cannot be satisfied, no
-- assignment satisfies it; else an assignment satisfies the clause exactly if it makes the unit
-- literals true and satisfies the new clause, if there is one.
pub simplify_pb_correct :
    (c : Clause) (d : PbData)
    → c.pb_data ≡ some d
    → length c.lits ≡ length d.weights
    → NonNegative d.weights
    → cardinality c ≤ 2 ^ 30
    → Returns (Simplifies c) (simplify_pb c)
simplify_pb_correct x d has e h bounded =
    let same : x ≡ pb_clause x.lits x.lbd_value d = ap (λ o. record x { pb_data = o }) has in
    subst (λ y. Returns (Simplifies y) (simplify_pb y)) (sym same)
      (simplify_data_lem x.lits x.lbd_value d e h
        (subst (λ y. cardinality y ≤ 2 ^ 30) same bounded))
