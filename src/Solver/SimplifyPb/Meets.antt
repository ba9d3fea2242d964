-- ===== src/Solver/SimplifyPb/Meets.antt =====
-- When an assignment satisfies a pseudo-Boolean clause, and the clauses that simplifyPB takes.
use gophersat.Prelude.{
  ℕ, zero, suc, ◌≡◌, ◌↔◌, refl, sym, ap, Bool, true, not, some, none, List, [], ◌∷◌, length,
  get_elem?, arith, if◌then◌else◌,
}
use gophersat.Prelude.Slices.{last_of, init_of, swap_remove}
use gophersat.Prelude.Int.{ℤ, pos, negsuc, ltb_ℤ, ◌+ℤ◌, ◌≤ℤ◌, parts_of_eq, int_laws}
use gophersat.Semantics.{Assignment}
use gophersat.Solver.Types.{Lit}
use gophersat.Solver.Types.Codec.{lit_true}
use gophersat.Solver.Problem.{Clause}
use gophersat.Solver.Clause.{cardinality, total, weights_of}
use gophersat.Solver.Clause.Meaning.{sum_true}
use gophersat.Solver.Clause.Simplify.{NonNegative, sum_true_bounds}

-- The assignment satisfies the clause, as a test.
abbrev pub meets : Assignment → Clause → Bool
meets a c = not (ltb_ℤ (sum_true a c.lits (weights_of c)) (pos (cardinality c)))

pub not_below : (x y : ℤ) → (not (ltb_ℤ x y) ≡ true) ↔ (y ≤ℤ x)
not_below (pos x) (pos y) = ground arith
not_below (pos x) (negsuc y) = ground arith
not_below (negsuc x) (pos y) = ground arith
not_below (negsuc x) (negsuc y) = ground arith

pub some_inj : {A : Type 0} {x y : A} → some x ≡ some y → x ≡ y
some_inj {A} {x} {y} e = ap (λ o. elim o [ none ↦ x | some z ↦ z ]) e

-- What a literal of a weight adds.
abbrev pub term : Assignment → Lit → ℤ → ℤ
term a l w = if lit_true a l then w else pos 0

behind : (x y z t : ℤ) → t ≡ y +ℤ z → x +ℤ t ≡ y +ℤ (x +ℤ z)
behind x y z t e = omega (int_laws, parts_of_eq e)

sum_true-last :
    (a : Assignment) (l : Lit) (lits : List Lit) (w : ℤ) (ws : List ℤ)
    → length lits ≡ length ws
    → sum_true a (l ∷ lits) (w ∷ ws)
      ≡ term a (last_of l lits) (last_of w ws) +ℤ sum_true a (init_of l lits) (init_of w ws)
unfolding sum_true last_of init_of
sum_true-last a l [] w [] s = refl
sum_true-last a l [] w (v ∷ ws) s = absurd (omega arith)
sum_true-last a l (k ∷ lits) w [] s = absurd (omega arith)
sum_true-last a l (k ∷ lits) w (v ∷ ws) s =
    behind (term a l w) (term a (last_of k lits) (last_of v ws)) _ _
      (sum_true-last a k lits v ws (omega arith))

-- A literal and its weight leave their lists.
pub sum_true-swap_remove :
    (a : Assignment) (lits : List Lit) (ws : List ℤ) (i : ℕ) (l : Lit) (w : ℤ)
    → get_elem? lits i ≡ some l
    → get_elem? ws i ≡ some w
    → length lits ≡ length ws
    → sum_true a lits ws ≡ term a l w +ℤ sum_true a (swap_remove lits i) (swap_remove ws i)
unfolding sum_true swap_remove
sum_true-swap_remove a [] ws i l w e f s = cc
sum_true-swap_remove a (x ∷ lits) [] i l w e f s = cc
sum_true-swap_remove a (x ∷ []) (y ∷ []) zero l w e f s = rw (some_inj e, some_inj f) refl
sum_true-swap_remove a (x ∷ []) (y ∷ []) (suc i) l w e f s = cc
sum_true-swap_remove a (x ∷ []) (y ∷ z ∷ ws) i l w e f s = absurd (omega arith)
sum_true-swap_remove a (x ∷ k ∷ lits) (y ∷ []) i l w e f s = absurd (omega arith)
sum_true-swap_remove a (x ∷ k ∷ lits) (y ∷ z ∷ ws) zero l w e f s =
    rw (some_inj e, some_inj f)
      (ap (λ t. term a l w +ℤ t) (sum_true-last a k lits z ws (omega arith)))
sum_true-swap_remove a (x ∷ k ∷ lits) (y ∷ z ∷ ws) (suc i) l w e f s =
    behind (term a x y) (term a l w) _ _
      (sum_true-swap_remove a (k ∷ lits) (z ∷ ws) i l w e f (omega arith))

total-last : (w : ℤ) (ws : List ℤ) → total (w ∷ ws) ≡ last_of w ws +ℤ total (init_of w ws)
unfolding total last_of init_of
total-last w [] = refl
total-last w (v ∷ ws) = behind w (last_of v ws) _ _ (total-last v ws)

pub total-swap_remove :
    (ws : List ℤ) (i : ℕ) (w : ℤ)
    → get_elem? ws i ≡ some w
    → total ws ≡ w +ℤ total (swap_remove ws i)
unfolding total swap_remove
total-swap_remove [] i w e = cc
total-swap_remove (y ∷ []) zero w e = rw (some_inj e) refl
total-swap_remove (y ∷ []) (suc i) w e = cc
total-swap_remove (y ∷ z ∷ ws) zero w e = rw (some_inj e) (ap (λ t. w +ℤ t) (total-last z ws))
total-swap_remove (y ∷ z ∷ ws) (suc i) w e = behind y w _ _ (total-swap_remove (z ∷ ws) i w e)

NonNegative-last :
    (w : ℤ) (ws : List ℤ)
    → NonNegative (w ∷ ws)
    → (pos 0 ≤ℤ last_of w ws) × NonNegative (init_of w ws)
unfolding last_of init_of
NonNegative-last w [] h = (h.0, tt)
NonNegative-last w (v ∷ ws) h = let r = NonNegative-last v ws h.1 in (r.0, (h.0, r.1))

pub NonNegative-swap_remove :
    (ws : List ℤ) (i : ℕ) → NonNegative ws → NonNegative (swap_remove ws i)
unfolding swap_remove
NonNegative-swap_remove [] i h = tt
NonNegative-swap_remove (y ∷ []) zero h = tt
NonNegative-swap_remove (y ∷ []) (suc i) h = h
NonNegative-swap_remove (y ∷ z ∷ ws) zero h = NonNegative-last z ws h.1
NonNegative-swap_remove (y ∷ z ∷ ws) (suc i) h = (h.0, NonNegative-swap_remove (z ∷ ws) i h.1)

pub NonNegative-get :
    (ws : List ℤ) (i : ℕ) (w : ℤ)
    → NonNegative ws
    → get_elem? ws i ≡ some w
    → (pos 0 ≤ℤ w) × (w ≤ℤ total ws)
unfolding total sum_true
NonNegative-get [] i w h e = cc
NonNegative-get (y ∷ ws) zero w h e =
    rw (sym (some_inj e)) (first y (total ws) h.0 (sum_true_bounds (λ v. true) [] ws h.1).1)
  where
    first : (y t : ℤ) → pos 0 ≤ℤ y → pos 0 ≤ℤ t → (pos 0 ≤ℤ y) × (y ≤ℤ y +ℤ t)
    first y t p q = omega int_laws
NonNegative-get (y ∷ ws) (suc i) w h e =
    let r = NonNegative-get ws i w h.1 e in later y w (total ws) h.0 r
  where
    later : (y w t : ℤ) → pos 0 ≤ℤ y → (pos 0 ≤ℤ w) × (w ≤ℤ t) → (pos 0 ≤ℤ w) × (w ≤ℤ y +ℤ t)
    later y w t p q = omega int_laws
