-- ===== src/Solver/SimplifyCard/Scan.antt =====
-- The scan of a cardinality constraint returns, and keeps how many of its literals are true.
use gophersat.Prelude.{
  ℕ, zero, suc, ◌+◌, ◌-◌, ◌<◌, ◌≤◌, ◌≡◌, ◌↔◌, refl, ◌∙◌, Bool, true, false, ◌&&◌, Option, none,
  some, List, [], ◌∷◌, length, get_elem?, get_elem?-lt, ltb, ltb→lt, ◌==◌, Bool-cases, inl, inr,
  arith, if◌then◌else◌,
}
use gophersat.Prelude.Run.{Returns, returns, Returns-if, Returns-map, ok}
use gophersat.Prelude.Slices.{
  load-ok, last_of, init_of, swap_remove, length-swap_remove, each_of, each_of-get,
}
use gophersat.Prelude.Int.{ℤ, pos, ◌==ℤ◌}
use gophersat.Semantics.{Assignment, Agrees}
use gophersat.Solver.Types.{Lit, lit_var, is_positive}
use gophersat.Solver.Types.Codec.{lit_true}
use gophersat.Solver.Problem.{same_sign}
use gophersat.Solver.Problem.Literals.{below, bound_true, bound_false, ranged-swap_remove}
use gophersat.Solver.SimplifyCard.{scan_card}

-- How many of the literals are true.
abbrev pub true_count : Assignment → List Lit → ℕ
true_count a [] = 0
true_count a (l ∷ lits) = (if lit_true a l then 1 else 0) + true_count a lits

true_count-last :
    (a : Assignment) (l : Lit) (lits : List Lit)
    → true_count a (l ∷ lits)
      ≡ (if lit_true a (last_of l lits) then 1 else 0) + true_count a (init_of l lits)
unfolding last_of init_of
true_count-last a l [] = refl
true_count-last a l (k ∷ lits) = omega (arith, true_count-last a k lits)

true_count-swap_remove :
    (a : Assignment) (lits : List Lit) (i : ℕ) (l : Lit)
    → get_elem? lits i ≡ some l
    → true_count a lits ≡ (if lit_true a l then 1 else 0) + true_count a (swap_remove lits i)
unfolding swap_remove
true_count-swap_remove a [] i l e = cc
true_count-swap_remove a (k ∷ []) zero l e = ground arith
true_count-swap_remove a (k ∷ []) (suc i) l e = cc
true_count-swap_remove a (k ∷ m ∷ lits) zero l e = ground (arith, true_count-last a m lits)
true_count-swap_remove a (k ∷ m ∷ lits) (suc i) l e =
    omega (arith, true_count-swap_remove a (m ∷ lits) i l e)

true_count-get :
    (a : Assignment) (lits : List Lit) (i : ℕ) (l : Lit)
    → get_elem? lits i ≡ some l
    → lit_true a l ≡ true
    → 0 < true_count a lits
true_count-get a lits i l e t = let s = true_count-swap_remove a lits i l e in ground arith

pub true_count_all :
    (a : Assignment) (lits : List Lit)
    → (true_count a lits ≤ length lits)
      × ((length lits ≤ true_count a lits) ↔ (each_of (lit_true a) lits ≡ true))
true_count_all a [] = (omega arith, (λ _. refl, λ _. omega arith))
true_count_all a (l ∷ lits) =
    let (le, (f, b)) = true_count_all a lits in
    first (lit_true a l) (each_of (lit_true a) lits) (true_count a lits) (length lits) le f b
  where
    first :
        (x y : Bool) (n m : ℕ)
        → n ≤ m
        → (m ≤ n → y ≡ true)
        → (y ≡ true → m ≤ n)
        → ((if x then 1 else 0) + n ≤ suc m)
          × ((suc m ≤ (if x then 1 else 0) + n) ↔ ((x && y) ≡ true))
    first true y n m le f b = (omega arith, (λ h. f (omega arith), λ h. let k = b h in omega arith))
    first false y n m le f b = (omega arith, (λ h. absurd (omega arith), λ h. cc))

-- The literals that are left: as many of them are true under the bindings.
pub record Counted (model : List ℤ) (lits out : List Lit) : Type 0 where
  pub same : (a : Assignment) → Agrees a model → true_count a out ≡ true_count a lits
  pub ranged : each_of (below (length model)) out ≡ true

-- A clause that counts as satisfied has a true literal, and maybe no other one.
abbrev pub CountedOr : List ℤ → List Lit → Option (List Lit) → Type 0
CountedOr model lits none = (a : Assignment) → Agrees a model → 0 < true_count a lits
CountedOr model lits (some out) = Counted model lits out

counted_from :
    (model : List ℤ) (lits mid : List Lit)
    → ((a : Assignment) → Agrees a model → true_count a mid ≡ true_count a lits)
    → (r : Option (List Lit)) → CountedOr model mid r
    → CountedOr model lits r
counted_from model lits mid same none t = λ a g. let h = t a g in omega (arith, same a g)
counted_from model lits mid same (some out) d = record {
  same = λ a g. d.same a g ∙ same a g;
  ranged = d.ranged;
}

pub scan_card-Returns :
    (fuel : ℕ) (model : List ℤ) (card nb_sat : ℕ) (lits : List Lit) (j : ℕ)
    → each_of (below (length model)) lits ≡ true
    → nb_sat < card
    → length lits - j + (card - nb_sat) < fuel
    → Returns (CountedOr model lits) (scan_card fuel model card nb_sat lits j)
unfolding scan_card
scan_card-Returns zero model card nb_sat lits j r k f = absurd (omega arith)
scan_card-Returns (suc fuel) model card nb_sat lits j r k f =
    Returns-if (ltb j (length lits))
      (λ inside.
        let hj = ltb→lt j (length lits) inside in
        let (lit, at, loaded) = load-ok lits j hj in
        let hv =
          ltb→lt (lit_var lit) (length model)
            (each_of-get (below (length model)) lits j lit r at) in
        let (b, bound, loaded_b) = load-ok model (lit_var lit) hv in
        let shorter = length-swap_remove lits j hj in
        rw (loaded, loaded_b)
          (Returns-if (b ==ℤ pos 0)
            (λ free. scan_card-Returns fuel model card nb_sat lits (j + 1) r k (omega arith))
            (λ is_bound.
              Returns-if (same_sign (b ==ℤ pos 1) (is_positive lit))
                (λ agrees.
                  Returns-if (nb_sat + 1 == card)
                    (λ _. returns (λ a g. true_count-get a lits j lit at (
                      bound_true b lit (a (lit_var lit)) (g (lit_var lit) b bound) is_bound
                        agrees)))
                    (λ more.
                      let above : nb_sat + 1 < card = ground arith in
                      scan_card-Returns fuel model card (nb_sat + 1) lits j r above (omega arith)))
                (λ differs.
                  Returns-map
                    (scan_card-Returns fuel model card nb_sat (swap_remove lits j) j
                      (ranged-swap_remove (length model) lits j lit at r) k (omega arith))
                    (counted_from model lits (swap_remove lits j) (λ a g.
                      let fails =
                        bound_false b lit (a (lit_var lit)) (g (lit_var lit) b bound) is_bound
                          differs in
                      let split = true_count-swap_remove a lits j lit at in ground arith))))))
      (λ outside. returns (record { same = λ a g. refl; ranged = r }))

-- A literal that is true under the bindings is counted until the degree is reached, whatever the degree: the
-- scan that comes to it with fewer literals counted than the degree takes the clause for satisfied.
pub scan_card-true_literal :
    (fuel : ℕ) (model : List ℤ) (card nb_sat : ℕ) (lits : List Lit) (j : ℕ) (lit : Lit) (b : ℤ)
    → get_elem? lits j ≡ some lit
    → get_elem? model (lit_var lit) ≡ some b
    → (b ==ℤ pos 0) ≡ false
    → same_sign (b ==ℤ pos 1) (is_positive lit) ≡ true
    → nb_sat < card
    → card - nb_sat ≤ fuel
    → scan_card fuel model card nb_sat lits j ≡ ok none
unfolding scan_card
scan_card-true_literal zero model card nb_sat lits j lit b e m n s k f = absurd (omega arith)
scan_card-true_literal (suc fuel) model card nb_sat lits j lit b e m n s k f =
    let inside : ltb j (length lits) ≡ true = let lt = get_elem?-lt lits j lit e in ground arith in
    elim (Bool-cases (nb_sat + 1 == card)) [
      | inl last ↦ rw (inside, e, m, n, s, last) refl
      | inr more ↦
          let above : nb_sat + 1 < card = ground arith in
          rw (inside, e, m, n, s, more)
            (scan_card-true_literal fuel model card (nb_sat + 1) lits j lit b e m n s above
              (omega arith))
    ]
