-- ===== src/Solver/Problem/Literals.antt =====
-- The scan of a clause's literals keeps what the clause means under the bindings.
use gophersat.Prelude.{
  ℕ, zero, suc, ◌+◌, ◌-◌, ◌<◌, ◌≤◌, ◌≡◌, refl, sym, ap, ◌∙◌, Bool, true, false, not, Option, none,
  some, List, length, get_elem?, get_elem?-lt, ltb, ltb→lt, ◌==◌, ==→eq, Bool-cases, inl, inr,
  arith, if◌then◌else◌,
}
use gophersat.Prelude.Run.{Returns, returns, Returns-if, Returns-bind, Returns-map}
use gophersat.Prelude.Slices.{
  load-ok, swap_remove, length-swap_remove, get_elem?-swap_remove, some_of, each_of,
  some_of-swap_remove, each_of-swap_remove, some_of-get, each_of-get,
}
use gophersat.Prelude.Int.{ℤ, pos, negsuc, ◌==ℤ◌}
use gophersat.Semantics.{Assignment, Reads, Agrees}
use gophersat.Solver.Types.{Lit, lit_var, is_positive, negation}
use gophersat.Solver.Types.Codec.{lit_true, negation_lem}
use gophersat.Solver.Problem.{drop_duplicates, same_sign, scan_lits}

-- The variable is one of n.
abbrev pub below : ℕ → Lit → Bool
below n l = ltb (lit_var l) n

-- The disjunction of the literals.
abbrev pub lits_true : Assignment → List Lit → Bool
lits_true a = some_of (lit_true a)

pub lit_true-negation : (a : Assignment) (l : Lit) → lit_true a (negation l) ≡ not (lit_true a l)
lit_true-negation a l = let n = negation_lem l in rw (n.sign, n.same_var) (ground arith)

-- The literals that are left mean the same, and keep the one at place j.
record Dropped (n : ℕ) (lits : List Lit) (j : ℕ) (lit : Lit) (out : List Lit) : Type 0 where
  same : (a : Assignment) → lits_true a out ≡ lits_true a lits
  keeps : get_elem? out j ≡ some lit
  ranged : each_of (below n) lits ≡ true → each_of (below n) out ≡ true
  shorter : length out ≤ length lits

abbrev DroppedOr : ℕ → List Lit → ℕ → Lit → Option (List Lit) → Type 0
DroppedOr n lits j lit none = (a : Assignment) → lits_true a lits ≡ true
DroppedOr n lits j lit (some out) = Dropped n lits j lit out

opposite_true :
    (a : Assignment) (lits : List Lit) (j k : ℕ) (lit : Lit)
    → get_elem? lits j ≡ some lit
    → get_elem? lits k ≡ some (negation lit)
    → lits_true a lits ≡ true
opposite_true a lits j k lit e f = elim (Bool-cases (lit_true a lit)) [
  | inl holds ↦ some_of-get (lit_true a) lits j lit e holds
  | inr fails ↦
      some_of-get (lit_true a) lits k (negation lit) f (lit_true-negation a lit ∙ ap not fails)
]

duplicate_same :
    (a : Assignment) (lits : List Lit) (j k : ℕ) (lit : Lit)
    → get_elem? lits k ≡ some lit
    → get_elem? (swap_remove lits k) j ≡ some lit
    → lits_true a (swap_remove lits k) ≡ lits_true a lits
duplicate_same a lits j k lit f e =
    let split = some_of-swap_remove (lit_true a) lits k lit f in
    elim (Bool-cases (lit_true a lit)) [
      | inl holds ↦
          some_of-get (lit_true a) (swap_remove lits k) j lit e holds
          ∙ sym (some_of-get (lit_true a) lits k lit f holds)
      | inr fails ↦ sym (rw fails at split)
    ]

pub ranged-swap_remove :
    (n : ℕ) (lits : List Lit) (k : ℕ) (lit : Lit)
    → get_elem? lits k ≡ some lit
    → each_of (below n) lits ≡ true
    → each_of (below n) (swap_remove lits k) ≡ true
ranged-swap_remove n lits k lit f r = ground (arith, each_of-swap_remove (below n) lits k lit f)

drop_duplicates-Returns :
    (n fuel : ℕ) (lit : Lit) (lits : List Lit) (j k : ℕ)
    → get_elem? lits j ≡ some lit
    → j < k
    → length lits - k < fuel
    → Returns (DroppedOr n lits j lit) (drop_duplicates fuel lit lits k)
unfolding drop_duplicates
drop_duplicates-Returns n zero lit lits j k e lt f = absurd (omega arith)
drop_duplicates-Returns n (suc fuel) lit lits j k e lt f =
    Returns-if (ltb k (length lits))
      (λ inside.
        let hk = ltb→lt k (length lits) inside in
        let (lit2, at, loaded) = load-ok lits k hk in
        rw loaded (
          Returns-if (lit2 == negation lit)
            (λ opposite. returns (λ a.
              opposite_true a lits j k lit e (at ∙ ap some (==→eq lit2 (negation lit) opposite))))
            (λ _.
              Returns-if (lit2 == lit)
                (λ twice.
                  let shorter = length-swap_remove lits k hk in
                  let kept = get_elem?-swap_remove lits k j lt hk ∙ e in
                  let at' = at ∙ ap some (==→eq lit2 lit twice) in
                  let same = λ (a : Assignment). duplicate_same a lits j k lit at' kept in
                  Returns-map
                    (drop_duplicates-Returns n fuel lit (swap_remove lits k) j k kept lt
                      (omega arith))
                    (elim [
                      | none ↦ λ t a. sym (same a) ∙ t a
                      | some out ↦ λ d. record {
                        same = λ a. d.same a ∙ same a;
                        keeps = d.keeps;
                        ranged = λ r. d.ranged (ranged-swap_remove n lits k lit at' r);
                        shorter = omega (arith, d.shorter);
                      }
                    ]))
                (λ other.
                  drop_duplicates-Returns n fuel lit lits j (k + 1) e (omega arith)
                    (omega arith)))))
      (λ outside.
        returns (record { same = λ a. refl; keeps = e; ranged = λ r. r; shorter = omega arith }))

-- What the scan of a clause leaves: the rest means the same under the bindings.
pub record Scanned (model : List ℤ) (lits out : List Lit) : Type 0 where
  pub same : (a : Assignment) → Agrees a model → lits_true a out ≡ lits_true a lits
  pub ranged : each_of (below (length model)) out ≡ true

abbrev pub ScannedOr : List ℤ → List Lit → Option (List Lit) → Type 0
ScannedOr model lits none = (a : Assignment) → Agrees a model → lits_true a lits ≡ true
ScannedOr model lits (some out) = Scanned model lits out

-- A bound literal is true or false in every assignment that extends the bindings.
pub bound_true :
    (b : ℤ) (lit : Lit) (x : Bool)
    → Reads b x
    → (b ==ℤ pos 0) ≡ false
    → same_sign (b ==ℤ pos 1) (is_positive lit) ≡ true
    → (if is_positive lit then x else not x) ≡ true
unfolding same_sign
bound_true (pos zero) lit x r u s = cc
bound_true (pos (suc zero)) lit x r u s = ground arith
bound_true (pos (suc (suc n))) lit x r u s = absurd r
bound_true (negsuc zero) lit x r u s = ground arith
bound_true (negsuc (suc n)) lit x r u s = absurd r

pub bound_false :
    (b : ℤ) (lit : Lit) (x : Bool)
    → Reads b x
    → (b ==ℤ pos 0) ≡ false
    → same_sign (b ==ℤ pos 1) (is_positive lit) ≡ false
    → (if is_positive lit then x else not x) ≡ false
unfolding same_sign
bound_false (pos zero) lit x r u s = cc
bound_false (pos (suc zero)) lit x r u s = ground arith
bound_false (pos (suc (suc n))) lit x r u s = absurd r
bound_false (negsuc zero) lit x r u s = ground arith
bound_false (negsuc (suc n)) lit x r u s = absurd r

-- The scan of literals that mean the same.
scanned_from :
    (model : List ℤ) (lits mid : List Lit)
    → ((a : Assignment) → Agrees a model → lits_true a mid ≡ lits_true a lits)
    → (r : Option (List Lit)) → ScannedOr model mid r
    → ScannedOr model lits r
scanned_from model lits mid same none t = λ a g. sym (same a g) ∙ t a g
scanned_from model lits mid same (some out) d = record {
  same = λ a g. d.same a g ∙ same a g;
  ranged = d.ranged;
}

-- A false literal can go.
falsified_same :
    (a : Assignment) (lits : List Lit) (j : ℕ) (lit : Lit)
    → get_elem? lits j ≡ some lit
    → lit_true a lit ≡ false
    → lits_true a (swap_remove lits j) ≡ lits_true a lits
falsified_same a lits j lit e fails =
    let split = some_of-swap_remove (lit_true a) lits j lit e in sym (rw fails at split)

pub scan_lits-Returns :
    (fuel : ℕ) (model : List ℤ) (lits : List Lit) (j : ℕ)
    → each_of (below (length model)) lits ≡ true
    → length lits - j < fuel
    → Returns (ScannedOr model lits) (scan_lits fuel model lits j)
unfolding scan_lits
scan_lits-Returns zero model lits j r f = absurd (omega arith)
scan_lits-Returns (suc fuel) model lits j r f =
    Returns-if (ltb j (length lits))
      (λ inside.
        let hj = ltb→lt j (length lits) inside in
        let (lit, at, loaded) = load-ok lits j hj in
        rw loaded (
          Returns-bind
            (drop_duplicates-Returns (length model) (length lits + 1) lit lits j (j + 1) at
              (omega arith) (omega arith))
            (elim [
              | none ↦ λ t. returns (λ a g. t a)
              | some lits' ↦ λ d.
                  let in_range =
                    each_of-get (below (length model)) lits' j lit (d.ranged r) d.keeps in
                  let hv = ltb→lt (lit_var lit) (length model) in_range in
                  let (b, bound, loaded_b) = load-ok model (lit_var lit) hv in
                  let hj' = get_elem?-lt lits' j lit d.keeps in
                  rw loaded_b (
                    Returns-if (b ==ℤ pos 0)
                      (λ free.
                        Returns-map
                          (scan_lits-Returns fuel model lits' (j + 1) (d.ranged r)
                            (omega (arith, d.shorter)))
                          (scanned_from model lits lits' (λ a g. d.same a)))
                      (λ is_bound.
                        Returns-if (same_sign (b ==ℤ pos 1) (is_positive lit))
                          (λ agrees. returns (λ a g.
                            sym (d.same a)
                            ∙ some_of-get (lit_true a) lits' j lit d.keeps (
                                bound_true b lit (a (lit_var lit)) (g (lit_var lit) b bound)
                                  is_bound agrees)))
                          (λ differs.
                            let shorter = length-swap_remove lits' j hj' in
                            Returns-map
                              (scan_lits-Returns fuel model (swap_remove lits' j) j
                                (ranged-swap_remove (length model) lits' j lit d.keeps (d.ranged r))
                                (omega (arith, d.shorter)))
                              (scanned_from model lits (swap_remove lits' j) (λ a g.
                                falsified_same a lits' j lit d.keeps (
                                  bound_false b lit (a (lit_var lit)) (g (lit_var lit) b bound)
                                    is_bound differs)
                                ∙ d.same a)))))
            ])))
      (λ outside. returns (record { same = λ a g. refl; ranged = r }))
