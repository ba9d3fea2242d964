-- ===== src/Explain/Rounds.antt =====
-- One round of unit propagation: what the visit of a clause does to bindings, tags and marks.
use gophersat.Prelude.{
  ℕ, zero, suc, ◌+◌, ◌<◌, ◌≤◌, ◌≡◌, refl, sym, ap, ◌∙◌, Bool, true, false, some, List, [], ◌∷◌,
  length, get_elem?, set, length-set, get_elem?-set, get_elem?-lt, arith, ◌⊎◌, inl, inr, ltb,
  ltb-suc-zero, ◌==◌, if◌then◌else◌,
}
use gophersat.Prelude.Run.{Returns, returns, Returns-if, Returns-bind}
use gophersat.Prelude.Slices.{store-Returns}
use gophersat.Prelude.Int.{ℤ, pos, negsuc}
use gophersat.Semantics.{Agrees, set-Agrees, Assignment, holds, clause_true, IsLit}
use mathlib.Core.Bool.{false≢true}
use gophersat.Explain.{Clause, Scan, Propagation, tag, bind_unit, conclude}
use gophersat.Explain.Scanning.{ScanPost}

-- How many clauses are not yet marked as done.
unfoldable pub undone : List Bool → ℕ
undone [] = 0
undone (b ∷ bs) = (if b then 0 else 1) + undone bs

undone-set :
    (done : List Bool) (i : ℕ)
    → get_elem? done i ≡ some false
    → undone (set done i true) + 1 ≡ undone done
unfolding undone
undone-set [] i e = ground arith
undone-set (b ∷ bs) zero e = ground arith
undone-set (b ∷ bs) (suc i) e = omega (arith, undone-set bs i e)

-- The tags of the second list include those of the first.
abbrev pub Includes : List Bool → List Bool → Type 0
Includes tagged tagged' =
    (length tagged' ≡ length tagged)
    × ((j : ℕ) → get_elem? tagged j ≡ some true → get_elem? tagged' j ≡ some true)

-- Clause i of the problem's own clauses is tagged.
abbrev pub Tagged : ℕ → List Bool → ℕ → Type 0
Tagged nb_clauses tagged i = i < nb_clauses → get_elem? tagged i ≡ some true

tag-Returns :
    (nb_clauses i : ℕ) (tagged : List Bool)
    → length tagged ≡ nb_clauses
    → Returns (λ t. Includes tagged t × Tagged nb_clauses t i) (tag nb_clauses i tagged)
unfolding tag
tag-Returns nb_clauses i tagged e =
    Returns-if (ltb i nb_clauses)
      (λ own.
        let lt : i < length tagged = ground arith in
        store-Returns tagged i true lt (
          (length-set tagged i true, λ j h. ground (arith, get_elem?-set tagged i j true lt)),
          λ _. ground (arith, get_elem?-set tagged i i true lt),
        ))
      (λ learned. returns ((refl, λ j h. h), λ lt. absurd (ground arith)))

-- The bindings after a literal is made true.
abbrev Bound : ℤ → List ℤ → List ℤ → Type 0
Bound unit units units' =
    (length units' ≡ length units)
    × ((a : Assignment) → Agrees a units → holds a unit ≡ true → Agrees a units')

bind_unit-Returns :
    (unit : ℤ) (units : List ℤ)
    → IsLit (length units) unit
    → Returns (Bound unit units) (bind_unit unit units)
unfolding bind_unit
bind_unit-Returns (pos zero) units h = absurd (omega arith)
bind_unit-Returns (pos (suc k)) units h = rw (ltb-suc-zero k) (
    store-Returns units k (pos 1) (omega arith)
      (length-set units k (pos 1), λ a g t. set-Agrees a units k (pos 1) (omega arith) t g))
bind_unit-Returns (negsuc k) units h = store-Returns units k (negsuc 0) (omega arith) (
  length-set units k (negsuc 0),
  λ a g t. set-Agrees a units k (negsuc 0) (omega arith) (ground arith) g,
)

-- What a step from p, which may find a conflict, keeps and proves. The clauses that it uses are
-- those of which `used` says that the assignment makes them true.
pub record StepPost (nb_clauses : ℕ) (used : Assignment → List Bool → Type 0) (p : Propagation)
    (r : Bool × Propagation) : Type 0 where
  pub same_units : length r.1.units ≡ length p.units
  pub same_done : length r.1.done ≡ length p.done
  pub tags : Includes p.tagged r.1.tagged
  pub progress : undone r.1.done ≤ undone p.done
  pub marks :
      r.0 ≡ false → r.1.modified ≡ true → (p.modified ≡ true) ⊎ (undone r.1.done < undone p.done)
  pub refutes : (a : Assignment) → Agrees a p.units → used a r.1.tagged → r.0 ≡ true → ⊥
  pub extends :
      (a : Assignment) → Agrees a p.units → used a r.1.tagged → r.0 ≡ false → Agrees a r.1.units

-- The assignment makes clause i true, if it is a learned clause or tagged.
abbrev pub Uses : ℕ → ℕ → Clause → Assignment → List Bool → Type 0
Uses nb_clauses i clause a tagged = Tagged nb_clauses tagged i → clause_true a clause ≡ true

module _ (nb_clauses i : ℕ) (clause : Clause) (p : Propagation)
    (sized : length p.tagged ≡ nb_clauses) (open_ : get_elem? p.done i ≡ some false) where
  pub conclude-Returns :
      (s : Scan)
      → ScanPost p.units clause (record { unbound = 0; unit = pos 0; sat = false }) s
      → Returns (StepPost nb_clauses (Uses nb_clauses i clause) p) (conclude nb_clauses i s p)
  unfolding conclude
  conclude-Returns s sp =
      let lt = get_elem?-lt p.done i false open_ in
      let fall = undone-set p.done i open_ in
      Returns-if s.sat
        (λ sat. Returns-bind (store-Returns p.done i true lt refl) λ done eq. returns (record {
          same_units = refl;
          same_done = ap length eq ∙ length-set p.done i true;
          tags = (refl, λ j h. h);
          progress = omega (arith, ap undone eq);
          marks = λ f m. inl m;
          refutes = λ a g u t. false≢true t;
          extends = λ a g u f. g;
        }))
        (λ unsat.
          Returns-if (s.unbound == 0)
            (λ none_left. Returns-bind (tag-Returns nb_clauses i p.tagged sized) λ t (inc, tagged).
              returns (record {
                same_units = refl;
                same_done = refl;
                tags = inc;
                progress = omega arith;
                marks = λ f. absurd (false≢true (sym f));
                refutes = λ a g u c. ground (arith, sp.implied a g unsat (ground arith) (u tagged));
                extends = λ a g u f. absurd (false≢true (sym f));
              }))
            (λ some_left.
              Returns-if (s.unbound == 1)
                (λ one.
                  let lit = sp.valid (λ e. absurd (omega arith)) (ground arith) in
                  Returns-bind (bind_unit-Returns s.unit p.units lit) λ units (size, bound).
                    Returns-bind (store-Returns p.done i true lt refl) λ done eq.
                      Returns-bind (tag-Returns nb_clauses i p.tagged sized) λ t (inc, tagged).
                        returns (record {
                          same_units = size;
                          same_done = ap length eq ∙ length-set p.done i true;
                          tags = inc;
                          progress = omega (arith, ap undone eq);
                          marks = λ f m. inr (omega (arith, ap undone eq));
                          refutes = λ a g u c. false≢true c;
                          extends = λ a g u f.
                              bound a g (sp.implied a g unsat (ground arith) (u tagged)).2;
                        }))
                (λ more. returns (record {
                  same_units = refl;
                  same_done = refl;
                  tags = (refl, λ j h. h);
                  progress = omega arith;
                  marks = λ f m. inl m;
                  refutes = λ a g u c. false≢true c;
                  extends = λ a g u f. g;
                }))))
