-- ===== src/Solver/SimplifyCard/Binding.antt =====
-- What addUnits does to the assignments that extend the bindings.
use gophersat.Prelude.{
  ◌≡◌, refl, ◌∙◌, true, false, ◌⊎◌, inl, inr, Bool-cases, List, [], ◌∷◌, ◌++◌, length, arith,
}
use gophersat.Prelude.Run.{Returns, returns, Returns-bind, Returns-map}
use gophersat.Prelude.Slices.{each_of}
use gophersat.Semantics.{Assignment, Agrees}
use gophersat.Solver.Types.{unsat, Lit}
use gophersat.Solver.Types.Codec.{lit_true}
use gophersat.Solver.Problem.{Problem}
use gophersat.Solver.Problem.Literals.{below}
use gophersat.Solver.Problem.Settle.{each_of-snoc}
use gophersat.Solver.Problem.Units.{is_binding, AddedUnit, clash, added, add_unit-Returns}
use gophersat.Solver.SimplifyCard.{add_units}

-- The problem with all the literals bound.
pub record AddedAll (lits : List Lit) (pb pb' : Problem) : Type 0 where
  pub status : pb'.status ≡ pb.status
  pub clauses : pb'.clauses ≡ pb.clauses
  pub model_length : length pb'.model ≡ length pb.model
  pub bindings : each_of is_binding pb'.model ≡ true
  pub forth :
      (a : Assignment) → Agrees a pb'.model → Agrees a pb.model × (each_of (lit_true a) lits ≡ true)
  pub back :
      (a : Assignment) → Agrees a pb.model → each_of (lit_true a) lits ≡ true → Agrees a pb'.model
  pub units_same :
      (a : Assignment)
      → Agrees a pb'.model
      → each_of (lit_true a) pb'.units ≡ each_of (lit_true a) pb.units

-- Or the problem is found Unsat, because the literals are not all true.
abbrev pub AddedOr : List Lit → Problem → Problem → Type 0
AddedOr lits pb pb' =
    ((pb'.status ≡ unsat)
      × ((a : Assignment) → Agrees a pb.model → each_of (lit_true a) lits ≡ false))
    ⊎ AddedAll lits pb pb'

-- Once the problem is found Unsat it stays so.
module _ (lit : Lit) (lits : List Lit) where
  after_unsat :
      (pb pb' : Problem)
      → pb.status ≡ unsat
      → AddedUnit lit pb pb'
      → each_of is_binding pb.model ≡ true
      → each_of (below (length pb.model)) lits ≡ true
      → ((q : Problem)
          → q.status ≡ unsat
          → each_of is_binding q.model ≡ true
          → each_of (below (length q.model)) lits ≡ true
          → Returns (λ r. r.status ≡ unsat) (add_units lits q))
      → Returns (λ r. r.status ≡ unsat) (add_units lits pb')
  after_unsat pb pb' u (clash never) i r rest = rest (record pb { status = unsat }) refl i r
  after_unsat pb pb' u (added model sized binds agree back) i r rest =
      rest (record pb { model = model; units = pb.units ++ lit ∷ [] }) u binds (rw sized r)

add_units-unsat :
    (lits : List Lit) (pb : Problem)
    → pb.status ≡ unsat
    → each_of is_binding pb.model ≡ true
    → each_of (below (length pb.model)) lits ≡ true
    → Returns (λ pb'. pb'.status ≡ unsat) (add_units lits pb)
unfolding add_units
add_units-unsat [] pb u i r = returns u
add_units-unsat (lit ∷ lits) pb u i r =
    Returns-bind (add_unit-Returns lit pb i (ground arith))
      (λ pb' d. after_unsat lit lits pb pb' u d i (ground arith) (add_units-unsat lits))

-- The rest of the loop, after a literal.
after_unit :
    (lit : Lit) (lits : List Lit) (pb pb' : Problem)
    → AddedUnit lit pb pb'
    → each_of is_binding pb.model ≡ true
    → each_of (below (length pb.model)) lits ≡ true
    → ((q : Problem)
        → each_of is_binding q.model ≡ true
        → each_of (below (length q.model)) lits ≡ true
        → Returns (AddedOr lits q) (add_units lits q))
    → Returns (AddedOr (lit ∷ lits) pb) (add_units lits pb')
after_unit lit lits pb pb' (clash never) i r rest =
    Returns-map (add_units-unsat lits (record pb { status = unsat }) refl i r)
      (λ q u. inl (u, λ a g. let n = never a g in ground arith))
after_unit lit lits pb pb' (added model sized binds agree back) i r rest =
    Returns-map
      (rest (record pb { model = model; units = pb.units ++ lit ∷ [] }) binds (rw sized r))
      (λ q. elim [
        | inl (u, never) ↦ inl (
          u,
          λ a g. elim (Bool-cases (lit_true a lit)) [
            | inl t ↦ let n = never a (back a g t) in ground arith
            | inr n ↦ ground arith
          ],
        )
        | inr d ↦ inr (record {
          status = d.status;
          clauses = d.clauses;
          model_length = d.model_length ∙ sized;
          bindings = d.bindings;
          forth = λ a g. let (h, t) = d.forth a g in let (h', t') = agree a h in (h', ground arith);
          back = λ a g t. d.back a (back a g (ground arith)) (ground arith);
          units_same = λ a g.
              let (h, t) = d.forth a g in
              let (h', t') = agree a h in
              d.units_same a g ∙ ground (arith, each_of-snoc (lit_true a) pb.units lit);
        })
      ])

pub add_units-Returns :
    (lits : List Lit) (pb : Problem)
    → each_of is_binding pb.model ≡ true
    → each_of (below (length pb.model)) lits ≡ true
    → Returns (AddedOr lits pb) (add_units lits pb)
unfolding add_units
add_units-Returns [] pb i r = returns (
    inr (record {
      status = refl;
      clauses = refl;
      model_length = refl;
      bindings = i;
      forth = λ a g. (g, refl);
      back = λ a g t. g;
      units_same = λ a g. refl;
    }))
add_units-Returns (lit ∷ lits) pb i r =
    Returns-bind (add_unit-Returns lit pb i (ground arith))
      (λ pb' d. after_unit lit lits pb pb' d i (ground arith) (add_units-Returns lits))
