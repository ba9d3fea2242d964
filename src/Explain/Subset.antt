-- ===== src/Explain/Subset.antt =====
-- explain/check.go, UnsatSubset: the clauses that the check of the solver's certificate marks.
use gophersat.Prelude.{
  ℕ, ◌+◌, ◌≡◌, refl, sym, ap, Bool, true, false, some, List, [], ◌∷◌, length, get_elem?,
  get_elem?-some, ◌≤◌, zero, suc, arith, if◌then◌else◌,
}
use gophersat.Prelude.Run.{Run, ok, Returns, returns, Returns-bind, Returns-if, ◌>>=◌, or_panic}
use gophersat.Text.{Str}
use gophersat.Semantics.{Assignment, Satisfies}
use gophersat.Explain.{Clause, Problem}
use gophersat.Explain.Check.{Verdict, valid, unsat_chan}
use gophersat.Explain.Certificate.{CertInRange, DerivesEmpty}
use gophersat.Explain.Verdicts.{IsValid, unsat_chan_sound}

-- What UnsatSubset sees of the solver on the clauses: whether the problem that it parses is trivially
-- unsatisfiable, and else the lines on the channel and whether the status is Sat at their end.
pub record SolverRun : Type 0 where
  pub trivially_unsat : Bool
  pub certificate : List Str
  pub sat : Bool

-- ErrNotUnsat, or the subset.
pub data Subset : Type 0 where
  not_unsat : Subset
  subset : Problem → Subset

is_valid : Verdict → Bool
is_valid valid = true
is_valid _ = false

-- `for i, clause := range pb.Clauses`: the tagged clauses from the i-th on.
unfoldable pub select : ℕ → List Clause → List Bool → Run (List Clause)
select i [] tagged = ok []
select i (clause ∷ clauses) tagged = do
  used ← or_panic (get_elem? tagged i)
  rest ← select (i + 1) clauses tagged
  ok (if used then clause ∷ rest else rest)

-- The result, and the problem after the call.
unfoldable pub unsat_subset : Problem → SolverRun → Run (Subset × Problem)
unfolding is_valid select
unsat_subset pb s =
    let extract : Run (Subset × Problem) = do
      (verdict, pb') ← unsat_chan pb s.certificate
      let found : Run (Subset × Problem) = do
        clauses ← select 0 pb'.clauses pb'.tagged
        ok (
          subset (record {
            clauses = clauses;
            nb_vars = pb'.nb_vars;
            nb_clauses = length clauses;
            units = [];
            tagged = [];
          }),
          pb',
        )
      if is_valid verdict
          then (if s.sat then ok (not_unsat, pb') else found)
          else ok (not_unsat, pb')
    in if s.trivially_unsat then ok (subset pb, pb) else extract

-- Each clause of the one list is in the other.
abbrev pub Within : List Clause → List Clause → Type 0
Within xs ys = (j : ℕ) (c : Clause) → get_elem? xs j ≡ some c → (k : ℕ) × (get_elem? ys k ≡ some c)

-- The selected clauses are those of the list that are tagged.
record Selected (i : ℕ) (clauses : List Clause) (tagged : List Bool) (out : List Clause)
    : Type 0 where
  within : Within out clauses
  shorter : length out ≤ length clauses
  complete :
      (j : ℕ) (c : Clause)
      → get_elem? clauses j ≡ some c
      → get_elem? tagged (i + j) ≡ some true
      → (k : ℕ) × (get_elem? out k ≡ some c)

select-Returns :
    (i : ℕ) (clauses : List Clause) (tagged : List Bool)
    → i + length clauses ≤ length tagged
    → Returns (Selected i clauses tagged) (select i clauses tagged)
unfolding select
select-Returns i [] tagged h =
    returns (record { within = λ j c e. cc; shorter = omega arith; complete = λ j c e. cc })
select-Returns i (clause ∷ clauses) tagged h =
    let (b, e) = get_elem?-some tagged i (omega arith) in
    rw e (
      Returns-bind (select-Returns (i + 1) clauses tagged (omega arith))
        λ rest s. returns (keep b e s))
  where
    keep :
        {rest : List Clause} (b : Bool)
        → get_elem? tagged i ≡ some b
        → Selected (i + 1) clauses tagged rest
        → Selected i (clause ∷ clauses) tagged (if b then clause ∷ rest else rest)
    keep true e s = record {
      within = elim [
        | zero ↦ λ c f. (0, f)
        | suc j ↦ λ c f. let (k, g) = s.within j c f in (suc k, g)
      ];
      shorter = omega (arith, s.shorter);
      complete = elim [
        | zero ↦ λ c f t. (0, f)
        | suc j ↦ λ c f t.
            let shift : i + suc j ≡ i + 1 + j = omega arith in
            let (k, g) = s.complete j c f (rw shift at t) in (suc k, g)
      ];
    }
    keep false e s = record {
      within = λ j c f. let (k, g) = s.within j c f in (suc k, g);
      shorter = omega (arith, s.shorter);
      complete = elim [
        | zero ↦ λ c f t. let stay : i + 0 ≡ i = omega arith in absurd (ground arith)
        | suc j ↦ λ c f t.
            let shift : i + suc j ≡ i + 1 + j = omega arith in s.complete j c f (rw shift at t)
      ];
    }

-- What the solver is relied on for, on a list of clauses.
pub record SoundRun (n : ℕ) (clauses : List Clause) (s : SolverRun) : Type 0 where
  pub trivial : s.trivially_unsat ≡ true → (a : Assignment) → Satisfies a clauses → ⊥
  pub in_range : CertInRange n s.certificate
  pub ends : s.sat ≡ false → DerivesEmpty s.certificate

-- The clauses of a found subset are among those of the problem, and have no model.
abbrev pub IsUnsatSubset : List Clause → Subset → Type 0
IsUnsatSubset clauses not_unsat = Unit {0}
IsUnsatSubset clauses (subset found) =
    Within found.clauses clauses
    × (length found.clauses ≤ length clauses)
    × (found.nb_clauses ≡ length found.clauses)
    × ((a : Assignment) → Satisfies a found.clauses → ⊥)

-- From a valid problem, and a solver whose trivial refutations are right and whose certificates
-- range over the problem's variables and derive the empty clause unless it answers Sat, UnsatSubset
-- returns, and a subset that it finds consists of clauses of the problem, is no longer and has no model. The
-- problem keeps its clauses and its bindings.
pub unsat_subset_sound :
    (pb : Problem) (s : SolverRun)
    → IsValid pb
    → SoundRun (length pb.units) pb.clauses s
    → Returns
        (λ r. IsUnsatSubset pb.clauses r.0 × (r.1.clauses ≡ pb.clauses) × (r.1.units ≡ pb.units))
        (unsat_subset pb s)
unfolding unsat_subset
unsat_subset_sound pb s v sound =
    Returns-if s.trivially_unsat
      (λ t. returns ((λ j c e. (j, e), omega arith, sym v.count, sound.trivial t), refl, refl))
      (λ _. Returns-bind (unsat_chan_sound pb s.certificate v sound.in_range) λ (verdict, pb') o.
        Returns-if (is_valid verdict)
          (λ good.
            Returns-if s.sat (λ _. returns (tt, o.clauses, o.units))
              (λ unsat.
                Returns-bind
                  (select-Returns 0 pb'.clauses pb'.tagged
                    (omega (arith, o.sized, v.count, ap length o.clauses)))
                  λ out sel. returns (
                    (
                      rw o.clauses at sel.within,
                      omega (arith, sel.shorter, ap length o.clauses),
                      refl,
                      λ a m. o.refuted (is_valid-eq verdict good) (sound.ends unsat) a λ j c e t.
                          let z : 0 + j ≡ j = omega arith in
                          let (k, f) = sel.complete j c (rw o.clauses e) (rw z t) in m k c f,
                    ),
                    o.clauses,
                    o.units,
                  )))
          (λ _. returns (tt, o.clauses, o.units)))
  where
    is_valid-eq : (w : Verdict) → is_valid w ≡ true → w ≡ valid
    is_valid-eq w e = ground arith
