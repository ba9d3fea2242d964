-- ===== src/Explain/Rup.antt =====
-- The check of one clause of a certificate: a clause that passes follows from the clauses used.
use gophersat.Prelude.{
  ℕ, zero, suc, ◌≤◌, ◌≡◌, refl, ◌∙◌, true, false, List, [], ◌∷◌, length, length-set,
  length-replicate, replicate, arith, Bool-cases, ltb-zero-suc, inl, inr, if◌then◌else◌,
}
use gophersat.Prelude.Run.{Returns, returns, Returns-map, Returns-bind}
use gophersat.Prelude.Slices.{store-Returns}
use gophersat.Prelude.Int.{ℤ, pos, negsuc, nat_abs, ltb_ℤ}
use gophersat.Semantics.{Agrees, set-Agrees, Assignment, holds, clause_true, IsLit, IsClause}
use gophersat.Explain.{Clause, Problem, unsat, store_pred}
use gophersat.Explain.Rounds.{undone, Includes}
use gophersat.Explain.Loop.{Backs, AreClauses, propagate-Returns}
use gophersat.Explain.Check.{assume, check_clause}

-- Only bindings and tags change, and the tags grow.
pub record Keeps (pb pb' : Problem) : Type 0 where
  pub clauses : pb'.clauses ≡ pb.clauses
  pub nb_vars : pb'.nb_vars ≡ pb.nb_vars
  pub nb_clauses : pb'.nb_clauses ≡ pb.nb_clauses
  pub tags : Includes pb.tagged pb'.tagged

undone-le : (n : ℕ) → undone (replicate n false) ≤ n
unfolding undone
undone-le zero = omega arith
undone-le (suc n) = omega (arith, undone-le n)

-- A call that returns true has found a conflict between the bindings and the clauses used.
pub unsat-Returns :
    (pb : Problem)
    → length pb.tagged ≡ pb.nb_clauses
    → AreClauses (length pb.units) pb.clauses
    → Returns
        (λ r.
          Keeps pb r.1
          × ((a : Assignment)
              → Agrees a pb.units
              → Backs pb.nb_clauses 0 pb.clauses a r.1.tagged
              → r.0 ≡ true
              → ⊥))
        (unsat pb)
unfolding unsat
unsat-Returns pb sized h =
    let many = length-replicate (length pb.clauses) false in
    Returns-bind
      (propagate-Returns _ pb.nb_clauses pb.clauses _ (omega (arith, undone-le (length pb.clauses)))
        sized (omega (arith, many)) h)
      λ (res, p) s.
        returns
          (record { clauses = refl; nb_vars = refl; nb_clauses = refl; tags = s.tags }, s.refutes)

-- An assignment that makes the clause false extends the bindings that the check starts from.
assume-Returns :
    (clause : Clause) (units : List ℤ)
    → IsClause (length units) clause
    → Returns
        (λ us.
          (length us ≡ length units)
          × ((a : Assignment) → Agrees a units → clause_true a clause ≡ false → Agrees a us))
        (assume clause units)
unfolding assume
assume-Returns [] units h = returns (refl, λ a g f. g)
assume-Returns (lit ∷ clause) units h = Returns-bind (assume_one lit h.0) λ us s.
    Returns-map (assume-Returns clause us (rw s.0 h.1))
      λ vs t. (t.0 ∙ s.0, λ a g f. t.1 a (s.1 a g (ground arith)) (ground arith))
  where
    assume_one :
        (lit : ℤ)
        → IsLit (length units) lit
        → Returns
            (λ us.
              (length us ≡ length units)
              × ((a : Assignment) → Agrees a units → holds a lit ≡ false → Agrees a us))
            (if ltb_ℤ (pos 0) lit
              then store_pred units (nat_abs lit) (negsuc 0)
              else store_pred units (nat_abs lit) (pos 1))
    assume_one (pos zero) h = absurd (omega arith)
    assume_one (pos (suc k)) h = rw (ltb-zero-suc k) (
        store-Returns units k (negsuc 0) (omega arith) (
          length-set units k (negsuc 0),
          λ a g f. set-Agrees a units k (negsuc 0) (omega arith) f g,
        ))
    assume_one (negsuc k) h = store-Returns units k (pos 1) (omega arith) (
      length-set units k (pos 1),
      λ a g f. set-Agrees a units k (pos 1) (omega arith) (ground arith) g,
    )

-- The check returns; the bindings are as before, and a clause that passes is true in every
-- assignment that extends the bindings and makes the learned and the tagged clauses true.
pub check_clause-Returns :
    (pb : Problem) (clause : Clause)
    → length pb.tagged ≡ pb.nb_clauses
    → AreClauses (length pb.units) pb.clauses
    → IsClause (length pb.units) clause
    → Returns
        (λ r.
          Keeps pb r.1
          × (r.1.units ≡ pb.units)
          × ((a : Assignment)
              → Agrees a pb.units
              → Backs pb.nb_clauses 0 pb.clauses a r.1.tagged
              → r.0 ≡ true
              → clause_true a clause ≡ true))
        (check_clause pb clause)
unfolding check_clause
check_clause-Returns pb clause sized h hc = Returns-bind (assume-Returns clause pb.units hc) λ us s.
    Returns-bind (unsat-Returns (record pb { units = us }) sized (rw s.0 h))
      λ (res, pb') (kept, refutes). returns (
        record {
          clauses = kept.clauses;
          nb_vars = kept.nb_vars;
          nb_clauses = kept.nb_clauses;
          tags = kept.tags;
        },
        refl,
        λ a g b t. elim (Bool-cases (clause_true a clause)) [
          | inl yes' ↦ yes'
          | inr no' ↦ absurd (refutes a (s.1 a g no') b t)
        ],
      )
