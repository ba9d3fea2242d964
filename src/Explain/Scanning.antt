-- ===== src/Explain/Scanning.antt =====
-- The scan of a clause under the current bindings.
use gophersat.Prelude.{
  ℕ, zero, suc, ◌+◌, ◌<◌, ◌≤◌, ◌≡◌, refl, true, false, some, List, [], ◌∷◌, length, get_elem?,
  get_elem?-some, arith, ◌==◌,
}
use gophersat.Prelude.Run.{ok, Returns, returns, Returns-map, Returns-if}
use gophersat.Prelude.Int.{ℤ, pos, negsuc, nat_abs, ◌*ℤ◌, ◌==ℤ◌}
use gophersat.Semantics.{Reads, Agrees, Assignment, holds, clause_true, IsLit, IsClause}
use gophersat.Explain.{Clause, Scan, load_pred, scan_clause}

pub load_pred-Returns :
    (units : List ℤ) (lit : ℤ)
    → IsLit (length units) lit
    → (b : ℤ) × (load_pred units (nat_abs lit) ≡ ok b)
load_pred-Returns units (pos zero) h = absurd (omega arith)
load_pred-Returns units (pos (suc k)) h =
    let (b, e) = get_elem?-some units k (omega arith) in (b, rw e)
load_pred-Returns units (negsuc k) h =
    let (b, e) = get_elem?-some units k (omega arith) in (b, rw e)

-- The index of a literal's variable.
abbrev pub var_of : ℤ → ℕ
var_of (pos zero) = 0
var_of (pos (suc k)) = k
var_of (negsuc k) = k

load_pred-inv :
    (units : List ℤ) (lit : ℤ) (b : ℤ)
    → load_pred units (nat_abs lit) ≡ ok b
    → get_elem? units (var_of lit) ≡ some b
load_pred-inv units (pos zero) b e = cc
load_pred-inv units (pos (suc k)) b e = ground arith
load_pred-inv units (negsuc k) b e = ground arith

falsified :
    (b lit : ℤ) (a : Assignment)
    → Reads b (a (var_of lit))
    → (b ==ℤ pos 0) ≡ false
    → (b *ℤ lit ==ℤ pos (nat_abs lit)) ≡ false
    → holds a lit ≡ false
unfolding ◌*ℤ◌
falsified b lit a r u f = ground arith

-- From `s`, the scan of `lits` ends in `t`.
pub record ScanPost (units : List ℤ) (lits : Clause) (s t : Scan) : Type 0 where
  pub grows : s.unbound ≤ t.unbound
  pub keeps : s.unbound ≡ t.unbound → s.unit ≡ t.unit
  pub valid :
      (s.unbound ≡ 1 → IsLit (length units) s.unit) → t.unbound ≡ 1 → IsLit (length units) t.unit
  pub implied :
      (a : Assignment)
      → Agrees a units
      → t.sat ≡ false
      → t.unbound < 2
      → clause_true a lits ≡ true
      → (s.unbound ≡ 0) × (t.unbound ≡ 1) × (holds a t.unit ≡ true)

pub scan_clause-Returns :
    (units : List ℤ) (lits : Clause) (s : Scan)
    → IsClause (length units) lits
    → s.unbound < 2
    → Returns (ScanPost units lits s) (scan_clause units lits s)
unfolding scan_clause
scan_clause-Returns units [] s h lt =
    returns
      (record { grows = omega arith; keeps = λ e. refl; valid = λ v. v; implied = λ a g f l c. cc })
scan_clause-Returns units (lit ∷ lits) s h lt =
    let (b, e) = load_pred-Returns units lit h.0 in
    let at = load_pred-inv units lit b e in
    rw e (
      Returns-if (b ==ℤ pos 0)
        (λ free.
          Returns-if (s.unbound + 1 == 1)
            (λ first.
              Returns-map
                (scan_clause-Returns units lits (record s { unbound = s.unbound + 1; unit = lit })
                  h.1 (ground arith))
                λ t p. record {
                  grows = omega (arith, p.grows);
                  keeps = λ e. absurd (omega (arith, p.grows));
                  valid = λ v. p.valid (λ one. h.0);
                  implied = λ a g f l c. ground (arith, p.implied a g f l, p.keeps);
                })
            (λ second. returns (record {
              grows = omega arith;
              keeps = λ e. absurd (omega arith);
              valid = λ v one. absurd (ground arith);
              implied = λ a g f l c. absurd (ground arith);
            })))
        (λ bound.
          Returns-if (b *ℤ lit ==ℤ pos (nat_abs lit))
            (λ hit. returns (record {
              grows = omega arith;
              keeps = λ e. refl;
              valid = λ v. v;
              implied = λ a g f l c. cc;
            }))
            (λ miss. Returns-map (scan_clause-Returns units lits s h.1 lt) λ t p. record {
              grows = p.grows;
              keeps = p.keeps;
              valid = p.valid;
              implied = λ a g f l c.
                  let off = falsified b lit a (g (var_of lit) b at) bound miss in
                  p.implied a g f l (rw off at c);
            })))
