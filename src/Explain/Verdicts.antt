-- ===== src/Explain/Verdicts.antt =====
-- The two checks of a certificate, from a problem as the parser makes it.
use gophersat.Prelude.{
  ℕ, zero, suc, ◌+◌, ◌<◌, ◌≤◌, ◌≡◌, refl, sym, ap, ◌∙◌, Bool, true, false, some, List, [], ◌∷◌,
  length, get_elem?, get_elem?-set, set, length-set, length-replicate, replicate, take-append,
  arith, ◌⊎◌, inl, inr,
}
use mathlib.Core.List.{append-nil}
use gophersat.Prelude.Run.{Returns, returns, Returns-map, Returns-bind}
use gophersat.Prelude.Slices.{store-Returns}
use gophersat.Prelude.Int.{ℤ, pos, negsuc}
use gophersat.Text.{Str}
use gophersat.Semantics.{Agrees, Assignment}
use gophersat.Explain.{Clause, Problem}
use gophersat.Explain.Loop.{AreClauses}
use gophersat.Explain.Check.{
  Verdict, valid, is_unit, tag_units, init_tagged, restore, unsat_chan, unsat_cert,
}
use gophersat.Explain.Certificate.{TaggedTrue, Holds, CertInRange, DerivesEmpty, Checked}
use gophersat.Explain.Lines.{cert_loop-Returns, chan_loop-Returns}

-- The literal that a binding b of variable k stands for is a unit clause of the problem.
abbrev pub HasUnit : List Clause → ℕ → ℤ → Type 0
HasUnit clauses k b =
    (b ≡ pos 0)
    ⊎ ((b ≡ pos 1) × ((j : ℕ) × (get_elem? clauses j ≡ some (pos (suc k) ∷ []))))
    ⊎ ((b ≡ negsuc 0) × ((j : ℕ) × (get_elem? clauses j ≡ some (negsuc k ∷ []))))

-- The header gave the right number of clauses, every literal is one of a variable with a binding,
-- and the bindings are those of unit clauses.
pub record IsValid (pb : Problem) : Type 0 where
  pub count : length pb.clauses ≡ pb.nb_clauses
  pub ranged : AreClauses (length pb.units) pb.clauses
  pub backed : (k : ℕ) (b : ℤ) → get_elem? pb.units k ≡ some b → HasUnit pb.clauses k b

-- From the i-th clause on, the tag says whether the clause is a unit.
tag_units-Returns :
    (i : ℕ) (clauses : List Clause) (tagged : List Bool)
    → i + length clauses ≤ length tagged
    → Returns
        (λ t.
          (length t ≡ length tagged)
          × ((j : ℕ) → j < i → get_elem? t j ≡ get_elem? tagged j)
          × ((j : ℕ) (c : Clause)
              → get_elem? clauses j ≡ some c
              → get_elem? t (i + j) ≡ some (is_unit c)))
        (tag_units i clauses tagged)
unfolding tag_units
tag_units-Returns i [] tagged h = returns (refl, λ j lt. refl, λ j c e. cc)
tag_units-Returns i (clause ∷ clauses) tagged h =
    let size = length-set tagged i (is_unit clause) in
    let at = λ (j : ℕ). get_elem?-set tagged i j (is_unit clause) (omega arith) in
    Returns-bind
      (store-Returns {P = λ t. t ≡ set tagged i (is_unit clause)} tagged i (is_unit clause)
        (omega arith) refl)
      λ u e. rw e (
        Returns-map
          (tag_units-Returns (i + 1) clauses (set tagged i (is_unit clause)) (omega (arith, size)))
          λ t (same, before, after). (
            same ∙ size,
            λ j lt. before j (omega arith) ∙ ground (arith, at j),
            elim [
              | zero ↦ λ c e.
                  let here : i + 0 ≡ i = omega arith in
                  rw here (before i (omega arith) ∙ ground (arith, at i))
              | suc j ↦
                  λ c e. let there : i + suc j ≡ i + 1 + j = omega arith in rw there (after j c e)
            ],
          ))

init_tagged-Returns :
    (pb : Problem) (valid : IsValid pb)
    → Returns
        (λ pb'.
          Holds pb.clauses pb.units pb'
          × (pb'.nb_vars ≡ pb.nb_vars)
          × ((j : ℕ) (c : Clause)
              → get_elem? pb.clauses j ≡ some c
              → get_elem? pb'.tagged j ≡ some (is_unit c)))
        (init_tagged pb)
unfolding init_tagged
init_tagged-Returns pb v =
    let size = length-replicate pb.nb_clauses false in
    Returns-bind
      (tag_units-Returns 0 pb.clauses (replicate pb.nb_clauses false)
        (omega (arith, size, v.count)))
      λ t (same, before, after). returns (
        record {
          learned = [];
          split = sym (append-nil pb.clauses);
          count = v.count;
          sized = same ∙ size;
          bound = refl;
          ranged = v.ranged;
          follows = λ a g tt' j c e. cc;
        },
        refl,
        λ j c e. let z : 0 + j ≡ j = omega arith in rw z at (after j c e),
      )

-- An assignment that makes the unit clauses true extends the bindings.
agrees :
    (pb : Problem) (tagged : List Bool) (a : Assignment)
    → IsValid pb
    → ((j : ℕ) (c : Clause)
        → get_elem? pb.clauses j ≡ some c
        → is_unit c ≡ true
        → get_elem? tagged j ≡ some true)
    → TaggedTrue a pb.clauses tagged
    → Agrees a pb.units
unfolding is_unit
agrees pb tagged a v units t k b e = elim (v.backed k b e) [
  | inl free ↦ rw free tt
  | inr (inl (up, (j, at))) ↦ rw up (ground (arith, t j (pos (suc k) ∷ []) at (units j _ at refl)))
  | inr (inr (down, (j, at))) ↦ rw down (ground (arith, t j (negsuc k ∷ []) at (units j _ at refl)))
]

-- What a check leaves: the problem as it was, but for its tags; and if a valid certificate derives
-- the empty clause, no assignment makes the tagged clauses true.
pub record Outcome (pb : Problem) (lines : List Str) (r : Verdict × Problem) : Type 0 where
  pub clauses : r.1.clauses ≡ pb.clauses
  pub nb_vars : r.1.nb_vars ≡ pb.nb_vars
  pub nb_clauses : r.1.nb_clauses ≡ pb.nb_clauses
  pub units : r.1.units ≡ pb.units
  pub sized : length r.1.tagged ≡ pb.nb_clauses
  pub refuted :
      r.0 ≡ valid → DerivesEmpty lines → (a : Assignment) → TaggedTrue a pb.clauses r.1.tagged → ⊥

Outcome-restore :
    (pb pb' : Problem) (lines : List Str) (r : Verdict × Problem)
    → IsValid pb
    → pb'.nb_vars ≡ pb.nb_vars
    → ((j : ℕ) (c : Clause)
        → get_elem? pb.clauses j ≡ some c
        → get_elem? pb'.tagged j ≡ some (is_unit c))
    → Checked pb.clauses pb.units lines pb' r
    → Outcome pb lines (r.0, restore r.1)
unfolding restore
Outcome-restore pb pb' lines r v n units c = record {
  clauses =
      rw c.kept.split (take-append pb.clauses c.kept.learned r.1.nb_clauses (sym c.kept.count));
  nb_vars = c.nb_vars ∙ n;
  nb_clauses = sym c.kept.count ∙ v.count;
  units = c.kept.bound;
  sized = c.kept.sized ∙ sym c.kept.count ∙ v.count;
  refuted = λ ok' d a t.
      c.refuted ok' d a
        (agrees pb r.1.tagged a v (λ j d e u. c.tags.1 j (units j d e ∙ ap some u)) t) t;
}

-- From a valid problem and a certificate over its variables, the check of a certificate that comes
-- over a channel returns, with no panic and no endless loop. It gives the problem back with its
-- clauses and bindings as they were, and if it says that the certificate is valid and the
-- certificate derives the empty clause, no assignment makes all the tagged clauses true.
pub unsat_chan_sound :
    (pb : Problem) (lines : List Str)
    → IsValid pb
    → CertInRange (length pb.units) lines
    → Returns (Outcome pb lines) (unsat_chan pb lines)
unfolding unsat_chan
unsat_chan_sound pb lines v r = Returns-bind (init_tagged-Returns pb v) λ pb' (h, n, units).
    Returns-bind (chan_loop-Returns pb.clauses pb.units lines pb' h r)
      λ s c. returns (Outcome-restore pb pb' lines s v n units c)

-- From a valid problem and a certificate over its variables, the check of a certificate that is read
-- to its end returns, with no panic and no endless loop, whether or not its reader fails. It gives
-- the problem back with its clauses and bindings as they were, and if it says that the certificate
-- is valid and the certificate derives the empty clause, no assignment makes all the tagged clauses
-- true.
pub unsat_cert_sound :
    (pb : Problem) (lines : List Str) (fails : Bool)
    → IsValid pb
    → CertInRange (length pb.units) lines
    → Returns (Outcome pb lines) (unsat_cert pb lines fails)
unfolding unsat_cert
unsat_cert_sound pb lines fails v r = Returns-bind (init_tagged-Returns pb v) λ pb' (h, n, units).
    Returns-bind (cert_loop-Returns pb.clauses pb.units lines fails pb' h r)
      λ s c. returns (Outcome-restore pb pb' lines s v n units c)
