-- ===== src/Explain/Certificate.antt =====
-- Whole certificates: the loop over the lines keeps the learned clauses consequences of the tagged
-- clauses of the problem.
use gophersat.Prelude.{
  ℕ, zero, suc, ◌+◌, ◌-◌, ◌<◌, ◌≡◌, refl, sym, ◌∙◌, Bool, true, some, List, [], ◌∷◌, ◌++◌, length,
  get_elem?, get_elem?-append, get_elem?-append_right, arith, ◌⊎◌, inl, inr, ltb, Bool-cases,
}
use mathlib.Core.Bool.{false≢true}
use mathlib.Core.List.{append_assoc}
use gophersat.Prelude.Run.{Returns, Returns-map}
use gophersat.Prelude.Int.{ℤ}
use gophersat.Text.{Str}
use gophersat.Semantics.{Agrees, Assignment, Satisfies, clause_true, IsClause}
use gophersat.Explain.{Clause, Problem}
use gophersat.Explain.Rounds.{Includes}
use gophersat.Explain.Loop.{Backs, AreClauses}
use gophersat.Explain.Rup.{check_clause-Returns}
use gophersat.Explain.Check.{
  Line, ignored, malformed, derived, read_line, Verdict, valid, check_clause, learn, is_empty,
}

-- The assignment makes the clauses true that are tagged.
abbrev pub TaggedTrue : Assignment → List Clause → List Bool → Type 0
TaggedTrue a clauses tagged =
    (j : ℕ) (c : Clause)
    → get_elem? clauses j ≡ some c
    → get_elem? tagged j ≡ some true
    → clause_true a c ≡ true

-- No assignment that extends the bindings makes the tagged clauses true.
abbrev pub Refuted : List Clause → List ℤ → List Bool → Type 0
Refuted clauses units tagged = (a : Assignment) → Agrees a units → TaggedTrue a clauses tagged → ⊥

-- The problem during a check: the clauses `own` it started with, and learned ones that follow.
pub record Holds (own : List Clause) (units : List ℤ) (pb : Problem) : Type 0 where
  pub learned : List Clause
  pub split : pb.clauses ≡ own ++ learned
  pub count : length own ≡ pb.nb_clauses
  pub sized : length pb.tagged ≡ pb.nb_clauses
  pub bound : pb.units ≡ units
  pub ranged : AreClauses (length units) pb.clauses
  pub follows : (a : Assignment) → Agrees a units → TaggedTrue a own pb.tagged → Satisfies a learned

AreClauses-append :
    (n : ℕ) (xs ys : List Clause) → AreClauses n xs → AreClauses n ys → AreClauses n (xs ++ ys)
AreClauses-append n [] ys h k = k
AreClauses-append n (x ∷ xs) ys h k = (h.0, AreClauses-append n xs ys h.1 k)

-- A model of the tagged clauses is one of all that a check of a clause may use.
used :
    (own learned : List Clause) (tagged : List Bool) (a : Assignment)
    → TaggedTrue a own tagged
    → Satisfies a learned
    → Backs (length own) 0 (own ++ learned) a tagged
used own learned tagged a t s j c e own_j = elim (Bool-cases (ltb j (length own))) [
  | inl below ↦
      let lt : j < length own = ground arith in
      let zero_j : 0 + j ≡ j = omega arith in
      t j c (sym (get_elem?-append own learned j lt) ∙ e) (rw zero_j at (own_j (omega arith)))
  | inr above ↦
      let k : ℕ = j - length own in
      let at : length own + k ≡ j = ground arith in
      s k c (sym (get_elem?-append_right own learned k) ∙ (rw at e))
]

Satisfies-append :
    (a : Assignment) (xs : List Clause) (c : Clause)
    → Satisfies a xs
    → clause_true a c ≡ true
    → Satisfies a (xs ++ c ∷ [])
Satisfies-append a [] c s t zero d e = ground arith
Satisfies-append a [] c s t (suc j) d e = cc
Satisfies-append a (x ∷ xs) c s t zero d e = s 0 d e
Satisfies-append a (x ∷ xs) c s t (suc j) d e =
    Satisfies-append a xs c (λ j d e. s (suc j) d e) t j d e

TaggedTrue-anti :
    (a : Assignment) (own : List Clause) (t t' : List Bool)
    → Includes t t'
    → TaggedTrue a own t'
    → TaggedTrue a own t
TaggedTrue-anti a own t t' inc h j c e g = h j c e (inc.1 j g)

-- What the check of one clause does to the invariant.
pub record Stepped (own : List Clause) (units : List ℤ) (clause : Clause) (pb : Problem)
    (r : Bool × Problem) : Type 0 where
  pub kept : Holds own units r.1
  pub tags : Includes pb.tagged r.1.tagged
  pub nb_vars : r.1.nb_vars ≡ pb.nb_vars
  pub learns : r.0 ≡ true → Holds own units (learn r.1 clause)
  pub implies :
      r.0 ≡ true
      → (a : Assignment) → Agrees a units
      → TaggedTrue a own r.1.tagged
      → clause_true a clause ≡ true

pub check_clause-Stepped :
    (own : List Clause) (units : List ℤ) (pb : Problem) (clause : Clause)
    → Holds own units pb
    → IsClause (length units) clause
    → Returns (Stepped own units clause pb) (check_clause pb clause)
unfolding learn
check_clause-Stepped own units pb clause h hc =
    Returns-map (check_clause-Returns pb clause h.sized (rw h.bound h.ranged) (rw h.bound hc))
      λ (good, pb') (keeps, same, sound).
        let kept : Holds own units pb' = record {
          learned = h.learned;
          split = keeps.clauses ∙ h.split;
          count = h.count ∙ sym keeps.nb_clauses;
          sized = keeps.tags.0 ∙ h.sized ∙ sym keeps.nb_clauses;
          bound = same ∙ h.bound;
          ranged = rw keeps.clauses h.ranged;
          follows =
              λ a g t. h.follows a g (TaggedTrue-anti a own pb.tagged pb'.tagged keeps.tags t);
        } in
        let implies : good ≡ true
            → (a : Assignment) → Agrees a units
            → TaggedTrue a own pb'.tagged
            → clause_true a clause ≡ true =
          λ t a g tt'.
            sound a (rw h.bound g)
              (rw (← h.count, h.split) (used own h.learned pb'.tagged a tt' (kept.follows a g tt')))
              t in
        record {
          kept = kept;
          tags = keeps.tags;
          nb_vars = keeps.nb_vars;
          implies = implies;
          learns = λ t. record {
            learned = h.learned ++ clause ∷ [];
            split = rw kept.split (append_assoc own h.learned (clause ∷ []));
            count = kept.count;
            sized = kept.sized;
            bound = kept.bound;
            ranged =
                AreClauses-append (length units) pb'.clauses (clause ∷ []) kept.ranged (hc, tt);
            follows = λ a g tt'.
                Satisfies-append a h.learned clause (kept.follows a g tt') (implies t a g tt');
          };
        }

-- The clause of a line, if it has one, is over the variables of the problem.
abbrev pub LineInRange : ℕ → Line → Type 0
LineInRange n ignored = Unit {0}
LineInRange n malformed = Unit {0}
LineInRange n (derived clause) = IsClause n clause

abbrev pub CertInRange : ℕ → List Str → Type 0
CertInRange n [] = Unit {0}
CertInRange n (line ∷ lines) = LineInRange n (read_line line) × CertInRange n lines

-- A line derives the empty clause.
abbrev pub DerivesEmpty : List Str → Type 0
DerivesEmpty [] = ⊥
DerivesEmpty (line ∷ lines) = (read_line line ≡ derived []) ⊎ DerivesEmpty lines

-- What a loop over the lines returns.
pub record Checked (own : List Clause) (units : List ℤ) (lines : List Str) (pb : Problem)
    (r : Verdict × Problem) : Type 0 where
  pub kept : Holds own units r.1
  pub tags : Includes pb.tagged r.1.tagged
  pub nb_vars : r.1.nb_vars ≡ pb.nb_vars
  pub refuted : r.0 ≡ valid → DerivesEmpty lines → Refuted own units r.1.tagged

pub Checked-skip :
    (own : List Clause) (units : List ℤ) (line : Str) (lines : List Str) (pb : Problem)
    (r : Verdict × Problem)
    → (read_line line ≡ derived [] → ⊥)
    → Checked own units lines pb r
    → Checked own units (line ∷ lines) pb r
Checked-skip own units line lines pb r other c = record {
  kept = c.kept;
  tags = c.tags;
  nb_vars = c.nb_vars;
  refuted = λ v. elim [ inl here ↦ absurd (other here) | inr later ↦ c.refuted v later ];
}

pub Checked-stop :
    (own : List Clause) (units : List ℤ) (lines : List Str) (pb pb' : Problem) (v : Verdict)
    → Holds own units pb'
    → Includes pb.tagged pb'.tagged
    → pb'.nb_vars ≡ pb.nb_vars
    → (v ≡ valid → ⊥)
    → Checked own units lines pb (v, pb')
Checked-stop own units lines pb pb' v h inc n bad = record {
  kept = h;
  tags = inc;
  nb_vars = n;
  refuted = λ e. absurd (bad e);
}

-- The line's clause passed: what the rest returns serves for the line too.
pub Checked-learn :
    (own : List Clause) (units : List ℤ) (line : Str) (lines : List Str) (clause : Clause)
    (pb pb' : Problem) (r : Verdict × Problem)
    → read_line line ≡ derived clause
    → Stepped own units clause pb (true, pb')
    → Checked own units lines (learn pb' clause) r
    → Checked own units (line ∷ lines) pb r
unfolding learn
Checked-learn own units line lines clause pb pb' r e s c = record {
  kept = c.kept;
  tags = (c.tags.0 ∙ s.tags.0, λ j g. c.tags.1 j (s.tags.1 j g));
  nb_vars = c.nb_vars ∙ s.nb_vars;
  refuted = λ v. elim [
    | inl here ↦ λ a g t.
        let empty : clause ≡ [] = cc in
        false≢true
          (rw empty at (s.implies refl a g (TaggedTrue-anti a own pb'.tagged r.1.tagged c.tags t)))
    | inr later ↦ c.refuted v later
  ];
}

-- The empty clause passed: the check ends.
pub Checked-empty :
    (own : List Clause) (units : List ℤ) (lines : List Str) (clause : Clause) (pb pb' : Problem)
    → is_empty clause ≡ true
    → Stepped own units clause pb (true, pb')
    → Checked own units lines pb (valid, pb')
unfolding is_empty
Checked-empty own units lines [] pb pb' e s = record {
  kept = s.kept;
  tags = s.tags;
  nb_vars = s.nb_vars;
  refuted = λ v d a g t. false≢true (s.implies refl a g t);
}
Checked-empty own units lines (lit ∷ clause) pb pb' e s = absurd (ground arith)
