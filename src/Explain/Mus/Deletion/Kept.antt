-- ===== src/Explain/Mus/Deletion/Kept.antt =====
-- What the rounds leave is a MUS, and the clauses with their relaxation literals can be parsed.
use gophersat.Prelude.{
  ℕ, zero, suc, ◌+◌, ◌-◌, ◌^◌, ◌<◌, ◌≤◌, ◌≡◌, refl, sym, ap, ◌∙◌, Bool, true, false, ◌&&◌, none,
  some, List, [], ◌∷◌, ◌++◌, length, length-append, get_elem?, get_elem?-lt, set, take, take-append,
  replicate, arith, if◌then◌else◌,
}
use gophersat.Prelude.Run.{ok}
use gophersat.Prelude.Slices.{each_of-get}
use gophersat.Prelude.Int.{ℤ, pos}
use gophersat.Semantics.{Assignment, clause_true, IsClause}
use gophersat.Solver.Parser.Lines.{cnf_true}
use gophersat.Explain.{Clause}
use gophersat.Explain.Loop.{AreClauses}
use gophersat.Explain.Subset.{Within}
use gophersat.Explain.Mus.Session.{IsLit-mono}
use gophersat.Explain.Mus.Minimal.{IsMus}
use gophersat.Explain.Mus.Deletion.{AtLeast, relax, kept_clauses}
use gophersat.Explain.Mus.Deletion.Relaxed.{assumed, positive-flag, active_true}
use gophersat.Explain.Mus.Deletion.Rounds.{Pending}

-- The clauses that are not relaxed.
abbrev pub keep : List Bool → List Clause → List Clause
keep [] clauses = []
keep (r ∷ rs) [] = []
keep (true ∷ rs) (c ∷ clauses) = keep rs clauses
keep (false ∷ rs) (c ∷ clauses) = c ∷ keep rs clauses

pub without_last : (c : Clause) (x : ℤ) → take (length (c ++ x ∷ []) - 1) (c ++ x ∷ []) ≡ c
without_last c x = take-append c (x ∷ []) _ (omega (arith, length-append c (x ∷ [])))

pub kept_clauses-keep :
    (n i : ℕ) (rs : List Bool) (clauses all : List Clause)
    → n + i + length rs ≤ 2 ^ 30
    → length rs ≡ length clauses
    → ((j : ℕ) → get_elem? all (i + j) ≡ get_elem? (relax n i clauses) j)
    → kept_clauses i (assumed n i rs) all ≡ ok (keep rs clauses)
unfolding kept_clauses relax
kept_clauses-keep n i [] clauses all le e at = refl
kept_clauses-keep n i (r ∷ rs) [] all le e at = absurd (omega arith)
kept_clauses-keep n i (r ∷ rs) (c ∷ clauses) all le e at =
    let z : i + 0 ≡ i = omega arith in
    let first = at 0 in
    let here = rw z at first in
    let rest =
      kept_clauses-keep n (i + 1) rs clauses all (omega arith) (omega arith)
        (λ j. let s : i + suc j ≡ i + 1 + j = omega arith in let f = at (suc j) in rw s at f) in
    rw (rest, positive-flag (n + i) r (omega arith), here, without_last c (pos (n + i + 1)))
      (split r)
  where
    split :
        (r : Bool)
        → (if r then ok (keep rs clauses) else ok (c ∷ keep rs clauses))
          ≡ ok (keep (r ∷ rs) (c ∷ clauses))
    split true = refl
    split false = refl

pub active-keep :
    (a : Assignment) (rs : List Bool) (clauses : List Clause)
    → active_true a rs clauses ≡ cnf_true a (keep rs clauses)
active-keep a [] clauses = refl
active-keep a (r ∷ rs) [] = refl
active-keep a (true ∷ rs) (c ∷ clauses) = active-keep a rs clauses
active-keep a (false ∷ rs) (c ∷ clauses) = ap (λ b. clause_true a c && b) (active-keep a rs clauses)

pub keep-Within : (rs : List Bool) (clauses : List Clause) → Within (keep rs clauses) clauses
keep-Within [] clauses j c e = cc
keep-Within (r ∷ rs) [] j c e = cc
keep-Within (true ∷ rs) (d ∷ clauses) j c e =
    let (k, f) = keep-Within rs clauses j c e in (suc k, f)
keep-Within (false ∷ rs) (d ∷ clauses) zero c e = (0, e)
keep-Within (false ∷ rs) (d ∷ clauses) (suc j) c e =
    let (k, f) = keep-Within rs clauses j c e in (suc k, f)

-- A kept clause is one that is not relaxed: if the others of these are true, the other kept ones are.
pub spared_lem :
    (rs : List Bool) (clauses : List Clause) (i : ℕ)
    → i < length (keep rs clauses)
    → (j : ℕ) × (get_elem? rs j ≡ some false)
      × ((a : Assignment)
          → active_true a (set rs j true) clauses ≡ true
          → (k : ℕ) (c : Clause) → get_elem? (keep rs clauses) k ≡ some c
          → (k ≡ i → ⊥)
          → clause_true a c ≡ true)
spared_lem [] clauses i lt = absurd (omega arith)
spared_lem (r ∷ rs) [] i lt = absurd (omega arith)
spared_lem (true ∷ rs) (d ∷ clauses) i lt =
    let (j, e, f) = spared_lem rs clauses i lt in
    (suc j, e, λ a t k c at ne. f a (ground arith) k c at ne)
spared_lem (false ∷ rs) (d ∷ clauses) zero lt = (
  0,
  refl,
  λ a t. elim [
    | zero ↦ λ c at ne. absurd (ne refl)
    | suc k ↦ λ c at ne.
        each_of-get (clause_true a) (keep rs clauses) k c (sym (active-keep a rs clauses) ∙ t) at
  ],
)
spared_lem (false ∷ rs) (d ∷ clauses) (suc i) lt =
    let (j, e, f) = spared_lem rs clauses i (omega arith) in
    (
      suc j,
      e,
      λ a t. elim [
        | zero ↦ λ c at ne.
            let same : d ≡ c = ap (λ o. elim o [ none ↦ d | some y ↦ y ]) at in
            rw (sym same) (ground arith)
        | suc k ↦ λ c at ne. f a (ground arith) k c at (λ h. ne (ap suc h))
      ],
    )

-- What the rounds leave is a MUS.
pub kept-IsMus :
    (n : ℕ) (all clauses : List Clause) (rs : List Bool)
    → Within clauses all
    → Pending clauses rs (length clauses)
    → IsMus all (record {
      clauses = keep rs clauses;
      nb_vars = n;
      nb_clauses = length (keep rs clauses);
      units = [];
      tagged = [];
    })
kept-IsMus n all clauses rs w p = record {
  within = λ j c e. let (k, f) = keep-Within rs clauses j c e in w k c f;
  count = refl;
  refuted = λ a t. p.refuted a (active-keep a rs clauses ∙ t);
  minimal = λ i lt.
      let (j, e, f) = spared_lem rs clauses i lt in
      let (a, t) = p.needed j (omega (arith, p.sized, get_elem?-lt rs j false e)) e in
      (a, refl, f a t);
}

pub AreClauses-relax :
    (n m i : ℕ) (clauses : List Clause)
    → n + i + length clauses ≤ m
    → AreClauses n clauses
    → AreClauses m (relax n i clauses)
unfolding relax
AreClauses-relax n m i [] le h = tt
AreClauses-relax n m i (c ∷ clauses) le h =
    (longer c h.0, AreClauses-relax n m (i + 1) clauses (omega arith) h.1)
  where
    longer : (c : Clause) → IsClause n c → IsClause m (c ++ pos (n + i + 1) ∷ [])
    longer [] g = omega arith
    longer (x ∷ c) g = (IsLit-mono n m (omega arith) x g.0, longer c g.1)

-- A clause with its relaxation literal has one literal more.
pub relax-AtLeast :
    (k n i : ℕ) (clauses : List Clause) → AtLeast k clauses → AtLeast (suc k) (relax n i clauses)
unfolding relax
relax-AtLeast k n i [] h j c e = cc
relax-AtLeast k n i (c ∷ clauses) h zero d e =
    let size = h 0 c refl in
    let same : c ++ pos (n + i + 1) ∷ [] ≡ d = ap (λ o. elim o [ none ↦ d | some x ↦ x ]) e in
    rw (sym same, length-append c (pos (n + i + 1) ∷ [])) (omega arith)
relax-AtLeast k n i (c ∷ clauses) h (suc j) d e =
    relax-AtLeast k n (i + 1) clauses (λ m b at. h (suc m) b at) j d e

pub length-relax : (n i : ℕ) (clauses : List Clause) → length (relax n i clauses) ≡ length clauses
unfolding relax
length-relax n i [] = refl
length-relax n i (c ∷ clauses) = ap suc (length-relax n (i + 1) clauses)

pub get_elem?-all_unset :
    (m j : ℕ) (r : Bool) → get_elem? (replicate m false) j ≡ some r → r ≡ false
get_elem?-all_unset zero j r e = cc
get_elem?-all_unset (suc m) zero r e = ap (λ o. elim o [ none ↦ r | some y ↦ y ]) (sym e)
get_elem?-all_unset (suc m) (suc j) r e = get_elem?-all_unset m j r e

pub active_at_first :
    (a : Assignment) (clauses : List Clause)
    → active_true a (replicate (length clauses) false) clauses ≡ cnf_true a clauses
active_at_first a [] = refl
active_at_first a (c ∷ clauses) = ap (λ b. clause_true a c && b) (active_at_first a clauses)
