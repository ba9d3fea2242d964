-- ===== src/Explain/Mus/Units.antt =====
-- explain/mus.go: makeMus, whose bindings are those of the unit clauses.
mod Tests
use gophersat.Prelude.{
  ℕ, zero, suc, ◌+◌, ◌<◌, ◌≤◌, ◌≡◌, refl, sym, ap, ◌∙◌, Bool, true, false, none, some, List, [],
  ◌∷◌, length, length-set, length-replicate, replicate, get_elem?, get_elem?-some, get_elem?-set,
  set, not, ◌||◌, ◌==◌, ==→eq, Bool-cases, ltb-zero-suc, ◌⊎◌, inl, inr, arith, if◌then◌else◌,
}
use gophersat.Prelude.Run.{Run, ok, panic, ◌>>=◌, Returns, returns, Returns-bind, Returns-map}
use gophersat.Prelude.Slices.{store-Returns}
use gophersat.Prelude.Int.{ℤ, pos, negsuc, nat_abs, ltb_ℤ, ◌==ℤ◌}
use gophersat.Semantics.{IsLit, IsClause}
use gophersat.Explain.{Clause, Problem, store_pred}
use gophersat.Explain.Loop.{AreClauses}
use gophersat.Explain.Subset.{Within}
use gophersat.Explain.Verdicts.{HasUnit, IsValid}

-- The loop over the clauses: a unit clause binds its variable.
unfoldable pub make_units : List Clause → List ℤ → Run (List ℤ)
make_units [] units = ok units
make_units ([] ∷ clauses) units = make_units clauses units
make_units ((lit ∷ []) ∷ clauses) units = do
  units' ←
      if ltb_ℤ (pos 0) lit
      then store_pred units (nat_abs lit) (pos 1)
      else store_pred units (nat_abs lit) (negsuc 0)
  make_units clauses units'
make_units ((l ∷ k ∷ clause) ∷ clauses) units = make_units clauses units

unfoldable pub make_mus : ℕ → List Clause → Run Problem
unfolding make_units
make_mus nb_vars clauses = make_units clauses (replicate nb_vars (pos 0)) >>= λ units. ok (record {
  clauses = clauses;
  nb_vars = nb_vars;
  nb_clauses = length clauses;
  units = units;
  tagged = [];
})

abbrev Backed : List Clause → List ℤ → Type 0
Backed all units = (k : ℕ) (b : ℤ) → get_elem? units k ≡ some b → HasUnit all k b

unique : {A : Type 0} {x y : A} → some x ≡ some y → x ≡ y
unique {A} {x} {y} e = ap (λ o. elim o [ none ↦ x | some z ↦ z ]) e

-- A binding that a unit clause gives.
bound_lem :
    (all : List Clause) (units : List ℤ) (k : ℕ) (v : ℤ)
    → k < length units
    → HasUnit all k v
    → Backed all units
    → Backed all (set units k v)
bound_lem all units k v lt h g j b e = elim (Bool-cases (k == j)) [
  | inl here ↦
      let f = get_elem?-set units k j v lt in
      let same = ==→eq k j here in
      let value : v ≡ b = unique (sym (rw here at f) ∙ e) in rw (sym same, sym value) h
  | inr there ↦ let f = get_elem?-set units k j v lt in g j b (sym (rw there at f) ∙ e)
]

-- The variable of number k + 1 is bound.
abbrev IsBoundAt : List ℤ → ℕ → Type 0
IsBoundAt units k = (b : ℤ) × (get_elem? units k ≡ some b) × ((b ==ℤ pos 0) ≡ false)

-- The variables that were bound stay so.
abbrev Keeps : List ℤ → List ℤ → Type 0
Keeps units us = (k : ℕ) → IsBoundAt units k → IsBoundAt us k

-- The variable of each unit clause is bound.
abbrev pub BindsUnits : List Clause → List ℤ → Type 0
BindsUnits clauses us =
    (j k : ℕ) (lit : ℤ)
    → get_elem? clauses j ≡ some (lit ∷ [])
    → nat_abs lit ≡ suc k
    → IsBoundAt us k

set-IsBoundAt :
    (units : List ℤ) (k : ℕ) (v : ℤ)
    → k < length units
    → (v ==ℤ pos 0) ≡ false
    → IsBoundAt (set units k v) k
set-IsBoundAt units k v lt nonzero =
    let f = get_elem?-set units k k v lt in
    let same : (k == k) ≡ true = ground arith in (v, rw same at f, nonzero)

set-Keeps :
    (units : List ℤ) (k : ℕ) (v : ℤ)
    → k < length units
    → (v ==ℤ pos 0) ≡ false
    → Keeps units (set units k v)
set-Keeps units k v lt nonzero j (b, at, old) = elim (Bool-cases (k == j)) [
  | inl here ↦ let same = ==→eq k j here in rw (sym same) (set-IsBoundAt units k v lt nonzero)
  | inr there ↦ let f = get_elem?-set units k j v lt in (b, (rw there at f) ∙ at, old)
]

-- What the loop promises of the bindings.
record Recorded (all clauses : List Clause) (units us : List ℤ) : Type 0 where
  sized : length us ≡ length units
  backed : Backed all us
  kept : Keeps units us
  complete : BindsUnits clauses us

-- A clause that is no unit clause binds nothing.
skipped :
    (all clauses : List Clause) (c : Clause) (units us : List ℤ)
    → ((lit : ℤ) → c ≡ lit ∷ [] → ⊥)
    → Recorded all clauses units us
    → Recorded all (c ∷ clauses) units us
skipped all clauses c units us long r = record {
  sized = r.sized;
  backed = r.backed;
  kept = r.kept;
  complete = λ j k lit at size. later j k lit at size;
}
  where
    later : BindsUnits (c ∷ clauses) us
    later zero k lit at size = absurd (long lit (unique at))
    later (suc j) k lit at size = r.complete j k lit at size

-- A unit clause binds its variable, and what follows keeps it bound.
stored :
    (all clauses : List Clause) (lit v : ℤ) (k : ℕ) (units us : List ℤ)
    → nat_abs lit ≡ suc k
    → k < length units
    → (v ==ℤ pos 0) ≡ false
    → Recorded all clauses (set units k v) us
    → Recorded all ((lit ∷ []) ∷ clauses) units us
stored all clauses lit v k units us at lt nonzero r = record {
  sized = r.sized ∙ length-set units k v;
  backed = r.backed;
  kept = λ j b. r.kept j (set-Keeps units k v lt nonzero j b);
  complete = now;
}
  where
    now : BindsUnits ((lit ∷ []) ∷ clauses) us
    now zero j l here size =
        let same : lit ≡ l = head_of (unique here) in
        let place : k ≡ j = suc_of (sym at ∙ ap nat_abs same ∙ size) in
        rw (sym place) (r.kept k (set-IsBoundAt units k v lt nonzero))
      where
        head_of : {x y : ℤ} → (x ∷ []) ≡ (y ∷ []) → x ≡ y
        head_of e = cc

        suc_of : {m n : ℕ} → suc m ≡ suc n → m ≡ n
        suc_of e = omega arith
    now (suc i) j l here size = r.complete i j l here size

make_units-Returns :
    (all clauses : List Clause) (units : List ℤ)
    → Within clauses all
    → AreClauses (length units) clauses
    → Backed all units
    → Returns (Recorded all clauses units) (make_units clauses units)
unfolding make_units
make_units-Returns all [] units w h g =
    returns (record { sized = refl; backed = g; kept = λ k b. b; complete = λ j k lit at size. cc })
make_units-Returns all ([] ∷ clauses) units w h g =
    Returns-map (make_units-Returns all clauses units (λ j c e. w (suc j) c e) h.1 g)
      (λ us. skipped all clauses [] units us (λ lit e. cc))
make_units-Returns all ((l ∷ k ∷ c) ∷ clauses) units w h g =
    Returns-map (make_units-Returns all clauses units (λ j c e. w (suc j) c e) h.1 g)
      (λ us. skipped all clauses (l ∷ k ∷ c) units us (λ lit e. cc))
make_units-Returns all ((pos zero ∷ []) ∷ clauses) units w h g = absurd (omega arith)
make_units-Returns all ((pos (suc k) ∷ []) ∷ clauses) units w h g = rw (ltb-zero-suc k) (
    Returns-bind
      (store-Returns {P = λ us. us ≡ set units k (pos 1)} units k (pos 1) (omega arith) refl)
      (λ us' e. rw e (
        Returns-map
          (make_units-Returns all clauses (set units k (pos 1)) (λ j c e. w (suc j) c e)
            (rw (length-set units k (pos 1)) h.1)
            (bound_lem all units k (pos 1) (omega arith) (inr (inl (refl, w 0 _ refl))) g))
          (λ us. stored all clauses (pos (suc k)) (pos 1) k units us refl (omega arith) refl))))
make_units-Returns all ((negsuc k ∷ []) ∷ clauses) units w h g =
    Returns-bind
      (store-Returns {P = λ us. us ≡ set units k (negsuc 0)} units k (negsuc 0) (omega arith) refl)
      (λ us' e. rw e (
        Returns-map
          (make_units-Returns all clauses (set units k (negsuc 0)) (λ j c e. w (suc j) c e)
            (rw (length-set units k (negsuc 0)) h.1)
            (bound_lem all units k (negsuc 0) (omega arith) (inr (inr (refl, w 0 _ refl))) g))
          (λ us. stored all clauses (negsuc k) (negsuc 0) k units us refl (omega arith) refl)))

get_elem?-unset : (n k : ℕ) (b : ℤ) → get_elem? (replicate n (pos 0)) k ≡ some b → b ≡ pos 0
get_elem?-unset zero k b e = cc
get_elem?-unset (suc n) zero b e = sym (unique e)
get_elem?-unset (suc n) (suc k) b e = get_elem?-unset n k b e

-- For clauses over its variables, makeMus returns a problem with these clauses that is valid: its
-- count is right, a variable is bound to 1 only if a unit clause says so, and to -1 only if one denies it.
-- Each variable that a unit clause is about is bound.
pub make_mus-IsValid :
    (n : ℕ) (clauses : List Clause)
    → AreClauses n clauses
    → Returns
        (λ mus.
          (mus.clauses ≡ clauses)
          × (length mus.units ≡ n)
          × IsValid mus
          × BindsUnits clauses mus.units)
        (make_mus n clauses)
unfolding make_mus
make_mus-IsValid n clauses h =
    let sized = length-replicate n (pos 0) in
    Returns-bind
      (make_units-Returns clauses clauses (replicate n (pos 0)) (λ j c e. (j, e)) (rw sized h)
        (λ k b e. inl (get_elem?-unset n k b e)))
      (λ us r. returns (
        refl,
        r.sized ∙ sized,
        record { count = refl; ranged = rw (r.sized, sized) h; backed = r.backed },
        r.complete,
      ))
