-- ===== src/Explain/Mus/Deletion/Relaxed.antt =====
-- What the clauses with relaxation literals mean under the assumptions on these literals.
use gophersat.Prelude.{
  ℕ, zero, suc, ◌+◌, ◌-◌, ◌^◌, ◌<◌, ◌≤◌, ◌≡◌, refl, sym, ap, ◌∙◌, Bool, true, false, not, ◌&&◌,
  ◌||◌, none, some, List, [], ◌∷◌, ◌++◌, length, get_elem?, replicate, set, ltb, arith,
  if◌then◌else◌,
}
use gophersat.Prelude.Slices.{each_of}
use gophersat.Prelude.Int.{ℤ, pos, negsuc, neg}
use gophersat.Semantics.{Assignment, holds, clause_true, IsLit, IsClause}
use gophersat.Solver.Types.{Lit, int_to_lit, is_positive, negation}
use gophersat.Solver.Types.Codec.{
  lit_true, negation-Negates, int_to_lit-lit_to_int, lit_to_int-int_to_lit,
}
use gophersat.Solver.Parser.{lit_of}
use gophersat.Solver.Parser.Lines.{cnf_true, lit_of-holds, to_int32_id}
use gophersat.Explain.{Clause}
use gophersat.Explain.Loop.{AreClauses}
use gophersat.Explain.Mus.Deletion.{relax, first_assumptions}

-- The relaxation literal of the variable v: true where the clause is relaxed.
abbrev pub flag : ℕ → Bool → ℤ
flag v true = pos (v + 1)
flag v false = negsuc v

pub flag-IsLit : (v : ℕ) (r : Bool) (m : ℕ) → v < m → IsLit m (flag v r)
flag-IsLit v true m h = omega arith
flag-IsLit v false m h = omega arith

-- The assumptions for the relaxed clauses, from the clause of index i on.
abbrev pub assumed : ℕ → ℕ → List Bool → List Lit
assumed n i [] = []
assumed n i (r ∷ rs) = lit_of (flag (n + i) r) ∷ assumed n (i + 1) rs

pub first_assumptions-assumed :
    (n i count : ℕ) → first_assumptions n i count ≡ assumed n i (replicate count false)
unfolding first_assumptions
first_assumptions-assumed n i zero = refl
first_assumptions-assumed n i (suc count) =
    ap (◌∷◌ (lit_of (negsuc (n + i)))) (first_assumptions-assumed n (i + 1) count)

-- Negating the coded literal.
pub negation-flag :
    (v : ℕ) (r : Bool) → v < 2 ^ 30 → negation (lit_of (flag v r)) ≡ lit_of (flag v (not r))
negation-flag v r h =
    let here = flag-IsLit v r (2 ^ 30) h in
    let there = flag-IsLit v (not r) (2 ^ 30) h in
    let code = lit_to_int-int_to_lit (flag v r) here in
    let (signed, g) = negation-Negates (int_to_lit (flag v r)) code.1 in
    rw (to_int32_id (flag v r) here.1, to_int32_id (flag v (not r)) there.1)
      (sym (int_to_lit-lit_to_int _ signed) ∙ ap int_to_lit (g.int ∙ ap neg code.0 ∙ opposite r))
  where
    opposite : (r : Bool) → neg (flag v r) ≡ flag v (not r)
    opposite true = ground arith
    opposite false = ground arith

pub positive-flag : (v : ℕ) (r : Bool) → v < 2 ^ 30 → is_positive (lit_of (flag v r)) ≡ r
unfolding is_positive int_to_lit
positive-flag v r h = rw (to_int32_id (flag v r) (flag-IsLit v r (2 ^ 30) h).1) (sign r)
  where
    sign : (r : Bool) → is_positive (int_to_lit (flag v r)) ≡ r
    sign true = ground arith
    sign false = ground arith

pub get_elem?-assumed :
    (n i : ℕ) (rs : List Bool) (j : ℕ) (r : Bool)
    → get_elem? rs j ≡ some r
    → get_elem? (assumed n i rs) j ≡ some (lit_of (flag (n + i + j) r))
get_elem?-assumed n i [] j r e = cc
get_elem?-assumed n i (x ∷ rs) zero r e =
    let z : n + i + 0 ≡ n + i = omega arith in
    let same : x ≡ r = ap (λ o. elim o [ none ↦ x | some y ↦ y ]) e in rw (z, same) refl
get_elem?-assumed n i (x ∷ rs) (suc j) r e =
    let z : n + i + suc j ≡ n + (i + 1) + j = omega arith in
    rw z (get_elem?-assumed n (i + 1) rs j r e)

pub length-assumed : (n i : ℕ) (rs : List Bool) → length (assumed n i rs) ≡ length rs
length-assumed n i [] = refl
length-assumed n i (r ∷ rs) = ap suc (length-assumed n (i + 1) rs)

pub set-assumed :
    (n i : ℕ) (rs : List Bool) (j : ℕ) (r : Bool)
    → set (assumed n i rs) j (lit_of (flag (n + i + j) r)) ≡ assumed n i (set rs j r)
set-assumed n i [] j r = refl
set-assumed n i (x ∷ rs) zero r = let z : n + i + 0 ≡ n + i = omega arith in rw z refl
set-assumed n i (x ∷ rs) (suc j) r =
    let z : n + i + suc j ≡ n + (i + 1) + j = omega arith in
    rw z (ap (◌∷◌ (lit_of (flag (n + i) x))) (set-assumed n (i + 1) rs j r))

-- The clauses that are not relaxed are true.
abbrev pub active_true : Assignment → List Bool → List Clause → Bool
active_true a [] clauses = true
active_true a (r ∷ rs) [] = true
active_true a (r ∷ rs) (c ∷ clauses) = (r || clause_true a c) && active_true a rs clauses

clause_true-snoc :
    (a : Assignment) (c : Clause) (x : ℤ)
    → clause_true a (c ++ x ∷ []) ≡ (clause_true a c || holds a x)
clause_true-snoc a [] x = ground arith
clause_true-snoc a (y ∷ c) x = ground (arith, clause_true-snoc a c x)

flag_value : (a : Assignment) (v : ℕ) (r : Bool) → (holds a (flag v r) ≡ true) → a v ≡ r
flag_value a v true h = let e : v + 1 ≡ suc v = omega arith in rw e at h
flag_value a v false h = ground arith

holds-flag : (a : Assignment) (v : ℕ) (r : Bool) → a v ≡ r → holds a (flag v r) ≡ true
holds-flag a v true h = let e : v + 1 ≡ suc v = omega arith in rw e h
holds-flag a v false h = ap not h

-- A solution of the relaxed clauses that bears the assumptions out makes the active clauses true.
pub active_of :
    (a : Assignment) (n i : ℕ) (rs : List Bool) (clauses : List Clause)
    → n + i + length rs ≤ 2 ^ 30
    → cnf_true a (relax n i clauses) ≡ true
    → each_of (lit_true a) (assumed n i rs) ≡ true
    → active_true a rs clauses ≡ true
unfolding relax
active_of a n i [] clauses le h e = refl
active_of a n i (r ∷ rs) [] le h e = refl
active_of a n i (r ∷ rs) (c ∷ clauses) le h e =
    let first = lit_of-holds a (flag (n + i) r) (flag-IsLit (n + i) r (2 ^ 30) (omega arith)) in
    let value = flag_value a (n + i) r (sym first ∙ ground arith) in
    let z : n + i + 1 ≡ suc (n + i) = omega arith in
    let split = clause_true-snoc a c (pos (suc (n + i))) in
    let h' = rw z at h in
    let rest = active_of a n (i + 1) rs clauses (omega arith) (ground arith) (ground arith) in
    ground (arith, value, split, h', rest)

-- An assignment that agrees on the problem's variables and has the flags for the others.
pub record Extends (n i : ℕ) (rs : List Bool) (a b : Assignment) : Type 0 where
  pub same : (v : ℕ) → v < n → b v ≡ a v
  pub flags : (j : ℕ) (r : Bool) → get_elem? rs j ≡ some r → b (n + i + j) ≡ r

pub extended : ℕ → List Bool → Assignment → Assignment
extended n rs a v =
    if ltb v n then a v else elim (get_elem? rs (v - n)) [ none ↦ false | some r ↦ r ]

pub extended-Extends :
    (n : ℕ) (rs : List Bool) (a : Assignment) → Extends n 0 rs a (extended n rs a)
unfolding extended
extended-Extends n rs a = record {
  same = λ v lt. ground arith;
  flags = λ j r e.
      let out : ltb (n + 0 + j) n ≡ false = ground arith in
      let back : n + 0 + j - n ≡ j = omega arith in rw (out, back, e) refl;
}

same_clause :
    (n : ℕ) (a b : Assignment) (c : Clause)
    → ((v : ℕ) → v < n → b v ≡ a v)
    → IsClause n c
    → clause_true b c ≡ clause_true a c
same_clause n a b [] f h = refl
same_clause n a b (x ∷ c) f h = rw (literal x h.0, same_clause n a b c f h.1) refl
  where
    literal : (x : ℤ) → IsLit n x → holds b x ≡ holds a x
    literal (pos zero) g = refl
    literal (pos (suc k)) g = f k (omega arith)
    literal (negsuc k) g = ap not (f k (omega arith))

pub relaxed_of :
    (a b : Assignment) (n i : ℕ) (rs : List Bool) (clauses : List Clause)
    → Extends n i rs a b
    → n + i + length rs ≤ 2 ^ 30
    → length rs ≡ length clauses
    → AreClauses n clauses
    → active_true a rs clauses ≡ true
    → (cnf_true b (relax n i clauses) && each_of (lit_true b) (assumed n i rs)) ≡ true
unfolding relax
relaxed_of a b n i [] [] x le s h t = refl
relaxed_of a b n i [] (c ∷ clauses) x le s h t = absurd (omega arith)
relaxed_of a b n i (r ∷ rs) [] x le s h t = absurd (omega arith)
relaxed_of a b n i (r ∷ rs) (c ∷ clauses) x le s h t =
    let zz : n + i + 0 ≡ n + i = omega arith in
    let value = rw zz at (x.flags 0 r refl) in
    let first = lit_of-holds b (flag (n + i) r) (flag-IsLit (n + i) r (2 ^ 30) (omega arith)) in
    let same = same_clause n a b c x.same h.0 in
    let z : n + i + 1 ≡ suc (n + i) = omega arith in
    let split = clause_true-snoc b c (pos (suc (n + i))) in
    let rest =
      relaxed_of a b n (i + 1) rs clauses (moved x) (omega arith) (omega arith) h.1
        (ground (arith, t)) in
    rw (z, split, same, first)
      (joined r (clause_true a c) (b (n + i)) _ _ _ value (holds-flag b (n + i) r value) t rest)
  where
    moved : Extends n i (r ∷ rs) a b → Extends n (i + 1) rs a b
    moved x = record {
      same = x.same;
      flags = λ j y e.
          let z : n + i + suc j ≡ n + (i + 1) + j = omega arith in rw z at (x.flags (suc j) y e);
    }

    joined :
        (r c v p q f : Bool)
        → v ≡ r
        → f ≡ true
        → ((r || c) && active_true a rs clauses) ≡ true
        → (p && q) ≡ true
        → ((c || v) && p && (f && q)) ≡ true
    joined r c v p q f e g t h = ground arith
