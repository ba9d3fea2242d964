-- ===== src/Semantics.antt =====
-- What clauses of signed literals mean: the models that the packages of the repository speak of.
-- The literal n > 0 is the variable n - 1, and -n its negation.
use gophersat.Prelude.{
  ℕ, zero, suc, ◌<◌, ◌≤◌, ◌≡◌, Bool, true, false, not, ◌||◌, some, List, [], ◌∷◌, length, get_elem?,
  set, get_elem?-set, arith,
}
use gophersat.Prelude.Int.{ℤ, pos, negsuc, nat_abs}

abbrev pub Assignment : Type 0
Assignment = ℕ → Bool

abbrev pub holds : Assignment → ℤ → Bool
holds a (pos zero) = false
holds a (pos (suc k)) = a k
holds a (negsuc k) = not (a k)

abbrev pub clause_true : Assignment → List ℤ → Bool
clause_true a [] = false
clause_true a (lit ∷ lits) = holds a lit || clause_true a lits

-- The assignment is a model of the clauses.
abbrev pub Satisfies : Assignment → List (List ℤ) → Type 0
Satisfies a clauses = (j : ℕ) (c : List ℤ) → get_elem? clauses j ≡ some c → clause_true a c ≡ true

-- A literal of one of n variables.
abbrev pub IsLit : ℕ → ℤ → Type 0
IsLit n lit = (0 < nat_abs lit) × (nat_abs lit ≤ n)

abbrev pub IsClause : ℕ → List ℤ → Type 0
IsClause n [] = Unit {0}
IsClause n (lit ∷ lits) = IsLit n lit × IsClause n lits

-- The value `b` of a binding, read as a fact about the variable's value.
abbrev pub Reads : ℤ → Bool → Type 0
Reads (pos zero) x = Unit {0}
Reads (pos (suc zero)) x = x ≡ true
Reads (pos (suc (suc n))) x = ⊥
Reads (negsuc zero) x = x ≡ false
Reads (negsuc (suc n)) x = ⊥

-- The assignment extends the bindings.
abbrev pub Agrees : Assignment → List ℤ → Type 0
Agrees a units = (k : ℕ) (b : ℤ) → get_elem? units k ≡ some b → Reads b (a k)

-- A binding that the assignment bears out keeps the agreement.
pub set-Agrees :
    (a : Assignment) (units : List ℤ) (k : ℕ) (b : ℤ)
    → k < length units
    → Reads b (a k)
    → Agrees a units
    → Agrees a (set units k b)
set-Agrees a units k b lt r g j v e = grind (arith, get_elem?-set units k j b lt, g j v)
