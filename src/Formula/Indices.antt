-- ===== src/Formula/Indices.antt =====
-- bf/bf.go: the indices that the conversion to clauses gives to variables.
use gophersat.Prelude.{
  ℕ, zero, suc, ◌+◌, ◌<◌, ◌≡◌, refl, sym, ap, ◌∙◌, Bool, true, false, not, Option, none, some, List,
  [], ◌∷◌, ◌++◌, length, arith, if◌then◌else◌, Bool-cases, ◌⊎◌, inl, inr,
}
use gophersat.Prelude.Slices.{each_of}
use gophersat.Prelude.Int.{ℤ, pos, neg}
use gophersat.Semantics.{Assignment, holds, clause_true}
use gophersat.Text.{Str}
use gophersat.Formula.{Variable}
use gophersat.Formula.Meaning.{Valuation}
use gophersat.Formula.Cnf.{Indices, Vars, same_name, same_variable, lookup, lit_value, dummy}

abbrev pub clauses_true : Assignment → List (List ℤ) → Bool
clauses_true b = each_of (clause_true b)

-- The valuation gives the variables the values of their indices.
abbrev pub Agree : Valuation → Assignment → Vars → Type 0
Agree a b vars =
    (v : Variable) (k : ℕ) → lookup v vars.all ≡ some k → (0 < k) × (a v ≡ holds b (pos k))

abbrev pub Positive : Vars → Type 0
Positive vars = (v : Variable) (k : ℕ) → lookup v vars.all ≡ some k → 0 < k

-- What a step of the conversion does to the variables: it adds some.
pub record Step (vars vars' : Vars) : Type 0 where
  pub grows : (a : Valuation) (b : Assignment) → Agree a b vars' → Agree a b vars
  pub positive : Positive vars → Positive vars'

pub Step-refl : (p : Vars) → Step p p
Step-refl p = record { grows = λ a b g. g; positive = λ h. h }

pub Step-trans : (p q r : Vars) → Step p q → Step q r → Step p r
Step-trans p q r s t = record {
  grows = λ a b g. s.grows a b (t.grows a b g);
  positive = λ h. t.positive (s.positive h);
}

lookup-append :
    (v : Variable) (xs ys : Indices) (k : ℕ) → lookup v xs ≡ some k → lookup v (xs ++ ys) ≡ some k
unfolding lookup
lookup-append v [] ys k e = cc
lookup-append v ((w, n) ∷ xs) ys k e = ground (arith, lookup-append v xs ys k)

lookup-added :
    (v w : Variable) (xs : Indices) (n k : ℕ)
    → lookup v (xs ++ (w, n) ∷ []) ≡ some k
    → (lookup v xs ≡ some k) ⊎ (n ≡ k)
unfolding lookup
lookup-added v w [] n k e = elim (Bool-cases (same_variable v w)) [
  | inl y ↦ inr (ground arith)
  | inr n' ↦ ground arith
]
lookup-added v w ((u, m) ∷ xs) n k e = elim (Bool-cases (same_variable v u)) [
  | inl y ↦ inl (ground arith)
  | inr n' ↦ let r = lookup-added v w xs n k in ground (arith, r)
]

-- A new entry with a positive index.
added-Step :
    (vars vars' : Vars) (w : Variable) (n : ℕ)
    → 0 < n
    → vars'.all ≡ vars.all ++ (w, n) ∷ []
    → Step vars vars'
added-Step vars vars' w n h e = record {
  grows = λ a b g v k f. g v k (ap (lookup v) e ∙ lookup-append v vars.all ((w, n) ∷ []) k f);
  positive = λ p v k f. elim (lookup-added v w vars.all n k (sym (ap (lookup v) e) ∙ f)) [
    | inl old ↦ p v k old
    | inr new ↦ omega arith
  ];
}

pub dummy-Step : (vars : Vars) → Step vars (dummy vars).1
unfolding dummy
dummy-Step vars = added-Step vars (dummy vars).1 _ (length vars.all + 1) (omega arith) refl

-- The literal's number means what the literal does.
abbrev Valued : Variable → Bool → Vars → ℤ × Vars → Type 0
Valued v s vars r =
    Step vars r.1
    × ((a : Valuation) (b : Assignment)
        → Agree a b r.1
        → holds b r.0 ≡ (if s then not (a v) else a v))

Option-cases : (o : Option ℕ) → (o ≡ none) ⊎ ((k : ℕ) × (o ≡ some k))
Option-cases none = inl refl
Option-cases (some k) = inr (k, refl)

holds-signed :
    (a : Valuation) (b : Assignment) (v : Variable) (s : Bool) (k : ℕ)
    → (0 < k) × (a v ≡ holds b (pos k))
    → holds b (if s then neg (pos k) else pos k) ≡ (if s then not (a v) else a v)
holds-signed a b v true zero h = absurd (omega (arith, h.0))
holds-signed a b v true (suc k) h = ap not (sym h.1)
holds-signed a b v false k h = sym h.1

same_name_refl : (n : Str) → same_name n n ≡ true
unfolding same_name
same_name_refl [] = refl
same_name_refl (c ∷ cs) = ground (arith, same_name_refl cs)

same_variable_refl : (v : Variable) → same_variable v v ≡ true
unfolding same_variable
same_variable_refl v = elim (Bool-cases v.dummy) [
  | inl t ↦ rw (same_name_refl v.name, t) refl
  | inr f ↦ rw (same_name_refl v.name, f) refl
]

lookup-new :
    (v : Variable) (xs : Indices) (n : ℕ)
    → lookup v xs ≡ none
    → lookup v (xs ++ (v, n) ∷ []) ≡ some n
unfolding lookup
lookup-new v [] n e = rw (same_variable_refl v) refl
lookup-new v ((w, m) ∷ xs) n e = ground (arith, lookup-new v xs n)

pub lit_value-Valued :
    (v : Variable) (s : Bool) (vars : Vars) → Valued v s vars (lit_value v s vars)
unfolding lit_value
lit_value-Valued v s vars = elim (Option-cases (lookup v vars.all)) [
  | inl e ↦
      rw (lit_value, e)
        (
          added-Step vars _ v (length vars.all + 1) (omega arith) refl,
          λ a b g.
              holds-signed a b v s (length vars.all + 1)
                (g v (length vars.all + 1) (lookup-new v vars.all (length vars.all + 1) e)),
        )
  | inr (k, e) ↦ rw (lit_value, e) (Step-refl vars, λ a b g. holds-signed a b v s k (g v k e))
]
