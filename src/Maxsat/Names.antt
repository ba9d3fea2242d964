-- ===== src/Maxsat/Names.antt =====
-- The numbers that New gives to the named variables.
use gophersat.Prelude.{
  ℕ, suc, ◌+◌, ◌≡◌, ◌≢◌, refl, sym, ap, ◌∙◌, Bool, true, false, not, Option, none, some, List, [],
  ◌∷◌, ◌++◌, length, get_elem?, get_elem?-append, get_elem?-lt, ==→eq, Bool-cases, inl, inr,
  if◌then◌else◌, arith,
}
use gophersat.Prelude.Int.{ℤ, pos, neg, ◌==ℤ◌}
use gophersat.Text.{Str}
use gophersat.Semantics.{Assignment, holds}
use gophersat.Solver.SimplifyPb.Meets.{some_inj}
use gophersat.Maxsat.{Lit, Encoder, same_text, int_of, encode_lit}

same_text→eq : (s t : Str) → same_text s t ≡ true → s ≡ t
unfolding same_text
same_text→eq [] [] e = refl
same_text→eq [] (d ∷ t) e = cc
same_text→eq (c ∷ s) [] e = cc
same_text→eq (c ∷ s) (d ∷ t) e =
    let p = ==→eq c d (ground arith) in let q = same_text→eq s t (ground arith) in rw (p, q) refl

-- A number of a name is one of the variable's places, counted from 1.
unfoldable pub IsEncoder : Encoder → Type 0
IsEncoder e =
    (name : Str) (k : ℕ)
    → int_of name e.int_vars ≡ some k
    → (i : ℕ) × (k ≡ suc i) × (get_elem? e.var_ints i ≡ some name)

-- The places of one encoder keep their names in a later one.
unfoldable pub Extends : Encoder → Encoder → Type 0
Extends e e' =
    (i : ℕ) (name : Str) → get_elem? e.var_ints i ≡ some name → get_elem? e'.var_ints i ≡ some name

-- The assignment gives each place the value of its name. Blocking literals have the empty name.
unfoldable pub Reflects : Assignment → (Str → Bool) → Encoder → Type 0
Reflects a rho e =
    (i : ℕ) (c : ℕ) (name : Str) → get_elem? e.var_ints i ≡ some (c ∷ name) → a i ≡ rho (c ∷ name)

pub Extends-refl : (e : Encoder) → Extends e e
unfolding Extends
Extends-refl e i name h = h

pub Extends-trans : (e f g : Encoder) → Extends e f → Extends f g → Extends e g
unfolding Extends
Extends-trans e f g p q i name h = q i name (p i name h)

pub Reflects-earlier :
    (a : Assignment) (rho : Str → Bool) (e f : Encoder)
    → Extends e f
    → Reflects a rho f
    → Reflects a rho e
unfolding Extends Reflects
Reflects-earlier a rho e f p r i c name h = r i c name (p i (c ∷ name) h)

-- The value of a literal, by its name.
abbrev pub lit_value : (Str → Bool) → Lit → Bool
lit_value rho l = if l.negated then not (rho l.var) else rho l.var

abbrev pub IsNamed : Lit → Type 0
IsNamed l = l.var ≢ []

-- The literal's number means what its name does.
pub record Encoded (l : Lit) (e : Encoder) (r : ℤ × Encoder) : Type 0 where
  pub encoder : IsEncoder r.1
  pub extends : Extends e r.1
  pub nonzero : (r.0 ==ℤ pos 0) ≡ false
  pub same :
      (a : Assignment) (rho : Str → Bool) → Reflects a rho r.1 → holds a r.0 ≡ lit_value rho l

signed_lem :
    (a : Assignment) (b x : Bool) (i : ℕ)
    → a i ≡ x
    → (((if b then neg (pos (suc i)) else pos (suc i)) ==ℤ pos 0) ≡ false)
      × (holds a (if b then neg (pos (suc i)) else pos (suc i)) ≡ (if b then not x else x))
signed_lem a true x i e = (refl, ap not e)
signed_lem a false x i e = (ground arith, e)

-- The name at a place is the value of the place.
at_place :
    (a : Assignment) (rho : Str → Bool) (e : Encoder) (name : Str) (i : ℕ)
    → name ≢ []
    → Reflects a rho e
    → get_elem? e.var_ints i ≡ some name
    → a i ≡ rho name
unfolding Reflects
at_place a rho e [] i n r h = absurd (n refl)
at_place a rho e (c ∷ name) i n r h = r i c name h

pub get_elem?-end {ℓ} :
    {A : Type ℓ} (xs : List A) (x : A) → get_elem? (xs ++ x ∷ []) (length xs) ≡ some x
get_elem?-end [] x = refl
get_elem?-end (y ∷ xs) x = get_elem?-end xs x

pub pushed-Extends :
    (e : Encoder) (name : Str) (f : Encoder) → f.var_ints ≡ e.var_ints ++ name ∷ [] → Extends e f
unfolding Extends
pushed-Extends e name f p i other h =
    rw p (get_elem?-append e.var_ints (name ∷ []) i (get_elem?-lt e.var_ints i other h) ∙ h)

-- A place with the literal's name.
placed :
    (l : Lit) (e f : Encoder) (k i : ℕ)
    → IsNamed l
    → IsEncoder f
    → Extends e f
    → k ≡ suc i
    → get_elem? f.var_ints i ≡ some l.var
    → Encoded l e (if l.negated then neg (pos k) else pos k, f)
placed l e f k i n h x q at = rw q (record {
  encoder = h;
  extends = x;
  nonzero = (signed_lem (λ _. true) l.negated true i refl).0;
  same = λ a rho r. (signed_lem a l.negated (rho l.var) i (at_place a rho f l.var i n r at)).1;
})

entered-IsEncoder :
    (l : Lit) (e : Encoder)
    → IsEncoder e
    → IsEncoder (record e {
      var_ints = e.var_ints ++ l.var ∷ [];
      int_vars = (l.var, length e.var_ints + 1) ∷ e.int_vars;
    })
unfolding IsEncoder int_of
entered-IsEncoder l e h name k = elim (Bool-cases (same_text name l.var)) [
  | inl s ↦ rw s (λ f. (
    length e.var_ints,
    sym (some_inj f) ∙ (omega arith),
    get_elem?-end e.var_ints l.var ∙ ap some (sym (same_text→eq name l.var s)),
  ))
  | inr n ↦ rw n (λ f.
      let (i, q, at) = h name k f in
      (i, q, get_elem?-append e.var_ints (l.var ∷ []) i (get_elem?-lt e.var_ints i name at) ∙ at))
]

pub encode_lit-Encoded :
    (l : Lit) (e : Encoder) → IsNamed l → IsEncoder e → Encoded l e (encode_lit l e)
unfolding encode_lit IsEncoder
encode_lit-Encoded l e n h = known (int_of l.var e.int_vars) refl
  where
    known :
        (o : Option ℕ)
        → int_of l.var e.int_vars ≡ o
        → Encoded l e (
            let signed : ℕ → ℤ = λ k. if l.negated then neg (pos k) else pos k in
            elim o [
              | some k ↦ (signed k, e)
              | none ↦
                  let k = length e.var_ints + 1 in
                  (
                    signed k,
                    record e {
                      var_ints = e.var_ints ++ l.var ∷ [];
                      int_vars = (l.var, k) ∷ e.int_vars;
                    },
                  )
            ])
    known (some k) q = let (i, s, at) = h l.var k q in placed l e e k i n h (Extends-refl e) s at
    known none q =
        placed l e _ (length e.var_ints + 1) (length e.var_ints) n (entered-IsEncoder l e h)
          (pushed-Extends e l.var _ refl) (omega arith) (get_elem?-end e.var_ints l.var)

-- A blocking literal takes a place of its own.
pub blocked-IsEncoder :
    (e f : Encoder)
    → IsEncoder e
    → f.int_vars ≡ e.int_vars
    → f.var_ints ≡ e.var_ints ++ [] ∷ []
    → IsEncoder f
unfolding IsEncoder
blocked-IsEncoder e f h p q name k s =
    let (i, t, at) = h name k (rw p at s) in
    (i, t, rw q (get_elem?-append e.var_ints ([] ∷ []) i (get_elem?-lt e.var_ints i name at) ∙ at))
