-- ===== src/Solver/Problem/Units.antt =====
-- What addUnit does to the assignments that extend the bindings.
use gophersat.Prelude.{
  ℕ, zero, suc, ◌<◌, ◌≡◌, refl, sym, ap, ◌∙◌, Bool, true, false, not, some, List, [], ◌∷◌, ◌++◌,
  length, length-set, get_elem?, get_elem?-set, set, ltb→lt, arith, if◌then◌else◌,
}
use gophersat.Prelude.Run.{Returns, returns, Returns-if, Returns-bind}
use gophersat.Prelude.Slices.{load-ok, store-Returns, each_of, each_of-get, each_of-set}
use gophersat.Prelude.Int.{ℤ, pos, negsuc, ◌==ℤ◌}
use gophersat.Semantics.{Assignment, Reads, Agrees, set-Agrees}
use gophersat.Solver.Types.{unsat, Lit, lit_var, is_positive}
use gophersat.Solver.Types.Codec.{lit_true}
use gophersat.Solver.Problem.{Problem, add_unit}
use gophersat.Solver.Problem.Literals.{below}

-- A binding: 0, 1 or -1.
abbrev pub is_binding : ℤ → Bool
is_binding (pos zero) = true
is_binding (pos (suc zero)) = true
is_binding (pos (suc (suc n))) = false
is_binding (negsuc zero) = true
is_binding (negsuc (suc n)) = false

-- The binding that makes a literal of this sign true, and the one that makes it false.
abbrev pub value_of : Bool → ℤ
value_of s = if s then pos 1 else negsuc 0

abbrev opposite_of : Bool → ℤ
opposite_of s = if s then negsuc 0 else pos 1

abbrev pub reading : Bool → Bool → Bool
reading s x = if s then x else not x

-- The problem with the literal bound, or found Unsat because the literal is false already.
pub data AddedUnit (lit : Lit) (pb : Problem) : Problem → Type 0 where
  clash :
      ((a : Assignment) → Agrees a pb.model → lit_true a lit ≡ false)
      → AddedUnit lit pb (record pb { status = unsat })
  added :
      (model : List ℤ)
      → length model ≡ length pb.model
      → each_of is_binding model ≡ true
      → ((a : Assignment) → Agrees a model → Agrees a pb.model × (lit_true a lit ≡ true))
      → ((a : Assignment) → Agrees a pb.model → lit_true a lit ≡ true → Agrees a model)
      → AddedUnit lit pb (record pb { model = model; units = pb.units ++ lit ∷ [] })

clash_false : (b : ℤ) (s x : Bool) → Reads b x → (b ==ℤ opposite_of s) ≡ true → reading s x ≡ false
clash_false (pos zero) true x r c = cc
clash_false (pos zero) false x r c = cc
clash_false (pos (suc zero)) true x r c = cc
clash_false (pos (suc zero)) false x r c = ground arith
clash_false (pos (suc (suc n))) s x r c = absurd r
clash_false (negsuc zero) true x r c = ground arith
clash_false (negsuc zero) false x r c = cc
clash_false (negsuc (suc n)) s x r c = absurd r

-- A binding that does not clash is free or bound the same way.
Reads-value :
    (b : ℤ) (s x : Bool)
    → is_binding b ≡ true
    → (b ==ℤ opposite_of s) ≡ false
    → Reads (value_of s) x
    → Reads b x × (reading s x ≡ true)
Reads-value (pos zero) true x i c r = (tt, r)
Reads-value (pos zero) false x i c r = (tt, ap not r)
Reads-value (pos (suc zero)) true x i c r = (r, r)
Reads-value (pos (suc zero)) false x i c r = cc
Reads-value (pos (suc (suc n))) s x i c r = cc
Reads-value (negsuc zero) true x i c r = cc
Reads-value (negsuc zero) false x i c r = (r, ap not r)
Reads-value (negsuc (suc n)) s x i c r = cc

pub value-Reads : (s x : Bool) → reading s x ≡ true → Reads (value_of s) x
value-Reads true x t = t
value-Reads false x t = ground arith

pub is_binding-value : (s : Bool) → is_binding (value_of s) ≡ true
is_binding-value true = refl
is_binding-value false = refl

pub unset-Agrees :
    (a : Assignment) (model : List ℤ) (k : ℕ) (b v : ℤ)
    → get_elem? model k ≡ some b
    → k < length model
    → Reads b (a k)
    → Agrees a (set model k v)
    → Agrees a model
unset-Agrees a model k b v e lt r g j w f = grind (arith, get_elem?-set model k j v lt, g j w)

pub get_elem?-set-same :
    (model : List ℤ) (k : ℕ) (v : ℤ) → k < length model → get_elem? (set model k v) k ≡ some v
get_elem?-set-same model k v lt = grind (arith, get_elem?-set model k k v lt)

pub add_unit-Returns :
    (lit : Lit) (pb : Problem)
    → each_of is_binding pb.model ≡ true
    → below (length pb.model) lit ≡ true
    → Returns (AddedUnit lit pb) (add_unit lit pb)
unfolding add_unit
add_unit-Returns lit pb i r =
    let v = lit_var lit in
    let s = is_positive lit in
    let hv = ltb→lt v (length pb.model) r in
    let (b, bound, loaded) = load-ok pb.model v hv in
    let is_b = each_of-get is_binding pb.model v b i bound in
    rw loaded (
      Returns-if (b ==ℤ opposite_of s)
        (λ c. returns (clash (λ a g. clash_false b s (a v) (g v b bound) c)))
        (λ c.
          Returns-bind
            (store-Returns
              {P = λ m. AddedUnit lit pb (record pb { model = m; units = pb.units ++ lit ∷ [] })}
              pb.model v (value_of s) hv
              (added (set pb.model v (value_of s)) (length-set pb.model v (value_of s))
                (each_of-set is_binding pb.model v b (value_of s) bound
                    (is_binding-value s ∙ sym is_b)
                  ∙ i)
                (λ a g.
                  let now = g v (value_of s) (get_elem?-set-same pb.model v (value_of s) hv) in
                  let (before, holds) = Reads-value b s (a v) is_b c now in
                  (unset-Agrees a pb.model v b (value_of s) bound hv before g, holds))
                (λ a g t. set-Agrees a pb.model v (value_of s) hv (value-Reads s (a v) t) g)))
            (λ m h. returns h)))
