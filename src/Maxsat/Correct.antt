-- ===== src/Maxsat/Correct.antt =====
-- The constraints that New gives to ParsePBConstrs, all together.
use gophersat.Prelude.{ℕ, ◌≡◌, refl, sym, length, Bool, none, some, List, [], ◌∷◌, get_elem?}
use gophersat.Prelude.Run.{Returns, returns, Returns-bind, Returns-map}
use gophersat.Prelude.Int.{ℤ}
use gophersat.Text.{Str}
use gophersat.Semantics.{Assignment}
use gophersat.Solver.Pb.{PbConstr}
use gophersat.Maxsat.{Constr, Encoder, encode_all, no_names, int_of}
use gophersat.Maxsat.Names.{
  IsEncoder, Extends, Extends-refl, Extends-trans, Reflects, Reflects-earlier,
}
use gophersat.Maxsat.Encoding.{IsNamedConstr, Says, next_block, encode-Added}
use gophersat.Maxsat.Blocks.{KeepsBlocks, DistinctBlocks}

abbrev pub AreNamedConstrs : List Constr → Type 0
AreNamedConstrs [] = Unit {0}
AreNamedConstrs (c ∷ constrs) = IsNamedConstr c × AreNamedConstrs constrs

-- Each constraint in turn says what the one over names does, and the soft ones take the blocking literals
-- from number j on, each the next one.
abbrev pub AllSay : Assignment → (Str → Bool) → Encoder → ℕ → List Constr → List PbConstr → Type 0
AllSay a rho e j [] [] = Unit {0}
AllSay a rho e j [] (p ∷ ps) = ⊥
AllSay a rho e j (c ∷ constrs) [] = ⊥
AllSay a rho e j (c ∷ constrs) (p ∷ ps) =
    Says a rho e j c p × AllSay a rho e (next_block c j) constrs ps

Says-later :
    (a : Assignment) (rho : Str → Bool) (e f : Encoder) (n : ℕ) (c : Constr) (p : PbConstr)
    → Extends e f
    → KeepsBlocks e f
    → Says a rho e n c p
    → Says a rho f n c p
unfolding Extends KeepsBlocks
Says-later a rho e f n c p x k (hard, soft) =
    (hard, λ w. let (i, at, place, m) = soft w in (i, k n _ at, x i [] place, m))

record AddedAll (constrs : List Constr) (e : Encoder) (r : List PbConstr × Encoder) : Type 0 where
  extends : Extends e r.1
  blocks : KeepsBlocks e r.1
  distinct : DistinctBlocks e → DistinctBlocks r.1
  says :
      (a : Assignment) (rho : Str → Bool)
      → Reflects a rho r.1
      → AllSay a rho r.1 (length e.block_weights) constrs r.0

encode_all-AddedAll :
    (constrs : List Constr) (e : Encoder)
    → AreNamedConstrs constrs
    → IsEncoder e
    → Returns (AddedAll constrs e) (encode_all constrs e)
unfolding encode_all KeepsBlocks
encode_all-AddedAll [] e n h = returns (record {
  extends = Extends-refl e;
  blocks = λ j b at. at;
  distinct = λ h. h;
  says = λ a rho r. tt;
})
encode_all-AddedAll (c ∷ constrs) e n h = Returns-bind (encode-Added c e n.0 h) (λ (p, f) d.
    Returns-bind (encode_all-AddedAll constrs f n.1 d.encoder) (λ (ps, g) q. returns (record {
      extends = Extends-trans e f g d.extends q.extends;
      blocks = λ j b at. q.blocks j b (d.blocks j b at);
      distinct = λ h. q.distinct (d.distinct h);
      says = λ a rho r. (
        Says-later a rho f g (length e.block_weights) c p q.extends q.blocks
            (d.says a rho (Reflects-earlier a rho f g q.extends r)),
        rw (sym d.count) (q.says a rho r),
      );
    })))

-- The assignment with the values of the names, and of the blocking literals.
abbrev pub assignment_of : Encoder → (Str → Bool) → (ℕ → Bool) → Assignment
assignment_of e rho beta i = elim (get_elem? e.var_ints i) [
  | none ↦ beta i
  | some name ↦ elim name [ [] ↦ beta i | c ∷ rest ↦ rho (c ∷ rest) ]
]

-- What the encoding promises: for all values of the names and of the blocking literals there is an assignment
-- with them, and under it each constraint says what the one over names does.
pub record EncodesAll (constrs : List Constr) (r : List PbConstr × Encoder) : Type 0 where
  pub says :
      (a : Assignment) (rho : Str → Bool) → Reflects a rho r.1 → AllSay a rho r.1 0 constrs r.0
  pub distinct :
      (j k : ℕ) (b c : ℕ × ℤ)
      → get_elem? r.1.block_weights j ≡ some b
      → get_elem? r.1.block_weights k ≡ some c
      → b.0 ≡ c.0
      → j ≡ k
  pub reflects :
      (rho : Str → Bool) (beta : ℕ → Bool) → Reflects (assignment_of r.1 rho beta) rho r.1
  pub free :
      (rho : Str → Bool) (beta : ℕ → Bool) (i : ℕ)
      → get_elem? r.1.var_ints i ≡ some []
      → assignment_of r.1 rho beta i ≡ beta i

no_names-IsEncoder : IsEncoder no_names
unfolding IsEncoder int_of
no_names-IsEncoder name k e = cc

-- For constraints without an empty name, with a coefficient for each literal or none: their translation returns.
-- Under an assignment with the values of the names, a hard constraint is met exactly if the coefficients of its
-- true literals reach its degree. The soft ones take the blocking literals in turn, and no two of these are
-- the same. The blocking literal of a soft constraint has the constraint's weight, and the constraint is met
-- exactly if the coefficients reach the degree together with what that literal adds if it is true: the degree,
-- or 1 where there are no coefficients. All values of names and blocking literals are possible.
pub encode_all_correct :
    (constrs : List Constr)
    → AreNamedConstrs constrs
    → Returns (EncodesAll constrs) (encode_all constrs no_names)
unfolding Reflects DistinctBlocks
encode_all_correct constrs n =
    Returns-map (encode_all-AddedAll constrs no_names n no_names-IsEncoder) (λ (ps, e) d. record {
      says = d.says;
      distinct = (d.distinct (λ j b at. cc, λ j k b c at. cc)).1;
      reflects = λ rho beta i c name at. rw (assignment_of, at) refl;
      free = λ rho beta i at. rw (assignment_of, at) refl;
    })
