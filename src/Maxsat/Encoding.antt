-- ===== src/Maxsat/Encoding.antt =====
-- The pseudo-Boolean constraints that New makes say what the constraints over names do, with a blocking
-- literal for each soft one.
use mathlib.Core.Bool.{false≢true}
use gophersat.Prelude.{
  ℕ, zero, suc, ◌+◌, ◌≡◌, ◌↔◌, refl, sym, ap, ◌∙◌, Bool, true, false, some, List, [], ◌∷◌, ◌++◌,
  length, replicate, get_elem?, get_elem?-append, get_elem?-lt, if◌then◌else◌, arith,
}
use gophersat.Prelude.Run.{ok, ◌>>=◌, Returns, returns, Returns-bind, Returns-if, Returns-map}
use gophersat.Prelude.Int.{ℤ, pos, ◌+ℤ◌, ◌≤ℤ◌, ◌==ℤ◌, parts_of_eq, int_laws}
use gophersat.Text.{Str}
use gophersat.Semantics.{Assignment, holds}
use gophersat.Solver.Pb.{PbConstr, gt_eq}
use gophersat.Solver.Pb.Meaning.{value, Meets, Nonzero, weights_of, gt_eq_correct}
use gophersat.Maxsat.{Constr, Encoder, encode_lits, coefficients, blocked_coeffs, encode}
use gophersat.Maxsat.Names.{
  IsEncoder, Extends, Extends-trans, Reflects, Reflects-earlier, pushed-Extends, blocked-IsEncoder,
  get_elem?-end,
}
use gophersat.Maxsat.Blocks.{
  KeepsBlocks, DistinctBlocks, same-DistinctBlocks, pushed-DistinctBlocks,
}
use gophersat.Maxsat.Literals.{
  AreNamed, named_value, EncodedLits, encode_lits-EncodedLits, encode_lits-blocks,
}

-- The coefficients, 1 each where they are left out.
abbrev pub coeffs_of : Constr → List ℤ
coeffs_of c = weights_of (length c.lits) (coefficients c.coeffs)

-- No name is empty, and there is a coefficient for each literal, or none.
pub record IsNamedConstr (c : Constr) : Type 0 where
  pub named : AreNamed c.lits
  pub sized : length c.lits ≡ length (coeffs_of c)

-- The coefficient of the blocking literal.
abbrev pub relief : List ℤ → ℤ → ℤ
relief [] n = pos 1
relief (w ∷ ws) n = n

-- The number of blocking literals after a constraint.
abbrev pub next_block : Constr → ℕ → ℕ
next_block c j = if c.weight ==ℤ pos 0 then j else suc j

-- The constraint says that the sum of the coefficients of the true literals reaches the degree; with a weight
-- other than 0, together with what blocking literal number j adds, which has that weight.
abbrev pub Says : Assignment → (Str → Bool) → Encoder → ℕ → Constr → PbConstr → Type 0
Says a rho e j c p =
    ((c.weight ==ℤ pos 0) ≡ true → Meets a p ↔ (c.at_least ≤ℤ named_value rho c.lits (coeffs_of c)))
    × ((c.weight ==ℤ pos 0) ≡ false
        → (i : ℕ) × (get_elem? e.block_weights j ≡ some (i + 1, c.weight))
          × (get_elem? e.var_ints i ≡ some [])
          × (Meets a p ↔ (
              c.at_least
              ≤ℤ named_value rho c.lits (coeffs_of c)
                +ℤ (if a i then relief c.coeffs c.at_least else pos 0))))

gt_eq-value :
    (lits coeffs : List ℤ) (n : ℤ)
    → Nonzero lits
    → length lits ≡ length (weights_of (length lits) (coefficients coeffs))
    → Returns
        (λ p.
          (a : Assignment)
          → Meets a p ↔ (n ≤ℤ value a lits (weights_of (length lits) (coefficients coeffs))))
        (gt_eq lits (coefficients coeffs) n)
unfolding gt_eq
gt_eq-value lits [] n z e = returns (λ a. (λ h. h, λ h. h))
gt_eq-value lits (w ∷ ws) n z e = Returns-map (gt_eq_correct lits (w ∷ ws) n z e) (λ p s. s.meaning)

replicate-end : (n : ℕ) → replicate (suc n) (pos 1) ≡ replicate n (pos 1) ++ pos 1 ∷ []
replicate-end zero = refl
replicate-end (suc n) = ap (λ ws. pos 1 ∷ ws) (replicate-end n)

length-end {ℓ} : {A : Type ℓ} (xs : List A) (x : A) → length (xs ++ x ∷ []) ≡ suc (length xs)
length-end [] x = refl
length-end (y ∷ xs) x = ap suc (length-end xs x)

value-end :
    (a : Assignment) (xs ws : List ℤ) (x w : ℤ)
    → length xs ≡ length ws
    → value a (xs ++ x ∷ []) (ws ++ w ∷ []) ≡ value a xs ws +ℤ (if holds a x then w else pos 0)
unfolding value
value-end a [] [] x w e = swapped (if holds a x then w else pos 0)
  where
    swapped : (y : ℤ) → y +ℤ pos 0 ≡ pos 0 +ℤ y
    swapped y = omega int_laws
value-end a [] (v ∷ ws) x w e = absurd (omega arith)
value-end a (y ∷ xs) [] x w e = absurd (omega arith)
value-end a (y ∷ xs) (v ∷ ws) x w e =
    regroup (if holds a y then v else pos 0) (value a xs ws) _ (value-end a xs ws x w (omega arith))
  where
    regroup : {t : ℤ} (p q r : ℤ) → t ≡ q +ℤ r → p +ℤ t ≡ p +ℤ q +ℤ r
    regroup p q r h = omega (int_laws, parts_of_eq h)

blocked_weights :
    (lits coeffs : List ℤ) (x n : ℤ)
    → weights_of (length (lits ++ x ∷ [])) (coefficients (blocked_coeffs coeffs n))
      ≡ weights_of (length lits) (coefficients coeffs) ++ relief coeffs n ∷ []
blocked_weights lits [] x n = rw (length-end lits x) (replicate-end (length lits))
blocked_weights lits (w ∷ ws) x n = refl

Nonzero-end : (lits : List ℤ) (k : ℕ) → Nonzero lits → Nonzero (lits ++ pos (k + 1) ∷ [])
Nonzero-end [] k z = (ground arith, tt)
Nonzero-end (l ∷ lits) k z = (z.0, Nonzero-end lits k z.1)

holds_at : (a : Assignment) (k : ℕ) → holds a (pos (k + 1)) ≡ a k
holds_at a k = at (k + 1) (omega arith)
  where
    at : (m : ℕ) → m ≡ suc k → holds a (pos m) ≡ a k
    at m e = rw e refl

-- What one constraint leaves.
pub record Added (c : Constr) (e : Encoder) (r : PbConstr × Encoder) : Type 0 where
  pub encoder : IsEncoder r.1
  pub extends : Extends e r.1
  pub blocks : KeepsBlocks e r.1
  pub distinct : DistinctBlocks e → DistinctBlocks r.1
  pub count : length r.1.block_weights ≡ next_block c (length e.block_weights)
  pub says :
      (a : Assignment) (rho : Str → Bool)
      → Reflects a rho r.1
      → Says a rho r.1 (length e.block_weights) c r.0

same_bound : {A : Type 0} (n x y : ℤ) → x ≡ y → A ↔ (n ≤ℤ x) → A ↔ (n ≤ℤ y)
same_bound n x y e (f, b) =
    (λ h. let k = f h in omega (int_laws, parts_of_eq e), λ h. b (omega (int_laws, parts_of_eq e)))

hard-Added :
    (c : Constr) (e : Encoder) (r : List ℤ × Encoder)
    → EncodedLits c.lits e r
    → r.1.block_weights ≡ e.block_weights
    → IsNamedConstr c
    → (c.weight ==ℤ pos 0) ≡ true
    → Returns (Added c e) (gt_eq r.0 (coefficients c.coeffs) c.at_least >>= λ p. ok (p, r.1))
unfolding KeepsBlocks
hard-Added c e r d k n hard =
    Returns-bind (gt_eq-value r.0 c.coeffs c.at_least d.nonzero (rw d.sized n.sized)) (λ p m.
      returns (record {
        encoder = d.encoder;
        extends = d.extends;
        blocks = λ j b at. rw k at;
        distinct = same-DistinctBlocks e r.1 d.extends k;
        count = rw (hard, k) refl;
        says = λ a rho q. (
          λ _. same_bound c.at_least _ _ (rw d.sized (d.same a rho q (coeffs_of c))) (m a),
          λ soft. absurd (false≢true (sym soft ∙ hard)),
        );
      }))

-- As many weights as literals, with the blocking literal.
blocked_sized :
    (lits coeffs : List ℤ) (x n : ℤ)
    → length lits ≡ length (weights_of (length lits) (coefficients coeffs))
    → length (lits ++ x ∷ [])
      ≡ length (weights_of (length (lits ++ x ∷ [])) (coefficients (blocked_coeffs coeffs n)))
blocked_sized lits coeffs x n e =
    length-end lits x
    ∙ ap suc e
    ∙ sym (length-end (weights_of (length lits) (coefficients coeffs)) (relief coeffs n))
    ∙ ap length (sym (blocked_weights lits coeffs x n))

blocked_value :
    (a : Assignment) (lits coeffs : List ℤ) (i : ℕ) (n v : ℤ)
    → length lits ≡ length (weights_of (length lits) (coefficients coeffs))
    → value a lits (weights_of (length lits) (coefficients coeffs)) ≡ v
    → value a
        (lits ++ pos (i + 1) ∷ [])
        (weights_of (length (lits ++ pos (i + 1) ∷ [])) (coefficients (blocked_coeffs coeffs n)))
      ≡ v +ℤ (if a i then relief coeffs n else pos 0)
blocked_value a lits coeffs i n v e f =
    ap (value a (lits ++ pos (i + 1) ∷ [])) (blocked_weights lits coeffs (pos (i + 1)) n)
    ∙ value-end a lits _ (pos (i + 1)) (relief coeffs n) e
    ∙ rw (holds_at a i, f) refl

soft-Added :
    (c : Constr) (e : Encoder) (r : List ℤ × Encoder)
    → EncodedLits c.lits e r
    → r.1.block_weights ≡ e.block_weights
    → IsNamedConstr c
    → (c.weight ==ℤ pos 0) ≡ false
    → Returns (Added c e) (
        gt_eq
          (r.0 ++ pos (length r.1.var_ints + 1) ∷ [])
          (coefficients (blocked_coeffs c.coeffs c.at_least))
          c.at_least
        >>= λ p. ok (
          p,
          record r.1 {
            var_ints = r.1.var_ints ++ [] ∷ [];
            block_weights = r.1.block_weights ++ (length r.1.var_ints + 1, c.weight) ∷ [];
            max_weight = r.1.max_weight +ℤ c.weight;
          },
        ))
unfolding KeepsBlocks
soft-Added c e r d k n soft =
    let bl = length r.1.var_ints in
    let f : Encoder = record r.1 {
      var_ints = r.1.var_ints ++ [] ∷ [];
      block_weights = r.1.block_weights ++ (bl + 1, c.weight) ∷ [];
      max_weight = r.1.max_weight +ℤ c.weight;
    } in
    let sized : length r.0 ≡ length (weights_of (length r.0) (coefficients c.coeffs)) =
      rw d.sized n.sized in
    let more = blocked_sized r.0 c.coeffs (pos (bl + 1)) c.at_least sized in
    let grown = pushed-Extends r.1 [] f refl in
    Returns-bind
      (gt_eq-value (r.0 ++ pos (bl + 1) ∷ []) (blocked_coeffs c.coeffs c.at_least) c.at_least
        (Nonzero-end r.0 bl d.nonzero) more)
      (λ p m. returns (record {
        encoder = blocked-IsEncoder r.1 f d.encoder refl refl;
        extends = Extends-trans e r.1 f d.extends grown;
        blocks = λ j b at.
            let at' = rw (sym k) at at in
            get_elem?-append r.1.block_weights _ j (get_elem?-lt r.1.block_weights j b at') ∙ at';
        distinct = λ h.
            pushed-DistinctBlocks r.1 f c.weight refl refl
              (same-DistinctBlocks e r.1 d.extends k h);
        count = rw (soft, k) (length-end e.block_weights _);
        says = λ a rho q. (
          λ hard. absurd (false≢true (sym soft ∙ hard)),
          λ _. (
            bl,
            rw (sym k) (get_elem?-end r.1.block_weights (bl + 1, c.weight)),
            get_elem?-end r.1.var_ints [],
            same_bound c.at_least _ _
                (blocked_value a r.0 c.coeffs bl c.at_least _ sized
                  (rw d.sized (d.same a rho (Reflects-earlier a rho r.1 f grown q) (coeffs_of c))))
                (m a),
          ),
        );
      }))

pub encode-Added :
    (c : Constr) (e : Encoder) → IsNamedConstr c → IsEncoder e → Returns (Added c e) (encode c e)
unfolding encode
encode-Added c e n h =
    let d = encode_lits-EncodedLits c.lits e n.named h in
    let k = encode_lits-blocks c.lits e in
    Returns-if (c.weight ==ℤ pos 0) (hard-Added c e (encode_lits c.lits e) d k n)
      (soft-Added c e (encode_lits c.lits e) d k n)
