-- ===== src/Maxsat/Literals.antt =====
-- The numbers of a list of literals, and what they mean.
use gophersat.Prelude.{
  suc, ◌+◌, ◌≡◌, refl, ap, ◌∙◌, Bool, none, some, List, [], ◌∷◌, ◌++◌, length, if◌then◌else◌,
}
use gophersat.Prelude.Int.{ℤ, pos, neg, ◌+ℤ◌}
use gophersat.Text.{Str}
use gophersat.Semantics.{Assignment, holds}
use gophersat.Solver.Pb.Meaning.{value, Nonzero}
use gophersat.Maxsat.{Lit, Encoder, int_of, encode_lit, encode_lits}
use gophersat.Maxsat.Names.{
  IsEncoder, Extends, Extends-refl, Extends-trans, Reflects, Reflects-earlier, IsNamed, lit_value,
  encode_lit-Encoded,
}

encode_lit-blocks : (l : Lit) (e : Encoder) → (encode_lit l e).1.block_weights ≡ e.block_weights
unfolding encode_lit
encode_lit-blocks l e =
    elim (int_of l.var e.int_vars)
      as (λ o.
        (elim o as (λ _. ℤ × Encoder) [
          | some k ↦ (if l.negated then neg (pos k) else pos k, e)
          | none ↦ (
            if l.negated then neg (pos (length e.var_ints + 1)) else pos (length e.var_ints + 1),
            record e {
              var_ints = e.var_ints ++ l.var ∷ [];
              int_vars = (l.var, length e.var_ints + 1) ∷ e.int_vars;
            },
          )
        ]).1.block_weights
        ≡ e.block_weights) [ some k ↦ refl | none ↦ refl ]

pub encode_lits-blocks :
    (lits : List Lit) (e : Encoder) → (encode_lits lits e).1.block_weights ≡ e.block_weights
unfolding encode_lits
encode_lits-blocks [] e = refl
encode_lits-blocks (l ∷ lits) e = encode_lits-blocks lits (encode_lit l e).1 ∙ encode_lit-blocks l e

-- The sum of the coefficients of the true literals.
unfoldable pub named_value : (Str → Bool) → List Lit → List ℤ → ℤ
named_value rho [] ws = pos 0
named_value rho (l ∷ lits) [] = pos 0
named_value rho (l ∷ lits) (w ∷ ws) =
    (if lit_value rho l then w else pos 0) +ℤ named_value rho lits ws

abbrev pub AreNamed : List Lit → Type 0
AreNamed [] = Unit {0}
AreNamed (l ∷ lits) = IsNamed l × AreNamed lits

pub record EncodedLits (lits : List Lit) (e : Encoder) (r : List ℤ × Encoder) : Type 0 where
  pub encoder : IsEncoder r.1
  pub extends : Extends e r.1
  pub nonzero : Nonzero r.0
  pub sized : length r.0 ≡ length lits
  pub same :
      (a : Assignment) (rho : Str → Bool)
      → Reflects a rho r.1
      → (ws : List ℤ) → value a r.0 ws ≡ named_value rho lits ws

pub encode_lits-EncodedLits :
    (lits : List Lit) (e : Encoder)
    → AreNamed lits
    → IsEncoder e
    → EncodedLits lits e (encode_lits lits e)
unfolding encode_lits value named_value
encode_lits-EncodedLits [] e n h = record {
  encoder = h;
  extends = Extends-refl e;
  nonzero = tt;
  sized = refl;
  same = λ a rho r ws. refl;
}
encode_lits-EncodedLits (l ∷ lits) e n h =
    let (x, e') = encode_lit l e in
    let first = encode_lit-Encoded l e n.0 h in
    let rest = encode_lits-EncodedLits lits e' n.1 first.encoder in
    let last = (encode_lits lits e').1 in
    record {
      encoder = rest.encoder;
      extends = Extends-trans e e' last first.extends rest.extends;
      nonzero = (first.nonzero, rest.nonzero);
      sized = ap suc rest.sized;
      same = λ a rho r.
          both a rho x (encode_lits lits e').0
            (first.same a rho (Reflects-earlier a rho e' last rest.extends r)) (rest.same a rho r);
    }
  where
    both :
        (a : Assignment) (rho : Str → Bool) (x : ℤ) (xs : List ℤ)
        → holds a x ≡ lit_value rho l
        → ((ws : List ℤ) → value a xs ws ≡ named_value rho lits ws)
        → (ws : List ℤ) → value a (x ∷ xs) ws ≡ named_value rho (l ∷ lits) ws
    both a rho x xs e f [] = refl
    both a rho x xs e f (w ∷ ws) = rw (e, f ws) refl
