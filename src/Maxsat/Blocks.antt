-- ===== src/Maxsat/Blocks.antt =====
-- The blocking literals that New gives to the soft constraints.
use gophersat.Prelude.{
  ℕ, zero, suc, ◌+◌, ◌≡◌, ◌≤◌, refl, sym, ap, ◌∙◌, some, List, [], ◌∷◌, ◌++◌, ◌⊎◌, inl, inr, length,
  get_elem?, get_elem?-lt, get_elem?-some, length-append, arith,
}
use gophersat.Prelude.Int.{ℤ}
use gophersat.Solver.SimplifyPb.Meets.{some_inj}
use gophersat.Maxsat.{Encoder}
use gophersat.Maxsat.Names.{Extends}

-- The blocking literals of one encoder keep their weights in a later one.
unfoldable pub KeepsBlocks : Encoder → Encoder → Type 0
KeepsBlocks e f =
    (j : ℕ) (b : ℕ × ℤ)
    → get_elem? e.block_weights j ≡ some b
    → get_elem? f.block_weights j ≡ some b

-- No two blocking literals are the same, and each is one of the numbers given so far.
unfoldable pub DistinctBlocks : Encoder → Type 0
DistinctBlocks e =
    ((j : ℕ) (b : ℕ × ℤ) → get_elem? e.block_weights j ≡ some b → b.0 ≤ length e.var_ints)
    × ((j k : ℕ) (b c : ℕ × ℤ)
        → get_elem? e.block_weights j ≡ some b
        → get_elem? e.block_weights k ≡ some c
        → b.0 ≡ c.0
        → j ≡ k)

-- A place that is taken stays taken.
Extends-length : (e f : Encoder) → Extends e f → length e.var_ints ≤ length f.var_ints
unfolding Extends
Extends-length e f x = reach (length e.var_ints) (omega arith)
  where
    reach : (n : ℕ) → n ≤ length e.var_ints → n ≤ length f.var_ints
    reach zero h = omega arith
    reach (suc n) h =
        let (name, at) = get_elem?-some e.var_ints n (omega arith) in
        let lt = get_elem?-lt f.var_ints n name (x n name at) in omega arith

-- Encoding literals leaves the blocking literals as they are.
pub same-DistinctBlocks :
    (e f : Encoder)
    → Extends e f
    → f.block_weights ≡ e.block_weights
    → DistinctBlocks e
    → DistinctBlocks f
unfolding DistinctBlocks
same-DistinctBlocks e f x k (low, apart) = (
  λ j b at. let p = low j b (rw (sym k) at) in let q = Extends-length e f x in omega arith,
  λ i j b c at at'. apart i j b c (rw (sym k) at) (rw (sym k) at'),
)

-- An element of a list with one more at the end is one of the list, or that one.
end_cases :
    {A : Type 0} (xs : List A) (x y : A) (j : ℕ)
    → get_elem? (xs ++ x ∷ []) j ≡ some y
    → (get_elem? xs j ≡ some y) ⊎ ((j ≡ length xs) × (x ≡ y))
end_cases [] x y zero e = inr (refl, some_inj e)
end_cases [] x y (suc j) e = cc
end_cases (z ∷ xs) x y zero e = inl e
end_cases (z ∷ xs) x y (suc j) e = elim (end_cases xs x y j e) [
  | inl old ↦ inl old
  | inr (at, same) ↦ inr (ap suc at, same)
]

-- A new blocking literal has the next number.
pub pushed-DistinctBlocks :
    (e f : Encoder) (w : ℤ)
    → f.var_ints ≡ e.var_ints ++ [] ∷ []
    → f.block_weights ≡ e.block_weights ++ (length e.var_ints + 1, w) ∷ []
    → DistinctBlocks e
    → DistinctBlocks f
unfolding DistinctBlocks
pushed-DistinctBlocks e f w p k (low, apart) = (
  λ j b at. elim (end_cases e.block_weights (length e.var_ints + 1, w) b j (rw (sym k) at)) [
    | inl old ↦ let r = low j b old in omega (arith, size)
    | inr (here, same) ↦ let r = ap (λ b. b.0) same in omega (arith, size)
  ],
  λ i j b c at at'. λ same.
      elim (end_cases e.block_weights (length e.var_ints + 1, w) b i (rw (sym k) at)) [
        | inl old ↦
            elim (end_cases e.block_weights (length e.var_ints + 1, w) c j (rw (sym k) at')) [
              | inl old' ↦ apart i j b c old old' same
              | inr (here', new') ↦
                  let r = low i b old in let q = ap (λ b. b.0) new' in absurd (omega arith)
            ]
        | inr (here, new) ↦
            elim (end_cases e.block_weights (length e.var_ints + 1, w) c j (rw (sym k) at')) [
              | inl old' ↦ let r = low j c old' in let q = ap (λ b. b.0) new in absurd (omega arith)
              | inr (here', new') ↦ here ∙ sym here'
            ]
      ],
)
  where
    size : length f.var_ints ≡ suc (length e.var_ints)
    size = ap length p ∙ length-append e.var_ints ([] ∷ []) ∙ (omega arith)
