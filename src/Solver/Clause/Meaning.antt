-- ===== src/Solver/Clause/Meaning.antt =====
-- What a pseudo-Boolean clause means, and that NewPBClause and NewCardClause make it so.
use gophersat.Prelude.{
  ◌&&◌, Bool-cases, inl, inr, ℕ, suc, ◌-◌, ◌^◌, ◌<◌, ◌≤◌, ◌≡◌, refl, ap, ◌∙◌, Bool, true, false,
  some, List, [], ◌∷◌, length, arith, if◌then◌else◌,
}
use gophersat.Prelude.Run.{Returns, returns, Returns-bind}
use gophersat.Prelude.Int.{ℤ, pos, ltb_ℤ, ◌+ℤ◌, ◌-ℤ◌, ◌≤ℤ◌, int_laws}
use gophersat.Prelude.Slices.{each_of}
use gophersat.Semantics.{Assignment}
use gophersat.Solver.Types.{Lit}
use gophersat.Solver.Types.Codec.{lit_true}
use gophersat.Solver.Problem.{Clause}
use gophersat.Solver.Clause.{
  uint32, Term, insert_term, sort_terms, terms_of, term_lits, term_weights, new_pb_clause,
  cardinality, learned, weights_of,
}

-- The sum of the weights of the true literals.
unfoldable pub sum_true : Assignment → List Lit → List ℤ → ℤ
sum_true a [] weights = pos 0
sum_true a (l ∷ lits) [] = pos 0
sum_true a (l ∷ lits) (w ∷ weights) = (if lit_true a l then w else pos 0) +ℤ sum_true a lits weights

-- The assignment satisfies the clause.
abbrev pub MeetsClause : Assignment → Clause → Type 0
MeetsClause a c = pos (cardinality c) ≤ℤ sum_true a c.lits (weights_of c)

unfoldable pub terms_value : Assignment → List Term → ℤ
terms_value a [] = pos 0
terms_value a ((l, w) ∷ terms) = (if lit_true a l then w else pos 0) +ℤ terms_value a terms

pub sum_true-terms :
    (a : Assignment) (ts : List Term)
    → sum_true a (term_lits ts) (term_weights ts) ≡ terms_value a ts
unfolding sum_true terms_value term_lits term_weights
sum_true-terms a [] = refl
sum_true-terms a ((l, w) ∷ ts) = rw (sum_true-terms a ts) refl

pub length-terms : (ts : List Term) → length (term_lits ts) ≡ length (term_weights ts)
unfolding term_lits term_weights
length-terms [] = refl
length-terms ((l, w) ∷ ts) = ap suc (length-terms ts)

-- The literals are the same ones.
members-insert :
    (p : Lit → Bool) (l : Lit) (w : ℤ) (ts : List Term)
    → each_of p (term_lits (insert_term (l, w) ts)) ≡ (p l && each_of p (term_lits ts))
unfolding insert_term term_lits
members-insert p l w [] = refl
members-insert p l w ((l2, w2) ∷ ts) = elim (Bool-cases (ltb_ℤ w2 w)) [
  | inl above ↦ rw above refl
  | inr below ↦ rw below (ground (arith, members-insert p l w ts))
]

pub members-sort :
    (p : Lit → Bool) (acc ts : List Term)
    → each_of p (term_lits (sort_terms acc ts))
      ≡ (each_of p (term_lits acc) && each_of p (term_lits ts))
unfolding sort_terms term_lits
members-sort p acc [] = ground arith
members-sort p acc ((l, w) ∷ ts) =
    ground (arith, members-sort p (insert_term (l, w) acc) ts, members-insert p l w acc)

pub terms_of-Returns :
    (lits : List Lit) (ws : List ℤ)
    → length lits ≡ length ws
    → Returns
        (λ ts. ((a : Assignment) → terms_value a ts ≡ sum_true a lits ws) × (term_lits ts ≡ lits))
        (terms_of lits ws)
unfolding terms_of terms_value sum_true term_lits
terms_of-Returns [] [] e = returns (λ a. refl, refl)
terms_of-Returns [] (w ∷ ws) e = absurd (omega arith)
terms_of-Returns (l ∷ lits) [] e = absurd (omega arith)
terms_of-Returns (l ∷ lits) (w ∷ ws) e =
    Returns-bind (terms_of-Returns lits ws (omega arith))
      (λ ts (h, m). returns (λ a. rw (h a) refl, rw m refl))

swapped : (x y z : ℤ) → x +ℤ (y +ℤ z) ≡ y +ℤ (x +ℤ z)
swapped x y z = omega int_laws

value-insert :
    (a : Assignment) (l : Lit) (w : ℤ) (ts : List Term)
    → terms_value a (insert_term (l, w) ts)
      ≡ (if lit_true a l then w else pos 0) +ℤ terms_value a ts
unfolding insert_term terms_value
value-insert a l w [] = refl
value-insert a l w ((l2, w2) ∷ ts) = placed (ltb_ℤ w2 w) (value-insert a l w ts)
  where
    placed :
        (test : Bool)
        → terms_value a (insert_term (l, w) ts)
          ≡ (if lit_true a l then w else pos 0) +ℤ terms_value a ts
        → terms_value a (if test then (l, w) ∷ (l2, w2) ∷ ts else (l2, w2) ∷ insert_term (l, w) ts)
          ≡ (if lit_true a l then w else pos 0)
            +ℤ ((if lit_true a l2 then w2 else pos 0) +ℤ terms_value a ts)
    placed true ih = refl
    placed false ih = rw ih (swapped (if lit_true a l2 then w2 else pos 0) _ (terms_value a ts))

pub value-sort :
    (a : Assignment) (acc ts : List Term)
    → terms_value a (sort_terms acc ts) ≡ terms_value a acc +ℤ terms_value a ts
unfolding sort_terms terms_value
value-sort a acc [] = omega int_laws
value-sort a acc ((l, w) ∷ ts) =
    value-sort a (insert_term (l, w) acc) ts
    ∙ rw (value-insert a l w acc)
        (regroup (if lit_true a l then w else pos 0) (terms_value a acc) (terms_value a ts))
  where
    regroup : (x y z : ℤ) → x +ℤ y +ℤ z ≡ y +ℤ (x +ℤ z)
    regroup x y z = omega int_laws

-- The clause that NewPBClause makes.
pub record PbClauseOf (lits : List Lit) (ws : List ℤ) (card : ℕ) (c : Clause) : Type 0 where
  pub degree : cardinality c ≡ card
  pub value : (a : Assignment) → sum_true a c.lits (weights_of c) ≡ sum_true a lits ws
  pub members : (p : Lit → Bool) → each_of p c.lits ≡ each_of p lits
  pub sized : length c.lits ≡ length (weights_of c)

pub uint32_pred : (n : ℕ) → 0 < n → n ≤ 2 ^ 30 → uint32 (pos n -ℤ pos 1) ≡ n - 1
unfolding ◌-ℤ◌
uint32_pred n h k = ground arith

-- The degree is kept in the low bits of the word, less one.
pub cardinality_word :
    (c : Clause) (n : ℕ) → 0 < n → n ≤ 2 ^ 30 → c.lbd_value ≡ n - 1 → cardinality c ≡ n
unfolding cardinality learned
cardinality_word c n h k e = ground arith

pub positive_test : (n : ℕ) → 0 < n → ltb_ℤ (pos n) (pos 1) ≡ false
positive_test n h = ground arith

-- For as many weights as literals and a degree from 1 to 2^30, NewPBClause returns a clause of that
-- degree, in which the true literals have the same sum of weights under every assignment.
pub new_pb_clause_correct :
    (lits : List Lit) (ws : List ℤ) (card : ℕ)
    → length lits ≡ length ws
    → 0 < card
    → card ≤ 2 ^ 30
    → Returns (PbClauseOf lits ws card) (new_pb_clause lits (some ws) (pos card))
unfolding new_pb_clause weights_of terms_value term_lits
new_pb_clause_correct lits ws card e h k = rw (positive_test card h) (
    Returns-bind
      (Returns-bind
        {Final = λ ts.
          ((a : Assignment) → terms_value a ts ≡ sum_true a lits ws)
          × ((p : Lit → Bool) → each_of p (term_lits ts) ≡ each_of p lits)}
        (terms_of-Returns lits ws e)
        (λ ts (f, m). returns (
          λ a. value-sort a [] ts ∙ rw (f a) (zero_add (sum_true a lits ws)),
          λ p. members-sort p [] ts ∙ ap (each_of p) m,
        )))
      (λ ts (f, m). returns (record {
        degree = cardinality_word _ card h k (uint32_pred card h k);
        value = λ a. sum_true-terms a ts ∙ f a;
        members = m;
        sized = length-terms ts;
      })))
  where
    zero_add : (x : ℤ) → pos 0 +ℤ x ≡ x
    zero_add x = omega int_laws
