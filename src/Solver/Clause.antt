-- ===== src/Solver/Clause.antt =====
-- solver/clause.go: the methods of a clause, which is a pseudo-Boolean constraint.
-- `lbd_value` is a uint32, a number below 2^32: its bits 31 and 30 are the flags, tested and changed
-- here by division and addition. sort.Sort is insertion sort, one of the sorts that it may be.
-- Weights are as many as the literals; where the code would meet a missing one, the model panics.
pub mod Flags
pub mod Meaning
pub mod Simplify
pub mod Reduction
mod Tests
use Prim.Native.Nat.{bit_or}
use gophersat.Prelude.{
  ℕ, ◌+◌, ◌-◌, ◌*◌, ◌/◌, ◌%◌, ◌^◌, Bool, true, false, ◌&&◌, ◌||◌, not, Option, none, some, List, [],
  ◌∷◌, ◌++◌, length, replicate, ltb, ◌==◌, if◌then◌else◌,
}
use gophersat.Prelude.Run.{Run, ok, panic, ◌>>=◌}
use gophersat.Prelude.Slices.{load, store, swap_remove}
use gophersat.Prelude.Int.{ℤ, pos, negsuc, pos_part, neg_part, ltb_ℤ, ◌+ℤ◌, ◌-ℤ◌}
use gophersat.Solver.Types.{Lit}
use gophersat.Solver.Problem.{PbData, Clause}

-- uint32(n)
abbrev pub uint32 : ℤ → ℕ
uint32 n = (pos_part n + (2 ^ 32 - neg_part n % 2 ^ 32)) % 2 ^ 32

-- The learned flag, bit 31, and the locked flag, bit 30.
abbrev pub learned_bit : ℕ → Bool
learned_bit v = v / 2 ^ 31 % 2 == 1

abbrev pub locked_bit : ℕ → Bool
locked_bit v = v / 2 ^ 30 % 2 == 1

-- `v & ^bothMasks`
abbrev pub low_bits : ℕ → ℕ
low_bits v = v % 2 ^ 30

unfoldable pub new_card_clause : List Lit → ℤ → Run Clause
new_card_clause lits card =
    if ltb_ℤ card (pos 1) || ltb_ℤ (pos (length lits)) card
    then panic
    else ok (record { lits = lits; lbd_value = uint32 (card -ℤ pos 1); pb_data = none })

abbrev pub Term : Type 0
Term = Lit × ℤ

-- sort.Sort(wl): by falling weights.
unfoldable pub insert_term : Term → List Term → List Term
insert_term t [] = t ∷ []
insert_term t (u ∷ terms) = if ltb_ℤ u.1 t.1 then t ∷ u ∷ terms else u ∷ insert_term t terms

unfoldable pub sort_terms : List Term → List Term → List Term
unfolding insert_term
sort_terms sorted [] = sorted
sort_terms sorted (t ∷ terms) = sort_terms (insert_term t sorted) terms

-- The literals with their weights. Lists of different lengths panic here, where the code panics at the
-- first access past the end of one of them.
unfoldable pub terms_of : List Lit → List ℤ → Run (List Term)
terms_of [] [] = ok []
terms_of (l ∷ lits) (w ∷ weights) = do terms ← terms_of lits weights; ok ((l, w) ∷ terms)
terms_of _ _ = panic

unfoldable pub term_lits : List Term → List Lit
term_lits [] = []
term_lits ((l, w) ∷ terms) = l ∷ term_lits terms

unfoldable pub term_weights : List Term → List ℤ
term_weights [] = []
term_weights ((l, w) ∷ terms) = w ∷ term_weights terms

unfoldable pub new_pb_clause : List Lit → Option (List ℤ) → ℤ → Run Clause
unfolding sort_terms terms_of term_lits term_weights
new_pb_clause lits weights card =
    let n = length lits in
    let build : Run (List Term) = elim weights [
      | none ↦ terms_of lits (replicate n (pos 1))
      | some ws ↦ terms_of lits ws >>= λ terms. ok (sort_terms [] terms)
    ] in
    let made : Run Clause = do
      terms ← build
      ok (record {
        lits = term_lits terms;
        lbd_value = uint32 (card -ℤ pos 1);
        pb_data = some (record { weights = term_weights terms; watched = replicate n false });
      })
    in if ltb_ℤ card (pos 1) then panic else made

unfoldable pub new_learned_clause : List Lit → Clause
new_learned_clause lits = record { lits = lits; lbd_value = 2 ^ 31; pb_data = none }

unfoldable pub learned : Clause → Bool
learned c = learned_bit c.lbd_value

unfoldable pub cardinality : Clause → ℕ
unfolding learned
cardinality c = if learned c then 1 else low_bits c.lbd_value + 1

unfoldable pub pseudo_boolean : Clause → Bool
pseudo_boolean c = elim c.pb_data [ none ↦ false | some d ↦ true ]

unfoldable pub lock : Clause → Clause
lock c = record c {
  lbd_value = if locked_bit c.lbd_value then c.lbd_value else c.lbd_value + 2 ^ 30;
}

unfoldable pub unlock : Clause → Clause
unlock c = record c {
  lbd_value = if locked_bit c.lbd_value then c.lbd_value - 2 ^ 30 else c.lbd_value;
}

unfoldable pub lbd : Clause → ℕ
lbd c = low_bits c.lbd_value

-- (v & bothMasks) | uint32(n): the low bits are those of n, and the high ones are joined.
unfoldable pub set_lbd : ℤ → Clause → Clause
set_lbd n c = record c {
  lbd_value = 2 ^ 30 * bit_or (c.lbd_value / 2 ^ 30) (uint32 n / 2 ^ 30) + low_bits (uint32 n);
}

unfoldable pub inc_lbd : Clause → Clause
inc_lbd c = record c { lbd_value = (c.lbd_value + 1) % 2 ^ 32 }

unfoldable pub is_locked : Clause → Bool
is_locked c = learned_bit c.lbd_value && locked_bit c.lbd_value

-- The weights, 1 each without data.
unfoldable pub weights_of : Clause → List ℤ
weights_of c = elim c.pb_data [ none ↦ replicate (length c.lits) (pos 1) | some d ↦ d.weights ]

unfoldable pub weight : Clause → ℕ → Run ℤ
weight c i = elim c.pb_data [ none ↦ ok (pos 1) | some d ↦ load d.weights i ]

unfoldable pub total : List ℤ → ℤ
total [] = pos 0
total (w ∷ weights) = w +ℤ total weights

unfoldable pub weight_sum : Clause → ℤ
unfolding total
weight_sum c = elim c.pb_data [ none ↦ pos (length c.lits) | some d ↦ total d.weights ]

-- xs[i], xs[j] = xs[j], xs[i]
unfoldable pub exchange {ℓ} : {A : Type ℓ} → List A → ℕ → ℕ → Run (List A)
exchange xs i j = do x ← load xs i; y ← load xs j; ys ← store xs i y; store ys j x

unfoldable pub swap : ℕ → ℕ → Clause → Run Clause
unfolding exchange
swap i j c = exchange c.lits i j >>= λ lits. elim c.pb_data [
  | none ↦ ok (record c { lits = lits })
  | some d ↦ exchange d.weights i j >>= λ weights.
      ok (record c { lits = lits; pb_data = some (record d { weights = weights }) })
]

unfoldable pub update_cardinality : ℤ → Clause → Clause
update_cardinality add c = record c {
  lbd_value =
      if ltb_ℤ add (pos 0) && ltb c.lbd_value (neg_part add % 2 ^ 32)
      then 0
      else (c.lbd_value + uint32 add) % 2 ^ 32;
}

-- xs[i] = xs[len(xs)-1]; xs = xs[:len(xs)-1], which panics out of range.
abbrev drop_at {ℓ} : {A : Type ℓ} → List A → ℕ → Run (List A)
drop_at xs i = if ltb i (length xs) then ok (swap_remove xs i) else panic

unfoldable pub remove_lit : ℕ → Clause → Run Clause
remove_lit i c = drop_at c.lits i >>= λ lits. elim c.pb_data [
  | none ↦ ok (record c { lits = lits })
  | some d ↦ drop_at d.weights i >>= λ weights.
      ok (record c { lits = lits; pb_data = some (record d { weights = weights }) })
]
