-- ===== src/Solver/SimplifyPb/Scan.antt =====
-- A literal leaves the clause: what the state is then, and that it means the same.
use gophersat.Prelude.{
  ℕ, zero, suc, ◌+◌, ◌%◌, ◌^◌, ◌<◌, ◌≡◌, ◌↔◌, refl, Bool, true, false, ◌&&◌, some, length,
  get_elem?, arith, ltb, if◌then◌else◌, inr, get_elem?-lt,
}
use gophersat.Prelude.Run.{ok}
use gophersat.Prelude.Slices.{swap_remove, length-swap_remove, each_of, each_of-swap_remove}
use gophersat.Prelude.Int.{
  ℤ, pos, negsuc, pos_part, neg_part, neg, ltb_ℤ, ◌+ℤ◌, ◌-ℤ◌, ◌≤ℤ◌, parts_of_eq, int_laws,
}
use gophersat.Semantics.{Assignment, Agrees}
use gophersat.Solver.Types.{Lit}
use gophersat.Solver.Types.Codec.{lit_true}
use gophersat.Solver.Problem.{Problem}
use gophersat.Solver.Problem.Literals.{below}
use gophersat.Solver.Problem.Units.{is_binding}
use gophersat.Solver.Clause.{update_cardinality, uint32, total, remove_lit}
use gophersat.Solver.SimplifyPb.{without, counted}
use gophersat.Solver.SimplifyPb.Meets.{
  sum_true-swap_remove, total-swap_remove, NonNegative-swap_remove, NonNegative-get,
}
use gophersat.Solver.SimplifyPb.States.{State, scanned_of, IsFit, Fulfils, Link}

-- The word of the degree after a weight has been taken off.
lowered_word :
    (lbd : ℕ) (card w : ℤ)
    → lbd ≡ pos_part (card -ℤ pos 1)
    → card ≤ℤ pos (2 ^ 30)
    → pos 0 ≤ℤ w
    → w ≤ℤ pos (2 ^ 31)
    → (if ltb_ℤ (neg w) (pos 0) && ltb lbd (neg_part (neg w) % 2 ^ 32)
        then 0
        else (lbd + uint32 (neg w)) % 2 ^ 32)
      ≡ pos_part (card -ℤ w -ℤ pos 1)
unfolding ◌-ℤ◌
lowered_word lbd (pos n) (pos zero) e d p q = ground arith
lowered_word lbd (negsuc n) (pos zero) e d p q = ground arith
lowered_word lbd (pos n) (pos (suc k)) e d p q = ground arith
lowered_word lbd (negsuc n) (pos (suc k)) e d p q = ground arith
lowered_word lbd card (negsuc k) e d p q = absurd (omega arith)

-- The state with the literal at j gone, and maybe counted for the degree.
abbrev pub after : ℕ → ℤ → Bool → Problem → State → State
after j w counts pb s = record {
  lits = swap_remove s.lits j;
  ws = swap_remove s.ws j;
  lbd =
      if counts
      then (if ltb_ℤ (neg w) (pos 0) && ltb s.lbd (neg_part (neg w) % 2 ^ 32)
          then 0
          else (s.lbd + uint32 (neg w)) % 2 ^ 32)
      else s.lbd;
  watched = s.watched;
  card = if counts then s.card -ℤ w else s.card;
  w_sum = s.w_sum -ℤ w;
  modified = true;
  pb = pb;
}

pub without-ok :
    (j : ℕ) (w : ℤ) (counts : Bool) (pb : Problem) (s : State)
    → j < length s.lits
    → length s.lits ≡ length s.ws
    → without j w (
        if counts
        then counted w (record (scanned_of s) { pb = pb })
        else record (scanned_of s) { pb = pb })
      ≡ ok (scanned_of (after j w counts pb s))
unfolding without counted remove_lit update_cardinality
without-ok j w counts pb s lt e =
    let first : ltb j (length s.lits) ≡ true = ground arith in
    let second : ltb j (length s.ws) ≡ true = ground arith in cases counts first second
  where
    cases :
        (counts : Bool)
        → ltb j (length s.lits) ≡ true
        → ltb j (length s.ws) ≡ true
        → without j w (
            if counts
            then counted w (record (scanned_of s) { pb = pb })
            else record (scanned_of s) { pb = pb })
          ≡ ok (scanned_of (after j w counts pb s))
    cases true p q = rw (p, q) refl
    cases false p q = rw (p, q) refl

-- The binding of the literal is known then.
pub record Settles (s : State) (lit : Lit) (w : ℤ) (counts : Bool) (pb : Problem) : Type 0 where
  pub agree : (a : Assignment) → Agrees a pb.model → Agrees a s.pb.model × (lit_true a lit ≡ counts)
  pub back : (a : Assignment) → Fulfils a s → Agrees a pb.model
  pub units :
      (a : Assignment)
      → Agrees a pb.model
      → each_of (lit_true a) pb.units ≡ each_of (lit_true a) s.pb.units
  pub status : pb.status ≡ s.pb.status
  pub clauses : pb.clauses ≡ s.pb.clauses
  pub model_length : length pb.model ≡ length s.pb.model
  pub bindings : each_of is_binding pb.model ≡ true

pub after-Link :
    (s : State) (j : ℕ) (lit : Lit) (w : ℤ) (counts : Bool) (pb : Problem)
    → get_elem? s.lits j ≡ some lit
    → get_elem? s.ws j ≡ some w
    → length s.lits ≡ length s.ws
    → Settles s lit w counts pb
    → Link s (after j w counts pb s)
after-Link s j lit w counts pb e f sized h =
    let lt = length-swap_remove s.lits j (get_elem?-lt s.lits j lit e) in
    record {
      same = λ a.
          let taken = λ (x : lit_true a lit ≡ counts).
            moved counts (lit_true a lit) w _ _ s.card
              (sum_true-swap_remove a s.lits s.ws j lit w e f sized) x in
          (
            λ (g, d). let g' = h.back a (g, d) in (g', (taken (h.agree a g').1).0 d),
            λ (g, d). let (g', x) = h.agree a g in (g', (taken x).1 d),
          );
      units = h.units;
      agree = λ a g. (h.agree a g).0;
      status = h.status;
      clauses = h.clauses;
      model_length = h.model_length;
      shorter = omega (arith, lt);
      progress = λ m. inr (omega (arith, lt));
    }
  where
    moved :
        (counts b : Bool) (w x y c : ℤ)
        → x ≡ (if b then w else pos 0) +ℤ y
        → b ≡ counts
        → (c ≤ℤ x) ↔ ((if counts then c -ℤ w else c) ≤ℤ y)
    moved true true w x y c p q =
        (λ u. omega (int_laws, parts_of_eq p), λ u. omega (int_laws, parts_of_eq p))
    moved false false w x y c p q =
        (λ u. omega (int_laws, parts_of_eq p), λ u. omega (int_laws, parts_of_eq p))
    moved true false w x y c p q = cc
    moved false true w x y c p q = cc

pub after-IsFit :
    (s : State) (j : ℕ) (lit : Lit) (w : ℤ) (counts : Bool) (pb : Problem)
    → get_elem? s.lits j ≡ some lit
    → get_elem? s.ws j ≡ some w
    → IsFit s
    → Settles s lit w counts pb
    → IsFit (after j w counts pb s)
after-IsFit s j lit w counts pb e f i h =
    let (low, high) = NonNegative-get s.ws j w i.weights f in
    let split = total-swap_remove s.ws j w f in
    let fewer_lits = length-swap_remove s.lits j (get_elem?-lt s.lits j lit e) in
    let fewer_ws = length-swap_remove s.ws j (get_elem?-lt s.ws j w f) in
    record {
      sized = omega (arith, i.sized, fewer_lits, fewer_ws);
      weights = NonNegative-swap_remove s.ws j i.weights;
      bounded = omega (int_laws, parts_of_eq split, low, i.bounded);
      sum_up = subtracted s.w_sum (total s.ws) w (total (swap_remove s.ws j)) i.sum_up split;
      degree = lowered counts s.card low i.degree;
      word =
          word_of s.card (s.card -ℤ w) counts
            (lowered_word s.lbd s.card w i.word i.degree low (omega (int_laws, high, i.bounded)))
            i.word;
      ranged = rw h.model_length (
          ground (arith, i.ranged, each_of-swap_remove (below (length s.pb.model)) s.lits j lit e));
      bindings = h.bindings;
      live = rw h.status i.live;
    }
  where
    subtracted : (x t w y : ℤ) → x ≡ t → t ≡ w +ℤ y → x -ℤ w ≡ y
    subtracted x t w y p q = omega (int_laws, parts_of_eq p, parts_of_eq q)

    lowered :
        (counts : Bool) (card : ℤ)
        → pos 0 ≤ℤ w
        → card ≤ℤ pos (2 ^ 30)
        → (if counts then card -ℤ w else card) ≤ℤ pos (2 ^ 30)
    lowered true card p q = omega int_laws
    lowered false card p q = q

    word_of :
        (c c' : ℤ) {l l' : ℕ} (counts : Bool)
        → l' ≡ pos_part (c' -ℤ pos 1)
        → l ≡ pos_part (c -ℤ pos 1)
        → (if counts then l' else l) ≡ pos_part ((if counts then c' else c) -ℤ pos 1)
    word_of c c' true p q = p
    word_of c c' false p q = q
