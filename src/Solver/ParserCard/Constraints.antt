-- ===== src/Solver/ParserCard/Constraints.antt =====
-- What the units and the clauses of a cardinality constraint mean.
use gophersat.Prelude.{
  ℕ, suc, ◌^◌, ◌<◌, ◌≤◌, ◌≡◌, ◌↔◌, refl, ap, Bool, true, false, not, none, List, [], ◌∷◌, length,
  arith, ==→eq, ◌||◌,
}
use gophersat.Prelude.Run.{Returns, returns, Returns-bind}
use gophersat.Prelude.Slices.{each_of}
use gophersat.Prelude.Int.{ℤ, pos, negsuc, ltb_ℤ, ◌-ℤ◌, ◌≤ℤ◌, ◌==ℤ◌}
use gophersat.Semantics.{Assignment, IsClause}
use gophersat.Solver.Types.{Lit}
use gophersat.Solver.Types.Codec.{lit_true}
use gophersat.Solver.Problem.{Clause}
use gophersat.Solver.Problem.Literals.{below}
use gophersat.Solver.Pb.{CardConstr}
use gophersat.Solver.Pb.Meaning.{count_true}
use gophersat.Solver.Clause.{new_card_clause, uint32}
use gophersat.Solver.Clause.Meaning.{cardinality_word, uint32_pred}
use gophersat.Solver.Parser.{lit_of, count_var, parse_lits}
use gophersat.Solver.Parser.Lines.{lit_of-holds, below_mono, count_var_bounds, nonzero}
use gophersat.Solver.SimplifyCard.Scan.{true_count, true_count_all}
use gophersat.Solver.SimplifyCard.Keeps.{card_met, asks_one}

-- As many literals are true as the constraint asks for.
abbrev pub MeetsCard : Assignment → CardConstr → Type 0
MeetsCard a c = c.at_least ≤ℤ pos (count_true a c.lits)

-- Literals of at most 2^30 other than 0, and not more of them.
pub record IsFitCard (c : CardConstr) : Type 0 where
  pub literals : IsClause (2 ^ 30) c.lits
  pub few : length c.lits ≤ 2 ^ 30

-- The literals that are read.
pub record LitsRead (line : List ℤ) (n : ℕ) (r : List Lit × ℕ) : Type 0 where
  pub same : (a : Assignment) → true_count a r.0 ≡ count_true a line
  pub sized : length r.0 ≡ length line
  pub more : n ≤ r.1
  pub ranged : each_of (below r.1) r.0 ≡ true

pub parse_lits-LitsRead :
    (line : List ℤ) (n : ℕ) → IsClause (2 ^ 30) line → Returns (LitsRead line n) (parse_lits line n)
unfolding parse_lits count_true
parse_lits-LitsRead [] n h =
    returns (record { same = λ a. refl; sized = refl; more = omega arith; ranged = refl })
parse_lits-LitsRead (x ∷ line) n h =
    let (grown, inside) = count_var_bounds (lit_of x) n in
    rw (nonzero x h.0.0) (
      Returns-bind (parse_lits-LitsRead line (count_var (lit_of x) n) h.1) (λ (lits, m) r.
        returns (record {
          same = λ a. rw (lit_of-holds a x h.0, r.same a) refl;
          sized = ap suc r.sized;
          more = omega (arith, r.more, grown);
          ranged =
              let first = below_mono (count_var (lit_of x) n) m r.more (lit_of x) inside in
              ground (arith, first, r.ranged);
        })))

module _ (c : CardConstr) (n : ℕ) (lits : List Lit) (m : ℕ) (r : LitsRead c.lits n (lits, m)) where
  -- A degree above the number of literals asks for too much, and the number itself for all literals.
  pub all_true_met :
      (pos (length c.lits) ==ℤ c.at_least) ≡ true
      → (a : Assignment) → MeetsCard a c ↔ (each_of (lit_true a) lits ≡ true)
  all_true_met e a =
      let (_, (f, b)) = true_count_all a lits in
      reached c.at_least (length c.lits) (count_true a c.lits) e (r.same a) r.sized f b
    where
      reached :
          {y : Bool} {k l : ℕ} (x : ℤ) (len count : ℕ)
          → (pos len ==ℤ x) ≡ true
          → k ≡ count
          → l ≡ len
          → (l ≤ k → y ≡ true)
          → (y ≡ true → l ≤ k)
          → (x ≤ℤ pos count) ↔ (y ≡ true)
      reached (pos x) len count e s l f b =
          let q = ==→eq len x e in (λ h. f (omega arith), λ t. let h = b t in omega arith)
      reached (negsuc x) len count e s l f b = cc

  pub clause_made :
      not (ltb_ℤ (pos 0) c.at_least) ≡ false
      → ltb_ℤ (pos (length c.lits)) c.at_least ≡ false
      → length c.lits ≤ 2 ^ 30
      → Returns
          (λ d.
            (d.lits ≡ lits)
            × ((a : Assignment) → MeetsCard a c ↔ (card_met a d ≡ true))
            × (c.at_least ≤ℤ pos 1 → asks_one d ≡ true))
          (new_card_clause lits c.at_least)
  unfolding new_card_clause
  clause_made p q few = of_degree c.at_least p q
    where
      of_degree :
          (x : ℤ)
          → not (ltb_ℤ (pos 0) x) ≡ false
          → ltb_ℤ (pos (length c.lits)) x ≡ false
          → Returns
              (λ d.
                (d.lits ≡ lits)
                × ((a : Assignment) → (x ≤ℤ pos (count_true a c.lits)) ↔ (card_met a d ≡ true))
                × (x ≤ℤ pos 1 → asks_one d ≡ true))
              (new_card_clause lits x)
      of_degree (negsuc x) p q = absurd (ground arith)
      of_degree (pos x) p q =
          let above : 0 < x = ground arith in
          let small : x ≤ 2 ^ 30 = ground arith in
          let guard : (ltb_ℤ (pos x) (pos 1) || ltb_ℤ (pos (length lits)) (pos x)) ≡ false =
            ground (arith, r.sized) in
          let d : Clause = record {
            lits = lits;
            lbd_value = uint32 (pos x -ℤ pos 1);
            pb_data = none;
          } in
          let degree = cardinality_word d x above small (uint32_pred x above small) in
          rw guard (
            returns (
              refl,
              λ a. rw (degree, r.same a) (λ h. ground arith, λ h. ground arith),
              λ h. rw degree (ground arith),
            ))
