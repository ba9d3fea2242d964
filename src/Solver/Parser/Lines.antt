-- ===== src/Solver/Parser/Lines.antt =====
-- What the loop over the lines keeps: the units and clauses mean what the lines read so far do.
use gophersat.Prelude.{
  ℕ, zero, suc, ◌^◌, ◌<◌, ◌≤◌, ◌≡◌, refl, sym, ap, ◌∙◌, Bool, true, false, ◌&&◌, List, [], ◌∷◌,
  ◌++◌, arith,
}
use gophersat.Prelude.Run.{Returns, returns, Returns-bind, Returns-map}
use gophersat.Prelude.Slices.{each_of}
use gophersat.Prelude.Int.{ℤ, pos, negsuc, nat_abs, ◌==ℤ◌}
use gophersat.Semantics.{Assignment, holds, clause_true, IsLit, IsClause}
use gophersat.Solver.Types.{unsat, Lit, int_to_lit}
use gophersat.Solver.Types.Codec.{lit_true, holds-lit_to_int, lit_to_int-int_to_lit}
use gophersat.Solver.Problem.{Clause, Problem, new_clause}
use gophersat.Solver.Problem.Literals.{below, lits_true}
use gophersat.Solver.Problem.Solutions.{clause_holds, lits_below}
use gophersat.Solver.Parser.{to_int32, lit_of, count_var, parse_lits, parse_rows}

pub to_int32_id : (x : ℤ) → nat_abs x ≤ 2 ^ 30 → to_int32 x ≡ x
unfolding to_int32
to_int32_id (pos n) h = ground arith
to_int32_id (negsuc n) h = ground arith

-- The literal of a number means what the number does.
pub lit_of-holds : (a : Assignment) (x : ℤ) → IsLit (2 ^ 30) x → lit_true a (lit_of x) ≡ holds a x
lit_of-holds a x h =
    rw (to_int32_id x h.1)
      (sym (holds-lit_to_int a (int_to_lit x)) ∙ ap (holds a) (lit_to_int-int_to_lit x h).0)

module _ {ℓ} {A : Type ℓ} (p : A → Bool) where
  pub each_of-append : (xs ys : List A) → each_of p (xs ++ ys) ≡ (each_of p xs && each_of p ys)
  each_of-append [] ys = refl
  each_of-append (x ∷ xs) ys = ground (arith, each_of-append xs ys)

pub each_of_mono {ℓ} :
    {A : Type ℓ} (p q : A → Bool) (xs : List A)
    → ((x : A) → p x ≡ true → q x ≡ true)
    → each_of p xs ≡ true
    → each_of q xs ≡ true
each_of_mono p q [] f h = refl
each_of_mono p q (x ∷ xs) f h = ground (arith, f x, each_of_mono p q xs f)

pub below_mono : (n m : ℕ) → n ≤ m → (l : Lit) → below n l ≡ true → below m l ≡ true
below_mono n m h l e = ground arith

pub lits_below_mono :
    (n m : ℕ) → n ≤ m → (c : Clause) → lits_below n c ≡ true → lits_below m c ≡ true
lits_below_mono n m h c e = each_of_mono (below n) (below m) c.lits (below_mono n m h) e

pub count_var_bounds : (l : Lit) (n : ℕ) → (n ≤ count_var l n) × (below (count_var l n) l ≡ true)
unfolding count_var
count_var_bounds l n = ground arith

-- The literals of a line mean what it does, and are of the variables counted.
record LineRead (line : List ℤ) (n : ℕ) (r : List Lit × ℕ) : Type 0 where
  same : (a : Assignment) → lits_true a r.0 ≡ clause_true a line
  more : n ≤ r.1
  ranged : each_of (below r.1) r.0 ≡ true

pub nonzero : (x : ℤ) → 0 < nat_abs x → (x ==ℤ pos 0) ≡ false
nonzero (pos zero) h = absurd (omega arith)
nonzero (pos (suc n)) h = ground arith
nonzero (negsuc n) h = refl

parse_lits-Returns :
    (line : List ℤ) (n : ℕ) → IsClause (2 ^ 30) line → Returns (LineRead line n) (parse_lits line n)
unfolding parse_lits
parse_lits-Returns [] n h = returns (record { same = λ a. refl; more = omega arith; ranged = refl })
parse_lits-Returns (x ∷ line) n h =
    let (grown, inside) = count_var_bounds (lit_of x) n in
    rw (nonzero x h.0.0) (
      Returns-bind (parse_lits-Returns line (count_var (lit_of x) n) h.1) (λ (lits, m) r.
        returns (record {
          same = λ a. ground (arith, lit_of-holds a x h.0, r.same a);
          more = omega (arith, r.more, grown);
          ranged =
              let first = below_mono (count_var (lit_of x) n) m r.more (lit_of x) inside in
              ground (arith, first, r.ranged);
        })))

abbrev pub AreClauses : List (List ℤ) → Type 0
AreClauses [] = Unit {0}
AreClauses (line ∷ cnf) = IsClause (2 ^ 30) line × AreClauses cnf

abbrev pub cnf_true : Assignment → List (List ℤ) → Bool
cnf_true a = each_of (clause_true a)

-- The units and the clauses of the problem.
abbrev pub holds_in : Assignment → Problem → Bool
holds_in a pb = each_of (lit_true a) pb.units && each_of (clause_holds a) pb.clauses

-- The units and the clauses are over the variables that are counted.
pub record Counted (pb : Problem) : Type 0 where
  pub units_below : each_of (below pb.nb_vars) pb.units ≡ true
  pub clauses_below : each_of (lits_below pb.nb_vars) pb.clauses ≡ true

-- What the loop over the lines leaves.
abbrev pub LinesRead : List (List ℤ) → Problem → Bool × Problem → Type 0
LinesRead cnf pb (true, pb') = ((a : Assignment) → cnf_true a cnf ≡ false) × (pb'.status ≡ unsat)
LinesRead cnf pb (false, pb') =
    Counted pb'
    × (pb'.status ≡ pb.status)
    × ((a : Assignment) → holds_in a pb' ≡ (holds_in a pb && cnf_true a cnf))

LinesRead-from :
    (line : List ℤ) (cnf : List (List ℤ)) (pb mid : Problem) (r : Bool × Problem)
    → mid.status ≡ pb.status
    → ((a : Assignment) → holds_in a mid ≡ (holds_in a pb && clause_true a line))
    → LinesRead cnf mid r
    → LinesRead (line ∷ cnf) pb r
LinesRead-from line cnf pb mid (true, out) s e (f, u) = (λ a. ground (arith, f a), u)
LinesRead-from line cnf pb mid (false, out) s e (c, t, f) =
    (c, t ∙ s, λ a. ground (arith, e a, f a))

-- A unit and a clause that join a counted problem.
unit_joins :
    (pb : Problem) (x : ℤ)
    → IsLit (2 ^ 30) x
    → Counted pb
    → (let mid = record pb {
      nb_vars = count_var (lit_of x) pb.nb_vars;
      units = pb.units ++ lit_of x ∷ [];
    } in
        Counted mid
        × ((a : Assignment) → holds_in a mid ≡ (holds_in a pb && clause_true a (x ∷ []))))
unit_joins pb x h c =
    let n = count_var (lit_of x) pb.nb_vars in
    let (grown, inside) = count_var_bounds (lit_of x) pb.nb_vars in
    let old =
      each_of_mono (below pb.nb_vars) (below n) pb.units (below_mono pb.nb_vars n grown)
        c.units_below in
    (
      record {
        units_below =
            ground (arith, each_of-append (below n) pb.units (lit_of x ∷ []), old, inside);
        clauses_below =
            each_of_mono (lits_below pb.nb_vars) (lits_below n) pb.clauses
              (lits_below_mono pb.nb_vars n grown) c.clauses_below;
      },
      λ a. ground (arith, each_of-append (lit_true a) pb.units (lit_of x ∷ []), lit_of-holds a x h),
    )

clause_joins :
    (pb : Problem) (line : List ℤ) (lits : List Lit) (n : ℕ)
    → LineRead line pb.nb_vars (lits, n)
    → Counted pb
    → (let mid = record pb { nb_vars = n; clauses = pb.clauses ++ new_clause lits ∷ [] } in
        Counted mid × ((a : Assignment) → holds_in a mid ≡ (holds_in a pb && clause_true a line)))
unfolding new_clause
clause_joins pb line lits n r c =
    let old =
      each_of_mono (lits_below pb.nb_vars) (lits_below n) pb.clauses
        (lits_below_mono pb.nb_vars n r.more) c.clauses_below in
    (
      record {
        units_below =
            each_of_mono (below pb.nb_vars) (below n) pb.units (below_mono pb.nb_vars n r.more)
              c.units_below;
        clauses_below =
            ground (
              arith,
              each_of-append (lits_below n) pb.clauses (new_clause lits ∷ []),
              old,
              r.ranged,
            );
      },
      λ a.
          ground
            (arith, each_of-append (clause_holds a) pb.clauses (new_clause lits ∷ []), r.same a),
    )

pub parse_rows-Returns :
    (cnf : List (List ℤ)) (pb : Problem)
    → AreClauses cnf
    → Counted pb
    → Returns (LinesRead cnf pb) (parse_rows cnf pb)
unfolding parse_rows
parse_rows-Returns [] pb h c = returns (c, refl, λ a. ground arith)
parse_rows-Returns ([] ∷ cnf) pb h c = returns (λ a. refl, refl)
parse_rows-Returns ((x ∷ []) ∷ cnf) pb h c =
    let mid = record pb {
      nb_vars = count_var (lit_of x) pb.nb_vars;
      units = pb.units ++ lit_of x ∷ [];
    } in
    let (counted, same) = unit_joins pb x h.0.0 c in
    rw (nonzero x h.0.0.0) (
      Returns-map (parse_rows-Returns cnf mid h.1 counted)
        (λ r. LinesRead-from (x ∷ []) cnf pb mid r refl same))
parse_rows-Returns ((x ∷ y ∷ line) ∷ cnf) pb h c =
    Returns-bind (parse_lits-Returns (x ∷ y ∷ line) pb.nb_vars h.0) (λ (lits, n) r.
      let mid = record pb { nb_vars = n; clauses = pb.clauses ++ new_clause lits ∷ [] } in
      let (counted, same) = clause_joins pb (x ∷ y ∷ line) lits n r c in
      Returns-map (parse_rows-Returns cnf mid h.1 counted)
        (λ q. LinesRead-from (x ∷ y ∷ line) cnf pb mid q refl same))
