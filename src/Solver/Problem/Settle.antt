-- ===== src/Solver/Problem/Settle.antt =====
-- What the loop over the clauses of simplify2 does with one clause keeps the solutions.
use gophersat.Prelude.{
  ℕ, ◌+◌, ◌-◌, ◌<◌, ◌≤◌, ◌≡◌, refl, sym, ap, ◌∙◌, Bool, true, false, ◌&&◌, Option, none, some, List,
  [], ◌∷◌, ◌++◌, length, length-set, take, get_elem?, get_elem?-lt, set, ◌==◌, ◌⊎◌, inl, inr, arith,
  if◌then◌else◌,
}
use gophersat.Prelude.Run.{Run, Returns, returns, Returns-bind, Returns-map}
use gophersat.Prelude.Slices.{
  swap_remove, length-swap_remove, each_of, each_of-swap_remove, each_of-get, each_of-set,
}
use gophersat.Semantics.{Assignment, Agrees}
use gophersat.Solver.Types.{Lit}
use gophersat.Solver.Types.Codec.{lit_true}
use gophersat.Solver.Problem.{
  Clause, Problem, PbData, Round, returned, over, is_unsat, shrink, settle,
}
use gophersat.Solver.Problem.Literals.{below, lits_true, ScannedOr}
use gophersat.Solver.Problem.Units.{AddedUnit, clash, added, add_unit-Returns}
use gophersat.Solver.Problem.Prefix.{is_long_lits, is_long, take-swap_remove, each_of-take-set}
use gophersat.Solver.Problem.Solutions.{
  clause_holds, lits_below, SameModels, Wf, SameModels-trans, removed-SameModels,
  emptied-SameModels, replaced-SameModels,
}

pub each_of-snoc :
    (p : Lit → Bool) (ls : List Lit) (l : Lit) → each_of p (ls ++ l ∷ []) ≡ (each_of p ls && p l)
each_of-snoc p [] l = ground arith
each_of-snoc p (x ∷ xs) l = ground (arith, each_of-snoc p xs l)

-- The problem left by a unit clause: shorter, well formed and with the same models.
record UnitDone (pb pb' : Problem) (i : ℕ) : Type 0 where
  same : SameModels pb (record pb' { clauses = swap_remove pb'.clauses i })
  wf : Wf (record pb' { clauses = swap_remove pb'.clauses i })
  shorter : length (swap_remove pb'.clauses i) + 1 ≡ length pb.clauses
  prefix : take i (swap_remove pb'.clauses i) ≡ take i pb.clauses

unit_step :
    (pb pb' : Problem) (i : ℕ) (c : Clause) (lit : Lit)
    → get_elem? pb.clauses i ≡ some c
    → Wf pb
    → ((a : Assignment) → Agrees a pb.model → lits_true a (lit ∷ []) ≡ lits_true a c.lits)
    → AddedUnit lit pb pb'
    → ((is_unsat pb'.status ≡ true) × SameModels pb pb') ⊎ UnitDone pb pb' i
unfolding is_unsat
unit_step pb _ i c lit e w same (clash never) =
    inl (refl, emptied-SameModels pb i c e (λ a g. sym (same a g) ∙ ground (arith, never a g)))
unit_step pb _ i c lit e w same (added model len bs forth back) = inr (record {
  same = λ a.
      let split = each_of-swap_remove (clause_holds a) pb.clauses i c e in
      let snoc = each_of-snoc (lit_true a) pb.units lit in
      (
        λ s.
            let t : lit_true a lit ≡ true =
              ground (arith, split, same a s.agrees, s.clauses_hold) in
            record {
              live = s.live;
              agrees = back a s.agrees t;
              units_hold = snoc ∙ ground (arith, s.units_hold, t);
              clauses_hold = ground (arith, split, s.clauses_hold);
            },
        λ s.
            let (g, t) = forth a s.agrees in
            record {
              live = s.live;
              agrees = g;
              units_hold = ground (arith, snoc, s.units_hold);
              clauses_hold = ground (arith, split, same a g, t, s.clauses_hold);
            },
      );
  wf = record {
    live = w.live;
    bindings = bs;
    ranged = rw len (
        ground
          (arith, each_of-swap_remove (lits_below (length pb.model)) pb.clauses i c e, w.ranged));
  };
  shorter = length-swap_remove pb.clauses i (get_elem?-lt pb.clauses i c e);
  prefix = take-swap_remove pb.clauses i (get_elem?-lt pb.clauses i c e);
})

pub record Finished (pb : Problem) (before after : Bool) (pb' : Problem) : Type 0 where
  pub same : SameModels pb pb'
  pub wf : Wf pb'
  pub long : each_of is_long pb'.clauses ≡ true
  pub no_longer : length pb'.clauses ≤ length pb.clauses
  pub restarts : before ≡ false → after ≡ true → length pb'.clauses < length pb.clauses

-- What a round leaves, from a problem and a restart flag.
abbrev pub RoundPost : Problem → Bool → Round → Type 0
RoundPost pb before (returned pb') = SameModels pb pb' × (is_unsat pb'.status ≡ true)
RoundPost pb before (over after pb') = Finished pb before after pb'

RoundPost-from :
    (p q : Problem) (before between : Bool) (out : Round)
    → SameModels p q
    → length q.clauses ≤ length p.clauses
    → (before ≡ false → (between ≡ false) ⊎ (length q.clauses < length p.clauses))
    → RoundPost q between out
    → RoundPost p before out
RoundPost-from p q before between (returned r) s l f (same, dead) =
    (SameModels-trans p q r s same, dead)
RoundPost-from p q before between (over after r) s l f post = record {
  same = SameModels-trans p q r s post.same;
  wf = post.wf;
  long = post.long;
  no_longer = omega (arith, l, post.no_longer);
  restarts = λ b t. elim (f b) [
    | inl still ↦ let d = post.restarts still t in omega arith
    | inr less ↦ omega (arith, post.no_longer)
  ];
}

take-length : (ls : List Lit) → take (length ls) ls ≡ ls
take-length [] = refl
take-length (l ∷ ls) = ap (λ t. l ∷ t) (take-length ls)

shrink_lits :
    (ls : List Lit) (v : ℕ) (d : Option PbData)
    → (shrink (record { lits = ls; lbd_value = v; pb_data = d }) (length ls)).lits ≡ ls
unfolding shrink
shrink_lits ls v none = take-length ls
shrink_lits ls v (some d) = take-length ls

-- The clause that settle stores holds the literals that are left.
pub stored_lits :
    (c : Clause) (left : List Lit) (test : Bool)
    → (if test
        then record c { lits = left }
        else shrink (record c { lits = left }) (length left)).lits
      ≡ left
stored_lits c left true = refl
stored_lits c left false = shrink_lits left c.lbd_value c.pb_data

two_lits : (l l2 : Lit) (ls : List Lit) → is_long_lits (l ∷ l2 ∷ ls) ≡ true
two_lits l l2 ls = ground arith

pub settle-Returns :
    (i : ℕ) (before : Bool) (c : Clause) (pb : Problem) (r : Option (List Lit))
    (next : ℕ → Bool → Problem → Run Round)
    → get_elem? pb.clauses i ≡ some c
    → Wf pb
    → each_of is_long (take i pb.clauses) ≡ true
    → ScannedOr pb.model c.lits r
    → ((k : ℕ) (b : Bool) (q : Problem)
        → Wf q
        → each_of is_long (take k q.clauses) ≡ true
        → length q.clauses - k < length pb.clauses - i
        → Returns (RoundPost q b) (next k b q))
    → Returns (RoundPost pb before) (settle i before c pb r next)
unfolding settle is_unsat
settle-Returns i before c pb none next e w h t rec =
    let lt = get_elem?-lt pb.clauses i c e in
    let shorter = length-swap_remove pb.clauses i lt in
    let q = record pb { clauses = swap_remove pb.clauses i } in
    Returns-map
      (rec i before q
        (record {
          live = w.live;
          bindings = w.bindings;
          ranged = ground (
            arith,
            each_of-swap_remove (lits_below (length pb.model)) pb.clauses i c e,
            w.ranged,
          );
        })
        (ap (each_of is_long) (take-swap_remove pb.clauses i lt) ∙ h) (omega arith))
      (λ out.
        RoundPost-from pb q before before out (removed-SameModels pb i c e w.live t) (omega arith)
          inl)
settle-Returns i before c pb (some []) next e w h d rec =
    returns (emptied-SameModels pb i c e (λ a g. sym (d.same a g)), refl)
settle-Returns i before c pb (some (lit ∷ [])) next e w h d rec =
    let lt = get_elem?-lt pb.clauses i c e in
    Returns-bind (add_unit-Returns lit pb w.bindings (ground (arith, d.ranged))) (λ pb' u.
      elim (unit_step pb pb' i c lit e w d.same u) [
        | inl (dead, same) ↦ rw dead (returns (same, dead))
        | inr done ↦
            let live = done.wf.live in
            rw live (
              Returns-map
                (rec i true (record pb' { clauses = swap_remove pb'.clauses i }) done.wf
                  (ap (each_of is_long) done.prefix ∙ h) (omega (arith, done.shorter)))
                (λ out.
                  RoundPost-from pb (record pb' { clauses = swap_remove pb'.clauses i }) before true
                    out done.same (omega (arith, done.shorter))
                    (λ b. inr (omega (arith, done.shorter)))))
      ])
settle-Returns i before c pb (some (lit ∷ lit2 ∷ lits)) next e w h d rec =
    let lt = get_elem?-lt pb.clauses i c e in
    let left = lit ∷ lit2 ∷ lits in
    let c' =
      if length c.lits == length left
      then record c { lits = left }
      else shrink (record c { lits = left }) (length left) in
    let kept : c'.lits ≡ left = stored_lits c left (length c.lits == length left) in
    let q = record pb { clauses = set pb.clauses i c' } in
    let same_length = length-set pb.clauses i c' in
    let before_ranged = each_of-get (lits_below (length pb.model)) pb.clauses i c w.ranged e in
    Returns-map
      (rec (i + 1) before q
        (record {
          live = w.live;
          bindings = w.bindings;
          ranged =
              each_of-set (lits_below (length pb.model)) pb.clauses i c c' e
                (ap (each_of (below (length pb.model))) kept ∙ d.ranged ∙ sym before_ranged)
              ∙ w.ranged;
        })
        (each_of-take-set is_long pb.clauses i c' lt (ap is_long_lits kept ∙ two_lits lit lit2 lits)
          h)
        (omega (arith, same_length)))
      (λ out.
        RoundPost-from pb q before before out
          (replaced-SameModels pb i c c' e (λ a g. ap (lits_true a) kept ∙ d.same a g))
          (omega (arith, same_length)) inl)
