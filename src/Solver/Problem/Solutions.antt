-- ===== src/Solver/Problem/Solutions.antt =====
-- The solutions of a problem, and the changes of its clauses that keep them.
use gophersat.Prelude.{ℕ, ◌≡◌, sym, ◌∙◌, Bool, true, false, some, length, get_elem?, set, arith}
use gophersat.Prelude.Slices.{swap_remove, each_of, each_of-swap_remove, each_of-get, each_of-set}
use gophersat.Semantics.{Assignment, Agrees}
use gophersat.Solver.Types.{unsat}
use gophersat.Solver.Types.Codec.{lit_true}
use gophersat.Solver.Problem.{Clause, Problem, is_unsat}
use gophersat.Solver.Problem.Literals.{below, lits_true}
use gophersat.Solver.Problem.Units.{is_binding}

abbrev pub clause_holds : Assignment → Clause → Bool
clause_holds a c = lits_true a c.lits

-- The assignment solves the problem: it extends the bindings and makes the clauses true.
pub record Solves (a : Assignment) (pb : Problem) : Type 0 where
  pub live : is_unsat pb.status ≡ false
  pub agrees : Agrees a pb.model
  pub units_hold : each_of (lit_true a) pb.units ≡ true
  pub clauses_hold : each_of (clause_holds a) pb.clauses ≡ true

abbrev pub SameModels : Problem → Problem → Type 0
SameModels pb pb' = (a : Assignment) → (Solves a pb → Solves a pb') × (Solves a pb' → Solves a pb)

abbrev pub lits_below : ℕ → Clause → Bool
lits_below n c = each_of (below n) c.lits

-- The problem is not found Unsat, its bindings are 0, 1 or -1, and its literals are in range.
pub record Wf (pb : Problem) : Type 0 where
  pub live : is_unsat pb.status ≡ false
  pub bindings : each_of is_binding pb.model ≡ true
  pub ranged : each_of (lits_below (length pb.model)) pb.clauses ≡ true

pub SameModels-trans : (p q r : Problem) → SameModels p q → SameModels q r → SameModels p r
SameModels-trans p q r f g a =
    let (f1, f2) = f a in let (g1, g2) = g a in (λ s. g1 (f1 s), λ s. f2 (g2 s))

-- A clause that is true under the bindings can go.
pub removed-SameModels :
    (pb : Problem) (i : ℕ) (c : Clause)
    → get_elem? pb.clauses i ≡ some c
    → is_unsat pb.status ≡ false
    → ((a : Assignment) → Agrees a pb.model → lits_true a c.lits ≡ true)
    → SameModels pb (record pb { clauses = swap_remove pb.clauses i })
removed-SameModels pb i c e l t a =
    let split = each_of-swap_remove (clause_holds a) pb.clauses i c e in
    (
      λ s. record {
        live = l;
        agrees = s.agrees;
        units_hold = s.units_hold;
        clauses_hold = ground (arith, split, t a s.agrees, s.clauses_hold);
      },
      λ s. record {
        live = l;
        agrees = s.agrees;
        units_hold = s.units_hold;
        clauses_hold = ground (arith, split, t a s.agrees, s.clauses_hold);
      },
    )

-- A clause that is false under the bindings has no model.
pub emptied-SameModels :
    (pb : Problem) (i : ℕ) (c : Clause)
    → get_elem? pb.clauses i ≡ some c
    → ((a : Assignment) → Agrees a pb.model → lits_true a c.lits ≡ false)
    → SameModels pb (record pb { status = unsat })
unfolding is_unsat
emptied-SameModels pb i c e f a = (
  λ s. absurd (
      let t = each_of-get (clause_holds a) pb.clauses i c s.clauses_hold e in cc (f a s.agrees, t)),
  λ s. absurd (let l = s.live in cc l),
)

-- A clause can be replaced by one that means the same under the bindings.
pub replaced-SameModels :
    (pb : Problem) (i : ℕ) (c c' : Clause)
    → get_elem? pb.clauses i ≡ some c
    → ((a : Assignment) → Agrees a pb.model → lits_true a c'.lits ≡ lits_true a c.lits)
    → SameModels pb (record pb { clauses = set pb.clauses i c' })
replaced-SameModels pb i c c' e f a =
    let same =
      λ (g : Agrees a pb.model). each_of-set (clause_holds a) pb.clauses i c c' e (f a g) in
    (
      λ s. record {
        live = s.live;
        agrees = s.agrees;
        units_hold = s.units_hold;
        clauses_hold = same s.agrees ∙ s.clauses_hold;
      },
      λ s. record {
        live = s.live;
        agrees = s.agrees;
        units_hold = s.units_hold;
        clauses_hold = sym (same s.agrees) ∙ s.clauses_hold;
      },
    )
