-- ===== src/Solver/SimplifyPb/States.antt =====
-- The variables of the loop over the literals of a clause, and what the loop promises of them.
use gophersat.Prelude.{
  ℕ, ◌^◌, ◌<◌, ◌≤◌, ◌≡◌, ◌↔◌, refl, ◌∙◌, Bool, true, false, some, List, length, arith, ◌⊎◌, inl,
  inr,
}
use gophersat.Prelude.Slices.{each_of}
use gophersat.Prelude.Int.{ℤ, pos, pos_part, ◌-ℤ◌, ◌≤ℤ◌}
use gophersat.Semantics.{Assignment, Agrees}
use gophersat.Solver.Types.{unsat, Lit}
use gophersat.Solver.Types.Codec.{lit_true}
use gophersat.Solver.Problem.{Clause, Problem, is_unsat}
use gophersat.Solver.Problem.Literals.{below}
use gophersat.Solver.Problem.Units.{is_binding}
use gophersat.Solver.Clause.{total}
use gophersat.Solver.Clause.Meaning.{sum_true}
use gophersat.Solver.Clause.Simplify.{NonNegative}
use gophersat.Solver.SimplifyPb.{Scanned, Outcome, scanned, without, counted, scan_terms}
use gophersat.Solver.SimplifyPb

abbrev pub pb_clause : List Lit → ℕ → List ℤ → List Bool → Clause
pb_clause lits lbd ws watched = record {
  lits = lits;
  lbd_value = lbd;
  pb_data = some (record { weights = ws; watched = watched });
}

-- The variables of the loop, with the parts of the clause.
pub record State : Type 0 where
  pub lits : List Lit
  pub ws : List ℤ
  pub lbd : ℕ
  pub watched : List Bool
  pub card : ℤ
  pub w_sum : ℤ
  pub modified : Bool
  pub pb : Problem

abbrev pub scanned_of : State → Scanned
scanned_of s = record {
  clause = pb_clause s.lits s.lbd s.ws s.watched;
  card = s.card;
  w_sum = s.w_sum;
  modified = s.modified;
  pb = s.pb;
}

-- The weights are not negative and add up to w_sum, the clause has the degree as long as that is positive,
-- and the literals are of the problem's variables.
pub record IsFit (s : State) : Type 0 where
  pub sized : length s.lits ≡ length s.ws
  pub weights : NonNegative s.ws
  pub bounded : total s.ws ≤ℤ pos (2 ^ 31)
  pub sum_up : s.w_sum ≡ total s.ws
  pub degree : s.card ≤ℤ pos (2 ^ 30)
  pub word : s.lbd ≡ pos_part (s.card -ℤ pos 1)
  pub ranged : each_of (below (length s.pb.model)) s.lits ≡ true
  pub bindings : each_of is_binding s.pb.model ≡ true
  pub live : is_unsat s.pb.status ≡ false

-- The assignment extends the bindings and satisfies the clause.
abbrev pub Fulfils : Assignment → State → Type 0
Fulfils a s = Agrees a s.pb.model × (s.card ≤ℤ sum_true a s.lits s.ws)

-- From one state of the loop to a later one.
pub record Link (s t : State) : Type 0 where
  pub same : (a : Assignment) → Fulfils a s ↔ Fulfils a t
  pub units :
      (a : Assignment)
      → Agrees a t.pb.model
      → each_of (lit_true a) t.pb.units ≡ each_of (lit_true a) s.pb.units
  pub agree : (a : Assignment) → Agrees a t.pb.model → Agrees a s.pb.model
  pub status : t.pb.status ≡ s.pb.status
  pub clauses : t.pb.clauses ≡ s.pb.clauses
  pub model_length : length t.pb.model ≡ length s.pb.model
  pub shorter : length t.lits ≤ length s.lits
  pub progress : t.modified ≡ true → (s.modified ≡ true) ⊎ (length t.lits < length s.lits)

pub Link-refl : (s : State) → Link s s
Link-refl s = record {
  same = λ a. (λ h. h, λ h. h);
  units = λ a g. refl;
  agree = λ a g. g;
  status = refl;
  clauses = refl;
  model_length = refl;
  shorter = omega arith;
  progress = λ e. inl e;
}

pub Link-trans : (s t u : State) → Link s t → Link t u → Link s u
Link-trans s t u f g = record {
  same =
      λ a. let (f0, f1) = f.same a in let (g0, g1) = g.same a in (λ h. g0 (f0 h), λ h. f1 (g1 h));
  units = λ a h. g.units a h ∙ f.units a (g.agree a h);
  agree = λ a h. f.agree a (g.agree a h);
  status = g.status ∙ f.status;
  clauses = g.clauses ∙ f.clauses;
  model_length = g.model_length ∙ f.model_length;
  shorter = omega (arith, f.shorter, g.shorter);
  progress = λ e. elim (g.progress e) [
    | inl m ↦ elim (f.progress m) [ inl k ↦ inl k | inr lt ↦ inr (omega (arith, g.shorter)) ]
    | inr lt ↦ inr (omega (arith, f.shorter))
  ];
}

-- What the loop promises.
abbrev pub Promises : State → Outcome → Type 0
Promises s (gophersat.Solver.SimplifyPb.clash pb') =
    (pb'.status ≡ unsat) × ((a : Assignment) → Fulfils a s → ⊥)
Promises s (scanned out) = (t : State) × (out ≡ scanned_of t) × IsFit t × Link s t

pub Promises-from : (s t : State) (out : Outcome) → Link s t → Promises t out → Promises s out
Promises-from s t (gophersat.Solver.SimplifyPb.clash pb') f (e, h) =
    (e, λ a x. h a ((f.same a).0 x))
Promises-from s t (scanned out) f (u, e, i, g) = (u, e, i, Link-trans s t u f g)
