-- ===== src/Solver/Parser/Binding.antt =====
-- What the loop over the units does to the assignments that extend the bindings.
use gophersat.Prelude.{
  zero, suc, ◌<◌, ◌≡◌, refl, Bool-cases, inl, inr, sym, ap, ◌∙◌, Bool, true, false, not, List, [],
  ◌∷◌, length, length-set, set, ltb→lt, arith,
}
use gophersat.Prelude.Run.{Returns, returns, Returns-if, Returns-bind, Returns-map}
use gophersat.Prelude.Slices.{load-ok, store-Returns, each_of, each_of-get, each_of-set}
use gophersat.Prelude.Int.{ℤ, pos, negsuc, ltb_ℤ, ◌==ℤ◌}
use gophersat.Semantics.{Assignment, Reads, Agrees, set-Agrees}
use gophersat.Solver.Types.{unsat, Lit, lit_var, is_positive}
use gophersat.Solver.Types.Codec.{lit_true}
use gophersat.Solver.Problem.{Problem, same_sign}
use gophersat.Solver.Problem.Literals.{below}
use gophersat.Solver.Problem.Units.{
  is_binding, value_of, reading, value-Reads, is_binding-value, unset-Agrees, get_elem?-set-same,
}
use gophersat.Solver.Parser.{bind_units}

-- The problem with the units bound.
pub record Bound (units : List Lit) (pb pb' : Problem) : Type 0 where
  pub clauses : pb'.clauses ≡ pb.clauses
  pub units_kept : pb'.units ≡ pb.units
  pub status : pb'.status ≡ pb.status
  pub length : length pb'.model ≡ length pb.model
  pub bindings : each_of is_binding pb'.model ≡ true
  pub forth :
      (a : Assignment)
      → Agrees a pb'.model
      → Agrees a pb.model × (each_of (lit_true a) units ≡ true)
  pub back :
      (a : Assignment) → Agrees a pb.model → each_of (lit_true a) units ≡ true → Agrees a pb'.model

abbrev pub BoundOr : List Lit → Problem → Bool × Problem → Type 0
BoundOr units pb (true, pb') =
    ((a : Assignment) → Agrees a pb.model → each_of (lit_true a) units ≡ false)
    × (pb'.status ≡ unsat)
BoundOr units pb (false, pb') = Bound units pb pb'

free_Reads : (b : ℤ) (x : Bool) → (b ==ℤ pos 0) ≡ true → Reads b x
free_Reads (pos zero) x e = tt
free_Reads (pos (suc n)) x e = absurd (ground arith)
free_Reads (negsuc n) x e = cc

-- A bound variable's literal has the value that the sign of the binding tells.
bound_reading :
    (b : ℤ) (s x : Bool)
    → Reads b x
    → (b ==ℤ pos 0) ≡ false
    → reading s x ≡ same_sign (ltb_ℤ (pos 0) b) s
unfolding same_sign
bound_reading (pos zero) s x r e = cc
bound_reading (pos (suc zero)) true x r e = r
bound_reading (pos (suc zero)) false x r e = ap not r
bound_reading (pos (suc (suc n))) s x r e = absurd r
bound_reading (negsuc zero) true x r e = r
bound_reading (negsuc zero) false x r e = ap not r
bound_reading (negsuc (suc n)) s x r e = absurd r

reading-value : (s x : Bool) → Reads (value_of s) x → reading s x ≡ true
reading-value true x r = r
reading-value false x r = ap not r

-- The rest of the loop, after bindings that make the literal true and nothing else.
BoundOr-from :
    (lit : Lit) (units : List Lit) (pb : Problem) (model : List ℤ) (r : Bool × Problem)
    → length model ≡ length pb.model
    → ((a : Assignment) → Agrees a model → Agrees a pb.model × (lit_true a lit ≡ true))
    → ((a : Assignment) → Agrees a pb.model → lit_true a lit ≡ true → Agrees a model)
    → BoundOr units (record pb { model = model }) r
    → BoundOr (lit ∷ units) pb r
BoundOr-from lit units pb model (true, out) l forth back (f, u) = (
  λ a g. elim (Bool-cases (lit_true a lit)) [
    | inl t ↦ let e = f a (back a g t) in ground (arith, e)
    | inr n ↦ ground (arith, n)
  ],
  u,
)
BoundOr-from lit units pb model (false, out) l forth back d = record {
  clauses = d.clauses;
  units_kept = d.units_kept;
  status = d.status;
  length = d.length ∙ l;
  bindings = d.bindings;
  forth =
      λ a g. let (h, t) = d.forth a g in let (h', t') = forth a h in (h', ground (arith, t, t'));
  back = λ a g t. d.back a (back a g (ground (arith, t))) (ground (arith, t));
}

pub bind_units-Returns :
    (units : List Lit) (pb : Problem)
    → each_of is_binding pb.model ≡ true
    → each_of (below (length pb.model)) units ≡ true
    → Returns (BoundOr units pb) (bind_units units pb)
unfolding bind_units
bind_units-Returns [] pb i r = returns (record {
  clauses = refl;
  units_kept = refl;
  status = refl;
  length = refl;
  bindings = i;
  forth = λ a g. (g, refl);
  back = λ a g t. g;
})
bind_units-Returns (lit ∷ units) pb i r =
    let v = lit_var lit in
    let s = is_positive lit in
    let hv : v < length pb.model = ltb→lt v (length pb.model) (ground arith) in
    let (b, bound, loaded) = load-ok pb.model v hv in
    let is_b = each_of-get is_binding pb.model v b i bound in
    rw loaded (
      Returns-if (b ==ℤ pos 0)
        (λ free.
          let model = set pb.model v (value_of s) in
          let same_length = length-set pb.model v (value_of s) in
          Returns-bind (store-Returns {P = λ m. m ≡ model} pb.model v (value_of s) hv refl) (λ m e.
            rw e (
              Returns-map
                (bind_units-Returns units (record pb { model = model })
                  (each_of-set is_binding pb.model v b (value_of s) bound
                      (is_binding-value s ∙ sym is_b)
                    ∙ i)
                  (rw same_length (ground arith)))
                (λ q.
                  BoundOr-from lit units pb model q same_length
                    (λ a g.
                      let now =
                        reading-value s (a v)
                          (g v (value_of s) (get_elem?-set-same pb.model v (value_of s) hv)) in
                      (
                        unset-Agrees a pb.model v b (value_of s) bound hv (free_Reads b (a v) free)
                            g,
                        now,
                      ))
                    (λ a g t. set-Agrees a pb.model v (value_of s) hv (value-Reads s (a v) t) g)))))
        (λ taken.
          Returns-if (same_sign (ltb_ℤ (pos 0) b) s)
            (λ same. Returns-map (bind_units-Returns units pb i (ground arith)) (λ q.
              BoundOr-from lit units pb pb.model q refl
                (λ a g. (g, bound_reading b s (a v) (g v b bound) taken ∙ same)) (λ a g t. g)))
            (λ differs. returns (
              (λ a g. let x = bound_reading b s (a v) (g v b bound) taken in ground arith),
              refl,
            ))))
