-- ===== src/Explain/Lines.antt =====
-- The loops over the lines of a certificate return, and a valid certificate that derives the empty
-- clause refutes the tagged clauses.
use gophersat.Prelude.{◌≡◌, refl, Bool, true, List, [], ◌∷◌, length, ◌⊎◌, inl, inr}
use gophersat.Prelude.Run.{Returns, returns, Returns-map, Returns-if, Returns-bind}
use gophersat.Prelude.Int.{ℤ}
use gophersat.Text.{Str}
use gophersat.Explain.{Clause, Problem}
use gophersat.Explain.Check.{
  Line, ignored, malformed, derived, read_line, invalid, bad_clause, is_empty, learn, chan_loop,
  cert_loop,
}
use gophersat.Explain.Certificate.{
  Holds, Stepped, check_clause-Stepped, CertInRange, LineInRange, Checked, Checked-skip,
  Checked-stop, Checked-learn, Checked-empty,
}

Line-cases : (x : Line) → ((x ≡ ignored) ⊎ (x ≡ malformed)) ⊎ ((c : Clause) × (x ≡ derived c))
Line-cases ignored = inl (inl refl)
Line-cases malformed = inl (inr refl)
Line-cases (derived c) = inr (c, refl)

module _ (own : List Clause) (units : List ℤ) where
  pub cert_loop-Returns :
      (lines : List Str) (fails : Bool) (pb : Problem)
      → Holds own units pb
      → CertInRange (length units) lines
      → Returns (Checked own units lines pb) (cert_loop lines fails pb)
  unfolding cert_loop
  cert_loop-Returns [] fails pb h r =
      returns
        (record { kept = h; tags = (refl, λ j g. g); nb_vars = refl; refuted = λ v. elim [ ] })
  cert_loop-Returns (line ∷ lines) fails pb h r = elim (Line-cases (read_line line)) [
    | inl (inl e) ↦
        rw (e, cert_loop)
          (Returns-map (cert_loop-Returns lines fails pb h r.1)
            λ s c. Checked-skip own units line lines pb s (λ d. cc) c)
    | inl (inr e) ↦
        rw (e, cert_loop)
          (returns (
            Checked-stop own units (line ∷ lines) pb pb bad_clause h (refl, λ j g. g) refl
              (λ d. cc)))
    | inr (clause, e) ↦
        let hc : LineInRange (length units) (derived clause) = rw e at r.0 in
        rw (e, cert_loop)
          (Returns-bind (check_clause-Stepped own units pb clause h hc) λ (good, pb') s.
            Returns-if good
              (λ passed.
                let s' : Stepped own units clause pb (true, pb') = rw passed at s in
                Returns-map (cert_loop-Returns lines fails (learn pb' clause) (s'.learns refl) r.1)
                  λ t c. Checked-learn own units line lines clause pb pb' t e s' c)
              (λ refused. returns (
                Checked-stop own units (line ∷ lines) pb pb' invalid s.kept s.tags s.nb_vars
                  (λ d. cc))))
  ]

  pub chan_loop-Returns :
      (lines : List Str) (pb : Problem)
      → Holds own units pb
      → CertInRange (length units) lines
      → Returns (Checked own units lines pb) (chan_loop lines pb)
  unfolding chan_loop
  chan_loop-Returns [] pb h r =
      returns
        (record { kept = h; tags = (refl, λ j g. g); nb_vars = refl; refuted = λ v. elim [ ] })
  chan_loop-Returns (line ∷ lines) pb h r = elim (Line-cases (read_line line)) [
    | inl (inl e) ↦
        rw (e, chan_loop)
          (Returns-map (chan_loop-Returns lines pb h r.1)
            λ s c. Checked-skip own units line lines pb s (λ d. cc) c)
    | inl (inr e) ↦
        rw (e, chan_loop)
          (returns (
            Checked-stop own units (line ∷ lines) pb pb bad_clause h (refl, λ j g. g) refl
              (λ d. cc)))
    | inr (clause, e) ↦
        let hc : LineInRange (length units) (derived clause) = rw e at r.0 in
        rw (e, chan_loop)
          (Returns-bind (check_clause-Stepped own units pb clause h hc) λ (good, pb') s.
            Returns-if good
              (λ passed.
                let s' : Stepped own units clause pb (true, pb') = rw passed at s in
                Returns-if (is_empty clause)
                  (λ empty. returns (Checked-empty own units (line ∷ lines) clause pb pb' empty s'))
                  (λ more.
                    Returns-map (chan_loop-Returns lines (learn pb' clause) (s'.learns refl) r.1)
                      λ t c. Checked-learn own units line lines clause pb pb' t e s' c))
              (λ refused. returns (
                Checked-stop own units (line ∷ lines) pb pb' invalid s.kept s.tags s.nb_vars
                  (λ d. cc))))
  ]
