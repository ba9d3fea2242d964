-- ===== src/Explain/Tests.antt =====
-- The checker at concrete problems and certificates.
use gophersat.Prelude.{
  ℕ, zero, suc, ◌≡◌, refl, true, false, some, List, [], ◌∷◌, get_elem?, arith, inl, inr,
}
use mathlib.Core.Bool.{false≢true}
use gophersat.Prelude.Run.{Returns, ok}
use gophersat.Prelude.Int.{ℤ, pos, negsuc, ◌*ℤ◌}
use gophersat.Text.{Str, fields, atoi}
use gophersat.Explain.{Problem, unsat}
use gophersat.Explain.Check.{read_line, valid, unsat_chan, unsat_cert}
use gophersat.Explain.Certificate.{CertInRange, DerivesEmpty}
use gophersat.Explain.Verdicts.{IsValid, Outcome, unsat_chan_sound, unsat_cert_sound}
use gophersat.Explain.Subset.{SolverRun, SoundRun, IsUnsatSubset, unsat_subset, unsat_subset_sound}

-- All four clauses over two variables.
abbrev square : Problem
square = record {
  clauses =
      (pos 1 ∷ pos 2 ∷ [])
      ∷ (pos 1 ∷ negsuc 1 ∷ [])
      ∷ (negsuc 0 ∷ pos 2 ∷ [])
      ∷ (negsuc 0 ∷ negsuc 1 ∷ [])
      ∷ [];
  nb_vars = 2;
  nb_clauses = 4;
  units = pos 0 ∷ pos 0 ∷ [];
  tagged = [];
}

-- The lines `1 0` and `0`.
abbrev certificate : List Str
certificate = (49 ∷ 32 ∷ 48 ∷ []) ∷ (48 ∷ []) ∷ []

no_binding : (k : ℕ) (b : ℤ) → get_elem? (pos 0 ∷ pos 0 ∷ []) k ≡ some b → b ≡ pos 0
no_binding zero b e = cc
no_binding (suc zero) b e = cc
no_binding (suc (suc k)) b e = cc

square-IsValid : IsValid square
square-IsValid = record {
  count = refl;
  ranged = omega arith;
  backed = λ k b e. inl (no_binding k b e);
}

certificate-CertInRange : CertInRange 2 certificate
unfolding read_line fields atoi
certificate-CertInRange = omega arith

certificate-DerivesEmpty : DerivesEmpty certificate
unfolding read_line fields atoi
certificate-DerivesEmpty = inr (inl refl)

unsat_chan_runs :
    unsat_chan square certificate
    ≡ ok (valid, record square { tagged = true ∷ true ∷ true ∷ true ∷ [] })
unfolding unsat_chan fields atoi unsat ◌*ℤ◌
unsat_chan_runs = refl

unsat_chan_sound_example : Returns (Outcome square certificate) (unsat_chan square certificate)
unsat_chan_sound_example =
    unsat_chan_sound square certificate square-IsValid certificate-CertInRange

unsat_cert_sound_example :
    Returns (Outcome square certificate) (unsat_cert square certificate false)
unsat_cert_sound_example =
    unsat_cert_sound square certificate false square-IsValid certificate-CertInRange

-- A solver that refutes the square by that certificate.
abbrev square_run : SolverRun
square_run = record { trivially_unsat = false; certificate = certificate; sat = false }

square_run-SoundRun : SoundRun 2 square.clauses square_run
square_run-SoundRun = record {
  trivial = λ e. absurd (false≢true e);
  in_range = certificate-CertInRange;
  ends = λ e. certificate-DerivesEmpty;
}

unsat_subset_sound_example :
    Returns
      (λ r.
        IsUnsatSubset square.clauses r.0
        × (r.1.clauses ≡ square.clauses)
        × (r.1.units ≡ square.units))
      (unsat_subset square square_run)
unsat_subset_sound_example = unsat_subset_sound square square_run square-IsValid square_run-SoundRun
