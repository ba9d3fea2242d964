-- ===== src/Explain/Mus/Units/Tests.antt =====
-- makeMus on two units and a longer clause.
use gophersat.Prelude.{◌≡◌, refl, [], ◌∷◌, List, length, arith}
use gophersat.Prelude.Run.{ok, Returns}
use gophersat.Prelude.Int.{pos, negsuc}
use gophersat.Explain.{Clause, Problem}
use gophersat.Explain.Verdicts.{IsValid}
use gophersat.Explain.Mus.Units.{BindsUnits, make_mus, make_units, make_mus-IsValid}

abbrev three : List Clause
three = (pos 2 ∷ []) ∷ (negsuc 0 ∷ []) ∷ (pos 1 ∷ negsuc 1 ∷ []) ∷ []

make_three :
    make_mus 2 three
    ≡ ok (record {
      clauses = three;
      nb_vars = 2;
      nb_clauses = 3;
      units = negsuc 0 ∷ pos 1 ∷ [];
      tagged = [];
    })
unfolding make_mus make_units
make_three = refl

make_mus-IsValid_example :
    Returns
      (λ (mus : Problem).
        (mus.clauses ≡ three) × (length mus.units ≡ 2) × IsValid mus × BindsUnits three mus.units)
      (make_mus 2 three)
make_mus-IsValid_example = make_mus-IsValid 2 three (omega arith)
