-- ===== src/Solver/Counting.antt =====
-- solver/solver.go: countCurrentModels, which counts the total assignments that extend a partial one.
mod Tests
use gophersat.Prelude.{
  ℕ, zero, suc, ◌+◌, ◌-◌, ◌*◌, ◌/◌, ◌%◌, ◌^◌, ◌<◌, ◌≤◌, ◌≡◌, refl, sym, ap, ◌∙◌, Bool, true, false,
  List, [], ◌∷◌, ◌++◌, map, length, ltb, arith, if◌then◌else◌, length-append, Bool-cases, inl, inr,
}
use native.Mathlib.Nat.{add-mul-mod_self_left, add-mul, mul_assoc}
use gophersat.Prelude.Int.{ℤ, pos, neg, ltb_ℤ, ◌==ℤ◌}

-- int(x), for a uint64 x.
unfoldable pub to_int : ℕ → ℤ
to_int x = if ltb x (2 ^ 63) then pos x else neg (pos (2 ^ 64 - x))

-- The loop over the last model, with the number so far.
unfoldable pub count_loop : ℕ → List ℤ → ℕ
count_loop nb [] = nb
count_loop nb (lvl ∷ model) =
    let doubled = count_loop (nb * 2 % 2 ^ 64) model in
    let kept = count_loop nb model in if lvl ==ℤ pos 0 then doubled else kept

unfoldable pub count_current_models : List ℤ → ℤ
unfolding count_loop to_int
count_current_models last_model = to_int (count_loop 1 last_model)

-- The total assignments that extend the bindings.
abbrev pub completions : List ℤ → List (List Bool)
completions [] = [] ∷ []
completions (lvl ∷ model) =
    let rest = completions model in
    if lvl ==ℤ pos 0
    then map (◌∷◌ false) rest ++ map (◌∷◌ true) rest
    else map (◌∷◌ (ltb_ℤ (pos 0) lvl)) rest

length-map : {A B : Type 0} (f : A → B) (xs : List A) → length (map f xs) ≡ length xs
length-map f [] = refl
length-map f (x ∷ xs) = ap suc (length-map f xs)

mod_times : (x k : ℕ) → x % 2 ^ 64 * k % 2 ^ 64 ≡ x * k % 2 ^ 64
mod_times x k =
    let split : x ≡ x % 2 ^ 64 + 2 ^ 64 * (x / 2 ^ 64) = omega arith in
    sym (
      ap (λ y. y * k % 2 ^ 64) split
      ∙ ap (λ y. y % 2 ^ 64)
          (add-mul (x % 2 ^ 64) (2 ^ 64 * (x / 2 ^ 64)) k
            ∙ ap (λ y. x % 2 ^ 64 * k + y) (mul_assoc (2 ^ 64) (x / 2 ^ 64) k))
      ∙ add-mul-mod_self_left (x % 2 ^ 64 * k) (2 ^ 64) (x / 2 ^ 64 * k))

twice_lem : (nb k : ℕ) → nb * 2 * k ≡ nb * (k + k)
twice_lem nb k = mul_assoc nb 2 k ∙ ap (λ y. nb * y) (omega arith)

count_loop-completions :
    (nb : ℕ) (model : List ℤ)
    → nb < 2 ^ 64
    → count_loop nb model ≡ nb * length (completions model) % 2 ^ 64
unfolding count_loop
count_loop-completions nb [] h = omega arith
count_loop-completions nb (lvl ∷ model) h = elim (Bool-cases (lvl ==ℤ pos 0)) [
  | inl free ↦
      rw
        (
          free,
          length-append (map (◌∷◌ false) (completions model)) (map (◌∷◌ true) (completions model)),
          length-map (◌∷◌ false) (completions model),
          length-map (◌∷◌ true) (completions model),
        )
        (count_loop-completions (nb * 2 % 2 ^ 64) model (omega arith)
          ∙ mod_times (nb * 2) (length (completions model))
          ∙ ap (λ y. y % 2 ^ 64) (twice_lem nb (length (completions model))))
  | inr bound ↦
      rw (bound, length-map (◌∷◌ (ltb_ℤ (pos 0) lvl)) (completions model))
        (count_loop-completions nb model h)
]

-- countCurrentModels gives the number of total assignments that extend the last model if there are
-- fewer than 2^63 of them, and 0 if their number is a multiple of 2^64.
pub count_current_models_lem :
    (last_model : List ℤ)
    → (length (completions last_model) < 2 ^ 63
        → count_current_models last_model ≡ pos (length (completions last_model)))
      × ((k : ℕ)
          → length (completions last_model) ≡ 2 ^ 64 * k
          → count_current_models last_model ≡ pos 0)
unfolding count_current_models
count_current_models_lem last_model =
    let counted = count_loop-completions 1 last_model (omega arith) in
    (
      λ few. rw counted (small (length (completions last_model)) few),
      λ k e. rw (counted, e) (wrapped k),
    )
  where
    small : (n : ℕ) → n < 2 ^ 63 → to_int (1 * n % 2 ^ 64) ≡ pos n
    small n h = ground arith

    wrapped : (k : ℕ) → to_int (1 * (2 ^ 64 * k) % 2 ^ 64) ≡ pos 0
    wrapped k = let z : 1 * (2 ^ 64 * k) % 2 ^ 64 ≡ 0 = omega arith in rw z refl
