-- ===== src/Solver/Luby/Sequence.antt =====
-- luby computes the sequence that is built by writing it twice and then the next power of two.
use gophersat.Prelude.{
  ℕ, zero, suc, ◌+◌, ◌-◌, ◌*◌, ◌^◌, ◌<◌, ◌≤◌, ◌≡◌, refl, sym, ap, ◌∙◌, true, false, ◌&&◌, none,
  some, List, [], ◌∷◌, ◌++◌, length, get_elem?, get_elem?-append, get_elem?-append_right,
  get_elem?-lt, length-append, ltb, ltb→lt, leb, ◌==◌, ==→eq, Bool-cases, ◌⊎◌, inl, inr, arith,
}
use native.Mathlib.Nat.{pow-le-pow_right}
use gophersat.Prelude.Run.{ok}
use gophersat.Solver.Luby.{end_of_row, find_row, luby}

-- 1, 1 1 2, 1 1 2 1 1 2 4, and so on.
abbrev pub row : ℕ → List ℕ
row zero = []
row (suc p) = row p ++ (row p ++ 2 ^ p ∷ [])

pow_le : (j k : ℕ) → j ≤ k → 2 ^ j ≤ 2 ^ k
pow_le j k h = pow-le-pow_right (omega arith) h

pow_pos : (k : ℕ) → 1 ≤ 2 ^ k
pow_pos k = pow_le 0 k (omega arith)

pow_twice : (k : ℕ) → 2 ^ (k + 1) ≡ 2 * 2 ^ k
pow_twice k = let z : k + 1 ≡ suc k = omega arith in rw z (omega arith)

length-row : (p : ℕ) → length (row p) + 1 ≡ 2 ^ p
length-row zero = omega arith
length-row (suc p) = omega (
  arith,
  length-row p,
  length-append (row p) (row p ++ 2 ^ p ∷ []),
  length-append (row p) (2 ^ p ∷ []),
)

-- Between two powers of two there is none.
end_of_row-none : (left k i p : ℕ) → 2 ^ p ≤ i → i + 1 < 2 ^ (p + 1) → end_of_row left k i ≡ none
unfolding end_of_row
end_of_row-none zero k i p lo hi = refl
end_of_row-none (suc left) k i p lo hi =
    let miss : (i == 2 ^ k - 1) ≡ false = apart (Bool-cases (leb k p)) in
    rw miss (end_of_row-none left (k + 1) i p lo hi)
  where
    apart : (leb k p ≡ true) ⊎ (leb k p ≡ false) → (i == 2 ^ k - 1) ≡ false
    apart (inl small) =
        let h = pow_le k p (ground arith) in
        let one = pow_pos p in let any = pow_pos k in ground arith
    apart (inr large) = let h = pow_le (p + 1) k (ground arith) in ground arith

end_of_row-some :
    (left k i p : ℕ)
    → i + 1 ≡ 2 ^ (p + 1)
    → k ≤ p + 1
    → p + 1 < k + left
    → end_of_row left k i ≡ some (2 ^ p)
unfolding end_of_row
end_of_row-some zero k i p e le lt = absurd (omega arith)
end_of_row-some (suc left) k i p e le lt = elim (Bool-cases (k == p + 1)) [
  | inl here ↦
      let same = ==→eq k (p + 1) here in
      let hit : (i == 2 ^ (p + 1) - 1) ≡ true = ground arith in
      let back : p + 1 - 1 ≡ p = omega arith in rw (same, hit, back) refl
  | inr there ↦
      let h = pow_le (k + 1) (p + 1) (ground arith) in
      let one = pow_pos k in
      let two = pow_twice k in
      let miss : (i == 2 ^ k - 1) ≡ false = ground arith in
      rw miss (end_of_row-some left (k + 1) i p e (ground arith) (omega arith))
]

find_row-ok :
    (fuel k i p : ℕ)
    → 2 ^ p ≤ i
    → i + 1 < 2 ^ (p + 1)
    → 0 < k
    → k ≤ p + 1
    → p + 1 < k + fuel
    → find_row fuel k i ≡ ok (p + 1)
unfolding find_row
find_row-ok zero k i p lo hi pos le lt = absurd (omega arith)
find_row-ok (suc fuel) k i p lo hi pos le lt = elim (Bool-cases (k == p + 1)) [
  | inl here ↦
      let same = ==→eq k (p + 1) here in
      let back : p + 1 - 1 ≡ p = omega arith in
      let hit : (leb (2 ^ p) i && ltb i (2 ^ (p + 1) - 1)) ≡ true = ground arith in
      rw (same, back, hit) refl
  | inr there ↦
      let h = pow_le k p (ground arith) in
      let miss : (leb (2 ^ (k - 1)) i && ltb i (2 ^ k - 1)) ≡ false = ground arith in
      rw miss (find_row-ok fuel (k + 1) i p lo hi (omega arith) (ground arith) (omega arith))
]

luby-ends : (fuel i v : ℕ) → end_of_row 31 1 i ≡ some v → luby (suc fuel) i ≡ ok v
unfolding luby
luby-ends fuel i v e = rw (luby, e) refl

luby-repeats :
    (fuel i k : ℕ)
    → end_of_row 31 1 i ≡ none
    → find_row 63 1 i ≡ ok k
    → luby (suc fuel) i ≡ luby fuel (i - 2 ^ (k - 1) + 1)
unfolding luby
luby-repeats fuel i k e f = rw (luby, e, f) refl

-- For the i-th element of one of the first 31 rows, luby returns it when it is called with i + 1, with as
-- much fuel for its calls as the number of the row.
pub luby-row :
    (p fuel i v : ℕ) → p ≤ 31 → p ≤ fuel → get_elem? (row p) i ≡ some v → luby fuel (i + 1) ≡ ok v
luby-row zero fuel i v small enough e = cc
luby-row (suc p) zero i v small enough e = absurd (omega arith)
luby-row (suc p) (suc fuel) i v small enough e =
    let n = length-row p in
    elim (Bool-cases (ltb i (length (row p)))) [
      | inl first ↦
          luby-row p (suc fuel) i v (omega arith) (omega arith)
            (sym (get_elem?-append (row p) (row p ++ 2 ^ p ∷ []) i (ltb→lt i _ first)) ∙ e)
      | inr behind ↦
          let split : i ≡ length (row p) + (i - length (row p)) = ground arith in
          let shifted =
            sym (get_elem?-append_right (row p) (row p ++ 2 ^ p ∷ []) (i - length (row p)))
            ∙ ap (get_elem? (row (suc p))) (sym split)
            ∙ e in
          second (i - length (row p)) (omega (arith, split)) shifted
            (luby-row p fuel (i - length (row p)) v (omega arith) (omega arith))
    ]
  where
    second :
        (d : ℕ)
        → i ≡ length (row p) + d
        → get_elem? (row p ++ 2 ^ p ∷ []) d ≡ some v
        → (get_elem? (row p) d ≡ some v → luby fuel (d + 1) ≡ ok v)
        → luby (suc fuel) (i + 1) ≡ ok v
    second d at f ih =
        let n = length-row p in
        let two = pow_twice p in
        elim (Bool-cases (ltb d (length (row p)))) [
          | inl again ↦
              let lo : 2 ^ p ≤ i + 1 = omega arith in
              let hi : i + 1 + 1 < 2 ^ (p + 1) = ground arith in
              let back : p + 1 - 1 ≡ p = omega arith in
              let there : i + 1 - 2 ^ p + 1 ≡ d + 1 = omega arith in
              let call =
                ih (sym (get_elem?-append (row p) (2 ^ p ∷ []) d (ltb→lt d _ again)) ∙ f) in
              luby-repeats fuel (i + 1) (p + 1) (end_of_row-none 31 1 (i + 1) p lo hi)
                (find_row-ok 63 1 (i + 1) p lo hi (omega arith) (omega arith) (omega arith))
              ∙ rw (back, there) call
          | inr over ↦
              let lt = get_elem?-lt (row p ++ 2 ^ p ∷ []) d v f in
              let all = length-append (row p) (2 ^ p ∷ []) in
              let end : length (row p) + 0 ≡ d = ground arith in
              let last =
                sym (get_elem?-append_right (row p) (2 ^ p ∷ []) 0)
                ∙ ap (get_elem? (row p ++ 2 ^ p ∷ [])) end
                ∙ f in
              let value : 2 ^ p ≡ v = ap (λ o. elim o [ none ↦ v | some x ↦ x ]) last in
              luby-ends fuel (i + 1) v (
                end_of_row-some 31 1 (i + 1) p (omega arith) (omega arith) (omega arith)
                ∙ ap some value)
        ]
