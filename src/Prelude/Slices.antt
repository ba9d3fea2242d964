-- ===== src/Prelude/Slices.antt =====
-- Go slices as lists: reads and writes that panic out of range, removal by moving the last element,
-- and what removal does to a test of some or of all elements.
use gophersat.Prelude.{
  ℕ, zero, suc, ◌+◌, ◌<◌, ◌≡◌, refl, ap, Bool, true, false, ◌&&◌, ◌||◌, some, List, [], ◌∷◌, length,
  get_elem?, get_elem?-some, set, ltb, arith, if◌then◌else◌,
}
use gophersat.Prelude.Run.{Run, ok, panic, or_panic, Returns, returns, Returns-if}

-- xs[i]
abbrev pub load {ℓ} : {A : Type ℓ} → List A → ℕ → Run A
load xs i = or_panic (get_elem? xs i)

-- xs[i] = v
abbrev pub store {ℓ} : {A : Type ℓ} → List A → ℕ → A → Run (List A)
store xs i v = if ltb i (length xs) then ok (set xs i v) else panic

pub store-Returns {ℓ κ} :
    {A : Type ℓ} {P : List A → Type κ} (xs : List A) (k : ℕ) (v : A)
    → k < length xs
    → P (set xs k v)
    → Returns P (store xs k v)
store-Returns xs k v lt h =
    Returns-if (ltb k (length xs)) (λ e. returns h) (λ e. absurd (ground arith))

module _ {ℓ} {A : Type ℓ} where
  pub load-ok :
      (xs : List A) (i : ℕ)
      → i < length xs
      → (x : A) × (get_elem? xs i ≡ some x) × (load xs i ≡ ok x)
  load-ok xs i h = let (x, e) = get_elem?-some xs i h in (x, e, rw e)

  -- The last element of x ∷ xs, and those before it.
  unfoldable pub last_of : A → List A → A
  last_of x [] = x
  last_of x (y ∷ ys) = last_of y ys

  unfoldable pub init_of : A → List A → List A
  init_of x [] = []
  init_of x (y ∷ ys) = x ∷ init_of y ys

  -- xs[i] = xs[len(xs)-1]; xs = xs[:len(xs)-1]
  unfoldable pub swap_remove : List A → ℕ → List A
  unfolding last_of init_of
  swap_remove [] i = []
  swap_remove (x ∷ []) zero = []
  swap_remove (x ∷ y ∷ ys) zero = last_of y ys ∷ init_of y ys
  swap_remove (x ∷ xs) (suc i) = x ∷ swap_remove xs i

  length-init_of : (x : A) (xs : List A) → length (init_of x xs) ≡ length xs
  unfolding init_of
  length-init_of x [] = refl
  length-init_of x (y ∷ ys) = ap suc (length-init_of y ys)

  pub length-swap_remove :
      (xs : List A) (i : ℕ) → i < length xs → length (swap_remove xs i) + 1 ≡ length xs
  unfolding swap_remove
  length-swap_remove [] i h = absurd (omega arith)
  length-swap_remove (x ∷ []) zero h = omega arith
  length-swap_remove (x ∷ y ∷ ys) zero h = omega (arith, length-init_of y ys)
  length-swap_remove (x ∷ []) (suc i) h = absurd (omega arith)
  length-swap_remove (x ∷ y ∷ ys) (suc i) h =
      omega (arith, length-swap_remove (y ∷ ys) i (omega arith))

  pub get_elem?-swap_remove :
      (xs : List A) (i j : ℕ)
      → j < i
      → i < length xs
      → get_elem? (swap_remove xs i) j ≡ get_elem? xs j
  unfolding swap_remove
  get_elem?-swap_remove [] i j lt h = absurd (omega arith)
  get_elem?-swap_remove (x ∷ xs) zero j lt h = absurd (omega arith)
  get_elem?-swap_remove (x ∷ []) (suc i) j lt h = absurd (omega arith)
  get_elem?-swap_remove (x ∷ y ∷ ys) (suc i) zero lt h = refl
  get_elem?-swap_remove (x ∷ y ∷ ys) (suc i) (suc j) lt h =
      get_elem?-swap_remove (y ∷ ys) i j (omega arith) (omega arith)

  module _ (p : A → Bool) where
    abbrev pub some_of : List A → Bool
    some_of [] = false
    some_of (x ∷ xs) = p x || some_of xs

    abbrev pub each_of : List A → Bool
    each_of [] = true
    each_of (x ∷ xs) = p x && each_of xs

    some_of-last :
        (x : A) (xs : List A) → some_of (x ∷ xs) ≡ (p (last_of x xs) || some_of (init_of x xs))
    unfolding last_of init_of
    some_of-last x [] = refl
    some_of-last x (y ∷ ys) = ground (arith, some_of-last y ys)

    each_of-last :
        (x : A) (xs : List A) → each_of (x ∷ xs) ≡ (p (last_of x xs) && each_of (init_of x xs))
    unfolding last_of init_of
    each_of-last x [] = refl
    each_of-last x (y ∷ ys) = ground (arith, each_of-last y ys)

    -- The test without the element that is removed.
    pub some_of-swap_remove :
        (xs : List A) (i : ℕ) (x : A)
        → get_elem? xs i ≡ some x
        → some_of xs ≡ (p x || some_of (swap_remove xs i))
    unfolding swap_remove
    some_of-swap_remove [] i x e = cc
    some_of-swap_remove (y ∷ []) zero x e = ground arith
    some_of-swap_remove (y ∷ z ∷ zs) zero x e = ground (arith, some_of-last z zs)
    some_of-swap_remove (y ∷ []) (suc i) x e = cc
    some_of-swap_remove (y ∷ z ∷ zs) (suc i) x e =
        ground (arith, some_of-swap_remove (z ∷ zs) i x e)

    pub each_of-swap_remove :
        (xs : List A) (i : ℕ) (x : A)
        → get_elem? xs i ≡ some x
        → each_of xs ≡ (p x && each_of (swap_remove xs i))
    unfolding swap_remove
    each_of-swap_remove [] i x e = cc
    each_of-swap_remove (y ∷ []) zero x e = ground arith
    each_of-swap_remove (y ∷ z ∷ zs) zero x e = ground (arith, each_of-last z zs)
    each_of-swap_remove (y ∷ []) (suc i) x e = cc
    each_of-swap_remove (y ∷ z ∷ zs) (suc i) x e =
        ground (arith, each_of-swap_remove (z ∷ zs) i x e)

    pub some_of-get :
        (xs : List A) (i : ℕ) (x : A) → get_elem? xs i ≡ some x → p x ≡ true → some_of xs ≡ true
    some_of-get [] i x e t = cc
    some_of-get (y ∷ ys) zero x e t = ground arith
    some_of-get (y ∷ ys) (suc i) x e t = ground (arith, some_of-get ys i x e t)

    pub each_of-get :
        (xs : List A) (i : ℕ) (x : A) → each_of xs ≡ true → get_elem? xs i ≡ some x → p x ≡ true
    each_of-get [] i x t e = cc
    each_of-get (y ∷ ys) zero x t e = ground arith
    each_of-get (y ∷ ys) (suc i) x t e = each_of-get ys i x (ground arith) e

    pub each_of-set :
        (xs : List A) (i : ℕ) (x y : A)
        → get_elem? xs i ≡ some x
        → p y ≡ p x
        → each_of (set xs i y) ≡ each_of xs
    each_of-set [] i x y e s = refl
    each_of-set (z ∷ zs) zero x y e s = ground arith
    each_of-set (z ∷ zs) (suc i) x y e s = ground (arith, each_of-set zs i x y e s)
