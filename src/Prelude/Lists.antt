-- ===== src/Prelude/Lists.antt =====
-- Lists indexed by native numbers, and sums of a weight over a list.
use Prim.Native.Nat.{ℕ, zero, suc, ◌+◌, ◌≤◌, ◌<◌}
use mathlib.Core.Path.{◌≡◌, refl, ap}
use mathlib.Core.Logic.{◌⊎◌}
use mathlib.Core.List.{List, [], ◌∷◌, ◌++◌}
use mathlib.Core.Option.{Option, none, some}
use native.Mathlib.Omega.{arith}
use memfd_buffer_backend.Prelude.Tests.{◌==◌, if◌then◌else◌}

module _ {ℓ} {A : Type ℓ} where
  abbrev pub length : List A → ℕ
  length [] = 0
  length (x ∷ xs) = suc (length xs)

  abbrev pub get_elem? : List A → ℕ → Option A
  get_elem? [] i = none
  get_elem? (x ∷ xs) zero = some x
  get_elem? (x ∷ xs) (suc i) = get_elem? xs i

  -- A write out of bounds changes nothing.
  abbrev pub set : List A → ℕ → A → List A
  set [] i v = []
  set (x ∷ xs) zero v = v ∷ xs
  set (x ∷ xs) (suc i) v = x ∷ set xs i v

  abbrev pub replicate : ℕ → A → List A
  replicate zero a = []
  replicate (suc n) a = a ∷ replicate n a

  -- The sum of a weight over the entries.
  unfoldable pub total : (A → ℕ) → List A → ℕ
  total w [] = 0
  total w (x ∷ xs) = w x + total w xs

  pub get_elem?-set :
      (xs : List A) (i j : ℕ) (v : A) {x : A}
      → get_elem? xs i ≡ some x
      → get_elem? (set xs i v) j ≡ (if i == j then some v else get_elem? xs j)
  get_elem?-set [] i j v h = ground arith
  get_elem?-set (x ∷ xs) zero zero v h = refl
  get_elem?-set (x ∷ xs) zero (suc j) v h = ground arith
  get_elem?-set (x ∷ xs) (suc i) zero v h = ground arith
  get_elem?-set (x ∷ xs) (suc i) (suc j) v h = ground (arith, get_elem?-set xs i j v h)

  -- An entry after the replacement is the new one or an old one.
  pub get_elem?-set_cases :
      (xs : List A) (i j : ℕ) (v : A) {x y : A}
      → get_elem? xs i ≡ some x
      → get_elem? (set xs i v) j ≡ some y
      → (v ≡ y) ⊎ (get_elem? xs j ≡ some y)
  get_elem?-set_cases xs i j v h at = ground (arith, get_elem?-set xs i j v h)

  -- Replacing one entry moves the sum by the difference of its weights.
  pub total-set :
      (w : A → ℕ) (xs : List A) (i : ℕ) (v : A) {x : A}
      → get_elem? xs i ≡ some x
      → total w (set xs i v) + w x ≡ total w xs + w v
  unfolding total
  total-set w [] i v h = ground arith
  total-set w (y ∷ xs) zero v h = ground arith
  total-set w (y ∷ xs) (suc i) v h = omega (arith, total-set w xs i v h)

  pub le-total :
      (w : A → ℕ) (xs : List A) (i : ℕ) {x : A} → get_elem? xs i ≡ some x → w x ≤ total w xs
  unfolding total
  le-total w [] i h = ground arith
  le-total w (y ∷ xs) zero h = ground arith
  le-total w (y ∷ xs) (suc i) h = omega (arith, le-total w xs i h)

  pub get_elem?-replicate :
      (n : ℕ) (a : A) (i : ℕ) (x : A) → get_elem? (replicate n a) i ≡ some x → a ≡ x
  get_elem?-replicate zero a i x h = cc
  get_elem?-replicate (suc n) a zero x h = ground arith
  get_elem?-replicate (suc n) a (suc i) x h = get_elem?-replicate n a i x h

  pub total-replicate_zero : (w : A → ℕ) (n : ℕ) (a : A) → w a ≡ 0 → total w (replicate n a) ≡ 0
  unfolding total
  total-replicate_zero w zero a h = refl
  total-replicate_zero w (suc n) a h = omega (arith, total-replicate_zero w n a h)

  pub get_elem?-append_last :
      (xs : List A) (y : A) (i : ℕ)
      → get_elem? (xs ++ y ∷ []) i ≡ (if i == length xs then some y else get_elem? xs i)
  get_elem?-append_last [] y zero = refl
  get_elem?-append_last [] y (suc i) = ground arith
  get_elem?-append_last (x ∷ xs) y zero = ground arith
  get_elem?-append_last (x ∷ xs) y (suc i) = ground (arith, get_elem?-append_last xs y i)

  pub set-append_last : (xs : List A) (y z : A) → set (xs ++ y ∷ []) (length xs) z ≡ xs ++ z ∷ []
  set-append_last [] y z = refl
  set-append_last (x ∷ xs) y z = ap (◌∷◌ x) (set-append_last xs y z)

  pub lt-length : (xs : List A) (i : ℕ) {x : A} → get_elem? xs i ≡ some x → i < length xs
  lt-length [] i h = cc
  lt-length (x ∷ xs) zero h = omega arith
  lt-length (x ∷ xs) (suc i) h = omega (arith, lt-length xs i h)

  pub get_elem?-length : (xs : List A) → get_elem? xs (length xs) ≡ none
  get_elem?-length [] = refl
  get_elem?-length (x ∷ xs) = get_elem?-length xs

  pub get_elem?-append_length :
      (xs : List A) (y : A) → get_elem? (xs ++ y ∷ []) (length xs) ≡ some y
  get_elem?-append_length [] y = refl
  get_elem?-append_length (x ∷ xs) y = get_elem?-append_length xs y
