-- ===== src/Pool/Vector.antt =====
-- The removal from a vector in `allocate` of shared_buffer_memory_pool.cpp, and what it does to the
-- number of times that an entry occurs.
use memfd_buffer_backend.Prelude.{
  ℕ, zero, suc, ◌+◌, ◌≡◌, refl, ap, List, [], ◌∷◌, ◌++◌, some, arith, get_elem?, set, total,
  total-set, ◌==◌, if◌then◌else◌,
}

-- The last entry of a vector, `d` if it is empty, and the vector without it.
abbrev pub back : List ℕ → ℕ → ℕ
back [] d = d
back (x ∷ xs) d = back xs x

abbrev pub pop_back : List ℕ → List ℕ
pop_back [] = []
pop_back (x ∷ []) = []
pop_back (x ∷ y ∷ xs) = x ∷ pop_back (y ∷ xs)

-- `candidates[i] = candidates.back(); candidates.pop_back();`
abbrev pub swap_remove : List ℕ → ℕ → List ℕ
swap_remove xs i = pop_back (set xs i (back xs 0))

-- 1 at the entry that is counted.
abbrev pub hit : ℕ → ℕ → ℕ
hit x y = if x == y then 1 else 0

abbrev pub count : ℕ → List ℕ → ℕ
count x = total (hit x)

back-set :
    (x : ℕ) (xs : List ℕ) (i d : ℕ) → back (set (x ∷ xs) i (back (x ∷ xs) 0)) d ≡ back (x ∷ xs) 0
back-set x [] zero d = refl
back-set x [] (suc i) d = refl
back-set x (y ∷ ys) zero d = refl
back-set x (y ∷ ys) (suc i) d = back-set y ys i x

total-pop_back :
    (w : ℕ → ℕ) (x : ℕ) (xs : List ℕ) (d : ℕ)
    → total w (pop_back (x ∷ xs)) + w (back (x ∷ xs) d) ≡ total w (x ∷ xs)
unfolding total
total-pop_back w x [] d = omega arith
total-pop_back w x (y ∷ ys) d = omega (arith, total-pop_back w y ys x)

pub total-append : (w : ℕ → ℕ) (xs ys : List ℕ) → total w (xs ++ ys) ≡ total w xs + total w ys
unfolding total
total-append w [] ys = omega arith
total-append w (x ∷ xs) ys = omega (arith, total-append w xs ys)

-- The removal takes out the entry at `i` once, and nothing else.
pub total-swap_remove :
    (w : ℕ → ℕ) (xs : List ℕ) (i : ℕ) {x : ℕ}
    → get_elem? xs i ≡ some x
    → total w (swap_remove xs i) + w x ≡ total w xs
total-swap_remove w [] i h = ground arith
total-swap_remove w (y ∷ ys) zero {x} h = omega (
  arith,
  total-pop_back w (back (y ∷ ys) 0) ys 0,
  ap w (back-set y ys 0 0),
  total-set w (y ∷ ys) 0 (back (y ∷ ys) 0) h,
)
total-swap_remove w (y ∷ ys) (suc i) {x} h = omega (
  arith,
  total-pop_back w y (set ys i (back (y ∷ ys) 0)) 0,
  ap w (back-set y ys (suc i) 0),
  total-set w (y ∷ ys) (suc i) (back (y ∷ ys) 0) h,
)
