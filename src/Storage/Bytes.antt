-- ===== src/Storage/Bytes.antt =====
-- `std::memcpy` between buffers, and the bytes at an address as a list.
use memfd_buffer_backend.Prelude.{
  ℕ, zero, suc, ◌+◌, ◌-◌, ◌≡◌, ◌<◌, ◌≤◌, ◌⊎◌, refl, ap, ◌∙◌, ◌&&◌, List, [], ◌∷◌, Option, none,
  some, ltb, leb, arith, if◌then◌else◌,
}

unfoldable pub copy_bytes : (ℕ → ℕ) → ℕ → ℕ → ℕ → ℕ → ℕ
copy_bytes bytes to from n x =
    if leb to x && ltb x (to + n) then bytes (from + (x - to)) else bytes x

-- With a null pointer the source's call is undefined; here it copies nothing.
unfoldable pub memcpy : (ℕ → ℕ) → Option ℕ → Option ℕ → ℕ → ℕ → ℕ
unfolding copy_bytes
memcpy bytes (some to) (some from) n = copy_bytes bytes to from n
memcpy bytes none from n = bytes
memcpy bytes (some to) none n = bytes

unfoldable pub load : (ℕ → ℕ) → ℕ → ℕ → List ℕ
load bytes a zero = []
load bytes a (suc n) = bytes a ∷ load bytes (suc a) n

unfoldable pub load_at : (ℕ → ℕ) → Option ℕ → ℕ → List ℕ
unfolding load
load_at bytes none n = []
load_at bytes (some a) n = load bytes a n

pub load-agree :
    (f g : ℕ → ℕ) (a b n : ℕ) → ((k : ℕ) → k < n → f (a + k) ≡ g (b + k)) → load f a n ≡ load g b n
unfolding load
load-agree f g a b zero e = refl
load-agree f g a b (suc n) e =
    let head : f a ≡ g b = ap f (omega arith) ∙ e 0 (omega arith) ∙ ap g (omega arith) in
    let tail : load f (suc a) n ≡ load g (suc b) n =
      load-agree f g (suc a) (suc b) n
        (λ k lt. ap f (omega arith) ∙ e (suc k) (omega arith) ∙ ap g (omega arith)) in
    cc

pub copy_bytes-inside :
    (bytes : ℕ → ℕ) (to from n k : ℕ)
    → k < n
    → copy_bytes bytes to from n (to + k) ≡ bytes (from + k)
unfolding copy_bytes
copy_bytes-inside bytes to from n k inside = ground arith

-- What was copied is read back.
pub load-copy_bytes :
    (bytes : ℕ → ℕ) (to from n : ℕ) → load (copy_bytes bytes to from n) to n ≡ load bytes from n
unfolding copy_bytes
load-copy_bytes bytes to from n =
    load-agree (copy_bytes bytes to from n) bytes to from n (copy_bytes-inside bytes to from n)

-- Outside its target a copy changes nothing.
pub copy_bytes-away :
    (bytes : ℕ → ℕ) (to from n x : ℕ)
    → (x < to) ⊎ (to + n ≤ x)
    → copy_bytes bytes to from n x ≡ bytes x
unfolding copy_bytes
copy_bytes-away bytes to from n x away = ground (arith, away)
