-- ===== src/Linux/Address.antt =====
-- `unix_address`: the bytes of a path in the fixed array of a socket address.
use memfd_buffer_backend.Prelude.{
  ℕ, zero, suc, ◌-◌, ◌≡◌, ◌≢◌, ◌<◌, ◌≤◌, refl, ap, ◌∙◌, sym, false, List, [], ◌∷◌, ◌++◌, ◌==◌,
  if◌then◌else◌, arith, length, replicate, Bool-cases, inl, inr,
}

-- `strncpy`: at most `n` bytes, up to the first zero; the rest of the `n` bytes are zeros.
strncpy : ℕ → List ℕ → List ℕ
strncpy zero bs = []
strncpy (suc n) [] = replicate (suc n) 0
strncpy (suc n) (b ∷ bs) =
    let rest = strncpy n bs in if b == 0 then replicate (suc n) 0 else b ∷ rest

-- The array was zeroed before, and its last byte is not written.
pub unix_address : ℕ → List ℕ → List ℕ
unfolding strncpy
unix_address sun_path_size path = strncpy (sun_path_size - 1) path ++ 0 ∷ []

-- What the system reads from the array: the bytes up to the first zero.
abbrev pub c_string : List ℕ → List ℕ
c_string [] = []
c_string (b ∷ bs) = if b == 0 then [] else b ∷ c_string bs

length-replicate : (n : ℕ) → length {A = ℕ} (replicate n 0) ≡ n
length-replicate zero = refl
length-replicate (suc n) = ap suc (length-replicate n)

length-snoc : (bs : List ℕ) → length (bs ++ 0 ∷ []) ≡ suc (length bs)
length-snoc [] = refl
length-snoc (b ∷ bs) = ap suc (length-snoc bs)

length-strncpy : (n : ℕ) (bs : List ℕ) → length (strncpy n bs) ≡ n
unfolding strncpy
length-strncpy zero bs = refl
length-strncpy (suc n) [] = length-replicate (suc n)
length-strncpy (suc n) (b ∷ bs) = elim (Bool-cases (b == 0)) [
  | inl nul ↦ rw (strncpy, nul) (length-replicate (suc n))
  | inr other ↦ rw (strncpy, other) (ap suc (length-strncpy n bs))
]

-- No byte of a path is zero.
abbrev pub HasNoNul : List ℕ → Type 0
HasNoNul [] = Unit
HasNoNul (b ∷ bs) = (b ≢ 0) × HasNoNul bs

c_string-strncpy :
    (n : ℕ) (bs : List ℕ) → HasNoNul bs → length bs ≤ n → c_string (strncpy n bs ++ 0 ∷ []) ≡ bs
unfolding strncpy
c_string-strncpy zero [] u fits = refl
c_string-strncpy zero (b ∷ bs) u fits = absurd (omega (arith, fits))
c_string-strncpy (suc n) [] u fits = refl
c_string-strncpy (suc n) (b ∷ bs) (other, us) fits =
    let kept : (b == 0) ≡ false = ground (arith, other) in
    rw (strncpy, kept) (rw kept (ap (b ∷◌) (c_string-strncpy n bs us (omega (arith, fits)))))

-- For a path without zero bytes that is shorter than the array, the address is as long as the array,
-- and the system reads the path back from it.
pub unix_address-c_string :
    (sun_path_size : ℕ) (path : List ℕ)
    → HasNoNul path
    → length path < sun_path_size
    → (length (unix_address sun_path_size path) ≡ sun_path_size)
      × (c_string (unix_address sun_path_size path) ≡ path)
unfolding unix_address
unix_address-c_string n path no_nul short =
    let copied = length-strncpy (n - 1) path in
    let ended = length-snoc (strncpy (n - 1) path) in
    (
      omega (arith, copied, ended, short),
      c_string-strncpy (n - 1) path no_nul (omega (arith, short)),
    )

-- Two such paths with the same address are the same.
pub unix_address-injective :
    (n : ℕ) (p q : List ℕ)
    → HasNoNul p
    → HasNoNul q
    → length p < n
    → length q < n
    → unix_address n p ≡ unix_address n q
    → p ≡ q
unix_address-injective n p q no_p no_q short_p short_q same =
    sym (unix_address-c_string n p no_p short_p).1
    ∙ ap c_string same
    ∙ (unix_address-c_string n q no_q short_q).1
