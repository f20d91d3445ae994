-- ===== src/Pool/Contract.antt =====
-- What the pool promises of its blocks, without headers, buckets or addresses: which blocks there
-- are, how large each is, and which of them are handed out.
pub mod Traces
use memfd_buffer_backend.Prelude.{
  ℕ, ◌+◌, ◌≡◌, ◌≢◌, ◌≤◌, ◌⊎◌, inl, inr, refl, ap, sym, subst, ℕ_discrete, Bool, true, false, List,
  [], ◌∷◌, Option, none, some, ◌==◌, if◌then◌else◌, arith, get_elem?,
}
use memfd_buffer_backend.Errors.{Result, ok, err}
use memfd_buffer_backend.Pool.{Block, Host, Pool, allocate, free, assign_uid, mark_published}

-- The size of a block and whether it is handed out; `none` for a number that names no block.
abbrev pub Ledger : Type 0
Ledger = ℕ → Option (ℕ × Bool)

pub data Event : Type 0 where
  granted : (size index : ℕ) → Event
  returned : (index : ℕ) → Event
  silent : Event

abbrev pub Elsewhere : ℕ → Ledger → Ledger → Type 0
Elsewhere i l m = (j : ℕ) → j ≢ i → m j ≡ l j

-- A grant hands out a new block, or a free one of the size; a return frees one that is handed out.
abbrev pub Permits : Ledger → Event → Ledger → Type 0
Permits l (granted size i) m =
    ((l i ≡ none) ⊎ (l i ≡ some (size, false))) × (m i ≡ some (size, true)) × Elsewhere i l m
Permits l (returned i) m =
    ((size : ℕ) × (l i ≡ some (size, true)) × (m i ≡ some (size, false))) × Elsewhere i l m
Permits l silent m = (j : ℕ) → m j ≡ l j

-- The events, in order, lead from one ledger to another.
abbrev pub Accepts : Ledger → List Event → Ledger → Type 0
Accepts l [] n = (j : ℕ) → n j ≡ l j
Accepts l (e ∷ es) n = (m : Ledger) × Permits l e m × Accepts m es n

-- How often the block `i` was handed out, and given back.
abbrev pub grants : ℕ → List Event → ℕ
grants i [] = 0
grants i (granted size k ∷ es) = (if i == k then 1 else 0) + grants i es
grants i (returned k ∷ es) = grants i es
grants i (silent ∷ es) = grants i es

abbrev pub returns : ℕ → List Event → ℕ
returns i [] = 0
returns i (granted size k ∷ es) = returns i es
returns i (returned k ∷ es) = (if i == k then 1 else 0) + returns i es
returns i (silent ∷ es) = returns i es

abbrev pub used : Option (ℕ × Bool) → ℕ
used none = 0
used (some (size, true)) = 1
used (some (size, false)) = 0

-- The ledger of a pool.
abbrev pub status : Option Block → Option (ℕ × Bool)
status none = none
status (some b) = some (b.payload_size, b.in_use)

abbrev pub ledger : Pool → Ledger
ledger p i = status (get_elem? p.all_blocks i)

-- The calls of the methods that change a block, with any arguments.
pub data Call : Type 0 where
  allocates : (size : ℕ) → Call
  frees : (index : ℕ) → Call
  names : (index : ℕ) → Call
  publishes : (index : ℕ) → Call

abbrev pub granted_by : ℕ → Result ℕ → Event
granted_by size (ok i) = granted size i
granted_by size (err e) = silent

abbrev pub freed_from : ℕ → Option (ℕ × Bool) → Event
freed_from i (some (size, true)) = returned i
freed_from i _ = silent

module _ (host : Host) where
  pub perform : Pool → Call → Event × Pool
  perform p (allocates size) = let (r, q) = allocate host p size in (granted_by size r, q)
  perform p (frees i) = (freed_from i (ledger p i), free p i)
  perform p (names i) = (silent, (assign_uid host p i).1)
  perform p (publishes i) = (silent, mark_published host p i)

  unfoldable pub events : Pool → List Call → List Event
  events p [] = []
  events p (c ∷ cs) = (perform p c).0 ∷ events (perform p c).1 cs

  unfoldable pub after : Pool → List Call → Pool
  after p [] = p
  after p (c ∷ cs) = after (perform p c).1 cs

module _ (l m : Ledger) (i k : ℕ) where
  used-granted :
      (size : ℕ)
      → Permits l (granted size k) m
      → (if i == k then 1 else 0) + used (l i) ≡ used (m i)
  used-granted size (before, has, same) = elim (ℕ_discrete i k) [
    | yes e ↦
        subst (λ j. (if j == k then 1 else 0) + used (l j) ≡ used (m j)) (sym e)
          (elim before [
            | inl new ↦ ground (arith, new, has)
            | inr unused ↦ ground (arith, unused, has)
          ])
    | no other ↦ ground (arith, same i other)
  ]

  used-returned : Permits l (returned k) m → used (l i) ≡ (if i == k then 1 else 0) + used (m i)
  used-returned ((size, was, has), same) = elim (ℕ_discrete i k) [
    | yes e ↦
        subst (λ j. used (l j) ≡ (if j == k then 1 else 0) + used (m j)) (sym e)
          (ground (arith, was, has))
    | no other ↦ ground (arith, same i other)
  ]

-- Of each block, the grants are the returns, and one more where it is handed out and was not.
pub Accepts-balance :
    (l n : Ledger) (es : List Event) (i : ℕ)
    → Accepts l es n
    → grants i es + used (l i) ≡ returns i es + used (n i)
Accepts-balance l n [] i same = omega (arith, ap used (same i))
Accepts-balance l n (granted size k ∷ es) i (m, p, rest) =
    omega (arith, used-granted l m i k size p, Accepts-balance m n es i rest)
Accepts-balance l n (returned k ∷ es) i (m, p, rest) =
    omega (arith, used-returned l m i k p, Accepts-balance m n es i rest)
Accepts-balance l n (silent ∷ es) i (m, same, rest) =
    omega (arith, ap used (same i), Accepts-balance m n es i rest)

pub used-le : (s : Option (ℕ × Bool)) → used s ≤ 1
used-le none = omega arith
used-le (some (size, true)) = omega arith
used-le (some (size, false)) = omega arith
