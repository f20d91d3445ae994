-- ===== src/Storage/Allocation.antt =====
-- What `byte_count` and `allocate_raw` return.
use native.Mathlib.Nat.{le-div_iff_mul-le}
use memfd_buffer_backend.Prelude.{
  ℕ, ◌+◌, ◌-◌, ◌*◌, ◌^◌, ◌≡◌, ◌<◌, ◌↔◌, ◌⊎◌, ltb, true, refl, ap, sym, subst, some, arith, inl, inr,
}
use memfd_buffer_backend.Errors.{Error, Result, ok, err}
use memfd_buffer_backend.Header.{payload_offset}
use memfd_buffer_backend.Pool.{Host, Pool, allocate}
use memfd_buffer_backend.Pool.Allocation.{HandsOut, Refuses, Outcome, allocate-Outcome}
use memfd_buffer_backend.Pool.Consistency.{IsConsistent}
use memfd_buffer_backend.Handles.{SharedBuffer, Process, frees, construct}
use memfd_buffer_backend.Handles.Taking.{new_buffer}
use memfd_buffer_backend.Storage.{
  byte_count, buffer_of, wrap_block, allocate_bytes, allocate_raw, SharedBufferImpl, first_buffer,
  sized_impl,
}

-- `byte_count` returns the product exactly when it is a `std::size_t`.
pub byte_count_iff :
    (size_of count : ℕ)
    → 0 < size_of
    → (n : ℕ) → (byte_count size_of count ≡ ok n) ↔ ((n ≡ count * size_of) × (n < 2 ^ 64))
unfolding byte_count
byte_count_iff size_of count positive n =
    let fits = le-div_iff_mul-le {k = size_of} {x = count} {y = 2 ^ 64 - 1} positive in
    ground (arith, fits)

Result-cases {ℓ} :
    {A : Type ℓ} → (r : Result A) → ((a : A) × (r ≡ ok a)) ⊎ ((x : Error) × (r ≡ err x))
Result-cases (ok a) = inl (a, refl)
Result-cases (err x) = inr (x, refl)

-- The buffer that `allocate_raw` makes of the block `i`, with `n` payload bytes.
pub record MadeBuffer (host : Host) (p : Process) (n : ℕ) (b : SharedBuffer) (q : Process)
    : Type 0 where
  pub index : ℕ
  pub word : n < 2 ^ 64
  pub handed_out : HandsOut host p.pool n index q.pool
  pub is_new :
      b
      ≡ new_buffer
          (handed_out.block.mapping + payload_offset)
          n
          (frees index)
          (some handed_out.address)
          handed_out.block.block_id
          handed_out.block.mapped_size
  pub same_process : q ≡ record p { pool = q.pool }

abbrev pub Made : Host → Process → ℕ → Result SharedBuffer × Process → Type 0
Made host p n (err e, q) = Refuses p.pool q.pool × (q ≡ record p { pool = q.pool })
Made host p n (ok b, q) = MadeBuffer host p n b q

wrap_block-Made :
    (host : Host) (p : Process) (n : ℕ) (r : Result ℕ × Pool)
    → n < 2 ^ 64
    → Outcome host p.pool n r
    → Made host p n (wrap_block p n r)
unfolding wrap_block buffer_of construct
wrap_block-Made host p n (err e, q) word refused = (refused, refl)
wrap_block-Made host p n (ok i, q) word out =
    subst (λ o. Made host p n (buffer_of n i o, record p { pool = q })) (sym out.at)
      (record {
        index = i;
        word = word;
        handed_out = out;
        is_new =
            ap
              (λ c.
                new_buffer (out.block.mapping + payload_offset) n (frees i) c out.block.block_id
                  out.block.mapped_size)
              out.controlled;
        same_process = refl;
      })

-- Over a consistent pool the call returns a new buffer of a block handed out, or leaves the blocks,
-- the free lists and the headers as they were.
pub allocate_raw-Made :
    (host : Host) (size_of count : ℕ) (p : Process)
    → 0 < size_of
    → IsConsistent p.pool
    → Made host p (count * size_of) (allocate_raw host size_of p count)
unfolding allocate_raw allocate_bytes
allocate_raw-Made host size_of count p positive v = elim (Result-cases (byte_count size_of count)) [
  | inl (n, e) ↦
      let (product, word) = (byte_count_iff size_of count positive n).0 e in
      subst (λ r. Made host p (count * size_of) (allocate_bytes host p r)) (sym e)
        (subst (λ k. Made host p k (wrap_block p n (allocate host p.pool n))) product
          (wrap_block-Made host p n (allocate host p.pool n) word
            (allocate-Outcome host p.pool n v)))
  | inr (x, e) ↦
      subst (λ r. Made host p (count * size_of) (allocate_bytes host p r)) (sym e)
        (record { same_blocks = refl; same_free = refl; same_headers = λ a. refl }, refl)
]

-- The same of the constructor from a size.
abbrev pub MadeImpl : Host → Process → ℕ → ℕ → Result SharedBufferImpl × Process → Type 0
MadeImpl host p size n (err e, q) = Refuses p.pool q.pool
MadeImpl host p size n (ok impl, q) = (impl.size ≡ size) × MadeBuffer host p n impl.shared_buffer q

first_buffer-Made :
    (host : Host) (p : Process) (size n : ℕ) (r : Result SharedBuffer × Process)
    → Made host p n r
    → MadeImpl host p size n (first_buffer size r)
unfolding first_buffer
first_buffer-Made host p size n (err e, q) (refused, same) = refused
first_buffer-Made host p size n (ok b, q) m = (refl, m)

pub sized_impl-Made :
    (host : Host) (size_of size : ℕ) (p : Process)
    → 0 < size_of
    → 0 < size
    → IsConsistent p.pool
    → MadeImpl host p size (size * size_of) (sized_impl host size_of p size)
unfolding sized_impl
sized_impl-Made host size_of size p unit filled v =
    let nonempty : ltb 0 size ≡ true = ground arith in
    rw (sized_impl, nonempty)
      (first_buffer-Made host p size (size * size_of) (allocate_raw host size_of p size)
        (allocate_raw-Made host size_of size p unit v))
