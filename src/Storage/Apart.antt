-- ===== src/Storage/Apart.antt =====
-- The payload of a new buffer, and those of the blocks in use.
use memfd_buffer_backend.Prelude.{
  ℕ, ◌+◌, ◌≡◌, ◌≢◌, ◌<◌, inl, inr, refl, ap, sym, ◌∙◌, true, some, arith, get_elem?, lt-length,
  subst, ◌*◌, ltb, Bool-cases,
}
use memfd_buffer_backend.Header.{payload_offset}
use memfd_buffer_backend.Pool.{Block, Host, Pool, allocate}
use memfd_buffer_backend.Pool.Allocation.{Origin}
use memfd_buffer_backend.Pool.Consistency.{IsConsistent, IsApart, MapsApart, allocate-IsConsistent}
use memfd_buffer_backend.Handles.{SharedBuffer, Process}
use memfd_buffer_backend.Storage.Allocation.{Made, allocate_raw-Made}
use memfd_buffer_backend.Storage.{
  byte_count, wrap_block, allocate_bytes, allocate_raw, first_buffer, sized_impl,
}
use memfd_buffer_backend.Errors.{Result, ok, err}

-- A block that was in use is not handed out.
used_other :
    (host : Host) (p : Pool) (size i j : ℕ) (c : Block)
    → Origin host p size i
    → get_elem? p.all_blocks j ≡ some c
    → c.in_use ≡ true
    → j ≢ i
used_other host p size i j c (inl (b, at, unused, sized, reusable)) at_j used e =
    let same : some c ≡ some b = sym at_j ∙ ap (λ k. get_elem? p.all_blocks k) e ∙ at in absurd (cc)
used_other host p size i j c (inr last) at_j used e =
    omega (arith, lt-length p.all_blocks j at_j, last, e)

-- The payload of a new buffer lies apart from the mapping of the block `c`.
abbrev pub Apart : Block → ℕ → Result SharedBuffer × Process → Type 0
Apart c n (err e, q) = Unit
Apart c n (ok b, q) =
    (d : ℕ) × ((b.data_ptr ≡ some d) × (b.size ≡ n) × IsApart c.mapping c.mapped_size d n)

Made-Apart :
    (host : Host) (p : Process) (n j : ℕ) (c : Block) (r : Result SharedBuffer × Process)
    → Made host p n r
    → IsConsistent r.1.pool
    → get_elem? p.pool.all_blocks j ≡ some c
    → c.in_use ≡ true
    → Apart c n r
Made-Apart host p n j c (err e, q) m v at used = tt
Made-Apart host p n j c (ok b, q) m v at used =
    let o = m.handed_out in
    let other = used_other host p.pool n m.index j c o.origin at used in
    let shaped = v.shaped m.index o.block o.at in
    let apart = v.apart j m.index c o.block (o.other_blocks j other ∙ at) o.at other in
    (
      o.block.mapping + payload_offset,
      (
        ap (λ x. x.data_ptr) m.is_new,
        ap (λ x. x.size) m.is_new,
        ground (arith, apart, shaped.mapped, o.sized),
      ),
    )

wrap_block-pool : (p : Process) (n : ℕ) (r : Result ℕ × Pool) → (wrap_block p n r).1.pool ≡ r.1
unfolding wrap_block
wrap_block-pool p n (ok i, q) = refl
wrap_block-pool p n (err e, q) = refl

allocate_bytes-IsConsistent :
    (host : Host) (p : Process) (r : Result ℕ)
    → IsConsistent p.pool
    → MapsApart host p.pool
    → IsConsistent (allocate_bytes host p r).1.pool
unfolding allocate_bytes
allocate_bytes-IsConsistent host p (err e) v apart = v
allocate_bytes-IsConsistent host p (ok n) v apart =
    subst IsConsistent (sym (wrap_block-pool p n (allocate host p.pool n)))
      (allocate-IsConsistent host p.pool n v apart)

-- In a consistent pool whose new mappings lie apart, the payload of a new buffer lies apart from the
-- mapping of every block in use: `memcpy` copies between payloads that do not overlap, and no write
-- to the new buffer reaches another one.
pub allocate_raw-Apart :
    (host : Host) (size_of count : ℕ) (p : Process) (j : ℕ) (c : Block)
    → 0 < size_of
    → IsConsistent p.pool
    → MapsApart host p.pool
    → get_elem? p.pool.all_blocks j ≡ some c
    → c.in_use ≡ true
    → Apart c (count * size_of) (allocate_raw host size_of p count)
unfolding allocate_raw
allocate_raw-Apart host size_of count p j c unit v apart at used =
    Made-Apart host p (count * size_of) j c (allocate_raw host size_of p count)
      (allocate_raw-Made host size_of count p unit v)
      (allocate_bytes-IsConsistent host p (byte_count size_of count) v apart) at used

first_buffer-pool :
    (size : ℕ) (r : Result SharedBuffer × Process) → (first_buffer size r).1.pool ≡ r.1.pool
unfolding first_buffer
first_buffer-pool size (ok b, p) = refl
first_buffer-pool size (err e, p) = refl

-- The constructor from a size keeps the pool consistent.
pub sized_impl-IsConsistent :
    (host : Host) (size_of size : ℕ) (p : Process)
    → IsConsistent p.pool
    → MapsApart host p.pool
    → IsConsistent (sized_impl host size_of p size).1.pool
unfolding sized_impl allocate_raw
sized_impl-IsConsistent host size_of size p v apart = elim (Bool-cases (ltb 0 size)) [
  | inr empty ↦ rw (sized_impl, empty) v
  | inl filled ↦
      rw (sized_impl, filled)
        (subst IsConsistent (sym (first_buffer-pool size (allocate_raw host size_of p size)))
          (allocate_bytes-IsConsistent host p (byte_count size_of size) v apart))
]
