-- ===== src/Storage/Resizing.antt =====
-- What `resize` leaves where it copies: the common prefix, in a buffer that cannot be written.
use native.Mathlib.Nat.{mod-eq_of_lt, mul-pos, mul-le-mul_right}
use memfd_buffer_backend.Prelude.{
  Bool-cases, inl, inr, ℕ, ◌+◌, ◌*◌, ◌^◌, ◌≡◌, ◌<◌, ◌≤◌, ◌⊎◌, ltb, not, true, false, ◌≢◌, refl, ap,
  sym, subst, ◌∙◌, Option, some, arith, ◌==◌, ◌&&◌,
}
use memfd_buffer_backend.Errors.{Result, ok, err, write_finalized}
use memfd_buffer_backend.Header.{payload_offset}
use memfd_buffer_backend.Pool.{Host}
use memfd_buffer_backend.Pool.Consistency.{IsConsistent}
use memfd_buffer_backend.Handles.{
  SharedBuffer, Process, finalized, Deleter, reset, assign_buffer, is_null, get_write_handle, frees,
}
use memfd_buffer_backend.Handles.Exclusion.{HasWords}
use memfd_buffer_backend.Handles.Taking.{get_write_handle-finalized, new_buffer, IsMade}
use memfd_buffer_backend.Handles.Released.{reset-states}
use memfd_buffer_backend.Storage.{
  SharedBufferImpl, Heap, with_process, allocate_raw, copy_payload, resize_into, finish_resize,
  resize, smaller,
}
use memfd_buffer_backend.Storage.Allocation.{MadeBuffer, Made, allocate_raw-Made}
use memfd_buffer_backend.Storage.Copies.{SameBuffer, CopyOutcome}
use memfd_buffer_backend.Storage.Bytes.{copy_bytes, copy_bytes-inside, copy_bytes-away}
use memfd_buffer_backend.Storage.Making.{copy_made-Outcome}

-- A buffer of `old` elements at `s` has been resized to `size` elements.
pub record Resized (size_of : ℕ) (h : Heap) (s old size : ℕ) (h' : Heap) (impl' : SharedBufferImpl)
    : Type 0 where
  pub new_size : impl'.size ≡ size
  pub new_bytes : impl'.shared_buffer.size ≡ size * size_of
  pub address : ℕ
  pub located : impl'.shared_buffer.data_ptr ≡ some address
  pub prefix :
      (k : ℕ) → k < size * size_of → k < old * size_of → h'.bytes (address + k) ≡ h.bytes (s + k)
  pub elsewhere : (x : ℕ) → (x < address) ⊎ (address + size * size_of ≤ x) → h'.bytes x ≡ h.bytes x
  pub final : (get_write_handle h'.process impl'.shared_buffer).0 ≡ err write_finalized

abbrev pub ResizeOutcome :
    ℕ → Heap → SharedBufferImpl → ℕ → ℕ → Result (Unit {0}) × (Heap × SharedBufferImpl) → Type 0
ResizeOutcome size_of h impl s size (err e, (h', impl')) =
    (h'.bytes ≡ h.bytes)
    × ((impl'.size ≡ impl.size) × SameBuffer impl.shared_buffer impl'.shared_buffer)
ResizeOutcome size_of h impl s size (ok _, (h', impl')) =
    Resized size_of h s impl.size size h' impl'

smaller-lem :
    (size_of size old k : ℕ)
    → k < size * size_of
    → k < old * size_of
    → k < smaller size old * size_of
smaller-lem size_of size old k here there = elim (Bool-cases (ltb old size)) [
  | inl shorter ↦ rw shorter there
  | inr longer ↦ rw longer here
]

Resized-intro :
    (size_of : ℕ) (h h' : Heap) (s old size d : ℕ) (deleter : Deleter) (control : Option ℕ)
    (block_id mapped_size k : ℕ)
    → 0 < size * size_of
    → h'.bytes ≡ copy_bytes h.bytes d s (smaller size old * size_of)
    → (h'.process.states k).state ≡ finalized
    → Resized size_of h s old size h' (record {
      size = size;
      shared_buffer = record (new_buffer d (size * size_of) deleter control block_id mapped_size) {
        handle_state = some k;
      };
    })
Resized-intro size_of h h' s old size d deleter control block_id mapped_size k positive bytes
      final =
    let n = smaller size old * size_of in
    record {
      new_size = refl;
      new_bytes = refl;
      address = d;
      located = refl;
      prefix = λ i here there.
          ap (λ f. f (d + i)) bytes
          ∙ copy_bytes-inside h.bytes d s n i (smaller-lem size_of size old i here there);
      elsewhere = λ x away.
          ap (λ f. f x) bytes
          ∙ copy_bytes-away h.bytes d s n x (
              ground (
                arith,
                away,
                mul-le-mul_right {m = smaller size old} {n = size} size_of (ground arith),
              ));
      final =
          get_write_handle-finalized h'.process d (size * size_of) deleter control block_id
            mapped_size k positive final;
    }

module _ (host : Host) (size_of : ℕ) (h : Heap) (impl : SharedBufferImpl) (s size : ℕ) where
  finish_resize-Outcome :
      (p : Process) (b : SharedBuffer)
      (r : Result (Unit {0}) × (Heap × (SharedBuffer × SharedBuffer)))
      → 0 < size * size_of
      → (m : MadeBuffer host h.process (size * size_of) b p)
      → CopyOutcome
          (with_process h p)
          impl.shared_buffer
          b
          s
          (m.handed_out.block.mapping + payload_offset)
          (smaller size impl.size * size_of)
          r
      → ResizeOutcome size_of h impl s size (finish_resize impl size r)
  unfolding finish_resize assign_buffer
  finish_resize-Outcome p b (err e, (h', (from', to'))) positive m c = (c.bytes, (refl, c.kept))
  finish_resize-Outcome p b (ok _, (h', (from', to'))) positive m c =
      let o = m.handed_out in
      subst
        (λ t.
          Resized size_of h s impl.size size (with_process h' (reset h'.process from').0)
            (record { size = size; shared_buffer = t }))
        (sym (
          c.new_state
          ∙ ap {A = SharedBuffer} {B = SharedBuffer} (λ x. record x { handle_state = some c.state })
              m.is_new))
        (Resized-intro size_of h (with_process h' (reset h'.process from').0) s impl.size size
          (o.block.mapping + payload_offset) (frees m.index) (some o.address) o.block.block_id
          o.block.mapped_size c.state positive c.bytes
          (ap (λ x. x.state) (reset-states h'.process from' c.state) ∙ c.final))

  resize_into-Outcome :
      (r : Result SharedBuffer × Process)
      → 0 < impl.size
      → 0 < size
      → 0 < size_of
      → Made host h.process (size * size_of) r
      → HasWords h.process
      → impl.shared_buffer.data_ptr ≡ some s
      → IsMade h.process impl.shared_buffer.handle_state
      → ResizeOutcome size_of h impl s size (resize_into host size_of h impl size r)
  unfolding resize_into
  resize_into-Outcome (err e, p) filled larger unit m words located made = (refl, (refl, refl))
  resize_into-Outcome (ok b, p) filled larger unit m words located made =
      let n = smaller size impl.size * size_of in
      let least : 0 < smaller size impl.size = ground arith in
      let positive : 0 < n = mul-pos least unit in
      let word : n < 2 ^ 64 = ground (
        arith,
        mul-le-mul_right {m = smaller size impl.size} {n = size} size_of (ground arith),
        m.word,
      ) in
      let copying : (ltb 0 n && not (is_null impl.shared_buffer.data_ptr)) ≡ true =
        ground (arith, located, positive) in
      let copied : CopyOutcome (with_process h p) impl.shared_buffer b s
          (m.handed_out.block.mapping + payload_offset) n
          (copy_payload (with_process h p) impl.shared_buffer b n) =
        copy_made-Outcome host (with_process h p) h.process impl.shared_buffer b s (size * size_of)
          n (mul-pos larger unit) m words located made in
      rw (resize_into, mod-eq_of_lt word, copying)
        (finish_resize-Outcome p b (copy_payload (with_process h p) impl.shared_buffer b n)
          (mul-pos larger unit) m copied)

  -- In a consistent pool, a resize of a buffer with a payload to another size, not zero, either
  -- throws and leaves the bytes and the buffer as they were, but for its write state, or leaves a
  -- buffer of the new size that has every byte that fits both sizes; no byte outside of the new
  -- buffer has changed. The resized buffer is finalized: it cannot be written.
  pub resize-Outcome :
      0 < size_of
      → 0 < impl.size
      → 0 < size
      → size ≢ impl.size
      → IsConsistent h.process.pool
      → HasWords h.process
      → impl.shared_buffer.data_ptr ≡ some s
      → IsMade h.process impl.shared_buffer.handle_state
      → ResizeOutcome size_of h impl s size (resize host size_of h impl size)
  unfolding resize
  resize-Outcome unit filled larger differs v words located made =
      let other : (size == impl.size) ≡ false = ground arith in
      let nonempty : (size == 0) ≡ false = ground arith in
      rw (resize, other, nonempty)
        (resize_into-Outcome (allocate_raw host size_of h.process size) filled larger unit
          (allocate_raw-Made host size_of size h.process unit v) words located made)
