-- ===== src/Storage/Cloning.antt =====
-- What `clone` returns, on every branch.
use native.Mathlib.Nat.{mod-eq_of_lt, mul-pos}
use memfd_buffer_backend.Prelude.{
  ℕ, ◌+◌, ◌*◌, ◌≡◌, ◌<◌, ltb, true, refl, ap, sym, subst, ◌∙◌, some, arith,
}
use memfd_buffer_backend.Errors.{Result, ok, err}
use memfd_buffer_backend.Header.{payload_offset}
use memfd_buffer_backend.Pool.{Host}
use memfd_buffer_backend.Pool.Consistency.{IsConsistent}
use memfd_buffer_backend.Handles.{SharedBuffer, Process, frees}
use memfd_buffer_backend.Handles.Exclusion.{HasWords}
use memfd_buffer_backend.Handles.Taking.{IsMade}
use memfd_buffer_backend.Storage.{
  SharedBufferImpl, Heap, with_process, allocate_raw, copy_payload, first_buffer, sized_impl,
  clone_into, finish_clone, clone,
}
use memfd_buffer_backend.Storage.Allocation.{MadeBuffer, Made, allocate_raw-Made}
use memfd_buffer_backend.Storage.Copies.{CopyOutcome}
use memfd_buffer_backend.Storage.Contents.{CloneOutcome, Cloned, Cloned-intro}
use memfd_buffer_backend.Storage.Making.{copy_made-Outcome}

module _ (host : Host) (size_of : ℕ) (h : Heap) (impl : SharedBufferImpl) (s : ℕ) where
  finish_clone-Outcome :
      (p : Process) (b : SharedBuffer)
      (r : Result (Unit {0}) × (Heap × (SharedBuffer × SharedBuffer)))
      → 0 < impl.size
      → 0 < impl.size * size_of
      → (m : MadeBuffer host h.process (impl.size * size_of) b p)
      → CopyOutcome
          (with_process h p)
          impl.shared_buffer
          b
          s
          (m.handed_out.block.mapping + payload_offset)
          (impl.size * size_of)
          r
      → CloneOutcome size_of h impl s (finish_clone impl r)
  unfolding finish_clone
  finish_clone-Outcome p b (err e, (h', (from', to'))) filled positive m c =
      (c.bytes, (refl, c.kept))
  finish_clone-Outcome p b (ok _, (h', (from', to'))) filled positive m c =
      let o = m.handed_out in
      subst
        (λ t.
          Cloned size_of h impl s (record { size = impl.size; shared_buffer = t }) h'
            (record { size = impl.size; shared_buffer = from' }))
        (sym (
          c.new_state
          ∙ ap {A = SharedBuffer} {B = SharedBuffer} (λ x. record x { handle_state = some c.state })
              m.is_new))
        (Cloned-intro size_of h h' impl (record { size = impl.size; shared_buffer = from' }) s
          (o.block.mapping + payload_offset) (frees m.index) o.address o.block.block_id
          o.block.mapped_size c.state filled positive m.word c.bytes c.made c.final
          (ap (λ x. x.reader_state) (c.headers o.address) ∙ o.unread) (refl, c.kept))

  clone_into-Outcome :
      (r : Result SharedBuffer × Process)
      → 0 < impl.size
      → 0 < impl.size * size_of
      → Made host h.process (impl.size * size_of) r
      → HasWords h.process
      → impl.shared_buffer.data_ptr ≡ some s
      → IsMade h.process impl.shared_buffer.handle_state
      → CloneOutcome size_of h impl s (clone_into host size_of h impl (first_buffer impl.size r))
  unfolding clone_into first_buffer
  clone_into-Outcome (err e, p) filled positive m words located made = (refl, (refl, refl))
  clone_into-Outcome (ok b, p) filled positive m words located made =
      let n = impl.size * size_of in
      let nonempty : ltb 0 impl.size ≡ true = ground arith in
      let copied_to : CopyOutcome (with_process h p) impl.shared_buffer b s
          (m.handed_out.block.mapping + payload_offset) n
          (copy_payload (with_process h p) impl.shared_buffer b n) =
        copy_made-Outcome host (with_process h p) h.process impl.shared_buffer b s n n positive m
          words located made in
      rw (clone_into, nonempty, mod-eq_of_lt m.word)
        (finish_clone-Outcome p b (copy_payload (with_process h p) impl.shared_buffer b n) filled
          positive m copied_to)

  -- In a consistent pool, a clone of a buffer with a payload either throws and leaves the bytes and
  -- the buffer as they were, but for its write state, or returns a copy of the same size. The bytes
  -- of the copy are those of the buffer, and `to_cpu` returns them; no other byte has changed. The
  -- copy is finalized: it cannot be written.
  pub clone-Outcome :
      0 < size_of
      → 0 < impl.size
      → IsConsistent h.process.pool
      → HasWords h.process
      → impl.shared_buffer.data_ptr ≡ some s
      → IsMade h.process impl.shared_buffer.handle_state
      → CloneOutcome size_of h impl s (clone host size_of h impl)
  unfolding clone sized_impl
  clone-Outcome unit filled v words located made =
      let nonempty : ltb 0 impl.size ≡ true = ground arith in
      let positive : 0 < impl.size * size_of = mul-pos filled unit in
      rw (clone, sized_impl, nonempty)
        (clone_into-Outcome (allocate_raw host size_of h.process impl.size) filled positive
          (allocate_raw-Made host size_of impl.size h.process unit v) words located made)
