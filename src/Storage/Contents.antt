-- ===== src/Storage/Contents.antt =====
-- What the buffers hold after a clone, and what `to_cpu` reads.
use native.Mathlib.Nat.{mod-eq_of_lt}
use memfd_buffer_backend.Prelude.{
  ℕ, ◌+◌, ◌*◌, ◌^◌, ◌≡◌, ◌<◌, ◌≤◌, ◌⊎◌, ltb, true, refl, ap, ◌∙◌, some, arith,
}
use memfd_buffer_backend.Errors.{Result, ok, err, write_finalized}
use memfd_buffer_backend.Handles.{
  SharedBuffer, Process, ReadHandle, finalized, Deleter, get_write_handle, get_read_handle,
}
use memfd_buffer_backend.Handles.Exclusion.{get_read_handle_iff, succeeds}
use memfd_buffer_backend.Handles.Taking.{
  get_write_handle-finalized, new_buffer, IsMade, Taken, get_read_handle-Taken,
}
use memfd_buffer_backend.Storage.{SharedBufferImpl, Heap, read_out, to_cpu}
use memfd_buffer_backend.Storage.Copies.{SameBuffer}
use memfd_buffer_backend.Storage.Bytes.{copy_bytes, load, load_at, load-copy_bytes, copy_bytes-away}

read_out-load :
    (h : Heap) (impl : SharedBufferImpl) (b c : SharedBuffer) (n s : ℕ) (r : Result ReadHandle)
    (q : Process)
    → Taken h.process.pool.all_blocks b (r, q)
    → b.data_ptr ≡ some s
    → succeeds r ≡ true
    → (read_out h impl n (r, (q, c))).0 ≡ ok (load h.bytes s n)
unfolding read_out load_at
read_out-load h impl b c n s (ok r) q taken located had =
    ap (λ x. ok (load_at h.bytes x n)) (taken.same_payload ∙ located)
read_out-load h impl b c n s (err e) q taken located had = absurd (cc)

-- A buffer that can be read is copied to the CPU byte by byte.
pub to_cpu-load :
    (size_of : ℕ) (h : Heap) (impl : SharedBufferImpl) (s : ℕ)
    → 0 < impl.size
    → impl.size * size_of < 2 ^ 64
    → impl.shared_buffer.data_ptr ≡ some s
    → IsMade h.process impl.shared_buffer.handle_state
    → succeeds (get_read_handle h.process impl.shared_buffer).0 ≡ true
    → (to_cpu size_of h impl).0 ≡ ok (load h.bytes s (impl.size * size_of))
unfolding to_cpu
to_cpu-load size_of h impl s filled word located made had =
    let read : (read_out h impl (impl.size * size_of)
          (get_read_handle h.process impl.shared_buffer)).0
        ≡ ok (load h.bytes s (impl.size * size_of)) =
      read_out-load h impl impl.shared_buffer (get_read_handle h.process impl.shared_buffer).1.1
        (impl.size * size_of) s (get_read_handle h.process impl.shared_buffer).0
        (get_read_handle h.process impl.shared_buffer).1.0
        (get_read_handle-Taken h.process impl.shared_buffer made) located had in
    let positive : ltb 0 impl.size ≡ true = ground arith in
    rw (to_cpu, positive, mod-eq_of_lt word) read

-- A clone of `n` bytes from `s`: the copy has the content, nothing else is changed, the copy can be
-- read and cannot be written.
pub record Cloned (size_of : ℕ) (h : Heap) (impl : SharedBufferImpl) (s : ℕ)
    (copy : SharedBufferImpl) (h' : Heap) (impl' : SharedBufferImpl) : Type 0 where
  pub same_size : copy.size ≡ impl.size
  pub address : ℕ
  pub located : copy.shared_buffer.data_ptr ≡ some address
  pub content : load h'.bytes address (impl.size * size_of) ≡ load h.bytes s (impl.size * size_of)
  pub elsewhere :
      (x : ℕ) → (x < address) ⊎ (address + impl.size * size_of ≤ x) → h'.bytes x ≡ h.bytes x
  pub read_back : (to_cpu size_of h' copy).0 ≡ ok (load h.bytes s (impl.size * size_of))
  pub final : (get_write_handle h'.process copy.shared_buffer).0 ≡ err write_finalized
  pub kept : (impl'.size ≡ impl.size) × SameBuffer impl.shared_buffer impl'.shared_buffer

abbrev pub CloneOutcome :
    ℕ → Heap → SharedBufferImpl → ℕ → Result SharedBufferImpl × (Heap × SharedBufferImpl) → Type 0
CloneOutcome size_of h impl s (err e, (h', impl')) =
    (h'.bytes ≡ h.bytes)
    × ((impl'.size ≡ impl.size) × SameBuffer impl.shared_buffer impl'.shared_buffer)
CloneOutcome size_of h impl s (ok copy, (h', impl')) = Cloned size_of h impl s copy h' impl'

-- The buffer with the write state `k`, after the copy.
pub Cloned-intro :
    (size_of : ℕ) (h h' : Heap) (impl impl' : SharedBufferImpl) (s d : ℕ) (deleter : Deleter)
    (a block_id mapped_size k : ℕ)
    → 0 < impl.size
    → 0 < impl.size * size_of
    → impl.size * size_of < 2 ^ 64
    → h'.bytes ≡ copy_bytes h.bytes d s (impl.size * size_of)
    → k < h'.process.next_state
    → (h'.process.states k).state ≡ finalized
    → (h'.process.pool.headers a).reader_state ≡ 0
    → (impl'.size ≡ impl.size) × SameBuffer impl.shared_buffer impl'.shared_buffer
    → Cloned size_of h impl s
        (record {
          size = impl.size;
          shared_buffer =
              record (new_buffer d (impl.size * size_of) deleter (some a) block_id mapped_size) {
                handle_state = some k;
              };
        })
        h'
        impl'
Cloned-intro size_of h h' impl impl' s d deleter a block_id mapped_size k filled positive word bytes
      made final unread kept =
    let n = impl.size * size_of in
    let b : SharedBuffer = record (new_buffer d n deleter (some a) block_id mapped_size) {
      handle_state = some k;
    } in
    let content : load h'.bytes d n ≡ load h.bytes s n =
      ap (λ f. load f d n) bytes ∙ load-copy_bytes h.bytes d s n in
    let readable : succeeds (get_read_handle h'.process b).0 ≡ true =
      (get_read_handle_iff h'.process b (ground (arith, unread))).1
        (ground (arith, final), ground (arith, unread)) in
    record {
      same_size = refl;
      address = d;
      located = refl;
      content = content;
      elsewhere = λ x away. ap (λ f. f x) bytes ∙ copy_bytes-away h.bytes d s n x away;
      read_back =
          to_cpu-load size_of h' (record { size = impl.size; shared_buffer = b }) d filled word refl
            made readable
          ∙ ap ok content;
      final =
          get_write_handle-finalized h'.process d n deleter (some a) block_id mapped_size k positive
            final;
      kept = kept;
    }
