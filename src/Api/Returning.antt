-- ===== src/Api/Returning.antt =====
-- What becomes of a promoted buffer when the read handle that keeps it is released.
use native.Mathlib.Nat.{mul-pos}
use memfd_buffer_backend.Prelude.{
  ℕ, ◌+◌, ◌-◌, ◌*◌, ◌/◌, ◌^◌, ◌≡◌, ◌≢◌, ◌<◌, refl, ap, sym, subst, ◌∙◌, [], ◌∷◌, ◌++◌, none, some,
  ltb, ◌==◌, length, get_elem?, get_elem?-set, get_elem?-append_length, false, arith, inl, inr,
  Bool-cases,
}
use memfd_buffer_backend.Errors.{Result, ok, err}
use memfd_buffer_backend.Header.{ControlHeader, payload_offset}
use memfd_buffer_backend.Pool.{Host, Pool, allocate, free}
use memfd_buffer_backend.Pool.Allocation.{HandsOut}
use memfd_buffer_backend.Pool.Consistency.{
  IsConsistent, MapsApart, free-IsConsistent, SameBlocks-IsConsistent,
}
use memfd_buffer_backend.Pool.Reuse.{IsReady, Reuses, allocate-Reuses, freed-IsReady, free-other}
use memfd_buffer_backend.Handles.{
  SharedBuffer, Process, ReadHandle, frees, get_read_handle, get_write_handle, release_read,
  release_write, reset, empty_buffer_value,
}
use memfd_buffer_backend.Handles.Restored.{
  SamePool, Restored, get_read_handle-Restored, reset-frees,
}
use memfd_buffer_backend.Handles.Taking.{
  new_buffer, Written, get_write_handle-Written, get_read_handle-kept,
}
use memfd_buffer_backend.Storage.{SharedBufferImpl, with_process, sized_impl}
use memfd_buffer_backend.Storage.Allocation.{MadeImpl, sized_impl-Made}
use memfd_buffer_backend.Storage.Apart.{sized_impl-IsConsistent}
use memfd_buffer_backend.Api.{
  Application, with_heap, store, promote_read, promote_write, promote_into, promote,
  from_input_buffer, other_impl, drop_buffer, drop_promoted, release_promoted,
}

-- The handle of a promoted buffer was released: the buffer is destroyed, its block of the pool that
-- was `p` before the promotion is free again, and the next allocation of its size needs no mapping.
pub record Returned (host : Host) (p : Pool) (n : ℕ) (bytes : ℕ → ℕ) (kept : ℕ) (s : Application)
    : Type 0 where
  pub index : ℕ
  pub ready : IsReady s.heap.process.pool index
  pub idle : ready.block.in_use ≡ false
  pub sized : ready.block.payload_size ≡ n
  pub consistent : IsConsistent s.heap.process.pool
  pub other_blocks :
      (j : ℕ) → j ≢ index → get_elem? s.heap.process.pool.all_blocks j ≡ get_elem? p.all_blocks j
  pub reused : Reuses s.heap.process.pool (allocate host s.heap.process.pool n)
  pub same_bytes : s.heap.bytes ≡ bytes
  pub buffer : SharedBufferImpl
  pub at : get_elem? s.promoted kept ≡ some buffer
  pub destroyed : buffer.shared_buffer.data_ptr ≡ none

abbrev pub ReturnOutcome : Host → Pool → ℕ → ℕ → Result ReadHandle × Application → Type 0
ReturnOutcome host p n kept (err e, s) = Unit
ReturnOutcome host p n kept (ok r, s) = Returned host p n s.heap.bytes kept (release_promoted s r).0

-- Block `i` is free again in `q`, and ready for reuse; the others are as in `p`.
pub record Freed (p : Pool) (n i : ℕ) (q : Pool) : Type 0 where
  pub ready : IsReady q i
  pub idle : ready.block.in_use ≡ false
  pub sized : ready.block.payload_size ≡ n
  pub consistent : IsConsistent q
  pub other_blocks : (j : ℕ) → j ≢ i → get_elem? q.all_blocks j ≡ get_elem? p.all_blocks j

module _ (host : Host) where
  pub free-Freed :
      (p q r : Pool) (n i : ℕ)
      → HandsOut host p n i q
      → IsConsistent q
      → SamePool q r
      → Freed p n i (free r i)
  free-Freed p q r n i o v s =
      let (ready, idle, sized) =
        freed-IsReady r i o.address o.block (ap (λ bs. get_elem? bs i) s.blocks.same_blocks ∙ o.at)
          o.used o.controlled
          (ap (λ (h : ControlHeader). h.reader_state) (s.headers o.address) ∙ o.unread)
          (ap (λ (h : ControlHeader). h.publish_timestamp_us) (s.headers o.address)
            ∙ o.unstamped) in
      record {
        ready = ready;
        idle = idle;
        sized = sized ∙ o.sized;
        consistent = free-IsConsistent r i (
            SameBlocks-IsConsistent s.blocks
              (λ a. record {
                same_magic = ap (λ (h : ControlHeader). h.magic) (s.headers a);
                same_abi = ap (λ (h : ControlHeader). h.abi_version) (s.headers a);
                same_size = ap (λ (h : ControlHeader). h.payload_size) (s.headers a);
              })
              v);
        other_blocks = λ j other.
            free-other r i j other
            ∙ ap (λ bs. get_elem? bs j) s.blocks.same_blocks
            ∙ o.other_blocks j other;
      }

  abbrev gone : SharedBufferImpl → SharedBufferImpl
  gone impl = record impl { shared_buffer = empty_buffer_value }

  drop_buffer-Returned :
      (p : Pool) (n i : ℕ) (s : Application) (kept : ℕ) (impl : SharedBufferImpl)
      → 0 < n
      → get_elem? s.promoted kept ≡ some impl
      → Freed p n i (reset s.heap.process impl.shared_buffer).0.pool
      → Returned host p n s.heap.bytes kept (drop_buffer s kept (some impl))
  unfolding drop_buffer
  drop_buffer-Returned p n i s kept impl positive at f = record {
    index = i;
    ready = f.ready;
    idle = f.idle;
    sized = f.sized;
    consistent = f.consistent;
    other_blocks = f.other_blocks;
    reused =
        allocate-Reuses host (reset s.heap.process impl.shared_buffer).0.pool n i f.ready
          f.consistent positive f.idle f.sized;
    same_bytes = refl;
    buffer = gone impl;
    at = ground (arith, get_elem?-set s.promoted kept kept (gone impl) at);
    destroyed = refl;
  }

  promote_read-Returned :
      (p v : Pool) (n i d : ℕ) (t : Application) (impl : SharedBufferImpl) (c : SharedBuffer)
      (r : Result ReadHandle) (q : Process)
      → 0 < n
      → HandsOut host p n i v
      → IsConsistent v
      → Restored v (r, q)
      → c.data_ptr ≡ some d
      → c.deleter ≡ frees i
      → c.held_reader_lease ≡ none
      → ReturnOutcome host p n (length t.promoted) (promote_read t impl (r, (q, c)))
  unfolding promote_read release_promoted drop_promoted release_read
  promote_read-Returned p v n i d t impl c (err e) q positive o w restored located owns unheld = tt
  promote_read-Returned p v n i d t impl c (ok h) q positive o w restored located owns unheld =
      let kept : SharedBufferImpl = record impl { shared_buffer = c } in
      let s : Application = record {
        heap = with_process t.heap (release_read q h).0;
        promoted = t.promoted ++ kept ∷ [];
      } in
      let at = get_elem?-append_length t.promoted kept in
      subst
        (λ x.
          Returned host p n t.heap.bytes (length t.promoted) (drop_buffer s (length t.promoted) x))
        (sym at)
        (drop_buffer-Returned p n i s (length t.promoted) kept positive at (
          subst (Freed p n i) (sym (reset-frees (release_read q h).0 c d i located owns unheld))
            (free-Freed p v (release_read q h).0.pool n i o w restored)))

  promote_write-Returned :
      (p : Pool) (n i d a : ℕ) (t : Application) (impl : SharedBufferImpl) (source : ℕ → ℕ)
      (block_id mapped_size : ℕ) (q : Process)
      → 0 < n
      → HandsOut host p n i q.pool
      → IsConsistent q.pool
      → (q.pool.headers a).reader_state ≡ 0
      → Written q (new_buffer d n (frees i) (some a) block_id mapped_size)
      → ReturnOutcome host p n (length t.promoted) (
          promote_write t impl source n
            (get_write_handle q (new_buffer d n (frees i) (some a) block_id mapped_size)))
  unfolding promote_write
  promote_write-Returned p n i d a t impl source block_id mapped_size q positive o v unread w =
      let b : SharedBuffer = record (new_buffer d n (frees i) (some a) block_id mapped_size) {
        handle_state = some q.next_state;
      } in
      let u = (release_write w.process w.handle).0 in
      let ((located, controlled), (owns, unheld)) = get_read_handle-kept u b in
      let restored =
        get_read_handle-Restored u b a refl
          (ap (λ (x : Pool). (x.headers a).reader_state) w.same_pool ∙ unread) in
      subst (λ x. ReturnOutcome host p n (length t.promoted) (promote_write t impl source n x))
        (sym w.had)
        (promote_read-Returned p q.pool n i d
          (with_heap t
            (record { process = u; bytes = store t.heap.bytes w.handle.data_ptr source n }))
          impl (get_read_handle u b).1.1 (get_read_handle u b).0 (get_read_handle u b).1.0 positive
          o v
          (subst (λ x. Restored x ((get_read_handle u b).0, (get_read_handle u b).1.0)) w.same_pool
            restored)
          located owns unheld)

  promote_into-Returned :
      (s : Application) (source : ℕ → ℕ) (n : ℕ) (r : Result SharedBufferImpl × Process)
      → 0 < n
      → IsConsistent r.1.pool
      → MadeImpl host s.heap.process n n r
      → ReturnOutcome host s.heap.process.pool n (length s.promoted) (promote_into s source n r)
  unfolding promote_into
  promote_into-Returned s source n (err e, p) positive v m = tt
  promote_into-Returned s source n (ok impl, p) positive v (same_size, m) =
      let o = m.handed_out in
      subst
        (λ b. ReturnOutcome host s.heap.process.pool n (length s.promoted) (
          promote_write (with_heap s (with_process s.heap p)) impl source n (get_write_handle p b)))
        (sym m.is_new)
        (promote_write-Returned s.heap.process.pool n m.index (o.block.mapping + payload_offset)
          o.address (with_heap s (with_process s.heap p)) impl source o.block.block_id
          o.block.mapped_size p positive o v o.unread
          (get_write_handle-Written p (o.block.mapping + payload_offset) n (frees m.index)
            (some o.address) o.block.block_id o.block.mapped_size positive))

  promote-Returned :
      (size_of count : ℕ) (s : Application) (source : ℕ → ℕ)
      → 0 < size_of
      → 0 < count
      → IsConsistent s.heap.process.pool
      → MapsApart host s.heap.process.pool
      → ReturnOutcome host s.heap.process.pool
          (count * size_of)
          (length s.promoted)
          (promote host size_of s count source)
  unfolding promote
  promote-Returned size_of count s source unit filled v apart =
      let n = count * size_of in
      elim (Bool-cases (ltb ((2 ^ 64 - 1) / size_of) count)) [
        | inl large ↦ rw (promote, large) tt
        | inr fits ↦
            rw (promote, fits)
              (promote_into-Returned s source n (sized_impl host 1 s.heap.process n)
                (mul-pos filled unit) (sized_impl-IsConsistent host 1 n s.heap.process v apart)
                (subst (λ k. MadeImpl host s.heap.process n k (sized_impl host 1 s.heap.process n))
                  (omega arith)
                  (sized_impl-Made host 1 n s.heap.process (omega arith) (mul-pos filled unit) v)))
      ]

  -- In a consistent pool whose new mappings lie apart: where `from_input_buffer` of a buffer of
  -- another backend returns a handle, its release destroys the promoted buffer and gives the block
  -- back; the pool is consistent, its other blocks are as before the call, and the next allocation
  -- of as many bytes reuses a block. No byte changes.
  pub from_input_buffer-Returned :
      (size_of count : ℕ) (s : Application) (source : ℕ → ℕ)
      → 0 < size_of
      → 0 < count
      → IsConsistent s.heap.process.pool
      → MapsApart host s.heap.process.pool
      → let (r, (s', b)) = from_input_buffer host size_of s (other_impl count source) in
        ReturnOutcome host s.heap.process.pool (count * size_of) (length s.promoted) (r, s')
  unfolding from_input_buffer
  from_input_buffer-Returned size_of count s source unit filled v apart =
      let nonempty : (count == 0) ≡ false = ground arith in
      rw (from_input_buffer, nonempty) (promote-Returned size_of count s source unit filled v apart)
