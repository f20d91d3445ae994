-- ===== src/Api/Promotion.antt =====
-- What `from_input_buffer` does with a buffer that is not over shared memory.
use native.Mathlib.Nat.{mul-pos}
use memfd_buffer_backend.Prelude.{
  ℕ, ◌+◌, ◌-◌, ◌*◌, ◌/◌, ◌^◌, ◌≡◌, ◌<◌, ◌≤◌, ◌⊎◌, inl, inr, refl, ap, sym, subst, ◌∙◌, [], ◌∷◌,
  ◌++◌, some, ltb, ◌==◌, length, true, false, arith, Bool-cases,
}
use memfd_buffer_backend.Errors.{Result, ok, err}
use memfd_buffer_backend.Header.{payload_offset}
use memfd_buffer_backend.Pool.{Host}
use memfd_buffer_backend.Pool.Allocation.{Refuses}
use memfd_buffer_backend.Pool.Consistency.{IsConsistent}
use memfd_buffer_backend.Handles.{
  SharedBuffer, Process, ReadHandle, Deleter, frees, get_read_handle, get_write_handle,
  release_write,
}
use memfd_buffer_backend.Handles.Exclusion.{succeeds, get_read_handle_iff}
use memfd_buffer_backend.Handles.Taking.{
  new_buffer, Written, get_write_handle-Written, Taken, get_read_handle-Taken, get_read_handle-kept,
}
use memfd_buffer_backend.Storage.{SharedBufferImpl, with_process, sized_impl}
use memfd_buffer_backend.Storage.Allocation.{MadeImpl, sized_impl-Made}
use memfd_buffer_backend.Storage.Bytes.{load, load-agree}
use memfd_buffer_backend.Api.{
  Application, with_heap, store, promote_read, promote_write, promote_into, promote,
  from_input_buffer, other_impl,
}

load-store :
    (bytes : ℕ → ℕ) (to : ℕ) (source : ℕ → ℕ) (n : ℕ)
    → load (store bytes (some to) source n) to n ≡ load source 0 n
unfolding store
load-store bytes to source n =
    load-agree (store bytes (some to) source n) source to 0 n (λ k lt. ground arith)

store-away :
    (bytes : ℕ → ℕ) (to : ℕ) (source : ℕ → ℕ) (n x : ℕ)
    → (x < to) ⊎ (to + n ≤ x)
    → store bytes (some to) source n x ≡ bytes x
unfolding store
store-away bytes to source n x away = ground (arith, away)

-- A read handle of a new buffer that holds the `n` bytes of the source and that the handle keeps.
pub record Promoted (s : Application) (source : ℕ → ℕ) (n : ℕ) (r : ReadHandle) (s' : Application)
    : Type 0 where
  pub address : ℕ
  pub located : r.data_ptr ≡ some address
  pub content : load s'.heap.bytes address n ≡ load source 0 n
  pub elsewhere : (x : ℕ) → (x < address) ⊎ (address + n ≤ x) → s'.heap.bytes x ≡ s.heap.bytes x
  pub kept : r.promoted_buffer ≡ some (length s.promoted)
  pub buffer : SharedBufferImpl
  pub alive : s'.promoted ≡ s.promoted ++ buffer ∷ []
  pub same_payload : buffer.shared_buffer.data_ptr ≡ r.data_ptr

-- A call that throws leaves the bytes and the pool's blocks as they were.
abbrev pub PromoteOutcome : Application → (ℕ → ℕ) → ℕ → Result ReadHandle × Application → Type 0
PromoteOutcome s source n (ok r, s') = Promoted s source n r s'
PromoteOutcome s source n (err e, s') =
    (s'.heap.bytes ≡ s.heap.bytes)
    × (s'.promoted ≡ s.promoted)
    × Refuses s.heap.process.pool s'.heap.process.pool

promote_read-Promoted :
    (s t : Application) (impl : SharedBufferImpl) (source : ℕ → ℕ) (n d : ℕ) (b c : SharedBuffer)
    (r : Result ReadHandle) (q : Process)
    → t.promoted ≡ s.promoted
    → t.heap.bytes ≡ store s.heap.bytes (some d) source n
    → Taken t.heap.process.pool.all_blocks b (r, q)
    → succeeds r ≡ true
    → b.data_ptr ≡ some d
    → c.data_ptr ≡ some d
    → PromoteOutcome s source n (promote_read t impl (r, (q, c)))
unfolding promote_read
promote_read-Promoted s t impl source n d b c (err e) q same bytes taken had located kept =
    absurd (cc)
promote_read-Promoted s t impl source n d b c (ok r) q same bytes taken had located kept = record {
  address = d;
  located = taken.same_payload ∙ located;
  content = ap (λ f. load f d n) bytes ∙ load-store s.heap.bytes d source n;
  elsewhere = λ x away. ap (λ f. f x) bytes ∙ store-away s.heap.bytes d source n x away;
  kept = ap (λ l. some (length l)) same;
  buffer = record impl { shared_buffer = c };
  alive = ap (λ l. l ++ record impl { shared_buffer = c } ∷ []) same;
  same_payload = kept ∙ sym (taken.same_payload ∙ located);
}

promote_write-Promoted :
    (s t : Application) (impl : SharedBufferImpl) (source : ℕ → ℕ) (n d size : ℕ)
    (deleter : Deleter) (a block_id mapped_size : ℕ) (p : Process)
    → t.promoted ≡ s.promoted
    → t.heap.bytes ≡ s.heap.bytes
    → (p.pool.headers a).reader_state ≡ 0
    → Written p (new_buffer d size deleter (some a) block_id mapped_size)
    → PromoteOutcome s source n (
        promote_write t impl source n
          (get_write_handle p (new_buffer d size deleter (some a) block_id mapped_size)))
unfolding promote_write
promote_write-Promoted s t impl source n d size deleter a block_id mapped_size p same bytes unread
      w =
    let b : SharedBuffer = record (new_buffer d size deleter (some a) block_id mapped_size) {
      handle_state = some p.next_state;
    } in
    let q = (release_write w.process w.handle).0 in
    let unread' : (q.pool.headers a).reader_state ≡ 0 =
      ap (λ x. (x.headers a).reader_state) w.same_pool ∙ unread in
    let readable : succeeds (get_read_handle q b).0 ≡ true =
      (get_read_handle_iff q b (ground (arith, unread'))).1
        (ground (arith, w.final), ground (arith, unread')) in
    subst (λ x. PromoteOutcome s source n (promote_write t impl source n x)) (sym w.had)
      (promote_read-Promoted s
        (with_heap t
          (record { process = q; bytes = store t.heap.bytes w.handle.data_ptr source n }))
        impl source n d b (get_read_handle q b).1.1 (get_read_handle q b).0
        (get_read_handle q b).1.0 same
        (ap (λ f. store f w.handle.data_ptr source n) bytes
          ∙ ap (λ x. store s.heap.bytes x source n) w.same_payload)
        (get_read_handle-Taken q b (omega (arith, w.made))) readable refl
        (get_read_handle-kept q b).0.0)

promote_into-Promoted :
    (host : Host) (s : Application) (source : ℕ → ℕ) (n : ℕ) (r : Result SharedBufferImpl × Process)
    → 0 < n
    → MadeImpl host s.heap.process n n r
    → PromoteOutcome s source n (promote_into s source n r)
unfolding promote_into
promote_into-Promoted host s source n (err e, p) positive refused = (refl, refl, refused)
promote_into-Promoted host s source n (ok impl, p) positive (same_size, m) =
    let o = m.handed_out in
    let t = with_heap s (with_process s.heap p) in
    subst (λ b. PromoteOutcome s source n (promote_write t impl source n (get_write_handle p b)))
      (sym m.is_new)
      (promote_write-Promoted s t impl source n (o.block.mapping + payload_offset) n (frees m.index)
        o.address o.block.block_id o.block.mapped_size p refl refl o.unread
        (get_write_handle-Written p (o.block.mapping + payload_offset) n (frees m.index)
          (some o.address) o.block.block_id o.block.mapped_size positive))

promote-Outcome :
    (host : Host) (size_of count : ℕ) (s : Application) (source : ℕ → ℕ)
    → 0 < size_of
    → 0 < count
    → IsConsistent s.heap.process.pool
    → PromoteOutcome s source (count * size_of) (promote host size_of s count source)
unfolding promote
promote-Outcome host size_of count s source unit filled v =
    let n = count * size_of in
    elim (Bool-cases (ltb ((2 ^ 64 - 1) / size_of) count)) [
      | inl large ↦
          rw (promote, large)
            (refl, refl, record { same_blocks = refl; same_free = refl; same_headers = λ a. refl })
      | inr fits ↦
          rw (promote, fits)
            (promote_into-Promoted host s source n (sized_impl host 1 s.heap.process n)
              (mul-pos filled unit)
              (subst (λ k. MadeImpl host s.heap.process n k (sized_impl host 1 s.heap.process n))
                (omega arith)
                (sized_impl-Made host 1 n s.heap.process (omega arith) (mul-pos filled unit) v)))
    ]

-- In a consistent pool, `from_input_buffer` of a buffer of another backend that has elements either
-- throws and leaves the bytes, the blocks and the headers as they were, or returns a read handle of
-- a new buffer that holds the bytes of the source, and keeps that buffer; no other byte changes.
pub from_input_buffer-Promoted :
    (host : Host) (size_of count : ℕ) (s : Application) (source : ℕ → ℕ)
    → 0 < size_of
    → 0 < count
    → IsConsistent s.heap.process.pool
    → let (r, (s', b)) = from_input_buffer host size_of s (other_impl count source) in
      (b ≡ other_impl count source) × PromoteOutcome s source (count * size_of) (r, s')
unfolding from_input_buffer
from_input_buffer-Promoted host size_of count s source unit filled v =
    let nonempty : (count == 0) ≡ false = ground arith in
    rw (from_input_buffer, nonempty)
      (refl, promote-Outcome host size_of count s source unit filled v)
