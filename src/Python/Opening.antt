-- ===== src/Python/Opening.antt =====
-- What Python gets from `allocate_buffer` and from a read access of another backend's buffer.
use memfd_buffer_backend.Prelude.{
  ℕ, ◌+◌, ◌≡◌, ◌≢◌, ◌<◌, ◌≤◌, ◌⊎◌, inl, inr, refl, ap, sym, subst, Bool, true, false, some, ltb,
  ◌==◌, arith, Bool-cases,
}
use memfd_buffer_backend.Errors.{Result, ok, err}
use memfd_buffer_backend.Header.{payload_offset}
use memfd_buffer_backend.Pool.{Host, Pool}
use memfd_buffer_backend.Pool.Allocation.{Refuses}
use memfd_buffer_backend.Pool.Consistency.{IsConsistent, MapsApart}
use memfd_buffer_backend.Handles.{ReadHandle, Process}
use memfd_buffer_backend.Handles.Restored.{SamePool, reset-frees}
use memfd_buffer_backend.Storage.{SharedBufferImpl, sized_impl}
use memfd_buffer_backend.Storage.Allocation.{MadeBuffer, MadeImpl, sized_impl-Made}
use memfd_buffer_backend.Storage.Apart.{sized_impl-IsConsistent}
use memfd_buffer_backend.Storage.Bytes.{load}
use memfd_buffer_backend.Api.{
  Application, BufferImpl, other_impl, from_input_buffer, allocate_buffer,
}
use memfd_buffer_backend.Api.Promotion.{PromoteOutcome, from_input_buffer-Promoted}
use memfd_buffer_backend.Api.Returning.{Freed, free-Freed}
use memfd_buffer_backend.Python.{
  ssize_max, NativeReadAccess, allocate_buffer_internal, hand_over, take_buffer_from_ptr, open_read,
  read_at, start_read, get_buffer_ptr, read_info,
}

-- A call that throws has given its block back, or has not taken one.
abbrev pub Allocated : Host → Process → ℕ → Result SharedBufferImpl × Process → Type 0
Allocated host p n (ok impl, q) =
    (0 < n) × (n ≤ ssize_max) × (impl.size ≡ n) × MadeBuffer host p n impl.shared_buffer q
Allocated host p n (err e, q) = Refuses p.pool q.pool ⊎ ((i : ℕ) × Freed p.pool n i q.pool)

same-Refuses : (p : Pool) → Refuses p p
same-Refuses p = record { same_blocks = refl; same_free = refl; same_headers = λ a. refl }

same-SamePool : (p : Pool) → SamePool p p
same-SamePool p = record {
  blocks = record {
    same_blocks = refl;
    same_free = refl;
    same_next = refl;
    same_drawn = refl;
    same_created = refl;
  };
  headers = λ a. refl;
}

hand_over-Allocated :
    (host : Host) (p : Process) (n : ℕ) (takes : Bool) (r : Result SharedBufferImpl × Process)
    → 0 < n
    → n ≤ ssize_max
    → IsConsistent r.1.pool
    → MadeImpl host p n n r
    → Allocated host p n (hand_over takes r)
unfolding hand_over take_buffer_from_ptr
hand_over-Allocated host p n takes (err e, q) positive small v refused = inl refused
hand_over-Allocated host p n true (ok impl, q) positive small v (same_size, m) =
    (positive, small, same_size, m)
hand_over-Allocated host p n false (ok impl, q) positive small v (same_size, m) =
    let o = m.handed_out in
    inr (
      m.index,
      subst (Freed p.pool n m.index)
          (sym (
            reset-frees q impl.shared_buffer (o.block.mapping + payload_offset) m.index
              (ap (λ b. b.data_ptr) m.is_new) (ap (λ b. b.deleter) m.is_new)
              (ap (λ b. b.held_reader_lease) m.is_new)))
          (free-Freed host p.pool q.pool q.pool n m.index o v (same-SamePool q.pool)),
    )

-- In a consistent pool whose new mappings lie apart, `allocate_buffer` of Python returns a buffer of
-- the size, which is positive and within the limits of the buffer protocol, over a block that is
-- handed out; or it throws, and has taken no block or given it back, also where Python refuses the
-- buffer that was made.
pub allocate_buffer_internal-Allocated :
    (host : Host) (p : Process) (n : ℕ) (takes : Bool)
    → IsConsistent p.pool
    → MapsApart host p.pool
    → Allocated host p n (allocate_buffer_internal takes host p n)
unfolding allocate_buffer_internal allocate_buffer
allocate_buffer_internal-Allocated host p n takes v apart = elim (Bool-cases (n == 0)) [
  | inl zero_size ↦ rw (allocate_buffer_internal, zero_size) (inl (same-Refuses p.pool))
  | inr filled ↦ elim (Bool-cases (ltb ssize_max n)) [
    | inl large ↦ rw (allocate_buffer_internal, filled, large) (inl (same-Refuses p.pool))
    | inr small ↦
        let positive : 0 < n = ground (arith, filled) in
        rw (allocate_buffer_internal, filled, small)
          (hand_over-Allocated host p n takes (sized_impl host 1 p n) positive
            (ground (arith, small)) (sized_impl-IsConsistent host 1 n p v apart)
            (subst (λ k. MadeImpl host p n k (sized_impl host 1 p n)) (omega arith)
              (sized_impl-Made host 1 n p (omega arith) positive v)))
  ]
]

-- What a read access of `n` bytes of another backend's buffer shows, or what a refusal leaves.
abbrev pub Opened :
    Application → (ℕ → ℕ) → ℕ → ℕ → Result NativeReadAccess × (Application × BufferImpl) → Type 0
Opened s source n address (ok a, (s', b)) =
    (address ≢ 0)
    × (n ≤ ssize_max)
    × ((to : ℕ) × (read_info a ≡ (some to, (n, true)))
        × (load s'.heap.bytes to n ≡ load source 0 n))
Opened s source n address (err e, (s', b)) =
    (s'.heap.bytes ≡ s.heap.bytes) × Refuses s.heap.process.pool s'.heap.process.pool

start_read-Opened :
    (s : Application) (source : ℕ → ℕ) (n address : ℕ) (r : Result ReadHandle) (s' : Application)
    (b : BufferImpl)
    → address ≢ 0
    → n ≤ ssize_max
    → PromoteOutcome s source n (r, s')
    → Opened s source n address (start_read n (r, (s', b)))
unfolding start_read read_info
start_read-Opened s source n address (err e) s' b given small (same, kept, refused) =
    (same, refused)
start_read-Opened s source n address (ok r) s' b given small o =
    (given, small, (o.address, ap (λ d. (d, (n, true))) o.located, o.content))

-- In a consistent pool, a read access of a buffer of another backend that has elements shows, in a
-- read-only view of its size, exactly its bytes; where opening it throws, no byte and no block has
-- changed. It throws for a null address and for a size beyond the limits of the buffer protocol.
pub open_read-Opened :
    (null_size : ℕ) (host : Host) (s : Application) (address n : ℕ) (source : ℕ → ℕ)
    → 0 < n
    → IsConsistent s.heap.process.pool
    → Opened s source n address (open_read null_size host s address (other_impl n source))
unfolding open_read read_at get_buffer_ptr
open_read-Opened null_size host s address n source positive v = elim (Bool-cases (address == 0)) [
  | inl null ↦ rw (open_read, null) (refl, same-Refuses s.heap.process.pool)
  | inr given ↦ elim (Bool-cases (ltb ssize_max n)) [
    | inl large ↦ rw (open_read, given, large) (refl, same-Refuses s.heap.process.pool)
    | inr small ↦
        let opened = from_input_buffer host 1 s (other_impl n source) in
        rw (open_read, given, small)
          (start_read-Opened s source n address opened.0 opened.1.0 opened.1.1
            (ground (arith, given)) (ground (arith, small))
            (subst (λ k. PromoteOutcome s source k (opened.0, opened.1.0)) (omega arith)
              (from_input_buffer-Promoted host 1 n s source (omega arith) positive v).1))
  ]
]
