-- ===== src/Api.antt =====
-- shared_buffer/include/shared_buffer/shared_buffer_api.hpp: allocation of a message buffer, and
-- access to one for writing or reading. `size_of` is `sizeof(T)`.
pub mod Access
pub mod Promotion
pub mod Returning
mod Examples
use memfd_buffer_backend.Prelude.{
  ℕ, ◌+◌, ◌-◌, ◌*◌, ◌/◌, ◌^◌, ◌&&◌, List, [], ◌∷◌, ◌++◌, Option, none, some, ltb, leb, ◌==◌,
  if◌then◌else◌, length, get_elem?, set,
}
use memfd_buffer_backend.Errors.{
  Result, ok, err, null_implementation, empty_input, not_shared, input_overflow,
}
use memfd_buffer_backend.Pool.{Host}
use memfd_buffer_backend.Handles.{
  SharedBuffer, ReadHandle, WriteHandle, Process, get_read_handle, get_write_handle, release_write,
  release_read, empty_buffer_value, reset,
}
use memfd_buffer_backend.Storage.{SharedBufferImpl, Heap, with_process, sized_impl}

-- The implementation of a `rosidl::Buffer`, as `get_impl` and the casts show it: none, one over
-- shared memory, or another, with its size and the bytes of `to_vector`.
pub data BufferImpl : Type 0 where
  null_impl : BufferImpl
  shared_impl : SharedBufferImpl → BufferImpl
  other_impl : ℕ → (ℕ → ℕ) → BufferImpl

-- The memory of the process, and the buffers that read handles keep as promoted ones.
pub record Application : Type 0 where
  pub heap : Heap
  pub promoted : List SharedBufferImpl

abbrev pub with_heap : Application → Heap → Application
with_heap s h = record s { heap = h }

-- `allocate_buffer`; an element is a `uint8_t`.
unfoldable pub allocate_buffer : Host → Process → ℕ → Result SharedBufferImpl × Process
allocate_buffer host p count = sized_impl host 1 p count

-- `get_write_handle` of the buffer of an implementation.
write_shared :
    Application
    → SharedBufferImpl
    → Result WriteHandle × (Process × SharedBuffer)
    → Result WriteHandle × (Application × BufferImpl)
write_shared s impl (r, (p, b)) =
    (r, (with_heap s (with_process s.heap p), shared_impl (record impl { shared_buffer = b })))

pub from_output_buffer : Application → BufferImpl → Result WriteHandle × (Application × BufferImpl)
unfolding write_shared
from_output_buffer s null_impl = (err null_implementation, (s, null_impl))
from_output_buffer s (other_impl n source) =
    (if n == 0 then err empty_input else err not_shared, (s, other_impl n source))
from_output_buffer s (shared_impl impl) =
    if impl.size == 0
    then (err empty_input, (s, shared_impl impl))
    else write_shared s impl (get_write_handle s.heap.process impl.shared_buffer)

-- The copy of a vector to a payload.
pub store : (ℕ → ℕ) → Option ℕ → (ℕ → ℕ) → ℕ → ℕ → ℕ
store bytes none source n x = bytes x
store bytes (some to) source n x = if leb to x && ltb x (to + n) then source (x - to) else bytes x

-- The handle of a promoted buffer keeps the buffer; where it is refused, the buffer is destroyed.
promote_read :
    Application
    → SharedBufferImpl
    → Result ReadHandle × (Process × SharedBuffer)
    → Result ReadHandle × Application
promote_read s impl (err e, (p, b)) = (err e, with_heap s (with_process s.heap (reset p b).0))
promote_read s impl (ok read, (p, b)) = (
  ok (record read { promoted_buffer = some (length s.promoted) }),
  record {
    heap = with_process s.heap p;
    promoted = s.promoted ++ record impl { shared_buffer = b } ∷ [];
  },
)

promote_write :
    Application
    → SharedBufferImpl
    → (ℕ → ℕ)
    → ℕ
    → Result WriteHandle × (Process × SharedBuffer)
    → Result ReadHandle × Application
unfolding promote_read
promote_write s impl source n (err e, (p, b)) =
    (err e, with_heap s (with_process s.heap (reset p b).0))
promote_write s impl source n (ok write, (p, b)) =
    let p' = (release_write p write).0 in
    promote_read
      (with_heap s (record { process = p'; bytes = store s.heap.bytes write.data_ptr source n }))
      impl (get_read_handle p' b)

promote_into :
    Application → (ℕ → ℕ) → ℕ → Result SharedBufferImpl × Process → Result ReadHandle × Application
unfolding promote_write
promote_into s source n (err e, p) = (err e, with_heap s (with_process s.heap p))
promote_into s source n (ok impl, p) =
    promote_write (with_heap s (with_process s.heap p)) impl source n
      (get_write_handle p impl.shared_buffer)

read_shared :
    Application
    → SharedBufferImpl
    → Result ReadHandle × (Process × SharedBuffer)
    → Result ReadHandle × (Application × BufferImpl)
read_shared s impl (r, (p, b)) =
    (r, (with_heap s (with_process s.heap p), shared_impl (record impl { shared_buffer = b })))

abbrev beside :
    BufferImpl → Result ReadHandle × Application → Result ReadHandle × (Application × BufferImpl)
beside impl (r, s) = (r, (s, impl))

pub promote : Host → ℕ → Application → ℕ → (ℕ → ℕ) → Result ReadHandle × Application
unfolding promote_into
promote host size_of s count source =
    if ltb ((2 ^ 64 - 1) / size_of) count
    then (err input_overflow, s)
    else promote_into s source (count * size_of)
        (sized_impl host 1 s.heap.process (count * size_of))

pub from_input_buffer :
    Host → ℕ → Application → BufferImpl → Result ReadHandle × (Application × BufferImpl)
unfolding promote read_shared
from_input_buffer host size_of s null_impl = (err null_implementation, (s, null_impl))
from_input_buffer host size_of s (other_impl n source) =
    if n == 0
    then (err empty_input, (s, other_impl n source))
    else beside (other_impl n source) (promote host size_of s n source)
from_input_buffer host size_of s (shared_impl impl) =
    if impl.size == 0
    then (err empty_input, (s, shared_impl impl))
    else read_shared s impl (get_read_handle s.heap.process impl.shared_buffer)

-- The only pointer to a promoted buffer is dropped: the buffer is destroyed.
drop_buffer : Application → ℕ → Option SharedBufferImpl → Application
drop_buffer s i none = s
drop_buffer s i (some impl) = record s {
  heap = with_process s.heap (reset s.heap.process impl.shared_buffer).0;
  promoted = set s.promoted i (record impl { shared_buffer = empty_buffer_value });
}

drop_promoted : Application → Option ℕ → Application
unfolding drop_buffer
drop_promoted s none = s
drop_promoted s (some i) = drop_buffer s i (get_elem? s.promoted i)

-- `ReadHandle::release` of a handle that may keep a promoted buffer.
pub release_promoted : Application → ReadHandle → Application × ReadHandle
unfolding drop_promoted
release_promoted s h =
    let (p, h') = release_read s.heap.process h in
    (drop_promoted (with_heap s (with_process s.heap p)) h.promoted_buffer, h')
