-- ===== src/Api/Access.antt =====
-- When a message buffer can be written.
use memfd_buffer_backend.Prelude.{◌≡◌, ◌≢◌, ◌↔◌, true, none, arith}
use memfd_buffer_backend.Handles.{unset}
use memfd_buffer_backend.Handles.Exclusion.{succeeds, current, get_write_handle_iff}
use memfd_buffer_backend.Api.{
  BufferImpl, null_impl, shared_impl, other_impl, Application, from_output_buffer, write_shared,
}

-- A buffer over shared memory that has elements and a payload, has not been written or finalized,
-- and that no local read handle reads.
abbrev pub IsOutput : Application → BufferImpl → Type 0
IsOutput s null_impl = ⊥
IsOutput s (other_impl n source) = ⊥
IsOutput s (shared_impl impl) =
    let b = impl.shared_buffer in
    (impl.size ≢ 0)
    × ((b.writable ≡ true)
        × (b.data_ptr ≢ none)
        × (b.size ≢ 0)
        × ((current s.heap.process b).state ≡ unset)
        × ((current s.heap.process b).active_readers ≡ 0))

-- `from_output_buffer` gives a write handle exactly for such a buffer; it never converts another.
pub from_output_buffer_iff :
    (s : Application) (b : BufferImpl) → (succeeds (from_output_buffer s b).0 ≡ true) ↔ IsOutput s b
unfolding from_output_buffer write_shared
from_output_buffer_iff s null_impl = ground arith
from_output_buffer_iff s (other_impl n source) = ground arith
from_output_buffer_iff s (shared_impl impl) =
    let writable = get_write_handle_iff s.heap.process impl.shared_buffer in
    ground (arith, writable)
