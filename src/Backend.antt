-- ===== src/Backend.antt =====
-- shared_buffer_backend/src/shared_buffer_backend_plugin.cpp: how the backend makes a buffer of a
-- received descriptor.
pub mod Received
pub mod Sending
pub mod Published
pub mod Delivery
pub mod Discovery
mod Examples
use Prim.Native.String.{String}
use text.Mathlib.Text.{◌==◌ as same_text}
use memfd_buffer_backend.Prelude.{
  ℕ, ◌-◌, Bool, true, false, not, ◌||◌, Option, none, some, ltb, ◌==◌, if◌then◌else◌, get_elem?,
}
use memfd_buffer_backend.Errors.{
  Result, ok, err, null_descriptor, element_type_mismatch, invalid_descriptor_metadata,
  raced_with_reuse, unmapped_memory,
}
use memfd_buffer_backend.Header.{payload_offset}
use memfd_buffer_backend.Handles.{
  Pid, Deleter, no_function, releases, SharedBuffer, Process, positive, is_empty, construct,
}
use memfd_buffer_backend.Storage.{SharedBufferImpl}
use memfd_buffer_backend.Import.{
  ImportedBlock, Platform, Importer, import_block, acquire_reader, release_imported_reader, payload,
}

-- SharedBufferDescriptor.msg.
pub record Descriptor : Type 0 where
  pub size : ℕ
  pub element_type_name : String
  pub shared_buffer_pid : Pid
  pub shared_buffer_block_id : ℕ
  pub shared_buffer_block_size : ℕ
  pub shared_buffer_socket_path : String
  pub ipc_uid : ℕ

abbrev with_process : Importer → Process → Importer
with_process m p = record m { process = p }

-- The metadata that are refused before anything is imported.
pub invalid_descriptor : Descriptor → Bool
invalid_descriptor d =
    not (positive d.shared_buffer_pid)
    || (is_empty d.shared_buffer_socket_path
        || (d.ipc_uid == 0
            || (ltb d.shared_buffer_block_size payload_offset
                || ltb (d.shared_buffer_block_size - payload_offset) d.size)))

make_impl : Descriptor → Result SharedBuffer → Result SharedBufferImpl
make_impl d (ok b) = ok (record { size = d.size; shared_buffer = b })
make_impl d (err e) = err e

-- The imported block `i`, after its slot was acquired: the second check of the uid. The deleter of
-- the buffer gives the slot back.
pub wrap :
    Descriptor → ℕ → ImportedBlock → Result (Unit {0}) × Process → Result SharedBufferImpl × Process
unfolding make_impl
wrap d i b (err e, p) = (err e, p)
wrap d i b (ok _, p) = elim b.control [
  | none ↦ (err unmapped_memory, p)
  | some a ↦
      if not ((p.pool.headers a).ipc_uid == d.ipc_uid)
      then (err raced_with_reuse, release_imported_reader p b)
      else (
        make_impl d (
            construct (some (payload b)) d.size (releases a) (some a) (some i)
              d.shared_buffer_block_id d.shared_buffer_block_size false d.shared_buffer_pid
              d.shared_buffer_socket_path d.ipc_uid),
        p,
      )
]

pub wrap_imported : Descriptor → Result ℕ × Importer → Result SharedBufferImpl × Importer
unfolding wrap
wrap_imported d (err e, m) = (err e, m)
wrap_imported d (ok i, m) = elim (get_elem? m.imported_blocks i) [
  | none ↦ (err unmapped_memory, m)
  | some b ↦ let (r, p) = wrap d i b (acquire_reader m.process b) in (r, with_process m p)
]

-- `uint8_name` is `typeid(std::uint8_t).name()`, which the compiler chooses.
module _ (platform : Platform) (uint8_name : String) where
  pub from_descriptor_with_endpoint :
      Importer → Option Descriptor → Result SharedBufferImpl × Importer
  unfolding wrap_imported invalid_descriptor
  from_descriptor_with_endpoint m none = (err null_descriptor, m)
  from_descriptor_with_endpoint m (some d) =
      if not (same_text d.element_type_name uint8_name)
      then (err element_type_mismatch, m)
      else if invalid_descriptor d
      then (err invalid_descriptor_metadata, m)
      else wrap_imported d (
          import_block platform m d.shared_buffer_socket_path d.shared_buffer_pid
            d.shared_buffer_block_id d.shared_buffer_block_size d.size d.ipc_uid)
