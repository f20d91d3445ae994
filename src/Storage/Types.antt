-- ===== src/Storage/Types.antt =====
-- The data of `SharedBufferImpl`, and the memory of a process with the bytes of its payloads.
use memfd_buffer_backend.Prelude.{ℕ}
use memfd_buffer_backend.Handles.{SharedBuffer, Process}

pub record SharedBufferImpl : Type 0 where
  pub size : ℕ
  pub shared_buffer : SharedBuffer

pub record Heap : Type 0 where
  pub process : Process
  pub bytes : ℕ → ℕ
