-- ===== src/Import/Types.antt =====
-- The data of shared_buffer_ipc_manager.hpp and .cpp, and what the cache asks of its host.
use Prim.Native.String.{String}
use memfd_buffer_backend.Prelude.{ℕ, List, Option}
use memfd_buffer_backend.Errors.{Result}
use memfd_buffer_backend.Header.{ControlHeader}
use memfd_buffer_backend.Pool.{PlatformMapping}
use memfd_buffer_backend.Handles.{Pid, Process}

-- `control` is null only where the mapping is.
pub record ImportedBlock : Type 0 where
  pub native_handle : Option ℕ
  pub mapping : ℕ
  pub mapped_size : ℕ
  pub control : Option ℕ
  pub ipc_name : String

pub record CacheKey : Type 0 where
  pub pid : Pid
  pub block_id : ℕ
  pub ipc_name : String

-- What the i-th call of `import_platform_mapping` answers for its name and size: the mapping, and
-- what the control header at its start holds then.
pub record Platform : Type 0 where
  pub import_mapping : ℕ → String → ℕ → Result (PlatformMapping × ControlHeader)

-- A pointer to an imported block is its index in `imported_blocks`, which has all that were made;
-- `destroyed` has the mappings given back to the platform, the newest first.
pub record Importer : Type 0 where
  pub process : Process
  pub cache : List (CacheKey × ℕ)
  pub imported_blocks : List ImportedBlock
  pub imports : ℕ
  pub destroyed : List ImportedBlock
