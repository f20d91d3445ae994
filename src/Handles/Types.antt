-- ===== src/Handles/Types.antt =====
-- The data of shared_buffer/include/shared_buffer/shared_buffer_handle.hpp and shared_buffer.hpp:
-- the write state that a buffer shares with its handles, the two handles, and `SharedBuffer`.
-- A pointer is an address or an index, `none` if it is null; a lease is the control pointer whose
-- reader count it holds, an owner the imported block that it keeps alive.
use Prim.Native.String.{String}
use memfd_buffer_backend.Prelude.{ℕ, Bool, true, Option, none}
use memfd_buffer_backend.Pool.{Pool}

pub data State : Type 0 where
  unset in_use finalized : State

pub record HandleState : Type 0 where
  pub state : State
  pub active_readers : ℕ

abbrev pub new_state : HandleState
new_state = record { state = unset; active_readers = 0 }

pub record ReadHandle : Type 0 where
  pub data_ptr : Option ℕ
  pub state : Option ℕ
  pub reader_lease : Option ℕ
  pub owner : Option ℕ
  pub promoted_buffer : Option ℕ

abbrev pub empty_read : ReadHandle
empty_read = record {
  data_ptr = none;
  state = none;
  reader_lease = none;
  owner = none;
  promoted_buffer = none;
}

pub record WriteHandle : Type 0 where
  pub data_ptr : Option ℕ
  pub state : Option ℕ
  pub owner : Option ℕ
  pub promoted_buffer : Option ℕ

abbrev pub empty_write : WriteHandle
empty_write = record { data_ptr = none; state = none; owner = none; promoted_buffer = none }

-- `std::function<void(std::uint8_t *)>`: empty, the default that does nothing, that of
-- `SharedBufferMemoryPool::deleter`, or that of an imported block.
pub data Deleter : Type 0 where
  no_function : Deleter
  nothing : Deleter
  frees : ℕ → Deleter
  releases : ℕ → Deleter

-- A process id is an `int32_t`; `negative n` is -(n + 1).
pub data Pid : Type 0 where
  pid : ℕ → Pid
  negative : ℕ → Pid

pub record SharedBuffer : Type 0 where
  pub data_ptr : Option ℕ
  pub size : ℕ
  pub deleter : Deleter
  pub control : Option ℕ
  pub owner : Option ℕ
  pub held_reader_lease : Option ℕ
  pub handle_state : Option ℕ
  pub block_id : ℕ
  pub mapped_size : ℕ
  pub writable : Bool
  pub ipc_pid : Pid
  pub ipc_name : String
  pub ipc_uid : ℕ

abbrev pub empty_buffer_value : SharedBuffer
empty_buffer_value = record {
  data_ptr = none;
  size = 0;
  deleter = no_function;
  control = none;
  owner = none;
  held_reader_lease = none;
  handle_state = none;
  block_id = 0;
  mapped_size = 0;
  writable = true;
  ipc_pid = pid 0;
  ipc_name = "";
  ipc_uid = 0;
}

-- The memory of the process: its pool with all mapped headers, and the shared write states, of
-- which those from `next_state` on have not been made.
pub record Process : Type 0 where
  pub pool : Pool
  pub states : ℕ → HandleState
  pub next_state : ℕ
