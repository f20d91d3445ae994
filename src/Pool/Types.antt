-- ===== src/Pool/Types.antt =====
-- The data of the pool: `SharedBufferPlatformMapping`, `SharedBufferBlock`, the members of
-- `SharedBufferMemoryPool`, and what the pool asks of its host.
use Prim.Native.String.{String}
use memfd_buffer_backend.Prelude.{ℕ, Bool, false, List, [], Option, none, ◌==◌, if◌then◌else◌, set}
use memfd_buffer_backend.Errors.{Result}
use memfd_buffer_backend.Header.{ControlHeader, new_header}

-- `none` is the handle -1.
pub record PlatformMapping : Type 0 where
  pub native_handle : Option ℕ
  pub mapping : ℕ
  pub mapped_size : ℕ
  pub ipc_name : String

pub record Block : Type 0 where
  pub native_handle : Option ℕ
  pub mapping : ℕ
  pub mapped_size : ℕ
  pub payload_size : ℕ
  pub block_id : ℕ
  pub control : Option ℕ
  pub current_uid : ℕ
  pub socket_path : String
  pub in_use : Bool

-- The i-th value of the generator and of the clock, and what the i-th call of
-- `create_platform_mapping` answers for its size, its block id and its nonce.
pub record Host : Type 0 where
  pub draw : ℕ → ℕ
  pub time : ℕ → ℕ
  pub create : ℕ → ℕ → ℕ → ℕ → Result PlatformMapping

-- `headers` is the mapped memory at the control pointers; `drawn`, `read` and `created` count the
-- uses of the host.
pub record Pool : Type 0 where
  pub initialized : Bool
  pub ipc_capable : Bool
  pub next_block_id : ℕ
  pub free_blocks : ℕ → Option (List ℕ)
  pub all_blocks : List Block
  pub headers : ℕ → ControlHeader
  pub drawn : ℕ
  pub read : ℕ
  pub created : ℕ

abbrev pub update {ℓ} : {A : Type ℓ} → (ℕ → A) → ℕ → A → ℕ → A
update f i a j = if i == j then a else f j

abbrev pub empty_pool : Pool
empty_pool = record {
  initialized = false;
  ipc_capable = false;
  next_block_id = 0;
  free_blocks = λ _. none;
  all_blocks = [];
  headers = λ _. new_header;
  drawn = 0;
  read = 0;
  created = 0;
}

abbrev pub put_header : Pool → ℕ → ControlHeader → Pool
put_header p a h = record p { headers = update p.headers a h }

abbrev pub put_block : Pool → ℕ → Block → Pool
put_block p i b = record p { all_blocks = set p.all_blocks i b }
