-- ===== src/Backend/Sending.antt =====
-- shared_buffer_backend_plugin.cpp: how the backend decides whether an endpoint can share memory,
-- and how it describes a buffer to it. The metadata of this host are a parameter; so is the broker,
-- which each platform implements (`SharedBufferFdBroker::register_block`).
use Prim.Native.String.{String}
use text.Mathlib.Text.{◌==◌ as same_text}
use memfd_buffer_backend.Prelude.{
  ℕ, ◌≡◌, refl, Bool, false, not, ◌||◌, Option, none, some, ◌==◌, if◌then◌else◌, get_elem?,
}
use memfd_buffer_backend.Errors.{Result, ok, err}
use memfd_buffer_backend.Header.{control_magic, control_abi_version}
use memfd_buffer_backend.Pool.{
  Block, Host, Pool, update, put_block, find_block_for_ptr, refresh_publish_timestamp, assign_uid,
  mark_published,
}
use memfd_buffer_backend.Handles.{
  Pid, SharedBuffer, Process, finalize_write_handle, has_ipc_descriptor, is_empty,
}
use memfd_buffer_backend.Storage.{SharedBufferImpl}
use memfd_buffer_backend.Backend.{Descriptor}

-- The manager is made at the first use, with the metadata that the host has then, and is kept.
get_endpoint_manager : String → Option String → String × Option String
get_endpoint_manager new_metadata none = (new_metadata, some new_metadata)
get_endpoint_manager new_metadata (some metadata) = (metadata, some metadata)

abbrev get_backend_metadata : String → Option String → String × Option String
get_backend_metadata new_metadata manager = get_endpoint_manager new_metadata manager

-- The metadata are those of the first call, whatever the host answers later.
get_backend_metadata_kept :
    (first later : String) (manager : Option String)
    → (get_backend_metadata later (get_backend_metadata first manager).1).0
      ≡ (get_backend_metadata first manager).0
unfolding get_endpoint_manager
get_backend_metadata_kept first later none = refl
get_backend_metadata_kept first later (some m) = refl

-- What the broker answers when it registers a block, and the block then.
pub record Broker : Type 1 where
  pub State : Type 0
  pub register : State → Block → Result String × (State × Block)

-- It writes the path of the block at most.
pub record KeepsBlock (broker : Broker) : Type 0 where
  pub keeps :
      (s : broker.State) (b : Block)
      → (x : String) × ((broker.register s b).1.1 ≡ record b { socket_path = x })

-- The compatibility of the endpoints, by their gid, is known where it is not `none`.
pub record Sender (broker : Broker) : Type 0 where
  pub process : Process
  pub compatible : ℕ → Option Bool
  pub broker_state : broker.State

unfoldable pub is_metadata : String → Option String → Bool
is_metadata metadata none = false
is_metadata metadata (some s) = same_text s metadata

unfoldable pub known_incompatible : Option Bool → Bool
known_incompatible none = false
known_incompatible (some b) = not b

unfoldable pub block_of : Pool → Option ℕ → Option ℕ
block_of p none = none
block_of p (some address) = find_block_for_ptr p address

module _ {broker : Broker} where
  abbrev with_pool : Sender broker → Pool → Sender broker
  with_pool s p = record s { process = record s.process { pool = p } }

  -- `supported` is what the endpoint says of the backend `shared_buffer`, if it does.
  unfoldable pub on_discovering_endpoint :
      String → Sender broker → ℕ → Option String → Bool × Sender broker
  unfolding is_metadata
  on_discovering_endpoint metadata s gid supported =
      let compatible = is_metadata metadata supported in
      (compatible, record s { compatible = update s.compatible gid (some compatible) })

  -- An imported buffer, described by its own identity.
  unfoldable pub relayed :
      Host → Sender broker → SharedBuffer → ℕ → String → Option Descriptor × Sender broker
  relayed host s b a uint8_name =
      let h = s.process.pool.headers a in
      if not (h.magic == control_magic)
        || (not (h.abi_version == control_abi_version)
            || (not (h.payload_size == b.size) || not (h.ipc_uid == b.ipc_uid)))
      then (none, s)
      else (
        some (record {
          size = b.size;
          element_type_name = uint8_name;
          shared_buffer_pid = b.ipc_pid;
          shared_buffer_block_id = b.block_id;
          shared_buffer_block_size = b.mapped_size;
          shared_buffer_socket_path = b.ipc_name;
          ipc_uid = b.ipc_uid;
        }),
        with_pool s (refresh_publish_timestamp host s.process.pool a),
      )

  -- The pool block `i`, registered and given a uid.
  unfoldable pub describe :
      Host
      → Pid
      → String
      → ℕ
      → ℕ
      → Block
      → String
      → ℕ × Pool
      → Sender broker
      → Option Descriptor × Sender broker
  describe host self uint8_name size i b ipc_name (uid, p) s =
      if is_empty ipc_name || uid == 0 then (none, with_pool s p) else (
        some (record {
          size = size;
          element_type_name = uint8_name;
          shared_buffer_pid = self;
          shared_buffer_block_id = b.block_id;
          shared_buffer_block_size = b.mapped_size;
          shared_buffer_socket_path = ipc_name;
          ipc_uid = uid;
        }),
        with_pool s (mark_published host p i),
      )

  -- `register_block_for_ipc`: an exception of the broker ends in no descriptor.
  unfoldable pub registered :
      Host
      → Pid
      → String
      → ℕ
      → ℕ
      → Sender broker
      → Result String × (broker.State × Block)
      → Option Descriptor × Sender broker
  unfolding describe
  registered host self uint8_name size i s (err e, (t, b)) =
      (none, record (with_pool s (put_block s.process.pool i b)) { broker_state = t })
  registered host self uint8_name size i s (ok ipc_name, (t, b)) =
      let p = put_block s.process.pool i b in
      describe host self uint8_name size i b ipc_name (assign_uid host p i)
        (record (with_pool s p) { broker_state = t })

  unfoldable pub publish_block :
      Host → Pid → String → ℕ → Sender broker → Option ℕ → Option Descriptor × Sender broker
  unfolding registered
  publish_block host self uint8_name size s none = (none, s)
  publish_block host self uint8_name size s (some i) =
      elim (get_elem? s.process.pool.all_blocks i) [
        | none ↦ (none, s)
        | some b ↦ elim b.control [
          | none ↦ (none, s)
          | some _ ↦ registered host self uint8_name size i s (broker.register s.broker_state b)
        ]
      ]

  unfoldable pub describe_buffer :
      Host → Pid → String → Sender broker → SharedBufferImpl → Option Descriptor × Sender broker
  unfolding relayed publish_block block_of
  describe_buffer host self uint8_name s x =
      let b = x.shared_buffer in
      if has_ipc_descriptor b
      then elim b.control [ none ↦ (none, s) | some a ↦ relayed host s b a uint8_name ]
      else publish_block host self uint8_name x.size s (block_of s.process.pool b.data_ptr)

  -- `impl` is none where it is null or of another backend; `self` is the id of this process.
  unfoldable pub create_descriptor_with_endpoint :
      Host
      → Pid
      → String
      → Sender broker
      → Option SharedBufferImpl
      → ℕ
      → Option Descriptor × Sender broker
  unfolding known_incompatible describe_buffer
  create_descriptor_with_endpoint host self uint8_name s impl gid =
      if known_incompatible (s.compatible gid) then (none, s) else elim impl [
        | none ↦ (none, s)
        | some x ↦
            describe_buffer host self uint8_name
              (record s { process = finalize_write_handle s.process x.shared_buffer }) x
      ]
