-- ===== src/Linux/Broker.antt =====
-- `SharedBufferFdBroker` (shared_buffer_platform_linux.cpp). A method runs
-- under its mutex, so a call is one step.
-- A map is a list of pairs, at most one for a key; `std::to_string` is a parameter.
mod Maps
mod Dispatcher
unfoldable pub use Dispatcher.*
pub mod Descriptors
pub mod Registration
pub mod Destruction
pub mod Interface
pub mod Paths
pub mod Serving
pub mod Threads
use Prim.Native.String.{String, ◌++◌}
use memfd_buffer_backend.Prelude.{
  ℕ, Bool, true, false, not, List, [], ◌∷◌, ◌++◌ as append_list, Option, none, some, ◌==◌,
  if◌then◌else◌,
}
use memfd_buffer_backend.Errors.{Result, ok, err, broker_socket_failed}
use memfd_buffer_backend.Pool.{Block}
use memfd_buffer_backend.Os.{
  Os, Log, duplicated, closed, sent, unlinked, other, open_descriptor, attempt_call,
}
use memfd_buffer_backend.Linux.{create_fd_server_socket}

pub record RegisteredBlock : Type 0 where
  pub server_socket : ℕ
  pub socket_path : String

pub record FdBroker : Type 0 where
  pub dispatcher : FdDispatcher
  pub registered_blocks : List (ℕ × RegisteredBlock)

-- The constructor of `SharedBufferFdBroker` throws where that of its dispatcher does.
unfoldable pub with_dispatcher : Result FdDispatcher × Log → Result FdBroker × Log
with_dispatcher (ok d, l) = (ok (record { dispatcher = d; registered_blocks = [] }), l)
with_dispatcher (err e, l) = (err e, l)

unfoldable pub start_broker : Os → Log → Result FdBroker × Log
unfolding start_dispatcher with_dispatcher
start_broker os l = with_dispatcher (start_dispatcher os l)

-- `geteuid` and `getpid` do not fail.
module _ (os : Os) (to_string : ℕ → String) (euid own_pid : ℕ) where
  pub socket_path_of : ℕ → ℕ → String
  socket_path_of block_id fd =
      "/tmp/shared_buffer_"
      ++ to_string euid
      ++ "_"
      ++ to_string own_pid
      ++ "_"
      ++ to_string block_id
      ++ "_"
      ++ to_string fd
      ++ ".sock"

  -- The end of `register_block`, after `add_socket`.
  finish_register :
      FdBroker
      → Block
      → ℕ
      → String
      → Bool × (FdDispatcher × Log)
      → Result String × ((FdBroker × Log) × Block)
  finish_register b block socket path (added, (d, l)) =
      if not added
      then (
        err broker_socket_failed,
        ((record b { dispatcher = d }, unlinked path ∷ closed socket ∷ l), block),
      )
      else (
        ok path,
        (
          (
            record b {
              dispatcher = d;
              registered_blocks =
                  append_list b.registered_blocks
                    ((block.block_id, record { server_socket = socket; socket_path = path }) ∷ []);
            },
            l,
          ),
          record block { socket_path = path },
        ),
      )

  register_new :
      FdBroker → Block → ℕ → String → Option ℕ × Log → Result String × ((FdBroker × Log) × Block)
  unfolding finish_register add_socket
  register_new b block fd path (none, l) =
      (err broker_socket_failed, ((b, unlinked path ∷ l), block))
  register_new b block fd path (some socket, l) =
      finish_register b block socket path (add_socket os b.dispatcher socket fd l)

  register_unless :
      FdBroker
      → Block
      → ℕ
      → Log
      → Option RegisteredBlock
      → Result String × ((FdBroker × Log) × Block)
  unfolding register_new
  register_unless b block fd l (some r) = (ok r.socket_path, ((b, l), block))
  register_unless b block fd l none =
      let path = socket_path_of block.block_id fd in
      register_new b block fd path (create_fd_server_socket os path l)

  register_handle : FdBroker → Block → Log → Option ℕ → Result String × ((FdBroker × Log) × Block)
  unfolding register_unless
  register_handle b block l none = (ok "", ((b, l), block))
  register_handle b block l (some fd) =
      register_unless b block fd l (find b.registered_blocks block.block_id)

  pub register_block : FdBroker × Log → Block → Result String × ((FdBroker × Log) × Block)
  unfolding register_handle
  register_block (b, l) block = register_handle b block l block.native_handle

-- The destructor of the broker, up to that of its dispatcher.
remove_all : FdDispatcher → List (ℕ × RegisteredBlock) → Log → FdDispatcher × Log
unfolding remove_socket
remove_all d [] l = (d, l)
remove_all d ((id, r) ∷ rs) l =
    let (d', l') = remove_socket d r.server_socket l in
    remove_all d' rs (unlinked r.socket_path ∷ l')

pub destroy_broker : FdBroker × Log → FdDispatcher × Log
unfolding remove_all stop
destroy_broker (b, l) = let (d, l') = remove_all b.dispatcher b.registered_blocks l in stop d l'
