-- ===== src/Linux/Broker/Interface.antt =====
-- The broker of Linux as the broker that the backend asks for.
use Prim.Native.String.{String}
use memfd_buffer_backend.Prelude.{ℕ, ◌≡◌, refl, Bool, true, false, Option, none, some}
use memfd_buffer_backend.Pool.{Block}
use memfd_buffer_backend.Os.{Os, Log}
use memfd_buffer_backend.Linux.{create_fd_server_socket}
use memfd_buffer_backend.Linux.Broker.{
  FdDispatcher, FdBroker, find, add_socket, finish_register, register_new, register_unless,
  register_handle, RegisteredBlock, register_block, socket_path_of,
}
use memfd_buffer_backend.Backend.Sending.{Broker, KeepsBlock}

module _ (os : Os) (to_string : ℕ → String) (euid own_pid : ℕ) where
  abbrev pub linux_broker : Broker
  linux_broker = record {
    State = FdBroker × Log;
    register = register_block os to_string euid own_pid;
  }

  -- The block is as before, or has a path.
  abbrev Kept : Block → Block → Type 0
  Kept b c = (x : String) × (c ≡ record b { socket_path = x })

  finish_register-Kept :
      (b : FdBroker) (block : Block) (s : ℕ) (path : String) (r : Bool × (FdDispatcher × Log))
      → Kept block (finish_register os to_string euid own_pid b block s path r).1.1
  unfolding finish_register
  finish_register-Kept b block s path (true, (d, l)) = (path, refl)
  finish_register-Kept b block s path (false, (d, l)) = (block.socket_path, refl)

  register_new-Kept :
      (b : FdBroker) (block : Block) (fd : ℕ) (path : String) (r : Option ℕ × Log)
      → Kept block (register_new os to_string euid own_pid b block fd path r).1.1
  unfolding register_new
  register_new-Kept b block fd path (none, l) = (block.socket_path, refl)
  register_new-Kept b block fd path (some s, l) =
      finish_register-Kept b block s path (add_socket os b.dispatcher s fd l)

  register_unless-Kept :
      (b : FdBroker) (block : Block) (fd : ℕ) (l : Log) (r : Option RegisteredBlock)
      → Kept block (register_unless os to_string euid own_pid b block fd l r).1.1
  unfolding register_unless
  register_unless-Kept b block fd l (some r) = (block.socket_path, refl)
  register_unless-Kept b block fd l none =
      let path = socket_path_of os to_string euid own_pid block.block_id fd in
      register_new-Kept b block fd path (create_fd_server_socket os path l)

  register_handle-Kept :
      (b : FdBroker) (block : Block) (l : Log) (h : Option ℕ)
      → Kept block (register_handle os to_string euid own_pid b block l h).1.1
  unfolding register_handle
  register_handle-Kept b block l none = (block.socket_path, refl)
  register_handle-Kept b block l (some fd) =
      register_unless-Kept b block fd l (find b.registered_blocks block.block_id)

  -- The broker of Linux writes the path of the block at most, as the backend relies on.
  pub linux_broker-KeepsBlock : KeepsBlock linux_broker
  unfolding register_block
  linux_broker-KeepsBlock = record {
    keeps = λ s block. register_handle-Kept s.0 block s.1 block.native_handle;
  }
