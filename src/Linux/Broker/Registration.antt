-- ===== src/Linux/Broker/Registration.antt =====
-- Registering a block keeps the descriptors of the broker accounted for.
use Prim.Native.String.{String}
use memfd_buffer_backend.Prelude.{
  ℕ, ◌+◌, ◌≡◌, ap, sym, subst, ◌∙◌, Bool, true, false, [], ◌∷◌, ◌++◌, Option, none, some, arith,
}
use memfd_buffer_backend.Pool.{Block}
use memfd_buffer_backend.Os.{Os, Log, alive, IsSound, alive-le}
use memfd_buffer_backend.Linux.{create_fd_server_socket}
use memfd_buffer_backend.Os.Accounts.{is}
use memfd_buffer_backend.Linux.Broker.{
  FdDispatcher, FdBroker, RegisteredBlock, find, add_socket, finish_register, register_new,
  register_unless, register_handle, register_block, socket_path_of,
}
use memfd_buffer_backend.Linux.Broker.Maps.{keys, servers, servers-append}
use memfd_buffer_backend.Linux.Broker.Descriptors.{
  IsWhole, Fits, create_fd_server_socket-Opens, Added, add_socket-Added,
}

module _ {os : Os} (sound : IsSound os) where
  finish_register-Fits :
      (others : ℕ → ℕ) (b : FdBroker) (block : Block) (s : ℕ) (path : String)
      (r : Bool × (FdDispatcher × Log))
      → (to_string : ℕ → String) (euid own_pid : ℕ)
      → keys b.dispatcher.sockets ≡ servers b.registered_blocks
      → IsWhole b.dispatcher
      → Added sound others b.dispatcher s r
      → let (q, (p, c)) = finish_register os to_string euid own_pid b block s path r in
        Fits others p.0 p.1
  unfolding finish_register alive
  finish_register-Fits others b block s path (true, (d, l)) to_string euid own_pid listed whole
        (fds, added, whole') =
      record {
        descriptors = fds;
        listed =
            added
            ∙ ap (λ ks. ks ++ s ∷ []) listed
            ∙ sym (
                servers-append b.registered_blocks block.block_id
                  (record { server_socket = s; socket_path = path }));
        whole = whole';
      }
  finish_register-Fits others b block s path (false, (d, l)) to_string euid own_pid listed whole
        (fds, same) =
      record {
        descriptors = λ x. ground (arith, fds x, fds s, alive-le l s, same);
        listed = ap (λ e. keys e.sockets) same ∙ listed;
        whole = subst IsWhole (sym same) whole;
      }

  register_new-Fits :
      (others : ℕ → ℕ) (to_string : ℕ → String) (euid own_pid : ℕ) (b : FdBroker) (l : Log)
      (block : Block) (fd : ℕ) (path : String) (o : Option ℕ) (k : Log)
      → Fits others b l
      → ((x : ℕ) → alive k x ≡ alive l x + is x o)
      → let (q, (p, c)) = register_new os to_string euid own_pid b block fd path (o, k) in
        Fits others p.0 p.1
  unfolding register_new alive
  register_new-Fits others to_string euid own_pid b l block fd path none k v opens = record {
    descriptors = λ x. ground (arith, opens x, v.descriptors x);
    listed = v.listed;
    whole = v.whole;
  }
  register_new-Fits others to_string euid own_pid b l block fd path (some s) k v opens =
      finish_register-Fits others b block s path (add_socket os b.dispatcher s fd k) to_string euid
        own_pid v.listed v.whole
        (add_socket-Added sound others b.dispatcher s fd k v.whole
          (λ x. omega (arith, opens x, v.descriptors x)))

  register_unless-Fits :
      (others : ℕ → ℕ) (to_string : ℕ → String) (euid own_pid : ℕ) (b : FdBroker) (l : Log)
      (block : Block) (fd : ℕ) (o : Option RegisteredBlock)
      → Fits others b l
      → let (q, (p, c)) = register_unless os to_string euid own_pid b block fd l o in
        Fits others p.0 p.1
  unfolding register_unless
  register_unless-Fits others to_string euid own_pid b l block fd (some r) v = v
  register_unless-Fits others to_string euid own_pid b l block fd none v =
      let path = socket_path_of os to_string euid own_pid block.block_id fd in
      register_new-Fits others to_string euid own_pid b l block fd path
        (create_fd_server_socket os path l).0 (create_fd_server_socket os path l).1 v
        (create_fd_server_socket-Opens sound path l)

  register_handle-Fits :
      (others : ℕ → ℕ) (to_string : ℕ → String) (euid own_pid : ℕ) (b : FdBroker) (l : Log)
      (block : Block) (o : Option ℕ)
      → Fits others b l
      → let (q, (p, c)) = register_handle os to_string euid own_pid b block l o in
        Fits others p.0 p.1
  unfolding register_handle
  register_handle-Fits others to_string euid own_pid b l block none v = v
  register_handle-Fits others to_string euid own_pid b l block (some fd) v =
      register_unless-Fits others to_string euid own_pid b l block fd
        (find b.registered_blocks block.block_id) v

  -- Whatever the system answers, `register_block` keeps the broker's descriptors accounted for: a
  -- registration that fails leaves open just what was open before.
  pub register_block-Fits :
      (others : ℕ → ℕ) (to_string : ℕ → String) (euid own_pid : ℕ) (b : FdBroker) (l : Log)
      (block : Block)
      → Fits others b l
      → let (q, (p, c)) = register_block os to_string euid own_pid (b, l) block in
        Fits others p.0 p.1
  unfolding register_block
  register_block-Fits others to_string euid own_pid b l block v =
      register_handle-Fits others to_string euid own_pid b l block block.native_handle v
