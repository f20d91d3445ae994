-- ===== src/Linux/Broker/Serving.antt =====
-- What a client of the broker receives from the socket of a registered block.
use Prim.Native.String.{String}
use memfd_buffer_backend.Prelude.{
  ℕ, ◌+◌, ◌≡◌, refl, ap, sym, subst, ◌∙◌, ◌≢◌, Bool, true, false, [], ◌∷◌, ◌++◌, Option, none, some,
  arith, inl, inr, Bool-cases,
}
use memfd_buffer_backend.Errors.{Result, ok, err, broker_socket_failed}
use memfd_buffer_backend.Pool.{Block}
use memfd_buffer_backend.Os.{
  Os, Log, alive, bound_to, duplicated, other, IsSound, alive-le, open_descriptor,
}
use memfd_buffer_backend.Os.Accounts.{is}
use memfd_buffer_backend.Linux.{create_fd_server_socket, bind_socket, listen_on, restrict_socket}
use memfd_buffer_backend.Linux.Broker.{
  FdDispatcher, FdBroker, find, insert, add_socket, log_dup, serve_duplicate, watch_socket,
  finish_register, register_new, register_unless, register_handle, register_block, socket_path_of,
  is_event_fd, serve_found, send_to, serve,
}
use memfd_buffer_backend.Linux.Broker.Maps.{find-absent, find-insert_self, erase-insert}
use memfd_buffer_backend.Linux.Broker.Descriptors.{Fits, create_fd_server_socket-Opens}

is_event_fd_other : (event : Option ℕ) (s : ℕ) → is s event ≡ 0 → is_event_fd event s ≡ false
unfolding is_event_fd
is_event_fd_other none s new = refl
is_event_fd_other (some e) s new = ground (arith, new)

serve-insert :
    (os : Os) (d : FdDispatcher) (s y : ℕ) (k : Log)
    → is s d.event_fd ≡ 0
    → serve os (record d { sockets = insert d.sockets s y }) s k ≡ send_to y (open_descriptor os k)
unfolding serve serve_found
serve-insert os d s y k new =
    rw (serve, is_event_fd_other d.event_fd s new, find-insert_self d.sockets s y) refl

-- A dispatcher that serves `fd` on the socket `s`: an event of `s` passes the descriptor `y`, a
-- duplicate of `fd`, to the client, if one is accepted.
pub record Serves (os : Os) (d : FdDispatcher) (l : Log) (s fd : ℕ) : Type 0 where
  pub copy : ℕ
  pub before : Log
  pub made : l ≡ other ∷ other ∷ duplicated fd copy ∷ before
  pub answer : (k : Log) → serve os d s k ≡ send_to copy (open_descriptor os k)

-- What becomes of a block with the handle `fd` that is not registered.
abbrev pub Registered :
    Os → FdBroker → Block → ℕ → Result String × ((FdBroker × Log) × Block) → Type 0
Registered os b block fd (err e, ((b', l'), block')) =
    (e ≡ broker_socket_failed) × (b' ≡ b) × (block' ≡ block)
Registered os b block fd (ok path, ((b', l'), block')) =
    (s : ℕ) × (b'.registered_blocks
      ≡ b.registered_blocks
        ++ (block.block_id, record { server_socket = s; socket_path = path }) ∷ [])
    × (block' ≡ record block { socket_path = path })
    × (bound_to l' s ≡ some path)
    × Serves os b'.dispatcher l' s fd

module _ {os : Os} (sound : IsSound os) where
  abbrev Watched : FdDispatcher → ℕ → ℕ → Log → Bool × (FdDispatcher × Log) → Type 0
  Watched d s fd l (false, (d', l')) = d' ≡ d
  Watched d s fd l (true, (d', l')) = (bound_to l' s ≡ bound_to l s) × Serves os d' l' s fd

  serve_duplicate-Watched :
      (d : FdDispatcher) (s fd : ℕ) (l : Log) (o : Option ℕ)
      → find d.sockets s ≡ none
      → is s d.event_fd ≡ 0
      → ((y : ℕ) → o ≡ some y → s ≢ y)
      → Watched d s fd l (serve_duplicate os d s (log_dup fd l o))
  unfolding serve_duplicate watch_socket bound_to
  serve_duplicate-Watched d s fd l none absent new apart = refl
  serve_duplicate-Watched d s fd l (some y) absent new apart =
      elim (Bool-cases (os.succeeds (other ∷ duplicated fd y ∷ l))) [
        | inr refused ↦ rw (refused, serve_duplicate, erase-insert d.sockets s y absent) refl
        | inl added ↦
            rw (added, serve_duplicate)
              (
                ground (arith, apart y refl),
                record {
                  copy = y;
                  before = l;
                  made = refl;
                  answer = λ k. serve-insert os d s y k new;
                },
              )
      ]

  add_socket-Watched :
      (d : FdDispatcher) (s fd : ℕ) (l : Log)
      → find d.sockets s ≡ none
      → is s d.event_fd ≡ 0
      → alive l s ≡ 1
      → Watched d s fd l (add_socket os d s fd l)
  unfolding add_socket
  add_socket-Watched d s fd l absent new open_socket = elim (Bool-cases d.running) [
    | inr off ↦ rw (off, add_socket) refl
    | inl on ↦
        rw (on, add_socket)
          (serve_duplicate-Watched (record d { running = true }) s fd l (os.descriptor l) absent new
            (λ y e same.
              absurd (ground (arith, ap (alive l) same, open_socket, sound.new_descriptor l y e))))
  ]

  finish_register-Registered :
      (b : FdBroker) (block : Block) (s fd : ℕ) (path : String) (r : Bool × (FdDispatcher × Log))
      (to_string : ℕ → String) (euid own_pid : ℕ) (k : Log)
      → bound_to k s ≡ some path
      → Watched b.dispatcher s fd k r
      → Registered os b block fd (finish_register os to_string euid own_pid b block s path r)
  unfolding finish_register
  finish_register-Registered b block s fd path (false, (d, l)) to_string euid own_pid k at same =
      (refl, ap (λ e. record b { dispatcher = e }) same, refl)
  finish_register-Registered b block s fd path (true, (d, l)) to_string euid own_pid k at
        (kept, serves) =
      (s, refl, refl, kept ∙ at, serves)

  create_fd_server_socket-bound_to :
      (path : String) (l : Log) (s : ℕ)
      → (create_fd_server_socket os path l).0 ≡ some s
      → bound_to (create_fd_server_socket os path l).1 s ≡ some path
  unfolding create_fd_server_socket bind_socket listen_on restrict_socket bound_to
  create_fd_server_socket-bound_to path l s e = ground (arith, e)

  register_new-Registered :
      (others : ℕ → ℕ) (to_string : ℕ → String) (euid own_pid : ℕ) (b : FdBroker) (l : Log)
      (block : Block) (fd : ℕ) (path : String) (o : Option ℕ) (k : Log)
      → Fits others b l
      → ((x : ℕ) → alive k x ≡ alive l x + is x o)
      → ((s : ℕ) → o ≡ some s → bound_to k s ≡ some path)
      → Registered os b block fd (register_new os to_string euid own_pid b block fd path (o, k))
  unfolding register_new
  register_new-Registered others to_string euid own_pid b l block fd path none k v opens at =
      (refl, refl, refl)
  register_new-Registered others to_string euid own_pid b l block fd path (some s) k v opens at =
      let new : alive l s ≡ 0 = ground (arith, opens s, alive-le k s) in
      finish_register-Registered b block s fd path (add_socket os b.dispatcher s fd k) to_string
        euid own_pid k (at s refl)
        (add_socket-Watched b.dispatcher s fd k
          (find-absent b.dispatcher.sockets s (omega (arith, new, v.descriptors s)))
          (omega (arith, new, v.descriptors s)) (ground (arith, opens s, new)))

  register_unless-Registered :
      (others : ℕ → ℕ) (to_string : ℕ → String) (euid own_pid : ℕ) (b : FdBroker) (l : Log)
      (block : Block) (fd : ℕ)
      → Fits others b l
      → Registered os b block fd (register_unless os to_string euid own_pid b block fd l none)
  unfolding register_unless
  register_unless-Registered others to_string euid own_pid b l block fd v =
      let path = socket_path_of os to_string euid own_pid block.block_id fd in
      register_new-Registered others to_string euid own_pid b l block fd path
        (create_fd_server_socket os path l).0 (create_fd_server_socket os path l).1 v
        (create_fd_server_socket-Opens sound path l) (create_fd_server_socket-bound_to path l)

  -- A block with a handle that is not registered yet: either its registration fails, and the broker
  -- and the block are as before, or a new server socket is bound to the path that is returned and
  -- registered, and every client that is accepted on it receives a duplicate of the block's
  -- descriptor.
  pub register_block-Registered :
      (others : ℕ → ℕ) (to_string : ℕ → String) (euid own_pid : ℕ) (b : FdBroker) (l : Log)
      (block : Block) (fd : ℕ)
      → Fits others b l
      → block.native_handle ≡ some fd
      → find b.registered_blocks block.block_id ≡ none
      → Registered os b block fd (register_block os to_string euid own_pid (b, l) block)
  unfolding register_block register_handle
  register_block-Registered others to_string euid own_pid b l block fd v handle absent =
      subst (λ h. Registered os b block fd (register_handle os to_string euid own_pid b block l h))
        (sym handle)
        (subst
          (λ o. Registered os b block fd (register_unless os to_string euid own_pid b block fd l o))
          (sym absent) (register_unless-Registered others to_string euid own_pid b l block fd v))
