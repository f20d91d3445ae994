-- ===== src/Linux/Broker/Destruction.antt =====
-- The destructors of the broker and of its dispatcher leave no descriptor open.
use Prim.Native.String.{String}
use memfd_buffer_backend.Prelude.{
  ℕ, ◌+◌, ◌≡◌, refl, ap, sym, subst, ◌∙◌, List, [], ◌∷◌, Option, none, some, arith, inl, inr, total,
  Bool-cases,
}
use memfd_buffer_backend.Errors.{Result, ok, err, thread_failed}
use memfd_buffer_backend.Pool.{Block}
use memfd_buffer_backend.Os.{Os, Log, alive, mapped_at, closed, unlinked, IsSound, alive-le}
use memfd_buffer_backend.Os.Accounts.{is}
use memfd_buffer_backend.Linux.Broker.{
  FdDispatcher, FdBroker, RegisteredBlock, find, erase, remove_socket, stop, remove_all,
  destroy_broker, close_all, close_found, unwatch, register_block, start_broker,
}
use memfd_buffer_backend.Linux.Broker.Maps.{keys, servers}
use memfd_buffer_backend.Linux.Broker.Registration.{register_block-Fits}
use memfd_buffer_backend.Linux.Broker.Descriptors.{
  held, IsWhole, Fits, Started, start_broker-Started,
}

pub unwatch-alive : (o : Option ℕ) (l : Log) (x : ℕ) → alive (unwatch o l) x ≡ alive l x
unfolding unwatch alive
unwatch-alive none l x = refl
unwatch-alive (some e) l x = refl

remove_socket-first :
    (d : FdDispatcher) (s c : ℕ) (m : List (ℕ × ℕ)) (l : Log)
    → remove_socket (record d { sockets = (s, c) ∷ m }) s l
      ≡ (record d { sockets = m }, closed c ∷ closed s ∷ unwatch d.epoll_fd l)
unfolding remove_socket find erase
remove_socket-first d s c m l = ground arith

remove_all-first :
    (d : FdDispatcher) (s c : ℕ) (m : List (ℕ × ℕ)) (id : ℕ) (r : RegisteredBlock)
    (rs : List (ℕ × RegisteredBlock)) (l : Log)
    → s ≡ r.server_socket
    → remove_all (record d { sockets = (s, c) ∷ m }) ((id, r) ∷ rs) l
      ≡ remove_all
          (record d { sockets = m })
          rs
          (unlinked r.socket_path ∷ closed c ∷ closed s ∷ unwatch d.epoll_fd l)
unfolding remove_all
remove_all-first d s c m id r rs l e =
    ap (λ x. remove_all x.0 rs (unlinked r.socket_path ∷ x.1))
      (ap (λ k. remove_socket (record d { sockets = (s, c) ∷ m }) k l) (sym e)
        ∙ remove_socket-first d s c m l)

module _ (others : ℕ → ℕ) where
  abbrev Removed : FdDispatcher → FdDispatcher × Log → Type 0
  Removed d r =
      (r.0 ≡ record d { sockets = [] })
      × ((x : ℕ) → alive r.1 x ≡ others x + held (record d { sockets = [] }) x)

  -- The sockets of the registered blocks are all that the dispatcher serves.
  remove_all-Removed :
      (d : FdDispatcher) (m : List (ℕ × ℕ)) (rs : List (ℕ × RegisteredBlock)) (l : Log)
      → ((x : ℕ) → alive l x ≡ others x + held (record d { sockets = m }) x)
      → keys m ≡ servers rs
      → Removed d (remove_all (record d { sockets = m }) rs l)
  unfolding remove_all alive total
  remove_all-Removed d [] [] l open_fds listed = (refl, open_fds)
  remove_all-Removed d [] ((id, r) ∷ rs) l open_fds listed = absurd (cc)
  remove_all-Removed d ((s, c) ∷ m) [] l open_fds listed = absurd (cc)
  remove_all-Removed d ((s, c) ∷ m) ((id, r) ∷ rs) l open_fds listed =
      subst (Removed d) (sym (remove_all-first d s c m id r rs l (cc))) (
        remove_all-Removed d m rs
          (unlinked r.socket_path ∷ closed c ∷ closed s ∷ unwatch d.epoll_fd l)
          (λ x. ground (
            arith,
            open_fds x,
            open_fds s,
            open_fds c,
            alive-le l s,
            alive-le l c,
            unwatch-alive d.epoll_fd l x,
          ))
          (cc))

  close_both-alive :
      (e v : Option ℕ) (l : Log)
      → ((x : ℕ) → alive l x ≡ others x + is x e + is x v)
      → (x : ℕ) → alive (close_found e (close_found v (unwatch v l))) x ≡ others x
  unfolding close_found unwatch alive
  close_both-alive none none l fds x = omega (arith, fds x)
  close_both-alive none (some v) l fds x = ground (arith, fds x, fds v, alive-le l v)
  close_both-alive (some e) none l fds x = ground (arith, fds x, fds e, alive-le l e)
  close_both-alive (some e) (some v) l fds x =
      ground (arith, fds x, fds v, fds e, alive-le l v, alive-le l e)

  stop-Stopped :
      (d : FdDispatcher) (l : Log)
      → IsWhole d
      → ((x : ℕ) → alive l x ≡ others x + held d x)
      → d.sockets ≡ []
      → (x : ℕ) → alive (stop d l).1 x ≡ others x
  unfolding stop close_all alive total
  stop-Stopped d l whole open_fds empty x = elim (Bool-cases d.running) [
    | inr off ↦ ground (arith, off, open_fds x, whole.no_epoll off, whole.no_event off, empty)
    | inl on ↦
        rw (stop, on, empty)
          (close_both-alive d.epoll_fd d.event_fd l (λ y. ground (arith, open_fds y, empty)) x)
  ]

  -- Destroying a broker closes every descriptor that it has opened, and no other.
  pub destroy_broker-Closed :
      (b : FdBroker) (l : Log)
      → Fits others b l
      → (x : ℕ) → alive (destroy_broker (b, l)).1 x ≡ others x
  unfolding destroy_broker
  destroy_broker-Closed b l v =
      let (same, fds) =
        remove_all-Removed b.dispatcher b.dispatcher.sockets b.registered_blocks l v.descriptors
          v.listed in
      stop-Stopped (remove_all b.dispatcher b.registered_blocks l).0
        (remove_all b.dispatcher b.registered_blocks l).1
        (subst IsWhole (sym same) (record {
          no_epoll = v.whole.no_epoll;
          no_event = v.whole.no_event;
          no_sockets = λ u. refl;
        }))
        (λ x. fds x ∙ ap (λ d. others x + held d x) (sym same)) (ap (λ d. d.sockets) same)

close_all-mapped_at :
    (m : List (ℕ × ℕ)) (l : Log) (x : ℕ) → mapped_at (close_all m l) x ≡ mapped_at l x
unfolding close_all mapped_at
close_all-mapped_at [] l x = refl
close_all-mapped_at ((s, d) ∷ m) l x = close_all-mapped_at m (closed d ∷ closed s ∷ l) x

close_found-mapped_at :
    (o : Option ℕ) (l : Log) (x : ℕ) → mapped_at (close_found o l) x ≡ mapped_at l x
unfolding close_found mapped_at
close_found-mapped_at none l x = refl
close_found-mapped_at (some d) l x = refl

unwatch-mapped_at : (o : Option ℕ) (l : Log) (x : ℕ) → mapped_at (unwatch o l) x ≡ mapped_at l x
unfolding unwatch mapped_at
unwatch-mapped_at none l x = refl
unwatch-mapped_at (some e) l x = refl

stop-mapped_at : (d : FdDispatcher) (l : Log) (x : ℕ) → mapped_at (stop d l).1 x ≡ mapped_at l x
unfolding stop
stop-mapped_at d l x = elim (Bool-cases d.running) [
  | inr off ↦ rw (stop, off) refl
  | inl on ↦
      rw (stop, on)
        (close_found-mapped_at d.epoll_fd
            (close_found d.event_fd (close_all d.sockets (unwatch d.event_fd l))) x
          ∙ close_found-mapped_at d.event_fd (close_all d.sockets (unwatch d.event_fd l)) x
          ∙ close_all-mapped_at d.sockets (unwatch d.event_fd l) x
          ∙ unwatch-mapped_at d.event_fd l x)
]

remove_all-mapped_at :
    (d : FdDispatcher) (rs : List (ℕ × RegisteredBlock)) (l : Log) (x : ℕ)
    → mapped_at (remove_all d rs l).1 x ≡ mapped_at l x
unfolding remove_all remove_socket mapped_at
remove_all-mapped_at d [] l x = refl
remove_all-mapped_at d ((id, r) ∷ rs) l x =
    remove_all-mapped_at (remove_socket d r.server_socket l).0 rs
      (unlinked r.socket_path ∷ (remove_socket d r.server_socket l).1) x
    ∙ close_found-mapped_at (find d.sockets r.server_socket)
        (closed r.server_socket ∷ unwatch d.epoll_fd l) x
    ∙ unwatch-mapped_at d.epoll_fd l x

-- A broker maps and unmaps nothing.
pub destroy_broker-mapped_at :
    (b : FdBroker) (l : Log) (x : ℕ) → mapped_at (destroy_broker (b, l)).1 x ≡ mapped_at l x
unfolding destroy_broker
destroy_broker-mapped_at b l x =
    let (d, k) = remove_all b.dispatcher b.registered_blocks l in
    stop-mapped_at d k x ∙ remove_all-mapped_at b.dispatcher b.registered_blocks l x

-- A broker that is asked to register blocks, whatever comes of it.
pub register_all : Os → (ℕ → String) → ℕ → ℕ → FdBroker × Log → List Block → FdBroker × Log
register_all os to_string euid own_pid s [] = s
register_all os to_string euid own_pid s (b ∷ bs) =
    register_all os to_string euid own_pid (register_block os to_string euid own_pid s b).1.0 bs

-- What the life of a broker leaves open, besides what was open after the calls `l`.
abbrev pub Lifetime : Os → (ℕ → String) → ℕ → ℕ → Log → List Block → Result FdBroker × Log → Type 0
Lifetime os to_string euid own_pid l bs (ok b, k) =
    (x : ℕ)
    → alive (destroy_broker (register_all os to_string euid own_pid (b, k) bs)).1 x ≡ alive l x
Lifetime os to_string euid own_pid l bs (err e, k) =
    (e ≡ thread_failed)
    × (epoll : ℕ) × (event : ℕ) × ((x : ℕ)
        → alive k x ≡ alive l x + is x (some epoll) + is x (some event))

module _ {os : Os} (sound : IsSound os) (to_string : ℕ → String) (euid own_pid : ℕ) where
  register_all-Fits :
      (others : ℕ → ℕ) (s : FdBroker × Log) (bs : List Block)
      → Fits others s.0 s.1
      → let r = register_all os to_string euid own_pid s bs in Fits others r.0 r.1
  unfolding register_all
  register_all-Fits others s [] v = v
  register_all-Fits others s (b ∷ bs) v =
      register_all-Fits others (register_block os to_string euid own_pid s b).1.0 bs
        (register_block-Fits sound others to_string euid own_pid s.0 s.1 b v)

  Started-Lifetime :
      (l : Log) (bs : List Block) (r : Result FdBroker × Log)
      → Started l r
      → Lifetime os to_string euid own_pid l bs r
  Started-Lifetime l bs (err e, k) v = v
  Started-Lifetime l bs (ok b, k) v = λ x.
      let r = register_all os to_string euid own_pid (b, k) bs in
      destroy_broker-Closed (alive l) r.0 r.1 (register_all-Fits (alive l) (b, k) bs v) x

  -- Whichever calls of the system fail: either the constructor of the broker throws since the thread
  -- of its dispatcher cannot be started, and then the epoll and the event descriptor are left open,
  -- and no other; or the broker, asked to register any blocks and destroyed, leaves open just the
  -- descriptors that were open before.
  pub broker_leaves_nothing :
      (l : Log) (bs : List Block) → Lifetime os to_string euid own_pid l bs (start_broker os l)
  broker_leaves_nothing l bs =
      Started-Lifetime l bs (start_broker os l) (start_broker-Started sound l)
