-- ===== src/Linux/Broker/Descriptors.antt =====
-- Which descriptors the broker keeps open, through every method and on every failure.
use Prim.Native.String.{String}
use memfd_buffer_backend.Prelude.{
  ℕ, ◌+◌, ◌≡◌, refl, Bool, true, false, [], ◌∷◌, ◌++◌, none, some, arith, inl, inr, total,
  Bool-cases, Option-cases,
}
use memfd_buffer_backend.Errors.{Result, ok, err, thread_failed}
use memfd_buffer_backend.Os.{Os, Log, alive, opened, closed, duplicated, other, IsSound, alive-le}
use memfd_buffer_backend.Linux.{create_fd_server_socket, bind_socket, listen_on, restrict_socket}
use memfd_buffer_backend.Os.Accounts.{is}
use memfd_buffer_backend.Linux.Broker.{
  FdDispatcher, FdBroker, find, start_dispatcher, start_broker, watch_events, start_thread,
  with_dispatcher, not_running, add_socket, serve_duplicate, watch_socket,
}
use memfd_buffer_backend.Linux.Broker.Maps.{
  pair_of, keys, servers, find-absent, total-insert, keys-insert, erase-insert,
}

-- How often a dispatcher holds the descriptor `x`.
abbrev pub held : FdDispatcher → ℕ → ℕ
held d x = is x d.epoll_fd + is x d.event_fd + total (pair_of x) d.sockets

-- A dispatcher that does not run holds nothing.
pub record IsWhole (d : FdDispatcher) : Type 0 where
  pub no_epoll : d.running ≡ false → d.epoll_fd ≡ none
  pub no_event : d.running ≡ false → d.event_fd ≡ none
  pub no_sockets : d.running ≡ false → d.sockets ≡ []

-- The open descriptors are those of others and those of the broker, each once; the sockets that are
-- served are those of the registered blocks.
pub record Fits (others : ℕ → ℕ) (b : FdBroker) (l : Log) : Type 0 where
  pub descriptors : (x : ℕ) → alive l x ≡ others x + held b.dispatcher x
  pub listed : keys b.dispatcher.sockets ≡ servers b.registered_blocks
  pub whole : IsWhole b.dispatcher

-- What the construction of a broker leaves. Where it throws, the thread of the dispatcher could not
-- be started, and the epoll and the event descriptor stay open.
abbrev pub Started : Log → Result FdBroker × Log → Type 0
Started l (ok b, k) = Fits (alive l) b k
Started l (err e, k) =
    (e ≡ thread_failed)
    × (epoll : ℕ) × (event : ℕ) × ((x : ℕ)
        → alive k x ≡ alive l x + is x (some epoll) + is x (some event))

module _ {os : Os} (sound : IsSound os) where
  -- Besides what was open, a server socket, if there is one.
  pub create_fd_server_socket-Opens :
      (path : String) (l : Log) (x : ℕ)
      → let r = create_fd_server_socket os path l in alive r.1 x ≡ alive l x + is x r.0
  unfolding create_fd_server_socket bind_socket listen_on restrict_socket alive
  create_fd_server_socket-Opens path l x = elim (Option-cases (os.descriptor l)) [
    | inl e ↦ ground (arith, e)
    | inr (s, e) ↦ ground (arith, e, sound.new_descriptor l s e)
  ]

  start_thread-Started :
      (l k : Log) (epoll event : ℕ) (started : Bool)
      → ((x : ℕ) → alive k x ≡ alive l x + is x (some epoll) + is x (some event))
      → Started l (with_dispatcher (start_thread epoll event (started, other ∷ k)))
  unfolding start_thread with_dispatcher alive total
  start_thread-Started l k epoll event false open_both = (refl, epoll, event, open_both)
  start_thread-Started l k epoll event true open_both = record {
    descriptors = λ x. ground (arith, open_both x);
    listed = refl;
    whole = record { no_epoll = λ u. cc; no_event = λ u. cc; no_sockets = λ u. cc };
  }

  idle_broker-Started :
      (l k : Log)
      → ((x : ℕ) → alive k x ≡ alive l x)
      → Started l (with_dispatcher (ok not_running, k))
  unfolding with_dispatcher total
  idle_broker-Started l k same = record {
    descriptors = λ x. ground (arith, same x);
    listed = refl;
    whole = record { no_epoll = λ u. refl; no_event = λ u. refl; no_sockets = λ u. refl };
  }

  pub start_broker-Started : (l : Log) → Started l (start_broker os l)
  unfolding start_broker start_dispatcher watch_events alive total
  start_broker-Started l = elim (Option-cases (os.descriptor l)) [
    | inl e ↦ rw (e, start_broker) (idle_broker-Started l (other ∷ l) (λ x. refl))
    | inr (p, e) ↦ elim (Option-cases (os.descriptor (opened p ∷ l))) [
      | inl f ↦
          rw (e, start_broker, f)
            (idle_broker-Started l (closed p ∷ other ∷ opened p ∷ l)
              (λ x. ground (arith, sound.new_descriptor l p e)))
      | inr (v, f) ↦ elim (Bool-cases (os.succeeds (opened v ∷ opened p ∷ l))) [
        | inr refused ↦
            rw (e, start_broker, f, refused)
              (idle_broker-Started l (closed p ∷ closed v ∷ other ∷ opened v ∷ opened p ∷ l) (λ x.
                ground
                  (arith, sound.new_descriptor l p e, sound.new_descriptor (opened p ∷ l) v f)))
        | inl added ↦
            rw (e, start_broker, f, added)
              (start_thread-Started l (other ∷ opened v ∷ opened p ∷ l) p v
                (os.succeeds (other ∷ opened v ∷ opened p ∷ l))
                (λ x.
                  ground
                    (arith, sound.new_descriptor l p e, sound.new_descriptor (opened p ∷ l) v f)))
      ]
    ]
  ]

  -- What `add_socket` leaves, where a server socket `s` is open besides those that the broker holds.
  abbrev pub Added : (ℕ → ℕ) → FdDispatcher → ℕ → Bool × (FdDispatcher × Log) → Type 0
  Added others d s (true, (d', l')) =
      ((x : ℕ) → alive l' x ≡ others x + held d' x)
      × (keys d'.sockets ≡ keys d.sockets ++ s ∷ [])
      × IsWhole d'
  Added others d s (false, (d', l')) =
      ((x : ℕ) → alive l' x ≡ others x + held d x + is x (some s)) × (d' ≡ d)

  serve_duplicate-Added :
      (others : ℕ → ℕ) (d : FdDispatcher) (s y : ℕ) (l : Log)
      → d.running ≡ true
      → find d.sockets s ≡ none
      → alive l y ≡ 0
      → ((x : ℕ) → alive l x ≡ others x + held d x + is x (some s))
      → (from : ℕ) → Added others d s (serve_duplicate os d s (some y, duplicated from y ∷ l))
  unfolding serve_duplicate watch_socket alive
  serve_duplicate-Added others d s y l on absent new open_socket from =
      elim (Bool-cases (os.succeeds (other ∷ duplicated from y ∷ l))) [
        | inr refused ↦
            rw (refused, serve_duplicate)
              (
                (λ x. ground (arith, open_socket x, new)),
                rw (erase-insert d.sockets s y absent) refl,
              )
        | inl added ↦
            rw (added, serve_duplicate)
              (
                (λ x.
                    ground
                      (arith, open_socket x, new, total-insert (pair_of x) d.sockets s y absent)),
                keys-insert d.sockets s y absent,
                record { no_epoll = λ u. cc; no_event = λ u. cc; no_sockets = λ u. cc },
              )
      ]

  pub add_socket-Added :
      (others : ℕ → ℕ) (d : FdDispatcher) (s fd : ℕ) (l : Log)
      → IsWhole d
      → ((x : ℕ) → alive l x ≡ others x + held d x + is x (some s))
      → Added others d s (add_socket os d s fd l)
  unfolding add_socket alive serve_duplicate
  add_socket-Added others d s fd l whole open_socket = elim (Bool-cases d.running) [
    | inr off ↦ rw (off, add_socket) (open_socket, refl)
    | inl on ↦ elim (Option-cases (os.descriptor l)) [
      | inl e ↦ rw (on, add_socket, e) (open_socket, refl)
      | inr (y, e) ↦
          rw (on, add_socket, e)
            (serve_duplicate-Added others (record d { running = true }) s y l refl
              (find-absent d.sockets s (ground (arith, open_socket s, alive-le l s)))
              (sound.new_descriptor l y e) open_socket fd)
    ]
  ]
