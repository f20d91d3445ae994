-- ===== src/Linux/Broker/Dispatcher.antt =====
-- `FDDispatcher` (shared_buffer_platform_linux.cpp): its map of server sockets, its methods, and the
-- loop of its thread, which is given what `epoll_wait` answers, round by round.
use memfd_buffer_backend.Prelude.{
  ℕ, Bool, true, false, not, List, [], ◌∷◌, Option, none, some, ◌==◌, if◌then◌else◌,
}
use memfd_buffer_backend.Errors.{Result, ok, err, thread_failed}
use memfd_buffer_backend.Os.{
  Os, Log, duplicated, closed, sent, other, open_descriptor, attempt_call,
}

pub record FdDispatcher : Type 0 where
  pub epoll_fd : Option ℕ
  pub event_fd : Option ℕ
  pub sockets : List (ℕ × ℕ)  -- a server socket, and the descriptor that it serves
  pub running : Bool

module _ {ℓ} {A : Type ℓ} where
  -- `find`, `erase` and `operator[]` with an assignment.
  unfoldable pub find : List (ℕ × A) → ℕ → Option A
  find [] k = none
  find ((j, a) ∷ m) k = if j == k then some a else find m k

  unfoldable pub erase : List (ℕ × A) → ℕ → List (ℕ × A)
  erase [] k = []
  erase ((j, a) ∷ m) k = if j == k then m else (j, a) ∷ erase m k

  unfoldable pub insert : List (ℕ × A) → ℕ → A → List (ℕ × A)
  insert [] k b = (k, b) ∷ []
  insert ((j, a) ∷ m) k b = if j == k then (k, b) ∷ m else (j, a) ∷ insert m k b

abbrev pub not_running : FdDispatcher
not_running = record { epoll_fd = none; event_fd = none; sockets = []; running = false }

-- The end of the constructor of `FDDispatcher`: where the thread cannot be started, `std::thread`
-- throws, and the destructor does not run.
unfoldable pub start_thread : ℕ → ℕ → Bool × Log → Result FdDispatcher × Log
start_thread epoll event (started, l) = if not started then (err thread_failed, l) else (
  ok (record { epoll_fd = some epoll; event_fd = some event; sockets = []; running = true }),
  l,
)

-- The constructor of `FDDispatcher`, which goes without a thread where a call fails.
unfoldable pub watch_events : Os → ℕ → Option ℕ × Log → Result FdDispatcher × Log
unfolding start_thread
watch_events os epoll (none, l) = (ok not_running, closed epoll ∷ l)
watch_events os epoll (some event, l) =
    let (added, l') = attempt_call os l in
    if not added
    then (ok not_running, closed epoll ∷ closed event ∷ l')
    else start_thread epoll event (attempt_call os l')

start_epoll : Os → Option ℕ × Log → Result FdDispatcher × Log
unfolding watch_events
start_epoll os (none, l) = (ok not_running, l)
start_epoll os (some epoll, l) = watch_events os epoll (open_descriptor os l)

unfoldable pub start_dispatcher : Os → Log → Result FdDispatcher × Log
unfolding start_epoll
start_dispatcher os l = start_epoll os (open_descriptor os l)

-- `dup` of `fd_to_serve`.
abbrev pub log_dup : ℕ → Log → Option ℕ → Option ℕ × Log
log_dup fd l none = (none, other ∷ l)
log_dup fd l (some d) = (some d, duplicated fd d ∷ l)

abbrev pub duplicate : Os → ℕ → Log → Option ℕ × Log
duplicate os fd l = log_dup fd l (os.descriptor l)

-- The end of `add_socket`, after `dup`, `fcntl` and the insertion.
unfoldable pub watch_socket : Os → FdDispatcher → ℕ → ℕ → Bool × Log → Bool × (FdDispatcher × Log)
watch_socket os d server_socket duplicate (added, l) =
    if not added
    then (false, (record d { sockets = erase d.sockets server_socket }, closed duplicate ∷ l))
    else (true, (d, l))

unfoldable pub serve_duplicate :
    Os → FdDispatcher → ℕ → Option ℕ × Log → Bool × (FdDispatcher × Log)
unfolding watch_socket
serve_duplicate os d server_socket (none, l) = (false, (d, l))
serve_duplicate os d server_socket (some duplicate, l) =
    watch_socket os (record d { sockets = insert d.sockets server_socket duplicate }) server_socket
      duplicate (attempt_call os (other ∷ l))

unfoldable pub add_socket : Os → FdDispatcher → ℕ → ℕ → Log → Bool × (FdDispatcher × Log)
unfolding serve_duplicate
add_socket os d server_socket fd_to_serve l =
    if not d.running
    then (false, (d, l))
    else serve_duplicate os d server_socket (duplicate os fd_to_serve l)

unfoldable pub close_found : Option ℕ → Log → Log
close_found none l = l
close_found (some fd) l = closed fd ∷ l

unfoldable pub unwatch : Option ℕ → Log → Log
unwatch none l = l
unwatch (some epoll) l = other ∷ l

unfoldable pub remove_socket : FdDispatcher → ℕ → Log → FdDispatcher × Log
unfolding close_found unwatch
remove_socket d server_socket l = (
  record d { sockets = erase d.sockets server_socket },
  close_found (find d.sockets server_socket) (closed server_socket ∷ unwatch d.epoll_fd l),
)

unfoldable pub close_all : List (ℕ × ℕ) → Log → Log
close_all [] l = l
close_all ((s, d) ∷ m) l = close_all m (closed d ∷ closed s ∷ l)

-- `stop`, which is also the destructor: the thread is woken by a `write` and joined first.
unfoldable pub stop : FdDispatcher → Log → FdDispatcher × Log
unfolding close_all close_found unwatch
stop d l = if not d.running then (d, l) else (
  record d { epoll_fd = none; event_fd = none; sockets = []; running = false },
  close_found d.epoll_fd (close_found d.event_fd (close_all d.sockets (unwatch d.event_fd l))),
)

-- The body of the loop in `run`: an event of one socket.
pub send_to : ℕ → Option ℕ × Log → Log
send_to fd (none, l) = l
send_to fd (some client, l) = closed client ∷ sent client fd ∷ l

unfoldable pub serve_found : Os → Option ℕ → Log → Log
unfolding send_to
serve_found os none l = l
serve_found os (some fd) l = send_to fd (open_descriptor os l)

unfoldable pub is_event_fd : Option ℕ → ℕ → Bool
is_event_fd none socket = false
is_event_fd (some event) socket = socket == event

unfoldable pub serve : Os → FdDispatcher → ℕ → Log → Log
unfolding is_event_fd serve_found
serve os d socket l =
    if is_event_fd d.event_fd socket then other ∷ l else serve_found os (find d.sockets socket) l

serve_all : Os → FdDispatcher → List ℕ → Log → Log
unfolding serve
serve_all os d [] l = l
serve_all os d (s ∷ ss) l = serve_all os d ss (serve os d s l)

-- What `epoll_wait` answers: the sockets that are ready, `EINTR`, or another error.
pub data Wait : Type 0 where
  ready : List ℕ → Wait
  interrupted : Wait
  failed : Wait

unfoldable pub run : Os → FdDispatcher → List Wait → Log → Log
unfolding serve_all
run os d [] l = l
run os d (ready ss ∷ ws) l = run os d ws (serve_all os d ss (other ∷ l))
run os d (interrupted ∷ ws) l = run os d ws (other ∷ l)
run os d (failed ∷ ws) l = other ∷ l
