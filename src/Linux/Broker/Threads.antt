-- ===== src/Linux/Broker/Threads.antt =====
-- The thread of `FDDispatcher` beside the methods of the broker (shared_buffer_platform_linux.cpp),
-- one access to shared state at a time: a system call, or a block under the dispatcher's mutex. The
-- broker's own mutex lets one method run at a time (the owner); other threads of the process open
-- and close descriptors of their own.
pub mod Accounts
pub mod Clients
pub mod Calm
pub mod Examples
pub mod Methods
pub mod Ending
pub mod Source
pub mod Origins
pub mod Race
pub mod Reached
pub mod Sending
mod States
pub use States.*
pub mod Additions
use memfd_buffer_backend.Prelude.{
  ℕ, ◌+◌, ◌-◌, ◌≡◌, ◌≤◌, Bool, true, false, not, List, [], ◌∷◌, Option, none, some, ◌==◌,
  if◌then◌else◌,
}
use memfd_buffer_backend.Os.{Os, Log, opened, closed, sent, other, open_descriptor, attempt_call}
use memfd_buffer_backend.Os.Accounts.{is}
use memfd_buffer_backend.Linux.Broker.{
  FdDispatcher, find, erase, insert, duplicate, is_event_fd, close_found, unwatch, Wait, ready,
  interrupted, failed,
}

abbrev pub gain : Option ℕ → (ℕ → ℕ) → ℕ → ℕ
gain o others x = others x + is x o

abbrev pub lose : Option ℕ → (ℕ → ℕ) → ℕ → ℕ
lose o others x = others x - is x o

abbrev pub watch : (ℕ → Bool) → ℕ → Bool → ℕ → Bool
watch watched socket b x = if x == socket then b else watched x

-- `remove_socket`, from the lock on.
find_served : Configuration → ℕ → Option ℕ → Configuration
find_served s socket o = record s {
  owner = unwatching socket o;
  dispatcher = record s.dispatcher { sockets = erase s.dispatcher.sockets socket };
}

-- `add_socket`, after `dup`; without a duplicate the socket is its caller's again.
pub duplicated_as : Configuration → ℕ → Option ℕ × Log → Configuration
duplicated_as s socket (none, l) = record s {
  owner = free;
  others = gain (some socket) s.others;
  log = l;
}
duplicated_as s socket (some d, l) = record s { owner = inserting socket d; log = l }

watched_as : Configuration → ℕ → ℕ → Bool × Log → Configuration
watched_as s socket d (false, l) = record s { owner = erasing socket d; log = l }
watched_as s socket d (true, l) = record s {
  owner = free;
  watched = watch s.watched socket true;
  log = l;
}

-- `join` returns when the thread has finished.
join : Configuration → Thread → Configuration
join s finished = record s { owner = clearing }
join s _ = s

-- `stop` under the lock, one entry of the map at a time; the thread that reads it has ended.
clear_entry : Configuration → List (ℕ × ℕ) → Configuration
clear_entry s [] = record s { owner = closing_event }
clear_entry s ((socket, d) ∷ m) = record s {
  dispatcher = record s.dispatcher { sockets = m };
  log = closed d ∷ closed socket ∷ s.log;
}

pub move_owner : Os → Configuration → Owner → Configuration
unfolding duplicated_as watched_as find_served join clear_entry close_found unwatch
move_owner os s free = s
move_owner os s (duplicating socket fd) = duplicated_as s socket (duplicate os fd s.log)
move_owner os s (inserting socket d) = record s {
  owner = watching socket d;
  dispatcher = record s.dispatcher { sockets = insert s.dispatcher.sockets socket d };
  log = other ∷ s.log;
}
move_owner os s (watching socket d) = watched_as s socket d (attempt_call os s.log)
move_owner os s (erasing socket d) = record s {
  owner = dropping socket d;
  dispatcher = record s.dispatcher { sockets = erase s.dispatcher.sockets socket };
}
move_owner os s (dropping socket d) = record s {
  owner = free;
  others = gain (some socket) s.others;
  log = closed d ∷ s.log;
}
move_owner os s (finding socket) = find_served s socket (find s.dispatcher.sockets socket)
move_owner os s (unwatching socket o) = record s {
  owner = closing socket o;
  watched = watch s.watched socket false;
  log = unwatch s.dispatcher.epoll_fd s.log;
}
move_owner os s (closing socket o) = record s {
  owner = closing_served o;
  log = closed socket ∷ s.log;
}
move_owner os s (closing_served o) = record s { owner = free; log = close_found o s.log }
move_owner os s waking = record s { owner = joining; log = unwatch s.dispatcher.event_fd s.log }
move_owner os s joining = join s s.thread
move_owner os s clearing = clear_entry s s.dispatcher.sockets
move_owner os s closing_event = record s {
  owner = closing_epoll;
  dispatcher = record s.dispatcher { event_fd = none };
  log = close_found s.dispatcher.event_fd s.log;
}
move_owner os s closing_epoll = record s {
  owner = free;
  dispatcher = record s.dispatcher { epoll_fd = none };
  log = close_found s.dispatcher.epoll_fd s.log;
}

-- The calls of the methods. The caller of `add_socket` has opened the socket and hands it over.
pub call_add : Configuration → ℕ → ℕ → Bool → Configuration
call_add s socket fd false = s
call_add s socket fd true = record s {
  owner = duplicating socket fd;
  others = lose (some socket) s.others;
}

pub call_stop : Configuration → Bool → Configuration
call_stop s false = s
call_stop s true = record s { owner = waking; dispatcher = record s.dispatcher { running = false } }

-- The lookup of the descriptor to serve, under the lock.
looked_up : Configuration → ℕ → List ℕ → Option ℕ → Configuration
looked_up s socket ks none = record s { thread = looking ks }
looked_up s socket ks (some fd) = record s { thread = accepting socket fd ks }

look_up : Configuration → ℕ → List ℕ → Configuration
unfolding looked_up is_event_fd
look_up s socket ks =
    if is_event_fd s.dispatcher.event_fd socket
    then record s { thread = looking ks; log = other ∷ s.log }
    else looked_up s socket ks (find s.dispatcher.sockets socket)

accepted : Configuration → ℕ → ℕ → List ℕ → Option ℕ × Log → Configuration
accepted s socket fd ks (none, l) = record s { thread = looking ks; log = l }
accepted s socket fd ks (some client, l) = record s {
  thread = sending socket client fd ks;
  log = l;
}

pub move_thread : Os → Configuration → Thread → Configuration
unfolding look_up accepted
move_thread os s checking = record s { thread = if s.dispatcher.running then polling else finished }
move_thread os s polling = s
move_thread os s (looking []) = record s { thread = checking }
move_thread os s (looking (k ∷ ks)) = look_up s k ks
move_thread os s (accepting socket fd ks) = accepted s socket fd ks (open_descriptor os s.log)
move_thread os s (sending socket client fd ks) = record s {
  thread = hanging_up client ks;
  log = sent client fd ∷ s.log;
}
move_thread os s (hanging_up client ks) = record s {
  thread = looking ks;
  log = closed client ∷ s.log;
}
move_thread os s finished = s

-- `epoll_wait` returns.
pub poll : Configuration → Wait → Configuration
poll s (ready ks) = record s { thread = looking ks; log = other ∷ s.log }
poll s interrupted = record s { thread = checking; log = other ∷ s.log }
poll s failed = record s { thread = finished; log = other ∷ s.log }

-- Another thread opens a descriptor.
pub open_other : Configuration → Option ℕ × Log → Configuration
open_other s (o, l) = record s { others = gain o s.others; log = l }

pub step : Os → Configuration → Move → Configuration
unfolding move_owner move_thread poll call_add call_stop open_other
step os s owner_moves = move_owner os s s.owner
step os s thread_moves = move_thread os s s.thread
step os s (wakes w) = poll s w
step os s (adds socket fd) = call_add s socket fd s.dispatcher.running
step os s (removes socket) = record s { owner = finding socket }
step os s stops = call_stop s s.dispatcher.running
step os s opens = open_other s (open_descriptor os s.log)
step os s (closes x) = record s { others = lose (some x) s.others; log = closed x ∷ s.log }

-- What may happen next. `epoll_wait` reports watched descriptors; a method is called when none runs,
-- `add_socket` with a new socket of the caller's, `remove_socket` with one that was added.
abbrev pub AllWatched : (ℕ → Bool) → List ℕ → Type 0
AllWatched watched [] = Unit
AllWatched watched (k ∷ ks) = (watched k ≡ true) × AllWatched watched ks

abbrev pub Reported : (ℕ → Bool) → Wait → Type 0
Reported watched (ready ks) = AllWatched watched ks
Reported watched _ = Unit

abbrev pub Allowed : Configuration → Move → Type 0
Allowed s (wakes w) = (s.thread ≡ polling) × Reported s.watched w
Allowed s (adds socket fd) = (s.owner ≡ free) × (1 ≤ s.others socket)
Allowed s (removes socket) =
    (s.owner ≡ free) × (d : ℕ) × (find s.dispatcher.sockets socket ≡ some d)
Allowed s stops = s.owner ≡ free
Allowed s (closes x) = 1 ≤ s.others x
Allowed s _ = Unit

-- The same, but `remove_socket` is not called.
abbrev pub Calm : Configuration → Move → Type 0
Calm s (removes socket) = ⊥
Calm s m = Allowed s m

-- A dispatcher that was started with the epoll and event descriptors `epoll` and `event`, before
-- its first call; the process has the descriptors that the log leaves open.
abbrev pub started : (epoll event : ℕ) → (ℕ → ℕ) → Log → Configuration
started epoll event others l = record {
  owner = free;
  thread = checking;
  dispatcher = record {
    epoll_fd = some epoll;
    event_fd = some event;
    sockets = [];
    running = true;
  };
  watched = λ x. x == event;
  others = others;
  log = l;
}

-- The states that moves of a kind lead to.
pub data Reaches (os : Os) (may : Configuration → Move → Type 0) (s : Configuration)
    : Configuration → Type 0 where
  start : Reaches os may s s
  next :
      {t : Configuration}
      → Reaches os may s t
      → (m : Move) → may t m
      → Reaches os may s (step os t m)
