-- ===== src/Linux/Broker/Threads/States.antt =====
-- The state of the dispatcher's threads, and the moves that change it.
use memfd_buffer_backend.Prelude.{ℕ, Bool, List, Option}
use memfd_buffer_backend.Os.{Log}
use memfd_buffer_backend.Linux.Broker.{FdDispatcher, Wait}

-- Where a method stands, with its locals.
pub data Owner : Type 0 where
  free : Owner
  duplicating : (server_socket fd_to_serve : ℕ) → Owner  -- before `dup`
  inserting : (server_socket duplicated : ℕ) → Owner  -- before `fcntl` and the insertion
  watching : (server_socket duplicated : ℕ) → Owner  -- before EPOLL_CTL_ADD
  erasing : (server_socket duplicated : ℕ) → Owner  -- where that failed
  dropping : (server_socket duplicated : ℕ) → Owner
  finding : (server_socket : ℕ) → Owner  -- the start of `remove_socket`
  unwatching : (server_socket : ℕ) (descriptor : Option ℕ) → Owner
  closing : (server_socket : ℕ) (descriptor : Option ℕ) → Owner
  closing_served : (descriptor : Option ℕ) → Owner
  waking : Owner  -- `stop`, after `running_` was cleared
  joining : Owner
  clearing : Owner  -- the loop that closes what the map has
  closing_event : Owner
  closing_epoll : Owner

-- Where the thread stands in `run`, with the events that are left of the last `epoll_wait`.
pub data Thread : Type 0 where
  checking : Thread  -- before the load of `running_`
  polling : Thread
  looking : (events : List ℕ) → Thread
  accepting : (socket fd_to_serve : ℕ) (events : List ℕ) → Thread
  sending : (socket client fd_to_serve : ℕ) (events : List ℕ) → Thread
  hanging_up : (client : ℕ) (events : List ℕ) → Thread
  finished : Thread

-- `watched` has the descriptors that epoll reports: added, and not deleted since. `others` counts
-- the descriptors that neither the dispatcher nor a method holds.
pub record Configuration : Type 0 where
  pub owner : Owner
  pub thread : Thread
  pub dispatcher : FdDispatcher
  pub watched : ℕ → Bool
  pub others : ℕ → ℕ
  pub log : Log

pub data Move : Type 0 where
  owner_moves : Move
  thread_moves : Move
  wakes : Wait → Move
  adds : (server_socket fd_to_serve : ℕ) → Move
  removes : (server_socket : ℕ) → Move
  stops : Move
  opens : Move
  closes : ℕ → Move
