-- ===== src/Protocol.antt =====
-- One pool block, its publisher, and any number of readers in other threads and processes, one
-- shared access at a time, in any order (memory_pool.hpp and .cpp; `make_lease` of
-- shared_buffer.cpp; `validate_mapping` and `from_descriptor_with_endpoint` for the readers).
-- The accesses are sequentially consistent here.
mod Invariant
mod Safety
mod Progress
mod Examples
use memfd_buffer_backend.Prelude.{
  ℕ, suc, ◌+◌, ◌-◌, ◌%◌, ◌^◌, Bool, true, false, not, ◌&&◌, ◌||◌, List, Option, none, some, ltb,
  leb, ◌==◌, if◌then◌else◌, get_elem?, set,
}
use memfd_buffer_backend.Handles.{State, unset, in_use, finalized}
use memfd_buffer_backend.Header.{grace_period_us, reuse_claimed, refuses_reader}

-- The shared atomics and payload. The payload is one number: its content does not matter here.
-- `write_state` is the state in the `HandleState` of the buffer over the block, and `write_handle`
-- says whether the application has a write handle, which it can write through as long as it lives,
-- whatever the state. The code reads none of the last three: `generation` counts the calls of
-- `allocate` that took the block, `sealed` is the payload at the last `mark_published`, and `closed`
-- says whether the state was finalized then, with no write handle left.
pub record Memory : Type 0 where
  pub reader_state : ℕ
  pub ipc_uid : ℕ
  pub publish_timestamp_us : ℕ
  pub payload : ℕ
  pub write_state : State
  pub write_handle : Bool
  pub now : ℕ
  pub generation : ℕ
  pub sealed : ℕ
  pub closed : Bool

-- Where the publisher stands. The flag says whether the block was claimed or is newly created.
pub data Publisher : Type 0 where
  available : Publisher  -- in `free_blocks_`
  checked : Publisher  -- `try_claim_block`, before `try_claim_shared_buffer_reuse`
  reserved : Bool → Publisher  -- `allocate`, before `ipc_uid.store(0)`
  uid_cleared : Bool → Publisher  -- before `publish_timestamp_us.store(0)`
  stamp_cleared : Bool → Publisher  -- before `release_shared_buffer_reuse_claim`
  writing : Publisher  -- the application may write
  uid_stored : Publisher  -- `mark_published`, before `refresh_publish_timestamp`
  published : Publisher

-- Why a reader wants a slot: for the descriptor of a generation (`from_descriptor_with_endpoint`),
-- or for a local read handle (`make_lease`).
pub data Purpose : Type 0 where
  import : ℕ → Purpose
  lease : Purpose

pub data Reader : Type 0 where
  idle : Reader
  described : ℕ → Reader  -- before the load of `ipc_uid` in `validate_mapping`
  validated : Purpose → Reader  -- before the load of `reader_state`
  trying : Purpose → ℕ → Reader  -- head of the loop, with its `value`
  acquired : Purpose → Reader  -- before the second load of `ipc_uid`
  holding : Purpose → Reader
  releasing : Reader  -- before the `fetch_sub`

pub data PublisherAction : Type 0 where
  proceed : PublisherAction  -- the next shared access of the code
  take_write : PublisherAction  -- `get_write_handle`
  write : ℕ → PublisherAction  -- the application writes the payload
  release_write : PublisherAction  -- the write handle is destroyed
  finalize : PublisherAction  -- `finalize_write_handle`, in `create_descriptor_with_endpoint`
  free : PublisherAction  -- the buffer is destroyed, and its deleter runs

pub data ReaderAction : Type 0 where
  take_descriptor : ℕ → ReaderAction
  take_lease : ReaderAction
  proceed : ReaderAction
  fail_weakly : ReaderAction  -- the weak compare-exchange fails for no reason
  refresh : ReaderAction  -- a relay publishes the imported buffer again
  drop : ReaderAction  -- the handle or the imported buffer is destroyed

pub data Event : Type 0 where
  tick : ℕ → Event
  publisher_acts : PublisherAction → Event
  reader_acts : ℕ → ReaderAction → Event

pub record System : Type 0 where
  pub memory : Memory
  pub publisher : Publisher
  pub readers : List Reader

-- The grace period of `try_claim_block`.
abbrev pub grace_elapsed : Memory → Bool
grace_elapsed m =
    m.publish_timestamp_us == 0
    || (leb m.publish_timestamp_us m.now && leb grace_period_us (m.now - m.publish_timestamp_us))

-- The block belongs to a live publisher-side buffer.
abbrev pub has_buffer : Publisher → Bool
has_buffer writing = true
has_buffer uid_stored = true
has_buffer published = true
has_buffer _ = false

-- The block has been in a buffer: `create_block` has not just made it. Leases are then taken at any
-- time, more often than the code allows: through the publisher's buffer or an imported one.
abbrev pub known : Publisher → Bool
known (reserved b) = b
known (uid_cleared b) = b
known (stamp_cleared b) = b
known _ = true

abbrev pub is_finalized : State → Bool
is_finalized finalized = true
is_finalized _ = false

-- What the application does with the buffer. A local read handle, which refuses a write handle, is
-- not counted here: a write handle is taken more often than the code allows.
pub access : Memory → PublisherAction → Memory
access m take_write = elim m.write_state [
  | unset ↦ record m { write_state = in_use; write_handle = true }
  | in_use ↦ m
  | finalized ↦ m
]
access m (write v) = if m.write_handle then record m { payload = v } else m
access m release_write =
    if m.write_handle then record m { write_state = finalized; write_handle = false } else m
access m finalize = elim m.write_state [
  | unset ↦ m
  | in_use ↦ record m { write_state = finalized }
  | finalized ↦ m
]
access m _ = m

-- `uid g` is the `current_uid` that `allocate` draws for generation `g`.
module _ (uid : ℕ → ℕ) where
  mark_uid : Memory → Memory × Publisher
  mark_uid m = (
    record m {
      ipc_uid = uid m.generation;
      sealed = m.payload;
      closed = is_finalized m.write_state && not m.write_handle;
    },
    uid_stored,
  )

  pub publisher_step : Memory → Publisher → PublisherAction → Memory × Publisher
  unfolding mark_uid
  publisher_step m available proceed = (m, if grace_elapsed m then checked else available)
  publisher_step m checked proceed =
      if m.reader_state == 0
      then (record m { reader_state = reuse_claimed }, reserved true)
      else (m, available)
  publisher_step m (reserved b) proceed =
      (record m { ipc_uid = 0; generation = m.generation + 1 }, uid_cleared b)
  publisher_step m (uid_cleared b) proceed =
      (record m { publish_timestamp_us = 0 }, stamp_cleared b)
  publisher_step m (stamp_cleared b) proceed =
      (record m { reader_state = 0; write_state = unset; write_handle = false }, writing)
  publisher_step m writing proceed = mark_uid m
  publisher_step m writing free = (m, available)
  publisher_step m uid_stored proceed = (record m { publish_timestamp_us = m.now }, published)
  publisher_step m published proceed = mark_uid m
  publisher_step m published free = (m, available)
  publisher_step m p a = (if has_buffer p then access m a else m, p)

  attempt : Bool → Memory → Purpose → ℕ → Memory × Reader
  attempt spurious m w value =
      if refuses_reader value
      then (m, idle)
      else if m.reader_state == value && not spurious
      then (record m { reader_state = (value + 1) % 2 ^ 32 }, acquired w)
      else (m, trying w m.reader_state)

  pub reader_step : Memory → Publisher → Reader → ReaderAction → Memory × Reader
  unfolding attempt
  reader_step m p idle (take_descriptor g) = (m, described g)
  reader_step m p idle take_lease = (m, if known p then validated lease else idle)
  reader_step m p (described g) proceed =
      (m, if not (uid g == 0) && m.ipc_uid == uid g then validated (import g) else idle)
  reader_step m p (validated w) proceed = (m, trying w m.reader_state)
  reader_step m p (trying w value) proceed = attempt false m w value
  reader_step m p (trying w value) fail_weakly = attempt true m w value
  reader_step m p (acquired (import g)) proceed =
      (m, if m.ipc_uid == uid g then holding (import g) else releasing)
  reader_step m p (acquired lease) proceed = (m, holding lease)
  reader_step m p (holding (import g)) refresh =
      (record m { publish_timestamp_us = m.now }, holding (import g))
  reader_step m p (holding w) drop = (m, releasing)
  reader_step m p releasing proceed =
      (record m { reader_state = (m.reader_state + (2 ^ 32 - 1)) % 2 ^ 32 }, idle)
  reader_step m p r _ = (m, r)

  with_publisher : System → Memory × Publisher → System
  with_publisher s (m, p) = record s { memory = m; publisher = p }

  with_reader : System → ℕ → Memory × Reader → System
  with_reader s i (m, r) = record s { memory = m; readers = set s.readers i r }

  pub step : System → Event → System
  unfolding with_publisher with_reader
  step s (tick n) = record s { memory = record s.memory { now = s.memory.now + n } }
  step s (publisher_acts a) = with_publisher s (publisher_step s.memory s.publisher a)
  step s (reader_acts i a) = elim (get_elem? s.readers i) [
    | none ↦ s
    | some r ↦ with_reader s i (reader_step s.memory s.publisher r a)
  ]

  pub run : System → List Event → System
  run s List.[] = s
  run s (List.◌∷◌ e es) = run (step s e) es

-- A block that `create_block` has just made, with the readers that will come.
abbrev pub created : ℕ → List Reader → System
created now readers = record {
  memory = record {
    reader_state = 0;
    ipc_uid = 0;
    publish_timestamp_us = 0;
    payload = 0;
    write_state = unset;
    write_handle = false;
    now = now;
    generation = 0;
    sealed = 0;
    closed = false;
  };
  publisher = reserved false;
  readers = readers;
}
