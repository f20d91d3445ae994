-- ===== src/Handles.antt =====
-- shared_buffer/src/shared_buffer.cpp: `SharedBuffer`, its read and write handles, and their moves.
-- A method returns its result, if it can throw, and all that it has changed. The sections under the
-- mutex of a `HandleState` are single steps.
pub mod Types
pub mod Exclusion
pub mod Restored
pub mod Taking
pub mod Released
pub mod Client
mod Examples
pub use Types.*
use Prim.Native.String.{String}
use memfd_buffer_backend.Prelude.{
  ℕ, suc, ◌+◌, ◌-◌, Bool, true, false, not, ◌&&◌, ◌||◌, Option, none, some, ltb, ◌==◌,
  if◌then◌else◌,
}
use memfd_buffer_backend.Errors.{
  Error, Result, ok, err, block_being_reused, null_payload, reading_while_writing, read_only_buffer,
  empty_buffer, write_in_use, write_finalized, read_in_use,
}
use memfd_buffer_backend.Header.{ControlHeader, try_acquire_reader, release_reader}
use memfd_buffer_backend.Pool.{Pool, update, put_header, free}

abbrev pub with_header : Process → ℕ → ControlHeader → Process
with_header p a h = record p { pool = put_header p.pool a h }

abbrev pub with_state : Process → ℕ → HandleState → Process
with_state p s h = record p { states = update p.states s h }

-- `make_lease`.
pub make_lease : Process → Option ℕ → Result (Option ℕ) × Process
make_lease p none = (ok none, p)
make_lease p (some a) =
    let (h, got) = try_acquire_reader (p.pool.headers a) in
    if got then (ok (some a), with_header p a h) else (err block_being_reused, p)

-- The deleter of a lease, run by `reset` of its only pointer.
pub drop_lease : Process → Option ℕ → Process
drop_lease p none = p
drop_lease p (some a) = with_header p a (release_reader (p.pool.headers a))

-- `if (active_readers > 0) --active_readers`, under the mutex.
pub drop_reader : Process → Option ℕ → Process
drop_reader p none = p
drop_reader p (some s) =
    let h = p.states s in
    with_state p s (record h {
      active_readers = if ltb 0 h.active_readers then h.active_readers - 1 else h.active_readers;
    })

-- `ReadHandle::release`.
unfoldable pub release_read : Process → ReadHandle → Process × ReadHandle
unfolding drop_lease drop_reader
release_read p h = (drop_lease (drop_reader p h.state) h.reader_lease, empty_read)

-- The move constructor and the move assignment (to another object) of `ReadHandle`: the new
-- value and what is left in `other`.
pub move_read : ReadHandle → ReadHandle × ReadHandle
move_read other = (other, empty_read)

pub assign_read : Process → ReadHandle → ReadHandle → Process × (ReadHandle × ReadHandle)
unfolding release_read move_read
assign_read p h other = let (p', _) = release_read p h in (p', move_read other)

finalize_state : Process → Option ℕ → Process
finalize_state p none = p
finalize_state p (some s) = with_state p s (record (p.states s) { state = finalized })

-- `WriteHandle::release`: the state pointer stays.
pub release_write : Process → WriteHandle → Process × WriteHandle
unfolding finalize_state
release_write p h =
    (finalize_state p h.state, record h { promoted_buffer = none; owner = none; data_ptr = none })

pub move_write : WriteHandle → WriteHandle × WriteHandle
move_write other = (other, empty_write)

pub assign_write : Process → WriteHandle → WriteHandle → Process × (WriteHandle × WriteHandle)
unfolding release_write move_write
assign_write p h other = let (p', _) = release_write p h in (p', move_write other)

-- The constructor of `SharedBuffer`.
unfoldable pub construct :
    Option ℕ
    → ℕ
    → Deleter
    → Option ℕ
    → Option ℕ
    → ℕ
    → ℕ
    → Bool
    → Pid
    → String
    → ℕ
    → Result SharedBuffer
construct none (suc n) deleter control owner block_id mapped_size writable ipc_pid ipc_name
      ipc_uid =
    err null_payload
construct payload size deleter control owner block_id mapped_size writable ipc_pid ipc_name
      ipc_uid =
    ok (record {
      data_ptr = payload;
      size = size;
      deleter = elim deleter [ no_function ↦ nothing | d ↦ d ];
      control = control;
      owner = owner;
      held_reader_lease = none;
      handle_state = none;
      block_id = block_id;
      mapped_size = mapped_size;
      writable = writable;
      ipc_pid = ipc_pid;
      ipc_name = ipc_name;
      ipc_uid = ipc_uid;
    })

-- `has_ipc_descriptor`.
unfoldable pub positive : Pid → Bool
positive (pid n) = not (n == 0)
positive (negative n) = false

abbrev pub is_empty : String → Bool
is_empty String.[] = true
is_empty (String.◌∷◌ c s) = false

unfoldable pub has_ipc_descriptor : SharedBuffer → Bool
unfolding positive
has_ipc_descriptor b = positive b.ipc_pid && not (is_empty b.ipc_name) && not (b.ipc_uid == 0)

-- `if (handle_state_ == nullptr) handle_state_ = std::make_shared<HandleState>()`: the state's
-- pointer.
abbrev pub state_of : Process → SharedBuffer → ℕ
state_of p b = elim b.handle_state [ none ↦ p.next_state | some s ↦ s ]

pub ensure_state : Process → SharedBuffer → Process × SharedBuffer
ensure_state p b = elim b.handle_state [
  | none ↦ (
    record (with_state p p.next_state new_state) { next_state = p.next_state + 1 },
    record b { handle_state = some p.next_state },
  )
  | some s ↦ (p, b)
]

-- The end of `get_read_handle`: the read slot is given back where the lease is refused.
finish_read : SharedBuffer → ℕ → Result (Option ℕ) × Process → Result ReadHandle × Process
unfolding drop_reader
finish_read b s (ok lease, p) = (
  ok (record {
    data_ptr = b.data_ptr;
    state = some s;
    reader_lease = lease;
    owner = b.owner;
    promoted_buffer = none;
  }),
  p,
)
finish_read b s (err e, p) = (err e, drop_reader p (some s))

read_with : SharedBuffer → ℕ → Process → Result ReadHandle × Process
unfolding finish_read make_lease
read_with b s p = elim (p.states s).state [
  | in_use ↦ (err reading_while_writing, p)
  | _ ↦ finish_read b s (
      make_lease
        (with_state p s (record (p.states s) { active_readers = (p.states s).active_readers + 1 }))
        b.control)
]

pub get_read_handle : Process → SharedBuffer → Result ReadHandle × (Process × SharedBuffer)
unfolding read_with ensure_state
get_read_handle p b =
    let (p', b') = ensure_state p b in
    let (r, p'') = read_with b (state_of p b) p' in (r, (p'', b'))

write_with : SharedBuffer → ℕ → Process → Result WriteHandle × Process
write_with b s p = elim (p.states s).state [
  | in_use ↦ (err write_in_use, p)
  | finalized ↦ (err write_finalized, p)
  | unset ↦ if not ((p.states s).active_readers == 0) then (err read_in_use, p) else (
    ok (record { data_ptr = b.data_ptr; state = some s; owner = b.owner; promoted_buffer = none }),
    with_state p s (record (p.states s) { state = in_use }),
  )
]

abbrev pub is_null : Option ℕ → Bool
is_null none = true
is_null (some _) = false

pub get_write_handle : Process → SharedBuffer → Result WriteHandle × (Process × SharedBuffer)
unfolding write_with ensure_state
get_write_handle p b =
    if not b.writable
    then (err read_only_buffer, (p, b))
    else if is_null b.data_ptr || b.size == 0
    then (err empty_buffer, (p, b))
    else let (p', b') = ensure_state p b in
      let (r, p'') = write_with b (state_of p b) p' in (r, (p'', b'))

unfoldable pub finalize_in_use : Process → ℕ → State → Process
finalize_in_use p s in_use = with_state p s (record (p.states s) { state = finalized })
finalize_in_use p s unset = p
finalize_in_use p s finalized = p

unfoldable pub finalize_write_handle : Process → SharedBuffer → Process
unfolding finalize_in_use
finalize_write_handle p b = elim b.handle_state [
  | none ↦ p
  | some s ↦ finalize_in_use p s (p.states s).state
]

hold_with :
    SharedBuffer → Result (Option ℕ) × Process → Result (Unit {0}) × (Process × SharedBuffer)
hold_with b (ok lease, p) = (ok tt, (p, record b { held_reader_lease = lease }))
hold_with b (err e, p) = (err e, (p, b))

pub hold_reader_reference : Process → SharedBuffer → Result (Unit {0}) × (Process × SharedBuffer)
unfolding hold_with make_lease
hold_reader_reference p b = elim b.held_reader_lease [
  | some _ ↦ (ok tt, (p, b))
  | none ↦ hold_with b (make_lease p b.control)
]

run_deleter : Process → Deleter → Process
run_deleter p no_function = p
run_deleter p nothing = p
run_deleter p (frees i) = record p { pool = free p.pool i }
run_deleter p (releases a) = with_header p a (release_reader (p.pool.headers a))

-- `reset`, which is also the destructor: the lease goes first, then the payload is given back.
unfoldable pub reset : Process → SharedBuffer → Process × SharedBuffer
unfolding run_deleter drop_lease
reset p b =
    let p' = drop_lease p b.held_reader_lease in
    (if is_null b.data_ptr then p' else run_deleter p' b.deleter, empty_buffer_value)

-- The move constructor leaves `other` empty; the assignment resets its target before.
pub move_buffer : SharedBuffer → SharedBuffer × SharedBuffer
move_buffer other = (other, empty_buffer_value)

unfoldable pub assign_buffer :
    Process → SharedBuffer → SharedBuffer → Process × (SharedBuffer × SharedBuffer)
unfolding reset move_buffer
assign_buffer p b other = let (p', _) = reset p b in (p', move_buffer other)
