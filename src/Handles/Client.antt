-- ===== src/Handles/Client.antt =====
-- A process with its buffers and handles, driven by any sequence of calls, and what holds of its
-- memory between them.
mod Reading
mod Releasing
mod Writing
mod Buffers
mod Made
mod Invariant
mod Calls
pub mod Safety
use memfd_buffer_backend.Prelude.{
  ℕ, suc, ◌+◌, ◌^◌, ◌≤◌, ◌<◌, ◌≡◌, Bool, true, false, List, [], ◌∷◌, Option, none, some, ◌==◌,
  if◌then◌else◌, get_elem?, set, total,
}
use memfd_buffer_backend.Errors.{Result, ok, err}
use memfd_buffer_backend.Header.{reader_count_mask}
use memfd_buffer_backend.Handles.{
  State, unset, in_use, finalized, new_state, ReadHandle, empty_read, WriteHandle, Deleter,
  releases, SharedBuffer, Process, release_read, assign_read, release_write, assign_write,
  get_read_handle, get_write_handle, finalize_write_handle, hold_reader_reference, reset,
}

-- The newest handle stands first. A handle that was released or moved from stays, empty.
pub record Client : Type 0 where
  pub process : Process
  pub buffers : List SharedBuffer
  pub reads : List ReadHandle
  pub writes : List WriteHandle

pub data Call : Type 0 where
  open_read : ℕ → Call
  close_read : ℕ → Call
  transfer_read : ℕ → ℕ → Call  -- `reads[i] = std::move(reads[j])`
  open_write : ℕ → Call
  close_write : ℕ → Call
  finalize : ℕ → Call
  hold : ℕ → Call
  destroy : ℕ → Call

pub with_buffer : Client → ℕ → Process × SharedBuffer → Client
with_buffer c i (p, b) = record c { process = p; buffers = set c.buffers i b }

unfoldable pub add_read : Client → ℕ → Result ReadHandle × (Process × SharedBuffer) → Client
unfolding with_buffer
add_read c i (ok h, x) = record (with_buffer c i x) { reads = h ∷ c.reads }
add_read c i (err e, x) = with_buffer c i x

pub add_write : Client → ℕ → Result WriteHandle × (Process × SharedBuffer) → Client
unfolding with_buffer
add_write c i (ok h, x) = record (with_buffer c i x) { writes = h ∷ c.writes }
add_write c i (err e, x) = with_buffer c i x

pub set_read : Client → ℕ → Process × ReadHandle → Client
set_read c i (p, h) = record c { process = p; reads = set c.reads i h }

pub set_write : Client → ℕ → Process × WriteHandle → Client
set_write c i (p, h) = record c { process = p; writes = set c.writes i h }

-- Self-assignment is skipped by the code.
pub move_into : Client → ℕ → ℕ → Option ReadHandle → Option ReadHandle → Client
move_into c i j (some h) (some g) =
    if i == j
    then c
    else let (p, (h', g')) = assign_read c.process h g in
      record c { process = p; reads = set (set c.reads i h') j g' }
move_into c i j _ _ = c

-- A call on an object that is not there does nothing.
abbrev on_entry {ℓ κ} : {A : Type ℓ} {B : Type κ} → Option A → B → (A → B) → B
on_entry none d f = d
on_entry (some a) d f = f a

unfoldable pub call : Client → Call → Client
unfolding add_read add_write set_read set_write move_into with_buffer
call c (open_read i) =
    on_entry (get_elem? c.buffers i) c λ b. add_read c i (get_read_handle c.process b)
call c (close_read i) =
    on_entry (get_elem? c.reads i) c λ h. set_read c i (release_read c.process h)
call c (transfer_read i j) = move_into c i j (get_elem? c.reads i) (get_elem? c.reads j)
call c (open_write i) =
    on_entry (get_elem? c.buffers i) c λ b. add_write c i (get_write_handle c.process b)
call c (close_write i) =
    on_entry (get_elem? c.writes i) c λ h. set_write c i (release_write c.process h)
call c (finalize i) =
    on_entry (get_elem? c.buffers i) c λ b. record c { process = finalize_write_handle c.process b }
call c (hold i) =
    on_entry (get_elem? c.buffers i) c λ b. with_buffer c i (hold_reader_reference c.process b).1
call c (destroy i) = on_entry (get_elem? c.buffers i) c λ b. with_buffer c i (reset c.process b)

unfoldable pub calls : Client → List Call → Client
calls c [] = c
calls c (x ∷ xs) = calls (call c x) xs

-- 1 where a pointer leads to `a`.
abbrev pub points : ℕ → Option ℕ → ℕ
points a none = 0
points a (some x) = if a == x then 1 else 0

abbrev pub reads_state : ℕ → ReadHandle → ℕ
reads_state s h = points s h.state

abbrev pub reads_control : ℕ → ReadHandle → ℕ
reads_control a h = points a h.reader_lease

abbrev pub writes_state : ℕ → WriteHandle → ℕ
writes_state s h = points s h.state

abbrev pub deleter_slots : ℕ → Option ℕ → Deleter → ℕ
deleter_slots a (some _) (releases x) = if a == x then 1 else 0
deleter_slots a _ _ = 0

-- The reader slots that a buffer itself occupies: its held lease, and the slot that the importer
-- took and that the deleter gives back.
abbrev pub buffer_slots : ℕ → SharedBuffer → ℕ
buffer_slots a b = points a b.held_reader_lease + deleter_slots a b.data_ptr b.deleter

-- The write handles that can have been had in a state.
abbrev pub writers_allowed : State → ℕ
writers_allowed unset = 0
writers_allowed _ = 1

-- The memory fits the open handles, where others (other processes) occupy `others a` slots of the
-- header at `a`, and the buffers of this client `held a`.
pub record Fits (others held : ℕ → ℕ) (p : Process) (reads : List ReadHandle)
    (writes : List WriteHandle) : Type 0 where
  pub readers : (s : ℕ) → (p.states s).active_readers ≡ total (reads_state s) reads
  pub exclusive : (s : ℕ) → (p.states s).state ≡ in_use → (p.states s).active_readers ≡ 0
  pub writers : (s : ℕ) → total (writes_state s) writes ≤ writers_allowed (p.states s).state
  pub fresh : (s : ℕ) → p.next_state ≤ s → p.states s ≡ new_state
  pub slots :
      (a : ℕ) → (p.pool.headers a).reader_state ≡ others a + held a + total (reads_control a) reads
  pub bounded : (a : ℕ) → (p.pool.headers a).reader_state ≤ reader_count_mask

-- The write state of a buffer has been made.
abbrev pub IsMade : Process → SharedBuffer → Type 0
IsMade p b = (s : ℕ) → b.handle_state ≡ some s → s < p.next_state

abbrev pub AllMade : Process → List SharedBuffer → Type 0
AllMade p bs = (i : ℕ) (b : SharedBuffer) → get_elem? bs i ≡ some b → IsMade p b

abbrev pub held_by : List SharedBuffer → ℕ → ℕ
held_by bs a = total (buffer_slots a) bs

pub record Inv (others : ℕ → ℕ) (c : Client) : Type 0 where
  pub fits : Fits others (held_by c.buffers) c.process c.reads c.writes
  pub made : AllMade c.process c.buffers
