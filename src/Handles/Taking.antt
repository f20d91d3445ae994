-- ===== src/Handles/Taking.antt =====
-- What a handle that is had and its process are then.
use memfd_buffer_backend.Prelude.{
  inl, inr, Option-cases, ℕ, suc, ◌+◌, ◌≡◌, ◌<◌, refl, subst, List, true, false, Option, none, some,
  arith, ◌==◌,
}
use memfd_buffer_backend.Errors.{Result, ok, err, reading_while_writing, write_finalized}
use memfd_buffer_backend.Header.{try_acquire_reader}
use memfd_buffer_backend.Pool.{Block}
use memfd_buffer_backend.Handles.{
  unset, in_use, finalized, Deleter, pid, new_state, SharedBuffer, ReadHandle, WriteHandle, Process,
  with_state, read_with, get_read_handle, get_write_handle, release_write, assign_write, state_of,
  ensure_state, finish_read, make_lease, drop_reader,
}

-- A read handle that is had, in the process that has the blocks.
pub record TakenRead (blocks : List Block) (b : SharedBuffer) (h : ReadHandle) (q : Process)
    : Type 0 where
  pub same_blocks : q.pool.all_blocks ≡ blocks
  pub same_payload : h.data_ptr ≡ b.data_ptr
  pub state : ℕ
  pub state_of_handle : h.state ≡ some state
  pub state_made : state < q.next_state

abbrev pub Taken : List Block → SharedBuffer → Result ReadHandle × Process → Type 0
Taken blocks b (err e, q) = q.pool.all_blocks ≡ blocks
Taken blocks b (ok h, q) = TakenRead blocks b h q

make_lease-blocks :
    (p : Process) (c : Option ℕ)
    → ((make_lease p c).1.pool.all_blocks ≡ p.pool.all_blocks)
      × ((make_lease p c).1.next_state ≡ p.next_state)
unfolding make_lease try_acquire_reader
make_lease-blocks p none = (refl, refl)
make_lease-blocks p (some a) = ground arith

finish_read-Taken :
    (blocks : List Block) (b : SharedBuffer) (s : ℕ) (r : Result (Option ℕ) × Process)
    → r.1.pool.all_blocks ≡ blocks
    → s < r.1.next_state
    → Taken blocks b (finish_read b s r)
unfolding finish_read drop_reader
finish_read-Taken blocks b s (ok lease, q) e lt = record {
  same_blocks = e;
  same_payload = refl;
  state = s;
  state_of_handle = refl;
  state_made = lt;
}
finish_read-Taken blocks b s (err x, q) e lt = e

read_with-Taken :
    (p : Process) (b : SharedBuffer) (s : ℕ)
    → s < p.next_state
    → Taken p.pool.all_blocks b (read_with b s p)
unfolding read_with
read_with-Taken p b s lt =
    let q : Process =
      with_state p s (record (p.states s) { active_readers = (p.states s).active_readers + 1 }) in
    let (blocks, next) = make_lease-blocks q b.control in
    let taken : Taken p.pool.all_blocks b (finish_read b s (make_lease q b.control)) =
      finish_read-Taken p.pool.all_blocks b s (make_lease q b.control) blocks
        (omega (arith, next, lt)) in
    elim (p.states s).state
      as (λ y. Taken p.pool.all_blocks b (elim y [
        | in_use ↦ (err reading_while_writing, p)
        | _ ↦ finish_read b s (make_lease q b.control)
      ])) [ in_use ↦ refl | unset ↦ taken | finalized ↦ taken ]

-- The write state that a buffer has was made before.
abbrev pub IsMade : Process → Option ℕ → Type 0
IsMade p none = Unit
IsMade p (some s) = s < p.next_state

ensure_state-lem :
    (p : Process) (b : SharedBuffer)
    → IsMade p b.handle_state
    → ((ensure_state p b).0.pool ≡ p.pool) × (state_of p b < (ensure_state p b).0.next_state)
unfolding ensure_state
ensure_state-lem p b lt = ground arith

pub ensure_state-headers :
    (p : Process) (b : SharedBuffer) (a : ℕ)
    → (ensure_state p b).0.pool.headers a ≡ p.pool.headers a
unfolding ensure_state
ensure_state-headers p b a = ground arith

-- What becomes of an attempt to read a buffer.
pub get_read_handle-Taken :
    (p : Process) (b : SharedBuffer)
    → IsMade p b.handle_state
    → let (r, (q, c)) = get_read_handle p b in Taken p.pool.all_blocks b (r, q)
unfolding get_read_handle
get_read_handle-Taken p b lt =
    let (same, made) = ensure_state-lem p b lt in
    subst (λ x. Taken x.all_blocks b (read_with b (state_of p b) (ensure_state p b).0)) same
      (read_with-Taken (ensure_state p b).0 b (state_of p b) made)

-- The buffer keeps all but its write state.
pub get_read_handle-kept :
    (p : Process) (b : SharedBuffer)
    → let c = (get_read_handle p b).1.1 in
      ((c.data_ptr ≡ b.data_ptr) × (c.control ≡ b.control))
      × ((c.deleter ≡ b.deleter) × (c.held_reader_lease ≡ b.held_reader_lease))
unfolding get_read_handle ensure_state
get_read_handle-kept p b = ground arith

-- `get_read_handle` changes no field of the buffer but its write state.
pub get_read_handle-same :
    (p : Process) (b : SharedBuffer)
    → let c = (get_read_handle p b).1.1 in c ≡ record b { handle_state = c.handle_state }
unfolding get_read_handle ensure_state
get_read_handle-same p b = elim (Option-cases b.handle_state) [
  | inl e ↦ rw (get_read_handle, e) refl
  | inr (s, e) ↦ rw (get_read_handle, e) refl
]

-- A new buffer is written: the handle points to its payload, and once it is released the buffer is
-- finalized. Nothing but the write state changes.
pub record Written (p : Process) (b : SharedBuffer) : Type 0 where
  pub handle : WriteHandle
  pub process : Process
  pub had :
      get_write_handle p b ≡ (ok handle, (process, record b { handle_state = some p.next_state }))
  pub same_payload : handle.data_ptr ≡ b.data_ptr
  pub same_pool : (release_write process handle).0.pool ≡ p.pool
  pub final : ((release_write process handle).0.states p.next_state).state ≡ finalized
  pub unread : ((release_write process handle).0.states p.next_state).active_readers ≡ 0
  pub made : (release_write process handle).0.next_state ≡ suc p.next_state

-- A buffer as the constructor makes it of a block.
abbrev pub new_buffer : ℕ → ℕ → Deleter → Option ℕ → ℕ → ℕ → SharedBuffer
new_buffer d size deleter control block_id mapped_size = record {
  data_ptr = some d;
  size = size;
  deleter = deleter;
  control = control;
  owner = none;
  held_reader_lease = none;
  handle_state = none;
  block_id = block_id;
  mapped_size = mapped_size;
  writable = true;
  ipc_pid = pid 0;
  ipc_name = "";
  ipc_uid = 0;
}

pub get_write_handle-Written :
    (p : Process) (d size : ℕ) (deleter : Deleter) (control : Option ℕ) (block_id mapped_size : ℕ)
    → 0 < size
    → Written p (new_buffer d size deleter control block_id mapped_size)
unfolding get_write_handle release_write
get_write_handle-Written p d size deleter control block_id mapped_size filled =
    let positive_size : (size == 0) ≡ false = ground (arith, filled) in
    let self : (p.next_state == p.next_state) ≡ true = ground arith in
    record {
      handle = record {
        data_ptr = some d;
        state = some p.next_state;
        owner = none;
        promoted_buffer = none;
      };
      process =
          with_state
            (record (with_state p p.next_state new_state) { next_state = p.next_state + 1 })
            p.next_state (record new_state { state = in_use });
      had = ground (arith, positive_size, self);
      same_payload = refl;
      same_pool = refl;
      final = ground arith;
      unread = ground arith;
      made = omega arith;
    }

-- A buffer that has been finalized is not written again.
pub get_write_handle-finalized :
    (p : Process) (d size : ℕ) (deleter : Deleter) (control : Option ℕ) (block_id mapped_size k : ℕ)
    → 0 < size
    → (p.states k).state ≡ finalized
    → (get_write_handle p (record (new_buffer d size deleter control block_id mapped_size) {
      handle_state = some k;
    })).0
      ≡ err write_finalized
unfolding get_write_handle
get_write_handle-finalized p d size deleter control block_id mapped_size k filled final =
    ground arith

-- An assignment to a write handle finalizes the state that it had.
pub assign_write-Finalized :
    (p : Process) (h other : WriteHandle) (k : ℕ)
    → h.state ≡ some k
    → ((assign_write p h other).0.states k).state ≡ finalized
unfolding assign_write
assign_write-Finalized p h other k e = ground arith
