-- ===== src/Handles/Exclusion.antt =====
-- When a handle can be had, and what acquiring and releasing one changes.
use memfd_buffer_backend.Prelude.{
  ℕ, ◌^◌, ◌<◌, ◌≡◌, ◌≢◌, ◌↔◌, refl, Bool, true, false, Option, none, some, arith,
}
use memfd_buffer_backend.Errors.{Result, ok, err, write_finalized}
use memfd_buffer_backend.Header.{reader_count_mask, try_acquire_reader, release_reader}
use memfd_buffer_backend.Handles.{
  unset, in_use, HandleState, new_state, ReadHandle, WriteHandle, SharedBuffer, Process,
  release_read, release_write, ensure_state, state_of, read_with, get_read_handle, get_write_handle,
}

abbrev pub succeeds {ℓ} : {A : Type ℓ} → Result A → Bool
succeeds (ok _) = true
succeeds (err _) = false

-- The write state of a buffer; one that has not been made counts as new.
abbrev pub current : Process → SharedBuffer → HandleState
current p b = elim b.handle_state [ none ↦ new_state | some s ↦ p.states s ]

-- A write handle is had exactly when the buffer is writable, holds a payload, has not been written
-- or finalized, and no local read handle is open.
pub get_write_handle_iff :
    (p : Process) (b : SharedBuffer)
    → (succeeds (get_write_handle p b).0 ≡ true) ↔ (
        (b.writable ≡ true)
        × (b.data_ptr ≢ none)
        × (b.size ≢ 0)
        × ((current p b).state ≡ unset)
        × ((current p b).active_readers ≡ 0))
unfolding get_write_handle
get_write_handle_iff p b = ground arith

-- The control header of the buffer, if it has one, has a free reader slot.
abbrev pub HasSlot : Process → Option ℕ → Type 0
HasSlot p none = Unit
HasSlot p (some a) = (p.pool.headers a).reader_state < reader_count_mask

abbrev pub IsWord : Process → Option ℕ → Type 0
IsWord p none = Unit
IsWord p (some a) = (p.pool.headers a).reader_state < 2 ^ 32

-- Every `reader_state` is a `uint32_t`.
abbrev pub HasWords : Process → Type 0
HasWords p = (a : ℕ) → (p.pool.headers a).reader_state < 2 ^ 32

-- A read handle is had exactly when no write handle is open and the control header, if there is
-- one, has a slot left and is not claimed for reuse.
pub get_read_handle_iff :
    (p : Process) (b : SharedBuffer)
    → IsWord p b.control
    → (succeeds (get_read_handle p b).0 ≡ true)
      ↔ (((current p b).state ≢ in_use) × HasSlot p b.control)
unfolding get_read_handle try_acquire_reader
get_read_handle_iff p b w = ground arith

-- `q` has the headers and the write states of `p`.
pub record SameMemory (p q : Process) : Type 0 where
  pub same_headers : (a : ℕ) → q.pool.headers a ≡ p.pool.headers a
  pub same_states : (s : ℕ) → q.states s ≡ p.states s

-- Whatever becomes of an attempt to read: where it fails, nothing has changed; where it succeeds,
-- nothing has once the handle is released. A write state that was made for it stays.
abbrev pub Undone : Process → Result ReadHandle × (Process × SharedBuffer) → Type 0
Undone p (err e, (q, b)) = SameMemory p q
Undone p (ok h, (q, b)) = SameMemory p (release_read q h).0

read-Undone :
    (p : Process) (b c : SharedBuffer) (s : ℕ) (control : Option ℕ)
    → b.control ≡ control
    → IsWord p control
    → Undone p ((read_with b s p).0, ((read_with b s p).1, c))
unfolding read_with release_read try_acquire_reader release_reader
read-Undone p b c s none e w = ground arith
read-Undone p b c s (some a) e w = ground arith

ensure-IsWord :
    (p : Process) (b : SharedBuffer) → IsWord p b.control → IsWord (ensure_state p b).0 b.control
unfolding ensure_state
ensure-IsWord p b w = ground arith

-- A read handle that is refused leaves the headers and the write states as they were, and one that
-- is had and then released leaves them so too: the slot of the write state and the slot of the
-- control header are both given back. A write state made for the handle is not counted as a change.
pub get_read_handle-Undone :
    (p : Process) (b : SharedBuffer)
    → IsWord p b.control
    → Undone (ensure_state p b).0 (get_read_handle p b)
unfolding get_read_handle
get_read_handle-Undone p b w =
    read-Undone (ensure_state p b).0 b (ensure_state p b).1 (state_of p b) b.control refl
      (ensure-IsWord p b w)

-- After a write handle has been released, no other is had for the same buffer.
pub write_once :
    (p q : Process) (b c : SharedBuffer) (h : WriteHandle)
    → get_write_handle p b ≡ (ok h, (q, c))
    → (get_write_handle (release_write q h).0 c).0 ≡ err write_finalized
unfolding get_write_handle release_write
write_once p q b c h e = ground arith
