-- ===== src/Handles/Client/Releasing.antt =====
-- What the release of a handle does to the fit of the memory and the handles.
use memfd_buffer_backend.Prelude.{ℕ, ◌≡◌, List, some, arith, get_elem?, set, total-set, le-total}
use memfd_buffer_backend.Header.{release_reader}
use memfd_buffer_backend.Handles.{ReadHandle, empty_read, WriteHandle, Process, release_read}
use memfd_buffer_backend.Handles.Client.{reads_state, reads_control, Fits}

module _ (others held : ℕ → ℕ) where
  pub release_read-Fits :
      (p : Process) (reads : List ReadHandle) (writes : List WriteHandle) (i : ℕ) (h : ReadHandle)
      → Fits others held p reads writes
      → get_elem? reads i ≡ some h
      → Fits others held (release_read p h).0 (set reads i empty_read) writes
  unfolding release_read release_reader
  release_read-Fits p reads writes i h v at = record {
    readers = λ t. ground (
      arith,
      v.readers t,
      total-set (reads_state t) reads i empty_read at,
      le-total (reads_state t) reads i at,
    );
    exclusive = λ t u. ground (arith, v.exclusive t, v.readers t);
    writers = λ t. ground (arith, v.writers t);
    fresh = λ t le. ground (arith, v.fresh t, v.readers t, le-total (reads_state t) reads i at);
    slots = λ x. ground (
      arith,
      v.slots x,
      v.bounded x,
      total-set (reads_control x) reads i empty_read at,
      le-total (reads_control x) reads i at,
    );
    bounded = λ x. ground (arith, v.bounded x, v.slots x, le-total (reads_control x) reads i at);
  }
