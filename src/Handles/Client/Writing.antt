-- ===== src/Handles/Client/Writing.antt =====
-- What a write handle, and the finalization, do to the fit of the memory and the handles.
use memfd_buffer_backend.Prelude.{
  ℕ, ◌<◌, ◌≡◌, inl, inr, true, ◌||◌, List, ◌∷◌, some, ◌==◌, arith, Bool-cases, get_elem?, set,
  total, total-set, le-total,
}
use memfd_buffer_backend.Errors.{Result, ok, err}
use memfd_buffer_backend.Handles.{
  ReadHandle, WriteHandle, Process, SharedBuffer, state_of, ensure_state, write_with,
  get_write_handle, release_write, finalize_write_handle, is_null,
}
use memfd_buffer_backend.Handles.Client.{writes_state, Fits, IsMade}
use memfd_buffer_backend.Handles.Client.Reading.{ensure_state-Fits, state_of-lt, State-cases}

module _ (others held : ℕ → ℕ) (reads : List ReadHandle) where
  abbrev pub WriteFitsAfter :
      List WriteHandle → Result WriteHandle × (Process × SharedBuffer) → Type 0
  WriteFitsAfter writes (ok h, (q, c)) = Fits others held q reads (h ∷ writes)
  WriteFitsAfter writes (err e, (q, c)) = Fits others held q reads writes

  write_with-Fits :
      (p : Process) (b c : SharedBuffer) (s : ℕ) (writes : List WriteHandle)
      → Fits others held p reads writes
      → s < p.next_state
      → WriteFitsAfter writes ((write_with b s p).0, ((write_with b s p).1, c))
  unfolding write_with total
  write_with-Fits p b c s writes v lt = elim (State-cases (p.states s).state) [
    | inl e ↦ rw (e, write_with) v
    | inr (inr e) ↦ rw (e, write_with) v
    | inr (inl e) ↦ elim (Bool-cases ((p.states s).active_readers == 0)) [
      | inr read ↦ rw (e, write_with, read) v
      | inl free ↦
          rw (e, write_with, free)
            (record {
              readers = λ t. ground (arith, v.readers t);
              exclusive = λ t u. ground (arith, v.exclusive t);
              writers = λ t. ground (arith, v.writers t);
              fresh = λ t le. ground (arith, v.fresh t);
              slots = v.slots;
              bounded = v.bounded;
            })
    ]
  ]

  allowed-Fits :
      (p : Process) (b : SharedBuffer) (writes : List WriteHandle)
      → Fits others held p reads writes
      → IsMade p b
      → let (q, c) = ensure_state p b in
        let (r, q') = write_with b (state_of p b) q in WriteFitsAfter writes (r, (q', c))
  allowed-Fits p b writes v m =
      write_with-Fits (ensure_state p b).0 b (ensure_state p b).1 (state_of p b) writes
        (ensure_state-Fits others held writes p b reads v) (state_of-lt p b m)

  pub get_write_handle-Fits :
      (p : Process) (b : SharedBuffer) (writes : List WriteHandle)
      → Fits others held p reads writes
      → IsMade p b
      → WriteFitsAfter writes (get_write_handle p b)
  unfolding get_write_handle
  get_write_handle-Fits p b writes v m = elim (Bool-cases b.writable) [
    | inr e ↦ rw (e, get_write_handle) v
    | inl e ↦ elim (Bool-cases (is_null b.data_ptr || b.size == 0)) [
      | inl refused ↦ rw (e, get_write_handle, refused) v
      | inr allowed ↦
          rw (e, get_write_handle, allowed)
            (allowed-Fits p (record b { writable = true }) writes v m)
    ]
  ]

  pub release_write-Fits :
      (p : Process) (writes : List WriteHandle) (i : ℕ) (h : WriteHandle)
      → Fits others held p reads writes
      → get_elem? writes i ≡ some h
      → Fits others held (release_write p h).0 reads (set writes i (release_write p h).1)
  unfolding release_write
  release_write-Fits p writes i h v at = record {
    readers = λ t. ground (arith, v.readers t);
    exclusive = λ t u. ground (arith, v.exclusive t);
    writers = λ t. ground (
      arith,
      v.writers t,
      total-set (writes_state t) writes i (release_write p h).1 at,
      le-total (writes_state t) writes i at,
    );
    fresh = λ t le. ground (arith, v.fresh t, v.writers t, le-total (writes_state t) writes i at);
    slots = λ x. ground (arith, v.slots x);
    bounded = λ x. ground (arith, v.bounded x);
  }

  pub finalize_write_handle-Fits :
      (p : Process) (b : SharedBuffer) (writes : List WriteHandle)
      → Fits others held p reads writes
      → IsMade p b
      → Fits others held (finalize_write_handle p b) reads writes
  unfolding finalize_write_handle
  finalize_write_handle-Fits p b writes v m = record {
    readers = λ t. ground (arith, v.readers t);
    exclusive = λ t u. ground (arith, v.exclusive t);
    writers = λ t. ground (arith, v.writers t);
    fresh = λ t le. ground (arith, v.fresh t);
    slots = λ x. ground (arith, v.slots x);
    bounded = λ x. ground (arith, v.bounded x);
  }
