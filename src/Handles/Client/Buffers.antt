-- ===== src/Handles/Client/Buffers.antt =====
-- What holding a reference in a buffer, and destroying a buffer, do to the fit.
use memfd_buffer_backend.Prelude.{
  ℕ, ◌+◌, ◌≤◌, ◌≡◌, inl, inr, List, Option, none, some, arith, Option-cases, get_elem?, set,
  total-set, le-total,
}
use memfd_buffer_backend.Header.{reader_count_mask, try_acquire_reader, release_reader}
use memfd_buffer_backend.Pool.Reuse.{free-headers}
use memfd_buffer_backend.Handles.{
  drop_lease, run_deleter, ReadHandle, WriteHandle, Process, SharedBuffer, hold_reader_reference,
  reset, Deleter, no_function, nothing, frees, releases, empty_buffer_value,
}
use memfd_buffer_backend.Handles.Client.{buffer_slots, deleter_slots, held_by, points, Fits}

module _ (others : ℕ → ℕ) (reads : List ReadHandle) (writes : List WriteHandle) where
  pub hold_reader_reference-Fits :
      (p : Process) (bs : List SharedBuffer) (i : ℕ) (b : SharedBuffer)
      → Fits others (held_by bs) p reads writes
      → get_elem? bs i ≡ some b
      → let (q, c) = (hold_reader_reference p b).1 in
        Fits others (held_by (set bs i c)) q reads writes
  unfolding hold_reader_reference try_acquire_reader
  hold_reader_reference-Fits p bs i b v at = record {
    readers = λ t. ground (arith, v.readers t);
    exclusive = λ t u. ground (arith, v.exclusive t);
    writers = λ t. ground (arith, v.writers t);
    fresh = λ t le. ground (arith, v.fresh t);
    slots = λ x. ground (
      arith,
      v.slots x,
      v.bounded x,
      total-set (buffer_slots x) bs i (hold_reader_reference p b).1.1 at,
    );
    bounded = λ x. ground (arith, v.bounded x);
  }

  -- The header slots that a deleter gives back are those that it counted for.
  run_deleter-headers :
      (p : Process) (d : Deleter) (a x : ℕ)
      → deleter_slots a (some x) d ≤ (p.pool.headers a).reader_state
      → (p.pool.headers a).reader_state ≤ reader_count_mask
      → ((run_deleter p d).pool.headers a).reader_state + deleter_slots a (some x) d
        ≡ (p.pool.headers a).reader_state
  unfolding run_deleter release_reader
  run_deleter-headers p no_function a x le m = ground arith
  run_deleter-headers p nothing a x le m = ground arith
  run_deleter-headers p (frees i) a x le m = ground (arith, free-headers p.pool i a)
  run_deleter-headers p (releases b) a x le m = ground arith

  run_deleter-states : (p : Process) (d : Deleter) (s : ℕ) → (run_deleter p d).states s ≡ p.states s
  unfolding run_deleter
  run_deleter-states p d s = ground arith

  run_deleter-next : (p : Process) (d : Deleter) → (run_deleter p d).next_state ≡ p.next_state
  unfolding run_deleter
  run_deleter-next p d = ground arith

  drop_lease-headers :
      (p : Process) (lease : Option ℕ) (a : ℕ)
      → points a lease ≤ (p.pool.headers a).reader_state
      → (p.pool.headers a).reader_state ≤ reader_count_mask
      → ((drop_lease p lease).pool.headers a).reader_state + points a lease
        ≡ (p.pool.headers a).reader_state
  unfolding drop_lease release_reader
  drop_lease-headers p none a le m = ground arith
  drop_lease-headers p (some b) a le m = ground arith

  -- Destroying a buffer gives back the slots that it occupied, and no other.
  reset-headers :
      (p : Process) (b : SharedBuffer) (a : ℕ)
      → buffer_slots a b ≤ (p.pool.headers a).reader_state
      → (p.pool.headers a).reader_state ≤ reader_count_mask
      → ((reset p b).0.pool.headers a).reader_state + buffer_slots a b
        ≡ (p.pool.headers a).reader_state
  unfolding reset
  reset-headers p b a le m =
      let dropped = drop_lease-headers p b.held_reader_lease a (omega arith) m in
      elim (Option-cases b.data_ptr) [
        | inl e ↦ rw (e, reset) (ground (arith, dropped))
        | inr (x, e) ↦
            rw (e, reset)
              (ground (
                arith,
                dropped,
                run_deleter-headers (drop_lease p b.held_reader_lease) b.deleter a x,
              ))
      ]

  -- The buffers fit the memory, so a buffer of them can be destroyed.
  destroyed-headers :
      (p : Process) (bs : List SharedBuffer) (i : ℕ) (b : SharedBuffer) (a : ℕ)
      → Fits others (held_by bs) p reads writes
      → get_elem? bs i ≡ some b
      → ((reset p b).0.pool.headers a).reader_state + buffer_slots a b
        ≡ (p.pool.headers a).reader_state
  destroyed-headers p bs i b a v at =
      reset-headers p b a (omega (arith, v.slots a, le-total (buffer_slots a) bs i at))
        (v.bounded a)

  pub reset-Fits :
      (p : Process) (bs : List SharedBuffer) (i : ℕ) (b : SharedBuffer)
      → Fits others (held_by bs) p reads writes
      → get_elem? bs i ≡ some b
      → Fits others (held_by (set bs i (reset p b).1)) (reset p b).0 reads writes
  unfolding reset
  reset-Fits p bs i b v at = record {
    readers = λ t. ground (arith, v.readers t);
    exclusive = λ t u. ground (arith, v.exclusive t);
    writers = λ t. ground (arith, v.writers t);
    fresh = λ t le. ground (arith, v.fresh t);
    slots = λ x. ground (
      arith,
      v.slots x,
      destroyed-headers p bs i b x v at,
      total-set (buffer_slots x) bs i empty_buffer_value at,
    );
    bounded = λ x. ground (arith, v.bounded x, destroyed-headers p bs i b x v at);
  }
