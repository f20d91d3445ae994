-- ===== src/Handles/Client/Invariant.antt =====
-- Every call of a client keeps the fit of the memory, the buffers and the handles.
use memfd_buffer_backend.Prelude.{
  ℕ, ◌≤◌, ◌≡◌, ◌≢◌, refl, inl, inr, true, ◌||◌, List, ◌∷◌, some, arith, Option-cases, Bool-cases,
  get_elem?, set, get_elem?-set, ◌==◌, total, total-set,
}
use memfd_buffer_backend.Errors.{Result, ok, err}
use memfd_buffer_backend.Handles.{
  is_null, ReadHandle, empty_read, WriteHandle, Process, SharedBuffer, ensure_state,
  get_read_handle, get_write_handle, release_read, assign_read, move_read,
}
use memfd_buffer_backend.Handles.Client.{
  Client, add_read, add_write, move_into, buffer_slots, reads_state, reads_control, held_by, Fits,
  IsMade, Inv,
}
use memfd_buffer_backend.Handles.Client.Reading.{FitsAfter}
use memfd_buffer_backend.Handles.Client.Writing.{WriteFitsAfter}
use memfd_buffer_backend.Handles.Client.Releasing.{release_read-Fits}
use memfd_buffer_backend.Handles.Client.Made.{AllMade-set, AllMade-keep, release_read-next}

module _ (others : ℕ → ℕ) where
  Fits-held :
      (held held' : ℕ → ℕ) (p : Process) (reads : List ReadHandle) (writes : List WriteHandle)
      → ((a : ℕ) → held' a ≡ held a)
      → Fits others held p reads writes
      → Fits others held' p reads writes
  Fits-held held held' p reads writes e v = record {
    readers = v.readers;
    exclusive = v.exclusive;
    writers = v.writers;
    fresh = v.fresh;
    slots = λ a. omega (arith, v.slots a, e a);
    bounded = v.bounded;
  }

  Fits-reads :
      (held : ℕ → ℕ) (p : Process) (reads reads' : List ReadHandle) (writes : List WriteHandle)
      → ((s : ℕ) → total (reads_state s) reads' ≡ total (reads_state s) reads)
      → ((a : ℕ) → total (reads_control a) reads' ≡ total (reads_control a) reads)
      → Fits others held p reads writes
      → Fits others held p reads' writes
  Fits-reads held p reads reads' writes e d v = record {
    readers = λ s. omega (arith, v.readers s, e s);
    exclusive = v.exclusive;
    writers = v.writers;
    fresh = v.fresh;
    slots = λ a. omega (arith, v.slots a, d a);
    bounded = v.bounded;
  }

  -- A buffer whose slots do not change can be replaced.
  held_by-set :
      (bs : List SharedBuffer) (i : ℕ) (b c : SharedBuffer) (a : ℕ)
      → get_elem? bs i ≡ some b
      → buffer_slots a c ≡ buffer_slots a b
      → held_by (set bs i c) a ≡ held_by bs a
  held_by-set bs i b c a at e = omega (arith, total-set (buffer_slots a) bs i c at, e)

  ensure-slots :
      (p : Process) (b : SharedBuffer) (a : ℕ)
      → buffer_slots a (ensure_state p b).1 ≡ buffer_slots a b
  unfolding ensure_state
  ensure-slots p b a = elim (Option-cases b.handle_state) [
    | inl e ↦ rw (e, ensure_state) refl
    | inr (s, e) ↦ rw (e, ensure_state) refl
  ]

  pub read-slots :
      (p : Process) (b : SharedBuffer) (a : ℕ)
      → buffer_slots a (get_read_handle p b).1.1 ≡ buffer_slots a b
  unfolding get_read_handle
  read-slots p b a = ensure-slots p b a

  pub write-slots :
      (p : Process) (b : SharedBuffer) (a : ℕ)
      → buffer_slots a (get_write_handle p b).1.1 ≡ buffer_slots a b
  unfolding get_write_handle
  write-slots p b a = elim (Bool-cases b.writable) [
    | inr e ↦ rw (e, get_write_handle) refl
    | inl e ↦ elim (Bool-cases (is_null b.data_ptr || b.size == 0)) [
      | inl refused ↦ rw (e, get_write_handle, refused) refl
      | inr allowed ↦
          rw (e, get_write_handle, allowed) (ensure-slots p (record b { writable = true }) a)
    ]
  ]

  -- `reads[i] = std::move(reads[j])` leaves the sums that `reads[i]` released would leave.
  total-moved :
      (w : ReadHandle → ℕ) (reads : List ReadHandle) (i j : ℕ) (h g : ReadHandle)
      → get_elem? reads i ≡ some h
      → get_elem? reads j ≡ some g
      → i ≢ j
      → w empty_read ≡ 0
      → total w (set (set reads i g) j empty_read) ≡ total w (set reads i empty_read)
  total-moved w reads i j h g at at' apart zero_weight = omega (
    arith,
    total-set w reads i g at,
    total-set w reads i empty_read at,
    total-set w (set reads i g) j empty_read {x = g} (ground (arith, get_elem?-set reads i j g at)),
    zero_weight,
  )

  pub add_read-Inv :
      (c : Client) (i : ℕ) (b : SharedBuffer) (x : Result ReadHandle × (Process × SharedBuffer))
      → Inv others c
      → get_elem? c.buffers i ≡ some b
      → FitsAfter others (held_by c.buffers) c.writes c.reads x
      → ((a : ℕ) → buffer_slots a x.1.1 ≡ buffer_slots a b)
      → (c.process.next_state ≤ x.1.0.next_state) × IsMade x.1.0 x.1.1
      → Inv others (add_read c i x)
  unfolding add_read
  add_read-Inv c i b (ok h, (q, d)) v at fits same (le, made) = record {
    fits =
        Fits-held (held_by c.buffers) (held_by (set c.buffers i d)) q (h ∷ c.reads) c.writes
          (λ a. held_by-set c.buffers i b d a at (same a)) fits;
    made = AllMade-set c.process q c.buffers i b d v.made at le made;
  }
  add_read-Inv c i b (err e, (q, d)) v at fits same (le, made) = record {
    fits =
        Fits-held (held_by c.buffers) (held_by (set c.buffers i d)) q c.reads c.writes
          (λ a. held_by-set c.buffers i b d a at (same a)) fits;
    made = AllMade-set c.process q c.buffers i b d v.made at le made;
  }

  pub add_write-Inv :
      (c : Client) (i : ℕ) (b : SharedBuffer) (x : Result WriteHandle × (Process × SharedBuffer))
      → Inv others c
      → get_elem? c.buffers i ≡ some b
      → WriteFitsAfter others (held_by c.buffers) c.reads c.writes x
      → ((a : ℕ) → buffer_slots a x.1.1 ≡ buffer_slots a b)
      → (c.process.next_state ≤ x.1.0.next_state) × IsMade x.1.0 x.1.1
      → Inv others (add_write c i x)
  unfolding add_write
  add_write-Inv c i b (ok h, (q, d)) v at fits same (le, made) = record {
    fits =
        Fits-held (held_by c.buffers) (held_by (set c.buffers i d)) q c.reads (h ∷ c.writes)
          (λ a. held_by-set c.buffers i b d a at (same a)) fits;
    made = AllMade-set c.process q c.buffers i b d v.made at le made;
  }
  add_write-Inv c i b (err e, (q, d)) v at fits same (le, made) = record {
    fits =
        Fits-held (held_by c.buffers) (held_by (set c.buffers i d)) q c.reads c.writes
          (λ a. held_by-set c.buffers i b d a at (same a)) fits;
    made = AllMade-set c.process q c.buffers i b d v.made at le made;
  }

  pub move_into-Inv :
      (c : Client) (i j : ℕ) (h g : ReadHandle)
      → Inv others c
      → get_elem? c.reads i ≡ some h
      → get_elem? c.reads j ≡ some g
      → Inv others (move_into c i j (some h) (some g))
  unfolding move_into assign_read move_read
  move_into-Inv c i j h g v at at' = elim (Bool-cases (i == j)) [
    | inl same ↦ rw (move_into, same) v
    | inr apart ↦
        rw (move_into, apart)
          (record {
            fits =
                Fits-reads (held_by c.buffers) (release_read c.process h).0
                  (set c.reads i empty_read) (set (set c.reads i g) j empty_read) c.writes
                  (λ s.
                    total-moved (reads_state s) c.reads i j h g at at' (ground (arith, apart)) refl)
                  (λ a.
                    total-moved (reads_control a) c.reads i j h g at at' (ground (arith, apart))
                      refl)
                  (release_read-Fits others (held_by c.buffers) c.process c.reads c.writes i h
                    v.fits at);
            made =
                AllMade-keep c.process (release_read c.process h).0 c.buffers v.made
                  (omega (arith, release_read-next c.process h));
          })
  ]
