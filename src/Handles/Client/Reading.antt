-- ===== src/Handles/Client/Reading.antt =====
-- What a read handle does to the fit of the memory and the handles.
use memfd_buffer_backend.Prelude.{
  ℕ, ◌+◌, ◌%◌, ◌^◌, ◌≢◌, ◌<◌, ◌≡◌, refl, false, List, ◌∷◌, Option, none, some, arith, ◌⊎◌, inl, inr,
  Option-cases, Bool-cases, total,
}
use memfd_buffer_backend.Errors.{Result, ok, err}
use memfd_buffer_backend.Header.{refuses_reader, try_acquire_reader}
use memfd_buffer_backend.Header.Slots.{compare_exchange-same}
use memfd_buffer_backend.Handles.{
  State, unset, in_use, finalized, with_state, with_header, make_lease, finish_read, read_with,
  ensure_state, state_of, ReadHandle, WriteHandle, SharedBuffer, Process, get_read_handle,
}
use memfd_buffer_backend.Handles.Client.{Fits, IsMade}

pub State-cases : (s : State) → (s ≡ in_use) ⊎ ((s ≡ unset) ⊎ (s ≡ finalized))
State-cases in_use = inl refl
State-cases unset = inr (inl refl)
State-cases finalized = inr (inr refl)

pub state_of-lt :
    (p : Process) (b : SharedBuffer) → IsMade p b → state_of p b < (ensure_state p b).0.next_state
unfolding ensure_state
state_of-lt p b m = elim (Option-cases b.handle_state) [
  | inl e ↦ ground (arith, e)
  | inr (s, e) ↦ ground (arith, e, m s e)
]

module _ (others held : ℕ → ℕ) (writes : List WriteHandle) where
  abbrev pub FitsAfter : List ReadHandle → Result ReadHandle × (Process × SharedBuffer) → Type 0
  FitsAfter reads (ok h, (q, c)) = Fits others held q (h ∷ reads) writes
  FitsAfter reads (err e, (q, c)) = Fits others held q reads writes

  pub ensure_state-Fits :
      (p : Process) (b : SharedBuffer) (reads : List ReadHandle)
      → Fits others held p reads writes
      → Fits others held (ensure_state p b).0 reads writes
  unfolding ensure_state
  ensure_state-Fits p b reads v = elim (Option-cases b.handle_state) [
    | inr (s, e) ↦ rw (e, ensure_state) v
    | inl e ↦
        rw (e, ensure_state)
          (record {
            readers = λ s. ground (arith, v.readers s, v.fresh p.next_state);
            exclusive = λ s u. ground (arith, v.exclusive s, v.fresh p.next_state);
            writers = λ s. ground (arith, v.writers s, v.fresh p.next_state);
            fresh = λ s le. ground (arith, v.fresh s);
            slots = v.slots;
            bounded = v.bounded;
          })
  ]

  -- One more reader of the write state `s`.
  abbrev counted : Process → ℕ → Process
  counted p s =
      with_state p s (record (p.states s) { active_readers = (p.states s).active_readers + 1 })

  leased-Fits :
      (p : Process) (b : SharedBuffer) (s a : ℕ) (reads : List ReadHandle) (h : ReadHandle)
      → Fits others held p reads writes
      → s < p.next_state
      → (p.states s).state ≢ in_use
      → refuses_reader (p.pool.headers a).reader_state ≡ false
      → h.state ≡ some s
      → h.reader_lease ≡ some a
      → Fits others held
          (with_header (counted p s) a (record (p.pool.headers a) {
            reader_state = ((p.pool.headers a).reader_state + 1) % 2 ^ 32;
          }))
          (h ∷ reads)
          writes
  unfolding total
  leased-Fits p b s a reads h v lt idle granted hs hl = record {
    readers = λ t. ground (arith, v.readers t, hs);
    exclusive = λ t u. ground (arith, v.exclusive t, idle);
    writers = λ t. ground (arith, v.writers t);
    fresh = λ t le. ground (arith, v.fresh t);
    slots = λ x. ground (arith, v.slots x, v.bounded a, hl);
    bounded = λ x. ground (arith, v.bounded x);
  }

  finish_read-Fits :
      (p : Process) (b c : SharedBuffer) (s : ℕ) (control : Option ℕ) (reads : List ReadHandle)
      → Fits others held p reads writes
      → s < p.next_state
      → (p.states s).state ≢ in_use
      → let x = finish_read b s (make_lease (counted p s) control) in
        FitsAfter reads (x.0, (x.1, c))
  unfolding finish_read make_lease total try_acquire_reader
  finish_read-Fits p b c s none reads v lt idle = record {
    readers = λ t. ground (arith, v.readers t);
    exclusive = λ t u. ground (arith, v.exclusive t, idle);
    writers = λ t. ground (arith, v.writers t);
    fresh = λ t le. ground (arith, v.fresh t);
    slots = λ x. ground (arith, v.slots x);
    bounded = v.bounded;
  }
  finish_read-Fits p b c s (some a) reads v lt idle =
      elim (Bool-cases (refuses_reader (p.pool.headers a).reader_state)) [
        | inl refused ↦ rw refused (record {
          readers = λ t. ground (arith, v.readers t);
          exclusive = λ t u. ground (arith, v.exclusive t, idle);
          writers = λ t. ground (arith, v.writers t);
          fresh = λ t le. ground (arith, v.fresh t);
          slots = v.slots;
          bounded = v.bounded;
        })
        | inr granted ↦
            rw (granted, compare_exchange-same)
              (leased-Fits p b s a reads
                (record {
                  data_ptr = b.data_ptr;
                  state = some s;
                  reader_lease = some a;
                  owner = b.owner;
                  promoted_buffer = none;
                })
                v lt idle granted refl refl)
      ]

  read_with-Fits :
      (p : Process) (b c : SharedBuffer) (s : ℕ) (reads : List ReadHandle)
      → Fits others held p reads writes
      → s < p.next_state
      → FitsAfter reads ((read_with b s p).0, ((read_with b s p).1, c))
  unfolding read_with
  read_with-Fits p b c s reads v lt = elim (State-cases (p.states s).state) [
    | inl writing ↦ rw (writing, read_with) v
    | inr (inl free) ↦
        rw (free, read_with) (finish_read-Fits p b c s b.control reads v lt (λ u. cc))
    | inr (inr free) ↦
        rw (free, read_with) (finish_read-Fits p b c s b.control reads v lt (λ u. cc))
  ]

  pub get_read_handle-Fits :
      (p : Process) (b : SharedBuffer) (reads : List ReadHandle)
      → Fits others held p reads writes
      → IsMade p b
      → FitsAfter reads (get_read_handle p b)
  unfolding get_read_handle
  get_read_handle-Fits p b reads v m =
      read_with-Fits (ensure_state p b).0 b (ensure_state p b).1 (state_of p b) reads
        (ensure_state-Fits p b reads v) (state_of-lt p b m)
