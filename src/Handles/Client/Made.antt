-- ===== src/Handles/Client/Made.antt =====
-- The write states that the buffers of a client point to have been made.
use memfd_buffer_backend.Prelude.{
  ℕ, ◌≤◌, ◌≡◌, sym, ◌∙◌, ◌⊎◌, inl, inr, List, some, arith, Option-cases, get_elem?, set,
  get_elem?-set_cases,
}
use memfd_buffer_backend.Handles.{
  ReadHandle, WriteHandle, Process, SharedBuffer, ensure_state, get_read_handle, get_write_handle,
  hold_reader_reference, reset, release_read, release_write, finalize_write_handle, read_with,
  write_with,
}
use memfd_buffer_backend.Handles.Client.{IsMade, AllMade}

pub AllMade-set :
    (p q : Process) (bs : List SharedBuffer) (i : ℕ) (b c : SharedBuffer)
    → AllMade p bs
    → get_elem? bs i ≡ some b
    → p.next_state ≤ q.next_state
    → IsMade q c
    → AllMade q (set bs i c)
AllMade-set p q bs i b c m at le made j x at' s e = elim (get_elem?-set_cases bs i j c at at') [
  | inl new ↦ made s (ground (arith, new, e))
  | inr old ↦ omega (arith, m j x old s e)
]

pub AllMade-keep :
    (p q : Process) (bs : List SharedBuffer)
    → AllMade p bs
    → p.next_state ≤ q.next_state
    → AllMade q bs
AllMade-keep p q bs m le j x at s e = omega (arith, m j x at s e)

ensure_state-IsMade :
    (p : Process) (b : SharedBuffer)
    → IsMade p b
    → (p.next_state ≤ (ensure_state p b).0.next_state)
      × IsMade (ensure_state p b).0 (ensure_state p b).1
unfolding ensure_state
ensure_state-IsMade p b m = elim (Option-cases b.handle_state) [
  | inl e ↦ rw (e, ensure_state) (ground arith, λ s f. ground (arith, f))
  | inr (s, e) ↦ rw (e, ensure_state) (ground arith, λ t f. m t f)
]

pub get_read_handle-IsMade :
    (p : Process) (b : SharedBuffer)
    → IsMade p b
    → (p.next_state ≤ (get_read_handle p b).1.0.next_state)
      × IsMade (get_read_handle p b).1.0 (get_read_handle p b).1.1
unfolding get_read_handle read_with
get_read_handle-IsMade p b m =
    let (le, made) = ensure_state-IsMade p b m in (ground arith, λ s f. ground (arith, made s f))

-- A write handle that is refused at the guards leaves the buffer; otherwise its state is made.
get_write_handle_cases :
    (p : Process) (b : SharedBuffer)
    → ((get_write_handle p b).1.1.handle_state ≡ b.handle_state)
        × ((get_write_handle p b).1.0.next_state ≡ p.next_state)
      ⊎ ((get_write_handle p b).1.1.handle_state ≡ (ensure_state p b).1.handle_state)
        × ((get_write_handle p b).1.0.next_state ≡ (ensure_state p b).0.next_state)
unfolding get_write_handle write_with
get_write_handle_cases p b = ground arith

IsMade-moved :
    (p q : Process) (b c : SharedBuffer)
    → IsMade p b
    → c.handle_state ≡ b.handle_state
    → q.next_state ≡ p.next_state
    → (p.next_state ≤ q.next_state) × IsMade q c
IsMade-moved p q b c m h n = (omega arith, λ s f. omega (arith, m s (sym h ∙ f)))

pub get_write_handle-IsMade :
    (p : Process) (b : SharedBuffer)
    → IsMade p b
    → (p.next_state ≤ (get_write_handle p b).1.0.next_state)
      × IsMade (get_write_handle p b).1.0 (get_write_handle p b).1.1
get_write_handle-IsMade p b m = elim (get_write_handle_cases p b) [
  | inl (h, n) ↦ IsMade-moved p (get_write_handle p b).1.0 b (get_write_handle p b).1.1 m h n
  | inr (h, n) ↦
      let (le, made) = ensure_state-IsMade p b m in
      let (le', made') =
        IsMade-moved (ensure_state p b).0 (get_write_handle p b).1.0 (ensure_state p b).1
          (get_write_handle p b).1.1 made h n in
      (omega arith, made')
]

hold_reader_reference-handle_state :
    (p : Process) (b : SharedBuffer)
    → ((hold_reader_reference p b).1.1.handle_state ≡ b.handle_state)
      × ((hold_reader_reference p b).1.0.next_state ≡ p.next_state)
unfolding hold_reader_reference
hold_reader_reference-handle_state p b = ground arith

pub hold_reader_reference-IsMade :
    (p : Process) (b : SharedBuffer)
    → IsMade p b
    → (p.next_state ≤ (hold_reader_reference p b).1.0.next_state)
      × IsMade (hold_reader_reference p b).1.0 (hold_reader_reference p b).1.1
hold_reader_reference-IsMade p b m =
    let (h, n) = hold_reader_reference-handle_state p b in
    IsMade-moved p (hold_reader_reference p b).1.0 b (hold_reader_reference p b).1.1 m h n

pub reset-next : (p : Process) (b : SharedBuffer) → (reset p b).0.next_state ≡ p.next_state
unfolding reset
reset-next p b = ground arith

pub release_read-next :
    (p : Process) (h : ReadHandle) → (release_read p h).0.next_state ≡ p.next_state
unfolding release_read
release_read-next p h = ground arith

pub release_write-next :
    (p : Process) (h : WriteHandle) → (release_write p h).0.next_state ≡ p.next_state
unfolding release_write
release_write-next p h = ground arith

pub finalize_write_handle-next :
    (p : Process) (b : SharedBuffer) → (finalize_write_handle p b).next_state ≡ p.next_state
unfolding finalize_write_handle
finalize_write_handle-next p b = ground arith

pub reset-IsMade : (p : Process) (b : SharedBuffer) → IsMade (reset p b).0 (reset p b).1
unfolding reset
reset-IsMade p b s e = cc
