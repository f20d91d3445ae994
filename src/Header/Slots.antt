-- ===== src/Header/Slots.antt =====
-- What the four operations on `reader_state` do to the number of readers and to the claim.
use memfd_buffer_backend.Prelude.{ℕ, ◌^◌, ◌<◌, ◌≡◌, ◌↔◌, true, arith}
use memfd_buffer_backend.Header.{
  ControlHeader, reader_count_mask, compare_exchange, try_acquire_reader, release_reader,
}

-- A reader gets a slot exactly when the state, claim bit included, is below the full count.
pub try_acquire_reader_iff :
    (h : ControlHeader)
    → h.reader_state < 2 ^ 32
    → ((try_acquire_reader h).1 ≡ true) ↔ (h.reader_state < reader_count_mask)
unfolding try_acquire_reader
try_acquire_reader_iff h w = ground arith

-- A slot that is taken and given back leaves the header as it was.
pub release-try_acquire :
    (h : ControlHeader)
    → h.reader_state < 2 ^ 32
    → (try_acquire_reader h).1 ≡ true
    → release_reader (try_acquire_reader h).0 ≡ h
unfolding try_acquire_reader release_reader
release-try_acquire h w e = ground arith

pub compare_exchange-same : (v d : ℕ) → compare_exchange v v d ≡ (d, true)
compare_exchange-same v d = ground arith
