-- ===== src/Protocol/Invariant/Defs.antt =====
-- The invariant of the block protocol: what `reader_state` counts, and what the stored uid says.
use memfd_buffer_backend.Prelude.{
  ℕ, ◌+◌, ◌*◌, ◌^◌, ◌<◌, ◌≡◌, ◌≢◌, ◌⊎◌, true, false, some, get_elem?, total,
}
use memfd_buffer_backend.Protocol.{
  is_finalized, Memory, Publisher, reserved, uid_cleared, stamp_cleared, writing, uid_stored,
  published, import, Reader, idle, described, validated, trying, acquired, holding, releasing,
  System,
}

-- The slots that a reader occupies.
abbrev pub slots : Reader → ℕ
slots (acquired _) = 1
slots (holding _) = 1
slots releasing = 1
slots _ = 0

-- 1 while the claim bit is set.
abbrev pub claims : Publisher → ℕ
claims (reserved true) = 1
claims (uid_cleared true) = 1
claims (stamp_cleared true) = 1
claims _ = 0

-- A created block has not been described to anybody.
abbrev pub IsNew : Publisher → Type 0
IsNew (reserved false) = Unit
IsNew (uid_cleared false) = Unit
IsNew (stamp_cleared false) = Unit
IsNew _ = ⊥

abbrev pub IsEarly : Reader → Type 0
IsEarly idle = Unit
IsEarly (described _) = Unit
IsEarly _ = ⊥

-- The payload is as it was when the block was last marked published, unless the write state was
-- not closed then.
abbrev pub IsSealed : Memory → Type 0
IsSealed m =
    (m.closed ≡ false)
    ⊎ ((m.closed ≡ true)
        × (m.payload ≡ m.sealed)
        × (is_finalized m.write_state ≡ true)
        × (m.write_handle ≡ false))

-- What the stored uid says where the publisher stands.
abbrev pub UidFits : (ℕ → ℕ) → Memory → Publisher → Type 0
UidFits uid m (uid_cleared _) = m.ipc_uid ≡ 0
UidFits uid m (stamp_cleared _) = m.ipc_uid ≡ 0
UidFits uid m writing = m.ipc_uid ≡ 0
UidFits uid m (reserved false) = m.ipc_uid ≡ 0
UidFits uid m uid_stored = (m.ipc_uid ≡ uid m.generation) × IsSealed m
UidFits uid m published = (m.ipc_uid ≡ uid m.generation) × IsSealed m
UidFits uid m _ = (m.ipc_uid ≡ 0) ⊎ ((m.ipc_uid ≡ uid m.generation) × IsSealed m)

-- What a reader has learnt of the uid of its descriptor.
abbrev pub ReaderFits : (ℕ → ℕ) → Memory → Reader → Type 0
ReaderFits uid m (validated (import g)) = uid g ≢ 0
ReaderFits uid m (trying (import g) _) = uid g ≢ 0
ReaderFits uid m (acquired (import g)) = uid g ≢ 0
ReaderFits uid m (holding (import g)) = (uid g ≢ 0) × (m.ipc_uid ≡ uid g)
ReaderFits uid m _ = Unit

-- The two kinds of step preserve this, one reader at a time.
abbrev pub Fits : (ℕ → ℕ) → Memory → Publisher → Reader → Type 0
Fits uid m p r = ReaderFits uid m r × (IsNew p → IsEarly r)

pub record Inv (uid : ℕ → ℕ) (s : System) : Type 0 where
  pub counted : s.memory.reader_state ≡ total slots s.readers + claims s.publisher * 2 ^ 31
  pub bounded : total slots s.readers < 2 ^ 31
  pub alone : claims s.publisher ≡ 1 → total slots s.readers ≡ 0
  pub alone_new : IsNew s.publisher → total slots s.readers ≡ 0
  pub uid_fits : UidFits uid s.memory s.publisher
  pub fits : (i : ℕ) (r : Reader) → get_elem? s.readers i ≡ some r → Fits uid s.memory s.publisher r

-- The fields of the invariant that speak of the whole, for a number of slots.
pub record Whole (uid : ℕ → ℕ) (n : ℕ) (m : Memory) (p : Publisher) : Type 0 where
  pub counted : m.reader_state ≡ n + claims p * 2 ^ 31
  pub bounded : n < 2 ^ 31
  pub alone : claims p ≡ 1 → n ≡ 0
  pub alone_new : IsNew p → n ≡ 0
  pub uid_fits : UidFits uid m p
