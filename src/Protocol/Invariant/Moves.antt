-- ===== src/Protocol/Invariant/Moves.antt =====
-- One step of the publisher or of a reader keeps each part of the invariant.
use memfd_buffer_backend.Prelude.{ℕ, ◌+◌, ◌≤◌, ◌<◌, ◌≡◌, ◌≢◌, true, false, arith, sym, ◌∙◌}
use memfd_buffer_backend.Protocol.Invariant.Defs.{
  slots, IsNew, IsSealed, UidFits, ReaderFits, Fits, Whole,
}
use memfd_buffer_backend.Protocol.{
  Memory, Publisher, available, checked, reserved, uid_cleared, stamp_cleared, writing, uid_stored,
  published, import, Reader, idle, described, validated, trying, acquired, holding, releasing,
  PublisherAction, ReaderAction, access, publisher_step, reader_step,
}

module _ (uid : ℕ → ℕ) where
  pub publisher_step-Whole :
      (n : ℕ) (m : Memory) (p : Publisher) (a : PublisherAction)
      → Whole uid n m p
      → let (m', p') = publisher_step uid m p a in Whole uid n m' p'
  unfolding publisher_step access
  publisher_step-Whole n m available a w = ground arith
  publisher_step-Whole n m checked a w = ground arith
  publisher_step-Whole n m (reserved true) a w = ground arith
  publisher_step-Whole n m (reserved false) a w = ground arith
  publisher_step-Whole n m (uid_cleared true) a w = ground arith
  publisher_step-Whole n m (uid_cleared false) a w = ground arith
  publisher_step-Whole n m (stamp_cleared true) a w = ground arith
  publisher_step-Whole n m (stamp_cleared false) a w = ground arith
  publisher_step-Whole n m writing a w = ground arith
  publisher_step-Whole n m uid_stored a w = ground arith
  publisher_step-Whole n m published a w = ground arith

  -- While a reader has a slot and the stored uid is not zero, the publisher changes neither the uid
  -- nor the generation, and not the payload where the write state was closed.
  pub publisher_step-uid :
      (n : ℕ) (m : Memory) (p : Publisher) (a : PublisherAction)
      → Whole uid n m p
      → 0 < n
      → m.ipc_uid ≢ 0
      → let m' = (publisher_step uid m p a).0 in
        (m'.ipc_uid ≡ m.ipc_uid)
        × (m'.generation ≡ m.generation)
        × (m.closed ≡ true → (m'.payload ≡ m.payload) × (m'.closed ≡ true))
  unfolding publisher_step access
  publisher_step-uid n m available a w held set_uid = ground arith
  publisher_step-uid n m checked a w held set_uid = ground arith
  publisher_step-uid n m (reserved true) a w held set_uid = ground arith
  publisher_step-uid n m (reserved false) a w held set_uid = ground arith
  publisher_step-uid n m (uid_cleared b) a w held set_uid = ground arith
  publisher_step-uid n m (stamp_cleared b) a w held set_uid = ground arith
  publisher_step-uid n m writing a w held set_uid = ground arith
  publisher_step-uid n m uid_stored a w held set_uid = ground arith
  publisher_step-uid n m published a w held set_uid = ground arith

  IsNew-publisher_step :
      (m : Memory) (p : Publisher) (a : PublisherAction)
      → IsNew (publisher_step uid m p a).1
      → IsNew p
  unfolding publisher_step
  IsNew-publisher_step m (reserved true) a new = ground arith
  IsNew-publisher_step m (reserved false) a new = tt
  IsNew-publisher_step m (uid_cleared true) a new = ground arith
  IsNew-publisher_step m (uid_cleared false) a new = tt
  IsNew-publisher_step m (stamp_cleared true) a new = ground arith
  IsNew-publisher_step m (stamp_cleared false) a new = tt
  IsNew-publisher_step m p a new = ground arith

  pub UidFits-same :
      (m m' : Memory) (p : Publisher)
      → UidFits uid m p
      → m'.ipc_uid ≡ m.ipc_uid
      → m'.generation ≡ m.generation
      → m'.payload ≡ m.payload
      → m'.sealed ≡ m.sealed
      → m'.write_state ≡ m.write_state
      → m'.write_handle ≡ m.write_handle
      → m'.closed ≡ m.closed
      → UidFits uid m' p
  UidFits-same m m' (reserved true) f e g h k w l c = ground arith
  UidFits-same m m' (reserved false) f e g h k w l c = ground arith
  UidFits-same m m' p f e g h k w l c = ground arith

  pub ReaderFits-same :
      (m m' : Memory) (r : Reader)
      → ReaderFits uid m r
      → (0 < slots r → m.ipc_uid ≢ 0 → m'.ipc_uid ≡ m.ipc_uid)
      → ReaderFits uid m' r
  ReaderFits-same m m' (validated (import g)) f same = f
  ReaderFits-same m m' (trying (import g) v) f same = f
  ReaderFits-same m m' (acquired (import g)) f same = f
  ReaderFits-same m m' (holding (import g)) f same =
      (f.0, same (omega arith) (λ e. f.0 (sym f.1 ∙ e)) ∙ f.1)
  ReaderFits-same m m' _ f same = tt

  pub publisher_step-Fits :
      (n : ℕ) (m : Memory) (p : Publisher) (a : PublisherAction) (r : Reader)
      → Whole uid n m p
      → slots r ≤ n
      → Fits uid m p r
      → let (m', p') = publisher_step uid m p a in Fits uid m' p' r
  publisher_step-Fits n m p a r w few f = (
    ReaderFits-same m (publisher_step uid m p a).0 r f.0
        (λ held set_uid. (publisher_step-uid n m p a w (omega arith) set_uid).0),
    λ new. f.1 (IsNew-publisher_step m p a new),
  )

  -- A step of one reader, with `n` slots before it.
  pub reader_step-Whole :
      (n n' : ℕ) (m : Memory) (p : Publisher) (r : Reader) (a : ReaderAction)
      → Whole uid n m p
      → slots r ≤ n
      → Fits uid m p r
      → let (m', r') = reader_step uid m p r a in n' + slots r ≡ n + slots r' → Whole uid n' m' p
  unfolding reader_step
  reader_step-Whole n n' m p idle a w few f e = ground arith
  reader_step-Whole n n' m p (described g) a w few f e = ground arith
  reader_step-Whole n n' m p (validated v) a w few f e = ground arith
  reader_step-Whole n n' m p (trying v value) a w few f e = ground arith
  reader_step-Whole n n' m p (acquired v) a w few f e = ground arith
  reader_step-Whole n n' m p (holding v) a w few f e = ground arith
  reader_step-Whole n n' m p releasing a w few f e = ground arith

  pub reader_step-Fits :
      (n : ℕ) (m : Memory) (p : Publisher) (r : Reader) (a : ReaderAction)
      → Whole uid n m p
      → Fits uid m p r
      → let (m', r') = reader_step uid m p r a in Fits uid m' p r'
  unfolding reader_step
  reader_step-Fits n m p r a w f = ground arith

  -- A uid that is not zero is that of the current generation, with its payload.
  pub UidFits-current :
      (m : Memory) (p : Publisher)
      → UidFits uid m p
      → m.ipc_uid ≢ 0
      → (m.ipc_uid ≡ uid m.generation) × IsSealed m
  UidFits-current m (reserved true) f set_uid = ground arith
  UidFits-current m (reserved false) f set_uid = ground arith
  UidFits-current m p f set_uid = ground arith

  pub reader_step-uid :
      (m : Memory) (p : Publisher) (r : Reader) (a : ReaderAction)
      → let m' = (reader_step uid m p r a).0 in
        (m'.ipc_uid ≡ m.ipc_uid)
        × (m'.payload ≡ m.payload)
        × (m'.generation ≡ m.generation)
        × (m'.closed ≡ m.closed)
  unfolding reader_step
  reader_step-uid m p idle a = ground arith
  reader_step-uid m p r a = ground arith
