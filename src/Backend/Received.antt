-- ===== src/Backend/Received.antt =====
-- What a received descriptor leads to, and what destroying the received buffer leaves.
use Prim.Native.String.{String}
use text.Mathlib.Text.{◌==◌ as same_text}
use text.Mathlib.TextEquality.{eq_iff}
use memfd_buffer_backend.Prelude.{
  ℕ, ap, ◌+◌, ◌%◌, ◌^◌, ◌≤◌, ◌<◌, ◌≡◌, refl, ◌⊎◌, inl, inr, true, false, none, some, ◌==◌,
  get_elem?, arith, Bool-cases,
}
use memfd_buffer_backend.Errors.{Result, ok, err, shared_block_being_reused}
use memfd_buffer_backend.Header.{payload_offset, refuses_reader, try_acquire_reader, release_reader}
use memfd_buffer_backend.Header.Slots.{compare_exchange-same}
use memfd_buffer_backend.Handles.{
  releases, Pid, SharedBuffer, Process, with_header, has_ipc_descriptor, reset, construct,
}
use memfd_buffer_backend.Handles.Exclusion.{HasWords, SameMemory}
use memfd_buffer_backend.Import.{
  ImportedBlock, CacheKey, Platform, Importer, import_block, acquire_reader, payload,
}
use memfd_buffer_backend.Import.Outcome.{Agrees, IsCached, Outcome}
use memfd_buffer_backend.Import.Cache.{key_of, import_block-Outcome}
use memfd_buffer_backend.Storage.{SharedBufferImpl}
use memfd_buffer_backend.Pool.{Host}
use memfd_buffer_backend.Backend.Sending.{Broker, Sender, describe_buffer, relayed}
use memfd_buffer_backend.Backend.{
  Descriptor, invalid_descriptor, wrap, wrap_imported, from_descriptor_with_endpoint,
}

-- The buffer made of a descriptor and an imported block at the control address `a`.
abbrev pub received_buffer : Descriptor → ℕ → ImportedBlock → ℕ → SharedBuffer
received_buffer d i b a = record {
  data_ptr = some (payload b);
  size = d.size;
  deleter = releases a;
  control = some a;
  owner = some i;
  held_reader_lease = none;
  handle_state = none;
  block_id = d.shared_buffer_block_id;
  mapped_size = d.shared_buffer_block_size;
  writable = false;
  ipc_pid = d.shared_buffer_pid;
  ipc_name = d.shared_buffer_socket_path;
  ipc_uid = d.ipc_uid;
}

abbrev pub slot_taken : Process → ℕ → Process
slot_taken p a =
    with_header p a
      (record (p.pool.headers a) { reader_state = ((p.pool.headers a).reader_state + 1) % 2 ^ 32 })

acquire_reader-granted :
    (b : ImportedBlock) (p : Process) (a : ℕ)
    → b.control ≡ some a
    → refuses_reader (p.pool.headers a).reader_state ≡ false
    → acquire_reader p b ≡ (ok tt, slot_taken p a)
unfolding acquire_reader try_acquire_reader
acquire_reader-granted b p a at granted =
    rw (at, acquire_reader) (rw (granted, compare_exchange-same) refl)

wrap-current :
    (d : Descriptor) (i : ℕ) (b : ImportedBlock) (q : Process) (a : ℕ)
    → b.control ≡ some a
    → ((q.pool.headers a).ipc_uid == d.ipc_uid) ≡ true
    → wrap d i b (ok tt, q)
      ≡ (ok (record { size = d.size; shared_buffer = received_buffer d i b a }), q)
unfolding wrap construct
wrap-current d i b q a at same = rw (at, wrap) (rw same refl)

wrap-granted :
    (d : Descriptor) (i : ℕ) (b : ImportedBlock) (p : Process) (a : ℕ)
    → b.control ≡ some a
    → refuses_reader (p.pool.headers a).reader_state ≡ false
    → (p.pool.headers a).ipc_uid ≡ d.ipc_uid
    → wrap d i b (acquire_reader p b)
      ≡ (ok (record { size = d.size; shared_buffer = received_buffer d i b a }), slot_taken p a)
wrap-granted d i b p a at granted same =
    rw (acquire_reader-granted b p a at granted)
      (wrap-current d i b (slot_taken p a) a at (ground (arith, same)))

wrap-refused :
    (d : Descriptor) (i : ℕ) (b : ImportedBlock) (p : Process) (a : ℕ)
    → b.control ≡ some a
    → refuses_reader (p.pool.headers a).reader_state ≡ true
    → wrap d i b (acquire_reader p b) ≡ (err shared_block_being_reused, p)
unfolding wrap acquire_reader try_acquire_reader
wrap-refused d i b p a at refused = rw (at, acquire_reader) (rw refused refl)

reset-received :
    (d : Descriptor) (i : ℕ) (b : ImportedBlock) (p : Process) (a : ℕ)
    → (p.pool.headers a).reader_state < 2 ^ 32
    → SameMemory p (reset (slot_taken p a) (received_buffer d i b a)).0
unfolding reset release_reader
reset-received d i b p a w = record { same_headers = λ x. ground arith; same_states = λ s. refl }

-- Described by any broker's process, the received buffer gives its descriptor again.
received-described :
    {broker : Broker} (host : Host) (self : Pid) (uint8_name : String) (d : Descriptor)
    (p : Process) (i : ℕ) (b : ImportedBlock)
    (v : Agrees p b d.shared_buffer_block_size d.size d.ipc_uid) (s : Sender broker)
    → s.process ≡ slot_taken p v.address
    → invalid_descriptor d ≡ false
    → d.element_type_name ≡ uint8_name
    → (describe_buffer host self uint8_name s
        (record { size = d.size; shared_buffer = received_buffer d i b v.address })).0
      ≡ some d
unfolding describe_buffer relayed has_ipc_descriptor invalid_descriptor
received-described host self uint8_name d p i b v s e valid same =
    let h : s.process.pool.headers v.address ≡ (slot_taken p v.address).pool.headers v.address =
      ap (λ t. t.pool.headers v.address) e in
    ground (
      arith,
      valid,
      same,
      ap (λ x. x.magic) h,
      ap (λ x. x.abi_version) h,
      ap (λ x. x.payload_size) h,
      ap (λ x. x.ipc_uid) h,
      v.magic,
      v.version,
      v.payload,
      v.published,
    )

-- A buffer received for a descriptor: `q` is the process with the imported block, `q'` the process
-- with the buffer.
pub record Received (broker : Broker) (host : Host) (self : Pid) (uint8_name : String)
    (d : Descriptor) (q q' : Importer) (x : SharedBufferImpl) : Type 0 where
  pub address : ℕ
  pub index : ℕ
  pub block : ImportedBlock
  pub controlled : x.shared_buffer.control ≡ some address
  pub owned : x.shared_buffer.owner ≡ some index
  pub mapped : get_elem? q'.imported_blocks index ≡ some block
  pub placed : x.shared_buffer.data_ptr ≡ some (block.mapping + payload_offset)
  pub within : payload_offset + d.size ≤ block.mapped_size
  pub sized : x.size ≡ d.size
  pub current : (q'.process.pool.headers address).ipc_uid ≡ d.ipc_uid
  pub whole : (q'.process.pool.headers address).payload_size ≡ d.size
  pub slot :
      (q'.process.pool.headers address).reader_state
      ≡ (q.process.pool.headers address).reader_state + 1
  pub read_only : x.shared_buffer.writable ≡ false
  pub described :
      (s : Sender broker)
      → s.process ≡ q'.process
      → (describe_buffer host self uint8_name s x).0 ≡ some d
  pub given_back : SameMemory q.process (reset q'.process x.shared_buffer).0

abbrev pub Receipt :
    Broker
    → Host
    → Pid
    → String
    → Descriptor
    → Importer
    → Importer
    → Result SharedBufferImpl × Importer
    → Type 0
Receipt broker host self uint8_name d m q (ok x, q') = Received broker host self uint8_name d q q' x
Receipt broker host self uint8_name d m q (err e, q') = (q' ≡ m) ⊎ SameMemory q.process q'.process

module _ (broker : Broker) (host : Host) (self : Pid) (uint8_name : String) where
  received :
      (d : Descriptor) (q : Importer) (i : ℕ) (b : ImportedBlock)
      → get_elem? q.imported_blocks i ≡ some b
      → (v : Agrees q.process b d.shared_buffer_block_size d.size d.ipc_uid) → HasWords q.process
      → invalid_descriptor d ≡ false
      → refuses_reader (q.process.pool.headers v.address).reader_state ≡ false
      → d.element_type_name ≡ uint8_name
      → Received broker host self uint8_name d q
          (record q { process = slot_taken q.process v.address })
          (record { size = d.size; shared_buffer = received_buffer d i b v.address })
  received d q i b at v w valid granted named = record {
    address = v.address;
    index = i;
    block = b;
    controlled = refl;
    owned = refl;
    mapped = at;
    placed = refl;
    within = omega (arith, v.within, v.mapped);
    sized = refl;
    current = ground (arith, v.published);
    whole = ground (arith, v.payload);
    slot = ground (arith, w v.address, granted);
    read_only = refl;
    described = λ s e. received-described host self uint8_name d q.process i b v s e valid named;
    given_back = reset-received d i b q.process v.address (w v.address);
  }

  wrap_imported-Receipt :
      (d : Descriptor) (m q : Importer) (i : ℕ) (b : ImportedBlock)
      → get_elem? q.imported_blocks i ≡ some b
      → Agrees q.process b d.shared_buffer_block_size d.size d.ipc_uid
      → HasWords q.process
      → invalid_descriptor d ≡ false
      → d.element_type_name ≡ uint8_name
      → Receipt broker host self uint8_name d m q (wrap_imported d (ok i, q))
  unfolding wrap_imported
  wrap_imported-Receipt d m q i b at v w valid named =
      rw (at, wrap_imported)
        (elim (Bool-cases (refuses_reader (q.process.pool.headers v.address).reader_state)) [
          | inl refused ↦
              rw (wrap-refused d i b q.process v.address v.at refused)
                (inr (record { same_headers = λ x. refl; same_states = λ s. refl }))
          | inr granted ↦
              rw (wrap-granted d i b q.process v.address v.at granted v.published)
                (received d q i b at v w valid granted named)
        ])

  imported-Receipt :
      (platform : Platform) (m : Importer) (d : Descriptor) (key : CacheKey)
      (x : Result ℕ × Importer)
      → Outcome platform m key d.shared_buffer_block_size d.size d.ipc_uid x
      → HasWords x.1.process
      → invalid_descriptor d ≡ false
      → d.element_type_name ≡ uint8_name
      → Receipt broker host self uint8_name d m x.1 (wrap_imported d x)
  unfolding wrap_imported
  imported-Receipt platform m d key (ok i, q) v w valid named =
      wrap_imported-Receipt d m q i v.block v.at v.agrees w valid named
  imported-Receipt platform m d key (err e, q) v w valid named =
      inr (record { same_headers = λ x. refl; same_states = λ s. refl })

  -- What `from_descriptor_with_endpoint` leads to. A buffer that it returns is a read-only view of
  -- the payload of a cached mapping, within its bounds; the control header has the uid and the size of
  -- the descriptor and counts one reader more; a process that describes the buffer again, with any
  -- broker, gets the same descriptor; and destroying it gives the slot back. Where it throws, no reader
  -- slot is left taken.
  pub from_descriptor-Receipt :
      (platform : Platform) (m : Importer) (d : Descriptor)
      → IsCached m
      → let x =
          import_block platform m d.shared_buffer_socket_path d.shared_buffer_pid
            d.shared_buffer_block_id d.shared_buffer_block_size d.size d.ipc_uid in
        HasWords x.1.process
        → Receipt broker host self uint8_name d m x.1
            (from_descriptor_with_endpoint platform uint8_name m (some d))
  unfolding from_descriptor_with_endpoint
  from_descriptor-Receipt platform m d v w =
      elim (Bool-cases (same_text d.element_type_name uint8_name)) [
        | inr other ↦ rw (other, from_descriptor_with_endpoint) (inl refl)
        | inl same ↦ elim (Bool-cases (invalid_descriptor d)) [
          | inl bad ↦ rw (same, from_descriptor_with_endpoint, bad) (inl refl)
          | inr valid ↦
              rw (same, from_descriptor_with_endpoint, valid)
                (imported-Receipt platform m d
                  (key_of d.shared_buffer_socket_path d.shared_buffer_pid d.shared_buffer_block_id)
                  (import_block platform m d.shared_buffer_socket_path d.shared_buffer_pid
                    d.shared_buffer_block_id d.shared_buffer_block_size d.size d.ipc_uid)
                  (import_block-Outcome platform m d.shared_buffer_socket_path d.shared_buffer_pid
                    d.shared_buffer_block_id d.shared_buffer_block_size d.size d.ipc_uid v)
                  w valid ((eq_iff d.element_type_name uint8_name).0 same))
        ]
      ]
