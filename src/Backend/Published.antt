-- ===== src/Backend/Published.antt =====
-- A descriptor of a pool block is one that its receivers accept.
use Prim.Native.String.{String}
use text.Mathlib.Text.{◌==◌ as same_text}
use text.Mathlib.TextPositions.{eq_refl}
use memfd_buffer_backend.Prelude.{
  ℕ, ◌≡◌, refl, sym, ap, subst, ◌∙◌, ◌≢◌, inl, inr, true, false, ◌||◌, Option, none, some, ◌==◌,
  get_elem?, get_elem?-set, arith, Bool-cases,
}
use memfd_buffer_backend.Errors.{Result, ok, err}
use memfd_buffer_backend.Pool.{Block, Host, Pool, put_block, assign_uid}
use memfd_buffer_backend.Pool.Consistency.{IsShaped, IsConsistent}
use memfd_buffer_backend.Pool.Lookup.{InPayload, find_block_for_ptr_iff}
use memfd_buffer_backend.Pool.Publication.{Named, assign_uid-Named, mark_published-headers}
use memfd_buffer_backend.Handles.{
  has_ipc_descriptor, finalize_write_handle, Pid, SharedBuffer, Process, positive, is_empty,
}
use memfd_buffer_backend.Import.{ImportedBlock}
use memfd_buffer_backend.Import.Outcome.{Agrees}
use memfd_buffer_backend.Storage.{SharedBufferImpl}
use memfd_buffer_backend.Backend.{Descriptor, invalid_descriptor}
use memfd_buffer_backend.Backend.Sending.{
  Broker, KeepsBlock, Sender, describe, registered, publish_block, describe_buffer, block_of,
  known_incompatible, create_descriptor_with_endpoint,
}

-- The block as another process maps it.
abbrev pub view : Block → String → ImportedBlock
view b name = record {
  native_handle = b.native_handle;
  mapping = b.mapping;
  mapped_size = b.mapped_size;
  control = some b.mapping;
  ipc_name = name;
}

-- Either nothing was published, or a descriptor that passes every test on the receiving side: the
-- element type is `uint8_name`, the metadata are valid, and the block agrees with it.
abbrev pub Announced :
    {broker : Broker}
    → Pid
    → String
    → Sender broker
    → Block
    → Option Descriptor × Sender broker
    → Type 0
Announced self uint8_name s b (none, s') =
    (x : ℕ) → s'.process.pool.headers x ≡ s.process.pool.headers x
Announced self uint8_name s b (some d, s') =
    (same_text d.element_type_name uint8_name ≡ true)
    × (d.shared_buffer_pid ≡ self)
    × (invalid_descriptor d ≡ false)
    × Agrees s'.process (view b d.shared_buffer_socket_path) d.shared_buffer_block_size d.size
        d.ipc_uid
    × (d.shared_buffer_block_id ≡ b.block_id)

module _ {broker : Broker} (host : Host) (self : Pid) (uint8_name : String)
    (s : Sender broker) where
  describe-Announced :
      (i : ℕ) (b : Block) (name : String) (t : broker.State) (uid : ℕ) (p q : Pool)
      → IsShaped s.process.pool.headers b
      → positive self ≡ true
      → Named p q i b.mapping uid
      → ((x : ℕ) → p.headers x ≡ s.process.pool.headers x)
      → Announced self uint8_name s b (
          describe host self uint8_name b.payload_size i b name
            (uid, q)
            (record s { process = record s.process { pool = p }; broker_state = t }))
  unfolding describe invalid_descriptor
  describe-Announced i b name t uid p q shaped alive v same =
      elim (Bool-cases (is_empty name || uid == 0)) [
        | inl bad ↦ rw (describe, bad) (λ x. v.same_headers x ∙ same x)
        | inr good ↦
            let written =
              mark_published-headers host q i v.block b.mapping b.mapping v.at v.controlled in
            rw (describe, good)
              (
                eq_refl uint8_name,
                refl,
                ground (arith, alive, good, shaped.mapped),
                record {
                  address = b.mapping;
                  at = refl;
                  mapped = refl;
                  within = omega (arith, shaped.mapped);
                  magic =
                      ground
                        (arith, written, v.same_headers b.mapping, same b.mapping, shaped.magic);
                  version = ground (
                    arith,
                    written,
                    v.same_headers b.mapping,
                    same b.mapping,
                    shaped.abi_version,
                  );
                  payload =
                      ground
                        (arith, written, v.same_headers b.mapping, same b.mapping, shaped.sized);
                  published =
                      ground (arith, written, v.same_headers b.mapping, same b.mapping, v.named);
                  nonzero = v.nonzero;
                },
                refl,
              )
      ]

  registered-Announced :
      (i : ℕ) (b : Block) (x : String) (r : Result String) (t : broker.State)
      → IsShaped s.process.pool.headers b
      → positive self ≡ true
      → get_elem? s.process.pool.all_blocks i ≡ some b
      → Announced self uint8_name s b (
          registered host self uint8_name b.payload_size i s (r, (t, record b { socket_path = x })))
  unfolding registered
  registered-Announced i b x (err e) t shaped alive at = λ y. refl
  registered-Announced i b x (ok name) t shaped alive at =
      let c : Block = record b { socket_path = x } in
      let p = put_block s.process.pool i c in
      describe-Announced i c name t (assign_uid host p i).0 p (assign_uid host p i).1
        (record {
          controlled = shaped.controlled;
          mapped = shaped.mapped;
          filled = shaped.filled;
          magic = shaped.magic;
          abi_version = shaped.abi_version;
          sized = shaped.sized;
        })
        alive
        (assign_uid-Named host p i c b.mapping
          (ground (arith, get_elem?-set s.process.pool.all_blocks i i c at)) shaped.controlled)
        (λ y. refl)

  answered-Announced :
      (i : ℕ) (b : Block) (x : String) (z : Result String × (broker.State × Block))
      → IsShaped s.process.pool.headers b
      → positive self ≡ true
      → get_elem? s.process.pool.all_blocks i ≡ some b
      → z.1.1 ≡ record b { socket_path = x }
      → Announced self uint8_name s b (registered host self uint8_name b.payload_size i s z)
  answered-Announced i b x (r, (t, c)) shaped alive at kept =
      subst
        (λ d.
          Announced self uint8_name s b
            (registered host self uint8_name b.payload_size i s (r, (t, d))))
        (sym kept) (registered-Announced i b x r t shaped alive at)

  pub publish_block-Announced :
      (i : ℕ) (b : Block)
      → KeepsBlock broker
      → IsShaped s.process.pool.headers b
      → positive self ≡ true
      → get_elem? s.process.pool.all_blocks i ≡ some b
      → Announced self uint8_name s b (publish_block host self uint8_name b.payload_size s (some i))
  unfolding publish_block
  publish_block-Announced i b keeper shaped alive at =
      let (x, kept) = keeper.keeps s.broker_state b in
      rw (at, publish_block, shaped.controlled)
        (answered-Announced i b x (broker.register s.broker_state b) shaped alive at kept)

pub finalize_write_handle-pool :
    (p : Process) (b : SharedBuffer) → (finalize_write_handle p b).pool ≡ p.pool
unfolding finalize_write_handle
finalize_write_handle-pool p b = ground arith

-- A buffer over the pool block `i`: its size is that of the block, and its pointer is in the payload.
pub record IsOver (p : Pool) (x : SharedBufferImpl) (i : ℕ) (b : Block) : Type 0 where
  pub address : ℕ
  pub at : get_elem? p.all_blocks i ≡ some b
  pub points_to : x.shared_buffer.data_ptr ≡ some address
  pub not_null : address ≢ 0
  pub inside : InPayload b address
  pub sized : x.size ≡ b.payload_size
  pub local : has_ipc_descriptor x.shared_buffer ≡ false

Announced-pool :
    {broker : Broker} (self : Pid) (uint8_name : String) (s t : Sender broker) (b : Block)
    (r : Option Descriptor × Sender broker)
    → t.process.pool ≡ s.process.pool
    → Announced self uint8_name t b r
    → Announced self uint8_name s b r
Announced-pool self uint8_name s t b (none, u) same a = λ y. a y ∙ ap (λ p. p.headers y) same
Announced-pool self uint8_name s t b (some d, u) same a = a

over-Announced :
    {broker : Broker} (host : Host) (self : Pid) (uint8_name : String) (s : Sender broker)
    (x : SharedBufferImpl) (i : ℕ) (b : Block)
    → KeepsBlock broker
    → IsConsistent s.process.pool
    → positive self ≡ true
    → IsOver s.process.pool x i b
    → Announced self uint8_name s b (
        publish_block host self uint8_name x.size s
          (block_of s.process.pool x.shared_buffer.data_ptr))
unfolding block_of
over-Announced host self uint8_name s x i b keeper v alive over =
    rw
      (
        over.points_to,
        block_of,
        (find_block_for_ptr_iff s.process.pool over.address i v over.not_null).1
            (b, over.at, over.inside),
        over.sized,
      )
      (publish_block-Announced host self uint8_name s i b keeper (v.shaped i b over.at) alive
        over.at)

-- For a buffer over a block of a consistent pool, `create_descriptor_with_endpoint` publishes
-- nothing, or it returns a descriptor that a receiver accepts: its element type is the receiver's,
-- its process id is that of this process, its metadata are valid, and the block, as it is then, agrees
-- with it in every test of `validate_mapping`. The broker may write the
-- path of the block and no more, and the process id is positive.
pub create_descriptor-Announced :
    {broker : Broker} (host : Host) (self : Pid) (uint8_name : String) (s : Sender broker)
    (x : SharedBufferImpl) (gid i : ℕ) (b : Block)
    → KeepsBlock broker
    → IsConsistent s.process.pool
    → positive self ≡ true
    → IsOver s.process.pool x i b
    → Announced self uint8_name s b
        (create_descriptor_with_endpoint host self uint8_name s (some x) gid)
unfolding create_descriptor_with_endpoint describe_buffer block_of
create_descriptor-Announced host self uint8_name s x gid i b keeper v alive over =
    elim (Bool-cases (known_incompatible (s.compatible gid))) [
      | inl refused ↦ rw (refused, create_descriptor_with_endpoint) (λ y. refl)
      | inr open_to ↦
          let same = finalize_write_handle-pool s.process x.shared_buffer in
          rw (open_to, create_descriptor_with_endpoint, over.local)
            (Announced-pool self uint8_name s
              (record s { process = finalize_write_handle s.process x.shared_buffer }) b
              (publish_block host self uint8_name x.size
                (record s { process = finalize_write_handle s.process x.shared_buffer })
                (block_of (finalize_write_handle s.process x.shared_buffer).pool
                  x.shared_buffer.data_ptr))
              same
              (over-Announced host self uint8_name
                (record s { process = finalize_write_handle s.process x.shared_buffer }) x i b
                keeper (subst IsConsistent (sym same) v) alive
                (subst (λ p. IsOver p x i b) (sym same) over)))
    ]
