-- ===== src/Backend/Delivery.antt =====
-- Where the broker registers a block, a buffer over the block is described.
use Prim.Native.String.{String}
use memfd_buffer_backend.Prelude.{
  ℕ, ◌≡◌, sym, subst, ◌≢◌, false, none, some, get_elem?, get_elem?-set, arith,
}
use memfd_buffer_backend.Errors.{Result, ok}
use memfd_buffer_backend.Pool.{Block, Host, Pool, put_block, assign_uid}
use memfd_buffer_backend.Pool.Consistency.{IsConsistent}
use memfd_buffer_backend.Pool.Lookup.{find_block_for_ptr_iff}
use memfd_buffer_backend.Pool.Publication.{assign_uid-Named}
use memfd_buffer_backend.Handles.{Pid, is_empty, finalize_write_handle}
use memfd_buffer_backend.Storage.{SharedBufferImpl}
use memfd_buffer_backend.Backend.Sending.{
  Broker, KeepsBlock, Sender, describe, registered, publish_block, describe_buffer, block_of,
  known_incompatible, create_descriptor_with_endpoint,
}
use memfd_buffer_backend.Backend.Published.{IsOver, finalize_write_handle-pool}

module _ {broker : Broker} (host : Host) (self : Pid) (uint8_name : String)
    (s : Sender broker) where
  describe-some :
      (size i : ℕ) (b : Block) (name : String) (uid : ℕ) (p : Pool)
      → is_empty name ≡ false
      → uid ≢ 0
      → (describe host self uint8_name size i b name (uid, p) s).0 ≢ none
  unfolding describe
  describe-some size i b name uid p named nonzero e = ground (arith, e, named)

module _ {broker : Broker} (host : Host) (self : Pid) (uint8_name : String)
    (s : Sender broker) where
  answered_some :
      (size i : ℕ) (b : Block) (x name : String) (a : ℕ)
      (z : Result String × (broker.State × Block))
      → get_elem? s.process.pool.all_blocks i ≡ some b
      → b.control ≡ some a
      → z.0 ≡ ok name
      → z.1.1 ≡ record b { socket_path = x }
      → is_empty name ≡ false
      → (registered host self uint8_name size i s z).0 ≢ none
  unfolding registered
  answered_some size i b x name a (r, (t, c)) at controlled answer kept named =
      rw (answer, kept)
        (describe-some host self uint8_name
          (record s { process = record s.process { pool = q }; broker_state = t }) size i d name
          (assign_uid host q i).0 (assign_uid host q i).1 named
          (assign_uid-Named host q i d a
            (ground (arith, get_elem?-set s.process.pool.all_blocks i i d at)) controlled).nonzero)
    where
      d : Block
      d = record b { socket_path = x }

      q : Pool
      q = put_block s.process.pool i d

  publish_block-some :
      (size i : ℕ) (b : Block) (name : String) (a : ℕ)
      → KeepsBlock broker
      → get_elem? s.process.pool.all_blocks i ≡ some b
      → b.control ≡ some a
      → (broker.register s.broker_state b).0 ≡ ok name
      → is_empty name ≡ false
      → (publish_block host self uint8_name size s (some i)).0 ≢ none
  unfolding publish_block
  publish_block-some size i b name a keeper at controlled answer named =
      let (x, kept) = keeper.keeps s.broker_state b in
      rw (at, publish_block, controlled)
        (answered_some size i b x name a (broker.register s.broker_state b) at controlled answer
          kept named)

over_some :
    {broker : Broker} (host : Host) (self : Pid) (uint8_name : String) (s : Sender broker)
    (x : SharedBufferImpl) (i : ℕ) (b : Block) (name : String)
    → KeepsBlock broker
    → IsConsistent s.process.pool
    → IsOver s.process.pool x i b
    → (broker.register s.broker_state b).0 ≡ ok name
    → is_empty name ≡ false
    → (publish_block host self uint8_name x.size s
        (block_of s.process.pool x.shared_buffer.data_ptr)).0
      ≢ none
unfolding block_of
over_some host self uint8_name s x i b name keeper v over answer named =
    rw
      (
        over.points_to,
        block_of,
        (find_block_for_ptr_iff s.process.pool over.address i v over.not_null).1
            (b, over.at, over.inside),
      )
      (publish_block-some host self uint8_name s x.size i b name b.mapping keeper over.at
        (v.shaped i b over.at).controlled answer named)

-- For a buffer over a block of a consistent pool, an endpoint that is not known to be incompatible
-- gets a descriptor, if the broker answers a name for the block that is not empty.
pub create_descriptor_some :
    {broker : Broker} (host : Host) (self : Pid) (uint8_name : String) (s : Sender broker)
    (x : SharedBufferImpl) (gid i : ℕ) (b : Block) (name : String)
    → KeepsBlock broker
    → IsConsistent s.process.pool
    → IsOver s.process.pool x i b
    → known_incompatible (s.compatible gid) ≡ false
    → (broker.register s.broker_state b).0 ≡ ok name
    → is_empty name ≡ false
    → (create_descriptor_with_endpoint host self uint8_name s (some x) gid).0 ≢ none
unfolding create_descriptor_with_endpoint describe_buffer
create_descriptor_some host self uint8_name s x gid i b name keeper v over open_to answer named =
    let same = finalize_write_handle-pool s.process x.shared_buffer in
    rw (open_to, create_descriptor_with_endpoint, over.local)
      (over_some host self uint8_name
        (record s { process = finalize_write_handle s.process x.shared_buffer }) x i b name keeper
        (subst IsConsistent (sym same) v) (subst (λ p. IsOver p x i b) (sym same) over) answer
        named)
