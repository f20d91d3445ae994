-- ===== src/Pool/Allocation.antt =====
-- What `allocate` promises of its result, and what it leaves alone.
use memfd_buffer_backend.Prelude.{
  ℕ, ◌+◌, ◌-◌, ◌%◌, ◌^◌, ◌≡◌, refl, ap, ◌∙◌, ◌≢◌, ◌⊎◌, inl, inr, true, false, Option, none, some,
  arith, ltb, ◌==◌, length, get_elem?, get_elem?-set, get_elem?-append_last,
  get_elem?-append_length, Bool-cases,
}
use memfd_buffer_backend.Errors.{Result, ok, err}
use memfd_buffer_backend.Header.{payload_offset}
use memfd_buffer_backend.Pool.{
  PlatformMapping, Block, Host, Pool, update, candidates_of, bucket_of, non_zero_uid, reset_header,
  reserve_created, take_candidate, block_at, add_block, create_block, claim_first, allocate,
}
use memfd_buffer_backend.Pool.Vector.{swap_remove}
use memfd_buffer_backend.Pool.Claims.{
  SameBlocks, IsReusable, FoundIn, claim_first-SameBlocks, claim_first-FoundIn,
}
use memfd_buffer_backend.Pool.Consistency.{
  IsConsistent, candidate-lem, reserve_lem, reserved_block, reserved_pool,
}

-- Block `i` comes from the bucket of `size`, was not in use and could be reused; or it is new.
abbrev pub Origin : Host → Pool → ℕ → ℕ → Type 0
Origin host p size i =
    ((b : Block) × (get_elem? p.all_blocks i ≡ some b)
      × (b.in_use ≡ false)
      × (b.payload_size ≡ size)
      × IsReusable host p i)
    ⊎ (i ≡ length p.all_blocks)

-- `allocate` on `p` hands out block `i` for `size` bytes and leaves the pool `q`.
pub record HandsOut (host : Host) (p : Pool) (size i : ℕ) (q : Pool) : Type 0 where
  pub block : Block
  pub at : get_elem? q.all_blocks i ≡ some block
  pub used : block.in_use ≡ true
  pub sized : block.payload_size ≡ size
  pub named : block.current_uid ≢ 0
  pub address : ℕ
  pub controlled : block.control ≡ some address
  pub unread : (q.headers address).reader_state ≡ 0
  pub unpublished : (q.headers address).ipc_uid ≡ 0
  pub unstamped : (q.headers address).publish_timestamp_us ≡ 0
  pub other_headers : (x : ℕ) → x ≢ address → q.headers x ≡ p.headers x
  pub other_blocks : (j : ℕ) → j ≢ i → get_elem? q.all_blocks j ≡ get_elem? p.all_blocks j
  pub origin : Origin host p size i

-- A call that throws loses no block: the lists and the headers are as before.
pub record Refuses (p q : Pool) : Type 0 where
  pub same_blocks : q.all_blocks ≡ p.all_blocks
  pub same_free : q.free_blocks ≡ p.free_blocks
  pub same_headers : (x : ℕ) → q.headers x ≡ p.headers x

abbrev pub Outcome : Host → Pool → ℕ → Result ℕ × Pool → Type 0
Outcome host p size (ok i, q) = HandsOut host p size i q
Outcome host p size (err e, q) = Refuses p q

module _ (host : Host) where
  non_zero_uid-ne : (u : ℕ) → non_zero_uid u ≢ 0
  non_zero_uid-ne u e = ground arith

  -- The reservation of a block of the pool `r`, which agrees with `p` but for the header of that
  -- block.
  reserved-HandsOut :
      (p r : Pool) (size i a : ℕ) (b : Block)
      → get_elem? r.all_blocks i ≡ some b
      → b.control ≡ some a
      → b.payload_size ≡ size
      → ((x : ℕ) → x ≢ a → r.headers x ≡ p.headers x)
      → ((j : ℕ) → j ≢ i → get_elem? r.all_blocks j ≡ get_elem? p.all_blocks j)
      → Origin host p size i
      → HandsOut host p size i (reserved_pool host r i b a)
  unfolding reset_header
  reserved-HandsOut p r size i a b at c s h o from = record {
    block = reserved_block host r b;
    at = ground (arith, get_elem?-set r.all_blocks i i (reserved_block host r b) at);
    used = refl;
    sized = s;
    named = non_zero_uid-ne (host.draw r.drawn);
    address = a;
    controlled = c;
    unread = ground arith;
    unpublished = ground arith;
    unstamped = ground arith;
    other_headers = λ x e. ground (arith, h x e);
    other_blocks =
        λ j e. ground (arith, get_elem?-set r.all_blocks i j (reserved_block host r b) at, o j e);
    origin = from;
  }

  add-Outcome :
      (p r : Pool) (size id : ℕ) (x : Result PlatformMapping)
      → r.all_blocks ≡ p.all_blocks
      → r.free_blocks ≡ p.free_blocks
      → ((a : ℕ) → r.headers a ≡ p.headers a)
      → Outcome host p size (reserve_created host (add_block r size id x))
  unfolding reserve_created add_block
  add-Outcome p r size id (err e) blocks free h = record {
    same_blocks = blocks;
    same_free = free;
    same_headers = h;
  }
  add-Outcome p r size id (ok m) blocks free h =
      rw
        (reserve_lem host (add_block r size id (ok m)).1 (length r.all_blocks) (block_at m size id)
          m.mapping (get_elem?-append_length r.all_blocks (block_at m size id)) refl)
        (reserved-HandsOut p (add_block r size id (ok m)).1 size (length r.all_blocks) m.mapping
          (block_at m size id) (get_elem?-append_length r.all_blocks (block_at m size id)) refl refl
          (λ x e. ground (arith, h x))
          (λ j e. ground (
            arith,
            get_elem?-append_last r.all_blocks (block_at m size id) j,
            ap (λ bs. get_elem? bs j) blocks,
          ))
          (inr (ap length blocks)))

  create-Outcome :
      (p r : Pool) (size : ℕ)
      → SameBlocks p r
      → ((a : ℕ) → r.headers a ≡ p.headers a)
      → Outcome host p size (reserve_created host (create_block host r size))
  unfolding create_block reserve_created
  create-Outcome p r size s h = elim (Bool-cases (ltb (2 ^ 64 - 1 - payload_offset) size)) [
    | inl overflows ↦
        rw overflows
          (record { same_blocks = s.same_blocks; same_free = s.same_free; same_headers = h })
    | inr fits ↦ rw fits (
        add-Outcome p
          (record r {
            next_block_id = (r.next_block_id + 1) % 2 ^ 32;
            drawn = r.drawn + 1;
            created = r.created + 1;
          })
          size r.next_block_id _ s.same_blocks s.same_free h)
  ]

  take-Outcome :
      (p : Pool) (size : ℕ) (x : Option (ℕ × ℕ) × Pool)
      → IsConsistent p
      → SameBlocks p x.1
      → FoundIn host p (candidates_of (p.free_blocks size)) x
      → Outcome host p size (take_candidate host size (candidates_of (p.free_blocks size)) x)
  unfolding take_candidate
  take-Outcome p size (none, q) v s f = create-Outcome p q size s f
  take-Outcome p size (some (k, i), q) v s (cand, took) =
      let r = took.reusable in
      let (unused, sized) = candidate-lem p v size k i r.block r.block cand r.at in
      let rest : Pool = record q {
        free_blocks =
            update q.free_blocks size
              (bucket_of (swap_remove (candidates_of (p.free_blocks size)) k));
      } in
      let at = ap (λ bs. get_elem? bs i) s.same_blocks ∙ r.at in
      rw (reserve_lem host rest i r.block r.address at r.controlled) (
        reserved-HandsOut p rest size i r.address r.block at r.controlled sized took.others
          (λ j _. ap (λ bs. get_elem? bs j) s.same_blocks) (inl (r.block, r.at, unused, sized, r)))

-- In a consistent pool, a call of `allocate` that returns hands out a block of exactly `size`
-- payload bytes, in use, with a uid that is not zero and a header with no reader, no uid and no
-- publication time. The block is new, or it comes from the free blocks, was not in use, had no
-- reader and had never been published or was past its grace period. All other blocks and headers
-- are as before. A call that throws leaves the blocks, the free lists and the headers as they were.
pub allocate-Outcome :
    (host : Host) (p : Pool) (size : ℕ)
    → IsConsistent p
    → Outcome host p size (allocate host p size)
unfolding allocate
allocate-Outcome host p size v = elim (Bool-cases (size == 0)) [
  | inl zero_size ↦
      rw zero_size (record { same_blocks = refl; same_free = refl; same_headers = λ x. refl })
  | inr positive ↦ rw positive (
      take-Outcome host p size (claim_first host p (candidates_of (p.free_blocks size))) v
        (claim_first-SameBlocks host p (candidates_of (p.free_blocks size)))
        (claim_first-FoundIn host p (candidates_of (p.free_blocks size))))
]
