-- ===== src/Pool.antt =====
-- shared_buffer/src/shared_buffer_memory_pool.cpp and its header: `SharedBufferMemoryPool`.
-- A block pointer is its index in `all_blocks_`, from which nothing is removed before the pool is
-- destroyed; a control pointer is the address of the mapping. Every method runs under `mutex_`, so
-- a call is one step; what other processes do to a header during a call is in Protocol.
mod Vector
pub mod Destruction
pub mod Types
pub mod Claims
pub mod Consistency
pub mod Contract
pub mod Allocation
pub mod Reuse
pub mod Publication
pub mod Lookup
pub mod Examples
pub use Types.*
use memfd_buffer_backend.Prelude.{
  ℕ, zero, suc, ◌+◌, ◌-◌, ◌%◌, ◌^◌, Bool, true, false, not, ◌&&◌, ◌||◌, List, [], ◌∷◌, ◌++◌, Option,
  none, some, ltb, leb, ◌==◌, if◌then◌else◌, length, get_elem?, set,
}
use Vector.{swap_remove}
use memfd_buffer_backend.Errors.{Error, zero_size_block, mapping_size_overflow, Result, ok, err}
use memfd_buffer_backend.Header.{
  ControlHeader, new_header, payload_offset, grace_period_us, try_claim_reuse, release_reuse_claim,
}

-- A bucket that has become empty is erased.
abbrev pub bucket_of : List ℕ → Option (List ℕ)
bucket_of [] = none
bucket_of (x ∷ xs) = some (x ∷ xs)

abbrev pub candidates_of : Option (List ℕ) → List ℕ
candidates_of none = []
candidates_of (some xs) = xs

-- `current_uid` is never zero.
abbrev pub non_zero_uid : ℕ → ℕ
non_zero_uid u = if u == 0 then 1 else u

-- The position of a block and the block, one place further on.
abbrev pub one_later : Option (ℕ × ℕ) × Pool → Option (ℕ × ℕ) × Pool
one_later (none, p) = (none, p)
one_later (some (i, b), p) = (some (suc i, b), p)

-- `try_claim_shared_buffer_reuse` at a control pointer.
claim_at : Pool → ℕ → Bool × Pool
unfolding try_claim_reuse
claim_at p a = let (h, claimed) = try_claim_reuse (p.headers a) in (claimed, put_header p a h)

-- The block that `create_block` makes of a mapping.
abbrev pub block_at : PlatformMapping → ℕ → ℕ → Block
block_at m size id = record {
  native_handle = m.native_handle;
  mapping = m.mapping;
  mapped_size = m.mapped_size;
  payload_size = size;
  block_id = id;
  control = some m.mapping;
  current_uid = 0;
  socket_path = m.ipc_name;
  in_use = false;
}

pub add_block : Pool → ℕ → ℕ → Result PlatformMapping → Result ℕ × Pool
add_block p size id (err e) = (err e, p)
add_block p size id (ok m) = (
  ok (length p.all_blocks),
  record p {
    all_blocks = p.all_blocks ++ block_at m size id ∷ [];
    headers = update p.headers m.mapping (record new_header { payload_size = size });
    initialized = true;
    ipc_capable = true;
  },
)

pub reset_header : ControlHeader → ControlHeader
unfolding release_reuse_claim
reset_header h = release_reuse_claim (record h { ipc_uid = 0; publish_timestamp_us = 0 })

reset_control : Pool → Option ℕ → Pool
unfolding reset_header
reset_control p none = p
reset_control p (some a) = put_header p a (reset_header (p.headers a))

module _ (host : Host) where
  open host use {draw, time, create}

  -- The clock is read only where the block has a publication time.
  claim_after_grace : Pool → ℕ → Bool × Pool
  unfolding claim_at
  claim_after_grace p a =
      let published = (p.headers a).publish_timestamp_us in
      if published == 0
      then claim_at p a
      else let now = time p.read in
        let p' = record p { read = p.read + 1 } in
        if ltb now published || ltb (now - published) grace_period_us
        then (false, p')
        else claim_at p' a

  claim_control : Pool → Option ℕ → Bool × Pool
  unfolding claim_after_grace
  claim_control p none = (false, p)
  claim_control p (some a) = claim_after_grace p a

  pub try_claim_block : Pool → ℕ → Bool × Pool
  unfolding claim_control
  try_claim_block p i = elim (get_elem? p.all_blocks i) [
    | none ↦ (false, p)
    | some b ↦ claim_control p b.control
  ]

  -- The loop over the candidates of a bucket, up to the first that is claimed.
  unfoldable pub claim_first : Pool → List ℕ → Option (ℕ × ℕ) × Pool
  claim_first p [] = (none, p)
  claim_first p (b ∷ bs) =
      let (claimed, p') = try_claim_block p b in
      let rest = one_later (claim_first p' bs) in if claimed then (some (0, b), p') else rest

  unfoldable pub create_block : Pool → ℕ → Result ℕ × Pool
  unfolding add_block
  create_block p size =
      if ltb (2 ^ 64 - 1 - payload_offset) size
      then (err mapping_size_overflow, p)
      else let mapped_size = payload_offset + size in
        let nonce = draw p.drawn in
        let p' = record p {
          next_block_id = (p.next_block_id + 1) % 2 ^ 32;
          drawn = p.drawn + 1;
          created = p.created + 1;
        } in
        add_block p' size p.next_block_id (create p.created mapped_size p.next_block_id nonce)

  -- The end of `allocate`, for the block that was claimed or created.
  pub reserve : Pool → ℕ → Pool
  unfolding reset_control
  reserve p i = elim (get_elem? p.all_blocks i) [
    | none ↦ p
    | some b ↦
        reset_control
          (record p {
            all_blocks =
                set p.all_blocks i
                  (record b { in_use = true; current_uid = non_zero_uid (draw p.drawn) });
            drawn = p.drawn + 1;
          })
          b.control
  ]

  reserve_created : Result ℕ × Pool → Result ℕ × Pool
  unfolding reserve
  reserve_created (ok i, p) = (ok i, reserve p i)
  reserve_created (err e, p) = (err e, p)

  take_candidate : ℕ → List ℕ → Option (ℕ × ℕ) × Pool → Result ℕ × Pool
  unfolding reserve reserve_created create_block
  take_candidate size candidates (none, p) = reserve_created (create_block p size)
  take_candidate size candidates (some (i, b), p) = (
    ok b,
    reserve
        (record p {
          free_blocks = update p.free_blocks size (bucket_of (swap_remove candidates i));
        })
        b,
  )

  unfoldable pub allocate : Pool → ℕ → Result ℕ × Pool
  unfolding take_candidate
  allocate p size =
      if size == 0
      then (err zero_size_block, p)
      else let candidates = candidates_of (p.free_blocks size) in
        take_candidate size candidates (claim_first p candidates)

  pub assign_uid : Pool → ℕ → ℕ × Pool
  assign_uid p i = elim (get_elem? p.all_blocks i) [
    | none ↦ (0, p)
    | some b ↦ elim b.control [
      | none ↦ (0, p)
      | some _ ↦
          if b.current_uid == 0
          then (let u = non_zero_uid (draw p.drawn) in
              (u, put_block (record p { drawn = p.drawn + 1 }) i (record b { current_uid = u })))
          else (b.current_uid, p)
    ]
  ]

  pub refresh_publish_timestamp : Pool → ℕ → Pool
  refresh_publish_timestamp p a =
      put_header (record p { read = p.read + 1 }) a
        (record (p.headers a) { publish_timestamp_us = time p.read })

  pub mark_published : Pool → ℕ → Pool
  unfolding refresh_publish_timestamp
  mark_published p i = elim (get_elem? p.all_blocks i) [
    | none ↦ p
    | some b ↦ elim b.control [
      | none ↦ p
      | some a ↦
          refresh_publish_timestamp
            (put_header p a (record (p.headers a) { ipc_uid = b.current_uid })) a
    ]
  ]

pub free : Pool → ℕ → Pool
free p i = elim (get_elem? p.all_blocks i) [
  | none ↦ p
  | some b ↦
      if b.in_use
      then record (put_block p i (record b { in_use = false })) {
        free_blocks =
            update p.free_blocks b.payload_size
              (some (candidates_of (p.free_blocks b.payload_size) ++ i ∷ []));
      }
      else p
]

-- The index of the block whose payload holds an address, counted from `i`.
find_from : List Block → ℕ → ℕ → Option ℕ
find_from [] i address = none
find_from (b ∷ bs) i address =
    if leb (b.mapping + payload_offset) address && ltb address (b.mapping + b.mapped_size)
    then some i
    else find_from bs (i + 1) address

-- `find_block_for_ptr`; the null pointer is the address 0.
pub find_block_for_ptr : Pool → ℕ → Option ℕ
unfolding find_from
find_block_for_ptr p address = if address == 0 then none else find_from p.all_blocks 0 address
