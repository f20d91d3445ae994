-- ===== src/Pool/Consistency/Defs.antt =====
-- When the free lists, the blocks and their headers of a pool fit together.
use memfd_buffer_backend.Prelude.{
  ℕ, ◌+◌, ◌≤◌, ◌<◌, ◌≡◌, refl, ◌≢◌, ◌⊎◌, not, ◌&&◌, [], Option, none, some, ◌==◌, if◌then◌else◌,
  get_elem?, total,
}
use memfd_buffer_backend.Errors.{ok}
use memfd_buffer_backend.Header.{ControlHeader, payload_offset, control_magic, control_abi_version}
use memfd_buffer_backend.Pool.{Block, PlatformMapping, Host, Pool, candidates_of, empty_pool}
use memfd_buffer_backend.Pool.Vector.{count}

-- 1 for a block of this size that is not in use.
abbrev pub listed : ℕ → Option Block → ℕ
listed size none = 0
listed size (some b) = if not b.in_use && b.payload_size == size then 1 else 0

abbrev pub IsApart : ℕ → ℕ → ℕ → ℕ → Type 0
IsApart a n b m = (a + n ≤ b) ⊎ (b + m ≤ a)

-- A block is a mapping of a header and a payload, with its control pointer at the start.
pub record IsShaped (headers : ℕ → ControlHeader) (b : Block) : Type 0 where
  pub controlled : b.control ≡ some b.mapping
  pub mapped : b.mapped_size ≡ payload_offset + b.payload_size
  pub filled : 0 < b.payload_size
  pub magic : (headers b.mapping).magic ≡ control_magic
  pub abi_version : (headers b.mapping).abi_version ≡ control_abi_version
  pub sized : (headers b.mapping).payload_size ≡ b.payload_size

-- Each block that is not in use is in the bucket of its size once, and in no other; the buckets
-- hold nothing else, and none is kept empty; mappings do not overlap.
pub record IsConsistent (p : Pool) : Type 0 where
  pub ledger :
      (size i : ℕ)
      → count i (candidates_of (p.free_blocks size)) ≡ listed size (get_elem? p.all_blocks i)
  pub kept : (size : ℕ) → p.free_blocks size ≢ some []
  pub shaped : (i : ℕ) (b : Block) → get_elem? p.all_blocks i ≡ some b → IsShaped p.headers b
  pub apart :
      (i j : ℕ) (a b : Block)
      → get_elem? p.all_blocks i ≡ some a
      → get_elem? p.all_blocks j ≡ some b
      → i ≢ j
      → IsApart a.mapping a.mapped_size b.mapping b.mapped_size

-- What the operating system promises of the mapping that the next call creates: the size that was asked for, at addresses
-- that none of the pool's mappings uses.
pub record MapsApart (host : Host) (p : Pool) : Type 0 where
  pub size_kept :
      (size id nonce : ℕ) (m : PlatformMapping)
      → host.create p.created size id nonce ≡ ok m
      → m.mapped_size ≡ size
  pub placed :
      (size id nonce : ℕ) (m : PlatformMapping)
      → host.create p.created size id nonce ≡ ok m
      → (i : ℕ) (b : Block) → get_elem? p.all_blocks i ≡ some b
      → IsApart b.mapping b.mapped_size m.mapping m.mapped_size

pub empty-IsConsistent : IsConsistent empty_pool
unfolding total
empty-IsConsistent = record {
  ledger = λ size i. refl;
  kept = λ size e. cc;
  shaped = λ i b e. cc;
  apart = λ i j a b e f ne. cc;
}
