-- ===== src/Storage/Examples.antt =====
-- The theorems on the typed buffer, at a buffer of eight bytes over the only block of a pool.
use memfd_buffer_backend.Prelude.{ℕ, zero, suc, ◌≡◌, ◌*◌, inl, true, get_elem?, refl, some, arith}
use memfd_buffer_backend.Pool.{allocate, claim_first, create_block}
use memfd_buffer_backend.Pool.Examples.{host, one_used, one_used-IsConsistent}
use memfd_buffer_backend.Handles.{new_state, frees}
use memfd_buffer_backend.Handles.Exclusion.{HasWords}
use memfd_buffer_backend.Handles.Taking.{new_buffer}
use memfd_buffer_backend.Storage.{SharedBufferImpl, Heap, clone, resize}
use memfd_buffer_backend.Storage.Contents.{CloneOutcome}
use memfd_buffer_backend.Storage.{allocate_raw}
use memfd_buffer_backend.Storage.Apart.{Apart, allocate_raw-Apart}
use memfd_buffer_backend.Pool.{Block, PlatformMapping}
use memfd_buffer_backend.Pool.Consistency.{MapsApart, IsApart}
use memfd_buffer_backend.Errors.{ok}
use memfd_buffer_backend.Storage.Cloning.{clone-Outcome}
use memfd_buffer_backend.Storage.Resizing.{ResizeOutcome, resize-Outcome}

abbrev heap : Heap
heap = record {
  process = record { pool = one_used; states = λ s. new_state; next_state = 0 };
  bytes = λ a. a;
}

heap-HasWords : HasWords heap.process
unfolding allocate claim_first create_block
heap-HasWords a = ground arith

abbrev eight_bytes : SharedBufferImpl
eight_bytes = record { size = 8; shared_buffer = new_buffer 4160 8 (frees 0) (some 4096) 0 72 }

clone-Outcome_example : CloneOutcome 1 heap eight_bytes 4160 (clone host 1 heap eight_bytes)
clone-Outcome_example =
    clone-Outcome host 1 heap eight_bytes 4160 (omega arith) (omega arith) one_used-IsConsistent
      heap-HasWords refl tt

resize-Outcome_example : ResizeOutcome 1 heap eight_bytes 4160 5 (resize host 1 heap eight_bytes 5)
resize-Outcome_example =
    resize-Outcome host 1 heap eight_bytes 4160 5 (omega arith) (omega arith) (omega arith)
      (omega arith) one_used-IsConsistent heap-HasWords refl tt

abbrev reserved_first : Block
reserved_first = record {
  native_handle = some 0;
  mapping = 4096;
  mapped_size = 72;
  payload_size = 8;
  block_id = 0;
  control = some 4096;
  current_uid = 2;
  socket_path = "";
  in_use = true;
}

next_apart :
    (i : ℕ) (b : Block) (size id nonce : ℕ) (m : PlatformMapping)
    → host.create one_used.created size id nonce ≡ ok m
    → get_elem? one_used.all_blocks i ≡ some b
    → IsApart b.mapping b.mapped_size m.mapping m.mapped_size
unfolding allocate claim_first create_block
next_apart zero b size id nonce m e at =
    let same_block : reserved_first ≡ b = cc in
    let same_mapping : 8192 ≡ m.mapping = cc in inl (ground (arith, same_block, same_mapping))
next_apart (suc i) b size id nonce m e at = absurd (cc)

pub one_used-MapsApart : MapsApart host one_used
unfolding allocate claim_first create_block
one_used-MapsApart = record {
  size_kept = λ size id nonce m e. ground arith;
  placed = λ size id nonce m e i b at. next_apart i b size id nonce m e at;
}

allocate_raw-Apart_example : Apart (reserved_first) (3 * 4) (allocate_raw host 4 heap.process 3)
unfolding allocate claim_first create_block
allocate_raw-Apart_example =
    allocate_raw-Apart host 4 3 heap.process 0 reserved_first (omega arith) one_used-IsConsistent
      one_used-MapsApart refl refl
