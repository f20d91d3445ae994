-- ===== src/Storage/Making.antt =====
-- A copy into a buffer that the pool has just made.
use memfd_buffer_backend.Prelude.{
  ℕ, ◌+◌, ◌^◌, ◌≡◌, ◌<◌, ap, sym, subst, Option, none, some, arith, ℕ_discrete,
}
use memfd_buffer_backend.Header.{payload_offset}
use memfd_buffer_backend.Pool.{Host}
use memfd_buffer_backend.Handles.{SharedBuffer, Process, frees}
use memfd_buffer_backend.Handles.Exclusion.{HasWords, IsWord}
use memfd_buffer_backend.Handles.Taking.{IsMade}
use memfd_buffer_backend.Storage.{Heap, copy_payload}
use memfd_buffer_backend.Storage.Allocation.{MadeBuffer}
use memfd_buffer_backend.Storage.Copies.{CopyOutcome, copy_payload-Outcome}

IsMade-same : (p q : Process) (o : Option ℕ) → q.next_state ≡ p.next_state → IsMade p o → IsMade q o
IsMade-same p q none e made = tt
IsMade-same p q (some k) e made = ground (arith, made, e)

IsWord-all :
    (p : Process) (o : Option ℕ) → ((a : ℕ) → (p.pool.headers a).reader_state < 2 ^ 32) → IsWord p o
IsWord-all p none words = tt
IsWord-all p (some a) words = words a

MadeBuffer-words :
    (host : Host) (p : Process) (n : ℕ) (b : SharedBuffer) (q : Process)
    → MadeBuffer host p n b q
    → HasWords p
    → HasWords q
MadeBuffer-words host p n b q m words a = elim (ℕ_discrete a m.handed_out.address) [
  | yes e ↦ ground (arith, m.handed_out.unread, e)
  | no ne ↦ ground (arith, m.handed_out.other_headers a ne, words a)
]

-- The copy into a buffer that `allocate_raw` made for `k` bytes.
pub copy_made-Outcome :
    (host : Host) (h : Heap) (p : Process) (from b : SharedBuffer) (s k n : ℕ)
    → 0 < k
    → (m : MadeBuffer host p k b h.process) → HasWords p
    → from.data_ptr ≡ some s
    → IsMade p from.handle_state
    → CopyOutcome h from b s
        (m.handed_out.block.mapping + payload_offset)
        n
        (copy_payload h from b n)
copy_made-Outcome host h p from b s k n positive m words located made =
    let o = m.handed_out in
    subst
      (λ t. CopyOutcome h from t s (o.block.mapping + payload_offset) n (copy_payload h from t n))
      (sym m.is_new)
      (copy_payload-Outcome h from s (o.block.mapping + payload_offset) k (frees m.index)
        (some o.address) o.block.block_id o.block.mapped_size n positive located
        (IsMade-same p h.process from.handle_state (ap (λ q. q.next_state) m.same_process) made)
        (IsWord-all h.process from.control (MadeBuffer-words host p k b h.process m words)))
