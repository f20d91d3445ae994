-- ===== src/Pool/Examples.antt =====
-- The theorems on the pool, at a pool with one block that has been given back.
use memfd_buffer_backend.Prelude.{suc, ◌+◌, ◌≤◌, List, [], ◌∷◌, ◌*◌, ◌≡◌, refl, some, arith}
use memfd_buffer_backend.Errors.{ok}
use memfd_buffer_backend.Pool.{Host, Pool, empty_pool, claim_first, create_block, allocate, free}
use memfd_buffer_backend.Pool.Consistency.{
  IsConsistent, MapsApart, empty-IsConsistent, allocate-IsConsistent, free-IsConsistent,
}
use memfd_buffer_backend.Pool.Allocation.{Outcome, allocate-Outcome}
use memfd_buffer_backend.Pool.Reuse.{IsReady}
use memfd_buffer_backend.Pool.Contract.{
  Call, allocates, frees, names, publishes, Accepts, ledger, events, after, grants, returns, used,
}
use memfd_buffer_backend.Pool.Contract.Traces.{events-Accepts, granted_once}

-- Uids and times that count up; mappings at multiples of 4096.
abbrev pub host : Host
host = record {
  draw = λ i. suc i;
  time = λ i. 1000 * i;
  create = λ k size id nonce. ok (record {
    native_handle = some k;
    mapping = 4096 * suc k;
    mapped_size = size;
    ipc_name = "";
  });
}

abbrev pub one_used : Pool
one_used = (allocate host empty_pool 8).1

abbrev one_free : Pool
one_free = free one_used 0

empty-MapsApart : MapsApart host empty_pool
empty-MapsApart = record {
  size_kept = λ size id nonce m e. ground arith;
  placed = λ size id nonce m e i b at. cc;
}

allocate-IsConsistent_example : IsConsistent one_used
allocate-IsConsistent_example =
    allocate-IsConsistent host empty_pool 8 empty-IsConsistent empty-MapsApart

pub one_used-IsConsistent : IsConsistent one_used
one_used-IsConsistent = allocate-IsConsistent host empty_pool 8 empty-IsConsistent empty-MapsApart

free-IsConsistent_example : IsConsistent one_free
free-IsConsistent_example = free-IsConsistent one_used 0 one_used-IsConsistent

one_free-IsConsistent : IsConsistent one_free
one_free-IsConsistent = free-IsConsistent one_used 0 one_used-IsConsistent

allocate-Outcome_example : Outcome host one_free 8 (allocate host one_free 8)
allocate-Outcome_example = allocate-Outcome host one_free 8 one_free-IsConsistent

one_free-IsReady : IsReady one_free 0
unfolding free allocate claim_first create_block
one_free-IsReady = record {
  block = _;
  address = 4096;
  at = refl;
  controlled = refl;
  unread = refl;
  unstamped = refl;
}

abbrev calls : List Call
calls = allocates 8 ∷ names 0 ∷ publishes 0 ∷ frees 0 ∷ frees 0 ∷ []

events-Accepts_example :
    Accepts
      (ledger empty_pool)
      (events host empty_pool calls)
      (ledger (after host empty_pool calls))
events-Accepts_example =
    events-Accepts host empty_pool calls empty-IsConsistent (empty-MapsApart, tt)

granted_once_example :
    let es = events host empty_pool calls in
    (grants 0 es ≡ returns 0 es + used (ledger (after host empty_pool calls) 0))
    × (grants 0 es ≤ returns 0 es + 1)
granted_once_example = granted_once host calls 0 (empty-MapsApart, tt)
