-- ===== src/Api/Examples.antt =====
-- The theorems on the access functions, over a pool with one block.
use memfd_buffer_backend.Prelude.{ℕ, ◌*◌, ◌≡◌, [], some, arith}
use memfd_buffer_backend.Pool.Examples.{host, one_used, one_used-IsConsistent}
use memfd_buffer_backend.Handles.{new_state, frees}
use memfd_buffer_backend.Handles.Taking.{new_buffer}
use memfd_buffer_backend.Api.{BufferImpl, shared_impl, other_impl, Application, from_input_buffer}
use memfd_buffer_backend.Api.Promotion.{PromoteOutcome, from_input_buffer-Promoted}
use memfd_buffer_backend.Api.Returning.{ReturnOutcome, from_input_buffer-Returned}
use memfd_buffer_backend.Storage.Examples.{one_used-MapsApart}

abbrev application : Application
application = record {
  heap = record {
    process = record { pool = one_used; states = λ s. new_state; next_state = 0 };
    bytes = λ a. a;
  };
  promoted = [];
}

abbrev message : BufferImpl
message =
    shared_impl (record { size = 8; shared_buffer = new_buffer 4160 8 (frees 0) (some 4096) 0 72 })

from_input_buffer-Promoted_example :
    let source : ℕ → ℕ = λ k. 7 in
    let (r, (s, b)) = from_input_buffer host 2 application (other_impl 3 source) in
    (b ≡ other_impl 3 source) × PromoteOutcome application source (3 * 2) (r, s)
from_input_buffer-Promoted_example =
    from_input_buffer-Promoted host 2 3 application (λ k. 7) (omega arith) (omega arith)
      one_used-IsConsistent

from_input_buffer-Returned_example :
    let (r, (s, b)) = from_input_buffer host 2 application (other_impl 3 (λ k. 7)) in
    ReturnOutcome host one_used 6 0 (r, s)
from_input_buffer-Returned_example =
    from_input_buffer-Returned host 2 3 application (λ k. 7) (omega arith) (omega arith)
      one_used-IsConsistent one_used-MapsApart
