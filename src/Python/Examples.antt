-- ===== src/Python/Examples.antt =====
-- The theorems on the write access, at one with a view that is then dropped.
use memfd_buffer_backend.Prelude.{ℕ, [], ◌≡◌, Bool, true, false, refl, some, none, arith}
use memfd_buffer_backend.Errors.{ok, err, views_alive}
use memfd_buffer_backend.Pool.Examples.{host, one_used, one_used-IsConsistent}
use memfd_buffer_backend.Storage.Examples.{one_used-MapsApart}
use memfd_buffer_backend.Api.{Application, other_impl}
use memfd_buffer_backend.Python.Opening.{
  Allocated, allocate_buffer_internal-Allocated, Opened, open_read-Opened,
}
use memfd_buffer_backend.Handles.{WriteHandle, Process, new_state, finalized}
use memfd_buffer_backend.Python.{
  NativeWriteAccess, getbuffer, releasebuffer, close, allocate_buffer_internal, open_read,
}
use memfd_buffer_backend.Python.Views.{
  Session, Reachable, opens, goes_on, takes, drops, views_keep_open, close-Finalized,
}

abbrev handle : WriteHandle
handle = record { data_ptr = some 4160; state = some 0; owner = none; promoted_buffer = none }

abbrev process : Process
process = record { pool = one_used; states = λ s. new_state; next_state = 1 }

abbrev opened_access : NativeWriteAccess
opened_access = record { handle = handle; byte_count = 8; exports = 0; closed = false }

abbrev viewed : NativeWriteAccess
viewed = (getbuffer true true opened_access).1

abbrev viewing : Session
viewing = record { process = process; access = viewed; views = 1 }

viewing-Reachable : Reachable handle 8 viewing
unfolding getbuffer
viewing-Reachable = goes_on (opens process) (takes true true (omega arith))

views_keep_open_example :
    (viewed.closed ≡ false)
    × (viewed.handle ≡ handle)
    × (close process viewed ≡ (err views_alive, (process, viewed)))
views_keep_open_example = views_keep_open viewing-Reachable (omega arith)

close-Finalized_example :
    let (r, (p, a)) = close process (releasebuffer viewed) in
    (r ≡ ok tt)
    × ((p.states 0).state ≡ finalized)
    × ((grants casts : Bool) → getbuffer grants casts a ≡ (false, a))
unfolding releasebuffer getbuffer
close-Finalized_example =
    close-Finalized 0 (goes_on viewing-Reachable (drops (omega arith))) refl refl refl

allocate_buffer_internal-Allocated_example :
    Allocated host process 16 (allocate_buffer_internal false host process 16)
allocate_buffer_internal-Allocated_example =
    allocate_buffer_internal-Allocated host process 16 false one_used-IsConsistent
      one_used-MapsApart

abbrev application : Application
application = record { heap = record { process = process; bytes = λ a. a }; promoted = [] }

open_read-Opened_example :
    let source : ℕ → ℕ = λ k. 7 in
    Opened application source 3 64 (open_read 0 host application 64 (other_impl 3 source))
open_read-Opened_example =
    open_read-Opened 0 host application 64 3 (λ k. 7) (omega arith) one_used-IsConsistent
