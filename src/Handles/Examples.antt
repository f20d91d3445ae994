-- ===== src/Handles/Examples.antt =====
-- The theorems on the handles, at a new writable buffer with a payload of 8 bytes.
use memfd_buffer_backend.Prelude.{
  ℕ, ◌+◌, ◌≡◌, ◌≢◌, true, refl, arith, zero, suc, ◌≤◌, List, none, some, [], ◌∷◌, get_elem?, total,
}
use memfd_buffer_backend.Errors.{ok}
use memfd_buffer_backend.Header.{new_header, try_acquire_reader, release_reader}
use memfd_buffer_backend.Pool.{empty_pool}
use memfd_buffer_backend.Handles.{
  hold_reader_reference, release_read, in_use, new_state, ReadHandle, WriteHandle, SharedBuffer,
  nothing, pid, Process, get_read_handle, get_write_handle,
}
use memfd_buffer_backend.Handles.Client.{
  Client, Call, open_read, close_read, open_write, hold, call, calls, add_read, held_by,
  reads_control, writes_state, writers_allowed,
}
use memfd_buffer_backend.Handles.Client.Safety.{
  Starts, slots_counted, no_reader_while_writing, at_most_one_writer,
}

abbrev process : Process
process = record {
  pool = record empty_pool { headers = λ a. new_header };
  states = λ s. new_state;
  next_state = 0;
}

abbrev buffer : SharedBuffer
buffer = record {
  data_ptr = some 4160;
  size = 8;
  deleter = nothing;
  control = some 4096;
  owner = none;
  held_reader_lease = none;
  handle_state = none;
  block_id = 1;
  mapped_size = 72;
  writable = true;
  ipc_pid = pid 0;
  ipc_name = "";
  ipc_uid = 0;
}

abbrev written : Process × SharedBuffer
written = (get_write_handle process buffer).1

abbrev writer : WriteHandle
writer = record { data_ptr = some 4160; state = some 0; owner = none; promoted_buffer = none }

written_first : get_write_handle process buffer ≡ (ok writer, written)
unfolding get_write_handle
written_first = refl

abbrev client : Client
client = record { process = process; buffers = buffer ∷ []; reads = []; writes = [] }

abbrev reading : List Call
reading = open_read 0 ∷ hold 0 ∷ close_read 0 ∷ open_read 0 ∷ []

client-untouched :
    (i : ℕ) (b : SharedBuffer) → get_elem? client.buffers i ≡ some b → b.handle_state ≡ none
client-untouched zero b e = ground (arith, e)
client-untouched (suc i) b e = ground (arith, e)

client-Starts : Starts (λ a. 0) client
unfolding total
client-Starts = record {
  no_reads = refl;
  no_writes = refl;
  untouched = client-untouched;
  new_states = λ s. refl;
  slots = λ a. refl;
  bounded = λ a. ground arith;
}

slots_counted_example :
    ((calls client reading).process.pool.headers 4096).reader_state
    ≡ 0
      + held_by (calls client reading).buffers 4096
      + total (reads_control 4096) (calls client reading).reads
slots_counted_example = slots_counted (λ a. 0) client reading client-Starts 4096

abbrev reader : ReadHandle
reader = record {
  data_ptr = some 4160;
  state = some 0;
  reader_lease = some 4096;
  owner = none;
  promoted_buffer = none;
}

reader_open : get_elem? (calls client reading).reads 0 ≡ some reader
unfolding calls call add_read get_read_handle try_acquire_reader hold_reader_reference release_read
    release_reader
reader_open = refl

no_reader_while_writing_example : ((calls client reading).process.states 0).state ≢ in_use
no_reader_while_writing_example =
    no_reader_while_writing (λ a. 0) client reading 0 0 reader client-Starts reader_open refl

at_most_one_writer_example :
    total (writes_state 0) (calls client (open_write 0 ∷ [])).writes
    ≤ writers_allowed ((calls client (open_write 0 ∷ [])).process.states 0).state
at_most_one_writer_example = at_most_one_writer (λ a. 0) client (open_write 0 ∷ []) client-Starts 0
