-- ===== src/Protocol/Examples.antt =====
-- The theorems on the block protocol, at concrete runs.
use memfd_buffer_backend.Prelude.{
  ℕ, suc, ◌≡◌, refl, List, [], ◌∷◌, ◌++◌, ◌⊎◌, some, true, false, arith, get_elem?,
}
use memfd_buffer_backend.Handles.{finalized}
use memfd_buffer_backend.Protocol.{
  Memory, idle, published, import, holding, PublisherAction, take_write, write, release_write, free,
  finalize, System, access, mark_uid, ReaderAction, take_descriptor, Event, tick, publisher_acts,
  reader_acts, step, run, publisher_step, reader_step,
}
use memfd_buffer_backend.Protocol.Invariant.{slots}
use memfd_buffer_backend.Protocol.Safety.{
  reached, claim_excludes_readers, holding_sees_published, holding_is_stable,
}
use memfd_buffer_backend.Protocol.Progress.{alone, rounds, import_alone}

abbrev uid_of : ℕ → ℕ
uid_of g = suc g

abbrev go : Event
go = publisher_acts PublisherAction.proceed

abbrev reads : Event
reads = reader_acts 0 ReaderAction.proceed

-- The first generation is written and published, and reader 0 imports it.
abbrev imported : List Event
imported =
    go
    ∷ go
    ∷ go
    ∷ publisher_acts take_write
    ∷ publisher_acts (write 7)
    ∷ publisher_acts release_write
    ∷ go
    ∷ go
    ∷ reader_acts 0 (take_descriptor 1)
    ∷ reads
    ∷ reads
    ∷ reads
    ∷ reads
    ∷ []

-- The publisher gives the block back and, a second later, tries to claim it.
abbrev reclaim : List Event
reclaim = publisher_acts free ∷ tick 1000000 ∷ go ∷ go ∷ []

-- The block, published and given back with no reader, is claimed.
abbrev claimed : List Event
claimed = go ∷ go ∷ go ∷ go ∷ go ∷ publisher_acts free ∷ tick 1000000 ∷ go ∷ go ∷ []

claim_excludes_readers_example : slots idle ≡ 0
unfolding run step publisher_step reader_step
claim_excludes_readers_example = claim_excludes_readers uid_of 5 2 claimed refl 0 idle refl

holding_sees_published_example :
    let s = reached uid_of 5 2 imported in
    (s.memory.generation ≡ 1)
    × (s.memory.ipc_uid ≡ uid_of 1)
    × ((s.memory.closed ≡ false) ⊎ (s.memory.payload ≡ s.memory.sealed))
unfolding run step publisher_step reader_step access
holding_sees_published_example =
    holding_sees_published uid_of 5 2 imported 0 1 refl (λ h le e. omega arith)

holding_is_stable_example :
    let s = reached uid_of 5 2 imported in
    let t = run uid_of s reclaim in
    (get_elem? t.readers 0 ≡ some (holding (import 1)))
    × (t.memory.ipc_uid ≡ s.memory.ipc_uid)
    × ((s.memory.closed ≡ false) ⊎ (t.memory.payload ≡ s.memory.payload))
    × (t.memory.generation ≡ s.memory.generation)
unfolding run step publisher_step reader_step access
holding_is_stable_example =
    holding_is_stable uid_of 5 2 imported reclaim 0 1 refl (tt, (tt, (tt, (tt, tt))))

-- The block is published without ever having been written, and reader 0 imports it.
abbrev unwritten : List Event
unwritten =
    go
    ∷ go
    ∷ go
    ∷ publisher_acts finalize
    ∷ go
    ∷ go
    ∷ reader_acts 0 (take_descriptor 1)
    ∷ reads
    ∷ reads
    ∷ reads
    ∷ reads
    ∷ []

-- While reader 0 holds that block, its publisher takes a write handle and changes the payload.
abbrev written_late : System
written_late =
    reached uid_of 5 2 (unwritten ++ publisher_acts take_write ∷ publisher_acts (write 7) ∷ [])

unwritten_is_writable :
    (get_elem? written_late.readers 0 ≡ some (holding (import 1)))
    × (written_late.memory.sealed ≡ 0)
    × (written_late.memory.payload ≡ 7)
unfolding run step publisher_step reader_step access mark_uid
unwritten_is_writable = (refl, refl, refl)

-- A buffer that was written is closed when it is marked published.
imported_is_closed : (reached uid_of 5 2 imported).memory.closed ≡ true
unfolding run step publisher_step reader_step access mark_uid
imported_is_closed = refl

abbrev quiet : Memory
quiet = record {
  reader_state = 3;
  ipc_uid = 9;
  publish_timestamp_us = 0;
  payload = 0;
  write_state = finalized;
  write_handle = false;
  now = 0;
  generation = 8;
  sealed = 0;
  closed = true;
}

import_alone_example :
    alone uid_of quiet published idle (
      take_descriptor 8 ∷ ReaderAction.proceed ∷ ReaderAction.proceed ∷ rounds 1
      ++ ReaderAction.proceed ∷ [])
    ≡ (record quiet { reader_state = 4 }, holding (import 8))
import_alone_example = import_alone uid_of quiet published 8 1
