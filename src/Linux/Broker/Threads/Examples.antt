-- ===== src/Linux/Broker/Threads/Examples.antt =====
-- The theorems on the interleavings, in a process with the descriptors 4 and 5 besides those of a
-- new dispatcher: the socket 5 is added for the block's descriptor 4, and a client connects.
use memfd_buffer_backend.Prelude.{ℕ, ◌+◌, ◌≡◌, ◌≤◌, refl, [], ◌∷◌, Option, some, arith}
use memfd_buffer_backend.Os.{Os, Log, alive, opened, closed, sent}
use memfd_buffer_backend.Os.Accounts.{is}
use memfd_buffer_backend.Linux.Examples.{fresh, granting, granting-IsSound}
use memfd_buffer_backend.Linux.Broker.{find, insert, ready}
use memfd_buffer_backend.Linux.Broker.Threads.{
  Configuration, Move, sending, finished, step, Allowed, Calm, Reaches, start, next, started,
  owner_moves, thread_moves, wakes, adds, stops, opens,
}
use memfd_buffer_backend.Linux.Broker.Threads.Accounts.{IsAccounted}
use memfd_buffer_backend.Linux.Broker.Threads.Reached.{held_once}
use memfd_buffer_backend.Linux.Broker.Threads.Source.{origin}
use memfd_buffer_backend.Linux.Broker.Threads.Clients.{sends_asked}
use memfd_buffer_backend.Linux.Broker.Threads.Race.{removal, sends_closed}
use memfd_buffer_backend.Linux.Broker.Threads.Ending.{thread_runs, stop-ends}

abbrev log : Log
log = opened 5 ∷ opened 4 ∷ opened 2 ∷ opened 1 ∷ []

abbrev others : ℕ → ℕ
others x = is x (some 4) + is x (some 5)

log-fits : (x : ℕ) → alive log x ≡ others x + is x (some 1) + is x (some 2)
unfolding alive
log-fits x = ground arith

-- A system that gives the number that was just closed to the next descriptor.
abbrev reuse : Log → Option ℕ
reuse (closed y ∷ l) = some y
reuse l = some (fresh l)

abbrev reusing : Os
reusing = record granting { descriptor = reuse }

module _ (os : Os) where
  abbrev added : Configuration
  added =
      step os
        (step os (step os (step os (started 1 2 others log) (adds 5 4)) owner_moves) owner_moves)
        owner_moves

  abbrev connected : Configuration
  connected =
      step os (step os (step os (step os added thread_moves) (wakes (ready (5 ∷ [])))) thread_moves)
        thread_moves

  connected-Reaches :
      (may : Configuration → Move → Type 0)
      → may (started 1 2 others log) (adds 5 4)
      → ((s : Configuration) → may s owner_moves)
      → ((s : Configuration) → may s thread_moves)
      → may (step os added thread_moves) (wakes (ready (5 ∷ [])))
      → Reaches os may (started 1 2 others log) connected
  connected-Reaches may adding owner thread waking =
      let r1 = next start (adds 5 4) adding in
      let r2 = next r1 owner_moves (owner _) in
      let r3 = next r2 owner_moves (owner _) in
      let r4 = next r3 owner_moves (owner _) in
      let r5 = next r4 thread_moves (thread _) in
      let r6 = next r5 (wakes (ready (5 ∷ []))) waking in
      next (next r6 thread_moves (thread _)) thread_moves (thread _)

may_add : Allowed (started 1 2 others log) (adds 5 4)
may_add = (refl, omega arith)

held_once_example : IsAccounted (connected granting)
unfolding step
held_once_example =
    held_once granting-IsSound 1 2 others log log-fits
      (connected-Reaches granting Allowed may_add (λ s. tt) (λ s. tt) (refl, (refl, tt)))

sends_asked_example :
    let t = connected granting in
    (origin t.log 17 ≡ some 4) × (alive t.log 17 ≡ 1) × (t.others 17 ≡ 0)
unfolding step fresh find insert connected-Reaches
sends_asked_example =
    sends_asked granting-IsSound 1 2 others log 5 35 17 [] log-fits
      (connected-Reaches granting Calm may_add (λ s. tt) (λ s. tt) (refl, (refl, tt))) refl

sends_closed_example :
    let t' = removal reusing (connected reusing) 5 in
    let u = step reusing (step reusing t' opens) thread_moves in
    Reaches reusing Allowed (started 1 2 others log) u
    × (alive t'.log 17 ≡ 0)
    × (t'.thread ≡ sending 5 35 17 [])
    × (1 ≤ u.others 17)
    × (u.log ≡ sent 35 17 ∷ opened 17 ∷ t'.log)
unfolding step fresh find insert
sends_closed_example =
    sends_closed reusing 5 35 17 []
      (connected-Reaches reusing Allowed may_add (λ s. tt) (λ s. tt) (refl, (refl, tt))) refl refl
      refl refl

-- The thread of `connected`, after `stop` has cleared `running_`.
abbrev stopping : Configuration
stopping = step granting (connected granting) stops

stop-ends_example : (thread_runs granting stopping 4).thread ≡ finished
unfolding step fresh find insert
stop-ends_example = stop-ends granting stopping 4 refl refl (omega arith)
