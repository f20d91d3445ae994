-- ===== src/Linux/Broker/Threads/Ending.antt =====
-- The thread ends once `running_` was cleared, so that the `join` of `stop` returns.
use memfd_buffer_backend.Prelude.{
  ℕ, zero, suc, ◌+◌, ◌*◌, ◌≡◌, ◌≤◌, refl, ap, Bool, true, false, List, [], ◌∷◌, Option, none, some,
  if◌then◌else◌, arith, length,
}
use memfd_buffer_backend.Os.{Os, Log, other, open_descriptor}
use memfd_buffer_backend.Linux.Broker.{find, is_event_fd}
use memfd_buffer_backend.Linux.Broker.Threads.{
  Thread, Configuration, checking, polling, looking, accepting, sending, hanging_up, finished, step,
  move_thread, looked_up, look_up, accepted, thread_moves,
}

unfoldable pub thread_runs : Os → Configuration → ℕ → Configuration
thread_runs os s zero = s
thread_runs os s (suc n) = thread_runs os (step os s thread_moves) n

-- The moves that the thread makes at most before it ends; waiting in `epoll_wait` is none of them.
abbrev pub span : Thread → ℕ
span checking = 1
span polling = 0
span (looking ks) = 2 + 4 * length ks
span (accepting k d ks) = 5 + 4 * length ks
span (sending k c d ks) = 4 + 4 * length ks
span (hanging_up c ks) = 3 + 4 * length ks
span finished = 0

abbrev pub waits : Thread → Bool
waits polling = true
waits _ = false

-- A dispatcher that is not running, with a thread that ends within `n` moves.
record Ends (s : Configuration) (n : ℕ) : Type 0 where
  off : s.dispatcher.running ≡ false
  awake : waits s.thread ≡ false
  near : span s.thread ≤ n

looked_up-Ends :
    (s : Configuration) (k : ℕ) (ks : List ℕ) (o : Option ℕ) (n : ℕ)
    → s.dispatcher.running ≡ false
    → span (looking (k ∷ ks)) ≤ suc n
    → Ends (looked_up s k ks o) n
unfolding looked_up
looked_up-Ends s k ks none n off near = record {
  off = off;
  awake = refl;
  near = omega (arith, near);
}
looked_up-Ends s k ks (some d) n off near = record {
  off = off;
  awake = refl;
  near = omega (arith, near);
}

look_up-Ends :
    (s : Configuration) (k : ℕ) (ks : List ℕ) (b : Bool) (n : ℕ)
    → s.dispatcher.running ≡ false
    → span (looking (k ∷ ks)) ≤ suc n
    → Ends
        (if b
          then record s { thread = looking ks; log = other ∷ s.log }
          else looked_up s k ks (find s.dispatcher.sockets k))
        n
look_up-Ends s k ks true n off near = record { off = off; awake = refl; near = omega (arith, near) }
look_up-Ends s k ks false n off near =
    looked_up-Ends s k ks (find s.dispatcher.sockets k) n off near

accepted-Ends :
    (s : Configuration) (k d : ℕ) (ks : List ℕ) (r : Option ℕ × Log) (n : ℕ)
    → s.dispatcher.running ≡ false
    → span (accepting k d ks) ≤ suc n
    → Ends (accepted s k d ks r) n
unfolding accepted
accepted-Ends s k d ks (none, l) n off near = record {
  off = off;
  awake = refl;
  near = omega (arith, near);
}
accepted-Ends s k d ks (some c, l) n off near = record {
  off = off;
  awake = refl;
  near = omega (arith, near);
}

checked-Ends :
    (s : Configuration) (b : Bool) (n : ℕ)
    → b ≡ false
    → s.dispatcher.running ≡ false
    → Ends (record s { thread = if b then polling else finished }) n
checked-Ends s true n e off = absurd (cc)
checked-Ends s false n e off = record { off = off; awake = refl; near = omega arith }

move_thread-Ends :
    (os : Os) (s : Configuration) (p : Thread) (n : ℕ)
    → s.thread ≡ p
    → s.dispatcher.running ≡ false
    → waits p ≡ false
    → span p ≤ suc n
    → Ends (move_thread os s p) n
unfolding move_thread look_up
move_thread-Ends os s checking n at off awake near = checked-Ends s s.dispatcher.running n off off
move_thread-Ends os s polling n at off awake near = absurd (cc)
move_thread-Ends os s (looking []) n at off awake near = record {
  off = off;
  awake = refl;
  near = omega (arith, near);
}
move_thread-Ends os s (looking (k ∷ ks)) n at off awake near =
    look_up-Ends s k ks (is_event_fd s.dispatcher.event_fd k) n off near
move_thread-Ends os s (accepting k d ks) n at off awake near =
    accepted-Ends s k d ks (open_descriptor os s.log) n off near
move_thread-Ends os s (sending k c d ks) n at off awake near = record {
  off = off;
  awake = refl;
  near = omega (arith, near);
}
move_thread-Ends os s (hanging_up c ks) n at off awake near = record {
  off = off;
  awake = refl;
  near = omega (arith, near);
}
move_thread-Ends os s finished n at off awake near = record {
  off = off;
  awake = ap waits at;
  near = ground (arith, at);
}

zero-finished : (p : Thread) → waits p ≡ false → span p ≤ 0 → p ≡ finished
zero-finished checking awake near = absurd (omega (arith, near))
zero-finished polling awake near = absurd (cc)
zero-finished (looking ks) awake near = absurd (omega (arith, near))
zero-finished (accepting k d ks) awake near = absurd (omega (arith, near))
zero-finished (sending k c d ks) awake near = absurd (omega (arith, near))
zero-finished (hanging_up c ks) awake near = absurd (omega (arith, near))
zero-finished finished awake near = refl

thread_runs-finished :
    (os : Os) (s : Configuration) (n : ℕ) → Ends s n → (thread_runs os s n).thread ≡ finished
unfolding thread_runs step
thread_runs-finished os s zero e = zero-finished s.thread e.awake e.near
thread_runs-finished os s (suc n) e =
    thread_runs-finished os (move_thread os s s.thread) n
      (move_thread-Ends os s s.thread n refl e.off e.awake e.near)

-- After `stop` has cleared `running_`, a thread that is not waiting in `epoll_wait` ends within
-- `span` of its own moves, whatever the system answers: it looks at the rest of its events and
-- leaves the loop, so that `join` returns.
pub stop-ends :
    (os : Os) (s : Configuration) (n : ℕ)
    → s.dispatcher.running ≡ false
    → waits s.thread ≡ false
    → span s.thread ≤ n
    → (thread_runs os s n).thread ≡ finished
stop-ends os s n off awake near =
    thread_runs-finished os s n (record { off = off; awake = awake; near = near })
