-- ===== src/Linux/Broker/Threads/Calm.antt =====
-- What the thread sends while the broker adds sockets, or stops the dispatcher, and removes none.
use memfd_buffer_backend.Prelude.{
  ℕ, ◌≡◌, ◌⊎◌, inl, inr, refl, ◌∙◌, Bool, true, false, List, [], ◌∷◌, Option, none, some,
  if◌then◌else◌, Bool-cases,
}
use memfd_buffer_backend.Os.{Os, other, log_descriptor}
use memfd_buffer_backend.Os.Accounts.{is}
use memfd_buffer_backend.Linux.Broker.{find, is_event_fd, Wait, ready, interrupted, failed}
use memfd_buffer_backend.Linux.Broker.Threads.{
  Owner, Thread, Configuration, free, duplicating, inserting, watching, erasing, dropping, waking,
  joining, checking, polling, looking, accepting, sending, hanging_up, finished, move_thread, poll,
  looked_up, look_up, accepted, AllWatched, Calm, wakes,
}

-- The events that the thread has in hand come from watched sockets, and the descriptor that it
-- looked up is still the one of its socket.
abbrev pub Handles : List (ℕ × ℕ) → (ℕ → Bool) → Thread → Type 0
Handles m w (looking ks) = AllWatched w ks
Handles m w (accepting k d ks) = (find m k ≡ some d) × (w k ≡ true) × AllWatched w ks
Handles m w (sending k c d ks) = (find m k ≡ some d) × (w k ≡ true) × AllWatched w ks
Handles m w (hanging_up c ks) = AllWatched w ks
Handles m w _ = Unit

-- A method that adds a socket, which is not watched yet, or that has not begun to close.
abbrev pub Adds : (ℕ → Bool) → Owner → Type 0
Adds w free = Unit
Adds w (duplicating s fd) = w s ≡ false
Adds w (inserting s d) = w s ≡ false
Adds w (watching s d) = w s ≡ false
Adds w (erasing s d) = w s ≡ false
Adds w (dropping s d) = w s ≡ false
Adds w waking = Unit
Adds w joining = Unit
Adds w _ = ⊥

pub record IsLive (s : Configuration) : Type 0 where
  pub handles : Handles s.dispatcher.sockets s.watched s.thread
  pub served :
      (k : ℕ)
      → s.watched k ≡ true
      → is k s.dispatcher.event_fd ≡ 0
      → (d : ℕ) × (find s.dispatcher.sockets k ≡ some d)
  pub method : Adds s.watched s.owner

abbrev pub IsCalm : Configuration → Type 0
IsCalm s = (s.thread ≡ finished) ⊎ IsLive s

AllWatched-mono :
    (v w : ℕ → Bool) (ks : List ℕ)
    → ((k : ℕ) → v k ≡ true → w k ≡ true)
    → AllWatched v ks
    → AllWatched w ks
AllWatched-mono v w [] more u = tt
AllWatched-mono v w (k ∷ ks) more (e, es) = (more k e, AllWatched-mono v w ks more es)

pub Handles-mono :
    (m n : List (ℕ × ℕ)) (v w : ℕ → Bool) (p : Thread)
    → ((k : ℕ) → v k ≡ true → find n k ≡ find m k)
    → ((k : ℕ) → v k ≡ true → w k ≡ true)
    → Handles m v p
    → Handles n w p
Handles-mono m n v w checking same more h = tt
Handles-mono m n v w polling same more h = tt
Handles-mono m n v w (looking ks) same more h = AllWatched-mono v w ks more h
Handles-mono m n v w (accepting k d ks) same more (e, on, hs) =
    (same k on ∙ e, more k on, AllWatched-mono v w ks more hs)
Handles-mono m n v w (sending k c d ks) same more (e, on, hs) =
    (same k on ∙ e, more k on, AllWatched-mono v w ks more hs)
Handles-mono m n v w (hanging_up c ks) same more h = AllWatched-mono v w ks more h
Handles-mono m n v w finished same more h = tt

looked_up-IsLive :
    (s : Configuration) (k : ℕ) (ks : List ℕ) (o : Option ℕ)
    → find s.dispatcher.sockets k ≡ o
    → s.watched k ≡ true
    → AllWatched s.watched ks
    → IsLive s
    → IsLive (looked_up s k ks o)
unfolding looked_up
looked_up-IsLive s k ks none e on rest v = record {
  handles = rest;
  served = v.served;
  method = v.method;
}
looked_up-IsLive s k ks (some d) e on rest v = record {
  handles = (e, on, rest);
  served = v.served;
  method = v.method;
}

look_up-IsLive :
    (s : Configuration) (k : ℕ) (ks : List ℕ) (b : Bool)
    → s.watched k ≡ true
    → AllWatched s.watched ks
    → IsLive s
    → IsLive (
        if b
        then record s { thread = looking ks; log = other ∷ s.log }
        else looked_up s k ks (find s.dispatcher.sockets k))
look_up-IsLive s k ks true on rest v = record {
  handles = rest;
  served = v.served;
  method = v.method;
}
look_up-IsLive s k ks false on rest v =
    looked_up-IsLive s k ks (find s.dispatcher.sockets k) refl on rest v

accepted-IsLive :
    (s : Configuration) (k d : ℕ) (ks : List ℕ) (o : Option ℕ)
    → Handles s.dispatcher.sockets s.watched (accepting k d ks)
    → IsLive s
    → IsLive (accepted s k d ks (log_descriptor s.log o))
unfolding accepted
accepted-IsLive s k d ks none h v = record { handles = h.2; served = v.served; method = v.method }
accepted-IsLive s k d ks (some c) h v = record { handles = h; served = v.served; method = v.method }

pub move_thread-IsCalm :
    (os : Os) (s : Configuration) (p : Thread)
    → s.thread ≡ p
    → Handles s.dispatcher.sockets s.watched p
    → IsLive s
    → IsCalm (move_thread os s p)
unfolding move_thread look_up
move_thread-IsCalm os s checking at h v = elim (Bool-cases s.dispatcher.running) [
  | inl on ↦
      inr (rw (move_thread, on) (record { handles = tt; served = v.served; method = v.method }))
  | inr off ↦ inl (rw (move_thread, off) refl)
]
move_thread-IsCalm os s polling at h v = inr v
move_thread-IsCalm os s (looking []) at h v =
    inr (record { handles = tt; served = v.served; method = v.method })
move_thread-IsCalm os s (looking (k ∷ ks)) at (on, rest) v =
    inr (look_up-IsLive s k ks (is_event_fd s.dispatcher.event_fd k) on rest v)
move_thread-IsCalm os s (accepting k d ks) at h v =
    inr (accepted-IsLive s k d ks (os.descriptor s.log) h v)
move_thread-IsCalm os s (sending k c d ks) at h v =
    inr (record { handles = h.2; served = v.served; method = v.method })
move_thread-IsCalm os s (hanging_up c ks) at h v =
    inr (record { handles = h; served = v.served; method = v.method })
move_thread-IsCalm os s finished at h v = inl at

pub poll-IsCalm : (s : Configuration) (w : Wait) → Calm s (wakes w) → IsLive s → IsCalm (poll s w)
unfolding poll
poll-IsCalm s (ready ks) (at, reported) v =
    inr (record { handles = reported; served = v.served; method = v.method })
poll-IsCalm s interrupted may v =
    inr (record { handles = tt; served = v.served; method = v.method })
poll-IsCalm s failed may v = inl refl
