-- ===== src/Linux/Broker/Threads/Sending.antt =====
-- The descriptor that the thread sends, where no socket is removed.
use memfd_buffer_backend.Prelude.{
  ℕ, ◌+◌, ◌≡◌, inl, inr, refl, sym, subst, ◌∙◌, Bool, true, false, List, [], ◌∷◌, Option, none,
  some, arith,
}
use memfd_buffer_backend.Os.{Os, Log, alive, IsSound, alive-le}
use memfd_buffer_backend.Os.Accounts.{is}
use memfd_buffer_backend.Linux.Broker.{find}
use memfd_buffer_backend.Linux.Broker.Maps.{find-held}
use memfd_buffer_backend.Linux.Broker.Threads.{
  Owner, Thread, Configuration, Move, free, duplicating, inserting, watching, erasing, dropping,
  finding, unwatching, closing, closing_served, waking, joining, clearing, closing_event,
  closing_epoll, checking, polling, looking, accepting, sending, hanging_up, finished, step,
  move_owner, move_thread, call_add, call_stop, open_other, duplicated_as, watched_as, join,
  Allowed, Calm, Reaches, start, next, started, owner_moves, thread_moves, wakes, adds, removes,
  stops, opens, closes,
}
use memfd_buffer_backend.Linux.Broker.Threads.Accounts.{IsAccounted}
use memfd_buffer_backend.Os.{open_descriptor, attempt_call}
use memfd_buffer_backend.Linux.Broker.{duplicate}
use memfd_buffer_backend.Linux.Broker.Threads.{clear_entry, find_served}
use memfd_buffer_backend.Linux.Broker.Threads.Reached.{step-IsAccounted, started-IsAccounted}
use memfd_buffer_backend.Linux.Broker.Threads.Calm.{
  Handles, IsLive, IsCalm, move_thread-IsCalm, poll-IsCalm,
}
use memfd_buffer_backend.Linux.Broker.Threads.Additions.{
  move_owner-IsCalm, new-unwatched, call_add-IsLive, call_stop-IsLive, open_other-IsLive,
}

join-thread : (s : Configuration) (p : Thread) → (join s p).thread ≡ s.thread
unfolding join
join-thread s finished = refl
join-thread s checking = refl
join-thread s polling = refl
join-thread s (looking ks) = refl
join-thread s (accepting k d ks) = refl
join-thread s (sending k c d ks) = refl
join-thread s (hanging_up c ks) = refl

clear_entry-thread : (s : Configuration) (m : List (ℕ × ℕ)) → (clear_entry s m).thread ≡ s.thread
unfolding clear_entry
clear_entry-thread s [] = refl
clear_entry-thread s ((k, d) ∷ m) = refl

duplicated_as-thread :
    (s : Configuration) (k : ℕ) (r : Option ℕ × Log) → (duplicated_as s k r).thread ≡ s.thread
unfolding duplicated_as
duplicated_as-thread s k (none, l) = refl
duplicated_as-thread s k (some d, l) = refl

watched_as-thread :
    (s : Configuration) (k d : ℕ) (r : Bool × Log) → (watched_as s k d r).thread ≡ s.thread
unfolding watched_as
watched_as-thread s k d (false, l) = refl
watched_as-thread s k d (true, l) = refl

call_add-thread : (s : Configuration) (k fd : ℕ) (b : Bool) → (call_add s k fd b).thread ≡ s.thread
unfolding call_add
call_add-thread s k fd false = refl
call_add-thread s k fd true = refl

call_stop-thread : (s : Configuration) (b : Bool) → (call_stop s b).thread ≡ s.thread
unfolding call_stop
call_stop-thread s false = refl
call_stop-thread s true = refl

open_other-thread : (s : Configuration) (r : Option ℕ × Log) → (open_other s r).thread ≡ s.thread
unfolding open_other
open_other-thread s (o, l) = refl

move_owner-thread :
    (os : Os) (s : Configuration) (p : Owner) → (move_owner os s p).thread ≡ s.thread
unfolding move_owner find_served
move_owner-thread os s free = refl
move_owner-thread os s (duplicating k fd) = duplicated_as-thread s k (duplicate os fd s.log)
move_owner-thread os s (inserting k d) = refl
move_owner-thread os s (watching k d) = watched_as-thread s k d (attempt_call os s.log)
move_owner-thread os s (erasing k d) = refl
move_owner-thread os s (dropping k d) = refl
move_owner-thread os s (finding k) = refl
move_owner-thread os s (unwatching k o) = refl
move_owner-thread os s (closing k o) = refl
move_owner-thread os s (closing_served o) = refl
move_owner-thread os s waking = refl
move_owner-thread os s joining = join-thread s s.thread
move_owner-thread os s clearing = clear_entry-thread s s.dispatcher.sockets
move_owner-thread os s closing_event = refl
move_owner-thread os s closing_epoll = refl

-- A thread that has finished does not start again.
step-finished :
    (os : Os) (s : Configuration) (m : Move)
    → Calm s m
    → s.thread ≡ finished
    → (step os s m).thread ≡ finished
unfolding step
step-finished os s owner_moves may e = move_owner-thread os s s.owner ∙ e
step-finished os s thread_moves may e =
    subst (λ p. (move_thread os s p).thread ≡ finished) (sym e) e
step-finished os s (wakes w) (at, reported) e = absurd (cc)
step-finished os s (adds k fd) may e = call_add-thread s k fd s.dispatcher.running ∙ e
step-finished os s (removes k) may e = e
step-finished os s stops may e = call_stop-thread s s.dispatcher.running ∙ e
step-finished os s opens may e = open_other-thread s (open_descriptor os s.log) ∙ e
step-finished os s (closes x) may e = e

step-IsCalm :
    (os : Os) (s : Configuration) (m : Move)
    → Calm s m
    → IsAccounted s
    → IsLive s
    → IsCalm (step os s m)
unfolding step
step-IsCalm os s owner_moves may a v = move_owner-IsCalm os s s.owner refl a.knows v.method v
step-IsCalm os s thread_moves may a v = move_thread-IsCalm os s s.thread refl v.handles v
step-IsCalm os s (wakes w) may a v = poll-IsCalm s w may v
step-IsCalm os s (adds k fd) (at, has) a v =
    inr (call_add-IsLive s k fd s.dispatcher.running (new-unwatched s k a v has) v)
step-IsCalm os s (removes k) may a v = absurd may
step-IsCalm os s stops may a v = inr (call_stop-IsLive s s.dispatcher.running v)
step-IsCalm os s opens may a v = inr (open_other-IsLive s (os.descriptor s.log) v)
step-IsCalm os s (closes x) may a v =
    inr (record { handles = v.handles; served = v.served; method = v.method })

pub Calm-Allowed : (s : Configuration) (m : Move) → Calm s m → Allowed s m
Calm-Allowed s owner_moves may = may
Calm-Allowed s thread_moves may = may
Calm-Allowed s (wakes w) may = may
Calm-Allowed s (adds k fd) may = may
Calm-Allowed s (removes k) may = absurd may
Calm-Allowed s stops may = may
Calm-Allowed s opens may = may
Calm-Allowed s (closes x) may = may

module _ {os : Os} (sound : IsSound os) where
  reaches-IsCalm :
      {s t : Configuration}
      → IsAccounted s
      → IsCalm s
      → Reaches os Calm s t
      → IsAccounted t × IsCalm t
  reaches-IsCalm a c start = (a, c)
  reaches-IsCalm a c (next {t} r m may) =
      let (b, d) = reaches-IsCalm a c r in
      (
        step-IsAccounted sound t m (Calm-Allowed t m may) b,
        elim d [ inl e ↦ inl (step-finished os t m may e) | inr v ↦ step-IsCalm os t m may b v ],
      )

  started-IsLive :
      (epoll event : ℕ) (others : ℕ → ℕ) (l : Log) → IsLive (started epoll event others l)
  started-IsLive epoll event others l = record {
    handles = tt;
    served = λ k on other_fd. absurd (ground (arith, on, other_fd));
    method = tt;
  }

  sending-Served :
      (t : Configuration) (k c d : ℕ) (ks : List ℕ)
      → IsAccounted t
      → IsCalm t
      → t.thread ≡ sending k c d ks
      → (find t.dispatcher.sockets k ≡ some d) × (alive t.log d ≡ 1) × (t.others d ≡ 0)
  sending-Served t k c d ks a (inl e) at = absurd (cc)
  sending-Served t k c d ks a (inr v) at =
      let (e, on, rest) = subst (Handles t.dispatcher.sockets t.watched) at v.handles in
      let holds = find-held t.dispatcher.sockets k d e in
      let fits = a.descriptors d in
      let once = alive-le t.log d in
      (e, omega (arith, holds, fits, once), omega (arith, holds, fits, once))

  -- Where no socket is removed, the descriptor that the thread is about to send is still the one
  -- that the dispatcher serves on the socket of the client; it is open, and no other code has it.
  pub sends_served :
      (epoll event : ℕ) (others : ℕ → ℕ) (l : Log) {t : Configuration} (k c d : ℕ) (ks : List ℕ)
      → ((x : ℕ) → alive l x ≡ others x + is x (some epoll) + is x (some event))
      → Reaches os Calm (started epoll event others l) t
      → t.thread ≡ sending k c d ks
      → (find t.dispatcher.sockets k ≡ some d) × (alive t.log d ≡ 1) × (t.others d ≡ 0)
  sends_served epoll event others l {t} k c d ks fds r at =
      let (a, v) =
        reaches-IsCalm (started-IsAccounted sound epoll event others l fds)
          (inr (started-IsLive epoll event others l)) r in
      sending-Served t k c d ks a v at
