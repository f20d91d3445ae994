-- ===== src/Linux/Broker/Threads/Additions.antt =====
-- The methods that keep what the thread has looked up.
use memfd_buffer_backend.Prelude.{
  ℕ, ◌≡◌, ◌≢◌, ◌≤◌, inl, inr, refl, ◌∙◌, Bool, true, false, List, ◌∷◌, Option, none, some, ◌==◌,
  arith, total, Bool-cases,
}
use memfd_buffer_backend.Os.{Os, Log, other, alive-le, log_descriptor}
use memfd_buffer_backend.Linux.Broker.{find, erase, insert, log_dup}
use memfd_buffer_backend.Linux.Broker.Maps.{find-insert_other, find-erase_other, find-total}
use memfd_buffer_backend.Linux.Broker.Threads.{
  Owner, Thread, Configuration, free, duplicating, inserting, watching, erasing, dropping, finding,
  unwatching, closing, closing_served, waking, joining, clearing, closing_event, closing_epoll,
  checking, polling, looking, accepting, sending, hanging_up, finished, move_owner, call_add,
  call_stop, open_other, duplicated_as, watched_as, join, watch,
}
use memfd_buffer_backend.Linux.Broker.Threads.Accounts.{Knows, IsAccounted}
use memfd_buffer_backend.Linux.Broker.Threads.Calm.{Adds, IsLive, IsCalm, Handles-mono}

-- A change of the map that keeps what the watched sockets have.
map-IsLive :
    (s : Configuration) (m : List (ℕ × ℕ)) (o : Owner) (l : Log)
    → ((k : ℕ) → s.watched k ≡ true → find m k ≡ find s.dispatcher.sockets k)
    → Adds s.watched o
    → IsLive s
    → IsLive (record s { owner = o; dispatcher = record s.dispatcher { sockets = m }; log = l })
map-IsLive s m o l same adding v = record {
  handles =
      Handles-mono s.dispatcher.sockets m s.watched s.watched s.thread same (λ k on. on) v.handles;
  served = λ k on other_fd. let (d, e) = v.served k on other_fd in (d, same k on ∙ e);
  method = adding;
}

apart : (w : ℕ → Bool) (s k : ℕ) → w s ≡ false → w k ≡ true → s ≢ k
apart w s k off on e = absurd (cc)

duplicated_as-IsLive :
    (s : Configuration) (k fd : ℕ) (o : Option ℕ)
    → s.watched k ≡ false
    → IsLive s
    → IsLive (duplicated_as s k (log_dup fd s.log o))
unfolding duplicated_as
duplicated_as-IsLive s k fd none off v = record {
  handles = v.handles;
  served = v.served;
  method = tt;
}
duplicated_as-IsLive s k fd (some d) off v = record {
  handles = v.handles;
  served = v.served;
  method = off;
}

watched_as-IsLive :
    (s : Configuration) (k d : ℕ) (b : Bool)
    → find s.dispatcher.sockets k ≡ some d
    → s.watched k ≡ false
    → IsLive s
    → IsLive (watched_as s k d (b, other ∷ s.log))
unfolding watched_as
watched_as-IsLive s k d false e off v = record {
  handles = v.handles;
  served = v.served;
  method = off;
}
watched_as-IsLive s k d true e off v = record {
  handles =
      Handles-mono s.dispatcher.sockets s.dispatcher.sockets s.watched (watch s.watched k true)
        s.thread (λ j on. refl) (λ j on. ground (arith, on)) v.handles;
  served = λ j on other_fd. elim (Bool-cases (j == k)) [
    | inl same ↦ (d, ground (arith, same, e))
    | inr apart_from ↦ v.served j (ground (arith, on, apart_from)) other_fd
  ];
  method = tt;
}

join-IsCalm : (s : Configuration) (p : Thread) → s.thread ≡ p → IsLive s → IsCalm (join s p)
unfolding join
join-IsCalm s finished at v = inl at
join-IsCalm s checking at v = inr v
join-IsCalm s polling at v = inr v
join-IsCalm s (looking ks) at v = inr v
join-IsCalm s (accepting k d ks) at v = inr v
join-IsCalm s (sending k c d ks) at v = inr v
join-IsCalm s (hanging_up c ks) at v = inr v

pub move_owner-IsCalm :
    (os : Os) (s : Configuration) (p : Owner)
    → s.owner ≡ p
    → Knows s.dispatcher.sockets p
    → Adds s.watched p
    → IsLive s
    → IsCalm (move_owner os s p)
unfolding move_owner
move_owner-IsCalm os s free at k a v = inr v
move_owner-IsCalm os s (duplicating k fd) at u off v =
    inr (duplicated_as-IsLive s k fd (os.descriptor s.log) off v)
move_owner-IsCalm os s (inserting k d) at u off v = inr (
    map-IsLive s (insert s.dispatcher.sockets k d) (watching k d) (other ∷ s.log)
      (λ j on. find-insert_other s.dispatcher.sockets k d j (apart s.watched k j off on)) off v)
move_owner-IsCalm os s (watching k d) at e off v =
    inr (watched_as-IsLive s k d (os.succeeds s.log) e off v)
move_owner-IsCalm os s (erasing k d) at e off v = inr (
    map-IsLive s (erase s.dispatcher.sockets k) (dropping k d) s.log
      (λ j on. find-erase_other s.dispatcher.sockets k j (apart s.watched k j off on)) off v)
move_owner-IsCalm os s (dropping k d) at u off v =
    inr (record { handles = v.handles; served = v.served; method = tt })
move_owner-IsCalm os s waking at u a v =
    inr (record { handles = v.handles; served = v.served; method = tt })
move_owner-IsCalm os s joining at u a v = join-IsCalm s s.thread refl v
move_owner-IsCalm os s (finding k) at u a v = absurd a
move_owner-IsCalm os s (unwatching k o) at u a v = absurd a
move_owner-IsCalm os s (closing k o) at u a v = absurd a
move_owner-IsCalm os s (closing_served o) at u a v = absurd a
move_owner-IsCalm os s clearing at u a v = absurd a
move_owner-IsCalm os s closing_event at u a v = absurd a
move_owner-IsCalm os s closing_epoll at u a v = absurd a

-- A socket that other code holds is not watched.
pub new-unwatched :
    (s : Configuration) (k : ℕ) → IsAccounted s → IsLive s → 1 ≤ s.others k → s.watched k ≡ false
unfolding total
new-unwatched s k a v has = elim (Bool-cases (s.watched k)) [
  | inr off ↦ off
  | inl on ↦
      let fits = a.descriptors k in
      let once = alive-le s.log k in
      let (d, e) = v.served k on (omega (arith, fits, once, has)) in
      absurd (omega (arith, fits, once, has, find-total s.dispatcher.sockets k d e))
]

pub call_add-IsLive :
    (s : Configuration) (k fd : ℕ) (b : Bool)
    → s.watched k ≡ false
    → IsLive s
    → IsLive (call_add s k fd b)
unfolding call_add
call_add-IsLive s k fd false off v = v
call_add-IsLive s k fd true off v = record { handles = v.handles; served = v.served; method = off }

pub call_stop-IsLive : (s : Configuration) (b : Bool) → IsLive s → IsLive (call_stop s b)
unfolding call_stop
call_stop-IsLive s false v = v
call_stop-IsLive s true v = record { handles = v.handles; served = v.served; method = tt }

pub open_other-IsLive :
    (s : Configuration) (o : Option ℕ) → IsLive s → IsLive (open_other s (log_descriptor s.log o))
unfolding open_other
open_other-IsLive s none v = record { handles = v.handles; served = v.served; method = v.method }
open_other-IsLive s (some y) v = record {
  handles = v.handles;
  served = v.served;
  method = v.method;
}
