-- ===== src/Linux/Broker/Threads/Origins.antt =====
-- Which descriptor the thread sends: a duplicate of the one that `add_socket` was asked to serve.
use memfd_buffer_backend.Prelude.{
  ℕ, ◌+◌, ◌≡◌, ◌≢◌, ◌≤◌, refl, ap, sym, subst, ◌∙◌, Bool, true, false, List, [], ◌∷◌, Option, none,
  some, arith, total,
}
use memfd_buffer_backend.Os.{Os, Log, closed, other, IsSound, alive-le}
use memfd_buffer_backend.Os.Accounts.{is}
use memfd_buffer_backend.Linux.Broker.{find, close_found, unwatch}
use memfd_buffer_backend.Linux.Broker.Maps.{pair_of, find-total, find-held}
use memfd_buffer_backend.Linux.Broker.Threads.{
  Owner, Thread, Configuration, free, duplicating, inserting, watching, erasing, dropping, finding,
  unwatching, closing, closing_served, waking, joining, clearing, closing_event, closing_epoll,
  checking, polling, looking, accepting, sending, hanging_up, finished, move_owner, find_served,
  watched_as, join, clear_entry,
}
use memfd_buffer_backend.Linux.Broker.Threads.Accounts.{owned, Knows, IsAccounted}
use memfd_buffer_backend.Linux.Broker.Threads.Source.{
  origin, Source, IsSourced, served-keep, duplicated_as-IsSourced, inserted-IsSourced, find-erased,
}

unwatch-origin : (o : Option ℕ) (l : Log) (x : ℕ) → origin (unwatch o l) x ≡ origin l x
unfolding unwatch origin
unwatch-origin none l x = refl
unwatch-origin (some e) l x = refl

close_found-origin :
    (o : Option ℕ) (l : Log) (x : ℕ) → is x o ≡ 0 → origin (close_found o l) x ≡ origin l x
unfolding close_found origin
close_found-origin none l x e = refl
close_found-origin (some y) l x e = ground (arith, e)

watched_as-IsSourced :
    (s : Configuration) (asked : ℕ → ℕ) (k d : ℕ) (b : Bool)
    → IsSourced s asked
    → IsSourced (watched_as s k d (b, other ∷ s.log)) asked
unfolding watched_as origin
watched_as-IsSourced s a k d false v = record { served = v.served; method = tt }
watched_as-IsSourced s a k d true v = record { served = v.served; method = tt }

find_served-IsSourced :
    (s : Configuration) (asked : ℕ → ℕ) (k : ℕ) (o : Option ℕ)
    → s.owner ≡ finding k
    → find s.dispatcher.sockets k ≡ o
    → IsAccounted s
    → IsSourced s asked
    → IsSourced (find_served s k o) asked
unfolding find_served
find_served-IsSourced s a k none at e c v =
    let (d, f) = subst (Knows s.dispatcher.sockets) at c.knows in absurd (cc)
find_served-IsSourced s a k (some d) at e c v = record {
  served = λ j y f. v.served j y (find-erased s k d j y c e f);
  method = tt;
}

join-IsSourced :
    (s : Configuration) (asked : ℕ → ℕ) (p : Thread)
    → IsSourced s asked
    → IsSourced (join s p) asked
unfolding join
join-IsSourced s a finished v = record { served = v.served; method = tt }
join-IsSourced s a checking v = v
join-IsSourced s a polling v = v
join-IsSourced s a (looking ks) v = v
join-IsSourced s a (accepting k d ks) v = v
join-IsSourced s a (sending k y d ks) v = v
join-IsSourced s a (hanging_up y ks) v = v

find-rest :
    (k d j c : ℕ) (m : List (ℕ × ℕ)) → k ≢ j → find m j ≡ some c → find ((k, d) ∷ m) j ≡ some c
unfolding find
find-rest k d j c m ne e = ground (arith, ne, e)

-- The rest of the map holds none of the first entry's descriptors.
held_apart :
    (s : Configuration) (k d x : ℕ) (m : List (ℕ × ℕ))
    → s.dispatcher.sockets ≡ (k, d) ∷ m
    → IsAccounted s
    → 1 ≤ total (pair_of x) m
    → (x ≢ k) × (x ≢ d)
unfolding total
held_apart s k d x m e c has =
    let all : total (pair_of x) s.dispatcher.sockets
        ≡ is x (some k) + is x (some d) + total (pair_of x) m =
      ap (total (pair_of x)) e in
    let once = alive-le s.log x in
    let fits = c.descriptors x in
    (
      λ same.
          let here : is x (some k) ≡ 1 = ground (arith, same) in
          omega (arith, here, all, has, once, fits),
      λ same.
          let here : is x (some d) ≡ 1 = ground (arith, same) in
          omega (arith, here, all, has, once, fits),
    )

pub origin-closed : (l : Log) (y x : ℕ) → x ≢ y → origin (closed y ∷ l) x ≡ origin l x
unfolding origin
origin-closed l y x ne = ground (arith, ne)

clear_entry-IsSourced :
    (s : Configuration) (asked : ℕ → ℕ) (m : List (ℕ × ℕ))
    → s.owner ≡ clearing
    → s.dispatcher.sockets ≡ m
    → IsAccounted s
    → IsSourced s asked
    → IsSourced (clear_entry s m) asked
unfolding clear_entry
clear_entry-IsSourced s a [] at e c v = record { served = v.served; method = tt }
clear_entry-IsSourced s a ((k, d) ∷ m) at e c v = record {
  served = λ j y f.
      let (not_k, not_d) = held_apart s k d y m e c (find-held m j y f) in
      let (other_key, _) = held_apart s k d j m e c (find-total m j y f) in
      origin-closed (closed k ∷ s.log) d y not_d
      ∙ origin-closed s.log k y not_k
      ∙ v.served j y (ap (λ n. find n j) e ∙ find-rest k d j y m (λ same. other_key (sym same)) f);
  method = subst (Source a _) (sym at) tt;
}

-- A descriptor that a method, the dispatcher's constructor or other code holds is none in the map.
pub closed-apart :
    (s : Configuration) (x y : ℕ)
    → IsAccounted s
    → 1 ≤ total (pair_of x) s.dispatcher.sockets + owned s.owner x
    → 1 ≤ s.others y
    → x ≢ y
closed-apart s x y c has holds same =
    let there : s.others x ≡ s.others y = ap s.others same in
    omega (arith, there, has, holds, c.descriptors x, alive-le s.log x)

module _ {os : Os} (sound : IsSound os) where
  pub move_owner-IsSourced :
      (s : Configuration) (asked : ℕ → ℕ) (p : Owner)
      → s.owner ≡ p
      → Source asked s.log p
      → IsAccounted s
      → IsSourced s asked
      → IsSourced (move_owner os s p) asked
  unfolding move_owner origin
  move_owner-IsSourced s a free at from c v = v
  move_owner-IsSourced s a (duplicating k fd) at from c v =
      duplicated_as-IsSourced sound s a k fd (os.descriptor s.log) from refl c v
  move_owner-IsSourced s a (inserting k d) at from c v = inserted-IsSourced os s a k d from v
  move_owner-IsSourced s a (watching k d) at from c v =
      watched_as-IsSourced s a k d (os.succeeds s.log) v
  move_owner-IsSourced s a (erasing k d) at from c v = record {
    served = λ j y f.
        v.served j y (find-erased s k d j y c (subst (Knows s.dispatcher.sockets) at c.knows) f);
    method = tt;
  }
  move_owner-IsSourced s a (dropping k d) at from c v = record {
    served =
        served-keep s a v (closed d ∷ s.log)
          (λ x has. ground (arith, has, at, c.descriptors x, alive-le s.log x));
    method = tt;
  }
  move_owner-IsSourced s a (finding k) at from c v =
      find_served-IsSourced s a k (find s.dispatcher.sockets k) at refl c v
  move_owner-IsSourced s a (unwatching k o) at from c v = record {
    served =
        served-keep s a v (unwatch s.dispatcher.epoll_fd s.log)
          (λ x has. unwatch-origin s.dispatcher.epoll_fd s.log x);
    method = tt;
  }
  move_owner-IsSourced s a (closing k o) at from c v = record {
    served =
        served-keep s a v (closed k ∷ s.log)
          (λ x has. ground (arith, has, at, c.descriptors x, alive-le s.log x));
    method = tt;
  }
  move_owner-IsSourced s a (closing_served o) at from c v = record {
    served = served-keep s a v (close_found o s.log) (λ x has.
        close_found-origin o s.log x (ground (arith, has, at, c.descriptors x, alive-le s.log x)));
    method = tt;
  }
  move_owner-IsSourced s a waking at from c v = record {
    served =
        served-keep s a v (unwatch s.dispatcher.event_fd s.log)
          (λ x has. unwatch-origin s.dispatcher.event_fd s.log x);
    method = tt;
  }
  move_owner-IsSourced s a joining at from c v = join-IsSourced s a s.thread v
  move_owner-IsSourced s a clearing at from c v =
      clear_entry-IsSourced s a s.dispatcher.sockets at refl c v
  move_owner-IsSourced s a closing_event at from c v = record {
    served = served-keep s a v (close_found s.dispatcher.event_fd s.log) (λ x has.
        close_found-origin s.dispatcher.event_fd s.log x
          (omega (arith, has, c.descriptors x, alive-le s.log x)));
    method = tt;
  }
  move_owner-IsSourced s a closing_epoll at from c v = record {
    served = served-keep s a v (close_found s.dispatcher.epoll_fd s.log) (λ x has.
        close_found-origin s.dispatcher.epoll_fd s.log x
          (omega (arith, has, c.descriptors x, alive-le s.log x)));
    method = tt;
  }
