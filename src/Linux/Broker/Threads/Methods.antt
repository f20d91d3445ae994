-- ===== src/Linux/Broker/Threads/Methods.antt =====
-- The methods of the dispatcher, one access at a time, keep its descriptors accounted for.
use memfd_buffer_backend.Prelude.{
  ℕ, ◌-◌, ◌≡◌, refl, sym, subst, Bool, true, false, List, [], ◌∷◌, Option, none, some, arith, total,
}
use memfd_buffer_backend.Os.{Os, Log, alive, other, IsSound, alive-le}
use memfd_buffer_backend.Os.Accounts.{is}
use memfd_buffer_backend.Linux.Broker.{find, close_found, unwatch, log_dup}
use memfd_buffer_backend.Linux.Broker.Maps.{
  pair_of, find-absent, total-insert, total-erase, find-insert_self,
}
use memfd_buffer_backend.Linux.Broker.Destruction.{unwatch-alive}
use memfd_buffer_backend.Linux.Broker.Threads.{
  Owner, Thread, Configuration, free, duplicating, inserting, watching, erasing, dropping, finding,
  unwatching, closing, closing_served, waking, joining, clearing, closing_event, closing_epoll,
  checking, polling, looking, accepting, sending, hanging_up, finished, move_owner, find_served,
  duplicated_as, watched_as, join, clear_entry,
}
use memfd_buffer_backend.Linux.Broker.Threads.Accounts.{Knows, IsAccounted}

module _ {os : Os} (sound : IsSound os) where
  duplicated_as-IsAccounted :
      (s : Configuration) (k fd : ℕ) (o : Option ℕ)
      → s.owner ≡ duplicating k fd
      → os.descriptor s.log ≡ o
      → IsAccounted s
      → IsAccounted (duplicated_as s k (log_dup fd s.log o))
  unfolding duplicated_as alive
  duplicated_as-IsAccounted s k fd none at e v = record {
    descriptors = λ x. ground (arith, at, v.descriptors x);
    knows = tt;
  }
  duplicated_as-IsAccounted s k fd (some d) at e v = record {
    descriptors = λ x. ground (arith, at, v.descriptors x, sound.new_descriptor s.log d e);
    knows = tt;
  }

  inserted-IsAccounted :
      (s : Configuration) (k d : ℕ)
      → s.owner ≡ inserting k d
      → IsAccounted s
      → IsAccounted (move_owner os s (inserting k d))
  unfolding move_owner alive
  inserted-IsAccounted s k d at v =
      let absent : find s.dispatcher.sockets k ≡ none =
        find-absent s.dispatcher.sockets k
          (ground (arith, at, v.descriptors k, alive-le s.log k)) in
      record {
        descriptors = λ x.
            ground (
              arith,
              at,
              v.descriptors x,
              total-insert (pair_of x) s.dispatcher.sockets k d absent,
            );
        knows = find-insert_self s.dispatcher.sockets k d;
      }

  watched_as-IsAccounted :
      (s : Configuration) (k d : ℕ) (b : Bool)
      → s.owner ≡ watching k d
      → IsAccounted s
      → IsAccounted (watched_as s k d (b, other ∷ s.log))
  unfolding watched_as alive
  watched_as-IsAccounted s k d true at v = record {
    descriptors = λ x. ground (arith, at, v.descriptors x);
    knows = tt;
  }
  watched_as-IsAccounted s k d false at v = record {
    descriptors = λ x. ground (arith, at, v.descriptors x);
    knows = subst (Knows s.dispatcher.sockets) at v.knows;
  }

  find_served-IsAccounted :
      (s : Configuration) (k : ℕ) (o : Option ℕ)
      → s.owner ≡ finding k
      → find s.dispatcher.sockets k ≡ o
      → IsAccounted s
      → IsAccounted (find_served s k o)
  unfolding find_served
  find_served-IsAccounted s k none at e v =
      let (d, f) = subst (Knows s.dispatcher.sockets) at v.knows in absurd (cc)
  find_served-IsAccounted s k (some d) at e v = record {
    descriptors = λ x.
        ground (arith, at, v.descriptors x, total-erase (pair_of x) s.dispatcher.sockets k d e);
    knows = tt;
  }

  join-IsAccounted :
      (s : Configuration) (p : Thread) → s.owner ≡ joining → IsAccounted s → IsAccounted (join s p)
  unfolding join
  join-IsAccounted s finished at v = record {
    descriptors = λ x. ground (arith, at, v.descriptors x);
    knows = tt;
  }
  join-IsAccounted s checking at v = v
  join-IsAccounted s polling at v = v
  join-IsAccounted s (looking ks) at v = v
  join-IsAccounted s (accepting k d ks) at v = v
  join-IsAccounted s (sending k c d ks) at v = v
  join-IsAccounted s (hanging_up c ks) at v = v

  clear_entry-IsAccounted :
      (s : Configuration) (m : List (ℕ × ℕ))
      → s.owner ≡ clearing
      → s.dispatcher.sockets ≡ m
      → IsAccounted s
      → IsAccounted (clear_entry s m)
  unfolding clear_entry alive total
  clear_entry-IsAccounted s [] at e v = record {
    descriptors = λ x. ground (arith, at, v.descriptors x);
    knows = tt;
  }
  clear_entry-IsAccounted s ((k, d) ∷ m) at e v = record {
    descriptors = λ x. ground (
      arith,
      at,
      e,
      v.descriptors x,
      v.descriptors k,
      v.descriptors d,
      alive-le s.log k,
      alive-le s.log d,
    );
    knows = subst (Knows m) (sym at) tt;
  }

  close_found-alive :
      (o : Option ℕ) (l : Log) (x : ℕ) → alive (close_found o l) x ≡ alive l x - is x o
  unfolding close_found alive
  close_found-alive none l x = omega arith
  close_found-alive (some y) l x = ground (arith, alive-le l y)

  pub move_owner-IsAccounted :
      (s : Configuration) (p : Owner)
      → s.owner ≡ p
      → IsAccounted s
      → IsAccounted (move_owner os s p)
  unfolding move_owner unwatch alive
  move_owner-IsAccounted s free at v = v
  move_owner-IsAccounted s (duplicating k fd) at v =
      duplicated_as-IsAccounted s k fd (os.descriptor s.log) at refl v
  move_owner-IsAccounted s (inserting k d) at v = inserted-IsAccounted s k d at v
  move_owner-IsAccounted s (watching k d) at v =
      watched_as-IsAccounted s k d (os.succeeds s.log) at v
  move_owner-IsAccounted s (erasing k d) at v = record {
    descriptors = λ x. ground (
      arith,
      at,
      v.descriptors x,
      total-erase (pair_of x) s.dispatcher.sockets k d
          (subst (Knows s.dispatcher.sockets) at v.knows),
    );
    knows = tt;
  }
  move_owner-IsAccounted s (dropping k d) at v = record {
    descriptors = λ x. ground (arith, at, v.descriptors x, v.descriptors d, alive-le s.log d);
    knows = tt;
  }
  move_owner-IsAccounted s (finding k) at v =
      find_served-IsAccounted s k (find s.dispatcher.sockets k) at refl v
  move_owner-IsAccounted s (unwatching k o) at v = record {
    descriptors =
        λ x. ground (arith, at, v.descriptors x, unwatch-alive s.dispatcher.epoll_fd s.log x);
    knows = tt;
  }
  move_owner-IsAccounted s (closing k o) at v = record {
    descriptors = λ x. ground (arith, at, v.descriptors x, v.descriptors k, alive-le s.log k);
    knows = tt;
  }
  move_owner-IsAccounted s (closing_served o) at v = record {
    descriptors = λ x. ground (arith, at, v.descriptors x, close_found-alive o s.log x);
    knows = tt;
  }
  move_owner-IsAccounted s waking at v = record {
    descriptors =
        λ x. ground (arith, at, v.descriptors x, unwatch-alive s.dispatcher.event_fd s.log x);
    knows = tt;
  }
  move_owner-IsAccounted s joining at v = join-IsAccounted s s.thread at v
  move_owner-IsAccounted s clearing at v = clear_entry-IsAccounted s s.dispatcher.sockets at refl v
  move_owner-IsAccounted s closing_event at v = record {
    descriptors =
        λ x. ground (arith, at, v.descriptors x, close_found-alive s.dispatcher.event_fd s.log x);
    knows = tt;
  }
  move_owner-IsAccounted s closing_epoll at v = record {
    descriptors =
        λ x. ground (arith, at, v.descriptors x, close_found-alive s.dispatcher.epoll_fd s.log x);
    knows = tt;
  }
