-- ===== src/Linux/Broker/Threads/Reached.antt =====
-- The descriptors in every state that the thread and the methods reach together.
use memfd_buffer_backend.Prelude.{
  ℕ, ◌+◌, ◌≡◌, ◌≤◌, refl, Bool, true, false, Option, none, some, arith, total,
}
use memfd_buffer_backend.Os.{Os, Log, alive, IsSound, alive-le, log_descriptor}
use memfd_buffer_backend.Os.Accounts.{is}
use memfd_buffer_backend.Linux.Broker.{Wait, ready, interrupted, failed}
use memfd_buffer_backend.Linux.Broker.Threads.{
  Configuration, Move, free, polling, step, poll, call_add, call_stop, open_other, Allowed, Reaches,
  start, next, started, owner_moves, thread_moves, wakes, adds, removes, stops, opens, closes,
}
use memfd_buffer_backend.Linux.Broker.Threads.Accounts.{IsAccounted, move_thread-IsAccounted}
use memfd_buffer_backend.Linux.Broker.Threads.Methods.{move_owner-IsAccounted}

module _ {os : Os} (sound : IsSound os) where
  call_add-IsAccounted :
      (s : Configuration) (k fd : ℕ) (b : Bool)
      → s.owner ≡ free
      → 1 ≤ s.others k
      → IsAccounted s
      → IsAccounted (call_add s k fd b)
  unfolding call_add
  call_add-IsAccounted s k fd false at has v = v
  call_add-IsAccounted s k fd true at has v = record {
    descriptors = λ x. ground (arith, at, has, v.descriptors x);
    knows = tt;
  }

  call_stop-IsAccounted :
      (s : Configuration) (b : Bool) → s.owner ≡ free → IsAccounted s → IsAccounted (call_stop s b)
  unfolding call_stop
  call_stop-IsAccounted s false at v = v
  call_stop-IsAccounted s true at v = record {
    descriptors = λ x. ground (arith, at, v.descriptors x);
    knows = tt;
  }

  open_other-IsAccounted :
      (s : Configuration) (o : Option ℕ)
      → os.descriptor s.log ≡ o
      → IsAccounted s
      → IsAccounted (open_other s (log_descriptor s.log o))
  unfolding open_other alive
  open_other-IsAccounted s none e v = record {
    descriptors = λ x. ground (arith, v.descriptors x);
    knows = v.knows;
  }
  open_other-IsAccounted s (some y) e v = record {
    descriptors = λ x. ground (arith, v.descriptors x, sound.new_descriptor s.log y e);
    knows = v.knows;
  }

  poll-IsAccounted :
      (s : Configuration) (w : Wait) → s.thread ≡ polling → IsAccounted s → IsAccounted (poll s w)
  unfolding poll alive
  poll-IsAccounted s (ready ks) at v = record {
    descriptors = λ x. ground (arith, at, v.descriptors x);
    knows = v.knows;
  }
  poll-IsAccounted s interrupted at v = record {
    descriptors = λ x. ground (arith, at, v.descriptors x);
    knows = v.knows;
  }
  poll-IsAccounted s failed at v = record {
    descriptors = λ x. ground (arith, at, v.descriptors x);
    knows = v.knows;
  }

  pub step-IsAccounted :
      (s : Configuration) (m : Move) → Allowed s m → IsAccounted s → IsAccounted (step os s m)
  unfolding step alive
  step-IsAccounted s owner_moves may v = move_owner-IsAccounted sound s s.owner refl v
  step-IsAccounted s thread_moves may v = move_thread-IsAccounted sound s s.thread refl v
  step-IsAccounted s (wakes w) (at, reported) v = poll-IsAccounted s w at v
  step-IsAccounted s (adds k fd) (at, has) v =
      call_add-IsAccounted s k fd s.dispatcher.running at has v
  step-IsAccounted s (removes k) (at, d, e) v = record {
    descriptors = λ x. ground (arith, at, v.descriptors x);
    knows = (d, e);
  }
  step-IsAccounted s stops at v = call_stop-IsAccounted s s.dispatcher.running at v
  step-IsAccounted s opens may v = open_other-IsAccounted s (os.descriptor s.log) refl v
  step-IsAccounted s (closes y) has v = record {
    descriptors = λ x. ground (arith, has, v.descriptors x, v.descriptors y, alive-le s.log y);
    knows = v.knows;
  }

  pub reaches-IsAccounted :
      {s t : Configuration} → IsAccounted s → Reaches os Allowed s t → IsAccounted t
  reaches-IsAccounted v start = v
  reaches-IsAccounted v (next r m may) = step-IsAccounted _ m may (reaches-IsAccounted v r)

  pub started-IsAccounted :
      (epoll event : ℕ) (others : ℕ → ℕ) (l : Log)
      → ((x : ℕ) → alive l x ≡ others x + is x (some epoll) + is x (some event))
      → IsAccounted (started epoll event others l)
  unfolding total
  started-IsAccounted epoll event others l fds = record {
    descriptors = λ x. omega (arith, fds x);
    knows = tt;
  }

  -- However the thread, the methods and the rest of the process interleave from the start of a
  -- dispatcher on, every descriptor that is open is held just once: by other code, by the dispatcher
  -- for a socket that it serves, by the method that runs, or by the thread.
  pub held_once :
      (epoll event : ℕ) (others : ℕ → ℕ) (l : Log) {t : Configuration}
      → ((x : ℕ) → alive l x ≡ others x + is x (some epoll) + is x (some event))
      → Reaches os Allowed (started epoll event others l) t
      → IsAccounted t
  held_once epoll event others l fds =
      reaches-IsAccounted (started-IsAccounted epoll event others l fds)
