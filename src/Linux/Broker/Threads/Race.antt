-- ===== src/Linux/Broker/Threads/Race.antt =====
-- `remove_socket` between the lookup of `run` and its `send_fd`.
use memfd_buffer_backend.Prelude.{ℕ, ◌≡◌, ◌≤◌, refl, List, ◌∷◌, some, arith}
use memfd_buffer_backend.Os.{Os, alive, sent, opened}
use memfd_buffer_backend.Linux.Broker.{find, close_found}
use memfd_buffer_backend.Linux.Broker.Threads.{
  Configuration, free, sending, step, move_owner, find_served, open_other, Allowed, Reaches, next,
  owner_moves, thread_moves, removes, opens, move_thread,
}

-- `remove_socket`, called and run to its end while the thread does not move.
abbrev pub removal : Os → Configuration → ℕ → Configuration
removal os s k =
    step os
      (step os (step os (step os (step os s (removes k)) owner_moves) owner_moves) owner_moves)
      owner_moves

module _ (os : Os) where
  removal-Reaches :
      {s t : Configuration} (k d : ℕ)
      → Reaches os Allowed s t
      → t.owner ≡ free
      → find t.dispatcher.sockets k ≡ some d
      → Reaches os Allowed s (removal os t k)
  removal-Reaches k d r at e =
      next
        (next (next (next (next r (removes k) (at, d, e)) owner_moves tt) owner_moves tt)
          owner_moves tt)
        owner_moves tt

  removal-closes :
      (t : Configuration) (k c d : ℕ) (ks : List ℕ)
      → t.thread ≡ sending k c d ks
      → find t.dispatcher.sockets k ≡ some d
      → let t' = removal os t k in
        (t'.thread ≡ sending k c d ks) × (t'.owner ≡ free) × (alive t'.log d ≡ 0)
  unfolding step move_owner find_served alive close_found
  removal-closes t k c d ks at e = rw (e, step) (at, refl, ground arith)

  opens-sends :
      (s : Configuration) (k c d : ℕ) (ks : List ℕ)
      → s.thread ≡ sending k c d ks
      → os.descriptor s.log ≡ some d
      → let u = step os (step os s opens) thread_moves in
        (1 ≤ u.others d) × (u.log ≡ sent c d ∷ opened d ∷ s.log)
  unfolding step open_other move_thread
  opens-sends s k c d ks at e = rw (e, at, step) (ground arith, refl)

  -- `remove_socket` may run between the lookup of a descriptor and its sending: the thread is then
  -- about to send a descriptor that is closed, and where the system gives its number to the next
  -- descriptor that the process opens, it sends that one, which other code has opened.
  pub sends_closed :
      {s t : Configuration} (k c d : ℕ) (ks : List ℕ)
      → Reaches os Allowed s t
      → t.thread ≡ sending k c d ks
      → t.owner ≡ free
      → find t.dispatcher.sockets k ≡ some d
      → os.descriptor (removal os t k).log ≡ some d
      → let t' = removal os t k in
        let u = step os (step os t' opens) thread_moves in
        Reaches os Allowed s u
        × (alive t'.log d ≡ 0)
        × (t'.thread ≡ sending k c d ks)
        × (1 ≤ u.others d)
        × (u.log ≡ sent c d ∷ opened d ∷ t'.log)
  sends_closed {s} {t} k c d ks r at o e again =
      let (at', o', gone) = removal-closes t k c d ks at e in
      let (has, log) = opens-sends (removal os t k) k c d ks at' again in
      (next (next (removal-Reaches k d r o e) opens tt) thread_moves tt, gone, at', has, log)
