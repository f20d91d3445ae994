-- ===== src/Linux/Broker/Threads/Clients.antt =====
-- Which descriptor a client of the broker receives while no socket is removed.
use memfd_buffer_backend.Prelude.{
  ℕ, ◌+◌, ◌≡◌, ◌≢◌, ◌≤◌, refl, ap, sym, subst, ◌∙◌, Bool, true, false, List, ◌∷◌, Option, none,
  some, ◌==◌, if◌then◌else◌, arith,
}
use memfd_buffer_backend.Os.{Os, Log, alive, opened, closed, other, IsSound, log_descriptor}
use memfd_buffer_backend.Os.Accounts.{is}
use memfd_buffer_backend.Linux.Broker.{find, Wait, ready, interrupted, failed}
use memfd_buffer_backend.Linux.Broker.Maps.{find-total}
use memfd_buffer_backend.Linux.Broker.Threads.{
  Configuration, Move, free, checking, looking, sending, finished, step, poll, call_add, call_stop,
  open_other, Allowed, Reaches, start, next, started, owner_moves, thread_moves, wakes, adds,
  removes, stops, opens, closes,
}
use memfd_buffer_backend.Linux.Broker.Threads.Accounts.{IsAccounted}
use memfd_buffer_backend.Linux.Broker.Threads.{Calm}
use memfd_buffer_backend.Linux.Broker.Threads.Reached.{step-IsAccounted, started-IsAccounted}
use memfd_buffer_backend.Linux.Broker.Threads.Source.{
  origin, Source, IsSourced, beside-IsSourced, move_thread-IsSourced, origin-opened, new-apart,
}
use memfd_buffer_backend.Linux.Broker.Threads.Origins.{
  move_owner-IsSourced, closed-apart, origin-closed,
}
use memfd_buffer_backend.Linux.Broker.Threads.Sending.{sends_served}
use memfd_buffer_backend.Linux.Broker.Threads.Sending.{Calm-Allowed}

abbrev ask : Move → (ℕ → ℕ) → ℕ → ℕ
ask (adds k fd) a = λ j. if j == k then fd else a j
ask _ a = a

-- The descriptor that `add_socket` was last asked to serve on a socket.
abbrev pub asked :
    {os : Os} {may : Configuration → Move → Type 0} {s t : Configuration}
    → Reaches os may s t
    → ℕ
    → ℕ
asked start = λ j. 0
asked (next r m may) = ask m (asked r)

asked_other : (a : ℕ → ℕ) (k fd j : ℕ) → j ≢ k → ask (adds k fd) a j ≡ a j
asked_other a k fd j ne = ground (arith, ne)

-- A socket that other code holds is not served.
served-apart :
    (s : Configuration) (k j d : ℕ)
    → IsAccounted s
    → 1 ≤ s.others k
    → find s.dispatcher.sockets j ≡ some d
    → j ≢ k
served-apart s k j d c has e =
    closed-apart s j k c (omega (arith, find-total s.dispatcher.sockets j d e)) has

call_add-IsSourced :
    (s : Configuration) (a : ℕ → ℕ) (k fd : ℕ) (b : Bool)
    → s.owner ≡ free
    → 1 ≤ s.others k
    → IsAccounted s
    → IsSourced s a
    → IsSourced (call_add s k fd b) (ask (adds k fd) a)
unfolding call_add
call_add-IsSourced s a k fd false at has c v = record {
  served =
      λ j d e. v.served j d e ∙ ap some (sym (asked_other a k fd j (served-apart s k j d c has e)));
  method = subst (Source (ask (adds k fd) a) s.log) (sym at) tt;
}
call_add-IsSourced s a k fd true at has c v = record {
  served =
      λ j d e. v.served j d e ∙ ap some (sym (asked_other a k fd j (served-apart s k j d c has e)));
  method = ground arith;
}

call_stop-IsSourced :
    (s : Configuration) (a : ℕ → ℕ) (b : Bool) → IsSourced s a → IsSourced (call_stop s b) a
unfolding call_stop
call_stop-IsSourced s a false v = v
call_stop-IsSourced s a true v = record { served = v.served; method = tt }

poll-IsSourced : (s : Configuration) (a : ℕ → ℕ) (w : Wait) → IsSourced s a → IsSourced (poll s w) a
unfolding poll origin
poll-IsSourced s a (ready ks) v =
    beside-IsSourced s a v (looking ks) s.others (other ∷ s.log) (λ x has. refl)
poll-IsSourced s a interrupted v =
    beside-IsSourced s a v checking s.others (other ∷ s.log) (λ x has. refl)
poll-IsSourced s a failed v =
    beside-IsSourced s a v finished s.others (other ∷ s.log) (λ x has. refl)

module _ {os : Os} (sound : IsSound os) where
  open_other-IsSourced :
      (s : Configuration) (a : ℕ → ℕ) (o : Option ℕ)
      → os.descriptor s.log ≡ o
      → IsAccounted s
      → IsSourced s a
      → IsSourced (open_other s (log_descriptor s.log o)) a
  unfolding open_other origin
  open_other-IsSourced s a none e c v =
      beside-IsSourced s a v s.thread _ (other ∷ s.log) (λ x has. refl)
  open_other-IsSourced s a (some y) e c v =
      beside-IsSourced s a v s.thread _ (opened y ∷ s.log)
        (λ x has. origin-opened s.log y x (new-apart s y x c (sound.new_descriptor s.log y e) has))

  step-IsSourced :
      (s : Configuration) (a : ℕ → ℕ) (m : Move)
      → Allowed s m
      → IsAccounted s
      → IsSourced s a
      → IsSourced (step os s m) (ask m a)
  unfolding step
  step-IsSourced s a owner_moves may c v = move_owner-IsSourced sound s a s.owner refl v.method c v
  step-IsSourced s a thread_moves may c v = move_thread-IsSourced sound s a s.thread refl c v
  step-IsSourced s a (wakes w) may c v = poll-IsSourced s a w v
  step-IsSourced s a (adds k fd) (at, has) c v =
      call_add-IsSourced s a k fd s.dispatcher.running at has c v
  step-IsSourced s a (removes k) may c v = record { served = v.served; method = tt }
  step-IsSourced s a stops may c v = call_stop-IsSourced s a s.dispatcher.running v
  step-IsSourced s a opens may c v = open_other-IsSourced s a (os.descriptor s.log) refl c v
  step-IsSourced s a (closes y) has c v =
      beside-IsSourced s a v s.thread _ (closed y ∷ s.log)
        (λ x held_here. origin-closed s.log y x (closed-apart s x y c held_here has))

  reaches-IsSourced :
      {s t : Configuration}
      → IsAccounted s
      → ((k d : ℕ) → find s.dispatcher.sockets k ≡ some d → ⊥)
      → s.owner ≡ free
      → (r : Reaches os Calm s t) → IsAccounted t × IsSourced t (asked r)
  reaches-IsSourced c empty at start = (
    c,
    record { served = λ k d e. absurd (empty k d e); method = subst (Source _ _) (sym at) tt },
  )
  reaches-IsSourced c empty at (next {t} r m may) =
      let (b, v) = reaches-IsSourced c empty at r in
      let allowed = Calm-Allowed t m may in
      (step-IsAccounted sound t m allowed b, step-IsSourced t (asked r) m allowed b v)

  -- Where no socket is removed, the descriptor that the thread is about to send to a client of the
  -- socket `k` is open, no other code has it, and it is a duplicate of the descriptor that
  -- `add_socket` was last asked to serve on `k`.
  pub sends_asked :
      (epoll event : ℕ) (others : ℕ → ℕ) (l : Log) {t : Configuration} (k c d : ℕ) (ks : List ℕ)
      → ((x : ℕ) → alive l x ≡ others x + is x (some epoll) + is x (some event))
      → (r : Reaches os Calm (started epoll event others l) t) → t.thread ≡ sending k c d ks
      → (origin t.log d ≡ some (asked r k)) × (alive t.log d ≡ 1) × (t.others d ≡ 0)
  unfolding find
  sends_asked epoll event others l {t} k c d ks fds r at =
      let (found, open_there, alone) = sends_served sound epoll event others l k c d ks fds r at in
      let (b, v) =
        reaches-IsSourced (started-IsAccounted sound epoll event others l fds) (λ j y e. cc) refl
          r in
      (v.served k d found, open_there, alone)
