-- ===== src/Linux/Broker/Threads/Accounts.antt =====
-- Which descriptors are open while the dispatcher's thread and the methods of the broker interleave.
use memfd_buffer_backend.Prelude.{
  ℕ, ◌+◌, ◌≡◌, if◌then◌else◌, refl, Bool, true, false, List, [], ◌∷◌, Option, none, some, arith,
  inl, inr, Bool-cases,
}
use memfd_buffer_backend.Os.{Os, alive, other, IsSound, alive-le, log_descriptor}
use memfd_buffer_backend.Os.Accounts.{is}
use memfd_buffer_backend.Linux.Broker.{find, is_event_fd}
use memfd_buffer_backend.Linux.Broker.Descriptors.{held}
use memfd_buffer_backend.Linux.Broker.Threads.{
  Owner, Thread, Configuration, duplicating, inserting, watching, erasing, dropping, finding,
  unwatching, closing, closing_served, checking, polling, looking, accepting, sending, hanging_up,
  finished, move_thread, looked_up, look_up, accepted,
}

-- How often a method, or the thread, holds the descriptor `x` itself.
abbrev pub owned : Owner → ℕ → ℕ
owned (duplicating s fd) x = is x (some s)
owned (inserting s d) x = is x (some s) + is x (some d)
owned (dropping s d) x = is x (some s) + is x (some d)
owned (unwatching s o) x = is x (some s) + is x o
owned (closing s o) x = is x (some s) + is x o
owned (closing_served o) x = is x o
owned _ x = 0

abbrev pub client_of : Thread → ℕ → ℕ
client_of (sending s client d ks) x = is x (some client)
client_of (hanging_up client ks) x = is x (some client)
client_of _ x = 0

-- What a method knows of the map.
abbrev pub Knows : List (ℕ × ℕ) → Owner → Type 0
Knows m (watching s d) = find m s ≡ some d
Knows m (erasing s d) = find m s ≡ some d
Knows m (finding s) = (d : ℕ) × (find m s ≡ some d)
Knows m _ = Unit

-- Every open descriptor is held once: by other code, the dispatcher, its method or its thread.
pub record IsAccounted (s : Configuration) : Type 0 where
  pub descriptors :
      (x : ℕ)
      → alive s.log x ≡ s.others x + held s.dispatcher x + owned s.owner x + client_of s.thread x
  pub knows : Knows s.dispatcher.sockets s.owner

looked_up-IsAccounted :
    (s : Configuration) (k : ℕ) (ks : List ℕ) (o : Option ℕ)
    → s.thread ≡ looking (k ∷ ks)
    → IsAccounted s
    → IsAccounted (looked_up s k ks o)
unfolding looked_up
looked_up-IsAccounted s k ks none at v = record {
  descriptors = λ x. ground (arith, at, v.descriptors x);
  knows = v.knows;
}
looked_up-IsAccounted s k ks (some d) at v = record {
  descriptors = λ x. ground (arith, at, v.descriptors x);
  knows = v.knows;
}

look_up-IsAccounted :
    (s : Configuration) (k : ℕ) (ks : List ℕ) (b : Bool)
    → s.thread ≡ looking (k ∷ ks)
    → IsAccounted s
    → IsAccounted (
        if b
        then record s { thread = looking ks; log = other ∷ s.log }
        else looked_up s k ks (find s.dispatcher.sockets k))
unfolding alive
look_up-IsAccounted s k ks true at v = record {
  descriptors = λ x. ground (arith, at, v.descriptors x);
  knows = v.knows;
}
look_up-IsAccounted s k ks false at v =
    looked_up-IsAccounted s k ks (find s.dispatcher.sockets k) at v

module _ {os : Os} (sound : IsSound os) where
  accepted-IsAccounted :
      (s : Configuration) (k d : ℕ) (ks : List ℕ) (o : Option ℕ)
      → s.thread ≡ accepting k d ks
      → os.descriptor s.log ≡ o
      → IsAccounted s
      → IsAccounted (accepted s k d ks (log_descriptor s.log o))
  unfolding accepted alive
  accepted-IsAccounted s k d ks none at e v = record {
    descriptors = λ x. ground (arith, at, v.descriptors x);
    knows = v.knows;
  }
  accepted-IsAccounted s k d ks (some c) at e v = record {
    descriptors = λ x. ground (arith, at, v.descriptors x, sound.new_descriptor s.log c e);
    knows = v.knows;
  }

  pub move_thread-IsAccounted :
      (s : Configuration) (p : Thread)
      → s.thread ≡ p
      → IsAccounted s
      → IsAccounted (move_thread os s p)
  unfolding move_thread look_up alive
  move_thread-IsAccounted s checking at v = elim (Bool-cases s.dispatcher.running) [
    | inl on ↦
        rw (move_thread, on)
          (record { descriptors = λ x. ground (arith, at, v.descriptors x); knows = v.knows })
    | inr off ↦
        rw (move_thread, off)
          (record { descriptors = λ x. ground (arith, at, v.descriptors x); knows = v.knows })
  ]
  move_thread-IsAccounted s polling at v = v
  move_thread-IsAccounted s (looking []) at v = record {
    descriptors = λ x. ground (arith, at, v.descriptors x);
    knows = v.knows;
  }
  move_thread-IsAccounted s (looking (k ∷ ks)) at v =
      look_up-IsAccounted s k ks (is_event_fd s.dispatcher.event_fd k) at v
  move_thread-IsAccounted s (accepting k d ks) at v =
      accepted-IsAccounted s k d ks (os.descriptor s.log) at refl v
  move_thread-IsAccounted s (sending k c d ks) at v = record {
    descriptors = λ x. ground (arith, at, v.descriptors x);
    knows = v.knows;
  }
  move_thread-IsAccounted s (hanging_up c ks) at v = record {
    descriptors = λ x. ground (arith, at, v.descriptors x, v.descriptors c, alive-le s.log c);
    knows = v.knows;
  }
  move_thread-IsAccounted s finished at v = v
