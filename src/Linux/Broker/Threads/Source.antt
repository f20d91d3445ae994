-- ===== src/Linux/Broker/Threads/Source.antt =====
-- Where the descriptors that the dispatcher serves come from.
use memfd_buffer_backend.Prelude.{
  ℕ, ◌+◌, ◌≡◌, ◌≢◌, ◌≤◌, refl, ap, sym, ◌∙◌, Bool, true, false, List, [], ◌∷◌, Option, none, some,
  ◌==◌, if◌then◌else◌, arith, total, ℕ_discrete,
}
use memfd_buffer_backend.Os.{
  Os, Log, alive, opened, duplicated, closed, mapped, unmapped, bound, sent, unlinked, other,
  IsSound, alive-le, log_descriptor,
}
use memfd_buffer_backend.Linux.Broker.{find, erase, insert, is_event_fd, log_dup}
use memfd_buffer_backend.Linux.Broker.Maps.{
  pair_of, total-erase, find-insert_self, find-insert_other, find-erase_other, find-total,
  find-held,
}
use memfd_buffer_backend.Linux.Broker.Threads.{
  Owner, Thread, Configuration, free, duplicating, inserting, watching, erasing, dropping, finding,
  unwatching, closing, closing_served, waking, joining, clearing, closing_event, closing_epoll,
  checking, polling, looking, accepting, sending, hanging_up, finished, move_owner, move_thread,
  duplicated_as, looked_up, look_up, accepted,
}
use memfd_buffer_backend.Linux.Broker.Threads.Accounts.{owned, IsAccounted}

-- The descriptor that `x` was last duplicated from, if it was.
unfoldable pub origin : Log → ℕ → Option ℕ
origin [] x = none
origin (opened y ∷ l) x = if x == y then none else origin l x
origin (duplicated y z ∷ l) x = if x == z then some y else origin l x
origin (closed y ∷ l) x = if x == y then none else origin l x
origin (mapped y ∷ l) x = origin l x
origin (unmapped y ∷ l) x = origin l x
origin (bound y p ∷ l) x = origin l x
origin (sent y z ∷ l) x = origin l x
origin (unlinked s ∷ l) x = origin l x
origin (other ∷ l) x = origin l x

abbrev pub Source : (ℕ → ℕ) → Log → Owner → Type 0
Source asked l (duplicating k fd) = asked k ≡ fd
Source asked l (inserting k d) = origin l d ≡ some (asked k)
Source asked l _ = Unit

-- What is served on a socket is a duplicate of what `add_socket` was last asked to serve on it.
pub record IsSourced (s : Configuration) (asked : ℕ → ℕ) : Type 0 where
  pub served : (k d : ℕ) → find s.dispatcher.sockets k ≡ some d → origin s.log d ≡ some (asked k)
  pub method : Source asked s.log s.owner

Source-keep :
    (asked : ℕ → ℕ) (l k : Log) (o : Owner)
    → ((x : ℕ) → 1 ≤ owned o x → origin k x ≡ origin l x)
    → Source asked l o
    → Source asked k o
Source-keep a l k free keeps v = tt
Source-keep a l k (duplicating s fd) keeps v = v
Source-keep a l k (inserting s d) keeps v = keeps d (ground arith) ∙ v
Source-keep a l k (watching s d) keeps v = tt
Source-keep a l k (erasing s d) keeps v = tt
Source-keep a l k (dropping s d) keeps v = tt
Source-keep a l k (finding s) keeps v = tt
Source-keep a l k (unwatching s o) keeps v = tt
Source-keep a l k (closing s o) keeps v = tt
Source-keep a l k (closing_served o) keeps v = tt
Source-keep a l k waking keeps v = tt
Source-keep a l k joining keeps v = tt
Source-keep a l k clearing keeps v = tt
Source-keep a l k closing_event keeps v = tt
Source-keep a l k closing_epoll keeps v = tt

module _ (s : Configuration) (asked : ℕ → ℕ) (v : IsSourced s asked) where
  -- Calls that open or close nothing that the dispatcher holds.
  pub served-keep :
      (l : Log)
      → ((x : ℕ) → 1 ≤ total (pair_of x) s.dispatcher.sockets → origin l x ≡ origin s.log x)
      → (k d : ℕ) → find s.dispatcher.sockets k ≡ some d
      → origin l d ≡ some (asked k)
  served-keep l keeps k d e = keeps d (find-held s.dispatcher.sockets k d e) ∙ v.served k d e

  -- The same beside a method.
  pub beside-IsSourced :
      (p : Thread) (f : ℕ → ℕ) (l : Log)
      → ((x : ℕ)
          → 1 ≤ total (pair_of x) s.dispatcher.sockets + owned s.owner x
          → origin l x ≡ origin s.log x)
      → IsSourced (record s { thread = p; others = f; log = l }) asked
  beside-IsSourced p f l keeps = record {
    served = served-keep l (λ x has. keeps x (omega (arith, has)));
    method = Source-keep asked s.log l s.owner (λ x has. keeps x (omega (arith, has))) v.method;
  }

pub origin-opened : (l : Log) (y x : ℕ) → x ≢ y → origin (opened y ∷ l) x ≡ origin l x
unfolding origin
origin-opened l y x ne = ground (arith, ne)

origin-duplicated : (l : Log) (y z x : ℕ) → x ≢ z → origin (duplicated y z ∷ l) x ≡ origin l x
unfolding origin
origin-duplicated l y z x ne = ground (arith, ne)

-- A descriptor that is not open is none that is held.
pub new-apart :
    (s : Configuration) (y x : ℕ)
    → IsAccounted s
    → alive s.log y ≡ 0
    → 1 ≤ total (pair_of x) s.dispatcher.sockets + owned s.owner x
    → x ≢ y
new-apart s y x c new has e =
    let gone : alive s.log x ≡ 0 = ap (alive s.log) e ∙ new in
    omega (arith, gone, has, c.descriptors x)

looked_up-IsSourced :
    (s : Configuration) (asked : ℕ → ℕ) (k : ℕ) (ks : List ℕ) (o : Option ℕ)
    → IsSourced s asked
    → IsSourced (looked_up s k ks o) asked
unfolding looked_up
looked_up-IsSourced s a k ks none v = record { served = v.served; method = v.method }
looked_up-IsSourced s a k ks (some d) v = record { served = v.served; method = v.method }

look_up-IsSourced :
    (s : Configuration) (asked : ℕ → ℕ) (k : ℕ) (ks : List ℕ) (b : Bool)
    → IsSourced s asked
    → IsSourced
        (if b
          then record s { thread = looking ks; log = other ∷ s.log }
          else looked_up s k ks (find s.dispatcher.sockets k))
        asked
unfolding origin
look_up-IsSourced s a k ks true v =
    beside-IsSourced s a v (looking ks) s.others (other ∷ s.log) (λ x has. refl)
look_up-IsSourced s a k ks false v = looked_up-IsSourced s a k ks (find s.dispatcher.sockets k) v

module _ {os : Os} (sound : IsSound os) where
  accepted-IsSourced :
      (s : Configuration) (asked : ℕ → ℕ) (k d : ℕ) (ks : List ℕ) (o : Option ℕ)
      → os.descriptor s.log ≡ o
      → IsAccounted s
      → IsSourced s asked
      → IsSourced (accepted s k d ks (log_descriptor s.log o)) asked
  unfolding accepted origin
  accepted-IsSourced s a k d ks none e c v =
      beside-IsSourced s a v (looking ks) s.others (other ∷ s.log) (λ x has. refl)
  accepted-IsSourced s a k d ks (some y) e c v =
      beside-IsSourced s a v (sending k y d ks) s.others (opened y ∷ s.log) (λ x has.
        origin-opened s.log y x
          (new-apart s y x c (sound.new_descriptor s.log y e) (omega (arith, has))))

  pub move_thread-IsSourced :
      (s : Configuration) (asked : ℕ → ℕ) (p : Thread)
      → s.thread ≡ p
      → IsAccounted s
      → IsSourced s asked
      → IsSourced (move_thread os s p) asked
  unfolding move_thread look_up origin
  move_thread-IsSourced s a checking at c v =
      beside-IsSourced s a v _ s.others s.log (λ x has. refl)
  move_thread-IsSourced s a polling at c v = v
  move_thread-IsSourced s a (looking []) at c v =
      beside-IsSourced s a v checking s.others s.log (λ x has. refl)
  move_thread-IsSourced s a (looking (k ∷ ks)) at c v =
      look_up-IsSourced s a k ks (is_event_fd s.dispatcher.event_fd k) v
  move_thread-IsSourced s a (accepting k d ks) at c v =
      accepted-IsSourced s a k d ks (os.descriptor s.log) refl c v
  move_thread-IsSourced s a (sending k y d ks) at c v =
      beside-IsSourced s a v (hanging_up y ks) s.others (sent y d ∷ s.log) (λ x has. refl)
  move_thread-IsSourced s a (hanging_up y ks) at c v =
      beside-IsSourced s a v (looking ks) s.others (closed y ∷ s.log)
        (λ x has. ground (arith, has, at, c.descriptors x, alive-le s.log x))
  move_thread-IsSourced s a finished at c v = v

  pub duplicated_as-IsSourced :
      (s : Configuration) (asked : ℕ → ℕ) (k fd : ℕ) (o : Option ℕ)
      → asked k ≡ fd
      → os.descriptor s.log ≡ o
      → IsAccounted s
      → IsSourced s asked
      → IsSourced (duplicated_as s k (log_dup fd s.log o)) asked
  unfolding duplicated_as origin
  duplicated_as-IsSourced s a k fd none same e c v = record { served = v.served; method = tt }
  duplicated_as-IsSourced s a k fd (some y) same e c v = record {
    served = served-keep s a v (duplicated fd y ∷ s.log) (λ x has.
        origin-duplicated s.log fd y x
          (new-apart s y x c (sound.new_descriptor s.log y e) (omega (arith, has))));
    method = ground (arith, same);
  }

pub inserted-IsSourced :
    (os : Os) (s : Configuration) (asked : ℕ → ℕ) (k d : ℕ)
    → origin s.log d ≡ some (asked k)
    → IsSourced s asked
    → IsSourced (move_owner os s (inserting k d)) asked
unfolding move_owner origin
inserted-IsSourced os s a k d from v = record {
  served = λ j c e. elim (ℕ_discrete k j) [
    | yes same ↦
        let there = find-insert_self s.dispatcher.sockets k d in
        let found : find (insert s.dispatcher.sockets k d) k ≡ some c =
          ap (find (insert s.dispatcher.sockets k d)) same ∙ e in
        let taken : d ≡ c = cc in ap (origin s.log) (sym taken) ∙ from ∙ ap (λ i. some (a i)) same
    | no other_key ↦ v.served j c (sym (find-insert_other s.dispatcher.sockets k d j other_key) ∙ e)
  ];
  method = tt;
}

-- What is found after a removal was found before.
pub find-erased :
    (s : Configuration) (k d j c : ℕ)
    → IsAccounted s
    → find s.dispatcher.sockets k ≡ some d
    → find (erase s.dispatcher.sockets k) j ≡ some c
    → find s.dispatcher.sockets j ≡ some c
find-erased s k d j c v at e = elim (ℕ_discrete k j) [
  | no other_key ↦ sym (find-erase_other s.dispatcher.sockets k j other_key) ∙ e
  | yes same ↦
      let sum = total-erase (pair_of k) s.dispatcher.sockets k d at in
      let again : find (erase s.dispatcher.sockets k) k ≡ some c =
        ap (find (erase s.dispatcher.sockets k)) same ∙ e in
      let twice = find-total (erase s.dispatcher.sockets k) k c again in
      let self : 1 ≤ pair_of k (k, d) = ground arith in
      absurd (omega (arith, sum, twice, self, v.descriptors k, alive-le s.log k))
]
