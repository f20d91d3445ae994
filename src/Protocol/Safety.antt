-- ===== src/Protocol/Safety.antt =====
-- What holds of a block in every order of the accesses of its publisher and its readers.
use memfd_buffer_backend.Prelude.{
  ℕ, ◌+◌, ◌*◌, ◌^◌, ◌%◌, ◌≤◌, ◌<◌, ◌≡◌, refl, sym, ◌∙◌, ◌≢◌, true, false, List, [], ◌∷◌, ap, ◌⊎◌,
  Bool-cases, ℕ_discrete, some, Option-cases, inl, inr, arith, get_elem?, total, le-total,
  get_elem?-set, replicate, get_elem?-replicate, total-replicate_zero,
}
use memfd_buffer_backend.Protocol.{
  Memory, Publisher, reserved, import, Reader, idle, holding, ReaderAction, drop, Event, tick,
  publisher_acts, reader_acts, System, reader_step, publisher_step, with_publisher, with_reader,
  step, run, created,
}
use memfd_buffer_backend.Protocol.Invariant.{
  slots, claims, Inv, Inv-Whole, step-Inv, run-Inv, publisher_step-uid, reader_step-uid,
  UidFits-current,
}

created-Inv : (uid : ℕ → ℕ) (now n : ℕ) → Inv uid (created now (replicate n idle))
created-Inv uid now n = record {
  counted = omega (arith, total-replicate_zero slots n idle refl);
  bounded = omega (arith, total-replicate_zero slots n idle refl);
  alone = λ _. total-replicate_zero slots n idle refl;
  alone_new = λ _. total-replicate_zero slots n idle refl;
  uid_fits = refl;
  fits = λ i r at. ground (arith, get_elem?-replicate n idle i r at);
}

-- A state that the block can be in, with `n` readers.
abbrev pub reached : (ℕ → ℕ) → ℕ → ℕ → List Event → System
reached uid now n es = run uid (created now (replicate n idle)) es

reached-Inv : (uid : ℕ → ℕ) (now n : ℕ) (es : List Event) → Inv uid (reached uid now n es)
reached-Inv uid now n es = run-Inv uid _ es (created-Inv uid now n)

claims_le : (p : Publisher) → claims p ≤ 1
claims_le (reserved true) = omega arith
claims_le (reserved false) = omega arith
claims_le p = ground arith

-- In every reachable state `reader_state` is the number of occupied slots, which stays below
-- 2 ^ 31, plus 2 ^ 31 exactly while the publisher has claimed the block.
pub reader_state_counts :
    (uid : ℕ → ℕ) (now n : ℕ) (es : List Event)
    → let s = reached uid now n es in
      (s.memory.reader_state % 2 ^ 31 ≡ total slots s.readers)
      × (total slots s.readers < 2 ^ 31)
      × (s.memory.reader_state ≡ total slots s.readers + claims s.publisher * 2 ^ 31)
reader_state_counts uid now n es =
    let v = reached-Inv uid now n es in
    (grind (arith, claims_le (reached uid now n es).publisher), v.bounded, v.counted)

-- In every reachable state in which the publisher has claimed the block for reuse, no reader
-- occupies a slot.
pub claim_excludes_readers :
    (uid : ℕ → ℕ) (now n : ℕ) (es : List Event)
    → let s = reached uid now n es in
      claims s.publisher ≡ 1 → (i : ℕ) (r : Reader) → get_elem? s.readers i ≡ some r → slots r ≡ 0
claim_excludes_readers uid now n es claimed i r at =
    let v = reached-Inv uid now n es in omega (arith, v.alone claimed, le-total slots _ i at)

-- In every reachable state a reader that holds the block for the descriptor of generation `g` finds
-- the uid of the descriptor in it; it finds generation `g` there if no other generation up to the
-- current one drew the same uid; and the payload is as it stood when the block was last marked
-- published, unless the write state was not finalized then or a write handle was left.
pub holding_sees_published :
    (uid : ℕ → ℕ) (now n : ℕ) (es : List Event)
    → let s = reached uid now n es in
      (i g : ℕ)
      → get_elem? s.readers i ≡ some (holding (import g))
      → ((h : ℕ) → h ≤ s.memory.generation → uid h ≡ uid g → h ≡ g)
      → (s.memory.generation ≡ g)
        × (s.memory.ipc_uid ≡ uid g)
        × ((s.memory.closed ≡ false) ⊎ (s.memory.payload ≡ s.memory.sealed))
holding_sees_published uid now n es i g at differ =
    let s = reached uid now n es in
    let v = reached-Inv uid now n es in
    let (set_uid, same) = (v.fits i _ at).0 in
    let (current, payload) =
      UidFits-current uid s.memory s.publisher v.uid_fits (λ e. set_uid (sym same ∙ e)) in
    (
      differ s.memory.generation (omega arith) (sym current ∙ same),
      same,
      elim payload [ inl open_state ↦ inl open_state | inr (_, kept, _, _) ↦ inr kept ],
    )

-- The event is not the release of reader `i`.
abbrev Spares : ℕ → Event → Type 0
Spares i (reader_acts j drop) = i ≢ j
Spares i _ = Unit

abbrev AllSpare : ℕ → List Event → Type 0
AllSpare i [] = Unit
AllSpare i (e ∷ es) = Spares i e × AllSpare i es

-- Reader `i` holds the block for generation `g`, and finds the contents of `m`, the payload
-- included where the write state was closed.
record Holds (i g : ℕ) (m : Memory) (s : System) : Type 0 where
  at : get_elem? s.readers i ≡ some (holding (import g))
  same_uid : s.memory.ipc_uid ≡ m.ipc_uid
  same_payload : (m.closed ≡ false) ⊎ ((s.memory.payload ≡ m.payload) × (s.memory.closed ≡ true))
  same_generation : s.memory.generation ≡ m.generation

same_payload_then :
    (m k l : Memory)
    → (k.closed ≡ true → l.payload ≡ k.payload)
    → (k.closed ≡ true → l.closed ≡ true)
    → (m.closed ≡ false) ⊎ ((k.payload ≡ m.payload) × (k.closed ≡ true))
    → (m.closed ≡ false) ⊎ ((l.payload ≡ m.payload) × (l.closed ≡ true))
same_payload_then m k l p c (inl e) = inl e
same_payload_then m k l p c (inr (e, f)) = inr (p f ∙ e, c f)

initial_payload : (m : Memory) → (m.closed ≡ false) ⊎ ((m.payload ≡ m.payload) × (m.closed ≡ true))
initial_payload m = elim (Bool-cases m.closed) [ inl e ↦ inr (refl, e) | inr e ↦ inl e ]

module _ (uid : ℕ → ℕ) where
  reader_step-holding :
      (i g j : ℕ) (m : Memory) (p : Publisher) (a : ReaderAction)
      → i ≡ j
      → Spares i (reader_acts j a)
      → (reader_step uid m p (holding (import g)) a).1 ≡ holding (import g)
  unfolding reader_step
  reader_step-holding i g j m p drop same spares = absurd (spares same)
  reader_step-holding i g j m p a same spares = ground arith

  reader_acts-Holds :
      (i g : ℕ) (m : Memory) (s : System) (j : ℕ) (a : ReaderAction) (r : Reader)
      → get_elem? s.readers j ≡ some r
      → Holds i g m s
      → Spares i (reader_acts j a)
      → Holds i g m (with_reader uid s j (reader_step uid s.memory s.publisher r a))
  unfolding with_reader
  reader_acts-Holds i g m s j a r e h spares =
      let (u, p, k, c) = reader_step-uid uid s.memory s.publisher r a in
      record {
        at =
            rw (get_elem?-set s.readers j i (reader_step uid s.memory s.publisher r a).1 e)
              (elim (ℕ_discrete j i) [
                | yes same ↦ ground (
                  arith,
                  ap (get_elem? s.readers) same,
                  reader_step-holding i g j s.memory s.publisher a (sym same) spares,
                )
                | no other ↦ ground (arith, h.at)
              ]);
        same_uid = u ∙ h.same_uid;
        same_payload =
            same_payload_then m s.memory (reader_step uid s.memory s.publisher r a).0 (λ _. p)
              (λ e. c ∙ e) h.same_payload;
        same_generation = k ∙ h.same_generation;
      }

  step-Holds :
      (i g : ℕ) (m : Memory) (s : System) (e : Event)
      → Inv uid s
      → Holds i g m s
      → Spares i e
      → Holds i g m (step uid s e)
  unfolding step with_publisher
  step-Holds i g m s (tick k) v h spares = record {
    at = h.at;
    same_uid = h.same_uid;
    same_payload = h.same_payload;
    same_generation = h.same_generation;
  }
  step-Holds i g m s (publisher_acts a) v h spares =
      let (set_uid, same) = (v.fits i _ h.at).0 in
      let (u, k, p) =
        publisher_step-uid uid _ s.memory s.publisher a (Inv-Whole uid s v)
          (le-total slots s.readers i h.at) (λ e. set_uid (sym same ∙ e)) in
      record {
        at = h.at;
        same_uid = u ∙ h.same_uid;
        same_payload =
            same_payload_then m s.memory (publisher_step uid s.memory s.publisher a).0
              (λ e. (p e).0) (λ e. (p e).1) h.same_payload;
        same_generation = k ∙ h.same_generation;
      }
  step-Holds i g m s (reader_acts j a) v h spares = elim (Option-cases (get_elem? s.readers j)) [
    | inl e ↦ rw (e, step) h
    | inr (r, e) ↦ rw (e, step) (reader_acts-Holds i g m s j a r e h spares)
  ]

  run-Holds :
      (i g : ℕ) (m : Memory) (s : System) (es : List Event)
      → Inv uid s
      → Holds i g m s
      → AllSpare i es
      → Holds i g m (run uid s es)
  unfolding run
  run-Holds i g m s [] v h spares = h
  run-Holds i g m s (e ∷ es) v h spares =
      run-Holds i g m (step uid s e) es (step-Inv uid s e v) (step-Holds i g m s e v h spares.0)
        spares.1

-- From every reachable state in which a reader holds the block for a descriptor, whatever the
-- others do until that reader lets go, it still holds the block, and the uid and the generation have
-- not changed, nor has the payload unless the write state was not finalized when the block was last
-- marked published, or a write handle was left then.
pub holding_is_stable :
    (uid : ℕ → ℕ) (now n : ℕ) (es later : List Event)
    → let s = reached uid now n es in
      let t = run uid s later in
      (i g : ℕ)
      → get_elem? s.readers i ≡ some (holding (import g))
      → AllSpare i later
      → (get_elem? t.readers i ≡ some (holding (import g)))
        × (t.memory.ipc_uid ≡ s.memory.ipc_uid)
        × ((s.memory.closed ≡ false) ⊎ (t.memory.payload ≡ s.memory.payload))
        × (t.memory.generation ≡ s.memory.generation)
holding_is_stable uid now n es later i g at spares =
    let s = reached uid now n es in
    let h =
      run-Holds uid i g s.memory s later (reached-Inv uid now n es)
        (record {
          at = at;
          same_uid = refl;
          same_payload = initial_payload s.memory;
          same_generation = refl;
        })
        spares in
    (
      h.at,
      h.same_uid,
      elim h.same_payload [ inl open_state ↦ inl open_state | inr (kept, _) ↦ inr kept ],
      h.same_generation,
    )
