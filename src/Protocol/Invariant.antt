-- ===== src/Protocol/Invariant.antt =====
-- The invariant of the block protocol is kept by every step.
mod Defs
mod Moves
pub use Defs.*
pub use Moves.{publisher_step-uid, reader_step-uid, UidFits-current}
use Moves.{
  publisher_step-Whole, publisher_step-Fits, reader_step-Whole, reader_step-Fits, ReaderFits-same,
  UidFits-same,
}
use memfd_buffer_backend.Prelude.{
  ℕ, ◌+◌, ◌*◌, ◌-◌, ◌^◌, ◌≤◌, ◌<◌, ◌≡◌, refl, ◌≢◌, ◌⊎◌, inl, inr, Bool, true, false, Option, none,
  some, arith, get_elem?, set, get_elem?-set_cases, total, total-set, le-total, Option-cases, sym,
  ◌∙◌, List, [], ◌∷◌,
}
use memfd_buffer_backend.Protocol.{
  Memory, Publisher, available, checked, reserved, uid_cleared, stamp_cleared, writing, uid_stored,
  published, Purpose, import, lease, Reader, idle, described, validated, trying, acquired, holding,
  releasing, PublisherAction, ReaderAction, Event, tick, publisher_acts, reader_acts, System,
  publisher_step, reader_step, with_publisher, with_reader, step, run,
}

module _ (uid : ℕ → ℕ) where
  pub Inv-Whole : (s : System) → Inv uid s → Whole uid (total slots s.readers) s.memory s.publisher
  Inv-Whole s v = record {
    counted = v.counted;
    bounded = v.bounded;
    alone = v.alone;
    alone_new = v.alone_new;
    uid_fits = v.uid_fits;
  }

  Whole-Inv :
      (s : System)
      → Whole uid (total slots s.readers) s.memory s.publisher
      → ((i : ℕ) (r : Reader) → get_elem? s.readers i ≡ some r → Fits uid s.memory s.publisher r)
      → Inv uid s
  Whole-Inv s w f = record {
    counted = w.counted;
    bounded = w.bounded;
    alone = w.alone;
    alone_new = w.alone_new;
    uid_fits = w.uid_fits;
    fits = f;
  }

  reader_acts-Inv :
      (s : System) (i : ℕ) (a : ReaderAction) (r : Reader)
      → get_elem? s.readers i ≡ some r
      → Inv uid s
      → Inv uid (with_reader uid s i (reader_step uid s.memory s.publisher r a))
  unfolding with_reader
  reader_acts-Inv s i a r e v =
      Whole-Inv _
        (reader_step-Whole uid _ _ s.memory s.publisher r a (Inv-Whole s v)
          (le-total slots s.readers i e) (v.fits i r e) (total-set slots s.readers i _ e))
        λ j q at. elim (get_elem?-set_cases s.readers i j _ e at) [
          | inl new ↦ rw (← new) (
              reader_step-Fits uid (total slots s.readers) s.memory s.publisher r a (Inv-Whole s v)
                (v.fits i r e))
          | inr old ↦ (
            ReaderFits-same uid s.memory (reader_step uid s.memory s.publisher r a).0 q
                (v.fits j q old).0 (λ _ _. (reader_step-uid uid s.memory s.publisher r a).0),
            (v.fits j q old).1,
          )
        ]

  -- Every step of the publisher, of a reader and of the clock keeps the invariant.
  pub step-Inv : (s : System) (e : Event) → Inv uid s → Inv uid (step uid s e)
  unfolding step
  step-Inv s (tick n) v = record {
    counted = v.counted;
    bounded = v.bounded;
    alone = v.alone;
    alone_new = v.alone_new;
    uid_fits =
        UidFits-same uid s.memory (record s.memory { now = s.memory.now + n }) s.publisher
          v.uid_fits refl refl refl refl refl refl refl;
    fits = v.fits;
  }
  step-Inv s (publisher_acts a) v =
      Whole-Inv _ (publisher_step-Whole uid _ s.memory s.publisher a (Inv-Whole s v)) λ j q at.
        publisher_step-Fits uid _ s.memory s.publisher a q (Inv-Whole s v)
          (le-total slots s.readers j at) (v.fits j q at)
  step-Inv s (reader_acts i a) v = elim (Option-cases (get_elem? s.readers i)) [
    | inl e ↦ rw (e, step) v
    | inr (r, e) ↦ rw (e, step) (reader_acts-Inv s i a r e v)
  ]

  pub run-Inv : (s : System) (es : List Event) → Inv uid s → Inv uid (run uid s es)
  unfolding run
  run-Inv s [] v = v
  run-Inv s (e ∷ es) v = run-Inv (step uid s e) es (step-Inv s e v)
