-- ===== src/Pool/Consistency/Methods.antt =====
-- Every method of the pool keeps it consistent.
use memfd_buffer_backend.Prelude.{
  ℕ, ◌+◌, ◌-◌, ◌%◌, ◌^◌, ltb, ◌<◌, ◌≡◌, refl, ap, ◌∙◌, inl, inr, true, Option, none, some, arith,
  ◌==◌, ℕ_discrete, length, get_elem?, set, Bool-cases, set-append_last, get_elem?-append_length,
}
use memfd_buffer_backend.Errors.{Result, ok, err}
use memfd_buffer_backend.Header.{ControlHeader, new_header, payload_offset}
use memfd_buffer_backend.Pool.{
  PlatformMapping, Block, Host, Pool, update, candidates_of, bucket_of, non_zero_uid, reset_header,
  reserve, reserve_created, take_candidate, block_at, add_block, create_block, claim_first,
  allocate,
}
use memfd_buffer_backend.Pool.Vector.{swap_remove}
use memfd_buffer_backend.Pool.Claims.{
  SameBlocks, SameLayout, SameLayout-trans, FoundIn, claim_first-SameBlocks, claim_first-layout,
  claim_first-FoundIn,
}
use memfd_buffer_backend.Pool.Consistency.Defs.{IsApart, IsShaped, IsConsistent, MapsApart}
use memfd_buffer_backend.Pool.Consistency.Moves.{
  Follows-IsConsistent, SameBlocks-IsConsistent, set-Follows, taken_ledger, taken-kept,
}
use memfd_buffer_backend.Pool.Consistency.Additions.{added-IsConsistent}

module _ (host : Host) where
  -- The block that a call of `allocate` hands out.
  abbrev pub reserved_block : Pool → Block → Block
  reserved_block p b = record b { in_use = true; current_uid = non_zero_uid (host.draw p.drawn) }

  abbrev pub reserved_pool : Pool → ℕ → Block → ℕ → Pool
  reserved_pool p i b a = record p {
    all_blocks = set p.all_blocks i (reserved_block p b);
    drawn = p.drawn + 1;
    headers = update p.headers a (reset_header (p.headers a));
  }

  pub reserve_lem :
      (p : Pool) (i : ℕ) (b : Block) (a : ℕ)
      → get_elem? p.all_blocks i ≡ some b
      → b.control ≡ some a
      → reserve host p i ≡ reserved_pool p i b a
  unfolding reserve
  reserve_lem p i b a at e = ground arith

  reset-layout :
      (h : ℕ → ControlHeader) (a x : ℕ) → SameLayout (h x) (update h a (reset_header (h a)) x)
  unfolding reset_header
  reset-layout h a x = elim (ℕ_discrete a x) [
    | yes e ↦ ground (arith, ap h e)
    | no e ↦ ground arith
  ]

  reserved-IsConsistent :
      (p q : Pool) (size k i a : ℕ) (b : Block)
      → IsConsistent p
      → SameBlocks p q
      → ((x : ℕ) → SameLayout (p.headers x) (q.headers x))
      → get_elem? (candidates_of (p.free_blocks size)) k ≡ some i
      → get_elem? p.all_blocks i ≡ some b
      → IsConsistent (
          reserved_pool
            (record q {
              free_blocks =
                  update q.free_blocks size
                    (bucket_of (swap_remove (candidates_of (p.free_blocks size)) k));
            })
            i
            b
            a)
  reserved-IsConsistent p q size k i a b v s l cand at =
      Follows-IsConsistent
        (set-Follows p _ i b (reserved_block q b) at
          (ap (λ bs. set bs i (reserved_block q b)) s.same_blocks)
          (record {
            same_mapping = refl;
            same_mapped = refl;
            same_payload = refl;
            same_control = refl;
          })
          λ x. SameLayout-trans (l x) (reset-layout q.headers a x))
        (λ other j.
          rw (s.same_free, s.same_blocks)
            (taken_ledger p v size k i b (reserved_block q b) cand at refl other j))
        (λ other. rw s.same_free (taken-kept p.free_blocks size other _ (v.kept other))) v

  -- What `create_platform_mapping` answers for this pool.
  abbrev Fresh : Pool → ℕ → Result PlatformMapping → Type 0
  Fresh p size (err e) = Unit
  Fresh p size (ok m) =
      (m.mapped_size ≡ payload_offset + size)
      × ((i : ℕ) (b : Block)
          → get_elem? p.all_blocks i ≡ some b
          → IsApart b.mapping b.mapped_size m.mapping m.mapped_size)

  added-IsShaped :
      (h : ℕ → ControlHeader) (m : PlatformMapping) (size id : ℕ) (p : Pool)
      → 0 < size
      → m.mapped_size ≡ payload_offset + size
      → let h' = update h m.mapping (record new_header { payload_size = size }) in
        IsShaped
          (update h' m.mapping (reset_header (h' m.mapping)))
          (reserved_block p (block_at m size id))
  unfolding reset_header
  added-IsShaped h m size id p pos e = ground arith

  add-IsConsistent :
      (p : Pool) (size id : ℕ) (x : Result PlatformMapping)
      → IsConsistent p
      → 0 < size
      → Fresh p size x
      → IsConsistent (reserve_created host (add_block p size id x)).1
  unfolding reserve_created add_block
  add-IsConsistent p size id (err e) v pos f = v
  add-IsConsistent p size id (ok m) v pos (mapped, alone) =
      rw
        (reserve_lem (add_block p size id (ok m)).1 (length p.all_blocks) (block_at m size id)
          m.mapping (get_elem?-append_length p.all_blocks (block_at m size id)) refl)
        (added-IsConsistent p _ (reserved_block p (block_at m size id)) v (record {
          behind = set-append_last p.all_blocks _ _;
          same_free = refl;
          used = refl;
          shape = added-IsShaped p.headers m size id p pos mapped;
          others = λ a e. ground arith;
          alone = alone;
        }))

  MapsApart-same : {p q : Pool} → SameBlocks p q → MapsApart host p → MapsApart host q
  MapsApart-same s m = record {
    size_kept = rw s.same_created m.size_kept;
    placed = rw (s.same_created, s.same_blocks) m.placed;
  }

  MapsApart-Fresh :
      (p : Pool)
      → MapsApart host p
      → (size id nonce : ℕ) (x : Result PlatformMapping)
      → host.create p.created (payload_offset + size) id nonce ≡ x
      → Fresh p size x
  MapsApart-Fresh p m size id nonce (err e) h = tt
  MapsApart-Fresh p m size id nonce (ok x) h = (m.size_kept _ _ _ x h, m.placed _ _ _ x h)

  -- The pool after the counters of `create_block` have moved.
  abbrev started : Pool → Pool
  started p = record p {
    next_block_id = (p.next_block_id + 1) % 2 ^ 32;
    drawn = p.drawn + 1;
    created = p.created + 1;
  }

  started-IsConsistent : (p : Pool) → IsConsistent p → IsConsistent (started p)
  started-IsConsistent p v = record {
    ledger = v.ledger;
    kept = v.kept;
    shaped = v.shaped;
    apart = v.apart;
  }

  create-IsConsistent :
      (p : Pool) (size : ℕ)
      → IsConsistent p
      → MapsApart host p
      → 0 < size
      → IsConsistent (reserve_created host (create_block host p size)).1
  unfolding create_block reserve_created
  create-IsConsistent p size v m pos = elim (Bool-cases (ltb (2 ^ 64 - 1 - payload_offset) size)) [
    | inl overflows ↦ rw overflows v
    | inr fits ↦ rw fits (
        add-IsConsistent (started p) size p.next_block_id _ (started-IsConsistent p v) pos
          (MapsApart-Fresh p m size p.next_block_id (host.draw p.drawn) _ refl))
  ]

  take-IsConsistent :
      (p : Pool) (size : ℕ) (x : Option (ℕ × ℕ) × Pool)
      → IsConsistent p
      → MapsApart host p
      → 0 < size
      → SameBlocks p x.1
      → ((a : ℕ) → SameLayout (p.headers a) (x.1.headers a))
      → FoundIn host p (candidates_of (p.free_blocks size)) x
      → IsConsistent (take_candidate host size (candidates_of (p.free_blocks size)) x).1
  unfolding take_candidate
  take-IsConsistent p size (none, q) v m pos s l f =
      create-IsConsistent q size (SameBlocks-IsConsistent s l v) (MapsApart-same s m) pos
  take-IsConsistent p size (some (k, i), q) v m pos s l (cand, took) =
      let r = took.reusable in
      rw
        (reserve_lem
          (record q {
            free_blocks =
                update q.free_blocks size
                  (bucket_of (swap_remove (candidates_of (p.free_blocks size)) k));
          })
          i r.block r.address (ap (λ bs. get_elem? bs i) s.same_blocks ∙ r.at) r.controlled)
        (reserved-IsConsistent p q size k i r.address r.block v s l cand r.at)

  -- A call of `allocate`, whether it reuses a block, creates one or throws, keeps the pool
  -- consistent, if the operating system places new mappings apart.
  pub allocate-IsConsistent :
      (p : Pool) (size : ℕ)
      → IsConsistent p
      → MapsApart host p
      → IsConsistent (allocate host p size).1
  unfolding allocate
  allocate-IsConsistent p size v m = elim (Bool-cases (size == 0)) [
    | inl zero_size ↦ rw zero_size v
    | inr positive ↦ rw positive (
        take-IsConsistent p size (claim_first host p (candidates_of (p.free_blocks size))) v m
          (ground arith) (claim_first-SameBlocks host p (candidates_of (p.free_blocks size)))
          (claim_first-layout host p (candidates_of (p.free_blocks size)))
          (claim_first-FoundIn host p (candidates_of (p.free_blocks size))))
  ]
