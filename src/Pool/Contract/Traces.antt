-- ===== src/Pool/Contract/Traces.antt =====
-- The methods of the pool keep the contract, in any order of calls.
use memfd_buffer_backend.Prelude.{
  ℕ, ◌+◌, ◌≡◌, ◌≤◌, inl, inr, refl, ap, ◌∙◌, Bool, true, false, List, [], ◌∷◌, Option, none, some,
  ◌==◌, arith, get_elem?, get_elem?-set, length, set, Bool-cases, Option-cases, ℕ_discrete,
}
use memfd_buffer_backend.Errors.{Result, ok, err}
use memfd_buffer_backend.Pool.{
  Block, Host, Pool, allocate, free, assign_uid, empty_pool, non_zero_uid,
}
use memfd_buffer_backend.Pool.Publication.{mark_published-blocks}
use memfd_buffer_backend.Pool.Allocation.{Outcome, allocate-Outcome}
use memfd_buffer_backend.Pool.Consistency.{
  IsConsistent, MapsApart, allocate-IsConsistent, free-IsConsistent, assign_uid-IsConsistent,
  mark_published-IsConsistent, empty-IsConsistent,
}
use memfd_buffer_backend.Pool.Reuse.{free-absent, free-used, free-idle, free-other}
use memfd_buffer_backend.Pool.Contract.{
  Permits, Accepts, grants, returns, used, status, ledger, Call, allocates, frees, names, publishes,
  granted_by, freed_from, perform, events, after, Accepts-balance, used-le,
}

module _ (host : Host) where
  -- The system places the mappings that the calls create apart from those that there are.
  abbrev pub Placed : Pool → List Call → Type 0
  Placed p [] = Unit
  Placed p (allocates size ∷ cs) = MapsApart host p × Placed (perform host p (allocates size)).1 cs
  Placed p (c ∷ cs) = Placed (perform host p c).1 cs

  absent : (bs : List Block) → get_elem? bs (length bs) ≡ none
  absent [] = refl
  absent (b ∷ bs) = absent bs

  allocated-Permits :
      (p : Pool) (size : ℕ) (r : Result ℕ × Pool)
      → Outcome host p size r
      → Permits (ledger p) (granted_by size r.0) (ledger r.1)
  allocated-Permits p size (err e, q) refused =
      λ j. ap (λ bs. status (get_elem? bs j)) refused.same_blocks
  allocated-Permits p size (ok i, q) o = (
    elim o.origin [
      | inl (b, at, unused, sized, reusable) ↦ inr (ground (arith, at, unused, sized))
      | inr new ↦ inl (ap status (ap (get_elem? p.all_blocks) new ∙ absent p.all_blocks))
    ],
    ground (arith, o.at, o.sized, o.used),
    λ j other. ap status (o.other_blocks j other),
  )

  freed_block-Permits :
      (p : Pool) (i : ℕ) (b : Block) (u : Bool)
      → get_elem? p.all_blocks i ≡ some b
      → b.in_use ≡ u
      → Permits (ledger p) (freed_from i (some (b.payload_size, u))) (ledger (free p i))
  freed_block-Permits p i b false at unused =
      λ j. ap (λ (q : Pool). ledger q j) (free-idle p i b at unused)
  freed_block-Permits p i b true at in_use = (
    (
      b.payload_size,
      ap status at ∙ ap (λ u. some (b.payload_size, u)) in_use,
      ap status (free-used p i b at in_use),
    ),
    λ j other. ap status (free-other p i j other),
  )

  freed-Permits :
      (p : Pool) (i : ℕ) (o : Option Block)
      → get_elem? p.all_blocks i ≡ o
      → Permits (ledger p) (freed_from i (status o)) (ledger (free p i))
  freed-Permits p i none at = λ j. ap (λ (q : Pool). ledger q j) (free-absent p i at)
  freed-Permits p i (some b) at = freed_block-Permits p i b b.in_use at refl

  renamed :
      (p : Pool) (i j u : ℕ) (b : Block)
      → get_elem? p.all_blocks i ≡ some b
      → status (get_elem? (set p.all_blocks i (record b { current_uid = u })) j) ≡ ledger p j
  renamed p i j u b at = elim (ℕ_discrete i j) [
    | yes e ↦
        ground (arith, e, at, get_elem?-set p.all_blocks i j (record b { current_uid = u }) at)
    | no other ↦
        ground (arith, other, get_elem?-set p.all_blocks i j (record b { current_uid = u }) at)
  ]

  assign_uid-ledger : (p : Pool) (i j : ℕ) → ledger (assign_uid host p i).1 j ≡ ledger p j
  unfolding assign_uid
  assign_uid-ledger p i j = elim (Option-cases (get_elem? p.all_blocks i)) [
    | inl e ↦ rw (e, assign_uid) refl
    | inr (b, e) ↦
        rw (e, assign_uid)
          (elim (Option-cases b.control) [
            | inl c ↦ rw c refl
            | inr (a, c) ↦ rw c (elim (Bool-cases (b.current_uid == 0)) [
              | inr drawn ↦ rw drawn refl
              | inl unset ↦ rw unset (renamed p i j (non_zero_uid (host.draw p.drawn)) b e)
            ])
          ])
  ]

  perform-Permits :
      (p : Pool) (c : Call)
      → IsConsistent p
      → Permits (ledger p) (perform host p c).0 (ledger (perform host p c).1)
  unfolding perform
  perform-Permits p (allocates size) v =
      allocated-Permits p size (allocate host p size) (allocate-Outcome host p size v)
  perform-Permits p (frees i) v = freed-Permits p i (get_elem? p.all_blocks i) refl
  perform-Permits p (names i) v = λ j. assign_uid-ledger p i j
  perform-Permits p (publishes i) v =
      λ j. ap (λ bs. status (get_elem? bs j)) (mark_published-blocks host p i)

  perform-IsConsistent :
      (p : Pool) (c : Call) (cs : List Call)
      → IsConsistent p
      → Placed p (c ∷ cs)
      → IsConsistent (perform host p c).1 × Placed (perform host p c).1 cs
  unfolding perform
  perform-IsConsistent p (allocates size) cs v (apart, rest) =
      (allocate-IsConsistent host p size v apart, rest)
  perform-IsConsistent p (frees i) cs v rest = (free-IsConsistent p i v, rest)
  perform-IsConsistent p (names i) cs v rest = (assign_uid-IsConsistent host p i v, rest)
  perform-IsConsistent p (publishes i) cs v rest = (mark_published-IsConsistent host p i v, rest)

  -- Whatever methods are called, with any arguments and in any order, on a consistent pool whose new
  -- mappings lie apart: what the pool grants and takes back is what the contract permits.
  pub events-Accepts :
      (p : Pool) (cs : List Call)
      → IsConsistent p
      → Placed p cs
      → Accepts (ledger p) (events host p cs) (ledger (after host p cs))
  unfolding events after
  events-Accepts p [] v placed = λ j. refl
  events-Accepts p (c ∷ cs) v placed =
      let (v', placed') = perform-IsConsistent p c cs v placed in
      (
        ledger (perform host p c).1,
        perform-Permits p c v,
        events-Accepts (perform host p c).1 cs v' placed',
      )

  -- After any calls on a new pool whose mappings lie apart, a block has been handed out as often as
  -- it was given back, and once more while it is in use: it never has two owners.
  pub granted_once :
      (cs : List Call) (i : ℕ)
      → Placed empty_pool cs
      → let es = events host empty_pool cs in
        (grants i es ≡ returns i es + used (ledger (after host empty_pool cs) i))
        × (grants i es ≤ returns i es + 1)
  granted_once cs i placed =
      let es = events host empty_pool cs in
      let n = ledger (after host empty_pool cs) in
      let balance =
        Accepts-balance (ledger empty_pool) n es i
          (events-Accepts empty_pool cs empty-IsConsistent placed) in
      let most = used-le (n i) in (omega (arith, balance), omega (arith, balance, most))
