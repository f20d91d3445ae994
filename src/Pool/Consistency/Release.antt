-- ===== src/Pool/Consistency/Release.antt =====
-- `free`, `assign_uid` and `mark_published` keep the pool consistent.
use memfd_buffer_backend.Prelude.{
  ℕ, ◌≡◌, refl, ap, ◌≢◌, true, false, List, [], ◌∷◌, ◌++◌, inl, inr, some, arith, ◌==◌, ℕ_discrete,
  get_elem?, set, Option-cases, Bool-cases, get_elem?-set, total,
}
use memfd_buffer_backend.Header.{ControlHeader}
use memfd_buffer_backend.Pool.{
  Block, Host, Pool, update, candidates_of, free, assign_uid, mark_published,
  refresh_publish_timestamp,
}
use memfd_buffer_backend.Pool.Vector.{hit, count, total-append}
use memfd_buffer_backend.Pool.Claims.{SameLayout}
use memfd_buffer_backend.Pool.Consistency.Defs.{listed, IsConsistent}
use memfd_buffer_backend.Pool.Consistency.Moves.{
  Follows-IsConsistent, SameBlocks-IsConsistent, set-Follows,
}

-- The buckets after block `i` has been given back to the bucket of its size.
module _ (p : Pool) (v : IsConsistent p) (i : ℕ) (b : Block) where
  back_ledger :
      get_elem? p.all_blocks i ≡ some b
      → b.in_use ≡ true
      → (size j : ℕ)
      → count j (
          candidates_of (
            update p.free_blocks b.payload_size
              (some (candidates_of (p.free_blocks b.payload_size) ++ i ∷ []))
              size))
        ≡ listed size (get_elem? (set p.all_blocks i (record b { in_use = false })) j)
  unfolding total
  back_ledger at used size j = elim (ℕ_discrete b.payload_size size) [
    | yes same ↦ ground (
      arith,
      total-append (hit j) (candidates_of (p.free_blocks b.payload_size)) (i ∷ []),
      get_elem?-set p.all_blocks i j (record b { in_use = false }) at,
      v.ledger b.payload_size j,
      v.ledger size j,
    )
    | no differ ↦
        ground
          (arith, get_elem?-set p.all_blocks i j (record b { in_use = false }) at, v.ledger size j)
  ]

  append-ne : (xs : List ℕ) → xs ++ i ∷ [] ≢ []
  append-ne [] e = cc
  append-ne (x ∷ xs) e = cc

  back_kept :
      (size : ℕ)
      → update p.free_blocks b.payload_size
          (some (candidates_of (p.free_blocks b.payload_size) ++ i ∷ []))
          size
        ≢ some []
  back_kept size e =
      ground (arith, v.kept size, append-ne (candidates_of (p.free_blocks b.payload_size)))

SameLayout-refl : (h : ControlHeader) → SameLayout h h
SameLayout-refl h = record { same_magic = refl; same_abi = refl; same_size = refl }

-- A call of `free` keeps the pool consistent, for a block in use, a block that is already free and
-- a pointer to no block.
pub free-IsConsistent : (p : Pool) (i : ℕ) → IsConsistent p → IsConsistent (free p i)
unfolding free
free-IsConsistent p i v = elim (Option-cases (get_elem? p.all_blocks i)) [
  | inl e ↦ rw (e, free) v
  | inr (b, e) ↦
      rw (e, free)
        (elim (Bool-cases b.in_use) [
          | inl used ↦ rw used (
              Follows-IsConsistent
                (set-Follows p _ i b (record b { in_use = false }) e refl
                  (record {
                    same_mapping = refl;
                    same_mapped = refl;
                    same_payload = refl;
                    same_control = refl;
                  })
                  (λ a. SameLayout-refl (p.headers a)))
                (back_ledger p v i b e used) (back_kept p v i b) v)
          | inr unused ↦ rw unused v
        ])
]

-- A new uid changes no list.
uid_ledger :
    (p : Pool) (i u : ℕ) (b : Block)
    → IsConsistent p
    → get_elem? p.all_blocks i ≡ some b
    → (size j : ℕ)
    → count j (candidates_of (p.free_blocks size))
      ≡ listed size (get_elem? (set p.all_blocks i (record b { current_uid = u })) j)
uid_ledger p i u b v at size j = elim (ℕ_discrete i j) [
  | yes same ↦ ground (
    arith,
    get_elem?-set p.all_blocks i j (record b { current_uid = u }) at,
    ap (get_elem? p.all_blocks) same,
    v.ledger size j,
  )
  | no other ↦
      ground
        (arith, get_elem?-set p.all_blocks i j (record b { current_uid = u }) at, v.ledger size j)
]

uid-IsConsistent :
    (p : Pool) (i u d : ℕ) (b : Block)
    → IsConsistent p
    → get_elem? p.all_blocks i ≡ some b
    → IsConsistent
        (record p { all_blocks = set p.all_blocks i (record b { current_uid = u }); drawn = d })
uid-IsConsistent p i u d b v at =
    Follows-IsConsistent
      (set-Follows p _ i b (record b { current_uid = u }) at refl
        (record {
          same_mapping = refl;
          same_mapped = refl;
          same_payload = refl;
          same_control = refl;
        })
        (λ a. SameLayout-refl (p.headers a)))
      (uid_ledger p i u b v at) v.kept v

-- A call of `assign_uid` keeps the pool consistent, for every pointer.
pub assign_uid-IsConsistent :
    (host : Host) (p : Pool) (i : ℕ) → IsConsistent p → IsConsistent (assign_uid host p i).1
unfolding assign_uid
assign_uid-IsConsistent host p i v = elim (Option-cases (get_elem? p.all_blocks i)) [
  | inl e ↦ rw (e, assign_uid) v
  | inr (b, e) ↦
      rw (e, assign_uid)
        (elim (Option-cases b.control) [
          | inl c ↦ rw c v
          | inr (a, c) ↦ rw c (elim (Bool-cases (b.current_uid == 0)) [
            | inl unset ↦ rw unset (uid-IsConsistent p i _ _ b v e)
            | inr drawn ↦ rw drawn v
          ])
        ])
]

-- A call of `mark_published` keeps the pool consistent, for every pointer.
pub mark_published-IsConsistent :
    (host : Host) (p : Pool) (i : ℕ) → IsConsistent p → IsConsistent (mark_published host p i)
unfolding mark_published refresh_publish_timestamp
mark_published-IsConsistent host p i v = elim (Option-cases (get_elem? p.all_blocks i)) [
  | inl e ↦ rw (e, mark_published) v
  | inr (b, e) ↦
      rw (e, mark_published)
        (elim (Option-cases b.control) [
          | inl c ↦ rw c v
          | inr (a, c) ↦ rw c (
              SameBlocks-IsConsistent
                (record {
                  same_blocks = refl;
                  same_free = refl;
                  same_next = refl;
                  same_drawn = refl;
                  same_created = refl;
                })
                (λ x. elim (ℕ_discrete a x) [
                  | yes same ↦ ground (arith, ap p.headers same)
                  | no other ↦ ground arith
                ])
                v)
        ])
]
