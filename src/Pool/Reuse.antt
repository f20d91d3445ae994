-- ===== src/Pool/Reuse.antt =====
-- When `allocate` reuses a block, and what a second `free` does.
use memfd_buffer_backend.Prelude.{
  ℕ, zero, suc, ◌<◌, ◌≡◌, refl, ap, ◌∙◌, ◌≢◌, inl, inr, true, false, List, [], ◌∷◌, Option, none,
  some, arith, ◌==◌, length, get_elem?, get_elem?-set, Bool-cases, Option-cases, total, lt-length,
}
use memfd_buffer_backend.Errors.{Result, ok, err}
use memfd_buffer_backend.Header.{ControlHeader}
use memfd_buffer_backend.Pool.{
  Block, Host, Pool, candidates_of, take_candidate, claim_first, update, bucket_of, one_later,
  try_claim_block, allocate, free,
}
use memfd_buffer_backend.Pool.Vector.{hit, count, swap_remove}
use memfd_buffer_backend.Pool.Claims.{
  SameBlocks, FoundIn, try_claim_block-SameBlocks, try_claim_block-fails, claim_first-FoundIn,
  claim_first-SameBlocks,
}
use memfd_buffer_backend.Pool.Consistency.{IsConsistent, reserve_lem}

-- A block with no reader that has not been published since it was handed out.
pub record IsReady (p : Pool) (i : ℕ) : Type 0 where
  pub block : Block
  pub address : ℕ
  pub at : get_elem? p.all_blocks i ≡ some block
  pub controlled : block.control ≡ some address
  pub unread : (p.headers address).reader_state ≡ 0
  pub unstamped : (p.headers address).publish_timestamp_us ≡ 0

mem_of_count : (i : ℕ) (xs : List ℕ) → 0 < count i xs → (k : ℕ) × (get_elem? xs k ≡ some i)
unfolding total
mem_of_count i [] h = absurd (omega arith)
mem_of_count i (x ∷ xs) h = elim (Bool-cases (i == x)) [
  | inl e ↦ (0, ground arith)
  | inr e ↦ let (k, at) = mem_of_count i xs (ground arith) in (suc k, at)
]

-- A result that is a block of the pool, with no call of `create_platform_mapping`.
abbrev pub Reuses : Pool → Result ℕ × Pool → Type 0
Reuses p (ok k, q) = (k < length p.all_blocks) × (q.created ≡ p.created)
Reuses p (err e, q) = ⊥

module _ (host : Host) where
  IsReady-claim : (p : Pool) (i : ℕ) → IsReady p i → (try_claim_block host p i).0 ≡ true
  unfolding try_claim_block
  IsReady-claim p i r = ground (arith, r.at, r.controlled, r.unread, r.unstamped)

  -- A claim of another block that failed leaves a ready block ready.
  IsReady-after :
      (p : Pool) (i j : ℕ)
      → (try_claim_block host p j).0 ≡ false
      → IsReady p i
      → IsReady (try_claim_block host p j).1 i
  IsReady-after p i j failed r =
      let same = try_claim_block-fails host p j r.address failed in
      record {
        block = r.block;
        address = r.address;
        at = ap (λ bs. get_elem? bs i) (try_claim_block-SameBlocks host p j).same_blocks ∙ r.at;
        controlled = r.controlled;
        unread = ap (λ (h : ControlHeader). h.reader_state) same ∙ r.unread;
        unstamped = ap (λ (h : ControlHeader). h.publish_timestamp_us) same ∙ r.unstamped;
      }

  one_later-some : (x : Option (ℕ × ℕ) × Pool) → (one_later x).0 ≡ none → x.0 ≡ none
  one_later-some (none, q) e = refl
  one_later-some (some (k, i), q) e = cc

  claim_first-IsReady :
      (p : Pool) (bs : List ℕ) (k i : ℕ)
      → get_elem? bs k ≡ some i
      → IsReady p i
      → (claim_first host p bs).0 ≢ none
  unfolding claim_first
  claim_first-IsReady p [] k i at r e = cc
  claim_first-IsReady p (c ∷ bs) zero i at r e = ground (arith, IsReady-claim p i r)
  claim_first-IsReady p (c ∷ bs) (suc k) i at r e = elim (Bool-cases (try_claim_block host p c).0) [
    | inl hit ↦ ground (arith, e, hit)
    | inr miss ↦
        claim_first-IsReady (try_claim_block host p c).1 bs k i at (IsReady-after p i c miss r)
          (one_later-some _ (rw miss at e))
  ]

  take-Reuses :
      (p : Pool) (size : ℕ) (bs : List ℕ) (x : Option (ℕ × ℕ) × Pool)
      → x.0 ≢ none
      → SameBlocks p x.1
      → FoundIn host p bs x
      → Reuses p (take_candidate host size bs x)
  unfolding take_candidate
  take-Reuses p size bs (none, q) found s f = absurd (found refl)
  take-Reuses p size bs (some (k, i), q) found s (at, took) =
      let r = took.reusable in
      let rest : Pool = record q {
        free_blocks = update q.free_blocks size (bucket_of (swap_remove bs k));
      } in
      let there = ap (λ blocks. get_elem? blocks i) s.same_blocks ∙ r.at in
      (
        lt-length p.all_blocks i r.at,
        rw (reserve_lem host rest i r.block r.address there r.controlled) s.same_created,
      )

positive-test : (n : ℕ) → 0 < n → (n == 0) ≡ false
positive-test n h = ground arith

-- In a consistent pool with a block of `size` bytes that is not in use, has no reader and has not
-- been published since it was handed out, `allocate` succeeds and creates no block.
pub allocate-Reuses :
    (host : Host) (p : Pool) (size i : ℕ) (r : IsReady p i)
    → IsConsistent p
    → 0 < size
    → r.block.in_use ≡ false
    → r.block.payload_size ≡ size
    → Reuses p (allocate host p size)
unfolding allocate
allocate-Reuses host p size i r v pos unused sized =
    let (k, at) =
      mem_of_count i (candidates_of (p.free_blocks size)) (ground (arith, v.ledger size i, r.at)) in
    let found = claim_first host p (candidates_of (p.free_blocks size)) in
    rw (positive-test size pos) (
      take-Reuses host p size (candidates_of (p.free_blocks size)) found
        (claim_first-IsReady host p (candidates_of (p.free_blocks size)) k i at r)
        (claim_first-SameBlocks host p (candidates_of (p.free_blocks size)))
        (claim_first-FoundIn host p (candidates_of (p.free_blocks size))))

pub free-idle :
    (p : Pool) (i : ℕ) (b : Block)
    → get_elem? p.all_blocks i ≡ some b
    → b.in_use ≡ false
    → free p i ≡ p
unfolding free
free-idle p i b at unused = rw (at, free) (rw unused)

pub free-absent : (p : Pool) (i : ℕ) → get_elem? p.all_blocks i ≡ none → free p i ≡ p
unfolding free
free-absent p i absent = rw (free, absent) refl

pub free-used :
    (p : Pool) (i : ℕ) (b : Block)
    → get_elem? p.all_blocks i ≡ some b
    → b.in_use ≡ true
    → get_elem? (free p i).all_blocks i ≡ some (record b { in_use = false })
unfolding free
free-used p i b at used =
    ground (arith, get_elem?-set p.all_blocks i i (record b { in_use = false }) at)

-- A second `free` of a block changes nothing, whatever the pool and the pointer.
pub free_twice : (p : Pool) (i : ℕ) → free (free p i) i ≡ free p i
free_twice p i = elim (Option-cases (get_elem? p.all_blocks i)) [
  | inl e ↦ ap (λ q. free q i) (unfold free in rw (e, free))
  | inr (b, e) ↦ elim (Bool-cases b.in_use) [
    | inl used ↦ free-idle (free p i) i (record b { in_use = false }) (free-used p i b e used) refl
    | inr unused ↦ ap (λ q. free q i) (free-idle p i b e unused)
  ]
]

-- `free` writes no control header.
pub free-headers : (p : Pool) (i a : ℕ) → (free p i).headers a ≡ p.headers a
unfolding free
free-headers p i a = ground arith

-- A block in use that has no reader and has not been published is ready for reuse once it was given
-- back, and as large as before.
pub freed-IsReady :
    (p : Pool) (i a : ℕ) (b : Block)
    → get_elem? p.all_blocks i ≡ some b
    → b.in_use ≡ true
    → b.control ≡ some a
    → (p.headers a).reader_state ≡ 0
    → (p.headers a).publish_timestamp_us ≡ 0
    → (r : IsReady (free p i) i) × (r.block.in_use ≡ false)
      × (r.block.payload_size ≡ b.payload_size)
freed-IsReady p i a b at used controlled unread unstamped = (
  record {
    block = record b { in_use = false };
    address = a;
    at = free-used p i b at used;
    controlled = controlled;
    unread = ap (λ (h : ControlHeader). h.reader_state) (free-headers p i a) ∙ unread;
    unstamped = ap (λ (h : ControlHeader). h.publish_timestamp_us) (free-headers p i a) ∙ unstamped;
  },
  refl,
  refl,
)

-- `free` writes no other block.
pub free-other :
    (p : Pool) (i j : ℕ) → j ≢ i → get_elem? (free p i).all_blocks j ≡ get_elem? p.all_blocks j
unfolding free
free-other p i j other = elim (Option-cases (get_elem? p.all_blocks i)) [
  | inl e ↦ rw (free, e) refl
  | inr (b, e) ↦ elim (Bool-cases b.in_use) [
    | inl used ↦
        rw (free, e, used)
          (ground (arith, other, get_elem?-set p.all_blocks i j (record b { in_use = false }) e))
    | inr unused ↦ rw (free, e, unused) refl
  ]
]
