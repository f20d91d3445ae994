-- ===== src/Pool/Consistency/Moves.antt =====
-- The changes to a pool that keep it consistent: a search, a block taken, added or given back.
use memfd_buffer_backend.Prelude.{
  ℕ, ◌+◌, ◌≡◌, refl, sym, ap, ◌∙◌, ◌≢◌, true, false, List, [], ◌∷◌, Option, some, arith, ℕ_discrete,
  get_elem?, set, get_elem?-set, total, le-total,
}
use memfd_buffer_backend.Header.{ControlHeader}
use memfd_buffer_backend.Pool.{Block, Pool, update, candidates_of, bucket_of}
use memfd_buffer_backend.Pool.Vector.{hit, count, swap_remove, total-swap_remove}
use memfd_buffer_backend.Pool.Claims.{SameBlocks, SameLayout}
use memfd_buffer_backend.Pool.Consistency.Defs.{listed, IsShaped, IsConsistent}

-- The parts of a block that never change.
pub record SameShape (b c : Block) : Type 0 where
  pub same_mapping : c.mapping ≡ b.mapping
  pub same_mapped : c.mapped_size ≡ b.mapped_size
  pub same_payload : c.payload_size ≡ b.payload_size
  pub same_control : c.control ≡ b.control

pub IsShaped-same :
    {h k : ℕ → ControlHeader} {b c : Block}
    → SameShape b c
    → SameLayout (h b.mapping) (k b.mapping)
    → IsShaped h b
    → IsShaped k c
IsShaped-same {h} {k} {b} {c} s l v = record {
  controlled = s.same_control ∙ v.controlled ∙ ap some (sym s.same_mapping);
  mapped = omega (arith, s.same_mapped, s.same_payload, v.mapped);
  filled = omega (arith, s.same_payload, v.filled);
  magic = ap (λ a. (k a).magic) s.same_mapping ∙ l.same_magic ∙ v.magic;
  abi_version = ap (λ a. (k a).abi_version) s.same_mapping ∙ l.same_abi ∙ v.abi_version;
  sized = ap (λ a. (k a).payload_size) s.same_mapping ∙ l.same_size ∙ v.sized ∙ sym s.same_payload;
}

-- Each block of `q` stands where one of the same shape stands in `p`, and the headers keep their
-- layout.
pub record Follows (p q : Pool) : Type 0 where
  pub older :
      (i : ℕ) (c : Block)
      → get_elem? q.all_blocks i ≡ some c
      → (b : Block) × (get_elem? p.all_blocks i ≡ some b) × SameShape b c
  pub layout : (a : ℕ) → SameLayout (p.headers a) (q.headers a)

pub Follows-IsConsistent :
    {p q : Pool}
    → Follows p q
    → ((size i : ℕ)
        → count i (candidates_of (q.free_blocks size)) ≡ listed size (get_elem? q.all_blocks i))
    → ((size : ℕ) → q.free_blocks size ≢ some [])
    → IsConsistent p
    → IsConsistent q
Follows-IsConsistent f l k v = record {
  ledger = l;
  kept = k;
  shaped = λ i c at.
      let (b, old, s) = f.older i c at in IsShaped-same s (f.layout b.mapping) (v.shaped i b old);
  apart = λ i j a b ai bj ne.
      let (a', old_a, s) = f.older i a ai in
      let (b', old_b, t) = f.older j b bj in
      ground (
        arith,
        s.same_mapping,
        s.same_mapped,
        t.same_mapping,
        t.same_mapped,
        v.apart i j a' b' old_a old_b ne,
      );
}

pub SameShape-refl : (b : Block) → SameShape b b
SameShape-refl b = record {
  same_mapping = refl;
  same_mapped = refl;
  same_payload = refl;
  same_control = refl;
}

pub SameBlocks-IsConsistent :
    {p q : Pool}
    → SameBlocks p q
    → ((a : ℕ) → SameLayout (p.headers a) (q.headers a))
    → IsConsistent p
    → IsConsistent q
SameBlocks-IsConsistent {p} {q} s l v =
    Follows-IsConsistent
      (record {
        older = λ i c at. (c, ap (λ bs. get_elem? bs i) (sym s.same_blocks) ∙ at, SameShape-refl c);
        layout = l;
      })
      (λ size i. rw (s.same_free, s.same_blocks) (v.ledger size i))
      (λ size e. v.kept size (ap (λ f. f size) (sym s.same_free) ∙ e)) v

set_here :
    (bs : List Block) (i j : ℕ) (c : Block) {b x : Block}
    → get_elem? bs i ≡ some b
    → i ≡ j
    → get_elem? (set bs i c) j ≡ some x
    → c ≡ x
set_here bs i j c at same there = ground (arith, get_elem?-set bs i j c at)

set_elsewhere :
    (bs : List Block) (i j : ℕ) (c : Block) {b x : Block}
    → get_elem? bs i ≡ some b
    → i ≢ j
    → get_elem? (set bs i c) j ≡ some x
    → get_elem? bs j ≡ some x
set_elsewhere bs i j c at other there = ground (arith, get_elem?-set bs i j c at)

-- One block of `p` is replaced by one of the same shape.
pub set-Follows :
    (p q : Pool) (i : ℕ) (b c : Block)
    → get_elem? p.all_blocks i ≡ some b
    → q.all_blocks ≡ set p.all_blocks i c
    → SameShape b c
    → ((a : ℕ) → SameLayout (p.headers a) (q.headers a))
    → Follows p q
set-Follows p q i b c at e s l = record {
  older = λ j x new.
      let there : get_elem? (set p.all_blocks i c) j ≡ some x =
        ap (λ bs. get_elem? bs j) (sym e) ∙ new in
      elim (ℕ_discrete i j) [
        | yes same ↦ (
          b,
          ap (get_elem? p.all_blocks) (sym same) ∙ at,
          rw (← set_here p.all_blocks i j c at same there) s,
        )
        | no other ↦ (x, set_elsewhere p.all_blocks i j c at other there, SameShape-refl x)
      ];
  layout = l;
}

listed-in_use : (size : ℕ) (b : Block) → b.in_use ≡ true → listed size (some b) ≡ 0
listed-in_use size b e = ground arith

candidates_of-bucket_of : (xs : List ℕ) → candidates_of (bucket_of xs) ≡ xs
candidates_of-bucket_of [] = refl
candidates_of-bucket_of (x ∷ xs) = refl

-- The buckets after a candidate has been taken out of the bucket of `size`.
module _ (p : Pool) (v : IsConsistent p) (size k i : ℕ) (b c : Block) where
  -- A candidate is a block of the size of its bucket, and is not in use.
  pub candidate-lem :
      get_elem? (candidates_of (p.free_blocks size)) k ≡ some i
      → get_elem? p.all_blocks i ≡ some b
      → (b.in_use ≡ false) × (b.payload_size ≡ size)
  candidate-lem cand at =
      ground (arith, v.ledger size i, le-total (hit i) (candidates_of (p.free_blocks size)) k cand)

  rest_ledger :
      (rest : List ℕ) (other j : ℕ)
      → get_elem? (candidates_of (p.free_blocks size)) k ≡ some i
      → get_elem? p.all_blocks i ≡ some b
      → c.in_use ≡ true
      → total (hit j) rest + hit j i ≡ total (hit j) (candidates_of (p.free_blocks size))
      → count j (candidates_of (update p.free_blocks size (bucket_of rest) other))
        ≡ listed other (get_elem? (set p.all_blocks i c) j)
  rest_ledger rest other j cand at used removed = elim (ℕ_discrete size other) [
    | yes same ↦ ground (
      arith,
      candidates_of-bucket_of rest,
      candidate-lem cand at,
      get_elem?-set p.all_blocks i j c at,
      v.ledger size j,
    )
    | no differ ↦
        ground (arith, candidate-lem cand at, get_elem?-set p.all_blocks i j c at, v.ledger other j)
  ]

  pub taken_ledger :
      get_elem? (candidates_of (p.free_blocks size)) k ≡ some i
      → get_elem? p.all_blocks i ≡ some b
      → c.in_use ≡ true
      → (other j : ℕ)
      → count j (
          candidates_of (
            update p.free_blocks size
              (bucket_of (swap_remove (candidates_of (p.free_blocks size)) k))
              other))
        ≡ listed other (get_elem? (set p.all_blocks i c) j)
  taken_ledger cand at used other j =
      rest_ledger _ other j cand at used (total-swap_remove (hit j) _ k cand)

bucket_of-ne : (xs : List ℕ) → bucket_of xs ≢ some []
bucket_of-ne [] e = cc
bucket_of-ne (x ∷ xs) e = cc

pub taken-kept :
    (f : ℕ → Option (List ℕ)) (size other : ℕ) (xs : List ℕ)
    → f other ≢ some []
    → update f size (bucket_of xs) other ≢ some []
taken-kept f size other xs h e = ground (arith, h, bucket_of-ne xs)
