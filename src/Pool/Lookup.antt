-- ===== src/Pool/Lookup.antt =====
-- `find_block_for_ptr` finds exactly the block whose payload holds the address.
use memfd_buffer_backend.Prelude.{
  ℕ, zero, suc, ◌+◌, ◌≤◌, ◌<◌, ◌≡◌, refl, ap, ◌∙◌, ◌≢◌, ◌↔◌, ◌&&◌, inl, inr, List, [], ◌∷◌, none,
  some, arith, ltb, leb, Bool-cases, Option-cases, ℕ_discrete, get_elem?,
}
use memfd_buffer_backend.Header.{payload_offset}
use memfd_buffer_backend.Pool.{Block, Pool, find_from, find_block_for_ptr}
use memfd_buffer_backend.Pool.Consistency.{IsConsistent}

abbrev pub InPayload : Block → ℕ → Type 0
InPayload b a = (b.mapping + payload_offset ≤ a) × (a < b.mapping + b.mapped_size)

record Entry (bs : List Block) (j a : ℕ) : Type 0 where
  block : Block
  at : get_elem? bs j ≡ some block
  inside : InPayload block a

find_from_sound :
    (bs : List Block) (k a i : ℕ) → find_from bs k a ≡ some i → (j : ℕ) × (i ≡ k + j) × Entry bs j a
unfolding find_from
find_from_sound [] k a i e = cc
find_from_sound (b ∷ bs) k a i e =
    elim (Bool-cases (leb (b.mapping + payload_offset) a && ltb a (b.mapping + b.mapped_size))) [
      | inl hit ↦ (0, ground arith, record { block = b; at = refl; inside = ground arith })
      | inr miss ↦
          let (j, m, n) = find_from_sound bs (k + 1) a i (ground arith) in
          (suc j, omega arith, record { block = n.block; at = n.at; inside = n.inside })
    ]

find_from_complete :
    (bs : List Block) (k a j : ℕ) (b : Block)
    → get_elem? bs j ≡ some b
    → InPayload b a
    → find_from bs k a ≢ none
unfolding find_from
find_from_complete [] k a j b at inside e = cc
find_from_complete (c ∷ bs) k a zero b at inside e = ground arith
find_from_complete (c ∷ bs) k a (suc j) b at inside e =
    ground (arith, find_from_complete bs (k + 1) a j b at inside)

-- Payloads do not overlap, so the first block that fits is the only one.
found :
    (p : Pool) (a i : ℕ)
    → IsConsistent p
    → (b : Block) → get_elem? p.all_blocks i ≡ some b
    → InPayload b a
    → find_from p.all_blocks 0 a ≡ some i
found p a i v b at inside = elim (Option-cases (find_from p.all_blocks 0 a)) [
  | inl e ↦ absurd (find_from_complete p.all_blocks 0 a i b at inside e)
  | inr (k, e) ↦
      let (j, m, n) = find_from_sound p.all_blocks 0 a k e in
      elim (ℕ_discrete j i) [
        | yes same ↦ e ∙ ap some (m ∙ omega (arith, same))
        | no other ↦ absurd (overlap j n other)
      ]
]
  where
    overlap : (j : ℕ) → Entry p.all_blocks j a → j ≢ i → ⊥
    overlap j n other = ground (arith, n.inside, inside, v.apart j i n.block b n.at at other)

-- In a consistent pool, a pointer that is not null leads to block `i` exactly when it points into
-- the payload of block `i`.
pub find_block_for_ptr_iff :
    (p : Pool) (address i : ℕ)
    → IsConsistent p
    → address ≢ 0
    → (find_block_for_ptr p address ≡ some i)
      ↔ ((b : Block) × (get_elem? p.all_blocks i ≡ some b) × InPayload b address)
unfolding find_block_for_ptr
find_block_for_ptr_iff p address i v set_ptr = (
  λ e.
      let (j, m, n) = find_from_sound p.all_blocks 0 address i (ground arith) in
      (n.block, ap (get_elem? p.all_blocks) (omega arith) ∙ n.at, n.inside),
  λ (b, at, inside). ground (arith, found p address i v b at inside),
)
