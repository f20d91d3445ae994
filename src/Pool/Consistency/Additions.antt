-- ===== src/Pool/Consistency/Additions.antt =====
-- A block that is added to a consistent pool.
use memfd_buffer_backend.Prelude.{
  ℕ, ◌≡◌, sym, ap, ◌∙◌, ◌≢◌, ◌⊎◌, inl, inr, true, [], ◌∷◌, ◌++◌, some, arith, ◌==◌, if◌then◌else◌,
  length, get_elem?, get_elem?-append_last, get_elem?-length, subst,
}
use memfd_buffer_backend.Pool.{Block, Pool, candidates_of}
use memfd_buffer_backend.Pool.Vector.{count}
use memfd_buffer_backend.Pool.Claims.{SameLayout}
use memfd_buffer_backend.Pool.Consistency.Defs.{listed, IsApart, IsShaped, IsConsistent}
use memfd_buffer_backend.Pool.Consistency.Moves.{IsShaped-same, SameShape-refl}

-- A block in use is added behind the others, at addresses of its own.
pub record Adds (p q : Pool) (c : Block) : Type 0 where
  pub behind : q.all_blocks ≡ p.all_blocks ++ c ∷ []
  pub same_free : q.free_blocks ≡ p.free_blocks
  pub used : c.in_use ≡ true
  pub shape : IsShaped q.headers c
  pub others : (a : ℕ) → a ≢ c.mapping → SameLayout (p.headers a) (q.headers a)
  pub alone :
      (i : ℕ) (b : Block)
      → get_elem? p.all_blocks i ≡ some b
      → IsApart b.mapping b.mapped_size c.mapping c.mapped_size

module _ (p q : Pool) (c : Block) (v : IsConsistent p) (d : Adds p q c) where
  entry :
      (i : ℕ)
      → get_elem? q.all_blocks i
        ≡ (if i == length p.all_blocks then some c else get_elem? p.all_blocks i)
  entry i = ap (λ bs. get_elem? bs i) d.behind ∙ get_elem?-append_last p.all_blocks c i

  -- A block of the new pool is the new one or one of the old pool.
  entry_cases :
      (i : ℕ) (b : Block)
      → get_elem? q.all_blocks i ≡ some b
      → ((i ≡ length p.all_blocks) × (c ≡ b)) ⊎ (get_elem? p.all_blocks i ≡ some b)
  entry_cases i b at = ground (arith, entry i)

  added-ledger :
      (size i : ℕ)
      → count i (candidates_of (q.free_blocks size)) ≡ listed size (get_elem? q.all_blocks i)
  added-ledger size i =
      rw (d.same_free, entry i)
        (ground (arith, v.ledger size i, get_elem?-length p.all_blocks, d.used))

  added-IsShaped : (i : ℕ) (b : Block) → get_elem? q.all_blocks i ≡ some b → IsShaped q.headers b
  added-IsShaped i b at = elim (entry_cases i b at) [
    | inl (_, e) ↦ subst (IsShaped q.headers) e d.shape
    | inr old ↦
        IsShaped-same (SameShape-refl b)
          (d.others b.mapping
            (λ e. ground (arith, d.alone i b old, (v.shaped i b old).mapped, d.shape.mapped)))
          (v.shaped i b old)
  ]

  IsApart-sym : (a n b m : ℕ) → IsApart a n b m → IsApart b m a n
  IsApart-sym a n b m h = ground arith

  added-apart :
      (i j : ℕ) (a b : Block)
      → get_elem? q.all_blocks i ≡ some a
      → get_elem? q.all_blocks j ≡ some b
      → i ≢ j
      → IsApart a.mapping a.mapped_size b.mapping b.mapped_size
  added-apart i j a b ai bj ne = elim (entry_cases i a ai) [
    | inl (last, e) ↦ elim (entry_cases j b bj) [
      | inl (last', _) ↦ absurd (ne (last ∙ sym last'))
      | inr old ↦ rw (← e) (IsApart-sym _ _ _ _ (d.alone j b old))
    ]
    | inr old ↦ elim (entry_cases j b bj) [
      | inl (last, e) ↦ rw (← e) (d.alone i a old)
      | inr old' ↦ v.apart i j a b old old' ne
    ]
  ]

  pub added-IsConsistent : IsConsistent q
  added-IsConsistent = record {
    ledger = added-ledger;
    kept = λ size e. v.kept size (ap (λ f. f size) (sym d.same_free) ∙ e);
    shaped = added-IsShaped;
    apart = added-apart;
  }
