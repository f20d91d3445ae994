-- ===== src/Pool/Publication.antt =====
-- What `assign_uid` and `mark_published` do to a block and to its control header.
use memfd_buffer_backend.Prelude.{
  ℕ, ◌≡◌, refl, ◌≢◌, inl, inr, some, ◌==◌, arith, if◌then◌else◌, get_elem?, get_elem?-set,
  Bool-cases, Option-cases,
}
use memfd_buffer_backend.Pool.{Block, Host, Pool, non_zero_uid, assign_uid, mark_published}

-- The block `i` has a uid in `q`, and no header was written.
pub record Named (p q : Pool) (i a uid : ℕ) : Type 0 where
  pub block : Block
  pub at : get_elem? q.all_blocks i ≡ some block
  pub controlled : block.control ≡ some a
  pub named : block.current_uid ≡ uid
  pub nonzero : uid ≢ 0
  pub same_headers : (x : ℕ) → q.headers x ≡ p.headers x

pub assign_uid-Named :
    (host : Host) (p : Pool) (i : ℕ) (b : Block) (a : ℕ)
    → get_elem? p.all_blocks i ≡ some b
    → b.control ≡ some a
    → Named p (assign_uid host p i).1 i a (assign_uid host p i).0
unfolding assign_uid
assign_uid-Named host p i b a at controlled = elim (Bool-cases (b.current_uid == 0)) [
  | inl e ↦
      rw (at, assign_uid, controlled, e)
        (record {
          block = record b { current_uid = non_zero_uid (host.draw p.drawn) };
          at = ground (
            arith,
            get_elem?-set p.all_blocks i i
                (record b { current_uid = non_zero_uid (host.draw p.drawn) }) at,
          );
          controlled = controlled;
          named = refl;
          nonzero = ground arith;
          same_headers = λ x. refl;
        })
  | inr e ↦
      rw (at, assign_uid, controlled, e)
        (record {
          block = b;
          at = at;
          controlled = controlled;
          named = refl;
          nonzero = ground (arith, e);
          same_headers = λ x. refl;
        })
]

-- The header of a published block has the uid of the block; no other header changes.
pub mark_published-headers :
    (host : Host) (p : Pool) (i : ℕ) (b : Block) (a x : ℕ)
    → get_elem? p.all_blocks i ≡ some b
    → b.control ≡ some a
    → (mark_published host p i).headers x ≡ (
        if a == x
        then record (p.headers a) {
          ipc_uid = b.current_uid;
          publish_timestamp_us = host.time p.read;
        }
        else p.headers x)
unfolding mark_published
mark_published-headers host p i b a x at controlled =
    rw (at, mark_published, controlled) (ground arith)

pub mark_published-blocks :
    (host : Host) (p : Pool) (i : ℕ) → (mark_published host p i).all_blocks ≡ p.all_blocks
unfolding mark_published
mark_published-blocks host p i = elim (Option-cases (get_elem? p.all_blocks i)) [
  | inl e ↦ rw (e, mark_published) refl
  | inr (b, e) ↦
      rw (e, mark_published)
        (elim (Option-cases b.control) [ inl c ↦ rw c refl | inr (a, c) ↦ rw c refl ])
]
