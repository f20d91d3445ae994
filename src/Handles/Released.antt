-- ===== src/Handles/Released.antt =====
-- What a release or a reset leaves alone.
use memfd_buffer_backend.Prelude.{ℕ, ◌≡◌, ◌≢◌, refl, ap, sym, ◌∙◌, Option, none, some, arith}
use memfd_buffer_backend.Header.{release_reader}
use memfd_buffer_backend.Pool.{update}
use memfd_buffer_backend.Handles.{
  SharedBuffer, ReadHandle, Process, release_read, reset, drop_reader, drop_lease,
}

pub reset-states : (p : Process) (b : SharedBuffer) (k : ℕ) → (reset p b).0.states k ≡ p.states k
unfolding reset
reset-states p b k = ground arith

drop_reader-pool : (p : Process) (s : Option ℕ) → (drop_reader p s).pool ≡ p.pool
unfolding drop_reader
drop_reader-pool p none = refl
drop_reader-pool p (some s) = refl

drop_lease-headers :
    (p q : Process) (lease : Option ℕ)
    → q.pool ≡ p.pool
    → (a : ℕ) → (drop_lease q lease).pool.headers a ≡ (drop_lease p lease).pool.headers a
unfolding drop_lease
drop_lease-headers p q none e a = ap (λ x. x.headers a) e
drop_lease-headers p q (some y) e a =
    ap (λ x. update x.headers y (release_reader (x.headers y)) a) e

module _ (p : Process) (h : ReadHandle) where
  pub release_read-blocks : (release_read p h).0.pool.all_blocks ≡ p.pool.all_blocks
  unfolding release_read
  release_read-blocks = ground arith

  pub release_read-headers :
      (q : Process)
      → q.pool ≡ p.pool
      → (a : ℕ) → (release_read q h).0.pool.headers a ≡ (release_read p h).0.pool.headers a
  unfolding release_read
  release_read-headers q e a =
      drop_lease-headers (drop_reader p h.state) (drop_reader q h.state) h.reader_lease
        (drop_reader-pool q h.state ∙ e ∙ sym (drop_reader-pool p h.state)) a

  pub release_read-state :
      (s x : ℕ) → h.state ≡ some s → x ≢ s → (release_read p h).0.states x ≡ p.states x
  unfolding release_read
  release_read-state s x e ne = ground arith

  pub release_read-next : (release_read p h).0.next_state ≡ p.next_state
  unfolding release_read
  release_read-next = ground arith
