-- ===== src/Handles/Restored.antt =====
-- A read handle that is had and released again leaves the pool as it was; a buffer of the pool that
-- is reset gives its block back.
use memfd_buffer_backend.Prelude.{ℕ, ◌+◌, true, ◌≡◌, refl, ap, sym, subst, ◌∙◌, some, none, arith}
use memfd_buffer_backend.Errors.{Result, ok, err, reading_while_writing}
use memfd_buffer_backend.Header.{try_acquire_reader, release_reader}
use memfd_buffer_backend.Pool.{Pool, free}
use memfd_buffer_backend.Pool.Claims.{SameBlocks}
use memfd_buffer_backend.Handles.{
  SharedBuffer, Process, ReadHandle, read_with, get_read_handle, release_read, ensure_state, in_use,
  unset, finalized, with_state, finish_read, make_lease, state_of, reset, frees,
}

pub record SamePool (p q : Pool) : Type 0 where
  pub blocks : SameBlocks p q
  pub headers : (a : ℕ) → q.headers a ≡ p.headers a

abbrev pub Restored : Pool → Result ReadHandle × Process → Type 0
Restored p (err e, q) = Unit
Restored p (ok h, q) = SamePool p (release_read q h).0.pool

finish_read-Restored :
    (p : Process) (b : SharedBuffer) (s a : ℕ)
    → (p.pool.headers a).reader_state ≡ 0
    → Restored p.pool (finish_read b s (make_lease p (some a)))
unfolding finish_read make_lease release_read try_acquire_reader release_reader
finish_read-Restored p b s a w =
    let got : (try_acquire_reader (p.pool.headers a)).1 ≡ true = ground (arith, w) in
    rw (make_lease, got)
      (record {
        blocks = record {
          same_blocks = refl;
          same_free = refl;
          same_next = refl;
          same_drawn = refl;
          same_created = refl;
        };
        headers = λ x. ground (arith, w);
      })

read_with-Restored :
    (p : Process) (b : SharedBuffer) (s a : ℕ)
    → b.control ≡ some a
    → (p.pool.headers a).reader_state ≡ 0
    → Restored p.pool (read_with b s p)
unfolding read_with
read_with-Restored p b s a e w =
    let q : Process =
      with_state p s (record (p.states s) { active_readers = (p.states s).active_readers + 1 }) in
    let restored : Restored p.pool (finish_read b s (make_lease q b.control)) =
      subst (λ c. Restored p.pool (finish_read b s (make_lease q c))) (sym e)
        (finish_read-Restored q b s a w) in
    elim (p.states s).state
      as (λ y. Restored p.pool (elim y [
        | in_use ↦ (err reading_while_writing, p)
        | _ ↦ finish_read b s (make_lease q b.control)
      ])) [ in_use ↦ tt | unset ↦ restored | finalized ↦ restored ]

ensure_state-pool : (p : Process) (b : SharedBuffer) → (ensure_state p b).0.pool ≡ p.pool
unfolding ensure_state
ensure_state-pool p b = ground arith

pub get_read_handle-Restored :
    (p : Process) (b : SharedBuffer) (a : ℕ)
    → b.control ≡ some a
    → (p.pool.headers a).reader_state ≡ 0
    → let (r, (q, c)) = get_read_handle p b in Restored p.pool (r, q)
unfolding get_read_handle
get_read_handle-Restored p b a e w =
    let same = ensure_state-pool p b in
    subst (λ x. Restored x (read_with b (state_of p b) (ensure_state p b).0)) same
      (read_with-Restored (ensure_state p b).0 b (state_of p b) a e
        (ap (λ (x : Pool). (x.headers a).reader_state) same ∙ w))

-- The deleter of a pool's buffer runs `free`.
pub reset-frees :
    (p : Process) (b : SharedBuffer) (d i : ℕ)
    → b.data_ptr ≡ some d
    → b.deleter ≡ frees i
    → b.held_reader_lease ≡ none
    → (reset p b).0.pool ≡ free p.pool i
unfolding reset
reset-frees p b d i located owns unheld = rw (reset, unheld, located, owns) refl
