-- ===== src/Protocol/Progress.antt =====
-- A reader that runs alone: the loop of `try_acquire_shared_buffer_reader` and the import around it
-- end, however often the weak compare-exchange fails for no reason.
use memfd_buffer_backend.Prelude.{
  ℕ, suc, zero, ◌+◌, ◌%◌, ◌^◌, ◌≡◌, refl, Bool, not, ◌&&◌, List, [], ◌∷◌, ◌++◌, arith, replicate,
  if◌then◌else◌, ◌==◌,
}
use memfd_buffer_backend.Header.{ControlHeader, refuses_reader, try_acquire_reader, new_header}
use memfd_buffer_backend.Protocol.{
  Memory, Publisher, Purpose, import, lease, Reader, idle, validated, trying, acquired, holding,
  ReaderAction, take_descriptor, proceed, fail_weakly, reader_step,
}

-- The steps of one reader, with no other access between them.
pub alone : (ℕ → ℕ) → Memory → Publisher → Reader → List ReaderAction → Memory × Reader
alone uid m p r [] = (m, r)
alone uid m p r (a ∷ rest) = let (m', r') = reader_step uid m p r a in alone uid m' p r' rest

abbrev pub header_of : Memory → ControlHeader → ControlHeader
header_of m h = record h { reader_state = m.reader_state }

abbrev pub after_acquire : Memory → Purpose → ControlHeader × Bool → Memory × Reader
after_acquire m w (h, b) =
    (record m { reader_state = h.reader_state }, if b then acquired w else idle)

module _ (uid : ℕ → ℕ) (p : Publisher) (w : Purpose) where
  idle-alone :
      (m : Memory) (k : ℕ)
      → alone uid m p idle (replicate k fail_weakly ++ proceed ∷ []) ≡ (m, idle)
  unfolding alone reader_step
  idle-alone m zero = refl
  idle-alone m (suc k) = idle-alone m k

  trying-alone :
      (m : Memory) (h : ControlHeader) (k : ℕ)
      → alone uid m p (trying w m.reader_state) (replicate k fail_weakly ++ proceed ∷ [])
        ≡ after_acquire m w (try_acquire_reader (header_of m h))
  unfolding alone reader_step try_acquire_reader
  trying-alone m h zero = ground arith
  trying-alone m h (suc k) = ground (arith, trying-alone m h k, idle-alone m k)

  alone-append :
      (m : Memory) (r : Reader) (xs ys : List ReaderAction)
      → alone uid m p r (xs ++ ys) ≡ (let (m', r') = alone uid m p r xs in alone uid m' p r' ys)
  unfolding alone
  alone-append m r [] ys = refl
  alone-append m r (x ∷ xs) ys = let (m', r') = reader_step uid m p r x in alone-append m' r' xs ys

-- With `k` spurious failures, then a success.
abbrev pub rounds : ℕ → List ReaderAction
rounds k = replicate k fail_weakly ++ proceed ∷ []

-- From the load of `reader_state` on, a reader that runs alone leaves the loop after any number `k`
-- of spurious failures, with the state and the answer of `try_acquire_reader`: one slot more, or
-- refused with the state as it was.
pub loop-try_acquire_reader :
    (uid : ℕ → ℕ) (m : Memory) (h : ControlHeader) (p : Publisher) (w : Purpose) (k : ℕ)
    → alone uid m p (validated w) (proceed ∷ rounds k)
      ≡ after_acquire m w (try_acquire_reader (header_of m h))
unfolding alone reader_step
loop-try_acquire_reader uid m h p w k = trying-alone uid p w m h k

idle_alone :
    (uid : ℕ → ℕ) (m : Memory) (p : Publisher) (k : ℕ)
    → alone uid m p idle (proceed ∷ rounds k ++ proceed ∷ []) ≡ (m, idle)
unfolding alone reader_step
idle_alone uid m p k =
    rw (alone-append uid p lease m idle (rounds k) (proceed ∷ []), idle-alone uid p lease m k)

recheck_alone :
    (uid : ℕ → ℕ) (m : Memory) (p : Publisher) (g k : ℕ)
    → m.ipc_uid ≡ uid g
    → alone uid m p (trying (import g) m.reader_state) (rounds k ++ proceed ∷ []) ≡ (
        if not (refuses_reader m.reader_state)
        then (record m { reader_state = (m.reader_state + 1) % 2 ^ 32 }, holding (import g))
        else (m, idle))
recheck_alone uid m p g k e =
    rw
      (
        alone-append uid p (import g) m (trying (import g) m.reader_state) (rounds k)
            (proceed ∷ []),
        trying-alone uid p (import g) m new_header k,
      )
      (unfold alone reader_step try_acquire_reader in ground arith)

-- A reader that runs alone from the receipt of the descriptor of generation `g` ends, after any
-- number `k` of spurious failures, with the block held and one slot more where the uid of the
-- descriptor is not zero, is the stored one and a slot is free, and idle with nothing changed in
-- all other cases.
pub import_alone :
    (uid : ℕ → ℕ) (m : Memory) (p : Publisher) (g k : ℕ)
    → alone uid m p idle (take_descriptor g ∷ proceed ∷ proceed ∷ rounds k ++ proceed ∷ []) ≡ (
        if not (uid g == 0) && m.ipc_uid == uid g && not (refuses_reader m.reader_state)
        then (record m { reader_state = (m.reader_state + 1) % 2 ^ 32 }, holding (import g))
        else (m, idle))
unfolding alone reader_step
import_alone uid m p g k = ground (arith, recheck_alone uid m p g k, idle_alone uid m p k)
