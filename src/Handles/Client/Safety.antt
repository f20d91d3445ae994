-- ===== src/Handles/Client/Safety.antt =====
-- What holds of the buffers and handles of a client after any sequence of calls.
use memfd_buffer_backend.Prelude.{
  ℕ, ◌+◌, ◌≤◌, ◌≡◌, ◌≢◌, List, [], none, some, arith, get_elem?, total, le-total,
}
use memfd_buffer_backend.Header.{reader_count_mask}
use memfd_buffer_backend.Handles.{in_use, new_state, ReadHandle, SharedBuffer}
use memfd_buffer_backend.Handles.Client.{
  Client, Call, calls, held_by, reads_control, reads_state, writes_state, writers_allowed, Fits,
  Inv,
}
use memfd_buffer_backend.Handles.Client.Calls.{calls-Inv}

-- A client with buffers, none of which has been read or written, and with no handle. The slots
-- taken in a header are those of other processes and those that the buffers came with.
pub record Starts (others : ℕ → ℕ) (c : Client) : Type 0 where
  pub no_reads : c.reads ≡ []
  pub no_writes : c.writes ≡ []
  pub untouched :
      (i : ℕ) (b : SharedBuffer) → get_elem? c.buffers i ≡ some b → b.handle_state ≡ none
  pub new_states : (s : ℕ) → c.process.states s ≡ new_state
  pub slots : (a : ℕ) → (c.process.pool.headers a).reader_state ≡ others a + held_by c.buffers a
  pub bounded : (a : ℕ) → (c.process.pool.headers a).reader_state ≤ reader_count_mask

Starts-Inv : (others : ℕ → ℕ) (c : Client) → Starts others c → Inv others c
unfolding total
Starts-Inv others c v = record {
  fits = record {
    readers = λ s. ground (arith, v.no_reads, v.new_states s);
    exclusive = λ s u. ground (arith, v.new_states s);
    writers = λ s. ground (arith, v.no_writes, v.new_states s);
    fresh = λ s le. v.new_states s;
    slots = λ a. ground (arith, v.no_reads, v.slots a);
    bounded = v.bounded;
  };
  made = λ i b at s e. ground (arith, v.untouched i b at, e);
}

after-Fits :
    (others : ℕ → ℕ) (c : Client) (xs : List Call)
    → Starts others c
    → Fits others
        (held_by (calls c xs).buffers)
        (calls c xs).process
        (calls c xs).reads
        (calls c xs).writes
after-Fits others c xs v = (calls-Inv others c xs (Starts-Inv others c v)).fits

-- After any calls, the reader slots taken in a control header are those of other processes, those
-- of the buffers, and one for each open read handle with that header: none is lost and none is
-- given back twice.
pub slots_counted :
    (others : ℕ → ℕ) (c : Client) (xs : List Call)
    → Starts others c
    → (a : ℕ)
    → ((calls c xs).process.pool.headers a).reader_state
      ≡ others a + held_by (calls c xs).buffers a + total (reads_control a) (calls c xs).reads
slots_counted others c xs v a = (after-Fits others c xs v).slots a

-- After any calls, a write state that an open read handle has is not in use by a writer.
pub no_reader_while_writing :
    (others : ℕ → ℕ) (c : Client) (xs : List Call) (i s : ℕ) (h : ReadHandle)
    → Starts others c
    → get_elem? (calls c xs).reads i ≡ some h
    → h.state ≡ some s
    → ((calls c xs).process.states s).state ≢ in_use
no_reader_while_writing others c xs i s h v at e writing =
    let w = after-Fits others c xs v in
    ground (
      arith,
      w.readers s,
      w.exclusive s writing,
      le-total (reads_state s) (calls c xs).reads i at,
      e,
    )

-- After any calls, at most one write handle has ever been given out for a write state, and none
-- while the state is unset.
pub at_most_one_writer :
    (others : ℕ → ℕ) (c : Client) (xs : List Call)
    → Starts others c
    → (s : ℕ)
    → total (writes_state s) (calls c xs).writes
      ≤ writers_allowed ((calls c xs).process.states s).state
at_most_one_writer others c xs v s = (after-Fits others c xs v).writers s
