-- ===== src/Storage/Copies.antt =====
-- What a copy of a payload into a new buffer leaves, on every path.
use memfd_buffer_backend.Prelude.{ℕ, ◌≡◌, ◌<◌, refl, ap, sym, subst, ◌∙◌, Option, some, arith}
use memfd_buffer_backend.Errors.{Result, ok, err}
use memfd_buffer_backend.Handles.{
  finalized, SharedBuffer, ReadHandle, Deleter, Process, get_read_handle, get_write_handle,
  release_read, release_write, ensure_state,
}
use memfd_buffer_backend.Handles.Exclusion.{IsWord, Undone, get_read_handle-Undone}
use memfd_buffer_backend.Handles.Taking.{
  TakenRead, Taken, IsMade, get_read_handle-Taken, get_read_handle-same, Written, new_buffer,
  get_write_handle-Written, ensure_state-headers,
}
use memfd_buffer_backend.Handles.Released.{
  release_read-blocks, release_read-headers, release_read-state, release_read-next,
}
use memfd_buffer_backend.Storage.{Heap, copy_write, copy_read, copy_payload}
use memfd_buffer_backend.Storage.Bytes.{copy_bytes, memcpy}

-- Every field of the buffer is that of `b`, but for the write state.
abbrev pub SameBuffer : SharedBuffer → SharedBuffer → Type 0
SameBuffer b c = c ≡ record b { handle_state = c.handle_state }

-- A copy of `n` bytes from `s` to `d`, between `h` and `h'`. The new buffer has been finalized, and
-- the headers are as before.
pub record Copied (h : Heap) (from to : SharedBuffer) (s d n : ℕ) (h' : Heap)
    (from' to' : SharedBuffer) : Type 0 where
  pub bytes : h'.bytes ≡ copy_bytes h.bytes d s n
  pub blocks : h'.process.pool.all_blocks ≡ h.process.pool.all_blocks
  pub headers : (a : ℕ) → h'.process.pool.headers a ≡ h.process.pool.headers a
  pub kept : SameBuffer from from'
  pub state : ℕ
  pub new_state : to' ≡ record to { handle_state = some state }
  pub made : state < h'.process.next_state
  pub final : (h'.process.states state).state ≡ finalized
  pub unread : (h'.process.states state).active_readers ≡ 0

-- A copy that throws has copied nothing.
pub record Uncopied (h : Heap) (from to : SharedBuffer) (h' : Heap) (from' to' : SharedBuffer)
    : Type 0 where
  pub bytes : h'.bytes ≡ h.bytes
  pub blocks : h'.process.pool.all_blocks ≡ h.process.pool.all_blocks
  pub headers : (a : ℕ) → h'.process.pool.headers a ≡ h.process.pool.headers a
  pub kept : SameBuffer from from'
  pub same_new : to' ≡ to

abbrev pub CopyOutcome :
    Heap
    → SharedBuffer
    → SharedBuffer
    → ℕ
    → ℕ
    → ℕ
    → Result (Unit {0}) × (Heap × (SharedBuffer × SharedBuffer))
    → Type 0
CopyOutcome h from to s d n (err e, (h', (from', to'))) = Uncopied h from to h' from' to'
CopyOutcome h from to s d n (ok _, (h', (from', to'))) = Copied h from to s d n h' from' to'

module _ (h : Heap) (from : SharedBuffer) (s d size : ℕ) (deleter : Deleter) (control : Option ℕ)
    (block_id mapped_size n : ℕ) where
  abbrev to : SharedBuffer
  to = new_buffer d size deleter control block_id mapped_size

  copy_write-Copied :
      (r : ReadHandle) (p : Process) (c : SharedBuffer)
      → Written p to
      → TakenRead h.process.pool.all_blocks from r p
      → SameBuffer from c
      → from.data_ptr ≡ some s
      → ((a : ℕ) → (release_read p r).0.pool.headers a ≡ h.process.pool.headers a)
      → CopyOutcome h from to s d n (copy_write h r c n (get_write_handle p to))
  unfolding copy_write memcpy
  copy_write-Copied r p c w taken kept located headers =
      subst (λ x. CopyOutcome h from to s d n (copy_write h r c n x)) (sym w.had)
        (record {
          bytes =
              ap (λ x. memcpy h.bytes x r.data_ptr n) w.same_payload
              ∙ ap (λ x. memcpy h.bytes (some d) x n) (taken.same_payload ∙ located);
          blocks =
              release_read-blocks (release_write w.process w.handle).0 r
              ∙ ap (λ x. x.all_blocks) w.same_pool
              ∙ taken.same_blocks;
          headers = λ a.
              release_read-headers p r (release_write w.process w.handle).0 w.same_pool a
              ∙ headers a;
          kept = kept;
          state = p.next_state;
          new_state = refl;
          made = ground (arith, release_read-next (release_write w.process w.handle).0 r, w.made);
          final =
              ap (λ x. x.state)
                (release_read-state (release_write w.process w.handle).0 r taken.state p.next_state
                  taken.state_of_handle (ground (arith, taken.state_made)))
              ∙ w.final;
          unread =
              ap (λ x. x.active_readers)
                (release_read-state (release_write w.process w.handle).0 r taken.state p.next_state
                  taken.state_of_handle (ground (arith, taken.state_made)))
              ∙ w.unread;
        })

  copy_read-Outcome :
      (r : Result ReadHandle) (p q : Process) (c : SharedBuffer)
      → 0 < size
      → Taken h.process.pool.all_blocks from (r, q)
      → Undone p (r, (q, c))
      → ((a : ℕ) → p.pool.headers a ≡ h.process.pool.headers a)
      → SameBuffer from c
      → from.data_ptr ≡ some s
      → CopyOutcome h from to s d n (copy_read h to n (r, (q, c)))
  unfolding copy_read
  copy_read-Outcome (err e) p q c filled taken undone headers kept located = record {
    bytes = refl;
    blocks = taken;
    headers = λ a. undone.same_headers a ∙ headers a;
    kept = kept;
    same_new = refl;
  }
  copy_read-Outcome (ok r) p q c filled taken undone headers kept located =
      copy_write-Copied r q c
        (get_write_handle-Written q d size deleter control block_id mapped_size filled) taken kept
        located (λ a. undone.same_headers a ∙ headers a)

  -- Where the source can be read, the copy is made; otherwise nothing has changed.
  pub copy_payload-Outcome :
      0 < size
      → from.data_ptr ≡ some s
      → IsMade h.process from.handle_state
      → IsWord h.process from.control
      → CopyOutcome h from to s d n (copy_payload h from to n)
  unfolding copy_payload
  copy_payload-Outcome filled located made word =
      copy_read-Outcome (get_read_handle h.process from).0 (ensure_state h.process from).0
        (get_read_handle h.process from).1.0 (get_read_handle h.process from).1.1 filled
        (get_read_handle-Taken h.process from made) (get_read_handle-Undone h.process from word)
        (ensure_state-headers h.process from) (get_read_handle-same h.process from) located
