-- ===== src/Handles/Client/Calls.antt =====
-- Every call of a client keeps the fit of the memory and the open handles.
use memfd_buffer_backend.Prelude.{ℕ, inl, inr, List, [], ◌∷◌, arith, Option-cases, get_elem?}
use memfd_buffer_backend.Handles.{
  get_read_handle, get_write_handle, hold_reader_reference, reset, release_read, release_write,
  finalize_write_handle,
}
use memfd_buffer_backend.Handles.Client.{
  Client, Call, open_read, close_read, transfer_read, open_write, close_write, finalize, hold,
  destroy, add_read, add_write, call, calls, held_by, Inv,
}
use memfd_buffer_backend.Handles.Client.Reading.{get_read_handle-Fits}
use memfd_buffer_backend.Handles.Client.Writing.{
  get_write_handle-Fits, release_write-Fits, finalize_write_handle-Fits,
}
use memfd_buffer_backend.Handles.Client.Releasing.{release_read-Fits}
use memfd_buffer_backend.Handles.Client.Buffers.{hold_reader_reference-Fits, reset-Fits}
use memfd_buffer_backend.Handles.Client.Made.{
  AllMade-set, reset-IsMade, AllMade-keep, get_read_handle-IsMade, get_write_handle-IsMade,
  hold_reader_reference-IsMade, reset-next, release_read-next, release_write-next,
  finalize_write_handle-next,
}
use memfd_buffer_backend.Handles.Client.Invariant.{
  read-slots, write-slots, add_read-Inv, add_write-Inv, move_into-Inv,
}

module _ (others : ℕ → ℕ) where
  -- Every call keeps the fit.
  call-Inv : (c : Client) (x : Call) → Inv others c → Inv others (call c x)
  unfolding call add_read add_write release_read
  call-Inv c (open_read i) v = elim (Option-cases (get_elem? c.buffers i)) [
    | inl e ↦ rw (call, e) v
    | inr (b, e) ↦
        rw (call, e)
          (add_read-Inv others c i b (get_read_handle c.process b) v e
            (get_read_handle-Fits others (held_by c.buffers) c.writes c.process b c.reads v.fits
              (v.made i b e))
            (read-slots others c.process b) (get_read_handle-IsMade c.process b (v.made i b e)))
  ]
  call-Inv c (open_write i) v = elim (Option-cases (get_elem? c.buffers i)) [
    | inl e ↦ rw (call, e) v
    | inr (b, e) ↦
        rw (call, e)
          (add_write-Inv others c i b (get_write_handle c.process b) v e
            (get_write_handle-Fits others (held_by c.buffers) c.reads c.process b c.writes v.fits
              (v.made i b e))
            (write-slots others c.process b) (get_write_handle-IsMade c.process b (v.made i b e)))
  ]
  call-Inv c (close_read i) v = elim (Option-cases (get_elem? c.reads i)) [
    | inl e ↦ rw (call, e) v
    | inr (h, e) ↦
        rw (call, e)
          (record {
            fits =
                release_read-Fits others (held_by c.buffers) c.process c.reads c.writes i h v.fits
                  e;
            made =
                AllMade-keep c.process (release_read c.process h).0 c.buffers v.made
                  (omega (arith, release_read-next c.process h));
          })
  ]
  call-Inv c (close_write i) v = elim (Option-cases (get_elem? c.writes i)) [
    | inl e ↦ rw (call, e) v
    | inr (h, e) ↦
        rw (call, e)
          (record {
            fits =
                release_write-Fits others (held_by c.buffers) c.reads c.process c.writes i h v.fits
                  e;
            made =
                AllMade-keep c.process (release_write c.process h).0 c.buffers v.made
                  (omega (arith, release_write-next c.process h));
          })
  ]
  call-Inv c (transfer_read i j) v = elim (Option-cases (get_elem? c.reads i)) [
    | inl e ↦ rw (call, e) v
    | inr (h, e) ↦ elim (Option-cases (get_elem? c.reads j)) [
      | inl d ↦ rw (call, e, d) v
      | inr (g, d) ↦ rw (call, e, d) (move_into-Inv others c i j h g v e d)
    ]
  ]
  call-Inv c (finalize i) v = elim (Option-cases (get_elem? c.buffers i)) [
    | inl e ↦ rw (call, e) v
    | inr (b, e) ↦
        rw (call, e)
          (record {
            fits =
                finalize_write_handle-Fits others (held_by c.buffers) c.reads c.process b c.writes
                  v.fits (v.made i b e);
            made =
                AllMade-keep c.process (finalize_write_handle c.process b) c.buffers v.made
                  (omega (arith, finalize_write_handle-next c.process b));
          })
  ]
  call-Inv c (hold i) v = elim (Option-cases (get_elem? c.buffers i)) [
    | inl e ↦ rw (call, e) v
    | inr (b, e) ↦
        let (le, made) = hold_reader_reference-IsMade c.process b (v.made i b e) in
        rw (call, e)
          (record {
            fits =
                hold_reader_reference-Fits others c.reads c.writes c.process c.buffers i b v.fits e;
            made =
                AllMade-set c.process (hold_reader_reference c.process b).1.0 c.buffers i b
                  (hold_reader_reference c.process b).1.1 v.made e le made;
          })
  ]
  call-Inv c (destroy i) v = elim (Option-cases (get_elem? c.buffers i)) [
    | inl e ↦ rw (call, e) v
    | inr (b, e) ↦
        rw (call, e)
          (record {
            fits = reset-Fits others c.reads c.writes c.process c.buffers i b v.fits e;
            made =
                AllMade-set c.process (reset c.process b).0 c.buffers i b (reset c.process b).1
                  v.made e (omega (arith, reset-next c.process b)) (reset-IsMade c.process b);
          })
  ]

  pub calls-Inv : (c : Client) (xs : List Call) → Inv others c → Inv others (calls c xs)
  unfolding calls
  calls-Inv c [] v = v
  calls-Inv c (x ∷ xs) v = calls-Inv (call c x) xs (call-Inv c x v)
