-- ===== src/Python/Views.antt =====
-- The views of a write access, through any calls of Python.
use memfd_buffer_backend.Prelude.{
  ℕ, suc, ◌-◌, ◌^◌, ◌≡◌, ◌<◌, Bool, true, false, refl, ap, ◌∙◌, arith, if◌then◌else◌, some,
}
use memfd_buffer_backend.Errors.{ok, err, views_alive}
use memfd_buffer_backend.Handles.{Process, WriteHandle, finalized, empty_write}
use memfd_buffer_backend.Handles.Taking.{assign_write-Finalized}
use memfd_buffer_backend.Python.{NativeWriteAccess, getbuffer, releasebuffer, close}

-- A process with a write access, and the number of its views that are alive. Anything else may
-- change the process.
pub record Session : Type 0 where
  pub process : Process
  pub access : NativeWriteAccess
  pub views : ℕ

pub data Step : Session → Session → Type 0 where
  takes :
      {s : Session} (grants casts : Bool)
      → s.views < 2 ^ 64 - 1
      → Step s (record s {
        access = (getbuffer grants casts s.access).1;
        views = if (getbuffer grants casts s.access).0 then suc s.views else s.views;
      })
  drops :
      {s : Session}
      → 0 < s.views
      → Step s (record s { access = releasebuffer s.access; views = s.views - 1 })
  closes :
      {s : Session}
      → Step s (record s {
        process = (close s.process s.access).1.0;
        access = (close s.process s.access).1.1;
      })
  others : {s : Session} (p : Process) → Step s (record s { process = p })

pub data Reachable (h : WriteHandle) (n : ℕ) : Session → Type 0 where
  opens :
      (p : Process)
      → Reachable h n (record {
        process = p;
        access = record { handle = h; byte_count = n; exports = 0; closed = false };
        views = 0;
      })
  goes_on : {s t : Session} → Reachable h n s → Step s t → Reachable h n t

-- The views are counted; as long as the access is open, it has its handle, and a closed one has no
-- views.
pub record IsCounted (h : WriteHandle) (s : Session) : Type 0 where
  pub counted : s.access.exports ≡ s.views
  pub small : s.views < 2 ^ 64
  pub has_handle : s.access.closed ≡ false → s.access.handle ≡ h
  pub no_views : s.access.closed ≡ true → s.views ≡ 0

Step-IsCounted : (h : WriteHandle) (s t : Session) → IsCounted h s → Step s t → IsCounted h t
unfolding getbuffer releasebuffer close
Step-IsCounted h s t v (takes grants casts few) = record {
  counted = ground (arith, v.counted, v.small);
  small = ground (arith, v.small);
  has_handle = ground (arith, v.has_handle, v.no_views);
  no_views = ground (arith, v.no_views, v.counted);
}
Step-IsCounted h s t v (drops alive) = record {
  counted = ground (arith, v.counted, v.small);
  small = ground (arith, v.small);
  has_handle = ground (arith, v.has_handle, v.no_views);
  no_views = ground (arith, v.no_views, v.counted);
}
Step-IsCounted h s t v closes = record {
  counted = ground (arith, v.counted, v.small);
  small = ground (arith, v.small);
  has_handle = ground (arith, v.has_handle, v.no_views);
  no_views = ground (arith, v.no_views, v.counted);
}
Step-IsCounted h s t v (others p) = record {
  counted = v.counted;
  small = v.small;
  has_handle = v.has_handle;
  no_views = v.no_views;
}

Reachable-IsCounted : {h : WriteHandle} {n : ℕ} {s : Session} → Reachable h n s → IsCounted h s
Reachable-IsCounted {h = h} (opens p) = record {
  counted = refl;
  small = omega arith;
  has_handle = λ e. refl;
  no_views = λ e. refl;
}
Reachable-IsCounted {h = h} (goes_on {s = s} {t = t} r step) =
    Step-IsCounted h s t (Reachable-IsCounted r) step

-- Whatever Python calls, while a view of a write access is alive the access is open, has the handle
-- that it was opened with, and refuses to be closed, which changes nothing.
pub views_keep_open :
    {h : WriteHandle} {n : ℕ} {s : Session}
    → Reachable h n s
    → 0 < s.views
    → (s.access.closed ≡ false)
      × (s.access.handle ≡ h)
      × (close s.process s.access ≡ (err views_alive, (s.process, s.access)))
unfolding close
views_keep_open {s = s} r alive =
    let v = Reachable-IsCounted r in
    (
      ground (arith, v.no_views),
      ground (arith, v.no_views, v.has_handle),
      ground (arith, v.counted),
    )

-- Whatever Python has called, an open access without views can be closed, which finalizes the
-- buffer: its write state `k` is then finalized, and no view is given any more.
pub close-Finalized :
    {h : WriteHandle} {n : ℕ} {s : Session} (k : ℕ)
    → Reachable h n s
    → s.views ≡ 0
    → s.access.closed ≡ false
    → h.state ≡ some k
    → let (r, (p, a)) = close s.process s.access in
      (r ≡ ok tt)
      × ((p.states k).state ≡ finalized)
      × ((grants casts : Bool) → getbuffer grants casts a ≡ (false, a))
unfolding close getbuffer
close-Finalized {s = s} k r idle open_access e =
    let v = Reachable-IsCounted r in
    let unused : s.access.exports ≡ 0 = v.counted ∙ idle in
    let final =
      assign_write-Finalized s.process s.access.handle empty_write k
        (ap (λ x. x.state) (v.has_handle open_access) ∙ e) in
    (
      ground (arith, unused, open_access),
      ground (arith, unused, open_access, final),
      λ grants casts. ground (arith, unused, open_access),
    )
