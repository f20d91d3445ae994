-- ===== src/Os/Accounts.antt =====
-- What a routine that makes a mapping leaves open.
use memfd_buffer_backend.Prelude.{ℕ, ◌+◌, ◌≡◌, Option, none, some, ◌==◌, if◌then◌else◌}
use memfd_buffer_backend.Errors.{Result, ok, err}
use memfd_buffer_backend.Pool.{PlatformMapping}
use memfd_buffer_backend.Os.{Log, alive, mapped_at}

-- 1 where the value is `x`.
abbrev pub is : ℕ → Option ℕ → ℕ
is x none = 0
is x (some y) = if x == y then 1 else 0

abbrev pub handle_of : Result PlatformMapping → Option ℕ
handle_of (ok m) = m.native_handle
handle_of (err e) = none

abbrev pub address_of : Result PlatformMapping → Option ℕ
address_of (ok m) = some m.mapping
address_of (err e) = none

abbrev pub destroyed : (Option ℕ → ℕ → ℕ → Log → Log) → Result PlatformMapping → Log → Log
destroyed destroy (ok m) l = destroy m.native_handle m.mapping m.mapped_size l
destroyed destroy (err e) l = l

-- The calls from `l` on have left open what the result holds, and destroying it leaves nothing.
pub record Accounts (destroy : Option ℕ → ℕ → ℕ → Log → Log) (l : Log) (r : Result PlatformMapping)
    (l' : Log) : Type 0 where
  pub descriptors : (x : ℕ) → alive l' x ≡ alive l x + is x (handle_of r)
  pub regions : (x : ℕ) → mapped_at l' x ≡ mapped_at l x + is x (address_of r)
  pub no_descriptor_left : (x : ℕ) → alive (destroyed destroy r l') x ≡ alive l x
  pub no_region_left : (x : ℕ) → mapped_at (destroyed destroy r l') x ≡ mapped_at l x
