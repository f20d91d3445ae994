-- ===== src/Backend/Discovery.antt =====
-- Which endpoints get a descriptor.
use Prim.Native.String.{String}
use text.Mathlib.TextEquality.{eq_iff}
use memfd_buffer_backend.Prelude.{
  ℕ, ◌≡◌, refl, ap, sym, ◌↔◌, true, false, Option, none, some, arith,
}
use memfd_buffer_backend.Pool.{Host}
use memfd_buffer_backend.Handles.{Pid}
use memfd_buffer_backend.Storage.{SharedBufferImpl}
use memfd_buffer_backend.HostEndpoint.{linux_metadata}
use memfd_buffer_backend.HostEndpoint.Identity.{IsPlain, linux_metadata_iff}
use memfd_buffer_backend.Backend.Sending.{
  Broker, Sender, on_discovering_endpoint, known_incompatible, create_descriptor_with_endpoint,
}

-- An endpoint is compatible exactly when its metadata for this backend are those of this host.
pub on_discovering_endpoint_iff :
    {broker : Broker} (metadata : String) (s : Sender broker) (gid : ℕ) (supported : Option String)
    → ((on_discovering_endpoint metadata s gid supported).0 ≡ true) ↔ (supported ≡ some metadata)
unfolding on_discovering_endpoint known_incompatible
on_discovering_endpoint_iff metadata s gid none = ((λ e. cc), (λ e. cc))
on_discovering_endpoint_iff metadata s gid (some t) =
    ((λ e. ap some ((eq_iff t metadata).0 e)), (λ e. (eq_iff t metadata).1 cc))

-- On Linux an endpoint is found compatible exactly when the names of the two hosts agree and the
-- effective users agree, where both hosts have names, none with a colon, and numbers are printed
-- apart, without one.
pub on_discovering_endpoint_linux_iff :
    {broker : Broker} (to_string : ℕ → String)
    → ((m n : ℕ) → to_string m ≡ to_string n → m ≡ n)
    → ((n : ℕ) → IsPlain (to_string n))
    → (s : Sender broker) (gid : ℕ) (hostname other_name : String) (euid other_euid : ℕ)
    → IsPlain hostname
    → IsPlain other_name
    → ((on_discovering_endpoint
          (linux_metadata to_string (some hostname) euid)
          s
          gid
          (some (linux_metadata to_string (some other_name) other_euid))).0
        ≡ true)
      ↔ ((hostname ≡ other_name) × (euid ≡ other_euid))
on_discovering_endpoint_linux_iff to_string injective plain s gid hostname other_name euid
      other_euid p q =
    let (compatible, back) =
      on_discovering_endpoint_iff (linux_metadata to_string (some hostname) euid) s gid
        (some (linux_metadata to_string (some other_name) other_euid)) in
    let (same, metadata) =
      linux_metadata_iff to_string injective plain hostname other_name euid other_euid p q in
    ((λ e. let found = compatible e in same (cc)), λ e. back (ap some (sym (metadata e))))

discovered :
    {broker : Broker} (metadata : String) (s : Sender broker) (gid : ℕ) (supported : Option String)
    → (on_discovering_endpoint metadata s gid supported).0 ≡ false
    → known_incompatible ((on_discovering_endpoint metadata s gid supported).1.compatible gid)
      ≡ true
unfolding on_discovering_endpoint known_incompatible
discovered metadata s gid supported e = ground (arith, e)

refused_none :
    {broker : Broker} (t : Sender broker) (gid : ℕ) (host : Host) (self : Pid) (uint8_name : String)
    (impl : Option SharedBufferImpl)
    → known_incompatible (t.compatible gid) ≡ true
    → create_descriptor_with_endpoint host self uint8_name t impl gid ≡ (none, t)
unfolding create_descriptor_with_endpoint
refused_none t gid host self uint8_name impl refused =
    rw (refused, create_descriptor_with_endpoint) refl

-- An endpoint that was found incompatible gets no descriptor, and nothing changes.
pub incompatible_falls_back :
    {broker : Broker} (metadata : String) (s : Sender broker) (gid : ℕ) (supported : Option String)
    (host : Host) (self : Pid) (uint8_name : String) (impl : Option SharedBufferImpl)
    → (on_discovering_endpoint metadata s gid supported).0 ≡ false
    → let t = (on_discovering_endpoint metadata s gid supported).1 in
      create_descriptor_with_endpoint host self uint8_name t impl gid ≡ (none, t)
incompatible_falls_back metadata s gid supported host self uint8_name impl e =
    refused_none (on_discovering_endpoint metadata s gid supported).1 gid host self uint8_name impl
      (discovered metadata s gid supported e)
