-- ===== src/HostEndpoint.antt =====
-- shared_buffer/src/host_endpoint_manager.cpp: the metadata by which endpoints know that they share
-- a host, a user and, on Windows, a session. What the system answers is a parameter, `none` where a
-- call fails; so is `std::to_string`.
pub mod Identity
pub mod Examples
use Prim.Native.String.{String, ◌++◌}
use memfd_buffer_backend.Prelude.{ℕ, Bool, Option, none, some, ◌&&◌, ltb, if◌then◌else◌}

-- What `gethostname` writes, and `geteuid`, which does not fail.
unfoldable pub linux_metadata : (ℕ → String) → Option String → ℕ → String
linux_metadata to_string none euid = "unknown:" ++ to_string euid
linux_metadata to_string (some hostname) euid = hostname ++ ":" ++ to_string euid

-- The text of the user's SID: `OpenProcessToken`, the size that `GetTokenInformation` asks for, its
-- second call, and `ConvertSidToStringSidA`.
pub sid_of : Bool → ℕ → Bool → Option String → Option String
sid_of opened required informed sid_text =
    if opened && (ltb 0 required && informed) then sid_text else none

pub record WindowsAnswers : Type 0 where
  pub host : Option String
  pub sid : Option String
  pub session_id : Option ℕ
  pub process_id : ℕ

metadata_of : (ℕ → String) → Option String → Option String → Option ℕ → ℕ → String
metadata_of to_string (some host) (some sid) (some session_id) process_id =
    host ++ ":" ++ sid ++ ":" ++ to_string session_id
metadata_of to_string host sid session_id process_id = "unavailable:" ++ to_string process_id

pub windows_metadata : (ℕ → String) → WindowsAnswers → String
unfolding metadata_of
windows_metadata to_string w = metadata_of to_string w.host w.sid w.session_id w.process_id
