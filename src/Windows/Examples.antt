-- ===== src/Windows/Examples.antt =====
-- The theorems on Windows, on a system that grants each call, where the first name exists already.
use Prim.Native.String.{String}
use memfd_buffer_backend.Prelude.{ℕ, Bool, true, false, [], ◌∷◌, ◌==◌, if◌then◌else◌}
use memfd_buffer_backend.Os.{Log, opened}
use memfd_buffer_backend.Os.Accounts.{Accounts}
use memfd_buffer_backend.Linux.Examples.{granting, granting-IsSound}
use memfd_buffer_backend.Windows.{create_platform_mapping, destroy_platform_mapping}
use memfd_buffer_backend.Windows.Mapping.{windows_create-Accounts}

abbrev first_exists : Log → Bool
first_exists (opened h ∷ []) = true
first_exists _ = false

abbrev to_string : ℕ → String
to_string n = if n == 0 then "0" else "1"

windows_create-Accounts_example :
    let (r, l) = create_platform_mapping granting first_exists to_string 1 72 0 9 [] in
    Accounts destroy_platform_mapping [] r l
windows_create-Accounts_example =
    windows_create-Accounts granting-IsSound first_exists to_string 1 72 0 9 []
