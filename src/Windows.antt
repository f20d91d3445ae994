-- ===== src/Windows.antt =====
-- shared_buffer/src/shared_buffer_platform_windows.cpp: named file mappings. A handle is a
-- descriptor of `Os`; `std::to_string` and what `GetLastError` says after a mapping was created are
-- parameters.
pub mod Mapping
mod Examples
use Prim.Native.String.{String, ◌++◌}
use memfd_buffer_backend.Prelude.{
  ℕ, zero, suc, ◌+◌, ◌%◌, ◌^◌, Bool, true, false, not, List, ◌∷◌, Option, none, some, ◌==◌,
  if◌then◌else◌,
}
use memfd_buffer_backend.Errors.{
  Error, Result, ok, err, create_file_mapping_failed, open_file_mapping_failed, map_view_failed,
}
use memfd_buffer_backend.Pool.{Block, PlatformMapping}
use memfd_buffer_backend.Os.{Os, Log, closed, unmapped, open_descriptor, map_shared}

close_handle : Option ℕ → Log → Log
close_handle none l = l
close_handle (some h) l = closed h ∷ l

unfoldable pub destroy_platform_mapping : Option ℕ → ℕ → ℕ → Log → Log
unfolding close_handle
destroy_platform_mapping handle mapping size l =
    close_handle handle (if not (mapping == 0) then unmapped mapping ∷ l else l)

-- `MapViewOfFile`, and what becomes of the handle.
map_view : ℕ → ℕ → String → Option ℕ × Log → Result PlatformMapping × Log
map_view h size name (none, l) = (err map_view_failed, closed h ∷ l)
map_view h size name (some a, l) =
    (ok (record { native_handle = some h; mapping = a; mapped_size = size; ipc_name = name }), l)

map_opened : Os → ℕ → String → Option ℕ × Log → Result PlatformMapping × Log
unfolding map_view
map_opened os size name (none, l) = (err open_file_mapping_failed, l)
map_opened os size name (some h, l) = map_view h size name (map_shared os l)

pub import_platform_mapping : Os → String → ℕ → Log → Result PlatformMapping × Log
unfolding map_opened
import_platform_mapping os name size l = map_opened os size name (open_descriptor os l)

-- What the loop leaves: the handle, if it is not null, and whether the last error is
-- `ERROR_ALREADY_EXISTS`; and the last name.
pub record Created : Type 0 where
  pub mapping_handle : Option ℕ
  pub already_exists : Bool
  pub mapping_name : String

module _ (os : Os) (already_exists : Log → Bool) (to_string : ℕ → String) (process_id : ℕ) where
  pub mapping_name : ℕ → ℕ → ℕ → String
  mapping_name block_id nonce attempt =
      "Local\\rosidl_shared_buffer_"
      ++ to_string process_id
      ++ "_"
      ++ to_string ((nonce + attempt) % 2 ^ 64)
      ++ "_"
      ++ to_string block_id

  -- The body of the loop, for the answer of `CreateFileMappingW`; `rest` is what the attempts after
  -- it do.
  try_name : String → (Log → Created × Log) → Option ℕ × Log → Created × Log
  try_name name rest (none, l) =
      (record { mapping_handle = none; already_exists = false; mapping_name = name }, l)
  try_name name rest (some h, l) =
      if already_exists l
      then rest (closed h ∷ l)
      else (record { mapping_handle = some h; already_exists = false; mapping_name = name }, l)

  -- The loop from `attempt` on, with `left` attempts to come.
  try_names : ℕ → ℕ → ℕ → ℕ → String → Log → Created × Log
  unfolding try_name
  try_names block_id nonce zero attempt last l =
      (record { mapping_handle = none; already_exists = true; mapping_name = last }, l)
  try_names block_id nonce (suc left) attempt last l =
      let name = mapping_name block_id nonce attempt in
      try_name name (try_names block_id nonce left (attempt + 1) name) (open_descriptor os l)

  close_existing : Option ℕ → Log → Result PlatformMapping × Log
  unfolding close_handle
  close_existing handle l = (err create_file_mapping_failed, close_handle handle l)

  map_created : ℕ → Option ℕ → Bool → String → Log → Result PlatformMapping × Log
  unfolding map_view close_existing
  map_created size none existing name l = close_existing none l
  map_created size (some h) existing name l =
      if existing then close_existing (some h) l else map_view h size name (map_shared os l)

  finish_create : ℕ → Created × Log → Result PlatformMapping × Log
  unfolding map_created
  finish_create size (c, l) = map_created size c.mapping_handle c.already_exists c.mapping_name l

  pub create_platform_mapping : ℕ → ℕ → ℕ → Log → Result PlatformMapping × Log
  unfolding finish_create try_names
  create_platform_mapping size block_id nonce l =
      finish_create size (try_names block_id nonce 8 0 "" l)

-- The broker keeps no state.
pub register_block : Block → Result String
register_block block = elim block.native_handle [ none ↦ ok "" | some _ ↦ ok block.socket_path ]
