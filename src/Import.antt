-- ===== src/Import.antt =====
-- shared_buffer/src/shared_buffer_ipc_manager.cpp: the cache of imported mappings, the validation
-- of a mapping against a descriptor, and the reader slots of an imported block. `import_block` runs
-- under the mutex of the cache, so a call is one step.
pub mod Types
pub mod Outcome
pub mod Cache
pub mod Examples
pub use Types.*
use Prim.Native.String.{String}
use text.Mathlib.Text.{◌==◌ as same_text}
use memfd_buffer_backend.Prelude.{
  ℕ, suc, ◌+◌, ◌-◌, ◌^◌, Bool, true, false, not, ◌&&◌, ◌||◌, List, [], ◌∷◌, ◌++◌, Option, none,
  some, ltb, ◌==◌, if◌then◌else◌, length, get_elem?,
}
use memfd_buffer_backend.Errors.{
  Result, ok, err, invalid_mapping_size, abi_mismatch, payload_size_mismatch, zero_publication_uid,
  stale_publication_uid, unmapped_memory, shared_block_being_reused, invalid_metadata,
}
use memfd_buffer_backend.Header.{
  ControlHeader, control_magic, control_abi_version, payload_offset, try_acquire_reader,
  release_reader,
}
use memfd_buffer_backend.Pool.{PlatformMapping}
use memfd_buffer_backend.Handles.{Pid, pid, negative, Process, with_header, is_empty}

same_pid : Pid → Pid → Bool
same_pid (pid n) (pid m) = n == m
same_pid (negative n) (negative m) = n == m
same_pid _ _ = false

-- `CacheKey::operator==`.
pub same_key : CacheKey → CacheKey → Bool
unfolding same_pid
same_key k l = same_pid k.pid l.pid && k.block_id == l.block_id && same_text k.ipc_name l.ipc_name

-- `cache().find(key)`.
unfoldable pub find_key : List (CacheKey × ℕ) → CacheKey → Option ℕ
find_key [] k = none
find_key ((l, i) ∷ c) k = if same_key l k then some i else find_key c k

validate_header : ControlHeader → ℕ → ℕ → Result (Unit {0})
validate_header h payload_size expected_uid =
    if not (h.magic == control_magic) || not (h.abi_version == control_abi_version)
    then err abi_mismatch
    else if not (h.payload_size == payload_size)
    then err payload_size_mismatch
    else if expected_uid == 0
    then err zero_publication_uid
    else if not (h.ipc_uid == expected_uid)
    then err stale_publication_uid
    else ok tt

unfoldable pub validate_mapping : Process → ImportedBlock → ℕ → ℕ → ℕ → Result (Unit {0})
unfolding validate_header
validate_mapping p b mapped_size payload_size expected_uid = elim b.control [
  | none ↦ err invalid_mapping_size
  | some a ↦
      if not (mapped_size == b.mapped_size)
        || (ltb mapped_size payload_offset || ltb (mapped_size - payload_offset) payload_size)
      then err invalid_mapping_size
      else validate_header (p.pool.headers a) payload_size expected_uid
]

-- `SharedBufferImportedBlock::acquire_reader`, `release_reader` and `payload`.
unfoldable pub acquire_reader : Process → ImportedBlock → Result (Unit {0}) × Process
acquire_reader p b = elim b.control [
  | none ↦ (err unmapped_memory, p)
  | some a ↦
      let (h, got) = try_acquire_reader (p.pool.headers a) in
      if got then (ok tt, with_header p a h) else (err shared_block_being_reused, p)
]

unfoldable pub release_imported_reader : Process → ImportedBlock → Process
release_imported_reader p b = elim b.control [
  | none ↦ p
  | some a ↦ with_header p a (release_reader (p.pool.headers a))
]

abbrev pub payload : ImportedBlock → ℕ
payload b = b.mapping + payload_offset

-- The constructor of `SharedBufferImportedBlock`.
abbrev pub imported_of : PlatformMapping → String → ImportedBlock
imported_of m ipc_name = record {
  native_handle = m.native_handle;
  mapping = m.mapping;
  mapped_size = m.mapped_size;
  control = some m.mapping;
  ipc_name = ipc_name;
}

-- An entry of the cache: `validate`, with the block that it leads to.
abbrev found : ℕ → Result (Unit {0}) → Result ℕ
found i (ok _) = ok i
found i (err e) = err e

use_cached : Importer → ℕ → ℕ → ℕ → ℕ → Result ℕ
use_cached m i mapped_size payload_size expected_uid = elim (get_elem? m.imported_blocks i) [
  | none ↦ err invalid_mapping_size
  | some b ↦ found i (validate_mapping m.process b mapped_size payload_size expected_uid)
]

-- A new block that is refused goes out of use at once, so its destructor runs.
keep_valid : Importer → CacheKey → ImportedBlock → Result (Unit {0}) → Result ℕ × Importer
keep_valid m key b (ok _) = (
  ok (length m.imported_blocks),
  record m {
    cache = (key, length m.imported_blocks) ∷ m.cache;
    imported_blocks = m.imported_blocks ++ b ∷ [];
  },
)
keep_valid m key b (err e) = (err e, record m { destroyed = b ∷ m.destroyed })

map_block :
    Importer → CacheKey → ℕ → ℕ → ℕ → Result (PlatformMapping × ControlHeader) → Result ℕ × Importer
unfolding keep_valid
map_block m key mapped_size payload_size expected_uid (err e) = (err e, m)
map_block m key mapped_size payload_size expected_uid (ok (mapping, h)) =
    let b = imported_of mapping key.ipc_name in
    let m' = record m { process = with_header m.process mapping.mapping h } in
    keep_valid m' key b (validate_mapping m'.process b mapped_size payload_size expected_uid)

module _ (platform : Platform) where
  open platform use {import_mapping}

  pub import_with : Importer → CacheKey → ℕ → ℕ → ℕ → Option ℕ → Result ℕ × Importer
  unfolding use_cached map_block
  import_with m key mapped_size payload_size expected_uid (some i) =
      (use_cached m i mapped_size payload_size expected_uid, m)
  import_with m key mapped_size payload_size expected_uid none =
      map_block (record m { imports = m.imports + 1 }) key mapped_size payload_size expected_uid
        (import_mapping m.imports key.ipc_name mapped_size)

  unfoldable pub import_block : Importer → String → Pid → ℕ → ℕ → ℕ → ℕ → Result ℕ × Importer
  unfolding import_with
  import_block m ipc_name process_id block_id mapped_size payload_size expected_uid =
      if is_empty ipc_name || (ltb mapped_size payload_offset || ltb (2 ^ 64 - 1) mapped_size)
      then (err invalid_metadata, m)
      else let key : CacheKey = record {
        pid = process_id;
        block_id = block_id;
        ipc_name = ipc_name;
      } in
        import_with m key mapped_size payload_size expected_uid (find_key m.cache key)
