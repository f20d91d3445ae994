-- ===== src/Import/Examples.antt =====
-- The theorems on the import cache, at a platform that maps one block.
use memfd_buffer_backend.Prelude.{suc, ◌*◌, ◌≡◌, refl, some, []}
use memfd_buffer_backend.Errors.{ok}
use memfd_buffer_backend.Header.{new_header}
use memfd_buffer_backend.Pool.{empty_pool}
use memfd_buffer_backend.Handles.{pid, Process, new_state}
use memfd_buffer_backend.Import.{
  ImportedBlock, Platform, Importer, find_key, validate_mapping, import_block,
}
use memfd_buffer_backend.Import.Outcome.{IsCached, Outcome}
use memfd_buffer_backend.Import.Cache.{key_of, import_block-Outcome}

abbrev pub process : Process
process = record {
  pool = record empty_pool { headers = λ a. new_header };
  states = λ s. new_state;
  next_state = 0;
}

abbrev pub start : Importer
start = record { process = process; cache = []; imported_blocks = []; imports = 0; destroyed = [] }

-- Blocks of 8 bytes that were published with the uid 5, at multiples of 4096.
abbrev pub platform : Platform
platform = record {
  import_mapping = λ k name size. ok (
    record { native_handle = some k; mapping = 4096 * suc k; mapped_size = size; ipc_name = name },
    record new_header { payload_size = 8; ipc_uid = 5 },
  );
}

abbrev one : Importer
one = (import_block platform start "block" (pid 7) 3 72 8 5).1

abbrev first : ImportedBlock
first = record {
  native_handle = some 0;
  mapping = 4096;
  mapped_size = 72;
  control = some 4096;
  ipc_name = "block";
}

pub start-IsCached : IsCached start
unfolding find_key
start-IsCached = record { leads = λ k i e. absurd cc }

import_block-Outcome_example :
    Outcome platform start
      (key_of "block" (pid 7) 3)
      72
      8
      5
      (import_block platform start "block" (pid 7) 3 72 8 5)
import_block-Outcome_example =
    import_block-Outcome platform start "block" (pid 7) 3 72 8 5 start-IsCached

one_first : import_block platform start "block" (pid 7) 3 72 8 5 ≡ (ok 0, one)
unfolding import_block find_key validate_mapping
one_first = refl
