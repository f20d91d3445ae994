-- ===== src/Backend/Examples.antt =====
-- The theorems on the backend, at the first descriptor that a process receives and the first that
-- it sends.
use Prim.Native.String.{String}
use memfd_buffer_backend.Prelude.{ℕ, ◌≢◌, false, ◌≡◌, ◌↔◌, refl, true, false, none, some, arith}
use memfd_buffer_backend.Errors.{ok}
use memfd_buffer_backend.Pool.{Block, allocate, claim_first, create_block}
use memfd_buffer_backend.Pool.Examples.{host, one_used, one_used-IsConsistent}
use memfd_buffer_backend.Handles.{pid, new_state, empty_buffer_value, has_ipc_descriptor, positive}
use memfd_buffer_backend.Import.{Importer, find_key, validate_mapping, import_block}
use memfd_buffer_backend.Import.Examples.{start, platform, start-IsCached}
use memfd_buffer_backend.Storage.{SharedBufferImpl}
use memfd_buffer_backend.Backend.{Descriptor, from_descriptor_with_endpoint}
use memfd_buffer_backend.HostEndpoint.{linux_metadata}
use memfd_buffer_backend.HostEndpoint.Identity.{not_colon}
use memfd_buffer_backend.HostEndpoint.Examples.{unary, unary_injective, unary-IsPlain}
use memfd_buffer_backend.Backend.Sending.{
  Broker, Sender, known_incompatible, on_discovering_endpoint, create_descriptor_with_endpoint,
}
use memfd_buffer_backend.Backend.Published.{IsOver, Announced, create_descriptor-Announced}
use memfd_buffer_backend.Backend.Delivery.{create_descriptor_some}
use memfd_buffer_backend.Backend.Discovery.{on_discovering_endpoint_linux_iff}
use memfd_buffer_backend.Handles.Exclusion.{HasWords}
use memfd_buffer_backend.Backend.Received.{Receipt, from_descriptor-Receipt}

abbrev descriptor : Descriptor
descriptor = record {
  size = 8;
  element_type_name = "h";
  shared_buffer_pid = pid 7;
  shared_buffer_block_id = 3;
  shared_buffer_block_size = 72;
  shared_buffer_socket_path = "block";
  ipc_uid = 5;
}

abbrev imported : Importer
imported = (import_block platform start "block" (pid 7) 3 72 8 5).1

imported-HasWords : HasWords imported.process
unfolding import_block find_key validate_mapping
imported-HasWords a = ground arith

-- A broker that names each block and keeps no state.
abbrev naming : Broker
naming = record {
  State = Unit;
  register = λ s b. (ok "block", (s, record b { socket_path = "block" }));
}

abbrev sender : Sender naming
sender = record {
  process = record { pool = one_used; states = λ s. new_state; next_state = 0 };
  compatible = λ gid. none;
  broker_state = tt;
}

abbrev block : Block
block = record {
  native_handle = some 0;
  mapping = 4096;
  mapped_size = 72;
  payload_size = 8;
  block_id = 0;
  control = some 4096;
  current_uid = 2;
  socket_path = "";
  in_use = true;
}

abbrev local_impl : SharedBufferImpl
local_impl = record {
  size = 8;
  shared_buffer = record empty_buffer_value {
    data_ptr = some 4160;
    size = 8;
    control = some 4096;
    mapped_size = 72;
  };
}

local-IsOver : IsOver one_used local_impl 0 block
unfolding allocate claim_first create_block has_ipc_descriptor
local-IsOver = record {
  address = 4160;
  at = refl;
  points_to = refl;
  not_null = ground arith;
  inside = ground arith;
  sized = refl;
  local = refl;
}

self_positive : positive (pid 7) ≡ true
unfolding positive
self_positive = refl

create_descriptor-Announced_example :
    Announced
      (pid 7)
      "h"
      sender
      block
      (create_descriptor_with_endpoint host (pid 7) "h" sender (some local_impl) 1)
create_descriptor-Announced_example =
    create_descriptor-Announced host (pid 7) "h" sender local_impl 1 0 block
      (record { keeps = λ s b. ("block", refl) }) one_used-IsConsistent self_positive local-IsOver

abbrev first_name : String
first_name = "A"

abbrev second_name : String
second_name = "B"

abbrev user : ℕ
user = 2

on_discovering_endpoint_linux_iff_example :
    ((on_discovering_endpoint
        (linux_metadata unary (some first_name) user)
        sender
        1
        (some (linux_metadata unary (some second_name) user))).0
      ≡ true)
    ↔ ((first_name ≡ second_name) × (user ≡ user))
on_discovering_endpoint_linux_iff_example =
    on_discovering_endpoint_linux_iff unary unary_injective unary-IsPlain sender 1 first_name
      second_name 2 2 (not_colon "A" (omega arith), tt) (not_colon "B" (omega arith), tt)

sender_open : known_incompatible (sender.compatible 1) ≡ false
unfolding known_incompatible
sender_open = refl

create_descriptor_some_example :
    (create_descriptor_with_endpoint host (pid 7) "h" sender (some local_impl) 1).0 ≢ none
create_descriptor_some_example =
    create_descriptor_some host (pid 7) "h" sender local_impl 1 0 block "block"
      (record { keeps = λ s b. ("block", refl) }) one_used-IsConsistent local-IsOver sender_open
      refl refl

from_descriptor-Receipt_example :
    Receipt naming host
      (pid 7)
      "h"
      descriptor
      start
      imported
      (from_descriptor_with_endpoint platform "h" start (some descriptor))
from_descriptor-Receipt_example =
    from_descriptor-Receipt naming host (pid 7) "h" platform start descriptor start-IsCached
      imported-HasWords
