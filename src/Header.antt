-- ===== src/Header.antt =====
-- shared_buffer/include/shared_buffer/shared_buffer_memory_pool.hpp: the control header at the
-- start of every shared mapping, and the four operations on its `reader_state`.
-- A uint32_t or uint64_t is a natural number; the one sum that may leave its type is taken modulo
-- 2 ^ 32. `value & kSharedBufferReuseClaimed` is 2 ^ 31 times the bit 31, and
-- `value & kSharedBufferReaderCountMask` is the remainder modulo 2 ^ 31.
pub mod Slots
use memfd_buffer_backend.Prelude.{
  ℕ, ◌+◌, ◌-◌, ◌*◌, ◌/◌, ◌%◌, ◌^◌, Bool, true, false, not, ◌||◌, Option, none, some, ◌==◌,
  if◌then◌else◌,
}

abbrev pub control_magic : ℕ
control_magic = 0x5348415245425546

abbrev pub control_abi_version : ℕ
control_abi_version = 3

abbrev pub payload_offset : ℕ
payload_offset = 64

abbrev pub grace_period_us : ℕ
grace_period_us = 100000

abbrev pub reuse_claimed : ℕ
reuse_claimed = 2 ^ 31

abbrev pub reader_count_mask : ℕ
reader_count_mask = 2 ^ 32 - 1 - 2 ^ 31

-- The fields of `SharedBufferControlHeader`.
pub record ControlHeader : Type 0 where
  pub magic : ℕ
  pub abi_version : ℕ
  pub payload_size : ℕ
  pub ipc_uid : ℕ
  pub reader_state : ℕ
  pub publish_timestamp_us : ℕ

-- The default member initialisers.
abbrev pub new_header : ControlHeader
new_header = record {
  magic = control_magic;
  abi_version = control_abi_version;
  payload_size = 0;
  ipc_uid = 0;
  reader_state = 0;
  publish_timestamp_us = 0;
}

-- The test before the compare-exchange: the claim bit is set, or no more reader can be counted.
abbrev pub refuses_reader : ℕ → Bool
refuses_reader value = not (value / 2 ^ 31 % 2 * 2 ^ 31 == 0) || value % 2 ^ 31 == reader_count_mask

-- A compare-exchange that does not fail for no reason: the new value, and whether it was written.
abbrev pub compare_exchange : ℕ → ℕ → ℕ → ℕ × Bool
compare_exchange current expected desired =
    if current == expected then (desired, true) else (current, false)

abbrev pub set_reader_state : ControlHeader → ℕ × Bool → ControlHeader × Bool
set_reader_state h (v, b) = (record h { reader_state = v }, b)

-- With no other process between the load and the compare-exchange the loop takes one round.
unfoldable pub try_acquire_reader : ControlHeader → ControlHeader × Bool
try_acquire_reader h =
    if refuses_reader h.reader_state
    then (h, false)
    else set_reader_state h
        (compare_exchange h.reader_state h.reader_state ((h.reader_state + 1) % 2 ^ 32))

unfoldable pub try_claim_reuse : ControlHeader → ControlHeader × Bool
try_claim_reuse h = set_reader_state h (compare_exchange h.reader_state 0 reuse_claimed)

-- `fetch_sub(1)`.
unfoldable pub release_reader : ControlHeader → ControlHeader
release_reader h = record h { reader_state = (h.reader_state + (2 ^ 32 - 1)) % 2 ^ 32 }

unfoldable pub release_reuse_claim : ControlHeader → ControlHeader
release_reuse_claim h = record h { reader_state = 0 }
