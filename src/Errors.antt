-- ===== src/Errors.antt =====
-- Exceptions as values: one constructor for each `throw` of the sources that are modelled.
use memfd_buffer_backend.Prelude.{ℕ}

pub data Error : Type 0 where
  -- shared_buffer_memory_pool.cpp
  zero_size_block : Error
  mapping_size_overflow : Error
  platform_failure : ℕ → Error  -- an error of the operating system, with its number
  -- shared_buffer.cpp
  block_being_reused : Error
  null_payload : Error
  reading_while_writing : Error
  read_only_buffer : Error
  empty_buffer : Error
  write_in_use : Error
  write_finalized : Error
  read_in_use : Error
  -- shared_buffer_ipc_manager.cpp
  invalid_mapping_size : Error
  abi_mismatch : Error
  payload_size_mismatch : Error
  zero_publication_uid : Error
  stale_publication_uid : Error
  unmapped_memory : Error
  shared_block_being_reused : Error
  invalid_metadata : Error
  -- shared_buffer_impl.hpp
  size_overflow : Error
  -- shared_buffer_api.hpp
  null_implementation : Error
  empty_input : Error
  not_shared : Error
  input_overflow : Error
  -- shared_buffer_py.cpp
  null_buffer_pointer : Error
  python_exception : Error
  no_buffer_callbacks : Error
  zero_byte_count : Error
  byte_count_overflow : Error
  access_closed : Error
  views_alive : Error
  -- shared_buffer_backend_plugin.cpp
  null_descriptor : Error
  element_type_mismatch : Error
  invalid_descriptor_metadata : Error
  raced_with_reuse : Error
  -- shared_buffer_platform_linux.cpp
  mapping_too_large : Error
  memfd_failed : Error
  truncate_failed : Error
  mapping_failed : Error
  invalid_socket_path : Error
  client_socket_failed : Error
  connect_failed : Error
  no_descriptor : Error
  invalid_control_message : Error
  invalid_descriptor_received : Error
  mapping_size_mismatch : Error
  thread_failed : Error
  broker_socket_failed : Error
  -- shared_buffer_platform_windows.cpp
  create_file_mapping_failed : Error
  open_file_mapping_failed : Error
  map_view_failed : Error

pub data Result {ℓ} (A : Type ℓ) : Type ℓ where
  ok : A → Result A
  err : Error → Result A
