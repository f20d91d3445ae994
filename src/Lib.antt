-- ===== src/Lib.antt =====
-- Shared-memory buffers for ROS 2 messages: the packages shared_buffer and shared_buffer_backend.
--
-- A publisher takes a block from its memory pool, writes the payload, and publishes a descriptor.
-- A subscriber maps the block, checks the uid of the descriptor against the control header at the
-- start of the block, and takes a reader slot in the header's lock-free reader count; the pool
-- reuses a block that its owner gave back once its count is zero and a grace period has passed.
--
-- Files and what they model:
--
-- - Header: `SharedBufferControlHeader` and the four operations on `reader_state`
--   (shared_buffer/include/shared_buffer/shared_buffer_memory_pool.hpp).
-- - Protocol: one block, its publisher and any number of readers, interleaved one shared access at
--   a time: `allocate`, the write handle, `mark_published` and `free` on one side;
--   `validate_mapping`, the compare-exchange loop, the second uid check of
--   `from_descriptor_with_endpoint` and `make_lease` on the other. Protocol/Invariant has the
--   invariant, Protocol/Safety what follows in every reachable state, Protocol/Progress what a
--   reader does alone.
-- - Pool: `SharedBufferMemoryPool` (shared_buffer/src/shared_buffer_memory_pool.cpp), one call at
--   a time. Pool/Types has its data, Pool/Vector the removal from a bucket, Pool/Claims the
--   search, Pool/Consistency the invariant, Pool/Allocation, Pool/Reuse, Pool/Lookup and
--   Pool/Publication the behaviour of the methods; Pool/Contract what the pool promises of its
--   blocks, without headers, buckets and addresses, and Pool/Contract/Traces that it keeps to
--   that.
-- - Handles: `SharedBuffer`, `ReadHandle` and `WriteHandle` (shared_buffer/src/shared_buffer.cpp),
--   one method at a time, in Handles and Handles/Types. Handles/Exclusion says when a handle can
--   be had, Handles/Restored what one that was had and released leaves; Handles/Client has a
--   client that calls the methods in any order on its buffers and handles, Handles/Client/Safety
--   what holds after any such calls.
-- - Import: the cache of imported mappings (shared_buffer/src/shared_buffer_ipc_manager.cpp).
--   Import/Outcome has the validation of a mapping and what one import leads to, Import/Cache the
--   invariant and repeated imports.
-- - Storage: `SharedBufferImpl`, the typed buffer over the pool
--   (shared_buffer/include/shared_buffer/shared_buffer_impl.hpp), with the bytes of the payloads.
--   Storage/Bytes has `memcpy`, Storage/Allocation, Storage/Copies and Storage/Making what a new
--   buffer and a copy into it are, Storage/Contents and Storage/Cloning what a clone holds,
--   Storage/Resizing what a resize keeps, Storage/Apart where a new payload lies.
-- - Api: `allocate_buffer`, `from_output_buffer` and `from_input_buffer`
--   (shared_buffer/include/shared_buffer/shared_buffer_api.hpp); Api/Access says who can write,
--   Api/Promotion what reading a buffer of another backend makes, Api/Returning what the release
--   of its handle gives back.
-- - HostEndpoint: the metadata of a host (shared_buffer/src/host_endpoint_manager.cpp);
--   HostEndpoint/Identity says when two processes have the same.
-- - Backend: the plugin (shared_buffer_backend/src/shared_buffer_backend_plugin.cpp). Backend has
--   `from_descriptor_with_endpoint` and Backend/Received the buffer that it makes; Backend/Sending
--   has `on_discovering_endpoint` and `create_descriptor_with_endpoint`, Backend/Discovery who
--   gets a descriptor, Backend/Published what a descriptor announces, and Backend/Delivery when
--   there is one.
-- - Os: the operating system as the calls that were made and the answers to the next one;
--   Os/Accounts says what a mapping routine may leave open.
-- - Linux: shared_buffer/src/shared_buffer_platform_linux.cpp. Linux has the mappings and the
--   sockets, Linux/Mapping what they leave open, Linux/Transfer what that is where the peer sends
--   what `send_fd` sends, Linux/Address the path in a socket address; Linux/Broker has
--   `SharedBufferFdBroker` and Linux/Broker/Dispatcher `FDDispatcher`, Linux/Broker/Maps,
--   Linux/Broker/Descriptors and Linux/Broker/Registration what they hold, Linux/Broker/Serving
--   what a client receives, Linux/Broker/Paths when two socket paths are the same,
--   Linux/Broker/Destruction and Linux/Shutdown what the destructors of the broker and of the pool
--   give back, Linux/Broker/Interface the interface that the backend takes. Linux/Broker/Threads
--   has the thread of `FDDispatcher::run` beside the methods and the rest of the process, one
--   system call or locked block at a time: Accounts, Methods and Reached on who holds which
--   descriptor, Calm, Additions and Sending on what is sent while nothing is removed, Source,
--   Origins and Clients on where that comes from, Race on a removal during a lookup, and Ending on
--   the end of the thread.
-- - Windows: shared_buffer/src/shared_buffer_platform_windows.cpp, with Windows/Mapping on what is
--   left open.
-- - Python: the read and write accesses of shared_buffer_backend_py/src/shared_buffer_py.cpp;
--   Python/Opening says what allocation and a read access give, Python/Views has the calls that
--   Python can make as steps.
-- - Prelude and Errors: shared names, lemmas on lists and texts, and exceptions as values.
--
-- Numbers are natural numbers; a sum that can leave its C++ type is taken modulo the power of two.
-- The clock, the random uids and `create_platform_mapping` are parameters (`Host`); what the
-- operating system promises of a new mapping is the hypothesis `MapsApart`. Uids of different
-- generations are drawn at random from 2^64 values; that no other generation up to the current one
-- has the uid of a descriptor is a hypothesis where it is used. Loops recur on lists; the
-- compare-exchange loop is a sequence of steps, with a theorem that it ends.
--
-- The content of a newly imported mapping is what the platform answers (`Platform`). The models of
-- the pool, of the import and of the backend take the platform's functions as parameters; the
-- broker of the sending side is an interface (`Broker`), with the law `KeepsBlock` that it writes
-- the path of a block and no more, which the Linux broker has. The system that the platform layers
-- call is the parameter `Os`; what they rely on is `IsSound`: new descriptors and addresses are
-- not in use, and the descriptor in a control message is the first that the system installed; the
-- peer may pass others. A thread may fail to start. Windows tries eight names, as its source does;
-- the loops of the broker recur on its lists.
--
-- A publisher that gave its buffer back is taken not to write through a handle that it kept. Not
-- modelled: memory orders weaker than sequential consistency; exhaustion of the C++ heap; the
-- texts of errors; the tests.
pub mod Prelude
pub mod Errors
pub mod Header
pub mod Protocol
pub mod Pool
pub mod Handles
pub mod Import
pub mod Storage
pub mod Api
pub mod HostEndpoint
pub mod Backend
pub mod Os
pub mod Linux
pub mod Windows
pub mod Python
