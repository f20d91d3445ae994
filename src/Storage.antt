-- ===== src/Storage.antt =====
-- shared_buffer/include/shared_buffer/shared_buffer_impl.hpp: `SharedBufferImpl<T>`, a buffer of
-- elements over a block of the pool, with the bytes of the payloads. The pool is the global one of
-- the process. `size_of` is `sizeof(T)`.
pub mod Bytes
pub mod Types
pub mod Copies
pub mod Allocation
pub mod Contents
pub mod Making
pub mod Cloning
pub mod Resizing
pub mod Apart
pub mod Examples
pub use Types.*
use memfd_buffer_backend.Prelude.{
  ℕ, ◌+◌, ◌-◌, ◌*◌, ◌/◌, ◌%◌, ◌^◌, Bool, true, false, not, ◌&&◌, List, [], Option, none, some, ltb,
  ◌==◌, if◌then◌else◌, get_elem?,
}
use memfd_buffer_backend.Errors.{Error, Result, ok, err, null_payload, size_overflow}
use memfd_buffer_backend.Header.{payload_offset}
use memfd_buffer_backend.Pool.{Block, Host, Pool, allocate}
use memfd_buffer_backend.Handles.{
  pid, frees, SharedBuffer, empty_buffer_value, ReadHandle, WriteHandle, Process, construct,
  get_read_handle, get_write_handle, release_read, release_write, reset, assign_buffer, is_null,
}
use Bytes.{memcpy, load_at}

abbrev pub with_process : Heap → Process → Heap
with_process h p = record h { process = p }

-- The buffer of a block with its deleter; the pool returns no null block.
buffer_of : ℕ → ℕ → Option Block → Result SharedBuffer
buffer_of bytes i none = err null_payload
buffer_of bytes i (some b) =
    construct (some (b.mapping + payload_offset)) bytes (frees i) b.control none b.block_id
      b.mapped_size true (pid 0) "" 0

wrap_block : Process → ℕ → Result ℕ × Pool → Result SharedBuffer × Process
unfolding buffer_of
wrap_block p bytes (err e, q) = (err e, record p { pool = q })
wrap_block p bytes (ok i, q) = (buffer_of bytes i (get_elem? q.all_blocks i), record p { pool = q })

allocate_bytes : Host → Process → Result ℕ → Result SharedBuffer × Process
unfolding wrap_block
allocate_bytes host p (err e) = (err e, p)
allocate_bytes host p (ok bytes) = wrap_block p bytes (allocate host p.pool bytes)

-- A copy of `n` bytes of one buffer to another, between a read handle and a write handle; both are
-- released on every path, the write handle first.
copy_write :
    Heap
    → ReadHandle
    → SharedBuffer
    → ℕ
    → Result WriteHandle × (Process × SharedBuffer)
    → Result (Unit {0}) × (Heap × (SharedBuffer × SharedBuffer))
copy_write h read from n (err e, (p, to)) =
    (err e, (with_process h (release_read p read).0, (from, to)))
copy_write h read from n (ok write, (p, to)) = (
  ok tt,
  (
    record {
      process = (release_read (release_write p write).0 read).0;
      bytes = memcpy h.bytes write.data_ptr read.data_ptr n;
    },
    (from, to),
  ),
)

copy_read :
    Heap
    → SharedBuffer
    → ℕ
    → Result ReadHandle × (Process × SharedBuffer)
    → Result (Unit {0}) × (Heap × (SharedBuffer × SharedBuffer))
unfolding copy_write
copy_read h to n (err e, (p, from)) = (err e, (with_process h p, (from, to)))
copy_read h to n (ok read, (p, from)) = copy_write h read from n (get_write_handle p to)

pub copy_payload :
    Heap
    → SharedBuffer
    → SharedBuffer
    → ℕ
    → Result (Unit {0}) × (Heap × (SharedBuffer × SharedBuffer))
unfolding copy_read
copy_payload h from to n = copy_read h to n (get_read_handle h.process from)

-- `shared_buffer_ = ...; size_ = size`.
abbrev pub replace_buffer : Heap → SharedBufferImpl → SharedBuffer → ℕ → Heap × SharedBufferImpl
replace_buffer h impl new size =
    let (p, (b, _)) = assign_buffer h.process impl.shared_buffer new in
    (with_process h p, record { size = size; shared_buffer = b })

pub clear : Heap → SharedBufferImpl → Heap × SharedBufferImpl
clear h impl = replace_buffer h impl empty_buffer_value 0

abbrev empty_impl : SharedBufferImpl
empty_impl = record { size = 0; shared_buffer = empty_buffer_value }

-- `shared_buffer_` is empty before the constructor assigns it.
first_buffer : ℕ → Result SharedBuffer × Process → Result SharedBufferImpl × Process
first_buffer size (err e, p) = (err e, p)
first_buffer size (ok new, p) = (ok (record { size = size; shared_buffer = new }), p)

finish_resize :
    SharedBufferImpl
    → ℕ
    → Result (Unit {0}) × (Heap × (SharedBuffer × SharedBuffer))
    → Result (Unit {0}) × (Heap × SharedBufferImpl)
finish_resize impl size (ok _, (h, (old, new))) =
    (ok tt, replace_buffer h (record impl { shared_buffer = old }) new size)
finish_resize impl size (err e, (h, (old, new))) =
    (err e, (with_process h (reset h.process new).0, record impl { shared_buffer = old }))

-- The copy of `clone`; the new buffer is destroyed where it throws.
finish_clone :
    SharedBufferImpl
    → Result (Unit {0}) × (Heap × (SharedBuffer × SharedBuffer))
    → Result SharedBufferImpl × (Heap × SharedBufferImpl)
finish_clone impl (ok _, (h, (from, to))) = (
  ok (record { size = impl.size; shared_buffer = to }),
  (h, record impl { shared_buffer = from }),
)
finish_clone impl (err e, (h, (from, to))) =
    (err e, (with_process h (reset h.process to).0, record impl { shared_buffer = from }))

read_out :
    Heap
    → SharedBufferImpl
    → ℕ
    → Result ReadHandle × (Process × SharedBuffer)
    → Result (List ℕ) × (Heap × SharedBufferImpl)
read_out h impl n (err e, (p, b)) = (err e, (with_process h p, record impl { shared_buffer = b }))
read_out h impl n (ok read, (p, b)) = (
  ok (load_at h.bytes read.data_ptr n),
  (with_process h (release_read p read).0, record impl { shared_buffer = b }),
)

-- The bytes of the vector that `to_cpu` fills.
pub to_cpu : ℕ → Heap → SharedBufferImpl → Result (List ℕ) × (Heap × SharedBufferImpl)
unfolding read_out
to_cpu size_of h impl =
    if ltb 0 impl.size
    then read_out h impl ((impl.size * size_of) % 2 ^ 64)
        (get_read_handle h.process impl.shared_buffer)
    else (ok [], (h, impl))

-- `std::min`.
abbrev pub smaller : ℕ → ℕ → ℕ
smaller size old = if ltb old size then old else size

pub byte_count : ℕ → ℕ → Result ℕ
byte_count size_of count =
    if ltb ((2 ^ 64 - 1) / size_of) count then err size_overflow else ok (count * size_of)

module _ (host : Host) (size_of : ℕ) where
  pub allocate_raw : Process → ℕ → Result SharedBuffer × Process
  unfolding allocate_bytes byte_count
  allocate_raw p count = allocate_bytes host p (byte_count size_of count)

  resize_into :
      Heap
      → SharedBufferImpl
      → ℕ
      → Result SharedBuffer × Process
      → Result (Unit {0}) × (Heap × SharedBufferImpl)
  unfolding copy_payload finish_resize
  resize_into h impl size (err e, p) = (err e, (with_process h p, impl))
  resize_into h impl size (ok new, p) =
      let n = (smaller size impl.size * size_of) % 2 ^ 64 in
      finish_resize impl size (
        if ltb 0 n && not (is_null impl.shared_buffer.data_ptr)
        then copy_payload (with_process h p) impl.shared_buffer new n
        else (ok tt, (with_process h p, (impl.shared_buffer, new))))

  pub resize : Heap → SharedBufferImpl → ℕ → Result (Unit {0}) × (Heap × SharedBufferImpl)
  unfolding resize_into allocate_raw clear
  resize h impl size =
      if size == impl.size
      then (ok tt, (h, impl))
      else if size == 0
      then (ok tt, clear h impl)
      else resize_into h impl size (allocate_raw h.process size)

  -- The constructor from a size.
  pub sized_impl : Process → ℕ → Result SharedBufferImpl × Process
  unfolding allocate_raw first_buffer
  sized_impl p size =
      if ltb 0 size then first_buffer size (allocate_raw p size) else (ok empty_impl, p)

  clone_into :
      Heap
      → SharedBufferImpl
      → Result SharedBufferImpl × Process
      → Result SharedBufferImpl × (Heap × SharedBufferImpl)
  unfolding copy_payload finish_clone
  clone_into h impl (err e, p) = (err e, (with_process h p, impl))
  clone_into h impl (ok copy, p) =
      if ltb 0 impl.size
      then finish_clone impl (
          copy_payload (with_process h p) impl.shared_buffer copy.shared_buffer
            ((impl.size * size_of) % 2 ^ 64))
      else (ok copy, (with_process h p, impl))

  pub clone : Heap → SharedBufferImpl → Result SharedBufferImpl × (Heap × SharedBufferImpl)
  unfolding clone_into sized_impl
  clone h impl = clone_into h impl (sized_impl h.process impl.size)
