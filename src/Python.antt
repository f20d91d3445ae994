-- ===== src/Python.antt =====
-- shared_buffer_backend_py/src/shared_buffer_py.cpp: access to a message buffer through the buffer
-- protocol of Python. A Python object that is kept alive is left out; what pybind11 answers is a
-- parameter.
pub mod Opening
pub mod Views
mod Examples
use memfd_buffer_backend.Prelude.{
  ℕ, ◌+◌, ◌-◌, ◌%◌, ◌^◌, Bool, true, false, not, ◌||◌, ltb, ◌==◌, if◌then◌else◌, Option, none, some,
}
use memfd_buffer_backend.Errors.{
  Result, ok, err, null_buffer_pointer, python_exception, no_buffer_callbacks, zero_byte_count,
  byte_count_overflow, access_closed, views_alive,
}
use memfd_buffer_backend.Pool.{Host}
use memfd_buffer_backend.Handles.{
  ReadHandle, WriteHandle, empty_write, Process, assign_write, reset,
}
use memfd_buffer_backend.Storage.{SharedBufferImpl}
use memfd_buffer_backend.Api.{
  BufferImpl, null_impl, shared_impl, other_impl, Application, allocate_buffer, from_input_buffer,
  from_output_buffer,
}

-- `std::numeric_limits<Py_ssize_t>::max()`.
abbrev pub ssize_max : ℕ
ssize_max = 2 ^ 63 - 1

pub record NativeReadAccess : Type 0 where
  pub handle : ReadHandle
  pub byte_count : ℕ

pub record NativeWriteAccess : Type 0 where
  pub handle : WriteHandle
  pub byte_count : ℕ
  pub exports : ℕ
  pub closed : Bool

-- `rosidl::Buffer::size`; what it says without an implementation is a parameter.
abbrev pub size_of_buffer : ℕ → BufferImpl → ℕ
size_of_buffer null_size null_impl = null_size
size_of_buffer null_size (shared_impl impl) = impl.size
size_of_buffer null_size (other_impl n source) = n

-- `get_buffer_ptr`, after `_get_buffer_ptr` has answered with an address.
get_buffer_ptr : ℕ → Result ℕ
get_buffer_ptr address = if address == 0 then err null_buffer_pointer else ok address

-- `take_buffer_from_ptr`: where `_take_buffer_from_ptr` (or what comes before its call) throws, the
-- `unique_ptr` destroys the buffer.
take_buffer_from_ptr : Bool → Process → SharedBufferImpl → Result SharedBufferImpl × Process
take_buffer_from_ptr takes p impl =
    if takes then (ok impl, p) else (err python_exception, (reset p impl.shared_buffer).0)

hand_over : Bool → Result SharedBufferImpl × Process → Result SharedBufferImpl × Process
unfolding take_buffer_from_ptr
hand_over takes (err e, p) = (err e, p)
hand_over takes (ok impl, p) = take_buffer_from_ptr takes p impl

pub allocate_buffer_internal : Bool → Host → Process → ℕ → Result SharedBufferImpl × Process
unfolding hand_over
allocate_buffer_internal takes host p byte_count =
    if byte_count == 0
    then (err zero_byte_count, p)
    else if ltb ssize_max byte_count
    then (err byte_count_overflow, p)
    else hand_over takes (allocate_buffer host p byte_count)

start_read :
    ℕ
    → Result ReadHandle × (Application × BufferImpl)
    → Result NativeReadAccess × (Application × BufferImpl)
start_read n (ok h, s) = (ok (record { handle = h; byte_count = n }), s)
start_read n (err e, s) = (err e, s)

read_at :
    ℕ
    → Host
    → Application
    → BufferImpl
    → Result ℕ
    → Result NativeReadAccess × (Application × BufferImpl)
unfolding start_read
read_at null_size host s b (err e) = (err e, (s, b))
read_at null_size host s b (ok address) =
    if ltb ssize_max (size_of_buffer null_size b)
    then (err byte_count_overflow, (s, b))
    else start_read (size_of_buffer null_size b) (from_input_buffer host 1 s b)

-- The constructors of the two classes, with the buffer `b` at the address that `_get_buffer_ptr`
-- answers.
pub open_read :
    ℕ → Host → Application → ℕ → BufferImpl → Result NativeReadAccess × (Application × BufferImpl)
unfolding read_at get_buffer_ptr
open_read null_size host s address b = read_at null_size host s b (get_buffer_ptr address)

-- The bytes that a view of a read access shows: where, how many, and that they are read-only.
pub read_info : NativeReadAccess → Option ℕ × (ℕ × Bool)
read_info a = (a.handle.data_ptr, (a.byte_count, true))

start_write :
    ℕ
    → Result WriteHandle × (Application × BufferImpl)
    → Result NativeWriteAccess × (Application × BufferImpl)
start_write n (ok h, s) =
    (ok (record { handle = h; byte_count = n; exports = 0; closed = false }), s)
start_write n (err e, s) = (err e, s)

write_at :
    ℕ → Application → BufferImpl → Result ℕ → Result NativeWriteAccess × (Application × BufferImpl)
unfolding start_write
write_at null_size s b (err e) = (err e, (s, b))
write_at null_size s b (ok address) =
    if ltb ssize_max (size_of_buffer null_size b)
    then (err byte_count_overflow, (s, b))
    else start_write (size_of_buffer null_size b) (from_output_buffer s b)

pub open_write :
    ℕ → Application → ℕ → BufferImpl → Result NativeWriteAccess × (Application × BufferImpl)
unfolding write_at get_buffer_ptr
open_write null_size s address b = write_at null_size s b (get_buffer_ptr address)

-- `close`.
pub close : Process → NativeWriteAccess → Result (Unit {0}) × (Process × NativeWriteAccess)
close p a =
    if not (a.exports == 0)
    then (err views_alive, (p, a))
    else if not a.closed
    then (let (p', (h, _)) = assign_write p a.handle empty_write in
        (ok tt, (p', record a { handle = h; closed = true })))
    else (ok tt, (p, a))

add_export : NativeWriteAccess → NativeWriteAccess
add_export a = record a { exports = (a.exports + 1) % 2 ^ 64 }

remove_export : NativeWriteAccess → NativeWriteAccess
remove_export a = if not (a.exports == 0) then record a { exports = a.exports - 1 } else a

-- The bytes that a view shows.
pub buffer_info : NativeWriteAccess → Result WriteHandle
buffer_info a = if a.closed then err access_closed else ok a.handle

-- `original_getbuffer` fails where `buffer_info` throws, or for the flags; whether it grants them
-- and whether `py::cast` succeeds afterwards are parameters. The result is whether a view is given.
export_view : Bool → Result WriteHandle → NativeWriteAccess → Bool × NativeWriteAccess
unfolding add_export
export_view casts (err e) a = (false, a)
export_view casts (ok h) a = if casts then (true, add_export a) else (false, a)

pub getbuffer : Bool → Bool → NativeWriteAccess → Bool × NativeWriteAccess
unfolding buffer_info export_view
getbuffer grants casts a = if grants then export_view casts (buffer_info a) a else (false, a)

-- The cast of an access to its own class does not fail.
pub releasebuffer : NativeWriteAccess → NativeWriteAccess
unfolding remove_export
releasebuffer a = remove_export a

-- The functions of a Python type's buffer slots: those that pybind11 installed, by a number, or
-- those of `WriteBufferCallbacks`.
pub data SlotFunction : Type 0 where
  original : ℕ → SlotFunction
  tracked : SlotFunction

pub record BufferSlots : Type 0 where
  pub getbuffer_slot : Option SlotFunction
  pub releasebuffer_slot : Option SlotFunction

abbrev tracked_slots : BufferSlots
tracked_slots = record { getbuffer_slot = some tracked; releasebuffer_slot = some tracked }

keep_originals :
    BufferSlots
    → Option SlotFunction
    → Option SlotFunction
    → Result (SlotFunction × SlotFunction) × BufferSlots
keep_originals s (some get) (some release) = (ok (get, release), tracked_slots)
keep_originals s _ _ = (err no_buffer_callbacks, s)

-- `install_tracked_write_buffer_callbacks`: the originals that are kept, and the type's new slots.
pub install_callbacks :
    Option BufferSlots → Result (SlotFunction × SlotFunction) × Option BufferSlots
unfolding keep_originals
install_callbacks none = (err no_buffer_callbacks, none)
install_callbacks (some s) =
    let (r, s') = keep_originals s s.getbuffer_slot s.releasebuffer_slot in (r, some s')
