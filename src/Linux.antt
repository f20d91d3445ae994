-- ===== src/Linux.antt =====
-- shared_buffer/src/shared_buffer_platform_linux.cpp: the mappings of a memfd, and the sockets on
-- which its descriptor is passed. A descriptor of -1 is `none`; the text of `strerror` is left out.
pub mod Mapping
pub mod Broker
pub mod Shutdown
mod Address
pub mod Transfer
pub mod Examples
use Prim.Native.String.{String, len}
use memfd_buffer_backend.Prelude.{
  ℕ, Bool, true, false, not, ◌&&◌, ◌||◌, List, [], ◌∷◌, Option, none, some, ltb, leb, ◌==◌,
  if◌then◌else◌,
}
use memfd_buffer_backend.Errors.{
  Error, Result, ok, err, mapping_too_large, memfd_failed, truncate_failed, mapping_failed,
  invalid_socket_path, client_socket_failed, connect_failed, no_descriptor, invalid_control_message,
  invalid_descriptor_received, mapping_size_mismatch,
}
use memfd_buffer_backend.Pool.{PlatformMapping}
use memfd_buffer_backend.Handles.{is_empty}
use memfd_buffer_backend.Os.{
  Os, Log, closed, unmapped, unlinked, other, ControlMessage, Message, FileSize, stat_failed,
  negative_size, sized, open_descriptor, attempt_call, bind_path, map_shared, receive_message,
}

abbrev pub mapping_of : ℕ → ℕ → ℕ → String → PlatformMapping
mapping_of fd address size name = record {
  native_handle = some fd;
  mapping = address;
  mapped_size = size;
  ipc_name = name;
}

-- The end of both functions: `mmap`, and what becomes of the descriptor.
finish_mapping : ℕ → ℕ → String → Option ℕ × Log → Result PlatformMapping × Log
finish_mapping fd size name (none, l) = (err mapping_failed, closed fd ∷ l)
finish_mapping fd size name (some a, l) = (ok (mapping_of fd a size name), l)

pub bad_path : Os → String → Bool
bad_path os path = is_empty path || leb os.sun_path_size (len path)

bad_control : Os → ControlMessage → Bool
bad_control os c =
    not (c.level == os.sol_socket) || (not (c.kind == os.scm_rights) || ltb c.len os.cmsg_len_int)

-- The received descriptor: the tests after `recvmsg`, and the `fcntl`.
descriptor_of : Option ℕ → Log → Result ℕ × Log
descriptor_of none l = (err invalid_descriptor_received, l)
descriptor_of (some fd) l = (ok fd, other ∷ l)

check_control : Os → Option ControlMessage → Log → Result ℕ × Log
unfolding bad_control descriptor_of
check_control os none l = (err invalid_control_message, l)
check_control os (some c) l =
    if bad_control os c then (err invalid_control_message, l) else descriptor_of c.descriptor l

check_message : Os → Option ℕ → Option ControlMessage → Log → Result ℕ × Log
unfolding check_control
check_message os none c l = (err no_descriptor, l)
check_message os (some n) c l =
    if not (n == 1) then (err no_descriptor, l) else check_control os c l

-- The client socket is closed on every path.
receive_on : Os → ℕ → Message × Log → Result ℕ × Log
unfolding check_message
receive_on os socket (m, l) = check_message os m.received m.control (closed socket ∷ l)

connect_socket : Os → Option ℕ × Log → Result ℕ × Log
unfolding receive_on
connect_socket os (none, l) = (err client_socket_failed, l)
connect_socket os (some socket, l) =
    let (connected, l') = attempt_call os l in
    if not connected
    then (err connect_failed, closed socket ∷ l')
    else receive_on os socket (receive_message os l')

pub receive_fd_from_socket : Os → String → Log → Result ℕ × Log
unfolding bad_path connect_socket
receive_fd_from_socket os path l =
    if bad_path os path
    then (err invalid_socket_path, l)
    else connect_socket os (open_descriptor os l)

is_size : FileSize → ℕ → Bool
is_size stat_failed n = false
is_size negative_size n = false
is_size (sized m) n = m == n

map_received : Os → String → ℕ → Result ℕ × Log → Result PlatformMapping × Log
unfolding is_size finish_mapping
map_received os name size (err e, l) = (err e, l)
map_received os name size (ok fd, l) =
    if not (is_size (os.file_size l) size)
    then (err mapping_size_mismatch, closed fd ∷ other ∷ l)
    else finish_mapping fd size name (map_shared os (other ∷ l))

pub import_platform_mapping : Os → String → ℕ → Log → Result PlatformMapping × Log
unfolding map_received
import_platform_mapping os name size l =
    map_received os name size (receive_fd_from_socket os name l)

truncate_and_map : Os → ℕ → Option ℕ × Log → Result PlatformMapping × Log
unfolding finish_mapping
truncate_and_map os size (none, l) = (err memfd_failed, l)
truncate_and_map os size (some fd, l) =
    let (truncated, l') = attempt_call os l in
    if not truncated
    then (err truncate_failed, closed fd ∷ l')
    else finish_mapping fd size "" (map_shared os l')

pub create_platform_mapping : Os → ℕ → Log → Result PlatformMapping × Log
unfolding truncate_and_map
create_platform_mapping os size l =
    if ltb os.off_max size
    then (err mapping_too_large, l)
    else truncate_and_map os size (open_descriptor os l)

close_handle : Option ℕ → Log → Log
close_handle none l = l
close_handle (some fd) l = closed fd ∷ l

unfoldable pub destroy_platform_mapping : Option ℕ → ℕ → ℕ → Log → Log
unfolding close_handle
destroy_platform_mapping handle mapping size l =
    close_handle handle (if not (mapping == 0) && ltb 0 size then unmapped mapping ∷ l else l)

-- `create_fd_server_socket`: the failure paths close the socket and remove its path.
refuse_socket : ℕ → String → Log → Option ℕ × Log
refuse_socket socket path l = (none, unlinked path ∷ closed socket ∷ l)

restrict_socket : Os → ℕ → String → Bool × Log → Option ℕ × Log
unfolding refuse_socket
restrict_socket os socket path (listening, l) =
    if not listening
    then refuse_socket socket path l
    else let (restricted, l') = attempt_call os l in
      if not restricted then refuse_socket socket path l' else (some socket, l')

listen_on : Os → ℕ → String → Bool × Log → Option ℕ × Log
unfolding restrict_socket refuse_socket
listen_on os socket path (bound, l) =
    if not bound
    then refuse_socket socket path l
    else restrict_socket os socket path (attempt_call os l)

bind_socket : Os → String → Option ℕ × Log → Option ℕ × Log
unfolding listen_on
bind_socket os path (none, l) = (none, l)
bind_socket os path (some socket, l) =
    listen_on os socket path (bind_path os socket path (unlinked path ∷ l))

pub create_fd_server_socket : Os → String → Log → Option ℕ × Log
unfolding bad_path bind_socket
create_fd_server_socket os path l =
    if bad_path os path then (none, l) else bind_socket os path (open_descriptor os l)
