-- ===== src/Os.antt =====
-- The operating system, seen from one process: the calls that a routine has made, in order, and what
-- the system answers to the next one. It is a parameter: an answer may depend on all calls before.
pub mod Accounts
use Prim.Native.String.{String}
use memfd_buffer_backend.Prelude.{
  ℕ, ◌≡◌, ◌≢◌, ◌≤◌, arith, Bool, true, false, List, [], ◌∷◌, Option, none, some, ◌&&◌, leb, ◌==◌,
  if◌then◌else◌,
}

-- A call that has been made, with the resource that it returned or took.
pub data Call : Type 0 where
  opened : ℕ → Call  -- a new descriptor
  duplicated : ℕ → ℕ → Call  -- `dup` of the first descriptor returned the second
  closed : ℕ → Call
  mapped : ℕ → Call  -- `mmap` returned this address
  unmapped : ℕ → Call
  bound : ℕ → String → Call  -- `bind` of the descriptor to the path succeeded
  sent : ℕ → ℕ → Call  -- `sendmsg` to the first descriptor, passing the second
  unlinked : String → Call
  other : Call  -- any other call, or one that failed

-- The newest call stands first.
abbrev pub Log : Type 0
Log = List Call

-- 1 where the descriptor `x` is open after the calls.
unfoldable pub alive : Log → ℕ → ℕ
alive [] x = 0
alive (opened y ∷ l) x = if x == y then 1 else alive l x
alive (duplicated y z ∷ l) x = if x == z then 1 else alive l x
alive (closed y ∷ l) x = if x == y then 0 else alive l x
alive (mapped y ∷ l) x = alive l x
alive (unmapped y ∷ l) x = alive l x
alive (bound y p ∷ l) x = alive l x
alive (sent y z ∷ l) x = alive l x
alive (unlinked s ∷ l) x = alive l x
alive (other ∷ l) x = alive l x

-- 1 where a mapping stands at the address `x` after the calls.
unfoldable pub mapped_at : Log → ℕ → ℕ
mapped_at [] x = 0
mapped_at (mapped y ∷ l) x = if x == y then 1 else mapped_at l x
mapped_at (unmapped y ∷ l) x = if x == y then 0 else mapped_at l x
mapped_at (opened y ∷ l) x = mapped_at l x
mapped_at (duplicated y z ∷ l) x = mapped_at l x
mapped_at (closed y ∷ l) x = mapped_at l x
mapped_at (bound y p ∷ l) x = mapped_at l x
mapped_at (sent y z ∷ l) x = mapped_at l x
mapped_at (unlinked s ∷ l) x = mapped_at l x
mapped_at (other ∷ l) x = mapped_at l x

-- The path that the socket `x` is bound to after the calls. An `unlink` may have removed it.
unfoldable pub bound_to : Log → ℕ → Option String
bound_to [] x = none
bound_to (bound y p ∷ l) x = if x == y then some p else bound_to l x
bound_to (opened y ∷ l) x = if x == y then none else bound_to l x
bound_to (duplicated y z ∷ l) x = if x == z then none else bound_to l x
bound_to (closed y ∷ l) x = if x == y then none else bound_to l x
bound_to (mapped y ∷ l) x = bound_to l x
bound_to (unmapped y ∷ l) x = bound_to l x
bound_to (sent y z ∷ l) x = bound_to l x
bound_to (unlinked p ∷ l) x = none
bound_to (other ∷ l) x = bound_to l x

-- The first control message that `recvmsg` wrote; `descriptor` is `none` where the number in it is
-- negative.
pub record ControlMessage : Type 0 where
  pub level : ℕ
  pub kind : ℕ
  pub len : ℕ
  pub descriptor : Option ℕ

-- The answer of `recvmsg`: the bytes received, `none` for -1, and the control message, if any.
pub record Message : Type 0 where
  pub received : Option ℕ
  pub control : Option ControlMessage

-- The `st_size` of `fstat`.
pub data FileSize : Type 0 where
  stat_failed : FileSize
  negative_size : FileSize
  sized : ℕ → FileSize

-- The answers to the next call after a log, for the kind of call that is made then: a descriptor or
-- -1, zero or not, an address or `MAP_FAILED`; and the constants of the system's headers.
pub record Os : Type 0 where
  pub descriptor : Log → Option ℕ
  pub succeeds : Log → Bool
  pub address : Log → Option ℕ
  pub file_size : Log → FileSize
  pub message : Log → Message
  pub passed : Log → List ℕ  -- the descriptors that `recvmsg` installs in the process
  pub off_max : ℕ  -- std::numeric_limits<off_t>::max()
  pub sun_path_size : ℕ  -- sizeof(sockaddr_un::sun_path)
  pub sol_socket : ℕ
  pub scm_rights : ℕ
  pub cmsg_len_int : ℕ  -- CMSG_LEN(sizeof(int))

-- The control message passes descriptors, and has room for one.
abbrev pub passes : Os → ControlMessage → Bool
passes os c = c.level == os.sol_socket && (c.kind == os.scm_rights && leb os.cmsg_len_int c.len)

-- The log where the descriptors have been installed, the first one first.
unfoldable pub installed : List ℕ → Log → Log
installed [] l = l
installed (d ∷ ds) l = installed ds (opened d ∷ l)

-- None of the descriptors is open, and no two are the same.
abbrev pub AllNew : Log → List ℕ → Type 0
AllNew l [] = Unit
AllNew l (d ∷ ds) = (alive l d ≡ 0) × AllNew (opened d ∷ l) ds

-- What the system promises: new descriptors are ones that are not open, a new mapping stands at an
-- address that is not null and not mapped, and the descriptor in a control message that passes
-- descriptors is the first that `recvmsg` has installed. The peer may pass any number of them.
pub record IsSound (os : Os) : Type 0 where
  pub new_descriptor : (l : Log) (x : ℕ) → os.descriptor l ≡ some x → alive l x ≡ 0
  pub new_passed : (l : Log) → AllNew l (os.passed l)
  pub new_address : (l : Log) (x : ℕ) → os.address l ≡ some x → (mapped_at l x ≡ 0) × (x ≢ 0)
  pub shown :
      (l : Log) (c : ControlMessage) (d : ℕ)
      → (os.message l).control ≡ some c
      → passes os c ≡ true
      → c.descriptor ≡ some d
      → (rest : List ℕ) × os.passed l ≡ d ∷ rest

-- A call that returns a descriptor, one that returns only success, and `mmap`.
abbrev pub log_descriptor : Log → Option ℕ → Option ℕ × Log
log_descriptor l none = (none, other ∷ l)
log_descriptor l (some d) = (some d, opened d ∷ l)

abbrev pub open_descriptor : Os → Log → Option ℕ × Log
open_descriptor os l = log_descriptor l (os.descriptor l)

abbrev pub attempt_call : Os → Log → Bool × Log
attempt_call os l = (os.succeeds l, other ∷ l)

abbrev log_address : Log → Option ℕ → Option ℕ × Log
log_address l none = (none, other ∷ l)
log_address l (some a) = (some a, mapped a ∷ l)

abbrev pub map_shared : Os → Log → Option ℕ × Log
map_shared os l = log_address l (os.address l)

-- `bind` of the socket to the path.
abbrev pub log_bind : ℕ → String → Log → Bool → Bool × Log
log_bind socket path l true = (true, bound socket path ∷ l)
log_bind socket path l false = (false, other ∷ l)

abbrev pub bind_path : Os → ℕ → String → Log → Bool × Log
bind_path os socket path l = log_bind socket path l (os.succeeds l)

abbrev pub receive_message : Os → Log → Message × Log
receive_message os l = (os.message l, installed (os.passed l) (other ∷ l))

pub alive-le : (l : Log) (x : ℕ) → alive l x ≤ 1
unfolding alive
alive-le [] x = omega arith
alive-le (opened y ∷ l) x = ground (arith, alive-le l x)
alive-le (duplicated y z ∷ l) x = ground (arith, alive-le l x)
alive-le (closed y ∷ l) x = ground (arith, alive-le l x)
alive-le (mapped y ∷ l) x = alive-le l x
alive-le (unmapped y ∷ l) x = alive-le l x
alive-le (bound y p ∷ l) x = alive-le l x
alive-le (sent y z ∷ l) x = alive-le l x
alive-le (unlinked s ∷ l) x = alive-le l x
alive-le (other ∷ l) x = alive-le l x

pub mapped_at-le : (l : Log) (x : ℕ) → mapped_at l x ≤ 1
unfolding mapped_at
mapped_at-le [] x = omega arith
mapped_at-le (mapped y ∷ l) x = ground (arith, mapped_at-le l x)
mapped_at-le (unmapped y ∷ l) x = ground (arith, mapped_at-le l x)
mapped_at-le (opened y ∷ l) x = mapped_at-le l x
mapped_at-le (duplicated y z ∷ l) x = mapped_at-le l x
mapped_at-le (closed y ∷ l) x = mapped_at-le l x
mapped_at-le (bound y p ∷ l) x = mapped_at-le l x
mapped_at-le (sent y z ∷ l) x = mapped_at-le l x
mapped_at-le (unlinked s ∷ l) x = mapped_at-le l x
mapped_at-le (other ∷ l) x = mapped_at-le l x
