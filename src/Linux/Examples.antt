-- ===== src/Linux/Examples.antt =====
-- The theorems on Linux, on a system that grants each call: a new descriptor or address lies above
-- all numbers of the calls before it.
use Prim.Native.String.{String}
use memfd_buffer_backend.Prelude.{
  ℕ, suc, ◌+◌, ◌-◌, ◌^◌, ◌≡◌, ◌≤◌, ◌==◌, if◌then◌else◌, refl, true, inr, subst, [], ◌∷◌, some,
  arith, total,
}
use memfd_buffer_backend.Pool.{Block, Pool, empty_pool}
use memfd_buffer_backend.Pool.Destruction.{destroy_pool}
use memfd_buffer_backend.Linux.Shutdown.{Holds, pool_leaves_nothing}
use memfd_buffer_backend.Os.{
  Os, IsSound, Log, sized, alive, mapped_at, opened, duplicated, closed, mapped, unmapped, sent,
  unlinked, other, bound, installed, ControlMessage,
}
use memfd_buffer_backend.Os.Accounts.{is, Accounts, handle_of, destroyed}
use memfd_buffer_backend.Linux.{
  receive_fd_from_socket, import_platform_mapping, destroy_platform_mapping,
}
use memfd_buffer_backend.Linux.Mapping.{strays, import_platform_mapping-Accounts}
use memfd_buffer_backend.Linux.Address.{unix_address, c_string, unix_address-c_string}
use memfd_buffer_backend.Prelude.{List, length}
use Prim.Native.Char.{Char, code}
use memfd_buffer_backend.Prelude.{zero, ap, ◌↔◌}
use memfd_buffer_backend.Prelude.Texts.{Lacks}
use memfd_buffer_backend.HostEndpoint.Examples.{unary, unary_injective}
use memfd_buffer_backend.Linux.Broker.{socket_path_of}
use memfd_buffer_backend.Linux.Broker.Paths.{underscore, socket_path_of_iff}
use memfd_buffer_backend.Linux.Transfer.{FromBroker, import_platform_mapping-FromBroker, send_fd}
use memfd_buffer_backend.Linux.{bad_path}
use memfd_buffer_backend.Errors.{ok}
use memfd_buffer_backend.Linux.Broker.{
  start_dispatcher, watch_events, with_dispatcher, start_thread, find, FdBroker, start_broker,
  destroy_broker, register_block,
}
use memfd_buffer_backend.Linux.Broker.Descriptors.{Fits, Started, start_broker-Started}
use memfd_buffer_backend.Linux.Broker.Serving.{Registered, register_block-Registered}
use memfd_buffer_backend.Linux.Broker.Destruction.{Lifetime, broker_leaves_nothing}

-- A number above all that a log returned.
unfoldable pub fresh : Log → ℕ
fresh [] = 1
fresh (opened y ∷ l) = suc (y + fresh l)
fresh (duplicated y z ∷ l) = suc (z + fresh l)
fresh (mapped y ∷ l) = suc (y + fresh l)
fresh (closed y ∷ l) = fresh l
fresh (unmapped y ∷ l) = fresh l
fresh (bound y p ∷ l) = fresh l
fresh (sent y z ∷ l) = fresh l
fresh (unlinked s ∷ l) = fresh l
fresh (other ∷ l) = fresh l

alive-fresh : (l : Log) (x : ℕ) → fresh l ≤ x → alive l x ≡ 0
unfolding fresh alive
alive-fresh [] x above = refl
alive-fresh (opened y ∷ l) x above = ground (arith, alive-fresh l x)
alive-fresh (duplicated y z ∷ l) x above = ground (arith, alive-fresh l x)
alive-fresh (mapped y ∷ l) x above = ground (arith, alive-fresh l x)
alive-fresh (closed y ∷ l) x above = ground (arith, alive-fresh l x)
alive-fresh (unmapped y ∷ l) x above = alive-fresh l x above
alive-fresh (bound y p ∷ l) x above = alive-fresh l x above
alive-fresh (sent y z ∷ l) x above = alive-fresh l x above
alive-fresh (unlinked s ∷ l) x above = alive-fresh l x above
alive-fresh (other ∷ l) x above = alive-fresh l x above

mapped_at-fresh : (l : Log) (x : ℕ) → fresh l ≤ x → mapped_at l x ≡ 0
unfolding fresh mapped_at
mapped_at-fresh [] x above = refl
mapped_at-fresh (opened y ∷ l) x above = ground (arith, mapped_at-fresh l x)
mapped_at-fresh (duplicated y z ∷ l) x above = ground (arith, mapped_at-fresh l x)
mapped_at-fresh (mapped y ∷ l) x above = ground (arith, mapped_at-fresh l x)
mapped_at-fresh (closed y ∷ l) x above = mapped_at-fresh l x above
mapped_at-fresh (unmapped y ∷ l) x above = ground (arith, mapped_at-fresh l x)
mapped_at-fresh (bound y p ∷ l) x above = mapped_at-fresh l x above
mapped_at-fresh (sent y z ∷ l) x above = mapped_at-fresh l x above
mapped_at-fresh (unlinked s ∷ l) x above = mapped_at-fresh l x above
mapped_at-fresh (other ∷ l) x above = mapped_at-fresh l x above

fresh_positive : (l : Log) → 1 ≤ fresh l
unfolding fresh
fresh_positive [] = omega arith
fresh_positive (opened y ∷ l) = omega arith
fresh_positive (duplicated y z ∷ l) = omega arith
fresh_positive (mapped y ∷ l) = omega arith
fresh_positive (closed y ∷ l) = fresh_positive l
fresh_positive (unmapped y ∷ l) = fresh_positive l
fresh_positive (bound y p ∷ l) = fresh_positive l
fresh_positive (sent y z ∷ l) = fresh_positive l
fresh_positive (unlinked s ∷ l) = fresh_positive l
fresh_positive (other ∷ l) = fresh_positive l

abbrev pub granting : Os
granting = record {
  descriptor = λ l. some (fresh l);
  succeeds = λ l. true;
  address = λ l. some (fresh l);
  file_size = λ l. sized 72;
  message = λ l. record {
    received = some 1;
    control = some (record { level = 1; kind = 1; len = 20; descriptor = some (fresh l) });
  };
  passed = λ l. fresh l ∷ [];
  off_max = 2 ^ 63 - 1;
  sun_path_size = 108;
  sol_socket = 1;
  scm_rights = 1;
  cmsg_len_int = 20;
}

granting_shown :
    (l : Log) (c : ControlMessage) (d : ℕ)
    → (granting.message l).control ≡ some c
    → c.descriptor ≡ some d
    → fresh l ∷ [] ≡ d ∷ []
granting_shown l c d e g = cc

granting-FromBroker : (k : Log) → FromBroker granting k
unfolding send_fd
granting-FromBroker k = inr (4, fresh k, refl, refl)

pub granting-IsSound : IsSound granting
granting-IsSound = record {
  new_descriptor = λ l x e. ground (arith, alive-fresh l x);
  new_passed = λ l. (ground (arith, alive-fresh l (fresh l)), tt);
  new_address = λ l x e. (ground (arith, mapped_at-fresh l x), ground (arith, fresh_positive l));
  shown = λ l c d e f g. ([], granting_shown l c d e g);
}

-- A peer that passes two descriptors: the second stays open, though nothing refers to it.
abbrev generous : Os
generous = record granting { passed = λ l. fresh l ∷ suc (fresh l) ∷ [] }

generous_shown :
    (l : Log) (c : ControlMessage) (d : ℕ)
    → (granting.message l).control ≡ some c
    → c.descriptor ≡ some d
    → fresh l ∷ suc (fresh l) ∷ [] ≡ d ∷ suc (fresh l) ∷ []
generous_shown l c d e g = cc

generous-IsSound : IsSound generous
unfolding alive
generous-IsSound = record {
  new_descriptor = granting-IsSound.new_descriptor;
  new_passed = λ l. (
    ground (arith, alive-fresh l (fresh l)),
    (ground (arith, alive-fresh l (suc (fresh l))), tt),
  );
  new_address = granting-IsSound.new_address;
  shown = λ l c d e f g. (suc (fresh l) ∷ [], generous_shown l c d e g);
}

second_descriptor_stays :
    let (r, l) = import_platform_mapping generous "/tmp/block" 72 [] in
    (handle_of r ≡ some 3) × (alive (destroyed destroy_platform_mapping r l) 4 ≡ 1)
unfolding fresh bad_path alive destroy_platform_mapping import_platform_mapping
    receive_fd_from_socket installed
second_descriptor_stays = (refl, refl)

import_platform_mapping-Accounts_example :
    let (r, l) = import_platform_mapping generous "/tmp/block" 72 [] in
    Accounts destroy_platform_mapping
      (installed
        (strays generous "/tmp/block" [] (receive_fd_from_socket generous "/tmp/block" []).0)
        [])
      r
      l
import_platform_mapping-Accounts_example =
    import_platform_mapping-Accounts generous-IsSound "/tmp/block" 72 [] (omega arith)

import_platform_mapping-FromBroker_example :
    let (r, l) = import_platform_mapping granting "/tmp/block" 72 [] in
    Accounts destroy_platform_mapping [] r l
import_platform_mapping-FromBroker_example =
    import_platform_mapping-FromBroker granting "/tmp/block" 72 [] granting-IsSound
      granting-FromBroker (omega arith)

abbrev block : ℕ → Block
block id = record {
  native_handle = some 4;
  mapping = 100;
  mapped_size = 72;
  payload_size = 8;
  block_id = id;
  control = some 100;
  current_uid = 5;
  socket_path = "";
  in_use = true;
}

abbrev to_string : ℕ → String
to_string n = if n == 0 then "0" else "1"

-- The broker that is started after `opened 4`.
abbrev started : FdBroker
started = record {
  dispatcher = record { epoll_fd = some 6; event_fd = some 13; sockets = []; running = true };
  registered_blocks = [];
}

abbrev started_log : Log
started_log = other ∷ other ∷ opened 13 ∷ opened 6 ∷ opened 4 ∷ []

start_broker-granting : start_broker granting (opened 4 ∷ []) ≡ (ok started, started_log)
unfolding start_broker start_dispatcher watch_events with_dispatcher start_thread fresh
start_broker-granting = refl

broker_leaves_nothing_example :
    Lifetime granting to_string 0 1
      (opened 4 ∷ [])
      (block 0 ∷ block 1 ∷ block 0 ∷ [])
      (start_broker granting (opened 4 ∷ []))
broker_leaves_nothing_example =
    broker_leaves_nothing granting-IsSound to_string 0 1 (opened 4 ∷ [])
      (block 0 ∷ block 1 ∷ block 0 ∷ [])

started-Fits : Fits (alive (opened 4 ∷ [])) started started_log
started-Fits =
    subst (Started (opened 4 ∷ [])) start_broker-granting
      (start_broker-Started granting-IsSound (opened 4 ∷ []))

register_block-Registered_example :
    Registered granting started
      (block 0)
      4
      (register_block granting to_string 0 1 (started, started_log) (block 0))
unfolding find
register_block-Registered_example =
    register_block-Registered granting-IsSound (alive (opened 4 ∷ [])) to_string 0 1 started
      started_log (block 0) 4 started-Fits refl refl

-- A pool with a registered block, in a process with the descriptor 4 and a mapping at 300.
abbrev log : Log
log =
    duplicated 9 6
    ∷ opened 5
    ∷ mapped 100
    ∷ opened 9
    ∷ opened 2
    ∷ opened 1
    ∷ mapped 300
    ∷ opened 4
    ∷ []

abbrev broker : FdBroker
broker = record {
  dispatcher = record {
    epoll_fd = some 1;
    event_fd = some 2;
    sockets = (5, 6) ∷ [];
    running = true;
  };
  registered_blocks = (0, record { server_socket = 5; socket_path = "/tmp/block" }) ∷ [];
}

abbrev pool : Pool
pool = record empty_pool { all_blocks = record (block 0) { native_handle = some 9 } ∷ [] }

pool-Holds : Holds (λ x. is x (some 4)) (λ x. is x (some 300)) broker pool log
unfolding alive mapped_at total
pool-Holds = record {
  fits = record {
    descriptors = λ x. ground arith;
    listed = refl;
    whole = record {
      no_epoll = λ e. absurd (cc);
      no_event = λ e. absurd (cc);
      no_sockets = λ e. absurd (cc);
    };
  };
  mapped = λ x. ground arith;
  all_mapped = ((omega arith, omega arith), tt);
}

pool_leaves_nothing_example :
    let r = destroy_pool destroy_platform_mapping (λ k. (destroy_broker (broker, k)).1) pool log in
    ((x : ℕ) → alive r.1 x ≡ is x (some 4)) × ((x : ℕ) → mapped_at r.1 x ≡ is x (some 300))
pool_leaves_nothing_example =
    pool_leaves_nothing (λ x. is x (some 4)) (λ x. is x (some 300)) broker pool log pool-Holds

unix_address-c_string_example :
    let path : List ℕ = 47 ∷ 116 ∷ 109 ∷ 112 ∷ [] in
    (length (unix_address 108 path) ≡ 108) × (c_string (unix_address 108 path) ≡ path)
unix_address-c_string_example =
    unix_address-c_string 108 (47 ∷ 116 ∷ 109 ∷ 112 ∷ [])
      (ground arith, (ground arith, (ground arith, (ground arith, tt)))) (omega arith)

one_other : Path Char "1" underscore → ⊥
one_other e = let same : 49 ≡ 95 = ap code e in absurd (omega (arith, same))

unary-Lacks : (n : ℕ) → Lacks underscore (unary n)
unfolding unary
unary-Lacks zero = tt
unary-Lacks (suc n) = ((λ e. absurd (one_other e)), unary-Lacks n)

abbrev user : ℕ
user = 1000

abbrev served_fd : ℕ
served_fd = 4

socket_path_of_iff_example :
    (socket_path_of granting unary user 7 0 served_fd ≡ socket_path_of granting unary user 7 0 9)
    ↔ ((user ≡ user) × (◌≡◌ {A = ℕ} 7 7) × (◌≡◌ {A = ℕ} 0 0) × (served_fd ≡ 9))
socket_path_of_iff_example =
    socket_path_of_iff granting unary unary_injective unary-Lacks user 7 0 served_fd user 7 0 9
