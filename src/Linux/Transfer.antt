-- ===== src/Linux/Transfer.antt =====
-- `send_fd` and the other end of it: what a client makes of the message of the broker.
use Prim.Native.String.{String}
use memfd_buffer_backend.Prelude.{
  ℕ, ◌≡◌, ◌<◌, ◌⊎◌, inl, inr, refl, ap, sym, subst, ◌∙◌, none, some, [], ◌∷◌, arith, Bool-cases,
  Option-cases,
}
use memfd_buffer_backend.Errors.{ok}
use memfd_buffer_backend.Os.{
  Os, Log, Message, IsSound, installed, receive_message, opened, closed, other,
}
use memfd_buffer_backend.Os.Accounts.{Accounts}
use memfd_buffer_backend.Linux.{
  bad_path, bad_control, receive_on, connect_socket, receive_fd_from_socket,
  import_platform_mapping, destroy_platform_mapping,
}
use memfd_buffer_backend.Linux.Mapping.{untaken, strays, import_platform_mapping-Accounts}

-- The message that `send_fd` hands to `sendmsg`: its bytes, and its control message.
pub record SentMessage : Type 0 where
  pub bytes : ℕ
  pub level : ℕ
  pub kind : ℕ
  pub len : ℕ
  pub descriptor : ℕ

unfoldable pub send_fd : Os → ℕ → SentMessage
send_fd os fd = record {
  bytes = 1;
  level = os.sol_socket;
  kind = os.scm_rights;
  len = os.cmsg_len_int;
  descriptor = fd;
}

-- The message as the receiver sees it, where the system gave the open file the number `d` there.
abbrev pub received_as : SentMessage → ℕ → Message
received_as m d = record {
  received = some m.bytes;
  control = some (record { level = m.level; kind = m.kind; len = m.len; descriptor = some d });
}

module _ (os : Os) (fd d : ℕ) where
  receive_on-sent :
      (s : ℕ) (l : Log)
      → receive_on os s (received_as (send_fd os fd) d, l) ≡ (ok d, other ∷ closed s ∷ l)
  unfolding receive_on send_fd bad_control
  receive_on-sent s l = ground arith

-- What `recvmsg` gives where the broker is the peer: it fails, or it shows the message that
-- `send_fd` sends, and has installed the descriptor that is in it and no other.
abbrev pub FromBroker : Os → Log → Type 0
FromBroker os k =
    (((os.message k).received ≡ none) × (os.passed k ≡ []))
    ⊎ ((fd : ℕ) × (d : ℕ) × (os.message k ≡ received_as (send_fd os fd) d) × (os.passed k ≡ d ∷ []))

module _ (os : Os) where
  untaken-FromBroker :
      (k : Log) (s : ℕ)
      → FromBroker os k
      → untaken (os.passed k) (receive_on os s (receive_message os k)).0 ≡ []
  untaken-FromBroker k s (inl (failed, none_passed)) =
      ap (λ ds. untaken ds (receive_on os s (receive_message os k)).0) none_passed
  untaken-FromBroker k s (inr (fd, d, message, passed)) =
      let l = installed (os.passed k) (other ∷ k) in
      ap (λ ds. untaken ds (receive_on os s (receive_message os k)).0) passed
      ∙ ap (λ m. untaken (d ∷ []) (receive_on os s (m, l)).0) message
      ∙ ap (λ r. untaken (d ∷ []) r.0) (receive_on-sent os fd d s l)

  strays-FromBroker :
      (path : String) (l : Log)
      → ((k : Log) → FromBroker os k)
      → strays os path l (receive_fd_from_socket os path l).0 ≡ []
  unfolding strays receive_fd_from_socket connect_socket
  strays-FromBroker path l peer = elim (Bool-cases (bad_path os path)) [
    | inl bad ↦ rw (bad, strays) refl
    | inr good ↦ elim (Option-cases (os.descriptor l)) [
      | inl e ↦ rw (good, strays, e) refl
      | inr (s, e) ↦ elim (Bool-cases (os.succeeds (opened s ∷ l))) [
        | inr failed ↦ rw (good, strays, e, failed) refl
        | inl connected ↦
            let k : Log = other ∷ opened s ∷ l in
            let r = receive_on os s (receive_message os k) in
            let same : receive_fd_from_socket os path l ≡ r =
              rw (good, receive_fd_from_socket, e, connected) refl in
            let left : strays os path l r.0 ≡ untaken (os.passed k) r.0 =
              rw (good, strays, e, connected) refl in
            subst (λ t. strays os path l t.0 ≡ []) (sym same)
              (left ∙ untaken-FromBroker k s (peer k))
      ]
    ]
  ]

  -- Where the peer of every `recvmsg` is the broker, whatever else the system answers, an import
  -- leaves open the descriptor and the mapping that it returns, and nothing where it throws.
  pub import_platform_mapping-FromBroker :
      (name : String) (size : ℕ) (l : Log)
      → IsSound os
      → ((k : Log) → FromBroker os k)
      → 0 < size
      → let r = import_platform_mapping os name size l in
        Accounts destroy_platform_mapping l r.0 r.1
  unfolding installed
  import_platform_mapping-FromBroker name size l sound peer positive =
      let r = import_platform_mapping os name size l in
      subst (λ ds. Accounts destroy_platform_mapping (installed ds l) r.0 r.1)
        (strays-FromBroker name l peer)
        (import_platform_mapping-Accounts sound name size l positive)
