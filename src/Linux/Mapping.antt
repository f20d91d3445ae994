-- ===== src/Linux/Mapping.antt =====
-- Which descriptors and mappings are left open: on every path, those that the result holds.
use Prim.Native.String.{String}
use memfd_buffer_backend.Prelude.{
  ℕ, ◌+◌, ◌≡◌, ◌<◌, ◌≤◌, refl, sym, subst, ◌∙◌, inl, inr, true, not, List, [], ◌∷◌, ℕ_discrete,
  ◌==◌, if◌then◌else◌, Option, none, some, ltb, arith, Bool-cases, Option-cases,
}
use memfd_buffer_backend.Errors.{
  Error, Result, ok, err, no_descriptor, invalid_control_message, invalid_descriptor_received,
}
use memfd_buffer_backend.Os.{
  Os, Log, alive-le, closed, opened, other, alive, mapped_at, ControlMessage, passes, IsSound,
  open_descriptor, map_shared, receive_message, installed, AllNew,
}
use memfd_buffer_backend.Os.Accounts.{is, Accounts}
use memfd_buffer_backend.Linux.{
  finish_mapping, check_control, bad_control, descriptor_of, check_message, receive_on,
  connect_socket, receive_fd_from_socket, map_received, import_platform_mapping, truncate_and_map,
  create_platform_mapping, destroy_platform_mapping, bad_path, is_size,
}

abbrev received : Result ℕ → Option ℕ
received (ok fd) = some fd
received (err e) = none

-- The calls from `l` on have opened `fd` and mapped nothing.
abbrev Opens : Log → Option ℕ → Log → Type 0
Opens l fd l' = (x : ℕ) → (alive l' x ≡ alive l x + is x fd) × (mapped_at l' x ≡ mapped_at l x)

-- The descriptors that `recvmsg` installed, less the one that is returned.
abbrev pub untaken : List ℕ → Result ℕ → List ℕ
untaken [] r = []
untaken (d ∷ ds) (ok fd) = ds
untaken (d ∷ ds) (err e) = d ∷ ds

-- What a `receive_fd_from_socket` that gives `r` leaves open besides.
unfoldable pub strays : Os → String → Log → Result ℕ → List ℕ
strays os path l r = if bad_path os path then [] else elim (os.descriptor l) [
  | none ↦ []
  | some s ↦
      if not (os.succeeds (opened s ∷ l)) then [] else untaken (os.passed (other ∷ opened s ∷ l)) r
]

installed-mapped_at : (ds : List ℕ) (l : Log) (x : ℕ) → mapped_at (installed ds l) x ≡ mapped_at l x
unfolding installed mapped_at
installed-mapped_at [] l x = refl
installed-mapped_at (d ∷ ds) l x = installed-mapped_at ds (opened d ∷ l) x

installed-same :
    (ds : List ℕ) (k l : Log) (x : ℕ)
    → alive k x ≡ alive l x
    → alive (installed ds k) x ≡ alive (installed ds l) x
unfolding installed alive
installed-same [] k l x same = same
installed-same (d ∷ ds) k l x same =
    installed-same ds (opened d ∷ k) (opened d ∷ l) x (ground (arith, same))

-- A descriptor that is open is not among new ones.
installed-apart :
    (ds : List ℕ) (k l : Log) (x : ℕ)
    → AllNew k ds
    → alive k x ≡ 1
    → alive (installed ds l) x ≡ alive l x
unfolding installed alive
installed-apart [] k l x new open_one = refl
installed-apart (d ∷ ds) k l x (first, rest) open_one =
    installed-apart ds (opened d ∷ k) (opened d ∷ l) x rest (ground (arith, open_one))
    ∙ ground (arith, open_one, first)

AllNew-before :
    (ds : List ℕ) (k l : Log) → ((x : ℕ) → alive l x ≤ alive k x) → AllNew k ds → AllNew l ds
unfolding alive
AllNew-before [] k l fewer new = tt
AllNew-before (d ∷ ds) k l fewer (first, rest) = (
  omega (arith, first, fewer d),
  AllNew-before ds (opened d ∷ k) (opened d ∷ l) (λ x. ground (arith, fewer x)) rest,
)

-- The client socket is closed after `recvmsg`.
closed-installed :
    (ds : List ℕ) (l : Log) (s x : ℕ)
    → alive l s ≡ 0
    → AllNew (other ∷ opened s ∷ l) ds
    → let k : Log = closed s ∷ installed ds (other ∷ other ∷ opened s ∷ l) in
      (alive k x ≡ alive (installed ds l) x) × (mapped_at k x ≡ mapped_at l x)
unfolding alive mapped_at
closed-installed ds l s x new all_new = (
  elim (ℕ_discrete x s) [
    | yes same ↦
        ground
          (arith, same, new, installed-apart ds (other ∷ opened s ∷ l) l s all_new (ground arith))
    | no apart ↦
        ground (
          arith,
          apart,
          installed-same ds (other ∷ other ∷ opened s ∷ l) l x (ground (arith, apart)),
        )
  ],
  installed-mapped_at ds (other ∷ other ∷ opened s ∷ l) x,
)

-- The first of the new descriptors is taken.
installed-first :
    (d : ℕ) (rest : List ℕ) (l : Log) (x : ℕ)
    → AllNew l (d ∷ rest)
    → alive (installed (d ∷ rest) l) x ≡ alive (installed rest l) x + is x (some d)
unfolding installed alive
installed-first d rest l x (first, new) = elim (ℕ_discrete x d) [
  | yes same ↦ ground (
    arith,
    same,
    first,
    installed-apart rest (opened d ∷ l) l d new (ground arith),
    installed-apart rest (opened d ∷ l) (opened d ∷ l) d new (ground arith),
  )
  | no apart ↦ ground (arith, apart, installed-same rest (opened d ∷ l) l x (ground (arith, apart)))
]

module _ {os : Os} (sound : IsSound os) where
  map_shared-Accounts :
      (l k : Log) (fd size : ℕ) (name : String)
      → 0 < size
      → alive l fd ≡ 0
      → Opens l (some fd) k
      → Accounts destroy_platform_mapping l
          (finish_mapping fd size name (map_shared os k)).0
          (finish_mapping fd size name (map_shared os k)).1
  unfolding finish_mapping alive mapped_at destroy_platform_mapping
  map_shared-Accounts l k fd size name positive new open_fd = elim (Option-cases (os.address k)) [
    | inl e ↦
        rw (e, finish_mapping)
          (record {
            descriptors = λ x. ground (arith, open_fd x, new);
            regions = λ x. ground (arith, open_fd x);
            no_descriptor_left = λ x. ground (arith, open_fd x, new);
            no_region_left = λ x. ground (arith, open_fd x);
          })
    | inr (a, e) ↦
        rw (e, finish_mapping)
          (record {
            descriptors = λ x. ground (arith, open_fd x);
            regions = λ x. ground (arith, open_fd x, sound.new_address k a e);
            no_descriptor_left = λ x. ground (arith, open_fd x, new);
            no_region_left = λ x. ground (arith, open_fd x, sound.new_address k a e);
          })
  ]

  refused-Opens :
      (l k : Log) (ds : List ℕ)
      → ((x : ℕ) → (alive k x ≡ alive (installed ds l) x) × (mapped_at k x ≡ mapped_at l x))
      → Opens (installed ds l) none k
  refused-Opens l k ds opens x =
      (ground (arith, opens x), ground (arith, opens x, installed-mapped_at ds l x))

  refused_untaken-Opens :
      (l k : Log) (ds : List ℕ) (e : Error)
      → ((x : ℕ) → (alive k x ≡ alive (installed ds l) x) × (mapped_at k x ≡ mapped_at l x))
      → Opens (installed (untaken ds (err e)) l) none k
  refused_untaken-Opens l k [] e opens = refused-Opens l k [] opens
  refused_untaken-Opens l k (d ∷ ds) e opens = refused-Opens l k (d ∷ ds) opens

  taken-Opens :
      (l k : Log) (ds : List ℕ) (d : ℕ) (rest : List ℕ)
      → AllNew l ds
      → ((x : ℕ) → (alive k x ≡ alive (installed ds l) x) × (mapped_at k x ≡ mapped_at l x))
      → ds ≡ d ∷ rest
      → Opens (installed (untaken ds (ok d)) l) (some d) (other ∷ k)
  unfolding alive mapped_at
  taken-Opens l k [] d rest new opens same x = absurd (cc)
  taken-Opens l k (e ∷ ds) d rest new opens same x =
      let first : e ≡ d = cc in
      (
        ground (arith, first, opens x, installed-first e ds l x new),
        ground (arith, opens x, installed-mapped_at ds l x),
      )

  check_control-Opens :
      (l k : Log) (c : Option ControlMessage) (ds : List ℕ)
      → AllNew l ds
      → ((x : ℕ) → (alive k x ≡ alive (installed ds l) x) × (mapped_at k x ≡ mapped_at l x))
      → ((m : ControlMessage) (d : ℕ)
          → c ≡ some m
          → passes os m ≡ true
          → m.descriptor ≡ some d
          → (rest : List ℕ) × ds ≡ d ∷ rest)
      → let r = check_control os c k in Opens (installed (untaken ds r.0) l) (received r.0) r.1
  unfolding check_control bad_control descriptor_of
  check_control-Opens l k none ds new opens shown =
      refused_untaken-Opens l k ds invalid_control_message opens
  check_control-Opens l k (some m) ds new opens shown = elim (Bool-cases (bad_control os m)) [
    | inl bad ↦ rw (bad, check_control) (refused_untaken-Opens l k ds invalid_control_message opens)
    | inr good ↦ elim (Option-cases m.descriptor) [
      | inl e ↦
          rw (good, check_control, e)
            (refused_untaken-Opens l k ds invalid_descriptor_received opens)
      | inr (d, e) ↦
          let (rest, same) = shown m d refl (ground (arith, good)) e in
          rw (good, check_control, e) (taken-Opens l k ds d rest new opens same)
    ]
  ]

  -- `l` is the log before the call.
  check_message-Opens :
      (l k : Log) (n : Option ℕ) (c : Option ControlMessage) (ds : List ℕ)
      → AllNew l ds
      → ((x : ℕ) → (alive k x ≡ alive (installed ds l) x) × (mapped_at k x ≡ mapped_at l x))
      → ((m : ControlMessage) (d : ℕ)
          → c ≡ some m
          → passes os m ≡ true
          → m.descriptor ≡ some d
          → (rest : List ℕ) × ds ≡ d ∷ rest)
      → let r = check_message os n c k in Opens (installed (untaken ds r.0) l) (received r.0) r.1
  unfolding check_message check_control
  check_message-Opens l k none c ds new opens shown =
      refused_untaken-Opens l k ds no_descriptor opens
  check_message-Opens l k (some n) c ds new opens shown = elim (Bool-cases (n == 1)) [
    | inr several ↦ rw (several, check_message) (refused_untaken-Opens l k ds no_descriptor opens)
    | inl one ↦ rw (one, check_message) (check_control-Opens l k c ds new opens shown)
  ]

  receive_fd_from_socket-Opens :
      (l : Log) (path : String)
      → let r = receive_fd_from_socket os path l in
        Opens (installed (strays os path l r.0) l) (received r.0) r.1
  unfolding receive_fd_from_socket connect_socket receive_on strays installed alive mapped_at
  receive_fd_from_socket-Opens l path = elim (Bool-cases (bad_path os path)) [
    | inl bad ↦ rw (bad, strays, receive_fd_from_socket) (λ x. ground arith)
    | inr good ↦ elim (Option-cases (os.descriptor l)) [
      | inl e ↦ rw (good, strays, receive_fd_from_socket, e) (λ x. ground arith)
      | inr (s, e) ↦ elim (Bool-cases (os.succeeds (opened s ∷ l))) [
        | inr failed ↦
            rw (good, strays, receive_fd_from_socket, e, failed)
              (λ x. ground (arith, sound.new_descriptor l s e))
        | inl connected ↦
            let k : Log = other ∷ opened s ∷ l in
            let r = receive_on os s (receive_message os k) in
            let same : receive_fd_from_socket os path l ≡ r =
              rw (good, receive_fd_from_socket, e, connected) refl in
            let left : strays os path l r.0 ≡ untaken (os.passed k) r.0 =
              rw (good, strays, e, connected) refl in
            subst (λ t. Opens (installed (strays os path l t.0) l) (received t.0) t.1) (sym same)
              (subst (λ ds. Opens (installed ds l) (received r.0) r.1) (sym left)
                (check_message-Opens l (closed s ∷ installed (os.passed k) (other ∷ k))
                  (os.message k).received (os.message k).control (os.passed k)
                  (AllNew-before (os.passed k) k l (λ x. ground (arith, sound.new_descriptor l s e))
                    (sound.new_passed k))
                  (λ x.
                    closed-installed (os.passed k) l s x (sound.new_descriptor l s e)
                      (sound.new_passed k))
                  (sound.shown k)))
      ]
    ]
  ]

  map_received-Accounts :
      (l k : Log) (name : String) (size : ℕ) (r : Result ℕ)
      → 0 < size
      → ((y : ℕ) → r ≡ ok y → alive l y ≡ 0)
      → Opens l (received r) k
      → let s = map_received os name size (r, k) in Accounts destroy_platform_mapping l s.0 s.1
  unfolding map_received alive mapped_at
  map_received-Accounts l k name size (err e) positive new opens = record {
    descriptors = λ x. ground (arith, opens x);
    regions = λ x. ground (arith, opens x);
    no_descriptor_left = λ x. ground (arith, opens x);
    no_region_left = λ x. ground (arith, opens x);
  }
  map_received-Accounts l k name size (ok fd) positive new opens =
      elim (Bool-cases (is_size (os.file_size k) size)) [
        | inr other_size ↦
            rw (other_size, map_received)
              (record {
                descriptors = λ x. ground (arith, opens x, new fd refl);
                regions = λ x. ground (arith, opens x);
                no_descriptor_left = λ x. ground (arith, opens x, new fd refl);
                no_region_left = λ x. ground (arith, opens x);
              })
        | inl same_size ↦
            rw (same_size, map_received)
              (map_shared-Accounts l (other ∷ k) fd size name positive (new fd refl) opens)
      ]

  -- Whatever the system answers and the peer sends, `import_platform_mapping` leaves open the
  -- descriptor and the mapping that it returns, none of its own where it throws, and the strays: the
  -- descriptors that `recvmsg` installed and that were not returned by `receive_fd_from_socket`.
  -- Destroying the result leaves the strays.
  pub import_platform_mapping-Accounts :
      (name : String) (size : ℕ) (l : Log)
      → 0 < size
      → let r = import_platform_mapping os name size l in
        Accounts destroy_platform_mapping
          (installed (strays os name l (receive_fd_from_socket os name l).0) l)
          r.0
          r.1
  unfolding import_platform_mapping
  import_platform_mapping-Accounts name size l positive =
      let k = installed (strays os name l (receive_fd_from_socket os name l).0) l in
      map_received-Accounts k (receive_fd_from_socket os name l).1 name size
        (receive_fd_from_socket os name l).0 positive
        (λ y e. ground (
          arith,
          e,
          receive_fd_from_socket-Opens l name y,
          alive-le (receive_fd_from_socket os name l).1 y,
        ))
        (receive_fd_from_socket-Opens l name)

  truncate_and_map-Accounts :
      (l : Log) (size : ℕ)
      → 0 < size
      → let r = truncate_and_map os size (open_descriptor os l) in
        Accounts destroy_platform_mapping l r.0 r.1
  unfolding truncate_and_map alive mapped_at
  truncate_and_map-Accounts l size positive = elim (Option-cases (os.descriptor l)) [
    | inl e ↦
        rw (e, truncate_and_map)
          (record {
            descriptors = λ x. ground arith;
            regions = λ x. ground arith;
            no_descriptor_left = λ x. ground arith;
            no_region_left = λ x. ground arith;
          })
    | inr (fd, e) ↦ elim (Bool-cases (os.succeeds (opened fd ∷ l))) [
      | inr failed ↦
          rw (e, truncate_and_map, failed)
            (record {
              descriptors = λ x. ground (arith, sound.new_descriptor l fd e);
              regions = λ x. ground arith;
              no_descriptor_left = λ x. ground (arith, sound.new_descriptor l fd e);
              no_region_left = λ x. ground arith;
            })
      | inl truncated ↦
          rw (e, truncate_and_map, truncated)
            (map_shared-Accounts l (other ∷ opened fd ∷ l) fd size "" positive
              (sound.new_descriptor l fd e) (λ x. ground (arith, sound.new_descriptor l fd e)))
    ]
  ]

  -- Whatever the system answers, `create_platform_mapping` leaves open the descriptor and the
  -- mapping that it returns, and none where it throws; destroying the result leaves none.
  pub create_platform_mapping-Accounts :
      (size : ℕ) (l : Log)
      → 0 < size
      → let r = create_platform_mapping os size l in Accounts destroy_platform_mapping l r.0 r.1
  unfolding create_platform_mapping
  create_platform_mapping-Accounts size l positive = elim (Bool-cases (ltb os.off_max size)) [
    | inl large ↦
        rw (large, create_platform_mapping)
          (record {
            descriptors = λ x. ground arith;
            regions = λ x. ground arith;
            no_descriptor_left = λ x. refl;
            no_region_left = λ x. refl;
          })
    | inr small ↦ rw (small, create_platform_mapping) (truncate_and_map-Accounts l size positive)
  ]
