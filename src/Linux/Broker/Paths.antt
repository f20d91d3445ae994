-- ===== src/Linux/Broker/Paths.antt =====
-- The socket paths of the broker.
use Prim.Native.Char.{Char}
use Prim.Native.String.{String, ◌++◌}
use text.Mathlib.TextLemmas.{append_cancel_left, append_cancel_right, cons-append, nil-append}
use memfd_buffer_backend.Prelude.{ℕ, ◌≡◌, ◌↔◌, ap, sym, ◌∙◌}
use memfd_buffer_backend.Prelude.Texts.{Lacks, split_cons}
use memfd_buffer_backend.Os.{Os}
use memfd_buffer_backend.Linux.Broker.{socket_path_of}

abbrev pub underscore : Char
underscore = "_"

underscore-append : (x : String) → "_" ++ x ≡ String.◌∷◌ underscore x
underscore-append x = cons-append underscore "" x ∙ ap (String.◌∷◌ underscore) (nil-append x)

-- The text before the first underscore and the text after it.
split_underscore :
    (a b x y : String)
    → Lacks underscore a
    → Lacks underscore b
    → a ++ "_" ++ x ≡ b ++ "_" ++ y
    → (a ≡ b) × (x ≡ y)
split_underscore a b x y p q e =
    split_cons underscore a b x y p q
      (ap (λ t. a ++ t) (sym (underscore-append x)) ∙ e ∙ ap (λ t. b ++ t) (underscore-append y))

-- Where numbers are printed apart and without underscores, two paths are the same exactly when the
-- users, the processes, the block ids and the descriptors are: pools of one process, whose block ids
-- all start at zero, do not take each other's sockets.
pub socket_path_of_iff :
    (os : Os) (to_string : ℕ → String)
    → ((m n : ℕ) → to_string m ≡ to_string n → m ≡ n)
    → ((n : ℕ) → Lacks underscore (to_string n))
    → (euid pid id fd other_euid other_pid other_id other_fd : ℕ)
    → (socket_path_of os to_string euid pid id fd
        ≡ socket_path_of os to_string other_euid other_pid other_id other_fd)
      ↔ ((euid ≡ other_euid) × (pid ≡ other_pid) × (id ≡ other_id) × (fd ≡ other_fd))
unfolding socket_path_of
socket_path_of_iff os to_string injective plain euid pid id fd other_euid other_pid other_id
      other_fd =
    (
      λ e.
          let (users, rest) =
            split_underscore (to_string euid) (to_string other_euid) _ _ (plain euid)
              (plain other_euid) (append_cancel_left "/tmp/shared_buffer_" _ _ e) in
          let (pids, rest') =
            split_underscore (to_string pid) (to_string other_pid) _ _ (plain pid) (plain other_pid)
              rest in
          let (ids, rest'') =
            split_underscore (to_string id) (to_string other_id) _ _ (plain id) (plain other_id)
              rest' in
          (
            injective euid other_euid users,
            injective pid other_pid pids,
            injective id other_id ids,
            injective fd other_fd
                (append_cancel_right (to_string fd) (to_string other_fd) ".sock" rest''),
          ),
      λ (u, p, i, f). cc,
    )
