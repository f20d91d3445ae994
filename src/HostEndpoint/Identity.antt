-- ===== src/HostEndpoint/Identity.antt =====
-- When two processes have the same metadata.
use Prim.Native.Char.{Char, code}
use Prim.Native.String.{String, ◌++◌}
use text.Mathlib.TextLemmas.{append_assoc, cons-append, nil-append}
use memfd_buffer_backend.Prelude.{
  ℕ, ◌≡◌, ◌≢◌, ◌↔◌, refl, ap, subst, sym, ◌∙◌, Option, none, some, arith,
}
use memfd_buffer_backend.Prelude.Texts.{Lacks, split_cons}
use memfd_buffer_backend.HostEndpoint.{
  linux_metadata, windows_metadata, metadata_of, WindowsAnswers,
}

abbrev pub colon : Char
colon = ":"

-- A text without a colon, as the names of hosts, SIDs and decimal numbers are.
abbrev pub IsPlain : String → Type 0
IsPlain = Lacks colon

colon-append : (x : String) → ":" ++ x ≡ String.◌∷◌ colon x
colon-append x = cons-append colon "" x ∙ ap (String.◌∷◌ colon) (nil-append x)

-- The text before the first colon and the text after it.
split_colon :
    (a b x y : String) → IsPlain a → IsPlain b → a ++ ":" ++ x ≡ b ++ ":" ++ y → (a ≡ b) × (x ≡ y)
split_colon a b x y p q e =
    split_cons colon a b x y p q
      (ap (λ t. a ++ t) (sym (colon-append x)) ∙ e ∙ ap (λ t. b ++ t) (colon-append y))

not_plain : (b x : String) → IsPlain (b ++ String.◌∷◌ colon x) → ⊥
not_plain String.[] x p = (subst IsPlain (nil-append (String.◌∷◌ colon x)) p).0 refl
not_plain (String.◌∷◌ c s) x p =
    not_plain s x (subst IsPlain (cons-append c s (String.◌∷◌ colon x)) p).1

plain_colon : (a b x : String) → IsPlain a → a ≢ b ++ ":" ++ x
plain_colon a b x p e = not_plain b x (subst IsPlain (e ∙ ap (λ t. b ++ t) (colon-append x)) p)

pub not_colon : (c : Char) → code c ≢ 58 → c ≢ colon
not_colon c other e = other (ap code e)

unavailable-IsPlain : IsPlain "unavailable"
unavailable-IsPlain = (
  not_colon "u" (omega arith),
  (
    not_colon "n" (omega arith),
    (
      not_colon "a" (omega arith),
      (
        not_colon "v" (omega arith),
        (
          not_colon "a" (omega arith),
          (
            not_colon "i" (omega arith),
            (
              not_colon "l" (omega arith),
              (
                not_colon "a" (omega arith),
                (
                  not_colon "b" (omega arith),
                  (not_colon "l" (omega arith), (not_colon "e" (omega arith), tt)),
                ),
              ),
            ),
          ),
        ),
      ),
    ),
  ),
)

-- The identity of a process that is certain of all three.
abbrev pub identity_of : Option String → Option String → Option ℕ → Option (String × (String × ℕ))
identity_of (some host) (some sid) (some session_id) = some (host, (sid, session_id))
identity_of (some host) (some sid) none = none
identity_of (some host) none session_id = none
identity_of none sid session_id = none

-- The same host name, user and session, or, where one is unknown on both sides, the same process id.
abbrev pub IsSame : Option (String × (String × ℕ)) → ℕ → Option (String × (String × ℕ)) → ℕ → Type 0
IsSame (some i) p (some j) q = i ≡ j
IsSame (some i) p none q = ⊥
IsSame none p (some j) q = ⊥
IsSame none p none q = p ≡ q

abbrev pub IsPlainIdentity : Option (String × (String × ℕ)) → Type 0
IsPlainIdentity none = Unit
IsPlainIdentity (some (host, (sid, session_id))) = IsPlain host × IsPlain sid

module _ (to_string : ℕ → String) (injective : (m n : ℕ) → to_string m ≡ to_string n → m ≡ n)
    (plain : (n : ℕ) → IsPlain (to_string n)) where
  -- On Linux two processes whose hosts have names have the same metadata exactly when the names of
  -- their hosts and their effective users agree.
  pub linux_metadata_iff :
      (hostname other_name : String) (euid other_euid : ℕ)
      → IsPlain hostname
      → IsPlain other_name
      → (linux_metadata to_string (some hostname) euid
          ≡ linux_metadata to_string (some other_name) other_euid)
        ↔ ((hostname ≡ other_name) × (euid ≡ other_euid))
  unfolding linux_metadata
  linux_metadata_iff hostname other_name euid other_euid p q = (
    (λ e.
        let (names, users) =
          split_colon hostname other_name (to_string euid) (to_string other_euid) p q e in
        (names, injective euid other_euid users)),
    λ (names, users). cc,
  )

  text_of : Option (String × (String × ℕ)) → ℕ → String
  text_of (some (host, (sid, session_id))) process_id =
      host ++ ":" ++ sid ++ ":" ++ to_string session_id
  text_of none process_id = "unavailable" ++ ":" ++ to_string process_id

  unavailable-lem : (p : ℕ) → "unavailable:" ++ to_string p ≡ "unavailable" ++ ":" ++ to_string p
  unavailable-lem p = append_assoc "unavailable" ":" (to_string p)

  metadata_of-text_of :
      (host sid : Option String) (session_id : Option ℕ) (p : ℕ)
      → metadata_of to_string host sid session_id p ≡ text_of (identity_of host sid session_id) p
  unfolding metadata_of text_of
  metadata_of-text_of (some h) (some s) (some n) p = refl
  metadata_of-text_of (some h) (some s) none p = unavailable-lem p
  metadata_of-text_of (some h) none n p = unavailable-lem p
  metadata_of-text_of none s n p = unavailable-lem p

  -- A text of a process that is certain is not one of a process that is not.
  certain_other :
      (h s : String) (n p : ℕ)
      → IsPlain h
      → h ++ ":" ++ (s ++ ":" ++ to_string n) ≢ "unavailable" ++ ":" ++ to_string p
  certain_other h s n p plain_host e =
      let (names, rest) =
        split_colon h "unavailable" (s ++ ":" ++ to_string n) (to_string p) plain_host
          unavailable-IsPlain e in
      plain_colon (to_string p) s (to_string n) (plain p) (sym rest)

  text_of_iff :
      (i j : Option (String × (String × ℕ))) (p q : ℕ)
      → IsPlainIdentity i
      → IsPlainIdentity j
      → (text_of i p ≡ text_of j q) ↔ IsSame i p j q
  unfolding text_of
  text_of_iff (some (h, (s, n))) (some (g, (t, m))) p q (hp, sp) (gp, tp) = (
    (λ e.
        let (hosts, rest) =
          split_colon h g (s ++ ":" ++ to_string n) (t ++ ":" ++ to_string m) hp gp e in
        let (sids, sessions) = split_colon s t (to_string n) (to_string m) sp tp rest in
        let same : n ≡ m = injective n m sessions in cc),
    λ e. ap (λ i. text_of (some i) p) e,
  )
  text_of_iff (some (h, (s, n))) none p q (hp, sp) plain_other =
      ((λ e. certain_other h s n q hp e), λ e. absurd e)
  text_of_iff none (some (g, (t, m))) p q plain_other (gp, tp) =
      ((λ e. certain_other g t m p gp (sym e)), λ e. absurd e)
  text_of_iff none none p q plain_one plain_other = (
    (λ e.
        let (names, rest) =
          split_colon "unavailable" "unavailable" (to_string p) (to_string q) unavailable-IsPlain
            unavailable-IsPlain e in
        injective p q rest),
    λ e. ap (text_of none) e,
  )

  -- On Windows two processes have the same metadata exactly when both are certain of their host
  -- name, user and session, which agree, or both are uncertain of one and have the same process id,
  -- where host names and users have no colon and numbers are printed apart, without a colon.
  pub windows_metadata_iff :
      (w v : WindowsAnswers)
      → let i = identity_of w.host w.sid w.session_id in
        let j = identity_of v.host v.sid v.session_id in
        IsPlainIdentity i
        → IsPlainIdentity j
        → (windows_metadata to_string w ≡ windows_metadata to_string v)
          ↔ IsSame i w.process_id j v.process_id
  unfolding windows_metadata
  windows_metadata_iff w v one other =
      let (there, back) =
        text_of_iff (identity_of w.host w.sid w.session_id) (identity_of v.host v.sid v.session_id)
          w.process_id v.process_id one other in
      let left = metadata_of-text_of w.host w.sid w.session_id w.process_id in
      let right = metadata_of-text_of v.host v.sid v.session_id v.process_id in
      ((λ e. there (sym left ∙ e ∙ right)), λ e. left ∙ back e ∙ sym right)
