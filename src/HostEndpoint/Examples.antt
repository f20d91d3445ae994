-- ===== src/HostEndpoint/Examples.antt =====
-- The theorems on the metadata, with numbers printed in unary.
use Prim.Native.String.{String}
use memfd_buffer_backend.Prelude.{ℕ, zero, suc, ◌≡◌, ◌↔◌, refl, ap, none, some, arith}
use memfd_buffer_backend.HostEndpoint.{WindowsAnswers, windows_metadata}
use memfd_buffer_backend.HostEndpoint.Identity.{
  IsPlain, not_colon, IsSame, identity_of, windows_metadata_iff,
}

unfoldable pub unary : ℕ → String
unary zero = ""
unary (suc n) = String.◌∷◌ "1" (unary n)

pub unary_injective : (m n : ℕ) → unary m ≡ unary n → m ≡ n
unfolding unary
unary_injective zero zero e = refl
unary_injective zero (suc n) e = absurd (cc)
unary_injective (suc m) zero e = absurd (cc)
unary_injective (suc m) (suc n) e = ap suc (unary_injective m n (cc))

pub unary-IsPlain : (n : ℕ) → IsPlain (unary n)
unfolding unary
unary-IsPlain zero = tt
unary-IsPlain (suc n) = (not_colon "1" (omega arith), unary-IsPlain n)

abbrev certain : WindowsAnswers
certain = record { host = some "A"; sid = some "S"; session_id = some 1; process_id = 5 }

abbrev uncertain : WindowsAnswers
uncertain = record { host = some "A"; sid = none; session_id = some 1; process_id = 5 }

windows_metadata_iff_example :
    (windows_metadata unary certain ≡ windows_metadata unary uncertain)
    ↔ IsSame (identity_of (some "A") (some "S") (some 1)) 5 (identity_of (some "A") none (some 1)) 5
windows_metadata_iff_example =
    windows_metadata_iff unary unary_injective unary-IsPlain certain uncertain
      ((not_colon "A" (omega arith), tt), (not_colon "S" (omega arith), tt)) tt
