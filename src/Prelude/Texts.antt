-- ===== src/Prelude/Texts.antt =====
-- Texts that a separator divides.
use Prim.Native.Char.{Char}
use Prim.Native.String.{String, ◌++◌}
use text.Mathlib.TextLemmas.{cons-append, nil-append}
use mathlib.Core.Path.{◌≡◌, refl, sym, ◌∙◌}
use mathlib.Core.Logic.{◌≢◌}

-- The character does not occur in the text.
abbrev pub Lacks : Char → String → Type 0
Lacks sep String.[] = Unit
Lacks sep (String.◌∷◌ c s) = (c ≢ sep) × Lacks sep s

pub split_cons :
    (sep : Char) (a b x y : String)
    → Lacks sep a
    → Lacks sep b
    → a ++ String.◌∷◌ sep x ≡ b ++ String.◌∷◌ sep y
    → (a ≡ b) × (x ≡ y)
split_cons sep String.[] String.[] x y p q e =
    let same : String.◌∷◌ sep x ≡ String.◌∷◌ sep y = sym (nil-append _) ∙ e ∙ nil-append _ in
    (refl, cc)
split_cons sep String.[] (String.◌∷◌ c s) x y p (other, q) e =
    let same : String.◌∷◌ sep x ≡ String.◌∷◌ c (s ++ String.◌∷◌ sep y) =
      sym (nil-append _) ∙ e ∙ cons-append c s _ in
    absurd (other (cc))
split_cons sep (String.◌∷◌ c s) String.[] x y (other, p) q e =
    let same : String.◌∷◌ c (s ++ String.◌∷◌ sep x) ≡ String.◌∷◌ sep y =
      sym (cons-append c s _) ∙ e ∙ nil-append _ in
    absurd (other (cc))
split_cons sep (String.◌∷◌ c s) (String.◌∷◌ d t) x y (other, p) (differs, q) e =
    let same : String.◌∷◌ c (s ++ String.◌∷◌ sep x) ≡ String.◌∷◌ d (t ++ String.◌∷◌ sep y) =
      sym (cons-append c s _) ∙ e ∙ cons-append d t _ in
    let rest : s ++ String.◌∷◌ sep x ≡ t ++ String.◌∷◌ sep y = cc in
    let (heads, tails) = split_cons sep s t x y p q rest in (cc, tails)
