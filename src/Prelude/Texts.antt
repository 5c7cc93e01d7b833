-- ===== src/Prelude/Texts.antt =====
-- Go's `strings.HasPrefix` and `strings.TrimPrefix`.
use Prim.Native.Char.{Char, code}
use Prim.Native.String.{String}
use Prim.Native.String.append
use text.Mathlib.TextEquality.{Char-path}
use mathlib.Core.Path.{◌≡◌, refl, sym, ap, ◌∙◌}
use mathlib.Core.Bool.{Bool, true, false}
use mathlib.Core.Option.{Option, none, some}
use native.Mathlib.Omega.{arith}
use first_golang.Prelude.Tests.{◌==◌, ◌&◌, if◌then◌else◌}

-- The rest of the text behind a prefix.
unfoldable pub cut_prefix : String → String → Option String
cut_prefix String.[] t = some t
cut_prefix (String.◌∷◌ c s) String.[] = none
cut_prefix (String.◌∷◌ c s) (String.◌∷◌ d t) =
    let rest = cut_prefix s t in if code c == code d then rest else none

unfoldable pub has_prefix : String → String → Bool
unfolding cut_prefix
has_prefix t p = elim (cut_prefix p t) [ none ↦ false | some _ ↦ true ]

unfoldable pub trim_prefix : String → String → String
unfolding cut_prefix
trim_prefix t p = elim (cut_prefix p t) [ none ↦ t | some r ↦ r ]

pub cut_prefix-append : (p t : String) → cut_prefix p (p & t) ≡ some t
unfolding cut_prefix
cut_prefix-append String.[] t = rw (append.nil t) refl
cut_prefix-append (String.◌∷◌ c s) t =
    rw (append.cons c s t) (ground (arith, cut_prefix-append s t))

cut_prefix-cons :
    (c d : Char) (s t r : String)
    → cut_prefix (String.◌∷◌ c s) (String.◌∷◌ d t) ≡ some r
    → (code c ≡ code d) × (cut_prefix s t ≡ some r)
unfolding cut_prefix
cut_prefix-cons c d s t r h = ground arith

pub cut_prefix_sound : (p t r : String) → cut_prefix p t ≡ some r → t ≡ p & r
unfolding cut_prefix
cut_prefix_sound String.[] t r h = rw (append.nil r) (ground arith)
cut_prefix_sound (String.◌∷◌ c s) String.[] r h = absurd (cc)
cut_prefix_sound (String.◌∷◌ c s) (String.◌∷◌ d t) r h =
    let (e, k) = cut_prefix-cons c d s t r h in
    rw (append.cons c s r, Char-path c d e, cut_prefix_sound s t r k) refl

pub prefix_cancel : (p s t : String) → p & s ≡ p & t → s ≡ t
prefix_cancel p s t h =
    let e : some s ≡ some t =
      sym (cut_prefix-append p s) ∙ ap (cut_prefix p) h ∙ cut_prefix-append p t in
    cc
