-- ===== src/Base/Text.antt =====
-- Texts: the parts of Go's package strings that the commands use.
use Prim.Native.Nat.{ℕ}
use Prim.Native.Char.{Char, code}
use Prim.Native.String.{String, ◌++◌ as ◌<>◌}
use mathlib.Core.Path.{◌≡◌, refl, sym, ap, ◌∙◌}
use mathlib.Core.Logic.{inl, inr}
use mathlib.Core.Bool.{Bool, true, false, ◌&&◌, ◌||◌}
use mathlib.Core.List.{List, [], ◌∷◌}
use native.Mathlib.Omega.{arith}
use text.Mathlib.TextEquality.{eq_iff}
use clusteradm.Base.Lists.{In}
use clusteradm.Base.Tests.{◌==◌, leb, if◌then◌else◌, Bool-cases}
use text.Mathlib.Text.{◌==◌ as text_eq}
use text.Mathlib.TextLemmas.{cons-append, nil-append}

-- `unicode.IsSpace`
unfoldable pub is_space : ℕ → Bool
is_space c =
    (leb 9 c && leb c 13)
    || c == 32
    || c == 0x85
    || c == 0xa0
    || c == 0x1680
    || (leb 0x2000 c && leb c 0x200a)
    || c == 0x2028
    || c == 0x2029
    || c == 0x202f
    || c == 0x205f
    || c == 0x3000

trim_left : String → String
trim_left String.[] = ""
trim_left (String.◌∷◌ c s) = if is_space (code c) then trim_left s else String.◌∷◌ c s

trim_right : String → String
trim_right String.[] = ""
trim_right (String.◌∷◌ c s) =
    let rest = trim_right s in
    if text_eq rest "" && is_space (code c) then "" else String.◌∷◌ c rest

-- `strings.TrimSpace`
unfoldable pub trim_space : String → String
unfolding is_space trim_left trim_right
trim_space s = trim_right (trim_left s)

-- The piece at hand gets one more character in front.
abbrev grow : Char → List String → List String
grow c [] = String.◌∷◌ c "" ∷ []
grow c (s ∷ rest) = String.◌∷◌ c s ∷ rest

-- `strings.Split(s, sep)` at a separator of one character
unfoldable pub split : ℕ → String → List String
split sep String.[] = "" ∷ []
split sep (String.◌∷◌ c s) =
    let rest = split sep s in if code c == sep then "" ∷ rest else grow c rest

-- `sets.String` and a Go map with Boolean values, asked for one text
abbrev pub contains : List String → String → Bool
contains [] x = false
contains (y ∷ ys) x = text_eq y x || contains ys x

pub contains-In : (x : String) (xs : List String) → contains xs x ≡ true → In x xs
contains-In x [] h = cc
contains-In x (y ∷ ys) h = elim (Bool-cases (text_eq y x)) [
  | inl same ↦ inl (sym ((eq_iff y x).0 same))
  | inr differ ↦ inr (contains-In x ys (ground arith))
]

test_split : split b',' "a,b,,c" ≡ "a" ∷ "b" ∷ "" ∷ "c" ∷ []
unfolding split
test_split = refl

test_trim : trim_space " a b\t" ≡ "a b"
unfolding trim_space
test_trim = refl

-- A space in front does not survive the trim.
pub trim_space-space : (s : String) → trim_space (" " <> s) ≡ trim_space s
unfolding trim_space
trim_space-space s =
    let shifted : Path String (" " <> s) (String.◌∷◌ " " s) =
      cons-append " " "" s ∙ ap (λ t. String.◌∷◌ " " t) (nil-append s) in
    ap trim_space shifted

-- The bytes of a text of ASCII characters.
abbrev pub bytes : String → List ℕ
bytes String.[] = []
bytes (String.◌∷◌ c s) = code c ∷ bytes s
