-- ===== src/Prelude/Text.antt =====
-- What the code does with `str`: truth, equality, `lower`, `in` and `endswith`, over code points.
use Prim.Native.Nat.{ℕ, ◌+◌}
use Prim.Native.Char.{code}
use Prim.Native.String.{String}
use mathlib.Core.Path.{◌≡◌, refl}
use mathlib.Core.Bool.{Bool, true, false, ◌&&◌, ◌||◌}
use mathlib.Core.Option.{Option, none, some}
use mathlib.Core.List.{List, [], ◌∷◌, ◌++◌}
use quant_strategies.Prelude.Tests.{leb, ◌==◌, if◌then◌else◌}

abbrev pub codes : String → List ℕ
codes String.[] = []
codes (String.◌∷◌ c s) = code c ∷ codes s

-- `str.lower` on one code point, as far as a search for an ASCII text can tell: the ASCII capitals,
-- and the two other code points whose lower case has an ASCII letter (U+0130 and U+212A).
unfoldable pub lower_code : ℕ → List ℕ
lower_code c =
    if leb 65 c && leb c 90
    then (c + 32) ∷ []
    else if c == 0x130
    then 105 ∷ 0x307 ∷ []
    else if c == 0x212a
    then 107 ∷ []
    else c ∷ []

unfoldable pub lower : List ℕ → List ℕ
unfolding lower_code
lower [] = []
lower (c ∷ cs) = lower_code c ++ lower cs

unfoldable pub starts_with : List ℕ → List ℕ → Bool
starts_with s [] = true
starts_with [] (t ∷ ts) = false
starts_with (c ∷ s) (t ∷ ts) = c == t && starts_with s ts

-- `t in s`.
unfoldable pub contains : List ℕ → List ℕ → Bool
unfolding starts_with
contains [] t = starts_with [] t
contains (c ∷ s) t = starts_with (c ∷ s) t || contains s t

-- `bool(s)` of an optional text: neither `None` nor empty.
abbrev pub truthy : Option String → Bool
truthy none = false
truthy (some String.[]) = false
truthy (some (String.◌∷◌ _ _)) = true

lower_finds : contains (lower (codes "Fill UNCONFIRMED after 3s")) (codes "fill unconfirmed") ≡ true
unfolding contains lower
lower_finds = refl

-- `s + t`.
unfoldable pub joined : String → String → String
joined String.[] t = t
joined (String.◌∷◌ c s) t = String.◌∷◌ c (joined s t)
