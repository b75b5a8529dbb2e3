-- ===== src/Common/Text.antt =====
-- The functions of Go's package strings that the operator uses, over texts.
use Prim.Native.Nat.{ℕ}
use Prim.Native.Char.{Char, code}
use Prim.Native.String
use Prim.Native.String.{String}
use mathlib.Core.List.{List, [], ◌∷◌}
use mathlib.Core.Bool.{Bool, false, ◌||◌}
use argocd_vee.Common.Tests.{◌==◌, nat_eq, string_eq, if◌then◌else◌}

lower_table : List (ℕ × Char)
lower_table =
    (b'A', "a")
    ∷ (b'B', "b")
    ∷ (b'C', "c")
    ∷ (b'D', "d")
    ∷ (b'E', "e")
    ∷ (b'F', "f")
    ∷ (b'G', "g")
    ∷ (b'H', "h")
    ∷ (b'I', "i")
    ∷ (b'J', "j")
    ∷ (b'K', "k")
    ∷ (b'L', "l")
    ∷ (b'M', "m")
    ∷ (b'N', "n")
    ∷ (b'O', "o")
    ∷ (b'P', "p")
    ∷ (b'Q', "q")
    ∷ (b'R', "r")
    ∷ (b'S', "s")
    ∷ (b'T', "t")
    ∷ (b'U', "u")
    ∷ (b'V', "v")
    ∷ (b'W', "w")
    ∷ (b'X', "x")
    ∷ (b'Y', "y")
    ∷ (b'Z', "z")
    ∷ []

lower_from : List (ℕ × Char) → Char → Char
lower_from [] c = c
lower_from ((n, l) ∷ table) c = if code c == n then l else lower_from table c

-- `strings.ToLower` on the letters of ASCII; other characters stay.
unfoldable pub to_lower : String → String
unfolding lower_from lower_table
to_lower String.[] = ""
to_lower (String.◌∷◌ c s) = String.◌∷◌ (lower_from lower_table c) (to_lower s)

-- `strings.Join`
unfoldable pub join_with : String → List String → String
join_with sep [] = ""
join_with sep (s ∷ []) = s
join_with sep (s ∷ (t ∷ rest)) = String.◌++◌ s (String.◌++◌ sep (join_with sep (t ∷ rest)))

-- `strings.HasSuffix`
unfoldable pub has_suffix : String → String → Bool
has_suffix suffix String.[] = suffix == ""
has_suffix suffix (String.◌∷◌ c s) =
    let later = has_suffix suffix s in String.◌∷◌ c s == suffix || later

-- `strings.Contains(s, ":")`
unfoldable pub has_colon : String → Bool
has_colon String.[] = false
has_colon (String.◌∷◌ c s) = code c == b':' || has_colon s
