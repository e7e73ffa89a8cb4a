-- ===== src/Enums/Order.antt =====
-- Python's order of strings: by code points, from the left.
use Prim.Native.Char.{code}
use pandahub.Prelude.{ℕ, String, Bool, true, false, not, List, [], ◌∷◌, ltb, if◌then◌else◌}

abbrev pub codes : String → List ℕ
codes String.[] = []
codes (String.◌∷◌ c s) = code c ∷ codes s

codes_less : List ℕ → List ℕ → Bool
codes_less xs [] = false
codes_less [] (y ∷ ys) = true
codes_less (x ∷ xs) (y ∷ ys) =
    let rest = codes_less xs ys in if ltb x y then true else if ltb y x then false else rest

-- s < t
unfoldable pub str_less : String → String → Bool
unfolding codes_less
str_less s t = codes_less (codes s) (codes t)

-- s >= t
unfoldable pub str_at_least : String → String → Bool
unfolding str_less
str_at_least s t = not (str_less s t)
