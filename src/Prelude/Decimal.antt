-- ===== src/Prelude/Decimal.antt =====
-- Python's `str` on natural numbers.
use mathlib.Core.Path.{◌≡◌, refl}
use Prim.Native.Nat.{ℕ, zero, suc, ◌/◌, ◌%◌}
use Prim.Native.String.{String, ◌++◌}
use mathlib.Core.List.{List, [], ◌∷◌}
use pandahub.Prelude.Tests.{ltb, if◌then◌else◌}

nth : List String → ℕ → String
nth [] n = ""
nth (s ∷ ss) zero = s
nth (s ∷ ss) (suc n) = nth ss n

abbrev digit : ℕ → String
digit n = nth ("0" ∷ "1" ∷ "2" ∷ "3" ∷ "4" ∷ "5" ∷ "6" ∷ "7" ∷ "8" ∷ "9" ∷ []) n

-- Every step drops a digit, so that as many steps as the number are enough.
decimal : (fuel n : ℕ) → String
decimal zero n = digit n
decimal (suc fuel) n =
    let front = decimal fuel (n / 10) in if ltb n 10 then digit n else front ++ digit (n % 10)

unfoldable pub str : ℕ → String
unfolding nth decimal
str n = decimal n n

-- f"{s}{t}"
abbrev pub concat : String → String → String
concat s t = s ++ t

str_12034 : (str 12034 ≡ "12034") × (str 0 ≡ "0")
unfolding str nth decimal
str_12034 = (refl, refl)
