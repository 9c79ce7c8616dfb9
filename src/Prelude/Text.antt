-- ===== src/Prelude/Text.antt =====
-- The text operations of Python that the program uses, on the code points of a text. `lower` is
-- that of ASCII texts.
use Prim.Native.Nat.{ℕ, zero, suc, ◌+◌, ◌/◌, ◌%◌}
use Prim.Native.Char.{code}
use Prim.Native.String.{String}
use mathlib.Core.Bool.{Bool, true, false, ◌&&◌, ◌||◌}
use mathlib.Core.List.{List, [], ◌∷◌, map}
use us_flight_delay_mlops.Prelude.Tests.{ltb, leb, ◌==◌, if◌then◌else◌}

-- `String` has its own `[]` and `∷`.
abbrev pub codes : String → List ℕ
codes String.[] = []
codes (String.◌∷◌ c s) = code c ∷ codes s

-- `not text`
abbrev pub is_blank : String → Bool
is_blank String.[] = true
is_blank (String.◌∷◌ c s) = false

unfoldable pub to_lower : ℕ → ℕ
to_lower c = if leb b'A' c && leb c b'Z' then c + 32 else c

-- `text.lower()`
unfoldable pub lower : List ℕ → List ℕ
unfolding to_lower
lower s = map to_lower s

-- `text.startswith(prefix)`, the prefix first
unfoldable pub starts_with : List ℕ → List ℕ → Bool
starts_with [] s = true
starts_with (p ∷ ps) [] = false
starts_with (p ∷ ps) (c ∷ s) = p == c && starts_with ps s

-- `part in text`
unfoldable pub contains : List ℕ → List ℕ → Bool
unfolding starts_with
contains part [] = starts_with part []
contains part (c ∷ s) = starts_with part (c ∷ s) || contains part s

-- `text.rsplit(".", maxsplit=1)[-1]`: what follows the last dot, or the whole text
after_last_dot : List ℕ → List ℕ → List ℕ
after_last_dot [] leaf = leaf
after_last_dot (c ∷ s) leaf = after_last_dot s (if c == b'.' then s else leaf)

unfoldable pub leaf_of : List ℕ → List ℕ
unfolding after_last_dot
leaf_of s = after_last_dot s s

-- `str(n)`: the digits, least first, on as much fuel as the number itself
digits_fuel : ℕ → ℕ → List ℕ → List ℕ
digits_fuel zero n out = (b'0' + n % 10) ∷ out
digits_fuel (suc f) n out =
    let rest = digits_fuel f (n / 10) ((b'0' + n % 10) ∷ out) in
    if ltb n 10 then (b'0' + n % 10) ∷ out else rest

unfoldable pub decimal : ℕ → List ℕ
unfolding digits_fuel
decimal n = digits_fuel n n []

-- `[0-9a-f]`
abbrev pub is_hex : ℕ → Bool
is_hex c = (leb b'0' c && leb c b'9') || (leb b'a' c && leb c b'f')

-- the concatenation of two texts
unfoldable pub join : String → String → String
join String.[] t = t
join (String.◌∷◌ c s) t = String.◌∷◌ c (join s t)

-- the texts of one character that a text is made of
unfoldable pub characters : String → List String
characters String.[] = []
characters (String.◌∷◌ c s) = String.◌∷◌ c String.[] ∷ characters s
