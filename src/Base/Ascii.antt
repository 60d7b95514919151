-- ===== src/Base/Ascii.antt =====
-- Rust's `str`, further: ASCII case, prefixes, suffixes, and the order of texts.
use Prim.Native.Nat.{ℕ, zero, suc, ◌+◌, ◌-◌, ◌/◌, ◌%◌, Ordering}
use Prim.Native.Char.{Char, code}
use Prim.Native.String.{String, char_at, compare}
use mathlib.Core.Bool.{Bool, true, false, ◌&&◌, ◌||◌}
use mathlib.Core.Option.{Option, none, some}
use mathlib.Core.List.{List, [], ◌∷◌}
use hope.Base.Tests.{ltb, leb, ◌==◌, if◌then◌else◌}
use hope.Base.Lists.{length, drop}
use hope.Base.Text.{str_eq}

lower_char : Char → Char
lower_char c =
    if leb b'A' (code c) && leb (code c) b'Z'
    then char_at "abcdefghijklmnopqrstuvwxyz" (code c - b'A')
    else c

unfoldable pub to_ascii_lowercase : String → String
unfolding lower_char
to_ascii_lowercase String.[] = String.[]
to_ascii_lowercase (String.◌∷◌ c s) = String.◌∷◌ (lower_char c) (to_ascii_lowercase s)

unfoldable pub eq_ignore_ascii_case : String → String → Bool
unfolding to_ascii_lowercase
eq_ignore_ascii_case a b = str_eq (to_ascii_lowercase a) (to_ascii_lowercase b)

-- `strip_prefix`, on characters.
unfoldable pub strip_prefix : List ℕ → List ℕ → Option (List ℕ)
strip_prefix [] cs = some cs
strip_prefix (p ∷ ps) [] = none
strip_prefix (p ∷ ps) (c ∷ cs) = let rest = strip_prefix ps cs in if p == c then rest else none

abbrev found : Option (List ℕ) → Bool
found none = false
found (some cs) = true

unfoldable pub starts_with : List ℕ → List ℕ → Bool
unfolding strip_prefix
starts_with prefix cs = found (strip_prefix prefix cs)

abbrev emptied : Option (List ℕ) → Bool
emptied (some []) = true
emptied _ = false

unfoldable pub ends_with : List ℕ → List ℕ → Bool
unfolding strip_prefix
ends_with suffix cs =
    leb (length suffix) (length cs)
    && emptied (strip_prefix suffix (drop (length cs - length suffix) cs))

unfoldable pub contains : List ℕ → List ℕ → Bool
unfolding starts_with
contains part [] = starts_with part []
contains part (c ∷ cs) = starts_with part (c ∷ cs) || contains part cs

-- `a < b` on texts.
unfoldable pub str_lt : String → String → Bool
str_lt a b = elim (compare a b) [ Ordering.lt ↦ true | _ ↦ false ]

-- The digits of a number in front of a text, one round for each digit.
show_digits : ℕ → ℕ → String → String
show_digits zero n rest = rest
show_digits (suc fuel) n rest =
    let text = String.◌∷◌ (char_at "0123456789" (n % 10)) rest in
    let more = show_digits fuel (n / 10) text in if ltb n 10 then text else more

-- `{}` of a number: n + 1 rounds are enough for its digits.
unfoldable pub show_ℕ : ℕ → String
unfolding show_digits
show_ℕ n = show_digits (n + 1) n ""

-- `strip_prefix`, on texts.
unfoldable pub strip_text : String → String → Option String
strip_text String.[] s = some s
strip_text (String.◌∷◌ p ps) String.[] = none
strip_text (String.◌∷◌ p ps) (String.◌∷◌ c s) =
    let rest = strip_text ps s in if code p == code c then rest else none
