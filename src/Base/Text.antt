-- ===== src/Base/Text.antt =====
-- Rust's `str`: the native `String`, with its characters as Unicode scalar values, `len` counting
-- the bytes of the UTF-8 encoding, and the tests on characters that the program uses.
use Prim.Native.Nat.{ℕ, ◌+◌}
use Prim.Native.Char.{code}
use Prim.Native.String.{String}
use mathlib.Core.Bool.{Bool, ◌&&◌, ◌||◌}
use mathlib.Core.Path.{◌≡◌, sym, ◌∙◌}
use mathlib.Core.Logic.{inl, inr}
use mathlib.Core.List.{List, [], ◌∷◌}
use hope.Base.Tests.{ltb, leb, ◌==◌, Bool-cases, if◌then◌else◌}
pub use text.Mathlib.Text.{◌==◌ as str_eq}
pub use text.Mathlib.TextEquality.{eq_iff as str_eq_iff}

-- The characters of a text.
abbrev pub codes : String → List ℕ
codes String.[] = []
codes (String.◌∷◌ c s) = code c ∷ codes s

-- The bytes that a character takes in UTF-8.
unfoldable pub utf8_width : ℕ → ℕ
utf8_width c = if ltb c 0x80 then 1 else if ltb c 0x800 then 2 else if ltb c 0x10000 then 3 else 4

unfoldable pub byte_len : List ℕ → ℕ
unfolding utf8_width
byte_len [] = 0
byte_len (c ∷ cs) = utf8_width c + byte_len cs

-- `char::is_control`: the general category Cc.
unfoldable pub is_control : ℕ → Bool
is_control c = ltb c 0x20 || (leb 0x7f c && leb c 0x9f)

unfoldable pub is_digit : ℕ → Bool
is_digit c = leb b'0' c && leb c b'9'

unfoldable pub is_hex_digit : ℕ → Bool
unfolding is_digit
is_hex_digit c = is_digit c || (leb b'a' c && leb c b'f') || (leb b'A' c && leb c b'F')

pub str_eq_sym : (a b : String) → str_eq a b ≡ str_eq b a
str_eq_sym a b = elim (Bool-cases (str_eq a b)) [
  | inl same ↦ let equal = (str_eq_iff a b).0 same in same ∙ sym ((str_eq_iff b a).1 (sym equal))
  | inr other ↦ elim (Bool-cases (str_eq b a)) [
    | inl back ↦ (str_eq_iff a b).1 (sym ((str_eq_iff b a).0 back)) ∙ sym back
    | inr apart ↦ other ∙ sym apart
  ]
]

-- `char::is_whitespace`: the property White_Space.
unfoldable pub is_whitespace : ℕ → Bool
is_whitespace c =
    (leb 0x9 c && leb c 0xd)
    || (c == 0x20)
    || (c == 0x85)
    || (c == 0xa0)
    || (c == 0x1680)
    || (leb 0x2000 c && leb c 0x200a)
    || (c == 0x2028)
    || (c == 0x2029)
    || (c == 0x202f)
    || (c == 0x205f)
    || (c == 0x3000)

abbrev pub trim_start : List ℕ → List ℕ
trim_start [] = []
trim_start (c ∷ cs) = if is_whitespace c then trim_start cs else c ∷ cs

abbrev drop_blank : ℕ → List ℕ → List ℕ
drop_blank c [] = if is_whitespace c then [] else c ∷ []
drop_blank c (d ∷ ds) = c ∷ d ∷ ds

abbrev pub trim_end : List ℕ → List ℕ
trim_end [] = []
trim_end (c ∷ cs) = drop_blank c (trim_end cs)

unfoldable pub trim_text : List ℕ → List ℕ
unfolding is_whitespace
trim_text cs = trim_end (trim_start cs)
