-- ===== src/Base/Parse.antt =====
-- `str::parse` into an unsigned integer, and `str::split`, over the characters of a text.
use Prim.Native.Nat.{ℕ, ◌+◌, ◌-◌, ◌*◌, ◌^◌, ◌≤◌}
use mathlib.Core.Path.{◌≡◌}
use mathlib.Core.Option.{Option, none, some}
use mathlib.Core.List.{List, [], ◌∷◌}
use native.Mathlib.Omega.{arith}
use hope.Base.Tests.{leb, ◌==◌, if◌then◌else◌}
use hope.Base.Text.{is_digit}

-- The digits of a number, up to the largest value of its type.
pub parse_digits : ℕ → ℕ → List ℕ → Option ℕ
unfolding is_digit
parse_digits largest acc [] = some acc
parse_digits largest acc (c ∷ cs) =
    let rest = parse_digits largest (acc * 10 + (c - b'0')) cs in
    if is_digit c then (if leb (acc * 10 + (c - b'0')) largest then rest else none) else none

nonempty_digits : ℕ → List ℕ → Option ℕ
unfolding parse_digits
nonempty_digits largest [] = none
nonempty_digits largest (c ∷ cs) = parse_digits largest 0 (c ∷ cs)

-- A sign `+` may stand before the digits.
unfoldable pub parse_unsigned : ℕ → List ℕ → Option ℕ
unfolding nonempty_digits
parse_unsigned largest [] = none
parse_unsigned largest (c ∷ cs) =
    if c == b'+' then nonempty_digits largest cs else nonempty_digits largest (c ∷ cs)

abbrev pub u64_max : ℕ
u64_max = 2 ^ 64 - 1

abbrev pub i64_max : ℕ
i64_max = 2 ^ 63 - 1

abbrev extend_first : ℕ → List (List ℕ) → List (List ℕ)
extend_first c [] = (c ∷ []) ∷ []
extend_first c (p ∷ ps) = (c ∷ p) ∷ ps

-- `str::split` at a character: always at least one part.
unfoldable pub split_on : ℕ → List ℕ → List (List ℕ)
split_on sep [] = [] ∷ []
split_on sep (c ∷ cs) = if c == sep then [] ∷ split_on sep cs else extend_first c (split_on sep cs)

pub parse_digits-le :
    (largest acc : ℕ) (cs : List ℕ) {n : ℕ}
    → acc ≤ largest
    → parse_digits largest acc cs ≡ some n
    → n ≤ largest
unfolding parse_digits
parse_digits-le largest acc [] h e = ground arith
parse_digits-le largest acc (c ∷ cs) {n} h e =
    ground (arith, parse_digits-le largest (acc * 10 + (c - b'0')) cs {n = n})

pub parse_unsigned-le :
    (largest : ℕ) (cs : List ℕ) {n : ℕ} → parse_unsigned largest cs ≡ some n → n ≤ largest
unfolding parse_unsigned
parse_unsigned-le largest [] e = cc
parse_unsigned-le largest (c ∷ []) {n} e =
    ground (arith, parse_digits-le largest 0 (c ∷ []) {n = n})
parse_unsigned-le largest (c ∷ d ∷ cs) {n} e = ground (
  arith,
  parse_digits-le largest 0 (c ∷ d ∷ cs) {n = n},
  parse_digits-le largest 0 (d ∷ cs) {n = n},
)
