-- ===== src/Protocol/Version.antt =====
-- `version_newer` of hope-protocol/src/lib.rs: the order of release versions.
pub mod Order
use hope.Base.{
  ℕ, zero, suc, ◌+◌, String, Bool, true, false, ◌||◌, Option, none, some, List, [], ◌∷◌, map, max,
  ltb, ◌==◌, length, codes, is_digit, parse_unsigned, split_on, u64_max, if◌then◌else◌,
}

-- A leading `v` is dropped.
strip_v : List ℕ → List ℕ
strip_v [] = []
strip_v (c ∷ cs) = if c == b'v' then cs else c ∷ cs

-- The leading run of digits and dots.
leading_run : List ℕ → List ℕ
leading_run [] = []
leading_run (c ∷ cs) = if is_digit c || (c == b'.') then c ∷ leading_run cs else []

part_number : List ℕ → ℕ
part_number part = elim (parse_unsigned u64_max part) [ none ↦ 0 | some n ↦ n ]

unfoldable pub parts : String → List ℕ
unfolding strip_v leading_run part_number is_digit parse_unsigned split_on
parts version = map part_number (split_on b'.' (leading_run (strip_v (codes version))))

-- A part that is not there counts as zero.
abbrev pub part_at : List ℕ → ℕ → ℕ
part_at [] i = 0
part_at (x ∷ xs) zero = x
part_at (x ∷ xs) (suc i) = part_at xs i

-- The loop over the indices, with the rounds that are left.
unfoldable pub newer_from : ℕ → ℕ → List ℕ → List ℕ → Bool
newer_from zero index a b = false
newer_from (suc left) index a b =
    let rest = newer_from left (suc index) a b in
    if part_at a index == part_at b index then rest else ltb (part_at b index) (part_at a index)

unfoldable pub version_newer : String → String → Bool
unfolding newer_from
version_newer candidate installed =
    let a = parts candidate in
    let b = parts installed in newer_from (max (length a) (length b)) 0 a b
