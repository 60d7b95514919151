-- ===== src/Base/Address.antt =====
-- Rust's `std::net`: the text forms of IP addresses that `parse` reads. An IPv4 address is its
-- 32-bit number, an IPv6 address the list of its eight segments.
use Prim.Native.Nat.{ℕ, zero, suc, ◌+◌, ◌-◌, ◌*◌, ◌/◌, ◌%◌}
use mathlib.Core.Bool.{Bool, true, false, ◌&&◌, ◌||◌}
use mathlib.Core.Option.{Option, none, some}
use mathlib.Core.List.{List, [], ◌∷◌, ◌++◌}
use hope.Base.Tests.{ltb, leb, ◌==◌, if◌then◌else◌}
use hope.Base.Lists.{length}
use Prim.Native.String.{String}
use hope.Base.Text.{codes, is_digit, is_hex_digit}

pub data IpAddr : Type 0 where
  v4 : ℕ → IpAddr
  v6 : List ℕ → IpAddr

-- What a reader took, and the characters that are left.
abbrev Read : Type 0 → Type 0
Read A = Option (A × List ℕ)

digit_value : ℕ → ℕ
digit_value c = if leb c b'9' then c - b'0' else if leb c b'F' then c - b'A' + 10 else c - b'a' + 10

-- The digits in front: their value, their number, and the rest.
digits_value : (ℕ → Bool) → ℕ → ℕ → ℕ → List ℕ → ℕ × ℕ × List ℕ
unfolding digit_value
digits_value is radix value count [] = (value, count, [])
digits_value is radix value count (c ∷ cs) =
    let more = digits_value is radix (value * radix + digit_value c) (count + 1) cs in
    if is c then more else (value, count, c ∷ cs)

starts_with_zero : List ℕ → Bool
starts_with_zero [] = false
starts_with_zero (c ∷ cs) = c == b'0'

accept_number : ℕ → ℕ → Bool → ℕ × ℕ × List ℕ → Read ℕ
accept_number largest most refuse_zero (value, count, rest) =
    if (count == 0) || ltb most count || (refuse_zero && ltb 1 count) || ltb largest value
    then none
    else some (value, rest)

-- A decimal octet of at most three digits, without a leading zero.
read_octet : List ℕ → Read ℕ
unfolding digits_value accept_number is_digit starts_with_zero
read_octet cs = accept_number 255 3 (starts_with_zero cs) (digits_value is_digit 10 0 0 cs)

-- A segment of one to four hexadecimal digits.
read_segment : List ℕ → Read ℕ
unfolding digits_value accept_number is_hex_digit
read_segment cs = accept_number 0xffff 4 false (digits_value is_hex_digit 16 0 0 cs)

read_char : ℕ → List ℕ → Option (List ℕ)
read_char c [] = none
read_char c (d ∷ cs) = if d == c then some cs else none

-- A reader behind a separator.
after_char : {A : Type 0} → ℕ → (List ℕ → Read A) → List ℕ → Read A
unfolding read_char
after_char sep read cs = elim (read_char sep cs) [ none ↦ none | some rest ↦ read rest ]

-- Three more octets behind the value of those before.
read_octets : ℕ → ℕ → List ℕ → Read ℕ
unfolding after_char read_octet
read_octets zero value cs = some (value, cs)
read_octets (suc left) value cs = elim (after_char b'.' read_octet cs) [
  | none ↦ none
  | some (octet, rest) ↦ read_octets left (value * 256 + octet) rest
]

pub read_v4 : List ℕ → Read ℕ
unfolding read_octet read_octets
read_v4 cs = elim (read_octet cs) [ none ↦ none | some (octet, rest) ↦ read_octets 3 octet rest ]

-- The separator `:` stands before every group but the first.
separated : {A : Type 0} → Bool → (List ℕ → Read A) → List ℕ → Read A
unfolding after_char
separated first read cs = if first then read cs else after_char b':' read cs

-- An embedded IPv4 address needs room for two groups.
embedded : Bool → ℕ → List ℕ → Read ℕ
unfolding separated read_v4
embedded first zero cs = none
embedded first (suc left) cs = separated first read_v4 cs

-- At most so many groups: the groups, whether they end in an IPv4 address, and the rest.
read_groups : Bool → ℕ → List ℕ → List ℕ → List ℕ × Bool × List ℕ
unfolding embedded separated read_segment
read_groups first zero seen cs = (seen, false, cs)
read_groups first (suc left) seen cs = elim (embedded first left cs) [
  | some (address, rest) ↦ (seen ++ (address / 65536 ∷ address % 65536 ∷ []), true, rest)
  | none ↦ elim (separated first read_segment cs) [
    | none ↦ (seen, false, cs)
    | some (segment, rest) ↦ read_groups false left (seen ++ (segment ∷ [])) rest
  ]
]

zeros : ℕ → List ℕ
zeros zero = []
zeros (suc n) = 0 ∷ zeros n

-- The groups behind `::`, which stands for at least one zero group.
read_tail : List ℕ → List ℕ → Read (List ℕ)
unfolding read_char read_groups zeros
read_tail head cs = elim (after_char b':' (after_char b':' (λ rest. some (tt, rest))) cs) [
  | none ↦ none
  | some (_, rest) ↦
      let (tail, _, end) = read_groups true (7 - length head) [] rest in
      some (head ++ zeros (8 - length head - length tail) ++ tail, end)
]

pub read_v6 : List ℕ → Read (List ℕ)
unfolding read_groups read_tail
read_v6 cs =
    let (head, in_v4, rest) = read_groups true 8 [] cs in
    if length head == 8 then some (head, rest) else if in_v4 then none else read_tail head rest

at_end : {A : Type 0} → Read A → Option A
at_end none = none
at_end (some (a, [])) = some a
at_end (some (a, c ∷ cs)) = none

read_address : List ℕ → Read IpAddr
unfolding read_v4 read_v6
read_address cs = elim (read_v4 cs) [
  | some (address, rest) ↦ some (v4 address, rest)
  | none ↦ elim (read_v6 cs) [ none ↦ none | some (segments, rest) ↦ some (v6 segments, rest) ]
]

-- `str::parse::<IpAddr>`.
unfoldable pub parse_ip_codes : List ℕ → Option IpAddr
unfolding read_address at_end
parse_ip_codes cs = at_end (read_address cs)

unfoldable pub parse_ip : String → Option IpAddr
unfolding parse_ip_codes
parse_ip s = parse_ip_codes (codes s)

-- `str::parse::<Ipv4Addr>`, which refuses more than fifteen characters.
unfoldable pub parse_ipv4 : String → Option ℕ
unfolding read_v4 at_end
parse_ipv4 s = if ltb 15 (length (codes s)) then none else at_end (read_v4 (codes s))
