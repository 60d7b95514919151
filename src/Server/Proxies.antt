-- ===== src/Server/Proxies.antt =====
-- `TrustedProxies` of hope-server/src/limits.rs: which address a request is counted under. A text
-- is the list of its characters. `ipnet` is not modelled: a network is of any type, and whether it
-- contains an address is a parameter.
pub mod Rightmost
use hope.Base.{
  ℕ, zero, suc, ◌+◌, ◌*◌, ◌/◌, ◌%◌, ◌^◌, String, Bool, true, false, not, ◌&&◌, ◌||◌, Option, none,
  some, List, [], ◌∷◌, ◌++◌, any, ltb, ◌==◌, codes, split_on, trim_text, IpAddr, v4, v6,
  parse_ip_codes, if◌then◌else◌,
}

-- `to_ipv4_mapped`, on the eight segments.
unfoldable pub canonical : IpAddr → IpAddr
canonical (v4 a) = v4 a
canonical (v6 (a ∷ b ∷ c ∷ d ∷ e ∷ f ∷ g ∷ h ∷ [])) =
    if (a == 0) && (b == 0) && (c == 0) && (d == 0) && (e == 0) && (f == 0xffff)
    then v4 (g * 2 ^ 16 + h)
    else v6 (a ∷ b ∷ c ∷ d ∷ e ∷ f ∷ g ∷ h ∷ [])
canonical (v6 segments) = v6 segments

-- A digit of `{}` and `{:x}`.
abbrev digit_code : ℕ → ℕ
digit_code d = if ltb d 10 then b'0' + d else b'W' + d

-- The digits of a number to a base, put in front of a text; one round for each digit.
abbrev digits : ℕ → ℕ → ℕ → List ℕ → List ℕ
digits zero radix n rest = rest
digits (suc fuel) radix n rest =
    let more = digits fuel radix (n / radix) (digit_code (n % radix) ∷ rest) in
    if ltb n radix then digit_code n ∷ rest else more

-- An octet has at most three decimal digits, a segment at most four hexadecimal ones.
abbrev decimal : ℕ → List ℕ → List ℕ
decimal n rest = digits 3 10 n rest

abbrev hex : ℕ → List ℕ → List ℕ
hex n rest = digits 4 16 n rest

abbrev dotted : ℕ → List ℕ
dotted a = decimal (a / 2 ^ 24) (
    b'.'
    ∷ decimal (a / 2 ^ 16 % 256) (b'.' ∷ decimal (a / 2 ^ 8 % 256) (b'.' ∷ decimal (a % 256) [])))

-- The key of an address: an IPv4 address as it is, an IPv6 address by the first half of it.
abbrev write_key : IpAddr → List ℕ
write_key (v4 a) = dotted a
write_key (v6 (a ∷ b ∷ c ∷ d ∷ rest)) =
    hex a (b':' ∷ hex b (b':' ∷ hex c (b':' ∷ hex d (codes "::/64"))))
write_key (v6 _) = []

unfoldable pub key_of : IpAddr → List ℕ
unfolding canonical
key_of ip = write_key (canonical ip)

-- Which warnings have been logged.
pub record Warned : Type 0 where
  pub untrusted : Bool
  pub unparseable : Bool

-- How the walk over the hops ends.
pub data Walk : Type 0 where
  found : IpAddr → Walk
  unparseable exhausted : Walk

abbrev pub backwards : List (List ℕ) → List (List ℕ) → List (List ℕ)
backwards [] seen = seen
backwards (x ∷ xs) seen = backwards xs (x ∷ seen)

-- `rsplit(',')`.
unfoldable pub hops : List ℕ → List (List ℕ)
unfolding split_on
hops header = backwards (split_on b',' header) []

unfoldable pub hop_address : List ℕ → Option IpAddr
unfolding parse_ip_codes trim_text
hop_address hop = elim (parse_ip_codes (trim_text hop)) [
  | none ↦ none
  | some ip ↦ some (canonical ip)
]

abbrev pub walked : IpAddr → Warned → Walk → List ℕ × Warned
walked peer w (found ip) = (key_of ip, w)
walked peer w unparseable = (key_of peer, record w { unparseable = true })
walked peer w exhausted = (key_of peer, w)

module _ {Net : Type 0} (contains : Net → IpAddr → Bool) where
  unfoldable pub trusts : List Net → IpAddr → Bool
  trusts nets ip = any (λ net. contains net ip) nets

  -- The loop over the hops: trusted ones are passed over.
  unfoldable pub walk : List Net → List (List ℕ) → Walk
  unfolding trusts hop_address
  walk nets [] = exhausted
  walk nets (hop ∷ rest) =
      let further = walk nets rest in
      elim (hop_address hop) [
        | none ↦ unparseable
        | some ip ↦ if trusts nets ip then further else found ip
      ]

  abbrev from_peer : List Net → IpAddr → Option (List ℕ) → Warned → List ℕ × Warned
  from_peer nets peer none w = (key_of peer, w)
  from_peer nets peer (some header) w =
      if trusts nets peer
      then walked peer w (walk nets (hops header))
      else (key_of peer, record w { untrusted = true })

  -- The key of a request, and the warnings that have been logged.
  unfoldable pub client : List Net → Option IpAddr → Option (List ℕ) → Warned → List ℕ × Warned
  unfolding walk hops key_of canonical
  client nets none forwarded w = (codes "unknown", w)
  client nets (some peer) forwarded w = from_peer nets (canonical peer) forwarded w

abbrev is_blank : List ℕ → Bool
is_blank [] = true
is_blank (c ∷ cs) = false

module _ {Net : Type 0} (parse_net : List ℕ → Option Net) (of_address : IpAddr → Net) where
  -- A network, or an address as a network of its own.
  unfoldable pub entry : List ℕ → Option Net
  unfolding parse_ip_codes
  entry part = elim (parse_net part) [
    | some net ↦ some net
    | none ↦ elim (parse_ip_codes part) [ none ↦ none | some ip ↦ some (of_address ip) ]
  ]

  unfoldable pub entries : List (List ℕ) → Option (List Net)
  unfolding entry trim_text
  entries [] = some []
  entries (part ∷ parts) =
      let rest = entries parts in
      if is_blank (trim_text part) then rest else elim (entry (trim_text part)) [
        | none ↦ none
        | some net ↦ elim rest [ none ↦ none | some nets ↦ some (net ∷ nets) ]
      ]

  -- The list of the environment variable; one invalid entry refuses it all.
  unfoldable pub parse : List ℕ → Option (List Net)
  unfolding entries split_on
  parse value = entries (split_on b',' value)
