-- ===== src/Server/Addresses.antt =====
-- hope-server/src/addresses.rs: the addresses that a device is known by, and those that stand in an
-- inventory (agents.rs). `ipnet` is not modelled: whether the network of a text contains an address
-- is a parameter, which is false where the text is no network.
use hope.Base.{
  ℕ, ◌/◌, ◌^◌, String, Bool, true, false, not, ◌&&◌, ◌||◌, Option, none, some, List, [], ◌∷◌, ◌++◌,
  any, all, filter, map, sort_by, dedup_by, ◌==◌, codes, byte_len, is_digit, str_eq, str_lt,
  strip_text, to_ascii_lowercase, IpAddr, v4, v6, parse_ip, leb, if◌then◌else◌,
}
use hope.Protocol.Types.{Interface, Inventory, Network}
use hope.Protocol.Validation.Values.{is_empty}

-- Of IpAddr: is_loopback, is_unspecified, is_link_local (by hand for IPv6), is_multicast.
unfoldable pub is_loopback : IpAddr → Bool
is_loopback (v4 a) = a / 2 ^ 24 == 127
is_loopback (v6 (a ∷ b ∷ c ∷ d ∷ e ∷ f ∷ g ∷ h ∷ [])) =
    all (λ n. n == 0) (a ∷ b ∷ c ∷ d ∷ e ∷ f ∷ g ∷ []) && (h == 1)
is_loopback (v6 segments) = false

unfoldable pub is_unspecified : IpAddr → Bool
is_unspecified (v4 a) = a == 0
is_unspecified (v6 segments) = all (λ n. n == 0) segments

abbrev first : List ℕ → ℕ
first [] = 0
first (a ∷ segments) = a

unfoldable pub is_link_local : IpAddr → Bool
is_link_local (v4 a) = a / 2 ^ 16 == 0xa9fe
is_link_local (v6 segments) = first segments / 2 ^ 6 == 0x3fa

unfoldable pub is_multicast : IpAddr → Bool
is_multicast (v4 a) = a / 2 ^ 28 == 14
is_multicast (v6 segments) = first segments / 2 ^ 8 == 0xff

unfoldable pub is_broadcast : IpAddr → Bool
is_broadcast (v4 a) = a == 0xffffffff
is_broadcast (v6 segments) = false

unfoldable pub is_usable : IpAddr → Bool
unfolding is_loopback is_unspecified is_link_local is_multicast is_broadcast
is_usable ip =
    not (is_loopback ip)
    && not (is_unspecified ip)
    && not (is_link_local ip)
    && not (is_multicast ip)
    && not (is_broadcast ip)

abbrev usable : Option IpAddr → Option IpAddr
usable none = none
usable (some ip) = if is_usable ip then some ip else none

unfoldable pub usable_ip : String → Option IpAddr
unfolding is_usable parse_ip
usable_ip address = usable (parse_ip address)

module _ (contains : String → IpAddr → Bool) where
  unfoldable pub in_networks : List Network → IpAddr → Bool
  in_networks networks ip = any (λ n. n.enabled && contains n.cidr ip) networks

  abbrev managed : List Network → Option IpAddr → Bool
  managed networks none = false
  managed networks (some ip) = in_networks networks ip

  unfoldable pub is_managed_ip : String → List Network → Bool
  unfolding usable_ip in_networks
  is_managed_ip address networks = managed networks (usable_ip address)

  unfoldable pub primary_ip : List String → List Network → Option String
  unfolding is_managed_ip
  primary_ip [] networks = none
  primary_ip (address ∷ addresses) networks =
      let rest = primary_ip addresses networks in
      if is_managed_ip address networks then some address else rest

abbrev is_found : Option IpAddr → Bool
is_found none = false
is_found (some ip) = true

abbrev all_addresses : List Interface → List String
all_addresses [] = []
all_addresses (i ∷ is) = i.addresses ++ all_addresses is

abbrev sorted_set : List String → List String
sorted_set texts = dedup_by str_eq (sort_by str_lt texts)

unfoldable pub inventory_addresses : Inventory → List String
unfolding usable_ip
inventory_addresses inventory =
    sorted_set (filter (λ a. is_found (usable_ip a)) (all_addresses inventory.interfaces))

abbrev with_mac : Option String → List String → List String
with_mac none macs = macs
with_mac (some mac) macs = mac ∷ macs

abbrev all_macs : List Interface → List String
all_macs [] = []
all_macs (i ∷ is) = with_mac i.mac (all_macs is)

-- Accepted MAC addresses are ASCII, so that only their ASCII letters have another case.
unfoldable pub inventory_macs : Inventory → List String
inventory_macs inventory = sorted_set (
    filter (λ m. not (str_eq m "00:00:00:00:00:00"))
      (map to_ascii_lowercase (all_macs inventory.interfaces)))

-- `char::is_ascii_alphanumeric`, `.`, `-` and `+`.
version_char : ℕ → Bool
version_char c =
    is_digit c
    || (leb b'a' c && leb c b'z')
    || (leb b'A' c && leb c b'Z')
    || (c == b'.')
    || (c == b'-')
    || (c == b'+')

well_formed : Option String → Option String
unfolding version_char
well_formed none = none
well_formed (some version) =
    if not (is_empty version)
      && leb (byte_len (codes version)) 32
      && all version_char (codes version)
    then some version
    else none

-- `agent_version`, from the `User-Agent`.
unfoldable pub agent_version : Option String → Option String
unfolding well_formed
agent_version none = none
agent_version (some value) = well_formed (strip_text "hope-agent/" value)
