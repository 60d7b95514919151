-- ===== src/Examples/Proxies.antt =====
-- Requests behind a proxy on the loopback address.
use hope.Base.{
  ℕ, ◌≡◌, ◌≢◌, refl, Bool, false, some, [], ◌∷◌, ◌++◌, ◌+◌, ◌*◌, ◌^◌, ◌==◌, codes, IpAddr, v4, v6,
}
use hope.Server.Proxies.{
  canonical, key_of, Warned, hops, hop_address, trusts, walk, client, found, exhausted,
}
use hope.Server.Proxies.Rightmost.{client-left}

-- A network of one IPv4 address.
abbrev is_address : ℕ → IpAddr → Bool
is_address net (v4 a) = net == a
is_address net (v6 s) = false

abbrev loopback : ℕ
loopback = 127 * 2 ^ 24 + 1

abbrev quiet : Warned
quiet = record { untrusted = false; unparseable = false }

abbrev outside : IpAddr
outside = v4 (203 * 2 ^ 24 + 113 * 2 ^ 8 + 9)

test_key :
    client is_address
      (loopback ∷ [])
      (some (v4 loopback))
      (some (codes "10.0.0.1, 203.0.113.9, 127.0.0.1"))
      quiet
    ≡ (codes "203.0.113.9", quiet)
unfolding client
test_key = refl

test_key_v6 :
    key_of (v6 (0x2001 ∷ 0xdb8 ∷ 0 ∷ 0xab ∷ 1 ∷ 2 ∷ 3 ∷ 4 ∷ [])) ≡ codes "2001:db8:0:ab::/64"
unfolding key_of
test_key_v6 = refl

found_apart : {ip : IpAddr} → found ip ≢ exhausted
found_apart e = cc

client-left_example :
    client is_address
      (loopback ∷ [])
      (some (v4 loopback))
      (some (codes "1.2.3.4" ++ (b',' ∷ codes "5.6.7.8")))
      quiet
    ≡ client is_address (loopback ∷ []) (some (v4 loopback)) (some (codes "5.6.7.8")) quiet
unfolding walk hops hop_address trusts canonical
client-left_example =
    client-left is_address (loopback ∷ []) (v4 loopback) (codes "1.2.3.4") (codes "5.6.7.8") quiet
      (λ e. found_apart e)
