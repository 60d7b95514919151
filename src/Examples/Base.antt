-- ===== src/Examples/Base.antt =====
-- Texts and addresses.
use hope.Base.{◌+◌, ◌*◌, ◌^◌, ◌≡◌, refl, none, some, [], ◌∷◌, parse_ip, v4, v6}

test_v4 : parse_ip "192.168.1.20" ≡ some (v4 (192 * 256 ^ 3 + 168 * 256 ^ 2 + 256 + 20))
unfolding parse_ip
test_v4 = refl

test_leading_zero : parse_ip "192.168.01.20" ≡ none
unfolding parse_ip
test_leading_zero = refl

test_v6 : parse_ip "fe80::1" ≡ some (v6 (0xfe80 ∷ 0 ∷ 0 ∷ 0 ∷ 0 ∷ 0 ∷ 0 ∷ 1 ∷ []))
unfolding parse_ip
test_v6 = refl

test_mapped :
    parse_ip "::ffff:192.0.2.7" ≡ some (v6 (0 ∷ 0 ∷ 0 ∷ 0 ∷ 0 ∷ 0xffff ∷ 0xc000 ∷ 0x0207 ∷ []))
unfolding parse_ip
test_mapped = refl

test_trailing : parse_ip "::1 " ≡ none
unfolding parse_ip
test_trailing = refl
