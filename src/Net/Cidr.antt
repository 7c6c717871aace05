-- ===== src/Net/Cidr.antt =====
-- net.ParseCIDR: the length of the prefix and the bits of the address.
use rackd.Prelude.{
  ℕ, ◌+◌, ◌-◌, ◌*◌, ◌≡◌, refl, ◌&&◌, Option, none, some, [], ◌∷◌, ltb, leb, nat_eq, if◌then◌else◌,
}
use rackd.Text.{Text, codes}
use rackd.Net.{Ip, v4, v6, parse_ip}

-- The text before the first '/', and the text after it.
abbrev pub cut : Text → Text → Option (Text × Text)
cut before [] = none
cut before (b ∷ s) =
    let rest = cut (b ∷ before) s in if nat_eq b b'/' then some (before, s) else rest

abbrev pub reverse : Text → Text → Text
reverse [] acc = acc
reverse (b ∷ s) acc = reverse s (b ∷ acc)

-- dtoi, which gives up at 0xFFFFFF; all of the text is digits.
abbrev digits : ℕ → Text → Option ℕ
digits n [] = some n
digits n (b ∷ s) =
    let m = n * 10 + (b - b'0') in
    let rest = digits m s in
    if leb b'0' b && leb b b'9' then if ltb m 16777215 then rest else none else none

abbrev prefix_length : Text → Option ℕ
prefix_length [] = none
prefix_length (b ∷ s) = digits 0 (b ∷ s)

abbrev bit_length : Option Ip → Option ℕ
bit_length none = none
bit_length (some (v4 bs)) = some 32
bit_length (some (v6 bs)) = some 128

abbrev check_prefix : Option ℕ → Option ℕ → Option (ℕ × ℕ)
check_prefix none n = none
check_prefix (some bits) none = none
check_prefix (some bits) (some n) = if leb n bits then some (n, bits) else none

abbrev pub parse_parts : Option (Text × Text) → Option (ℕ × ℕ)
parse_parts none = none
parse_parts (some parts) =
    check_prefix (bit_length (parse_ip (reverse parts.0 []))) (prefix_length parts.1)

-- net.ParseCIDR, and Mask.Size of its network
unfoldable pub parse_cidr : Text → Option (ℕ × ℕ)
parse_cidr s = parse_parts (cut [] s)

parse_tests :
    (parse_cidr (codes "10.0.0.0/24") ≡ some (24, 32))
    × (parse_cidr (codes "10.0.0.0/33") ≡ none)
    × (parse_cidr (codes "10.0.0.0") ≡ none)
    × (parse_cidr (codes "10.0.0.0/") ≡ none)
    × (parse_cidr (codes "10.0.0.0/024") ≡ some (24, 32))
    × (parse_cidr (codes "10.0.0.0/2/4") ≡ none)
    × (parse_cidr (codes "fe80::/64") ≡ some (64, 128))
    × (parse_cidr (codes "/8") ≡ none)
unfolding parse_cidr parse_ip
parse_tests = (refl, refl, refl, refl, refl, refl, refl, refl)
