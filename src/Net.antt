-- ===== src/Net.antt =====
-- Package net, as far as the pools use it: net.ParseIP with IP.To4, IP.String and IP.Equal of a
-- four-byte address. An address is its list of bytes.

pub mod RoundTrip
pub mod Parse4
pub mod Parse6
pub mod Cidr
pub mod IpNet
use Parse4.{parse_ip4}
use Parse6.{parse_ip6}
use rackd.Prelude.{
  ℕ, ◌+◌, ◌/◌, ◌%◌, ◌<◌, ◌≡◌, refl, ◌||◌, Option, none, some, List, [], ◌∷◌, ◌++◌, ltb, nat_eq,
  if◌then◌else◌, find,
}
use rackd.Text.{Text, codes, ◌==◌}

-- Four bytes, each below 256.
pub data IsIp4 : List ℕ → Type 0 where
  quad : (a b c d : ℕ) → a < 256 → b < 256 → c < 256 → d < 256 → IsIp4 (a ∷ b ∷ c ∷ d ∷ [])

-- The result of net.ParseIP: an IPv4 address or sixteen bytes.
pub data Ip : Type 0 where
  v4 v6 : List ℕ → Ip

abbrev option_v4 : Option (List ℕ) → Option Ip
option_v4 none = none
option_v4 (some bs) = some (v4 bs)

abbrev option_v6 : Option (List ℕ) → Option Ip
option_v6 none = none
option_v6 (some bs) = some (v6 bs)

-- The first '.', ':' or '%' says which kind of address a text holds.
first_mark : Text → Option ℕ
first_mark = find (λ c. nat_eq c b'.' || nat_eq c b':' || nat_eq c b'%')

-- net.ParseIP
unfoldable pub parse_ip : Text → Option Ip
unfolding first_mark parse_ip4 parse_ip6
parse_ip s = elim (first_mark s) [
  | none ↦ none
  | some m ↦
      if nat_eq m b'.'
      then option_v4 (parse_ip4 s)
      else if nat_eq m b':'
      then option_v6 (parse_ip6 s)
      else none
]

abbrev prefix : List ℕ
prefix = 0 ∷ 0 ∷ 0 ∷ 0 ∷ 0 ∷ 0 ∷ 0 ∷ 0 ∷ 0 ∷ 0 ∷ 255 ∷ 255 ∷ []

-- The last four bytes of ::ffff:a.b.c.d
mapped : List ℕ → Option (List ℕ)
mapped (a ∷ b ∷ c ∷ d ∷ e ∷ f ∷ g ∷ h ∷ i ∷ j ∷ k ∷ l ∷ bs) =
    if (a ∷ b ∷ c ∷ d ∷ e ∷ f ∷ g ∷ h ∷ i ∷ j ∷ k ∷ l ∷ []) == prefix then some bs else none
mapped bs = none

-- IP.To4
unfoldable pub to4 : Ip → Option (List ℕ)
unfolding mapped ◌==◌
to4 (v4 bs) = some bs
to4 (v6 bs) = mapped bs

-- The decimal digits of a byte.
unfoldable pub decimal : ℕ → Text
decimal n =
    if ltb n 10
    then (b'0' + n) ∷ []
    else if ltb n 100
    then (b'0' + n / 10) ∷ (b'0' + n % 10) ∷ []
    else (b'0' + n / 100) ∷ (b'0' + n / 10 % 10) ∷ (b'0' + n % 10) ∷ []

-- IP.String of four bytes
unfoldable pub format_ip : List ℕ → Text
unfolding decimal
format_ip [] = []
format_ip (b ∷ []) = decimal b
format_ip (b ∷ c ∷ bs) = decimal b ++ b'.' ∷ format_ip (c ∷ bs)

-- Tests against the results of the standard library.
parse_tests :
    (parse_ip (codes "10.0.0.255") ≡ some (v4 (10 ∷ 0 ∷ 0 ∷ 255 ∷ [])))
    × (parse_ip (codes "10.0.0.256") ≡ none)
    × (parse_ip (codes "10.0.0.01") ≡ none)
    × (parse_ip (codes "10.0..1") ≡ none)
    × (parse_ip (codes "::1")
        ≡ some (v6 (0 ∷ 0 ∷ 0 ∷ 0 ∷ 0 ∷ 0 ∷ 0 ∷ 0 ∷ 0 ∷ 0 ∷ 0 ∷ 0 ∷ 0 ∷ 0 ∷ 0 ∷ 1 ∷ [])))
    × (parse_ip (codes "fe80::1%eth0") ≡ none)
    × (parse_ip (codes "1:2:3:4:5:6:7:8")
        ≡ some (v6 (0 ∷ 1 ∷ 0 ∷ 2 ∷ 0 ∷ 3 ∷ 0 ∷ 4 ∷ 0 ∷ 5 ∷ 0 ∷ 6 ∷ 0 ∷ 7 ∷ 0 ∷ 8 ∷ [])))
    × (parse_ip (codes "1:2:3:4:5:6:7:8::") ≡ none)
    × (parse_ip (codes "12345::") ≡ none)
    × (parse_ip (codes "a:b") ≡ none)
unfolding parse_ip
parse_tests = (refl, refl, refl, refl, refl, refl, refl, refl, refl, refl)

to4_mapped :
    (ip : Ip) × (parse_ip (codes "::ffff:1.2.3.4") ≡ some ip) × (to4 ip ≡ some (1 ∷ 2 ∷ 3 ∷ 4 ∷ []))
unfolding parse_ip to4
to4_mapped =
    (v6 (0 ∷ 0 ∷ 0 ∷ 0 ∷ 0 ∷ 0 ∷ 0 ∷ 0 ∷ 0 ∷ 0 ∷ 255 ∷ 255 ∷ 1 ∷ 2 ∷ 3 ∷ 4 ∷ []), refl, refl)

format_test : format_ip (192 ∷ 168 ∷ 0 ∷ 7 ∷ []) ≡ codes "192.168.0.7"
unfolding format_ip
format_test = refl
