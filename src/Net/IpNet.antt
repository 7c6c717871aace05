-- ===== src/Net/IpNet.antt =====
-- What the program uses of net.IPNet: the network of net.ParseCIDR, and Contains. The mask of such a
-- network has leading ones only, so that the bytes under it are the leading bits.
pub mod Bits
use rackd.Prelude.{
  ℕ, zero, suc, ◌+◌, ◌-◌, ◌*◌, ◌/◌, ◌≡◌, refl, Bool, true, false, ◌&&◌, ◌||◌, Option, none, some,
  List, [], ◌∷◌, ltb, leb, nat_eq, if◌then◌else◌,
}
use rackd.Text.{Text, codes}
use rackd.Net.{Ip, v4, v6, parse_ip, to4}
use rackd.Net.Cidr.{cut, reverse, parse_parts}

-- IP and the number of ones of Mask
pub record IpNet : Type 0 where
  pub ip : Ip
  pub ones : ℕ

abbrev pub bytes : Ip → List ℕ
bytes (v4 bs) = bs
bytes (v6 bs) = bs

-- a >> n and a << n
abbrev pub shr : ℕ → ℕ → ℕ
shr zero a = a
shr (suc n) a = shr n a / 2

abbrev pub shl : ℕ → ℕ → ℕ
shl zero a = a
shl (suc n) a = shl n (a * 2)

-- A byte under its byte of the mask, which has `ones` leading ones
abbrev pub mask_byte : ℕ → ℕ → ℕ
mask_byte ones b = if leb 8 ones then b else shl (8 - ones) (shr (8 - ones) b)

-- IP.Mask
abbrev pub mask : ℕ → List ℕ → List ℕ
mask ones [] = []
mask ones (b ∷ bs) = mask_byte ones b ∷ mask (ones - 8) bs

-- The loop of Contains
abbrev pub same_bits : ℕ → List ℕ → List ℕ → Bool
same_bits ones [] [] = true
same_bits ones [] (b ∷ ys) = false
same_bits ones (a ∷ xs) [] = false
same_bits ones (a ∷ xs) (b ∷ ys) =
    nat_eq (mask_byte ones a) (mask_byte ones b) && same_bits (ones - 8) xs ys

-- The four bytes of an IPv4 address, or all
abbrev pub address : Ip → List ℕ
address ip = elim (to4 ip) [ none ↦ bytes ip | some bs ↦ bs ]

abbrev kept_ones : Ip → Option (List ℕ) → ℕ → ℕ
kept_ones (v4 bs) short ones = ones
kept_ones (v6 bs) none ones = ones
kept_ones (v6 bs) (some short) ones = ones - 96

-- networkNumberAndMask: the last four bytes of the mask where the address is short
abbrev pub mask_ones : IpNet → ℕ
mask_ones n = kept_ones n.ip (to4 n.ip) n.ones

-- IPNet.Contains
unfoldable pub contains : IpNet → Ip → Bool
contains n ip = same_bits (mask_ones n) (address n.ip) (address ip)

abbrev masked : ℕ → Ip → Ip
masked ones (v4 bs) = v4 (mask ones bs)
masked ones (v6 bs) = v6 (mask ones bs)

abbrev parse_parts_net : Option (Text × Text) → Option IpNet
parse_parts_net none = none
parse_parts_net (some parts) = elim (parse_ip (reverse parts.0 [])) [
  | none ↦ none
  | some ip ↦ elim (parse_parts (some parts)) [
    | none ↦ none
    | some size ↦ some (record { ip = masked size.0 ip; ones = size.0 })
  ]
]

-- The network of net.ParseCIDR
unfoldable pub parse_net : Text → Option IpNet
parse_net s = parse_parts_net (cut [] s)

abbrev holds : Option IpNet → Option Ip → Option Bool
holds none ip = none
holds (some n) none = none
holds (some n) (some ip) = some (contains n ip)

contains_tests :
    (holds (parse_net (codes "10.1.0.0/15")) (parse_ip (codes "10.0.255.255")) ≡ some true)
    × (holds (parse_net (codes "10.1.0.0/16")) (parse_ip (codes "10.0.255.255")) ≡ some false)
    × (holds (parse_net (codes "10.0.0.0/33")) (parse_ip (codes "10.0.0.1")) ≡ none)
    × (holds (parse_net (codes "fe80::/10")) (parse_ip (codes "febf::1")) ≡ some true)
    × (holds (parse_net (codes "::/0")) (parse_ip (codes "10.0.0.1")) ≡ some false)
    × (holds (parse_net (codes "::ffff:10.0.0.0/104")) (parse_ip (codes "10.9.9.9")) ≡ some true)
unfolding parse_net contains parse_ip to4
contains_tests = (refl, refl, refl, refl, refl, refl)
