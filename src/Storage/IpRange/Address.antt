-- ===== src/Storage/IpRange/Address.antt =====
-- IPv4 addresses and the numbers below 2 ^ 32 correspond.
use rackd.Prelude.{ℕ, ◌/◌, ◌%◌, ◌^◌, ◌<◌, ◌≡◌, List, [], ◌∷◌, arith}
use rackd.Net.{IsIp4, quad}
use rackd.Storage.IpRange.Value.{value, value-lt, value_injective}

-- The four bytes of a number.
unfoldable pub address : ℕ → List ℕ
address n = n / 2 ^ 24 % 256 ∷ n / 2 ^ 16 % 256 ∷ n / 256 % 256 ∷ n % 256 ∷ []

pub address-IsIp4 : (n : ℕ) → IsIp4 (address n)
unfolding address
address-IsIp4 n = quad _ _ _ _ (omega arith) (omega arith) (omega arith) (omega arith)

pub value-address : (n : ℕ) → n < 2 ^ 32 → value (address n) ≡ n
unfolding address value
value-address n h = omega arith

pub address-value : {ip : List ℕ} → IsIp4 ip → address (value ip) ≡ ip
address-value p = value_injective (address-IsIp4 _) p (value-address _ (value-lt p))
