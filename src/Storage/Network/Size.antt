-- ===== src/Storage/Network/Size.antt =====
-- internal/storage/network_sqlite.go, calculateCIDRSize: the addresses of a network by its prefix.
use native.Mathlib.Nat.{pow-le-pow_right}
use rackd.Prelude.{ℕ, ◌-◌, ◌^◌, ◌≤◌, ◌<◌, ◌≡◌, arith, leb, ltb, Bool-cases, subst, sym, inl, inr}
use rackd.Storage.Network.{host_size, cidr_size}

-- Powers of 2 grow.
power_mono : (g h : ℕ) → g ≤ h → 2 ^ g ≤ 2 ^ h
power_mono g h l = pow-le-pow_right {n = 2} (omega arith) l

host_size-small : (bits g h : ℕ) → g ≤ h → h ≤ 20 → host_size bits g ≤ host_size bits h
unfolding host_size
host_size-small bits g h l k =
    let up = power_mono g h l in
    let one = power_mono 0 h (omega arith) in
    elim (Bool-cases (leb 2 h)) [
      | inl e ↦
          let four = power_mono 2 h (ground arith) in
          elim (Bool-cases (leb 2 g)) [
            | inl f ↦ ground arith
            | inr f ↦ let two = power_mono g 1 (ground arith) in ground arith
          ]
      | inr e ↦ ground arith
    ]

host_size_max : (bits g : ℕ) → host_size bits g ≤ 2 ^ 20
unfolding host_size
host_size_max bits g = elim (Bool-cases (ltb 20 g)) [
  | inl e ↦ ground arith
  | inr e ↦ let up = power_mono g 20 (ground arith) in ground arith
]

host_size_large : (bits h : ℕ) → 20 < h → host_size bits h ≡ 2 ^ 20
unfolding host_size
host_size_large bits h l = ground arith

host_size_mono : (bits g h : ℕ) → g ≤ h → host_size bits g ≤ host_size bits h
host_size_mono bits g h l = elim (Bool-cases (leb h 20)) [
  | inl k ↦ host_size-small bits g h l (ground arith)
  | inr k ↦
      subst (λ (n : ℕ). host_size bits g ≤ n) (sym (host_size_large bits h (ground arith)))
        (host_size_max bits g)
]

-- The size that calculateCIDRSize gives is between 1 and 2^20, and a longer prefix of the same kind
-- of address never has a larger size.
pub cidr_size_mono :
    (ones more bits : ℕ)
    → ones ≤ more
    → (1 ≤ cidr_size more bits)
      × (cidr_size more bits ≤ cidr_size ones bits)
      × (cidr_size ones bits ≤ 2 ^ 20)
unfolding host_size
cidr_size_mono ones more bits l = (
  host_size_mono bits 0 (bits - more) (omega arith),
  host_size_mono bits (bits - more) (bits - ones) (omega arith),
  host_size_max bits (bits - ones),
)
