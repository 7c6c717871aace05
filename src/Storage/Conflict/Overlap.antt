-- ===== src/Storage/Conflict/Overlap.antt =====
-- internal/storage/conflict_sqlite.go, networksOverlap: what its two tests of Contains decide.
use rackd.Prelude.{◌≡◌, ◌≤◌, ◌↔◌, true, inl, inr, arith, Bool-cases, ltb}
use rackd.Net.{Ip}
use rackd.Net.IpNet.{IpNet, contains, address, mask_ones}
use rackd.Net.IpNet.Bits.{same_bits_refl, same_bits_sym, same_bits_trans, same_bits_mono}
use rackd.Storage.Conflict.Find.{networks_overlap}

contains_own : (n : IpNet) → contains n n.ip ≡ true
unfolding contains
contains_own n = same_bits_refl (mask_ones n) (address n.ip)

-- An address of both networks, where the first one has no longer prefix
contains_shorter :
    (m n : IpNet) (x : Ip)
    → mask_ones m ≤ mask_ones n
    → contains m x ≡ true
    → contains n x ≡ true
    → contains m n.ip ≡ true
unfolding contains
contains_shorter m n x h a b =
    same_bits_trans (mask_ones m) (address m.ip) (address x) (address n.ip) a (
      same_bits_sym (mask_ones m) (address n.ip) (address x)
        (same_bits_mono (mask_ones m) (mask_ones n) (address n.ip) (address x) h b))

overlap_of_both :
    (m n : IpNet) (x : Ip) → contains m x ≡ true → contains n x ≡ true → networks_overlap m n ≡ true
overlap_of_both m n x a b = elim (Bool-cases (ltb (mask_ones n) (mask_ones m))) [
  | inl h ↦ let c = contains_shorter n m x (ground (arith)) b a in ground arith
  | inr h ↦ let c = contains_shorter m n x (ground (arith)) a b in ground arith
]

both_of_overlap :
    (m n : IpNet)
    → networks_overlap m n ≡ true
    → (x : Ip) × (contains m x ≡ true) × (contains n x ≡ true)
both_of_overlap m n h = elim (Bool-cases (contains m n.ip)) [
  | inl e ↦ (n.ip, e, contains_own n)
  | inr e ↦ (m.ip, contains_own m, ground (arith))
]

-- networksOverlap holds for two networks exactly if some address is in both of them.
pub networks_overlap_iff :
    (m n : IpNet)
    → (networks_overlap m n ≡ true) ↔ ((x : Ip) × (contains m x ≡ true) × (contains n x ≡ true))
networks_overlap_iff m n = (both_of_overlap m n, λ (x, a, b). overlap_of_both m n x a b)
