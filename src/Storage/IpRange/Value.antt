-- ===== src/Storage/IpRange/Value.antt =====
-- The loops against arithmetic: an IPv4 address stands for a number below 2 ^ 32.
use rackd.Prelude.{
  ℕ, ◌+◌, ◌*◌, ◌%◌, ◌^◌, ◌<◌, ◌≡◌, refl, All, length, ap, ◌∙◌, List, [], ◌∷◌, arith, leb, nat_eq,
  ◌&&◌,
}
use rackd.Net.{IsIp4, quad}
use rackd.Storage.IpRange.{add_one, not_above, not_below, increment_ip, ip_in_range, ip_equal}

-- The number of an address, most significant byte first.
unfoldable pub value_from : ℕ → List ℕ → ℕ
value_from acc [] = acc
value_from acc (b ∷ bs) = value_from (acc * 256 + b) bs

unfoldable pub value : List ℕ → ℕ
unfolding value_from
value bs = value_from 0 bs

pub value-lt : {bs : List ℕ} → IsIp4 bs → value bs < 2 ^ 32
unfolding value
value-lt (quad a b c d ha hb hc hd) = omega arith

abbrev AreBytes : List ℕ → Type 0
AreBytes = All (λ b. b < 256)

IsIp4-of_bytes : (bs : List ℕ) → AreBytes bs → length bs ≡ 4 → IsIp4 bs
IsIp4-of_bytes (a ∷ b ∷ c ∷ d ∷ []) h e = quad a b c d h.0 h.1.0 h.1.1.0 h.1.1.1.0
IsIp4-of_bytes [] h e = absurd (omega arith)
IsIp4-of_bytes (a ∷ []) h e = absurd (omega arith)
IsIp4-of_bytes (a ∷ b ∷ []) h e = absurd (omega arith)
IsIp4-of_bytes (a ∷ b ∷ c ∷ []) h e = absurd (omega arith)
IsIp4-of_bytes (a ∷ b ∷ c ∷ d ∷ f ∷ bs) h e = absurd (omega arith)

add_one-AreBytes : (bs : List ℕ) → AreBytes bs → AreBytes (add_one bs).0
unfolding add_one
add_one-AreBytes [] h = tt
add_one-AreBytes (b ∷ bs) h = ground (arith, add_one-AreBytes bs h.1)

length-add_one : (bs : List ℕ) → length (add_one bs).0 ≡ length bs
unfolding add_one
length-add_one [] = refl
length-add_one (b ∷ bs) = ground (arith, length-add_one bs)

pub add_one-IsIp4 : {bs : List ℕ} → IsIp4 bs → IsIp4 (add_one bs).0
add_one-IsIp4 (quad a b c d ha hb hc hd) =
    let bs : List ℕ = a ∷ b ∷ c ∷ d ∷ [] in
    IsIp4-of_bytes _ (add_one-AreBytes bs (ha, (hb, (hc, (hd, tt))))) (length-add_one bs)

pub value-add_one : {bs : List ℕ} → IsIp4 bs → value (add_one bs).0 ≡ (value bs + 1) % 2 ^ 32
unfolding value add_one
value-add_one (quad a b c d ha hb hc hd) = ground arith

pub not_above-eq :
    {xs ys : List ℕ} → IsIp4 xs → IsIp4 ys → not_above xs ys ≡ leb (value xs) (value ys)
unfolding value not_above
not_above-eq (quad a b c d ha hb hc hd) (quad e f g h he hf hg hh) = ground arith

not_below-eq : {xs ys : List ℕ} → IsIp4 xs → IsIp4 ys → not_below xs ys ≡ leb (value ys) (value xs)
unfolding value not_below
not_below-eq (quad a b c d ha hb hc hd) (quad e f g h he hf hg hh) = ground arith

-- On IPv4 addresses ipInRange compares the 32-bit numbers of the addresses, both ends included.
pub ip_in_range-eq :
    {xs ys zs : List ℕ}
    → IsIp4 xs
    → IsIp4 ys
    → IsIp4 zs
    → ip_in_range xs ys zs ≡ leb (value ys) (value xs) && leb (value xs) (value zs)
unfolding ip_in_range
ip_in_range-eq {xs} {ys} {zs} p q r =
    ground (arith, not_below-eq {xs = xs} {ys = ys} p q, not_above-eq {xs = xs} {ys = zs} p r)

pub value_injective : {xs ys : List ℕ} → IsIp4 xs → IsIp4 ys → value xs ≡ value ys → xs ≡ ys
unfolding value
value_injective (quad a b c d ha hb hc hd) (quad a' b' c' d' ha' hb' hc' hd') e =
    let pa : a ≡ a' = omega arith in
    let pb : b ≡ b' = omega arith in
    let pc : c ≡ c' = omega arith in let pd : d ≡ d' = omega arith in cc

-- IP.Equal compares them too.
pub ip_equal-eq :
    {xs ys : List ℕ} → IsIp4 xs → IsIp4 ys → ip_equal xs ys ≡ nat_eq (value xs) (value ys)
unfolding value ip_equal
ip_equal-eq (quad a b c d ha hb hc hd) (quad e f g h he hf hg hh) = ground arith

-- On IPv4 addresses incrementIP adds 1 modulo 2^32 and says whether the result is at most the end.
pub increment_ip-eq :
    {ip end_ip : List ℕ}
    → IsIp4 ip
    → IsIp4 end_ip
    → (value (increment_ip ip end_ip).0 ≡ (value ip + 1) % 2 ^ 32)
      × ((increment_ip ip end_ip).1 ≡ leb ((value ip + 1) % 2 ^ 32) (value end_ip))
unfolding increment_ip
increment_ip-eq {end_ip} p q = (
  value-add_one p,
  not_above-eq (add_one-IsIp4 p) q ∙ ap (λ n. leb n (value end_ip)) (value-add_one p),
)

pub increment_ip-IsIp4 :
    {ip : List ℕ} → IsIp4 ip → (end_ip : List ℕ) → IsIp4 (increment_ip ip end_ip).0
unfolding increment_ip
increment_ip-IsIp4 p end_ip = add_one-IsIp4 p
