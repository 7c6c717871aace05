-- ===== src/Storage/IpRange.antt =====
-- The byte loops of internal/storage/pool_sqlite.go over IPv4 addresses.
pub mod Value
pub mod Address
use rackd.Prelude.{
  ℕ, ◌+◌, ◌*◌, ◌%◌, Bool, true, false, List, [], ◌∷◌, ltb, nat_eq, if◌then◌else◌, ◌≡◌, refl,
}

-- The first loop of incrementIP, from the last byte; `true` is a carry out of the bytes so far.
unfoldable pub add_one : List ℕ → List ℕ × Bool
add_one [] = ([], true)
add_one (b ∷ bs) =
    let (bs', carry) = add_one bs in
    if carry then ((b + 1) % 256 ∷ bs', nat_eq ((b + 1) % 256) 0) else (b ∷ bs', false)

-- The second loop: `true` unless the address is above the end. The addresses are of one length.
unfoldable pub not_above : List ℕ → List ℕ → Bool
not_above (x ∷ xs) (y ∷ ys) = if ltb x y then true else if ltb y x then false else not_above xs ys
not_above _ _ = true

-- incrementIP: the address after the call, and the result.
unfoldable pub increment_ip : List ℕ → List ℕ → List ℕ × Bool
unfolding add_one not_above
increment_ip ip end_ip = let next = (add_one ip).0 in (next, not_above next end_ip)

-- The two loops of ipInRange: `break` at the first byte that differs the right way.
not_below : List ℕ → List ℕ → Bool
not_below (x ∷ xs) (y ∷ ys) = if ltb x y then false else if ltb y x then true else not_below xs ys
not_below _ _ = true

unfoldable pub ip_in_range : List ℕ → List ℕ → List ℕ → Bool
unfolding not_above not_below
ip_in_range ip start end_ip = if not_below ip start then not_above ip end_ip else false

-- IP.Equal of two addresses of one length
unfoldable pub ip_equal : List ℕ → List ℕ → Bool
ip_equal [] [] = true
ip_equal (x ∷ xs) (y ∷ ys) = if nat_eq x y then ip_equal xs ys else false
ip_equal _ _ = false

increment_tests :
    (increment_ip (10 ∷ 0 ∷ 0 ∷ 255 ∷ []) (10 ∷ 0 ∷ 1 ∷ 0 ∷ []) ≡ (10 ∷ 0 ∷ 1 ∷ 0 ∷ [], true))
    × (increment_ip (10 ∷ 0 ∷ 1 ∷ 0 ∷ []) (10 ∷ 0 ∷ 1 ∷ 0 ∷ []) ≡ (10 ∷ 0 ∷ 1 ∷ 1 ∷ [], false))
    × (increment_ip (255 ∷ 255 ∷ 255 ∷ 255 ∷ []) (255 ∷ 255 ∷ 255 ∷ 255 ∷ [])
        ≡ (0 ∷ 0 ∷ 0 ∷ 0 ∷ [], true))
unfolding increment_ip
increment_tests = (refl, refl, refl)
