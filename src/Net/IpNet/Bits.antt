-- ===== src/Net/IpNet/Bits.antt =====
-- Leading bits of addresses, for IPNet.Contains of two networks.
use rackd.Prelude.{
  ℕ, zero, suc, ◌+◌, ◌-◌, ◌*◌, ◌/◌, ◌≡◌, ◌≤◌, refl, ap, subst, true, false, List, [], ◌∷◌, leb,
  nat_eq, arith, Bool-cases, inl, inr,
}
use rackd.Net.IpNet.{shr, shl, mask_byte, same_bits}

shl_injective : (n a b : ℕ) → shl n a ≡ shl n b → a ≡ b
shl_injective zero a b e = e
shl_injective (suc n) a b e = omega (arith, shl_injective n (a * 2) (b * 2) e)

-- Where the leading bits agree, fewer of them do.
shr-further : (n k a b : ℕ) → shr n a ≡ shr n b → shr (k + n) a ≡ shr (k + n) b
shr-further n zero a b e =
    let same : n ≡ 0 + n = omega arith in subst (λ m. shr m a ≡ shr m b) same e
shr-further n (suc k) a b e =
    let same : suc (k + n) ≡ suc k + n = omega arith in
    subst (λ m. shr m a ≡ shr m b) same (ap (λ (c : ℕ). c / 2) (shr-further n k a b e))

mask_byte_below :
    (p q a b : ℕ) → p ≤ q → q ≤ 8 → shr (8 - q) a ≡ shr (8 - q) b → shr (8 - p) a ≡ shr (8 - p) b
mask_byte_below p q a b h k e =
    let same : (q - p) + (8 - q) ≡ 8 - p = omega arith in
    subst (λ m. shr m a ≡ shr m b) same (shr-further (8 - q) (q - p) a b e)

-- Fewer ones of the mask
mask_byte_mono :
    (p q a b : ℕ) → p ≤ q → mask_byte q a ≡ mask_byte q b → mask_byte p a ≡ mask_byte p b
mask_byte_mono p q a b h e = elim (Bool-cases (leb 8 q)) [
  | inl k ↦ let same : a ≡ b = ground arith in ap (mask_byte p) same
  | inr k ↦
      let same : shl (8 - q) (shr (8 - q) a) ≡ shl (8 - q) (shr (8 - q) b) = ground arith in
      let bits = mask_byte_below p q a b h (ground (arith)) (shl_injective (8 - q) _ _ same) in
      let low : leb 8 p ≡ false = ground arith in ground arith
]

nat_eq_refl : (a : ℕ) → nat_eq a a ≡ true
nat_eq_refl a = ground arith

pub same_bits_refl : (n : ℕ) (xs : List ℕ) → same_bits n xs xs ≡ true
same_bits_refl n [] = refl
same_bits_refl n (a ∷ xs) = ground (arith, nat_eq_refl (mask_byte n a), same_bits_refl (n - 8) xs)

pub same_bits_sym : (n : ℕ) (xs ys : List ℕ) → same_bits n xs ys ≡ true → same_bits n ys xs ≡ true
same_bits_sym n [] [] h = refl
same_bits_sym n [] (b ∷ ys) h = ground arith
same_bits_sym n (a ∷ xs) [] h = ground arith
same_bits_sym n (a ∷ xs) (b ∷ ys) h = ground (arith, same_bits_sym (n - 8) xs ys)

pub same_bits_trans :
    (n : ℕ) (xs ys zs : List ℕ)
    → same_bits n xs ys ≡ true
    → same_bits n ys zs ≡ true
    → same_bits n xs zs ≡ true
same_bits_trans n [] [] zs h k = k
same_bits_trans n [] (b ∷ ys) zs h k = absurd (ground arith)
same_bits_trans n (a ∷ xs) [] zs h k = absurd (ground arith)
same_bits_trans n (a ∷ xs) (b ∷ ys) [] h k = absurd (ground arith)
same_bits_trans n (a ∷ xs) (b ∷ ys) (c ∷ zs) h k = ground (arith, same_bits_trans (n - 8) xs ys zs)

pub same_bits_mono :
    (p q : ℕ) (xs ys : List ℕ) → p ≤ q → same_bits q xs ys ≡ true → same_bits p xs ys ≡ true
same_bits_mono p q [] [] h k = refl
same_bits_mono p q [] (b ∷ ys) h k = absurd (ground arith)
same_bits_mono p q (a ∷ xs) [] h k = absurd (ground arith)
same_bits_mono p q (a ∷ xs) (b ∷ ys) h k =
    let byte = mask_byte_mono p q a b h (ground (arith)) in
    ground (arith, same_bits_mono (p - 8) (q - 8) xs ys)
