-- ===== src/Text.antt =====
-- Go strings: byte sequences, with the operations of package strings that the program calls.
use Prim.Native.Char.{code}
use Prim.Native.String.{String}
use rackd.Prelude.{ℕ, ◌≡◌, refl, subst, ◌↔◌, Bool, true, false, ◌&&◌, List, [], ◌∷◌, arith, nat_eq}

abbrev pub Text : Type 0
Text = List ℕ

-- The bytes of a literal; all literals of the program are ASCII.
abbrev pub codes : String → Text
codes String.[] = []
codes (String.◌∷◌ c s) = code c ∷ codes s

infix 50 ◌==◌
unfoldable pub ◌==◌ : Text → Text → Bool
[] == [] = true
[] == (b ∷ t) = false
(a ∷ s) == [] = false
(a ∷ s) == (b ∷ t) = nat_eq a b && s == t

pub ==_sound : (s t : Text) → s == t ≡ true → s ≡ t
unfolding ◌==◌
==_sound [] [] h = refl
==_sound [] (b ∷ t) h = ground arith
==_sound (a ∷ s) [] h = ground arith
==_sound (a ∷ s) (b ∷ t) h = ground (arith, ==_sound s t)

pub ==_refl : (s : Text) → s == s ≡ true
unfolding ◌==◌
==_refl [] = refl
==_refl (a ∷ s) = ground (arith, ==_refl s)

-- Comparison decides equality.
pub eq_iff : (s t : Text) → (s == t ≡ true) ↔ (s ≡ t)
eq_iff s t = (==_sound s t, λ e. subst (λ (u : Text). s == u ≡ true) e (==_refl s))

-- s == ""
abbrev pub is_empty : Text → Bool
is_empty [] = true
is_empty (b ∷ s) = false
