-- ===== src/Rows.antt =====
-- Rows of a table: counting, filtering and mapping.
pub mod Parts
use rackd.Prelude.{
  not, ◌<◌, ℕ, ◌+◌, ◌≤◌, ◌≡◌, refl, ap, sym, subst, Bool, true, false, ◌&&◌, ◌||◌, List, [], ◌∷◌,
  ◌++◌, map, arith, if◌then◌else◌, any, keep, count, find, some, none, Bool-cases, inl, inr,
}

module _ {ℓ} {A : Type ℓ} where
  pub count-append : (p : A → Bool) (xs ys : List A) → count p (xs ++ ys) ≡ count p xs + count p ys
  count-append p [] ys = omega arith
  count-append p (x ∷ xs) ys = omega (arith, count-append p xs ys)

  pub count-keep-le : (p q : A → Bool) (xs : List A) → count p (keep q xs) ≤ count p xs
  count-keep-le p q [] = omega arith
  count-keep-le p q (x ∷ xs) = ground (arith, count-keep-le p q xs)

  -- A test that passes only where another does.
  pub count_mono :
      (p q : A → Bool) (xs : List A) → ((x : A) → p x ≡ true → q x ≡ true) → count p xs ≤ count q xs
  count_mono p q [] h = omega arith
  count_mono p q (x ∷ xs) h = ground (arith, count_mono p q xs h, h x)

  pub count_of_none : (p : A → Bool) (xs : List A) → any p xs ≡ false → count p xs ≡ 0
  count_of_none p [] h = refl
  count_of_none p (x ∷ xs) h = ground (arith, count_of_none p xs)

  pub any_of_count : (p : A → Bool) (xs : List A) → count p xs ≡ 0 → any p xs ≡ false
  any_of_count p [] h = refl
  any_of_count p (x ∷ xs) h = ground (arith, any_of_count p xs)

  pub any-append : (p : A → Bool) (xs ys : List A) → any p (xs ++ ys) ≡ any p xs || any p ys
  any-append p [] ys = refl
  any-append p (x ∷ xs) ys = ground (arith, any-append p xs ys)

  pub any_mono :
      (p q : A → Bool) (xs : List A)
      → ((x : A) → p x ≡ true → q x ≡ true)
      → any p xs ≡ true
      → any q xs ≡ true
  any_mono p q [] h e = ground arith
  any_mono p q (x ∷ xs) h e = ground (arith, any_mono p q xs h, h x)

  -- A counted test through a change of the rows.
  pub count-map :
      (p : A → Bool) (f : A → A) (xs : List A) → count p (map f xs) ≡ count (λ x. p (f x)) xs
  count-map p f [] = refl
  count-map p f (x ∷ xs) = ap (λ (n : ℕ). (if p (f x) then 1 else 0) + n) (count-map p f xs)

  pub find-any :
      (p : A → Bool) (xs : List A) (x : A) → find p xs ≡ some x → (any p xs ≡ true) × (p x ≡ true)
  find-any p [] x e = ground arith
  find-any p (y ∷ xs) x e = elim (Bool-cases (p y)) [
    | inl h ↦ ground arith
    | inr h ↦ let ih = find-any p xs x (ground arith) in ground arith
  ]

  -- Where no row passes a weaker test, none passes the stronger one.
  pub any_none :
      (p q : A → Bool) (xs : List A)
      → ((x : A) → q x ≡ true → p x ≡ true)
      → any p xs ≡ false
      → any q xs ≡ false
  any_none p q [] h e = refl
  any_none p q (x ∷ xs) h e = ground (arith, any_none p q xs h, h x)

  -- A row that is found fails a test that no row passes.
  pub find-fails :
      (p q : A → Bool) (xs : List A) (x : A) → any p xs ≡ false → find q xs ≡ some x → p x ≡ false
  find-fails p q [] x n e = absurd (ground arith)
  find-fails p q (y ∷ xs) x n e = elim (Bool-cases (q y)) [
    | inl k ↦ let same : y ≡ x = ground arith in subst (λ z. p z ≡ false) same (ground arith)
    | inr k ↦ find-fails p q xs x (ground arith) (ground arith)
  ]

  pub keep-none : (p : A → Bool) (xs : List A) → any p xs ≡ false → keep p xs ≡ []
  keep-none p [] n = refl
  keep-none p (x ∷ xs) n = ground (arith, keep-none p xs)

  pub any_of_find : (p : A → Bool) (xs : List A) → find p xs ≡ none → any p xs ≡ false
  any_of_find p [] e = refl
  any_of_find p (x ∷ xs) e = ground (arith, any_of_find p xs)

  -- The first match stays the first where it is kept.
  pub find-keep-kept :
      (p q : A → Bool) (xs : List A) (x : A)
      → find p xs ≡ some x
      → q x ≡ true
      → find p (keep q xs) ≡ some x
  find-keep-kept p q [] x e h = absurd (ground arith)
  find-keep-kept p q (y ∷ xs) x e h = elim (Bool-cases (p y)) [
    | inl k ↦
        let same : y ≡ x = ground arith in
        let kept = subst (λ z. q z ≡ true) (sym same) h in ground arith
    | inr k ↦ let rest = find-keep-kept p q xs x (ground arith) h in ground arith
  ]

  pub any_never : (p : A → Bool) (xs : List A) → ((x : A) → p x ≡ false) → any p xs ≡ false
  any_never p [] h = refl
  any_never p (x ∷ xs) h = cc (h x, any_never p xs h)

  pub any_congr : (p q : A → Bool) (xs : List A) → ((x : A) → p x ≡ q x) → any p xs ≡ any q xs
  any_congr p q [] h = refl
  any_congr p q (x ∷ xs) h = cc (h x, any_congr p q xs h)

  pub any-keep : (p q : A → Bool) (xs : List A) → any p (keep q xs) ≡ any (λ x. p x && q x) xs
  any-keep p q [] = refl
  any-keep p q (x ∷ xs) = ground (arith, any-keep p q xs)

  -- The first match, where no earlier row matches.
  pub find-append :
      (p : A → Bool) (xs : List A) (y : A)
      → any p xs ≡ false
      → p y ≡ true
      → find p (xs ++ y ∷ []) ≡ some y
  find-append p [] y h e = ground arith
  find-append p (x ∷ xs) y h e = ground (arith, find-append p xs y)

  pub any_and : (p q : A → Bool) (xs : List A) → any q xs ≡ false → any (λ x. p x && q x) xs ≡ false
  any_and p q [] h = refl
  any_and p q (x ∷ xs) h = ground (arith, any_and p q xs)

  -- A test whose matches pass one of two others, where none passes the second.
  pub any_either :
      (p q r : A → Bool) (xs : List A)
      → ((x : A) → p x ≡ true → q x || r x ≡ true)
      → any r xs ≡ false
      → any p xs ≡ true
      → any q xs ≡ true
  any_either p q r [] h n e = ground arith
  any_either p q r (x ∷ xs) h n e = ground (arith, any_either p q r xs h, h x)

  -- A test of the only row with a key is the test of the rows with that key.
  pub any-only :
      (key p : A → Bool) (y : A) (xs : List A)
      → count key xs ≤ 1
      → find key xs ≡ some y
      → p y ≡ false
      → any (λ x. p x && key x) xs ≡ false
  any-only key p y [] c f h = refl
  any-only key p y (x ∷ xs) c f h = elim (Bool-cases (key x)) [
    | inl e ↦
        let none_left = any_and p key xs (any_of_count key xs (ground arith)) in
        let same : x ≡ y = ground arith in
        ground (arith, none_left, subst (λ z. p z ≡ false) (sym same) h)
    | inr e ↦ ground (arith, any-only key p y xs (ground arith) (ground arith) h)
  ]

  pub any-map :
      {B : Type ℓ} (p : B → Bool) (f : A → B) (xs : List A)
      → any p (map f xs) ≡ any (λ x. p (f x)) xs
  any-map p f [] = refl
  any-map p f (x ∷ xs) = ap (λ b. p (f x) || b) (any-map p f xs)

  pub count_congr : (p q : A → Bool) (xs : List A) → ((x : A) → p x ≡ q x) → count p xs ≡ count q xs
  count_congr p q [] h = refl
  count_congr p q (x ∷ xs) h = ground (arith, h x, count_congr p q xs h)

  -- The rows that pass a test, by another test.
  pub count-split :
      (p q : A → Bool) (xs : List A)
      → count p xs ≡ count (λ x. p x && q x) xs + count (λ x. p x && not (q x)) xs
  count-split p q [] = omega arith
  count-split p q (x ∷ xs) = ground (arith, count-split p q xs)

  pub count-find-some :
      (p key : A → Bool) (y : A) (xs : List A)
      → find key xs ≡ some y
      → p y ≡ true
      → 0 < count (λ x. p x && key x) xs
  count-find-some p key y [] f h = absurd (ground arith)
  count-find-some p key y (x ∷ xs) f h = elim (Bool-cases (key x)) [
    | inl e ↦
        let same : x ≡ y = ground arith in
        let it = subst (λ z. p z ≡ true) (sym same) h in ground arith
    | inr e ↦ let rest = count-find-some p key y xs (ground arith) h in ground arith
  ]
