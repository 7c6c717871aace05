-- ===== src/Rows/Parts.antt =====
-- The rows of a table that pass a test, through changes of the table.
use rackd.Prelude.{
  length, nat_eq, ◌≡◌, refl, Bool, true, false, List, [], ◌∷◌, ◌++◌, arith, any, keep, find, none,
}

module _ {ℓ} {A : Type ℓ} where
  pub keep-append : (p : A → Bool) (xs ys : List A) → keep p (xs ++ ys) ≡ keep p xs ++ keep p ys
  keep-append p [] ys = refl
  keep-append p (x ∷ xs) ys = ground (arith, keep-append p xs ys)

  -- The rows of one key are not those of another.
  pub keep-others :
      (p q : A → Bool) (xs : List A)
      → ((x : A) → p x ≡ true → q x ≡ true)
      → keep p (keep q xs) ≡ keep p xs
  keep-others p q [] h = refl
  keep-others p q (x ∷ xs) h = ground (arith, keep-others p q xs h, h x)

  pub find-others :
      (p q : A → Bool) (xs : List A)
      → ((x : A) → p x ≡ true → q x ≡ true)
      → find p (keep q xs) ≡ find p xs
  find-others p q [] h = refl
  find-others p q (x ∷ xs) h = ground (arith, find-others p q xs h, h x)

  -- No row is left that the test drops.
  pub find-dropped :
      (p q : A → Bool) (xs : List A)
      → ((x : A) → p x ≡ true → q x ≡ false)
      → find p (keep q xs) ≡ none
  find-dropped p q [] h = refl
  find-dropped p q (x ∷ xs) h = ground (arith, find-dropped p q xs h, h x)

  pub keep-dropped :
      (p q : A → Bool) (xs : List A)
      → ((x : A) → p x ≡ true → q x ≡ false)
      → keep p (keep q xs) ≡ []
  keep-dropped p q [] h = refl
  keep-dropped p q (x ∷ xs) h = ground (arith, keep-dropped p q xs h, h x)

  pub find-append_others :
      (p : A → Bool) (xs ys : List A) → any p ys ≡ false → find p (xs ++ ys) ≡ find p xs
  find-append_others p [] [] h = refl
  find-append_others p [] (y ∷ ys) h = ground (arith, find-append_others p [] ys)
  find-append_others p (x ∷ xs) ys h = ground (arith, find-append_others p xs ys)

  pub some_of_any : (p : A → Bool) (xs : List A) → any p xs ≡ true → nat_eq (length xs) 0 ≡ false
  some_of_any p [] h = ground arith
  some_of_any p (x ∷ xs) h = ground arith
