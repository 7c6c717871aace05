-- ===== src/Storage/Order.antt =====
-- ORDER BY, LIMIT and OFFSET: sorting by a key, and model.Pagination with appendPagination.
use rackd.Prelude.{
  length, ◌≤◌, ℕ, zero, suc, ◌≡◌, refl, Bool, true, false, Option, none, some, List, [], ◌∷◌, arith,
  ltb, nat_eq, if◌then◌else◌, any, ◌||◌, ap, ◌∙◌, ◌++◌,
}
use rackd.Text.{Text, is_empty}

-- The order of texts by bytes.
unfoldable pub text_leb : Text → Text → Bool
text_leb [] t = true
text_leb (a ∷ s) [] = false
text_leb (a ∷ s) (b ∷ t) = if ltb a b then true else if ltb b a then false else text_leb s t

-- LIKE of SQLite, on a column and a pattern
abbrev pub Like : Type 0
Like = Text → Text → Bool

-- The column LIKE '%part%', and no condition for an empty part
abbrev pub contains_part : Like → Text → Text → Bool
contains_part like part column = is_empty part || like column (37 ∷ part ++ 37 ∷ [])

module _ {ℓ} {A : Type ℓ} where
  unfoldable pub insert_by : (A → A → Bool) → A → List A → List A
  insert_by before x [] = x ∷ []
  insert_by before x (y ∷ ys) = if before x y then x ∷ y ∷ ys else y ∷ insert_by before x ys

  -- Rows with equal keys stay in the order of the table.
  unfoldable pub sort_by : (A → A → Bool) → List A → List A
  unfolding insert_by
  sort_by before [] = []
  sort_by before (x ∷ xs) = insert_by before x (sort_by before xs)

  any-insert_by :
      (before : A → A → Bool) (p : A → Bool) (x : A) (xs : List A)
      → any p (insert_by before x xs) ≡ p x || any p xs
  unfolding insert_by
  any-insert_by before p x [] = refl
  any-insert_by before p x (y ∷ ys) = ground (arith, any-insert_by before p x ys)

  -- Sorting keeps the rows.
  pub any-sort_by :
      (before : A → A → Bool) (p : A → Bool) (xs : List A) → any p (sort_by before xs) ≡ any p xs
  unfolding sort_by
  any-sort_by before p [] = refl
  any-sort_by before p (x ∷ xs) =
      any-insert_by before p x (sort_by before xs) ∙ ap (λ b. p x || b) (any-sort_by before p xs)

  abbrev pub take : ℕ → List A → List A
  take zero xs = []
  take (suc n) [] = []
  take (suc n) (x ∷ xs) = x ∷ take n xs

  abbrev pub drop : ℕ → List A → List A
  drop zero xs = xs
  drop (suc n) [] = []
  drop (suc n) (x ∷ xs) = drop n xs

-- A Go int; `negsuc n` is -(n + 1).
pub data ℤ : Type 0 where
  pos negsuc : ℕ → ℤ

pub record Pagination : Type 0 where
  pub limit : ℤ
  pub offset : ℤ

abbrev pub default_page_size : ℕ
default_page_size = 100

abbrev pub max_page_size : ℕ
max_page_size = 1000

-- Pagination.Clamp on each field
unfoldable pub clamp_limit : ℤ → ℕ
clamp_limit (negsuc n) = default_page_size
clamp_limit (pos n) =
    if nat_eq n 0 then default_page_size else if ltb max_page_size n then max_page_size else n

unfoldable pub clamp_offset : ℤ → ℕ
clamp_offset (negsuc n) = 0
clamp_offset (pos n) = n

clamp_limit_max : (n : ℤ) → clamp_limit n ≤ max_page_size
unfolding clamp_limit
clamp_limit_max (negsuc n) = omega arith
clamp_limit_max (pos n) = ground arith

abbrev no_page : Pagination
no_page = record { limit = pos 0; offset = pos 0 }

abbrev page_or_default : Option Pagination → Pagination
page_or_default none = no_page
page_or_default (some p) = p

module _ {ℓ} {A : Type ℓ} where
  -- appendPagination: LIMIT and OFFSET of the clamped values
  unfoldable pub paginate : Option Pagination → List A → List A
  unfolding clamp_limit clamp_offset
  paginate p rows =
      let page = page_or_default p in
      take (clamp_limit page.limit) (drop (clamp_offset page.offset) rows)

  any-take : (p : A → Bool) (n : ℕ) (xs : List A) → any p xs ≡ false → any p (take n xs) ≡ false
  any-take p zero xs h = refl
  any-take p (suc n) [] h = refl
  any-take p (suc n) (x ∷ xs) h = ground (arith, any-take p n xs)

  any-drop : (p : A → Bool) (n : ℕ) (xs : List A) → any p xs ≡ false → any p (drop n xs) ≡ false
  any-drop p zero xs h = h
  any-drop p (suc n) [] h = refl
  any-drop p (suc n) (x ∷ xs) h = ground (arith, any-drop p n xs)

  length-take : (n : ℕ) (xs : List A) → length (take n xs) ≤ n
  length-take zero xs = omega arith
  length-take (suc n) [] = omega arith
  length-take (suc n) (x ∷ xs) = omega (arith, length-take n xs)

  -- A page has at most the rows of its limit, and only rows of the table.
  pub length-paginate :
      (p : Option Pagination) (rows : List A) → length (paginate p rows) ≤ max_page_size
  unfolding paginate
  length-paginate p rows =
      let page = page_or_default p in
      omega (
        arith,
        length-take (clamp_limit page.limit) (drop (clamp_offset page.offset) rows),
        clamp_limit_max page.limit,
      )

  -- Without a limit a page has at most the default number of rows.
  pub length-default :
      (p : Pagination) (rows : List A)
      → p.limit ≡ pos 0
      → length (paginate (some p) rows) ≤ default_page_size
  unfolding paginate
  length-default p rows e =
      let same : clamp_limit p.limit ≡ default_page_size = ap clamp_limit e in
      omega (arith, length-take (clamp_limit p.limit) (drop (clamp_offset p.offset) rows), same)

  pub any-paginate :
      (q : A → Bool) (p : Option Pagination) (rows : List A)
      → any q rows ≡ false
      → any q (paginate p rows) ≡ false
  unfolding paginate
  any-paginate q p rows h =
      let page = page_or_default p in
      any-take q (clamp_limit page.limit) _ (any-drop q (clamp_offset page.offset) rows h)
