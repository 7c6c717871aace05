-- ===== src/Auth/Oauth/Scopes.antt =====
-- internal/auth/oauth.go: scopes as texts and as lists.
use rackd.Prelude.{
  subst, ◌≢◌, Bool-cases, inl, inr, ℕ, zero, suc, ◌≡◌, refl, sym, ◌∙◌, ap, Bool, true, false, not,
  ◌&&◌, List, [], ◌∷◌, ◌++◌, append_assoc, append-nil, leb, arith, All, any, keep,
}
use rackd.Text.{Text, ◌==◌, is_empty, eq_iff}
use rackd.Rows.{keep-none}
use rackd.Auth.Oauth.{
  space_width, end_word, words_from, fields, parse_scopes, join_scopes, intersect_scopes, contains,
}

-- The characters of a scope: visible ASCII.
abbrev pub visible : ℕ → Bool
visible b = leb 33 b && leb b 126

abbrev pub IsScope : Text → Type 0
IsScope w = (is_empty w ≡ false) × (any (λ b. not (visible b)) w ≡ false)

space_width-visible : (b : ℕ) (s : Text) → visible b ≡ true → space_width (b ∷ s) ≡ 0
unfolding space_width
space_width-visible b [] h = ground arith
space_width-visible b (c ∷ []) h = ground arith
space_width-visible b (c ∷ d ∷ s) h = ground arith

space_width-space : (s : Text) → space_width (32 ∷ s) ≡ 1
unfolding space_width
space_width-space [] = refl
space_width-space (c ∷ []) = refl
space_width-space (c ∷ d ∷ s) = refl

words_from-visible :
    (begun s : Text) (b : ℕ)
    → visible b ≡ true
    → words_from 0 begun (b ∷ s) ≡ words_from 0 (begun ++ b ∷ []) s
unfolding words_from
words_from-visible begun s b h =
    ap
      (λ (n : ℕ). elim n [
        | zero ↦ words_from 0 (begun ++ b ∷ []) s
        | suc m ↦ end_word begun (words_from m [] s)
      ])
      (space_width-visible b s h)

words_from-space :
    (begun s : Text) → words_from 0 begun (32 ∷ s) ≡ end_word begun (words_from 0 [] s)
unfolding words_from
words_from-space begun s =
    ap
      (λ (n : ℕ). elim n [
        | zero ↦ words_from 0 (begun ++ 32 ∷ []) s
        | suc m ↦ end_word begun (words_from m [] s)
      ])
      (space_width-space s)

-- A scope's bytes join the word that has begun.
words_from-append :
    (begun w rest : Text)
    → any (λ b. not (visible b)) w ≡ false
    → words_from 0 begun (w ++ rest) ≡ words_from 0 (begun ++ w) rest
words_from-append begun [] rest h = ap (λ (t : Text). words_from 0 t rest) (sym (append-nil begun))
words_from-append begun (b ∷ w) rest h =
    words_from-visible begun (w ++ rest) b (ground arith)
    ∙ words_from-append (begun ++ b ∷ []) w rest (ground arith)
    ∙ ap (λ (t : Text). words_from 0 t rest) (append_assoc begun (b ∷ []) w)

end_word-scope : (w : Text) (ws : List Text) → is_empty w ≡ false → end_word w ws ≡ w ∷ ws
end_word-scope [] ws h = ground arith
end_word-scope (b ∷ w) ws h = refl

fields-join_scopes : (xs : List Text) → All IsScope xs → fields (join_scopes xs) ≡ xs
unfolding join_scopes words_from
fields-join_scopes [] k = refl
fields-join_scopes (x ∷ []) ((full, plain), k) =
    ap (λ (t : Text). words_from 0 [] t) (sym (append-nil x))
    ∙ words_from-append [] x [] plain
    ∙ end_word-scope x [] full
fields-join_scopes (x ∷ y ∷ xs) ((full, plain), k) =
    words_from-append [] x (32 ∷ join_scopes (y ∷ xs)) plain
    ∙ words_from-space x (join_scopes (y ∷ xs))
    ∙ ap (end_word x) (fields-join_scopes (y ∷ xs) k)
    ∙ end_word-scope x (y ∷ xs) full

parse_scopes-fields : (s : Text) → parse_scopes s ≡ fields s
unfolding parse_scopes words_from
parse_scopes-fields [] = refl
parse_scopes-fields (b ∷ s) = refl

-- ParseScopes gives back the scopes that JoinScopes joined, if each is a nonempty word of visible
-- ASCII characters.
pub parse_scopes-join_scopes :
    (xs : List Text) → All IsScope xs → parse_scopes (join_scopes xs) ≡ xs
parse_scopes-join_scopes xs k = parse_scopes-fields (join_scopes xs) ∙ fields-join_scopes xs k

All-contains :
    (allowed : List Text) (t : Text) → All IsScope allowed → contains allowed t ≡ true → IsScope t
All-contains [] t k h = absurd (ground arith)
All-contains (x ∷ xs) t (plain, k) h = elim (Bool-cases (x == t)) [
  | inl e ↦ subst IsScope ((eq_iff x t).0 e) plain
  | inr e ↦ All-contains xs t k (ground arith)
]

keep-IsScope :
    (requested allowed : List Text)
    → All IsScope allowed
    → All IsScope (keep (contains allowed) requested)
keep-IsScope [] allowed k = tt
keep-IsScope (x ∷ xs) allowed k = elim (Bool-cases (contains allowed x)) [
  | inl e ↦ rw e (All-contains allowed x k e, keep-IsScope xs allowed k)
  | inr e ↦ rw e (keep-IsScope xs allowed k)
]

pub intersect_scopes-IsScope :
    (requested allowed : List Text)
    → All IsScope allowed
    → All IsScope (intersect_scopes requested allowed)
unfolding intersect_scopes
intersect_scopes-IsScope [] allowed k = k
intersect_scopes-IsScope (x ∷ xs) allowed k = keep-IsScope (x ∷ xs) allowed k

keep-contains :
    (requested allowed : List Text) (t : Text)
    → contains (keep (contains allowed) requested) t ≡ true
    → contains allowed t ≡ true
keep-contains [] allowed t h = absurd (ground arith)
keep-contains (x ∷ xs) allowed t h = ground (arith, keep-contains xs allowed t, eq_iff x t)

-- The effective scopes are among the allowed ones.
pub intersect_scopes-contains :
    (requested allowed : List Text) (t : Text)
    → contains (intersect_scopes requested allowed) t ≡ true
    → contains allowed t ≡ true
unfolding intersect_scopes
intersect_scopes-contains [] allowed t h = h
intersect_scopes-contains (x ∷ xs) allowed t h = keep-contains (x ∷ xs) allowed t h

pub intersect_scopes-disjoint :
    (requested allowed : List Text)
    → requested ≢ []
    → any (contains allowed) requested ≡ false
    → intersect_scopes requested allowed ≡ []
unfolding intersect_scopes
intersect_scopes-disjoint [] allowed n h = absurd (n refl)
intersect_scopes-disjoint (x ∷ xs) allowed n h = keep-none (contains allowed) (x ∷ xs) h
