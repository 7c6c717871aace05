-- ===== src/Auth/Oauth.antt =====
-- internal/auth/oauth.go: hashes of tokens, PKCE, redirect URIs and scopes. The hash, SHA-256 in
-- base64url, is a parameter.
pub mod Scopes
use rackd.Prelude.{
  ℕ, zero, suc, Bool, true, false, not, ◌&&◌, ◌||◌, List, [], ◌∷◌, ◌++◌, leb, ltb, nat_eq,
  if◌then◌else◌, any, keep,
}
use rackd.Text.{Text, codes, ◌==◌, is_empty}

-- base64.RawURLEncoding.EncodeToString of sha256.Sum256
abbrev pub Hash : Type 0
Hash = Text → Text

-- HashToken
abbrev pub hash_token : Hash → Text → Text
hash_token hash token = hash token

-- ValidatePKCE
unfoldable pub validate_pkce : Hash → Text → Text → Text → Bool
validate_pkce hash verifier challenge method =
    if not (method == codes "S256")
    then false
    else if is_empty verifier || is_empty challenge
    then false
    else hash verifier == challenge

-- slices.Contains
abbrev pub contains : List Text → Text → Bool
contains texts t = any (λ u. u == t) texts

-- ValidateRedirectURI
abbrev pub validate_redirect_uri : Text → List Text → Bool
validate_redirect_uri uri registered = contains registered uri

abbrev ascii_space : ℕ → Bool
ascii_space b = leb 9 b && leb b 13 || nat_eq b 32

-- The encodings of U+0085, U+00A0, U+1680, U+2000 to U+200A, U+2028, U+2029, U+202F, U+205F and U+3000
abbrev two_bytes : ℕ → ℕ → Bool
two_bytes a b = nat_eq a 194 && (nat_eq b 133 || nat_eq b 160)

abbrev three_bytes : ℕ → ℕ → ℕ → Bool
three_bytes a b c =
    nat_eq a 225 && nat_eq b 154 && nat_eq c 128
    || nat_eq a 226
      && (nat_eq b 128 && (leb 128 c && leb c 138 || nat_eq c 168 || nat_eq c 169 || nat_eq c 175)
          || nat_eq b 129 && nat_eq c 159)
    || nat_eq a 227 && nat_eq b 128 && nat_eq c 128

-- The bytes of the space that a text begins with (unicode.IsSpace), 0 for none. A byte that begins one
-- of these encodings continues no other.
unfoldable pub space_width : Text → ℕ
space_width [] = 0
space_width (a ∷ []) = if ascii_space a then 1 else 0
space_width (a ∷ b ∷ []) = if ascii_space a then 1 else if two_bytes a b then 2 else 0
space_width (a ∷ b ∷ c ∷ s) =
    if ascii_space a then 1 else if two_bytes a b then 2 else if three_bytes a b c then 3 else 0

-- A word that has ended, if it has bytes.
abbrev pub end_word : Text → List Text → List Text
end_word [] words = words
end_word (b ∷ w) words = (b ∷ w) ∷ words

-- The words of a text, after bytes of a space to skip and the bytes of a word that has begun.
unfoldable pub words_from : ℕ → Text → Text → List Text
words_from n word [] = end_word word []
words_from (suc n) word (b ∷ s) = words_from n word s
words_from zero word (b ∷ s) = elim (space_width (b ∷ s)) [
  | zero ↦ words_from zero (word ++ b ∷ []) s
  | suc n ↦ end_word word (words_from n [] s)
]

-- strings.Fields
abbrev pub fields : Text → List Text
fields s = words_from 0 [] s

-- ParseScopes; the nil slice is the empty list.
unfoldable pub parse_scopes : Text → List Text
parse_scopes [] = []
parse_scopes (b ∷ s) = fields (b ∷ s)

-- JoinScopes
unfoldable pub join_scopes : List Text → Text
join_scopes [] = []
join_scopes (x ∷ []) = x
join_scopes (x ∷ y ∷ xs) = x ++ 32 ∷ join_scopes (y ∷ xs)

-- IntersectScopes
unfoldable pub intersect_scopes : List Text → List Text → List Text
intersect_scopes [] allowed = allowed
intersect_scopes (x ∷ xs) allowed = keep (contains allowed) (x ∷ xs)
