-- ===== src/Storage/Oauth/Tokens.antt =====
-- internal/storage/oauth_sqlite.go: what a lookup by hash finds after the statements on tokens.
use rackd.Prelude.{◌≡◌, refl, Bool, Option, none, some, List, [], ◌∷◌, ◌++◌, map, find, arith}
use rackd.Text.{Text}
use rackd.Model.{Time}
use rackd.Model.Oauth.{OauthToken}
use rackd.Storage.Oauth.{has_hash, revoke_row}

module _ {ℓ} {A : Type ℓ} where
  abbrev pub map_option : (A → A) → Option A → Option A
  map_option f none = none
  map_option f (some x) = some (f x)

  pub map_option-map_option :
      (f g h : A → A) (o : Option A)
      → map_option f (map_option g (map_option h o)) ≡ map_option (λ x. f (g (h x))) o
  map_option-map_option f g h none = refl
  map_option-map_option f g h (some x) = refl

  pub find-append-some :
      (p : A → Bool) (xs ys : List A) (x : A) → find p xs ≡ some x → find p (xs ++ ys) ≡ some x
  find-append-some p [] ys x e = absurd (ground arith)
  find-append-some p (z ∷ xs) ys x e = ground (arith, find-append-some p xs ys x)

  -- A change of rows that keeps the key.
  pub find-map :
      (p : A → Bool) (f : A → A) (xs : List A)
      → ((x : A) → p (f x) ≡ p x)
      → find p (map f xs) ≡ map_option f (find p xs)
  find-map p f [] h = refl
  find-map p f (x ∷ xs) h = ground (arith, h x, find-map p f xs h)

revoke_row-hash :
    (now : Time) (which : OauthToken → Bool) (hash : Text) (t : OauthToken)
    → has_hash hash (revoke_row now which t) ≡ has_hash hash t
revoke_row-hash now which hash t = ground arith

-- Revoking rows changes the row that a hash finds, and not which.
pub find-revoke_row :
    (now : Time) (which : OauthToken → Bool) (hash : Text) (ts : List OauthToken)
    → find (has_hash hash) (map (revoke_row now which) ts)
      ≡ map_option (revoke_row now which) (find (has_hash hash) ts)
find-revoke_row now which hash ts =
    find-map (has_hash hash) (revoke_row now which) ts (revoke_row-hash now which hash)
