-- ===== src/Auth/Sessions/Laws.antt =====
-- What a lookup finds after each change of the sessions.
use rackd.Prelude.{
  ℕ, ◌+◌, ◌≤◌, ◌≡◌, ◌↔◌, refl, subst, Bool, false, not, Option, none, some, List, [], ◌∷◌, arith,
  if◌then◌else◌, any, keep, find, Bool-cases, Option-cases, inl, inr,
}
use rackd.Text.{Text, ◌==◌, is_empty, eq_iff, ==_refl}
use rackd.Rows.{find-any}
use rackd.Model.{Time}
use rackd.Auth.Sessions.{
  Session, Sessions, done, fails, session_not_found, has_token, save, delete, is_over, get, cleanup,
  create_session, get_session, refresh_session, invalidate_session, invalidate_user_sessions,
  delete_by_user,
}

abbrev pub keep_if : (Session → Bool) → Option Session → Option Session
keep_if q none = none
keep_if q (some x) = if q x then some x else none

-- The tokens of a map differ.
abbrev pub IsMap : Sessions → Type 0
IsMap [] = Unit
IsMap (x ∷ xs) = (any (has_token x.token) xs ≡ false) × IsMap xs

find-none :
    (p q : Session → Bool) (xs : List Session) → any p xs ≡ false → find p (keep q xs) ≡ none
find-none p q [] h = refl
find-none p q (x ∷ xs) h = ground (arith, find-none p q xs)

-- A lookup by token among the sessions that pass a test.
pub find-keep :
    (token : Text) (q : Session → Bool) (xs : List Session)
    → IsMap xs
    → find (has_token token) (keep q xs) ≡ keep_if q (find (has_token token) xs)
find-keep token q [] k = refl
find-keep token q (x ∷ xs) (fresh, k) = elim (Bool-cases (has_token token x)) [
  | inl e ↦
      let no_other =
        find-none (has_token token) q xs
          (subst (λ t. any (has_token t) xs ≡ false) ((eq_iff x.token token).0 e) fresh) in
      ground arith
  | inr e ↦ ground (arith, find-keep token q xs k)
]

pub find-keep-others :
    (token other : Text) (xs : List Session)
    → find (has_token other) (keep (λ x. not (has_token token x)) xs)
      ≡ (if other == token then none else find (has_token other) xs)
find-keep-others token other [] = ground arith
find-keep-others token other (x ∷ xs) = ground (
  arith,
  find-keep-others token other xs,
  eq_iff x.token other,
  eq_iff x.token token,
  eq_iff other token,
)

-- A session that CreateSession made, with a token that is not empty, is what GetSession finds for
-- its token until its end is over.
pub get_session-create_session :
    (now later : Time) (ttl : ℕ) (token user name : Text) (admin : Bool) (sessions : Sessions)
    (x : Session)
    → is_empty token ≡ false
    → (create_session now ttl (some token) user name admin sessions).0 ≡ done x
    → later ≤ now + ttl
    → (get_session later token (create_session now ttl (some token) user name admin sessions).1).0
      ≡ done x
unfolding create_session get_session get save
get_session-create_session now later ttl token user name admin sessions x e h t =
    ground (arith, ==_refl token)

-- A session that RefreshSession answered with is what GetSession finds for its token until the new
-- end is over.
pub get_session-refresh_session :
    (now later last : Time) (ttl : ℕ) (token : Text) (sessions : Sessions) (x : Session)
    → (refresh_session now later ttl token sessions).0 ≡ done x
    → last ≤ later + ttl
    → (get_session last token (refresh_session now later ttl token sessions).1).0 ≡ done x
unfolding refresh_session get_session get save
get_session-refresh_session now later last ttl token sessions x h t =
    elim (Option-cases (find (has_token token) sessions)) [
      | inl e ↦ absurd (ground arith)
      | inr (y, e) ↦ let it = (find-any (has_token token) sessions y e).1 in ground arith
    ]

-- After a successful InvalidateSession GetSession does not find the token, and answers as before for
-- every other token.
pub get_session-invalidate_session :
    (now : Time) (token other : Text) (sessions : Sessions)
    → (invalidate_session token sessions).0 ≡ done tt
    → (get_session now other (invalidate_session token sessions).1).0
      ≡ (if other == token then fails session_not_found else (get_session now other sessions).0)
unfolding invalidate_session delete get_session get
get_session-invalidate_session now token other sessions h =
    ground (arith, find-keep-others token other sessions, eq_iff other token)

-- A cleanup that ran no later than a lookup does not change whether GetSession finds a session, nor
-- which, where tokens are unique.
pub get_session-cleanup :
    (before now : Time) (token : Text) (sessions : Sessions) (x : Session)
    → IsMap sessions
    → before ≤ now
    → ((get_session now token (cleanup before sessions)).0 ≡ done x)
      ↔ ((get_session now token sessions).0 ≡ done x)
unfolding get_session get cleanup
get_session-cleanup before now token sessions x k h =
    elim (Option-cases (find (has_token token) sessions)) [
      | inl e ↦ let kept = find-keep token (λ y. not (is_over before y)) sessions k in ground arith
      | inr (y, e) ↦
          let kept = find-keep token (λ y. not (is_over before y)) sessions k in ground arith
    ]

-- After InvalidateUserSessions of a user, with an id that is not empty, GetSession finds exactly the
-- sessions of other users that it found before, where tokens are unique.
pub get_session-invalidate_user_sessions :
    (now : Time) (user token : Text) (sessions : Sessions) (x : Session)
    → IsMap sessions
    → is_empty user ≡ false
    → ((get_session now token (invalidate_user_sessions user sessions)).0 ≡ done x)
      ↔ (((get_session now token sessions).0 ≡ done x) × (x.user_id == user ≡ false))
unfolding get_session get invalidate_user_sessions delete_by_user
get_session-invalidate_user_sessions now user token sessions x k e =
    elim (Option-cases (find (has_token token) sessions)) [
      | inl n ↦ let kept = find-keep token (λ y. not (y.user_id == user)) sessions k in ground arith
      | inr (y, n) ↦
          let kept = find-keep token (λ y. not (y.user_id == user)) sessions k in ground arith
    ]
