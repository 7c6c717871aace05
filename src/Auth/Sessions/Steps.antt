-- ===== src/Auth/Sessions/Steps.antt =====
-- Histories of the session manager.
use rackd.Prelude.{
  subst, sym, ◌⊎◌, ◌≤◌, ◌+◌, count, ℕ, ◌≡◌, refl, Bool, false, not, Option, none, some, List, [],
  ◌∷◌, arith, any, keep, inl, inr, Bool-cases,
}
use rackd.Text.{Text, eq_iff}
use rackd.Rows.{count_of_none}
use rackd.Model.{Time}
use rackd.Auth.Sessions.{
  SessionError, Outcome-cases, Session, Sessions, done, fails, has_token, save, delete, get,
  cleanup, create_session, get_session, refresh_session, invalidate_session,
  invalidate_user_sessions, delete_by_user,
}
use rackd.Auth.Sessions.Laws.{IsMap}

-- The sessions after one method of the manager or one tick of its cleanup.
pub data Request : Type 0 where
  creates : Time → ℕ → Option Text → Text → Text → Bool → Request
  gets : Time → Text → Request
  refreshes : Time → Time → ℕ → Text → Request
  invalidates : Text → Request
  invalidates_user : Text → Request
  cleans : Time → Request

abbrev pub run : Request → Sessions → Sessions
run (creates now ttl token user name admin) s = (create_session now ttl token user name admin s).1
run (gets now token) s = (get_session now token s).1
run (refreshes now later ttl token) s = (refresh_session now later ttl token s).1
run (invalidates token) s = (invalidate_session token s).1
run (invalidates_user user) s = invalidate_user_sessions user s
run (cleans now) s = cleanup now s

-- The sessions after a list of requests, from an empty store.
unfoldable pub after_all : List Request → Sessions
after_all [] = []
after_all (q ∷ qs) = run q (after_all qs)

any-keep-none :
    (p q : Session → Bool) (xs : Sessions) → any p xs ≡ false → any p (keep q xs) ≡ false
any-keep-none p q [] h = refl
any-keep-none p q (x ∷ xs) h = ground (arith, any-keep-none p q xs)

keep-IsMap : (q : Session → Bool) (xs : Sessions) → IsMap xs → IsMap (keep q xs)
keep-IsMap q [] k = tt
keep-IsMap q (x ∷ xs) (fresh, k) = elim (Bool-cases (q x)) [
  | inl e ↦ rw e (any-keep-none (has_token x.token) q xs fresh, keep-IsMap q xs k)
  | inr e ↦ rw e (keep-IsMap q xs k)
]

any-others :
    (token : Text) (xs : Sessions)
    → any (has_token token) (keep (λ x. not (has_token token x)) xs) ≡ false
any-others token [] = refl
any-others token (x ∷ xs) = ground (arith, any-others token xs)

save-IsMap : (x : Session) (xs : Sessions) → IsMap xs → IsMap (save x xs)
unfolding save
save-IsMap x xs k = (any-others x.token xs, keep-IsMap _ xs k)

delete-IsMap : (token : Text) (xs : Sessions) → IsMap xs → IsMap (delete token xs).1
unfolding delete
delete-IsMap token xs k = elim (Bool-cases (any (has_token token) xs)) [
  | inl e ↦ rw e (keep-IsMap _ xs k)
  | inr e ↦ rw e k
]

get_left :
    (now : Time) (token : Text) (xs : Sessions)
    → ((get now token xs).1 ≡ xs) ⊎ ((get now token xs).1 ≡ (delete token xs).1)
unfolding get
get_left now token xs = ground arith

get-IsMap : (now : Time) (token : Text) (xs : Sessions) → IsMap xs → IsMap (get now token xs).1
get-IsMap now token xs k = elim (get_left now token xs) [
  | inl e ↦ subst IsMap (sym e) k
  | inr e ↦ subst IsMap (sym e) (delete-IsMap token xs k)
]

get_session-IsMap :
    (now : Time) (token : Text) (xs : Sessions) → IsMap xs → IsMap (get_session now token xs).1
unfolding get_session
get_session-IsMap now [] xs k = k
get_session-IsMap now (c ∷ token) xs k = get-IsMap now (c ∷ token) xs k

refresh_session-done :
    (now later : Time) (ttl : ℕ) (token : Text) (xs : Sessions) (x : Session)
    → (get_session now token xs).0 ≡ done x
    → (refresh_session now later ttl token xs).1
      ≡ save (record x { expires_at = later + ttl }) (get_session now token xs).1
unfolding refresh_session
refresh_session-done now later ttl token xs x h = ground arith

refresh_session-fails :
    (now later : Time) (ttl : ℕ) (token : Text) (xs : Sessions) (e : SessionError)
    → (get_session now token xs).0 ≡ fails e
    → (refresh_session now later ttl token xs).1 ≡ (get_session now token xs).1
unfolding refresh_session
refresh_session-fails now later ttl token xs e h = ground arith

refresh_session-IsMap :
    (now later : Time) (ttl : ℕ) (token : Text) (xs : Sessions)
    → IsMap xs
    → IsMap (refresh_session now later ttl token xs).1
refresh_session-IsMap now later ttl token xs k =
    let found = get_session-IsMap now token xs k in
    elim (Outcome-cases (get_session now token xs).0) [
      | inl (x, e) ↦
          subst IsMap (sym (refresh_session-done now later ttl token xs x e))
            (save-IsMap (record x { expires_at = later + ttl }) (get_session now token xs).1 found)
      | inr (r, e) ↦ subst IsMap (sym (refresh_session-fails now later ttl token xs r e)) found
    ]

run-IsMap : (q : Request) (xs : Sessions) → IsMap xs → IsMap (run q xs)
unfolding create_session refresh_session invalidate_session invalidate_user_sessions delete_by_user
    cleanup
run-IsMap (creates now ttl none user name admin) xs k = k
run-IsMap (creates now ttl (some token) user name admin) xs k =
    save-IsMap
      (record {
        token = token;
        user_id = user;
        username = name;
        is_admin = admin;
        created_at = now;
        expires_at = now + ttl;
      })
      xs k
run-IsMap (gets now token) xs k = get_session-IsMap now token xs k
run-IsMap (refreshes now later ttl token) xs k = refresh_session-IsMap now later ttl token xs k
run-IsMap (invalidates []) xs k = k
run-IsMap (invalidates (c ∷ token)) xs k = delete-IsMap (c ∷ token) xs k
run-IsMap (invalidates_user []) xs k = k
run-IsMap (invalidates_user (c ∷ user)) xs k = keep-IsMap _ xs k
run-IsMap (cleans now) xs k = keep-IsMap _ xs k

pub after_all-IsMap : (qs : List Request) → IsMap (after_all qs)
unfolding after_all
after_all-IsMap [] = tt
after_all-IsMap (q ∷ qs) = run-IsMap q (after_all qs) (after_all-IsMap qs)

count_of_IsMap : (token : Text) (xs : Sessions) → IsMap xs → count (has_token token) xs ≤ 1
count_of_IsMap token [] k = omega arith
count_of_IsMap token (x ∷ xs) (fresh, k) = elim (Bool-cases (has_token token x)) [
  | inl e ↦
      let no_other =
        count_of_none (has_token token) xs
          (subst (λ t. any (has_token t) xs ≡ false) ((eq_iff x.token token).0 e) fresh) in
      ground arith
  | inr e ↦ ground (arith, count_of_IsMap token xs k)
]

-- After any requests to the session manager from its start, cleanups included, at most one session
-- has a given token.
pub one_session_per_token :
    (qs : List Request) (token : Text) → count (has_token token) (after_all qs) ≤ 1
one_session_per_token qs token = count_of_IsMap token (after_all qs) (after_all-IsMap qs)
