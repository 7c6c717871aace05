-- ===== src/Auth/Sessions.antt =====
-- internal/auth/memory_store.go and session.go: sessions by token, with the memory store that
-- NewSessionManager takes when it is given none. The map keeps each session under its own token, so it
-- is the list of its sessions. A locked method is one step.
pub mod Laws
pub mod Steps
pub mod Spec
pub mod Refine
use rackd.Prelude.{
  inl, inr, ◌⊎◌, ℕ, ◌+◌, ◌≡◌, refl, Bool, true, false, not, Option, none, some, List, [], ◌∷◌, ltb,
  if◌then◌else◌, any, keep, find,
}
use rackd.Text.{Text, ◌==◌, is_empty}
use rackd.Model.{Time}

pub record Session : Type 0 where
  pub token : Text
  pub user_id : Text
  pub username : Text
  pub is_admin : Bool
  pub created_at : Time
  pub expires_at : Time

-- `no_token` is a failure of the random source.
pub data SessionError : Type 0 where
  session_not_found session_expired no_token : SessionError

pub data Outcome {ℓ} (A : Type ℓ) : Type ℓ where
  done : A → Outcome A
  fails : SessionError → Outcome A

pub Outcome-cases {ℓ} :
    {A : Type ℓ} (r : Outcome A) → ((a : A) × (r ≡ done a)) ⊎ ((e : SessionError) × (r ≡ fails e))
Outcome-cases (done a) = inl (a, refl)
Outcome-cases (fails e) = inr (e, refl)

-- MemorySessionStore.sessions
abbrev pub Sessions : Type 0
Sessions = List Session

-- A method: its outcome, and the sessions after it.
abbrev pub Action {ℓ} : Type ℓ → Type ℓ
Action A = Sessions → Outcome A × Sessions

abbrev pub has_token : Text → Session → Bool
has_token token x = x.token == token

-- MemorySessionStore.Save
unfoldable pub save : Session → Sessions → Sessions
save session sessions = session ∷ keep (λ x. not (has_token session.token x)) sessions

-- MemorySessionStore.Delete
unfoldable pub delete : Text → Action (Unit {0})
delete token sessions =
    if any (has_token token) sessions
    then (done tt, keep (λ x. not (has_token token x)) sessions)
    else (fails session_not_found, sessions)

-- now.After(session.ExpiresAt)
abbrev pub is_over : Time → Session → Bool
is_over now x = ltb x.expires_at now

-- MemorySessionStore.Get: a session that is over is deleted.
unfoldable pub get : Time → Text → Action Session
get now token sessions = elim (find (has_token token) sessions) [
  | none ↦ (fails session_not_found, sessions)
  | some x ↦
      if is_over now x
      then (fails session_expired, (delete token sessions).1)
      else (done x, sessions)
]

-- MemorySessionStore.DeleteByUser
unfoldable pub delete_by_user : Text → Sessions → Sessions
delete_by_user user sessions = keep (λ x. not (x.user_id == user)) sessions

-- MemorySessionStore.Cleanup
unfoldable pub cleanup : Time → Sessions → Sessions
cleanup now sessions = keep (λ x. not (is_over now x)) sessions

-- SessionManager.CreateSession, with the token that the random source gives
unfoldable pub create_session : Time → ℕ → Option Text → Text → Text → Bool → Action Session
unfolding save
create_session now ttl none user name admin sessions = (fails no_token, sessions)
create_session now ttl (some token) user name admin sessions =
    let new : Session = record {
      token = token;
      user_id = user;
      username = name;
      is_admin = admin;
      created_at = now;
      expires_at = now + ttl;
    } in
    (done new, save new sessions)

-- SessionManager.GetSession
unfoldable pub get_session : Time → Text → Action Session
unfolding get
get_session now token sessions =
    if is_empty token then (fails session_not_found, sessions) else get now token sessions

-- SessionManager.RefreshSession; `later` is the clock after the lookup. The session of the map is
-- the one that Get hands out, and the change reaches it.
unfoldable pub refresh_session : Time → Time → ℕ → Text → Action Session
unfolding get_session save
refresh_session now later ttl token sessions = elim (get_session now token sessions).0 [
  | fails e ↦ (fails e, (get_session now token sessions).1)
  | done x ↦
      let longer = record x { expires_at = later + ttl } in
      (done longer, save longer (get_session now token sessions).1)
]

-- SessionManager.InvalidateSession
unfoldable pub invalidate_session : Text → Action (Unit {0})
unfolding delete
invalidate_session token sessions =
    if is_empty token then (fails session_not_found, sessions) else delete token sessions

-- SessionManager.InvalidateUserSessions
unfoldable pub invalidate_user_sessions : Text → Sessions → Sessions
unfolding delete_by_user
invalidate_user_sessions user sessions =
    if is_empty user then sessions else delete_by_user user sessions
