-- ===== src/Service/Auth/Laws.antt =====
-- What a login needs, and what it gives.
use rackd.Prelude.{ℕ, ◌+◌, ◌≤◌, ◌≡◌, true, false, some, arith, inl, inr}
use rackd.Text.{Text, is_empty, ==_refl}
use rackd.Error.{ok, Result-cases}
use rackd.Model.{Time}
use rackd.Store.{Store, Env}
use rackd.Storage.User.{get_user_by_username}
use rackd.Service.User.{Bcrypt, verify_password}
use rackd.Service.Auth.{LoginResult, login}
use rackd.Auth.Sessions.{Sessions, create_session, get_session, get, save, done}

-- A Login that succeeds, with a token that is not empty, is of the active user with that name and
-- gave the user's password, and until its end GetSession finds the session of the user for the
-- token.
pub login-verified :
    (bcrypt : Bcrypt) (env : Env) (ttl : ℕ) (token username password : Text) (s : Store)
    (sessions : Sessions) (r : LoginResult) (later : Time)
    → (login bcrypt env ttl (some token) username password (s, sessions)).0 ≡ ok r
    → is_empty token ≡ false
    → later ≤ env.now + ttl
    → (get_user_by_username username s ≡ ok r.user)
      × (r.user.is_active ≡ true)
      × (verify_password bcrypt r.user.password_hash password ≡ true)
      × ((get_session later token
            (login bcrypt env ttl (some token) username password (s, sessions)).1.1).0
          ≡ done r.session)
      × (r.session.user_id ≡ r.user.id)
unfolding login create_session get_session get save
login-verified bcrypt env ttl token username password s sessions r later h full l =
    elim (Result-cases (get_user_by_username username s)) [
      | inl (u, e) ↦ ground (arith, ==_refl token)
      | inr (e, k) ↦ absurd (ground arith)
    ]
