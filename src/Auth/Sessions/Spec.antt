-- ===== src/Auth/Sessions/Spec.antt =====
-- What the session manager promises: a table from tokens to sessions, without the order of a list.
use rackd.Prelude.{◌+◌, Bool, not, Option, none, some, if◌then◌else◌}
use rackd.Text.{Text, ◌==◌, is_empty}
use rackd.Model.{Time}
use rackd.Auth.Sessions.{
  Session, Outcome, done, fails, session_not_found, session_expired, no_token, is_over,
}
use rackd.Auth.Sessions.Laws.{keep_if}
use rackd.Auth.Sessions.Steps.{
  Request, creates, gets, refreshes, invalidates, invalidates_user, cleans,
}

abbrev pub Table : Type 0
Table = Text → Option Session

abbrev pub put : Session → Table → Table
put x m token = if token == x.token then some x else m token

abbrev pub drop : Text → Table → Table
drop token m other = if other == token then none else m other

abbrev pub only : (Session → Bool) → Table → Table
only q m token = keep_if q (m token)

-- What a request answers, none where it gives no session.
abbrev pub Answer : Type 0
Answer = Outcome (Option Session)

abbrev absent : Table → Answer × Table
absent m = (fails session_not_found, m)

-- A session that is over goes when it is looked for.
abbrev look : Time → Text → Option Session → Table → Answer × Table
look now token none m = absent m
look now token (some x) m =
    if is_over now x then (fails session_expired, drop token m) else (done (some x), m)

abbrev prolong : Time → Time → Text → Option Session → Table → Answer × Table
prolong now end token none m = absent m
prolong now end token (some x) m =
    if is_over now x
    then (fails session_expired, drop token m)
    else (done (some (record x { expires_at = end })), put (record x { expires_at = end }) m)

abbrev remove : Text → Option Session → Table → Answer × Table
remove token none m = absent m
remove token (some x) m = (done none, drop token m)

-- What each request answers, and the table after it.
unfoldable pub spec : Request → Table → Answer × Table
spec (creates now ttl none user name admin) m = (fails no_token, m)
spec (creates now ttl (some token) user name admin) m =
    let new : Session = record {
      token = token;
      user_id = user;
      username = name;
      is_admin = admin;
      created_at = now;
      expires_at = now + ttl;
    } in
    (done (some new), put new m)
spec (gets now token) m = if is_empty token then absent m else look now token (m token) m
spec (refreshes now later ttl token) m =
    if is_empty token then absent m else prolong now (later + ttl) token (m token) m
spec (invalidates token) m = if is_empty token then absent m else remove token (m token) m
spec (invalidates_user user) m =
    (done none, if is_empty user then m else only (λ x. not (x.user_id == user)) m)
spec (cleans now) m = (done none, only (λ x. not (is_over now x)) m)
