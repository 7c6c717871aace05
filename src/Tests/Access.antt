-- ===== src/Tests/Access.antt =====
-- Sessions and rate limits at small inputs.
use rackd.Prelude.{ℕ, ◌≡◌, refl, All, true, false, some, [], ◌∷◌, List, arith}
use rackd.Text.{codes, ◌==◌}
use rackd.Auth.Sessions.{
  Session, Sessions, has_token, save, delete, get, create_session, get_session, refresh_session,
  invalidate_session,
}
use rackd.Auth.Sessions.Spec.{spec}
use rackd.Auth.Sessions.Refine.{answer, view, spec_all, sessions_refine}
use rackd.Auth.Sessions.Steps.{creates, gets, after_all, Request}
use rackd.Api.RateLimit.{RateLimiter, Clock, bucket_of, allow}
use rackd.Api.RateLimit.Recover.{Event, calls, ticks, IsEarly, after_events, allow_again}

abbrev ann_session : Session
ann_session = record {
  token = codes "t1";
  user_id = codes "ann";
  username = codes "ann";
  is_admin = false;
  created_at = 10;
  expires_at = 40;
}

abbrev bob_session : Session
bob_session = record ann_session {
  token = codes "t2";
  user_id = codes "bob";
  username = codes "bob";
}

abbrev two_sessions : Sessions
two_sessions = ann_session ∷ bob_session ∷ []

runs : Unit {0}
unfolding ◌==◌ save delete get create_session get_session refresh_session invalidate_session
    bucket_of
runs = tt

fresh_token : (has_token (codes "t1") bob_session) ≡ false
unfolding runs
fresh_token = refl

-- The random source gives the same token twice.
abbrev twice : List Request
twice =
    creates 20 30 (some (codes "t1")) (codes "bob") (codes "bob") false
    ∷ creates 10 30 (some (codes "t1")) (codes "ann") (codes "ann") false
    ∷ []

-- A request after a session was made
sessions_refine_example :
    (answer (gets 15 (codes "t1")) (after_all twice)
      ≡ (spec (gets 15 (codes "t1")) (spec_all twice)).0)
    × (view (after_all (gets 15 (codes "t1") ∷ twice))
        ≡ (spec (gets 15 (codes "t1")) (spec_all twice)).1)
sessions_refine_example = sessions_refine twice (gets 15 (codes "t1"))

abbrev limiter : RateLimiter
limiter = record {
  clients = record { client = codes "c1"; tokens = 2; last_reset = 100 } ∷ [];
  requests = 5;
  window = 60;
}

abbrev at : ℕ → Clock
at t = record { created = t; checked = t; reset = t }

bucket_test :
    bucket_of (codes "c1") limiter
    ≡ some (record { client = codes "c1"; tokens = 2; last_reset = 100 })
unfolding runs
bucket_test = refl

other_client : codes "c2" == codes "c1" ≡ false
unfolding runs
other_client = refl

-- The client is refused twice, another client calls, and the cleanup runs.
abbrev used_up : RateLimiter
used_up = record limiter {
  clients = record { client = codes "c1"; tokens = 0; last_reset = 100 } ∷ [];
}

abbrev busy : List Event
busy =
    calls (at 110) (codes "c1")
    ∷ calls (at 120) (codes "c2")
    ∷ ticks 130
    ∷ calls (at 160) (codes "c1")
    ∷ []

used_up_bucket :
    bucket_of (codes "c1") used_up
    ≡ some (record { client = codes "c1"; tokens = 0; last_reset = 100 })
unfolding runs
used_up_bucket = refl

busy-IsEarly : All (IsEarly (codes "c1") 60 100) busy
unfolding runs
busy-IsEarly = (omega arith, (tt, (omega arith, (omega arith, tt))))

allow_again_example : (allow (at 161) (codes "c1") (after_events busy used_up)).0 ≡ true
allow_again_example =
    allow_again (codes "c1") (record { client = codes "c1"; tokens = 0; last_reset = 100 }) busy
      (at 161) used_up used_up_bucket (omega arith) busy-IsEarly (omega arith)
