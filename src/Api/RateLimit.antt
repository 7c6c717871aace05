-- ===== src/Api/RateLimit.antt =====
-- internal/api/ratelimit.go: a bucket of tokens for each client. The map of clients is the list of its
-- buckets, with the latest in front; a call of Allow is one step, since it holds the bucket's lock. A
-- number of requests is not negative: Allow treats a negative one as 0.
pub mod Laws
pub mod Recover
use rackd.Prelude.{
  ℕ, ◌+◌, ◌-◌, ◌*◌, Bool, true, false, not, Option, none, some, List, [], ◌∷◌, ltb, if◌then◌else◌,
  keep, find,
}
use rackd.Text.{Text, ◌==◌}
use rackd.Model.{Time}

pub record Bucket : Type 0 where
  pub client : Text
  pub tokens : ℕ
  pub last_reset : Time

pub record RateLimiter : Type 0 where
  pub clients : List Bucket
  pub requests : ℕ
  pub window : ℕ

-- The readings of the clock in one call: for a new bucket, for time.Since, and for a reset.
pub record Clock : Type 0 where
  pub created : Time
  pub checked : Time
  pub reset : Time

-- NewRateLimiter
unfoldable pub new_rate_limiter : ℕ → ℕ → RateLimiter
new_rate_limiter requests window = record { clients = []; requests = requests; window = window }

abbrev pub is_client : Text → Bucket → Bool
is_client id b = b.client == id

-- clients[clientID], if it is there
unfoldable pub bucket_of : Text → RateLimiter → Option Bucket
bucket_of id rl = find (is_client id) rl.clients

-- The bucket of the call, a full one for a new client.
abbrev pub bucket_or_new : Time → Text → RateLimiter → Option Bucket → Bucket
bucket_or_new now id rl none = record { client = id; tokens = rl.requests; last_reset = now }
bucket_or_new now id rl (some b) = b

-- time.Since(bucket.lastReset) > rl.window
abbrev pub is_expired_bucket : Time → RateLimiter → Bucket → Bool
is_expired_bucket now rl b = ltb rl.window (now - b.last_reset)

unfoldable pub refill : Clock → RateLimiter → Bucket → Bucket
refill clock rl b =
    if is_expired_bucket clock.checked rl b
    then record b { tokens = rl.requests; last_reset = clock.reset }
    else b

abbrev pub put_bucket : Bucket → RateLimiter → RateLimiter
put_bucket b rl = record rl { clients = b ∷ keep (λ c. not (is_client b.client c)) rl.clients }

-- Allow
unfoldable pub allow : Clock → Text → RateLimiter → Bool × RateLimiter
unfolding bucket_of refill
allow clock id rl =
    let b = refill clock rl (bucket_or_new clock.created id rl (bucket_of id rl)) in
    if ltb 0 b.tokens
    then (true, put_bucket (record b { tokens = b.tokens - 1 }) rl)
    else (false, put_bucket b rl)

-- GetRemaining
unfoldable pub get_remaining : Time → Text → RateLimiter → ℕ
unfolding bucket_of
get_remaining now id rl = elim (bucket_of id rl) [
  | none ↦ rl.requests
  | some b ↦ if is_expired_bucket now rl b then rl.requests else b.tokens
]

-- GetResetTime
unfoldable pub get_reset_time : Time → Text → RateLimiter → Time
unfolding bucket_of
get_reset_time now id rl = elim (bucket_of id rl) [
  | none ↦ now + rl.window
  | some b ↦ b.last_reset + rl.window
]

-- One tick of cleanupLoop, whose period is twice the window
unfoldable pub cleanup_clients : Time → RateLimiter → RateLimiter
cleanup_clients now rl = record rl {
  clients = keep (λ b. not (ltb (rl.window * 2) (now - b.last_reset))) rl.clients;
}
