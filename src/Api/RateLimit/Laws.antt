-- ===== src/Api/RateLimit/Laws.antt =====
-- How many requests the limiter lets through.
use rackd.Prelude.{
  ℕ, ◌+◌, ◌-◌, ◌≤◌, ◌≡◌, refl, sym, subst, min, false, not, Option, none, some, List, [], ◌∷◌,
  arith, ltb, if◌then◌else◌, length, keep, find, All, Bool-cases, inl, inr,
}
use rackd.Text.{Text, ◌==◌, eq_iff, ==_sound}
use rackd.Rows.{find-any}
use rackd.Model.{Time}
use rackd.Api.RateLimit.{
  Bucket, RateLimiter, Clock, is_client, bucket_of, bucket_or_new, refill, put_bucket, allow,
  get_remaining,
}

-- The calls of one client in turn: how many are allowed, and the limiter after them.
unfoldable pub allow_all : Text → List Clock → RateLimiter → ℕ × RateLimiter
allow_all id [] rl = (0, rl)
allow_all id (c ∷ cs) rl =
    let step = allow c id rl in
    let rest = allow_all id cs step.1 in ((if step.0 then 1 else 0) + rest.0, rest.1)

-- A call within the window of the client's bucket.
abbrev pub InWindow : ℕ → Time → Clock → Type 0
InWindow window start c = c.checked - start ≤ window

pub allow-some :
    (c : Clock) (id : Text) (rl : RateLimiter) (b : Bucket)
    → bucket_of id rl ≡ some b
    → InWindow rl.window b.last_reset c
    → ((allow c id rl).0 ≡ ltb 0 b.tokens)
      × (bucket_of id (allow c id rl).1 ≡ some (record b { tokens = b.tokens - 1 }))
      × ((allow c id rl).1.window ≡ rl.window)
unfolding allow bucket_of refill
allow-some c id rl b e w = let it = (find-any (is_client id) rl.clients b e).1 in ground (arith, it)

-- While the window of a client's bucket lasts, exactly as many of the client's requests are allowed
-- as the bucket has tokens, or all if there are fewer.
pub allow_all-min :
    (id : Text) (cs : List Clock) (rl : RateLimiter) (b : Bucket)
    → bucket_of id rl ≡ some b
    → All (InWindow rl.window b.last_reset) cs
    → (allow_all id cs rl).0 ≡ min (length cs) b.tokens
unfolding allow_all
allow_all-min id [] rl b e w = omega arith
allow_all-min id (c ∷ cs) rl b e (h, w) =
    let (let_through, left, same) = allow-some c id rl b e h in
    let rest =
      allow_all-min id cs (allow c id rl).1 (record b { tokens = b.tokens - 1 }) left
        (subst (λ n. All (InWindow n b.last_reset) cs) (sym same) w) in
    ground arith

find-keep-others :
    (id other : Text) (bs : List Bucket)
    → other == id ≡ false
    → find (is_client other) (keep (λ b. not (is_client id b)) bs) ≡ find (is_client other) bs
find-keep-others id other [] n = refl
find-keep-others id other (b ∷ bs) n = ground (
  arith,
  find-keep-others id other bs n,
  eq_iff b.client other,
  eq_iff b.client id,
  eq_iff other id,
)

-- The lookup of another client does not see the bucket that is put.
pub bucket_of-put_bucket :
    (b : Bucket) (id other : Text) (rl : RateLimiter)
    → b.client ≡ id
    → other == id ≡ false
    → bucket_of other (put_bucket b rl) ≡ bucket_of other rl
unfolding bucket_of
bucket_of-put_bucket b id other rl e n =
    let differs : other == b.client ≡ false = subst (λ t. other == t ≡ false) (sym e) n in
    ground (
      arith,
      find-keep-others b.client other rl.clients differs,
      eq_iff b.client other,
      eq_iff other b.client,
    )

client-bucket_or_new :
    (now : Time) (id : Text) (rl : RateLimiter) (o : Option Bucket)
    → bucket_of id rl ≡ o
    → (bucket_or_new now id rl o).client ≡ id
unfolding bucket_of
client-bucket_or_new now id rl none e = refl
client-bucket_or_new now id rl (some b) e =
    ==_sound b.client id (find-any (is_client id) rl.clients b e).1

-- A call puts one bucket, the caller's.
pub allow-put_bucket :
    (c : Clock) (id : Text) (rl : RateLimiter)
    → (b : Bucket) × (b.client ≡ id) × ((allow c id rl).1 ≡ put_bucket b rl)
unfolding allow refill
allow-put_bucket c id rl =
    let b = refill c rl (bucket_or_new c.created id rl (bucket_of id rl)) in
    let own = client-bucket_or_new c.created id rl (bucket_of id rl) refl in
    elim (Bool-cases (ltb 0 b.tokens)) [
      | inl e ↦ (record b { tokens = b.tokens - 1 }, ground (arith, own), ground arith)
      | inr e ↦ (b, ground (arith, own), ground arith)
    ]

-- A request of one client leaves what GetRemaining says of every other client as it was.
pub get_remaining-allow :
    (c : Clock) (now : Time) (id other : Text) (rl : RateLimiter)
    → other == id ≡ false
    → get_remaining now other (allow c id rl).1 ≡ get_remaining now other rl
unfolding get_remaining
get_remaining-allow c now id other rl n =
    let (b, own, put) = allow-put_bucket c id rl in
    let same = bucket_of-put_bucket b id other rl own n in
    subst (λ t. get_remaining now other t ≡ get_remaining now other rl) (sym put) (ground arith)
