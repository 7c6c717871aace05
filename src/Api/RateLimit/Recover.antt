-- ===== src/Api/RateLimit/Recover.antt =====
-- A client that was refused is let through again.
use rackd.Prelude.{
  ℕ, ◌-◌, ◌*◌, ◌≤◌, ◌<◌, ◌≡◌, refl, sym, subst, ap, ◌∙◌, Bool, true, false, not, some, List, [],
  ◌∷◌, arith, ltb, if◌then◌else◌, All, Bool-cases, inl, inr,
}
use rackd.Text.{Text, ◌==◌, eq_iff}
use rackd.Rows.{find-keep-kept}
use rackd.Model.{Time}
use rackd.Api.RateLimit.{
  Bucket, RateLimiter, Clock, is_client, bucket_of, refill, allow, cleanup_clients,
}
use rackd.Api.RateLimit.Laws.{InWindow, allow-some, allow-put_bucket, bucket_of-put_bucket}

-- A call of Allow for a client, or a tick of the cleanup
pub data Event : Type 0 where
  calls : Clock → Text → Event
  ticks : Time → Event

abbrev pub after : Event → RateLimiter → RateLimiter
after (calls c id) rl = (allow c id rl).1
after (ticks now) rl = cleanup_clients now rl

abbrev pub after_events : List Event → RateLimiter → RateLimiter
after_events [] rl = rl
after_events (e ∷ es) rl = after_events es (after e rl)

-- The client's own calls fall into the window of its bucket, and the cleanup comes within two windows.
abbrev pub IsEarly : Text → ℕ → Time → Event → Type 0
IsEarly id window start (calls c other) = if other == id then InWindow window start c else Unit
IsEarly id window start (ticks now) = now - start ≤ window * 2

-- The limiter has a bucket of the client that began then, with any tokens.
abbrev Holds : Text → ℕ → ℕ → Time → RateLimiter → Type 0
Holds id requests window start rl =
    (rl.requests ≡ requests)
    × (rl.window ≡ window)
    × ((b : Bucket) × (bucket_of id rl ≡ some b) × (b.last_reset ≡ start))

settings-allow :
    (c : Clock) (id : Text) (rl : RateLimiter)
    → ((allow c id rl).1.requests ≡ rl.requests) × ((allow c id rl).1.window ≡ rl.window)
settings-allow c id rl =
    let (b, own, put) = allow-put_bucket c id rl in
    (ap (λ r. r.requests) put, ap (λ r. r.window) put)

own_call-Holds :
    (c : Clock) (id : Text) (requests window : ℕ) (start : Time) (rl : RateLimiter)
    → InWindow window start c
    → Holds id requests window start rl
    → Holds id requests window start (allow c id rl).1
own_call-Holds c id requests window start rl h (r, w, (b, e, s)) =
    let (through, left, same) = allow-some c id rl b e (omega (arith, h, w, s)) in
    let (requests_same, window_same) = settings-allow c id rl in
    (requests_same ∙ r, window_same ∙ w, (record b { tokens = b.tokens - 1 }, left, s))

other_call-Holds :
    (c : Clock) (id other : Text) (requests window : ℕ) (start : Time) (rl : RateLimiter)
    → other == id ≡ false
    → Holds id requests window start rl
    → Holds id requests window start (allow c other rl).1
other_call-Holds c id other requests window start rl n (r, w, (b, e, s)) =
    let (b2, own, put) = allow-put_bucket c other rl in
    let (requests_same, window_same) = settings-allow c other rl in
    let differs : id == other ≡ false = ground (arith, eq_iff id other, eq_iff other id) in
    (
      requests_same ∙ r,
      window_same ∙ w,
      (b, ap (bucket_of id) put ∙ bucket_of-put_bucket b2 other id rl own differs ∙ e, s),
    )

tick-Holds :
    (now : Time) (id : Text) (requests window : ℕ) (start : Time) (rl : RateLimiter)
    → now - start ≤ window * 2
    → Holds id requests window start rl
    → Holds id requests window start (cleanup_clients now rl)
unfolding cleanup_clients bucket_of
tick-Holds now id requests window start rl h (r, w, (b, e, s)) =
    let recent : not (ltb (rl.window * 2) (now - b.last_reset)) ≡ true = ground arith in
    (
      r,
      w,
      (
        b,
        find-keep-kept (is_client id) (λ d. not (ltb (rl.window * 2) (now - d.last_reset)))
            rl.clients b e recent,
        s,
      ),
    )

after-Holds :
    (id : Text) (requests window : ℕ) (start : Time) (e : Event) (rl : RateLimiter)
    → IsEarly id window start e
    → Holds id requests window start rl
    → Holds id requests window start (after e rl)
after-Holds id requests window start (calls c other) rl h k = elim (Bool-cases (other == id)) [
  | inl m ↦
      let same : other ≡ id = (eq_iff other id).0 m in
      let early : InWindow window start c =
        subst (λ (b : Bool). if b then InWindow window start c else Unit) m h in
      subst (λ t. Holds id requests window start (allow c t rl).1) (sym same)
        (own_call-Holds c id requests window start rl early k)
  | inr m ↦ other_call-Holds c id other requests window start rl m k
]
after-Holds id requests window start (ticks now) rl h k =
    tick-Holds now id requests window start rl h k

after_events-Holds :
    (id : Text) (requests window : ℕ) (start : Time) (es : List Event) (rl : RateLimiter)
    → All (IsEarly id window start) es
    → Holds id requests window start rl
    → Holds id requests window start (after_events es rl)
after_events-Holds id requests window start [] rl h k = k
after_events-Holds id requests window start (e ∷ es) rl (h, hs) k =
    after_events-Holds id requests window start es (after e rl) hs
      (after-Holds id requests window start e rl h k)

allow-late :
    (c : Clock) (id : Text) (requests window : ℕ) (start : Time) (rl : RateLimiter)
    → Holds id requests window start rl
    → 0 < requests
    → window < c.checked - start
    → (allow c id rl).0 ≡ true
unfolding allow refill
allow-late c id requests window start rl (r, w, (b, e, s)) some_requests late = ground arith

-- Where a limiter allows any requests, a client's request is let through once the window of its
-- bucket is over, whatever calls of it in that window, of others at any time, and cleanups within
-- two windows came before.
pub allow_again :
    (id : Text) (b : Bucket) (es : List Event) (c : Clock) (rl : RateLimiter)
    → bucket_of id rl ≡ some b
    → 0 < rl.requests
    → All (IsEarly id rl.window b.last_reset) es
    → rl.window < c.checked - b.last_reset
    → (allow c id (after_events es rl)).0 ≡ true
allow_again id b es c rl e some_requests early late =
    allow-late c id rl.requests rl.window b.last_reset (after_events es rl)
      (after_events-Holds id rl.requests rl.window b.last_reset es rl early
        (refl, refl, (b, e, refl)))
      some_requests late
