-- ===== src/Auth/Sessions/Refine.antt =====
-- The memory store and the session manager implement the table of sessions.
use std.Path.{fun_ext}
use rackd.Prelude.{
  ◌≡◌, refl, ap, ◌∙◌, not, none, some, List, [], ◌∷◌, find, arith, Option-cases, inl, inr,
}
use rackd.Text.{Text, ◌==◌, eq_iff}
use rackd.Rows.{find-any, any_of_find}
use rackd.Auth.Sessions.{
  Session, Sessions, Outcome, done, fails, is_over, has_token, save, delete, get, cleanup,
  create_session, get_session, refresh_session, invalidate_session, invalidate_user_sessions,
  delete_by_user,
}
use rackd.Auth.Sessions.Steps.{
  Request, creates, gets, refreshes, invalidates, invalidates_user, cleans, run, after_all,
  after_all-IsMap,
}
use rackd.Auth.Sessions.Laws.{IsMap, find-keep, find-keep-others}
use rackd.Auth.Sessions.Spec.{Table, Answer, spec}

-- The table that a list of sessions stands for
abbrev pub view : Sessions → Table
view s token = find (has_token token) s

abbrev session_answer : Outcome Session → Answer
session_answer (done x) = done (some x)
session_answer (fails e) = fails e

abbrev unit_answer : Outcome (Unit {0}) → Answer
unit_answer (done t) = done none
unit_answer (fails e) = fails e

-- What the request answers with
abbrev pub answer : Request → Sessions → Answer
answer (creates now ttl token user name admin) s =
    session_answer (create_session now ttl token user name admin s).0
answer (gets now token) s = session_answer (get_session now token s).0
answer (refreshes now later ttl token) s = session_answer (refresh_session now later ttl token s).0
answer (invalidates token) s = unit_answer (invalidate_session token s).0
answer (invalidates_user user) s = done none
answer (cleans now) s = done none

answer-spec : (q : Request) (s : Sessions) → answer q s ≡ (spec q (view s)).0
unfolding spec create_session get_session get refresh_session invalidate_session delete
answer-spec (creates now ttl none user name admin) s = refl
answer-spec (creates now ttl (some token) user name admin) s = refl
answer-spec (gets now token) s = ground arith
answer-spec (refreshes now later ttl token) s = ground arith
answer-spec (invalidates token) s = elim (Option-cases (find (has_token token) s)) [
  | inl e ↦ let none_there = any_of_find (has_token token) s e in ground arith
  | inr (x, e) ↦ let it = (find-any (has_token token) s x e).0 in ground arith
]
answer-spec (invalidates_user user) s = refl
answer-spec (cleans now) s = refl

view-run :
    (q : Request) (s : Sessions) (other : Text)
    → IsMap s
    → view (run q s) other ≡ (spec q (view s)).1 other
unfolding spec create_session get_session get refresh_session invalidate_session delete save cleanup
    invalidate_user_sessions delete_by_user
view-run (creates now ttl none user name admin) s other k = refl
view-run (creates now ttl (some token) user name admin) s other k =
    ground (arith, find-keep-others token other s, eq_iff token other, eq_iff other token)
view-run (gets now token) s other k = elim (Option-cases (find (has_token token) s)) [
  | inl e ↦ ground arith
  | inr (x, e) ↦
      let it = (find-any (has_token token) s x e).0 in
      ground (arith, find-keep-others token other s)
]
view-run (refreshes now later ttl token) s other k =
    elim (Option-cases (find (has_token token) s)) [
      | inl e ↦ ground arith
      | inr (x, e) ↦
          let it = find-any (has_token token) s x e in
          ground (
            arith,
            find-keep-others token other s,
            find-keep-others x.token other s,
            eq_iff x.token token,
            eq_iff other x.token,
            eq_iff x.token other,
          )
    ]
view-run (invalidates token) s other k = elim (Option-cases (find (has_token token) s)) [
  | inl e ↦ let none_there = any_of_find (has_token token) s e in ground arith
  | inr (x, e) ↦
      let it = (find-any (has_token token) s x e).0 in
      ground (arith, find-keep-others token other s)
]
view-run (invalidates_user user) s other k =
    ground (arith, find-keep other (λ x. not (x.user_id == user)) s k)
view-run (cleans now) s other k = ground (arith, find-keep other (λ x. not (is_over now x)) s k)

view-spec : (q : Request) (s : Sessions) → IsMap s → view (run q s) ≡ (spec q (view s)).1
view-spec q s k = fun_ext (λ other. view-run q s other k)

-- The table after a list of requests, from an empty one
abbrev pub spec_all : List Request → Table
spec_all [] = λ token. none
spec_all (q ∷ qs) = (spec q (spec_all qs)).1

view-after_all : (qs : List Request) → view (after_all qs) ≡ spec_all qs
unfolding after_all
view-after_all [] = refl
view-after_all (q ∷ qs) =
    view-spec q (after_all qs) (after_all-IsMap qs) ∙ ap (λ m. (spec q m).1) (view-after_all qs)

-- After any requests to the session manager, each request answers, and changes the sessions, as the
-- table from tokens to sessions does that starts empty and knows no order.
pub sessions_refine :
    (qs : List Request) (q : Request)
    → (answer q (after_all qs) ≡ (spec q (spec_all qs)).0)
      × (view (after_all (q ∷ qs)) ≡ (spec q (spec_all qs)).1)
sessions_refine qs q = (
  answer-spec q (after_all qs) ∙ ap (λ m. (spec q m).0) (view-after_all qs),
  view-after_all (q ∷ qs),
)
