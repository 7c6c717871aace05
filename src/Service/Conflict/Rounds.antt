-- ===== src/Service/Conflict/Rounds.antt =====
-- internal/service/conflict.go, DetectDuplicateIPs: what one round of its loop does to the conflicts of an address.
use rackd.Prelude.{
  ◌≡◌, ◌⊎◌, refl, sym, subst, ap, ◌++◌, ◌||◌, count, nat_eq, ◌∙◌, Bool, true, false, ◌&&◌, List, [],
  ◌∷◌, length, any, keep, map, arith, leb, Bool-cases, inl, inr,
}
use rackd.Text.{Text, ◌==◌, is_empty, eq_iff}
use rackd.Error.{Result, ok, Result-cases}
use rackd.Model.Conflict.{Conflict}
use rackd.Store.{Store, Env, or_uuid}
use rackd.Rows.{any-append, count-append}
use rackd.Storage.Order.{any-sort_by}
use rackd.Storage.Conflict.{
  active, stamp_conflict, create_conflict, set_status, update_conflict_status, get_conflicts_by_ip,
  latest_first,
}
use rackd.Rows.Parts.{some_of_any}
use rackd.Service.Conflict.{refresh, record_duplicate, record_duplicates}
use rackd.Service.Conflict.Detect.{has_notes, round, refresh_keeps, refresh_clears, any-keep_other}

any_weaker :
    (p q : Conflict → Bool) (cs : List Conflict)
    → ((c : Conflict) → p c ≡ true → q c ≡ true)
    → any p cs ≡ true
    → any q cs ≡ true
any_weaker p q [] w h = ground arith
any_weaker p q (c ∷ cs) w h = ground (arith, any_weaker p q cs w, w c)

any_twice : (p : Conflict → Bool) (cs : List Conflict) → any (λ c. p c && p c) cs ≡ any p cs
any_twice p [] = refl
any_twice p (c ∷ cs) = ground (arith, any_twice p cs)

-- The conflict is the active one of the id and has the address.
abbrev pub is_watched : Text → Text → Conflict → Bool
is_watched id ip c = (c.id == id && c.status == active) && c.ip_address == ip

abbrev pub has_ip : Text → Conflict → Bool
has_ip ip c = c.ip_address == ip

watched-set :
    (env : Env) (id ip other status : Text) (cs : List Conflict)
    → status == active ≡ true
    → any (is_watched id ip) cs ≡ true
    → any (is_watched id ip) (map (set_status env other status [] []) cs) ≡ true
watched-set env id ip other status [] a h = h
watched-set env id ip other status (c ∷ cs) a h =
    ground (arith, watched-set env id ip other status cs)

refresh_watched :
    (env : Env) (id ip : Text) (cs : List Conflict) (s : Store)
    → any (is_watched id ip) s.conflicts ≡ true
    → any (is_watched id ip) (refresh env cs s).conflicts ≡ true
unfolding refresh update_conflict_status
refresh_watched env id ip [] s h = h
refresh_watched env id ip (c ∷ cs) s h =
    refresh_watched env id ip cs (round env c s)
      (ground (arith, watched-set env id ip c.id c.status s.conflicts))

count-set :
    (env : Env) (ip id status : Text) (cs : List Conflict)
    → count (has_ip ip) (map (set_status env id status [] []) cs) ≡ count (has_ip ip) cs
count-set env ip id status [] = refl
count-set env ip id status (c ∷ cs) = ground (arith, count-set env ip id status cs)

count-refresh :
    (env : Env) (ip : Text) (cs : List Conflict) (s : Store)
    → count (has_ip ip) (refresh env cs s).conflicts ≡ count (has_ip ip) s.conflicts
unfolding refresh update_conflict_status
count-refresh env ip [] s = refl
count-refresh env ip (c ∷ cs) s =
    count-refresh env ip cs (round env c s)
    ∙ ground (arith, count-set env ip c.id c.status s.conflicts)

-- The conflicts of the address of a found one, as the search sees them
abbrev seen_of : Conflict → Store → List Conflict
seen_of c s = latest_first (keep (has_ip c.ip_address) s.conflicts)

-- An address that has a conflict already is refreshed.
record_duplicate-known :
    (env : Env) (c : Conflict) (s : Store)
    → is_empty c.ip_address ≡ false
    → any (has_ip c.ip_address) s.conflicts ≡ true
    → record_duplicate env c s ≡ (ok tt, refresh env (seen_of c s) s)
unfolding record_duplicate get_conflicts_by_ip
record_duplicate-known env c s full h =
    let there = some_of_any (has_ip c.ip_address) (seen_of c s) (
      any-sort_by (λ a b. leb b.detected_at a.detected_at) (has_ip c.ip_address)
        (keep (has_ip c.ip_address) s.conflicts)
      ∙ any-keep_other (has_ip c.ip_address) (has_ip c.ip_address) s.conflicts
          (any_twice (has_ip c.ip_address) s.conflicts ∙ h)) in
    ground arith

record_duplicate-cases :
    (env : Env) (c : Conflict) (s : Store)
    → ((record_duplicate env c s).1 ≡ refresh env (seen_of c s) s)
      ⊎ (((record_duplicate env c s).1.conflicts ≡ s.conflicts)
          ⊎ ((record_duplicate env c s).1.conflicts ≡ s.conflicts ++ stamp_conflict env c ∷ []))
unfolding record_duplicate get_conflicts_by_ip create_conflict
record_duplicate-cases env c s =
    elim (Bool-cases (is_empty c.ip_address || nat_eq (length (seen_of c s)) 0)) [
      | inl new ↦ elim (Bool-cases (any (λ d. d.id == or_uuid env c.id) s.conflicts)) [
        | inl used ↦ inr (inl (ground (arith)))
        | inr free ↦ inr (inr (ground (arith)))
      ]
      | inr old ↦ inl (ground (arith))
    ]

pub record_duplicate-no_notes :
    (env : Env) (id : Text) (c : Conflict) (s : Store)
    → is_empty c.notes ≡ true
    → any (has_notes id) s.conflicts ≡ false
    → any (has_notes id) (record_duplicate env c s).1.conflicts ≡ false
record_duplicate-no_notes env id c s bare h = elim (record_duplicate-cases env c s) [
  | inl e ↦
      ap (λ (t : Store). any (has_notes id) t.conflicts) e ∙ refresh_keeps env id (seen_of c s) s h
  | inr (inl e) ↦ ap (any (has_notes id)) e ∙ h
  | inr (inr e) ↦
      ap (any (has_notes id)) e
      ∙ ground (arith, any-append (has_notes id) s.conflicts (stamp_conflict env c ∷ []))
]

pub record_duplicate-watched :
    (env : Env) (id ip : Text) (c : Conflict) (s : Store)
    → any (is_watched id ip) s.conflicts ≡ true
    → any (is_watched id ip) (record_duplicate env c s).1.conflicts ≡ true
record_duplicate-watched env id ip c s h = elim (record_duplicate-cases env c s) [
  | inl e ↦
      ap (λ (t : Store). any (is_watched id ip) t.conflicts) e
      ∙ refresh_watched env id ip (seen_of c s) s h
  | inr (inl e) ↦ ap (any (is_watched id ip)) e ∙ h
  | inr (inr e) ↦
      ap (any (is_watched id ip)) e
      ∙ ground (arith, any-append (is_watched id ip) s.conflicts (stamp_conflict env c ∷ []))
]

pub record_duplicate-count :
    (env : Env) (id ip : Text) (c : Conflict) (s : Store)
    → is_empty ip ≡ false
    → any (is_watched id ip) s.conflicts ≡ true
    → count (has_ip ip) (record_duplicate env c s).1.conflicts ≡ count (has_ip ip) s.conflicts
record_duplicate-count env id ip c s full h = elim (Bool-cases (c.ip_address == ip)) [
  | inl same ↦
      let it : c.ip_address ≡ ip = (eq_iff c.ip_address ip).0 same in
      let there = any_weaker (is_watched id ip) (has_ip ip) s.conflicts (λ d k. ground arith) h in
      ap (λ (r : Result (Unit {0}) × Store). count (has_ip ip) r.1.conflicts)
        (record_duplicate-known env c s (subst (λ i. is_empty i ≡ false) (sym it) full)
          (subst (λ i. any (has_ip i) s.conflicts ≡ true) (sym it) there))
      ∙ count-refresh env ip (seen_of c s) s
  | inr other ↦ elim (record_duplicate-cases env c s) [
    | inl e ↦
        ap (λ (t : Store). count (has_ip ip) t.conflicts) e ∙ count-refresh env ip (seen_of c s) s
    | inr (inl e) ↦ ap (count (has_ip ip)) e
    | inr (inr e) ↦
        ap (count (has_ip ip)) e
        ∙ ground (arith, count-append (has_ip ip) s.conflicts (stamp_conflict env c ∷ []))
  ]
]

pub record_duplicate-clears :
    (env : Env) (id ip : Text) (c : Conflict) (s : Store)
    → is_empty ip ≡ false
    → is_empty id ≡ false
    → c.ip_address == ip ≡ true
    → any (is_watched id ip) s.conflicts ≡ true
    → any (has_notes id) (record_duplicate env c s).1.conflicts ≡ false
record_duplicate-clears env id ip c s full n same h =
    let it : c.ip_address ≡ ip = (eq_iff c.ip_address ip).0 same in
    let there = any_weaker (is_watched id ip) (has_ip ip) s.conflicts (λ d k. ground arith) h in
    let listed =
      any-sort_by (λ a b. leb b.detected_at a.detected_at) (λ d. d.id == id && d.status == active)
        (keep (has_ip c.ip_address) s.conflicts)
      ∙ any-keep_other (λ d. d.id == id && d.status == active) (has_ip c.ip_address) s.conflicts
          (subst (λ i. any (is_watched id i) s.conflicts ≡ true) (sym it) h) in
    ap (λ (r : Result (Unit {0}) × Store). any (has_notes id) r.1.conflicts)
      (record_duplicate-known env c s (subst (λ i. is_empty i ≡ false) (sym it) full)
        (subst (λ i. any (has_ip i) s.conflicts ≡ true) (sym it) there))
    ∙ refresh_clears env id (seen_of c s) s n listed

pub record_duplicates-first :
    (env : Env) (c : Conflict) (cs : List Conflict) (s : Store)
    → (record_duplicates env (c ∷ cs) s).0 ≡ ok tt
    → record_duplicates env (c ∷ cs) s ≡ record_duplicates env cs (record_duplicate env c s).1
unfolding record_duplicates
record_duplicates-first env c cs s h = elim (Result-cases (record_duplicate env c s).0) [
  | inl (x, e) ↦ ground arith
  | inr (x, e) ↦ absurd (ground arith)
]
