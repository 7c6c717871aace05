-- ===== src/Service/Conflict/Detect.antt =====
-- internal/service/conflict.go, DetectDuplicateIPs: what a search does to a conflict that is known.
use rackd.Prelude.{
  ◌≡◌, refl, Bool, true, false, not, ◌&&◌, List, [], ◌∷◌, any, keep, map, arith, if◌then◌else◌,
  Bool-cases, inl, inr,
}
use rackd.Text.{Text, ◌==◌, is_empty, eq_iff}
use rackd.Model.Conflict.{Conflict}
use rackd.Store.{Store, Env}
use rackd.Storage.Conflict.{active, set_status, update_conflict_status}
use rackd.Service.Conflict.{refresh}

-- The conflict has notes.
abbrev pub has_notes : Text → Conflict → Bool
has_notes id c = c.id == id && not (is_empty c.notes)

no_notes-set :
    (env : Env) (id other status : Text) (cs : List Conflict)
    → any (has_notes id) cs ≡ false
    → any (has_notes id) (map (set_status env other status [] []) cs) ≡ false
no_notes-set env id other status [] h = refl
no_notes-set env id other status (c ∷ cs) h = ground (arith, no_notes-set env id other status cs)

no_notes-own :
    (env : Env) (id status : Text) (cs : List Conflict)
    → any (has_notes id) (map (set_status env id status [] []) cs) ≡ false
no_notes-own env id status [] = refl
no_notes-own env id status (c ∷ cs) = ground (arith, no_notes-own env id status cs)

-- One round of `refresh`
abbrev pub round : Env → Conflict → Store → Store
round env c s =
    if c.status == active then (update_conflict_status env c.id c.status [] [] s).1 else s

round_keeps :
    (env : Env) (id : Text) (c : Conflict) (s : Store)
    → any (has_notes id) s.conflicts ≡ false
    → any (has_notes id) (round env c s).conflicts ≡ false
unfolding update_conflict_status
round_keeps env id c s h = ground (arith, no_notes-set env id c.id c.status s.conflicts h)

pub refresh_keeps :
    (env : Env) (id : Text) (cs : List Conflict) (s : Store)
    → any (has_notes id) s.conflicts ≡ false
    → any (has_notes id) (refresh env cs s).conflicts ≡ false
unfolding refresh
refresh_keeps env id [] s h = h
refresh_keeps env id (c ∷ cs) s h =
    refresh_keeps env id cs (round env c s) (round_keeps env id c s h)

pub refresh_clears :
    (env : Env) (id : Text) (cs : List Conflict) (s : Store)
    → is_empty id ≡ false
    → any (λ c. c.id == id && c.status == active) cs ≡ true
    → any (has_notes id) (refresh env cs s).conflicts ≡ false
unfolding refresh update_conflict_status
refresh_clears env id [] s n h = absurd (ground arith)
refresh_clears env id (c ∷ cs) s n h = elim (Bool-cases (c.id == id && c.status == active)) [
  | inl e ↦
      let same : c.id ≡ id = (eq_iff c.id id).0 (ground (arith)) in
      refresh_keeps env id cs (round env c s)
        (ground (arith, no_notes-own env id c.status s.conflicts))
  | inr e ↦ refresh_clears env id cs (round env c s) n (ground (arith))
]

pub any-keep_other :
    (p q : Conflict → Bool) (cs : List Conflict)
    → any (λ c. p c && q c) cs ≡ true
    → any p (keep q cs) ≡ true
any-keep_other p q [] h = ground arith
any-keep_other p q (c ∷ cs) h = ground (arith, any-keep_other p q cs)
