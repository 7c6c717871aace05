-- ===== src/Storage/Relationship/Refine.antt =====
-- internal/storage/relationship_sqlite.go: the rows implement the table of notes.
use std.Path.{fun_ext}
use rackd.Prelude.{
  ◌≡◌, refl, ap, ◌∙◌, not, Bool, true, false, none, some, List, [], ◌∷◌, ◌++◌, ◌&&◌, map, keep, any,
  arith, if◌then◌else◌, Bool-cases, inl, inr,
}
use rackd.Text.{Text, ◌==◌, eq_iff}
use rackd.Model.{DeviceRelationship}
use rackd.Store.{Store, Env, enqueue}
use rackd.Storage.Relationship.{
  is_edge, device_exists, set_notes, upsert, add_relationship, remove_relationship,
  update_relationship_notes,
}
use rackd.Storage.Relationship.Spec.{
  Change, adds, renotes, removes, run, Notes, notes_in, notes_of, same_edge, is_some, spec,
}

same_edge-eq :
    (p c t parent child type : Text)
    → same_edge p c t parent child type ≡ true
    → (p ≡ parent) × (c ≡ child) × (t ≡ type)
same_edge-eq p c t parent child type h = (
  (eq_iff p parent).0 (ground (arith)),
  (eq_iff c child).0 (ground (arith)),
  (eq_iff t type).0 (ground (arith)),
)

other_edge :
    (p c t parent child type : Text) (r : DeviceRelationship)
    → same_edge p c t parent child type ≡ false
    → is_edge p c t r ≡ true
    → is_edge parent child type r ≡ false
other_edge p c t parent child type r h e = ground (
  arith,
  eq_iff r.parent_id p,
  eq_iff r.child_id c,
  eq_iff r.type t,
  eq_iff r.parent_id parent,
  eq_iff r.child_id child,
  eq_iff r.type type,
  eq_iff p parent,
  eq_iff c child,
  eq_iff t type,
)

module _ (p c t : Text) where
  set-same :
      (notes : Text) (rows : List DeviceRelationship)
      → notes_in (map (set_notes p c t notes) rows) p c t
        ≡ (if is_some (notes_in rows p c t) then some notes else none)
  set-same notes [] = refl
  set-same notes (r ∷ rows) = ground (arith, set-same notes rows)

  keep-same :
      (rows : List DeviceRelationship)
      → notes_in (keep (λ r. not (is_edge p c t r)) rows) p c t ≡ none
  keep-same [] = refl
  keep-same (r ∷ rows) = ground (arith, keep-same rows)

  module _ (parent child type : Text) (other : same_edge p c t parent child type ≡ false) where
    set-other :
        (notes : Text) (rows : List DeviceRelationship)
        → notes_in (map (set_notes p c t notes) rows) parent child type
          ≡ notes_in rows parent child type
    set-other notes [] = refl
    set-other notes (r ∷ rows) =
        ground (arith, set-other notes rows, other_edge p c t parent child type r other)

    keep-other :
        (rows : List DeviceRelationship)
        → notes_in (keep (λ r. not (is_edge p c t r)) rows) parent child type
          ≡ notes_in rows parent child type
    keep-other [] = refl
    keep-other (r ∷ rows) =
        ground (arith, keep-other rows, other_edge p c t parent child type r other)

any-notes :
    (p c t : Text) (rows : List DeviceRelationship)
    → any (is_edge p c t) rows ≡ is_some (notes_in rows p c t)
any-notes p c t [] = refl
any-notes p c t (r ∷ rows) = ground (arith, any-notes p c t rows)

notes_in-append :
    (parent child type : Text) (r : DeviceRelationship) (rows : List DeviceRelationship)
    → notes_in (rows ++ r ∷ []) parent child type ≡ (
        if is_some (notes_in rows parent child type)
        then notes_in rows parent child type
        else if is_edge parent child type r
        then some r.notes
        else none)
notes_in-append parent child type r [] = ground arith
notes_in-append parent child type r (x ∷ rows) =
    ground (arith, notes_in-append parent child type r rows)

-- Equal keys have equal notes.
notes_in-same :
    (p c t parent child type : Text) (rows : List DeviceRelationship)
    → same_edge p c t parent child type ≡ true
    → notes_in rows p c t ≡ notes_in rows parent child type
notes_in-same p c t parent child type rows h =
    let at = same_edge-eq p c t parent child type h in
    ap (λ x. notes_in rows x c t) at.0
    ∙ ap (λ x. notes_in rows parent x t) at.1
    ∙ ap (λ x. notes_in rows parent child x) at.2

module _ (p c t parent child type : Text) (rows : List DeviceRelationship) where
  set-notes :
      (notes : Text)
      → notes_in (map (set_notes p c t notes) rows) parent child type ≡ (
          if same_edge p c t parent child type && is_some (notes_in rows p c t)
          then some notes
          else notes_in rows parent child type)
  set-notes notes = elim (Bool-cases (same_edge p c t parent child type)) [
    | inl h ↦ ground (
      arith,
      set-same p c t notes rows,
      notes_in-same p c t parent child type (map (set_notes p c t notes) rows) h,
      notes_in-same p c t parent child type rows h,
    )
    | inr h ↦ ground (arith, set-other p c t parent child type h notes rows)
  ]

  keep-notes :
      notes_in (keep (λ r. not (is_edge p c t r)) rows) parent child type
      ≡ (if same_edge p c t parent child type then none else notes_in rows parent child type)
  keep-notes = elim (Bool-cases (same_edge p c t parent child type)) [
    | inl h ↦ ground (
      arith,
      keep-same p c t rows,
      notes_in-same p c t parent child type (keep (λ r. not (is_edge p c t r)) rows) h,
    )
    | inr h ↦ ground (arith, keep-other p c t parent child type h rows)
  ]

append-notes :
    (r : DeviceRelationship) (parent child type : Text) (rows : List DeviceRelationship)
    → is_some (notes_in rows r.parent_id r.child_id r.type) ≡ false
    → notes_in (rows ++ r ∷ []) parent child type
      ≡ (if is_edge parent child type r then some r.notes else notes_in rows parent child type)
append-notes r parent child type rows n = elim (Bool-cases (is_edge parent child type r)) [
  | inl h ↦
      let same = notes_in-same r.parent_id r.child_id r.type parent child type rows h in
      ground (arith, notes_in-append parent child type r rows)
  | inr h ↦ ground (arith, notes_in-append parent child type r rows)
]

abbrev pub here_in : Store → Text → Bool
here_in s id = device_exists id s

notes_of-run :
    (env : Env) (change : Change) (s : Store) (parent child type : Text)
    → notes_of (run env change s) parent child type
      ≡ spec (here_in s) change (notes_of s) parent child type
unfolding add_relationship upsert update_relationship_notes remove_relationship enqueue
notes_of-run env (adds p c t notes) s parent child type =
    elim (Bool-cases (any (is_edge p c t) s.relationships)) [
      | inl h ↦
          let known = any-notes p c t s.relationships in
          ground (arith, set-notes p c t parent child type s.relationships notes)
      | inr h ↦
          let known = any-notes p c t s.relationships in
          let new : DeviceRelationship = record {
            parent_id = p;
            child_id = c;
            type = t;
            notes = notes;
            created_at = env.now;
          } in
          ground (arith, append-notes new parent child type s.relationships)
    ]
notes_of-run env (renotes p c t notes) s parent child type =
    ground (arith, set-notes p c t parent child type s.relationships notes)
notes_of-run env (removes p c t) s parent child type =
    ground (arith, keep-notes p c t parent child type s.relationships)

devices-run : (env : Env) (change : Change) (s : Store) → (run env change s).devices ≡ s.devices
unfolding add_relationship upsert update_relationship_notes remove_relationship enqueue
devices-run env (adds p c t notes) s = ground arith
devices-run env (renotes p c t notes) s = ground arith
devices-run env (removes p c t) s = ground arith

-- The store after some changes, the last one first
abbrev pub run_all : List (Env × Change) → Store → Store
run_all [] s = s
run_all ((env, change) ∷ changes) s = run env change (run_all changes s)

abbrev pub spec_all : (Text → Bool) → List (Env × Change) → Notes → Notes
spec_all here [] old = old
spec_all here ((env, change) ∷ changes) old = spec here change (spec_all here changes old)

devices-run_all :
    (changes : List (Env × Change)) (s : Store) → (run_all changes s).devices ≡ s.devices
devices-run_all [] s = refl
devices-run_all ((env, change) ∷ changes) s =
    devices-run env change (run_all changes s) ∙ devices-run_all changes s

-- After any calls of AddRelationship, UpdateRelationshipNotes and RemoveRelationship, the first row
-- for a parent, a child and a type has the notes of a table with one entry for each of them: an
-- addition sets the notes where the relationship or both devices are there, a change of notes only
-- where the relationship is there, and a removal ends it.
pub relationships_refine :
    (changes : List (Env × Change)) (s : Store)
    → notes_of (run_all changes s) ≡ spec_all (here_in s) changes (notes_of s)
relationships_refine [] s = refl
relationships_refine ((env, change) ∷ changes) s =
    fun_ext (λ parent.
      fun_ext
        (λ child. fun_ext (λ type. notes_of-run env change (run_all changes s) parent child type)))
    ∙ ap
        (λ devices.
          spec (λ id. any (λ d. d.id == id) devices) change (notes_of (run_all changes s)))
        (devices-run_all changes s)
    ∙ ap (spec (here_in s) change) (relationships_refine changes s)
