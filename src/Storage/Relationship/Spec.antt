-- ===== src/Storage/Relationship/Spec.antt =====
-- internal/storage/relationship_sqlite.go: the table of notes that the methods promise, with one entry
-- for a parent, a child and a type.
use rackd.Prelude.{Bool, true, false, Option, none, some, List, ◌&&◌, ◌||◌, find, if◌then◌else◌}
use rackd.Text.{Text, ◌==◌}
use rackd.Model.{DeviceRelationship}
use rackd.Store.{Store, Env}
use rackd.Storage.Relationship.{
  is_edge, add_relationship, remove_relationship, update_relationship_notes,
}

pub data Change : Type 0 where
  adds renotes : Text → Text → Text → Text → Change
  removes : Text → Text → Text → Change

abbrev pub run : Env → Change → Store → Store
run env (adds parent child type notes) s = (add_relationship env parent child type notes s).1
run env (renotes parent child type notes) s =
    (update_relationship_notes env parent child type notes s).1
run env (removes parent child type) s = (remove_relationship env parent child type s).1

-- The notes of a relationship; `none` where the devices are not related in this way
abbrev pub Notes : Type 0
Notes = Text → Text → Text → Option Text

abbrev pub notes_in : List DeviceRelationship → Notes
notes_in rows parent child type = elim (find (is_edge parent child type) rows) [
  | none ↦ none
  | some r ↦ some r.notes
]

abbrev pub notes_of : Store → Notes
notes_of s = notes_in s.relationships

abbrev pub same_edge : Text → Text → Text → Text → Text → Text → Bool
same_edge p c t parent child type = p == parent && c == child && t == type

abbrev pub is_some : Option Text → Bool
is_some none = false
is_some (some t) = true

-- What a change makes of the notes, where `here` tells the devices that are there
abbrev pub spec : (Text → Bool) → Change → Notes → Notes
spec here (adds p c t notes) old parent child type =
    if same_edge p c t parent child type && (is_some (old p c t) || (here p && here c))
    then some notes
    else old parent child type
spec here (renotes p c t notes) old parent child type =
    if same_edge p c t parent child type && is_some (old p c t)
    then some notes
    else old parent child type
spec here (removes p c t) old parent child type =
    if same_edge p c t parent child type then none else old parent child type
