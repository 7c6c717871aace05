-- ===== src/Storage/Relationship.antt =====
-- internal/storage/relationship_sqlite.go: the rows of device_relationships. GetRelatedDevices is in
-- Storage/Device/Listing.
pub mod Spec
pub mod Refine
use rackd.Prelude.{Bool, not, List, [], ◌∷◌, ◌++◌, map, ◌&&◌, ◌||◌, if◌then◌else◌, any, keep}
use rackd.Text.{Text, codes, ◌==◌}
use rackd.Error.{ok, err, database, foreign_key_failed}
use rackd.Model.{DeviceRelationship}
use rackd.Store.{Store, Env, Exec, ◌>>=◌, ◌>>◌, modify, audit_log}

-- The primary key of the table
abbrev pub is_edge : Text → Text → Text → DeviceRelationship → Bool
is_edge parent child type r = r.parent_id == parent && r.child_id == child && r.type == type

abbrev pub device_exists : Text → Store → Bool
device_exists id s = any (λ d. d.id == id) s.devices

abbrev pub set_notes : Text → Text → Text → Text → DeviceRelationship → DeviceRelationship
set_notes parent child type notes r =
    if is_edge parent child type r then record r { notes = notes } else r

-- INSERT … ON CONFLICT (parent_id, child_id, type) DO UPDATE: the foreign keys are those of a new row.
unfoldable pub upsert : DeviceRelationship → Exec (Unit {0})
upsert r s =
    if any (is_edge r.parent_id r.child_id r.type) s.relationships
    then (
      ok tt,
      record s {
        relationships = map (set_notes r.parent_id r.child_id r.type r.notes) s.relationships;
      },
    )
    else if device_exists r.parent_id s && device_exists r.child_id s
    then (ok tt, record s { relationships = s.relationships ++ r ∷ [] })
    else (err (database foreign_key_failed), s)

abbrev pub edge_name : Text → Text → Text
edge_name parent child = parent ++ codes ":" ++ child

-- AddRelationship
unfoldable pub add_relationship : Env → Text → Text → Text → Text → Exec (Unit {0})
add_relationship env parent child type notes = do
  upsert (record {
    parent_id = parent;
    child_id = child;
    type = type;
    notes = notes;
    created_at = env.now;
  })
  audit_log env (codes "add") (codes "relationship") (edge_name parent child)

-- RemoveRelationship
unfoldable pub remove_relationship : Env → Text → Text → Text → Exec (Unit {0})
remove_relationship env parent child type = do
  modify (λ s. record s {
    relationships = keep (λ r. not (is_edge parent child type r)) s.relationships;
  })
  audit_log env (codes "remove") (codes "relationship") (edge_name parent child)

-- UpdateRelationshipNotes
unfoldable pub update_relationship_notes : Env → Text → Text → Text → Text → Exec (Unit {0})
update_relationship_notes env parent child type notes = do
  modify (λ s. record s { relationships = map (set_notes parent child type notes) s.relationships })
  audit_log env (codes "update") (codes "relationship") (edge_name parent child)

-- GetRelationships, in the order of the table
unfoldable pub get_relationships : Text → Store → List DeviceRelationship
get_relationships device s =
    keep (λ r. r.parent_id == device || r.child_id == device) s.relationships

-- ListAllRelationships, in the order of the table
unfoldable pub list_all_relationships : Store → List DeviceRelationship
list_all_relationships s = s.relationships
