-- ===== src/Service/Relationship.antt =====
-- internal/service/relationship.go: the guards in front of the storage of relationships.
use rackd.Prelude.{List, not, ◌||◌}
use rackd.Text.{Text, codes, ◌==◌, is_empty}
use rackd.Error.{Error, device_not_found, not_found, invalid, map_error}
use rackd.Model.{DeviceRelationship}
use rackd.Store.{Env, Exec, ask, ◌>>◌, fail_if}
use rackd.Storage.Relationship.{
  add_relationship, remove_relationship, update_relationship_notes, get_relationships,
  list_all_relationships,
}
use rackd.Model.Device.{Device}
use rackd.Storage.Device.Listing.{get_related_devices}
use rackd.Service.Access.{require_permission, enrich_audit}

abbrev as_not_found : Error → Error
as_not_found device_not_found = not_found
as_not_found e = e

abbrev on_error : (Error → Error) → Exec (Unit {0}) → Exec (Unit {0})
on_error f m s = (map_error f (m s).0, (m s).1)

abbrev permit : Env → Text → Exec (Unit {0})
permit env action = require_permission env (codes "relationships") action

-- The tests that Add, UpdateNotes and Remove begin with
abbrev check_edge : Text → Text → Text → Exec (Unit {0})
check_edge parent child type = do
  fail_if (is_empty parent) (invalid "parent_id" "Parent ID is required")
  fail_if (is_empty child) (invalid "child_id" "Child ID is required")
  fail_if (is_empty type) (invalid "type" "Relationship type is required")

-- ListAll
unfoldable pub list_all : Env → Exec (List DeviceRelationship)
list_all env = do permit env (codes "list"); ask list_all_relationships

-- Add
unfoldable pub add : Env → Text → Text → Text → Text → Exec (Unit {0})
add env parent child type notes = do
  permit env (codes "create")
  check_edge parent child type
  fail_if
      (not (type == codes "contains" || type == codes "connected_to" || type == codes "depends_on"))
      (invalid "type" "Relationship type must be one of: contains, connected_to, depends_on")
  add_relationship (enrich_audit env) parent child type notes

-- Get
unfoldable pub get : Env → Text → Exec (List DeviceRelationship)
get env device = do
  permit env (codes "read")
  fail_if (is_empty device) (invalid "device_id" "Device ID is required")
  ask (get_relationships device)

-- UpdateNotes
unfoldable pub update_notes : Env → Text → Text → Text → Text → Exec (Unit {0})
update_notes env parent child type notes = do
  permit env (codes "update")
  check_edge parent child type
  update_relationship_notes (enrich_audit env) parent child type notes

-- Remove
unfoldable pub remove : Env → Text → Text → Text → Exec (Unit {0})
remove env parent child type = do
  permit env (codes "delete")
  check_edge parent child type
  on_error as_not_found (remove_relationship (enrich_audit env) parent child type)

-- GetRelated
unfoldable pub get_related : Env → Text → Text → Exec (List Device)
get_related env device type = do
  permit env (codes "read")
  fail_if (is_empty device) (invalid "device_id" "Device ID is required")
  ask (get_related_devices device type)
