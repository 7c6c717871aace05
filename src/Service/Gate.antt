-- ===== src/Service/Gate.antt =====
-- The operations of the services that write, each behind its permission.
use rackd.Prelude.{◌≡◌, Bool, List, Option, none, some, arith, if◌then◌else◌}
use rackd.Text.{Text, codes, is_empty}
use rackd.Error.{Error, Result, ok, err, forbidden, unauthenticated}
use rackd.Model.{
  Datacenter, Network, NetworkPool, Role, CreateReservationRequest, UpdateReservationRequest,
  Caller,
}
use rackd.Store.{Store, Env, Exec}
use rackd.Service.Access.{require_permission}
use rackd.Service.Access.Decision.{May, Refusal, require_permission-Refusal}
use rackd.Service.Reservation.{World}
use rackd.Service.Reservation as Reservations
use rackd.Service.User.{Bcrypt, CreateUserRequest}
use rackd.Service.User as Users
use rackd.Service.Role as Roles
use rackd.Service.Pool as Pools
use rackd.Service.Network as Networks
use rackd.Service.Datacenter as Datacenters
use rackd.Service.Device as Devices
use rackd.Service.Conflict as Conflicts
use rackd.Service.Conflict.{ConflictResolution}
use rackd.Service.CustomField as CustomFields
use rackd.Service.CustomField.Update as CustomFieldUpdates
use rackd.Service.CustomField.Values as CustomFieldValues
use rackd.Service.CustomField.{CreateCustomFieldDefinitionRequest}
use rackd.Service.CustomField.Update.{UpdateCustomFieldDefinitionRequest}
use rackd.Storage.Device.Listing.{Seen}
use rackd.Model.Device.{Device, CustomFieldValueInput}
use rackd.Service.Relationship as Relationships

pub data Operation : Type 0 where
  create_device : Bool → Seen → Device → Operation
  update_device : Bool → Seen → Device → Operation
  delete_device : Text → Operation
  resolve_conflict : ConflictResolution → Operation
  detect_duplicate_ips : Operation
  detect_overlapping_subnets : Operation
  delete_conflict : Text → Operation
  create_definition : CreateCustomFieldDefinitionRequest → Operation
  update_definition : Text → UpdateCustomFieldDefinitionRequest → Operation
  delete_definition : Text → Operation
  set_value : Text → CustomFieldValueInput → Operation
  set_values : Text → List CustomFieldValueInput → Operation
  delete_value : Text → Text → Operation
  create_datacenter update_datacenter : Datacenter → Operation
  delete_datacenter : Text → Operation
  add_relationship update_notes : Text → Text → Text → Text → Operation
  remove_relationship : Text → Text → Text → Operation
  create_network update_network : Network → Operation
  delete_network : Text → Operation
  create_pool update_pool : NetworkPool → Operation
  delete_pool : Text → Operation
  create_reservation : World → CreateReservationRequest → Operation
  update_reservation : Text → UpdateReservationRequest → Operation
  delete_reservation release_reservation : Text → Operation
  create_user : Bcrypt → CreateUserRequest → Operation
  delete_user : Text → Operation
  reset_password : Bcrypt → Text → Text → Operation
  create_role : Role → Operation
  update_role : Text → Role → Operation
  delete_role : Text → Operation
  grant_permission revoke_permission assign_role revoke_role : Text → Text → Operation

-- The resource and the action of its permission.
abbrev pub needs : Operation → Text × Text
needs (create_device w f d) = (codes "devices", codes "create")
needs (update_device w f d) = (codes "devices", codes "update")
needs (delete_device id) = (codes "devices", codes "delete")
needs (resolve_conflict r) = (codes "conflicts", codes "resolve")
needs detect_duplicate_ips = (codes "conflicts", codes "detect")
needs detect_overlapping_subnets = (codes "conflicts", codes "detect")
needs (delete_conflict id) = (codes "conflicts", codes "delete")
needs (create_definition r) = (codes "custom-fields", codes "create")
needs (update_definition id r) = (codes "custom-fields", codes "update")
needs (delete_definition id) = (codes "custom-fields", codes "delete")
needs (set_value d v) = (codes "devices", codes "update")
needs (set_values d v) = (codes "devices", codes "update")
needs (delete_value d v) = (codes "devices", codes "update")
needs (create_datacenter d) = (codes "datacenters", codes "create")
needs (update_datacenter d) = (codes "datacenters", codes "update")
needs (delete_datacenter id) = (codes "datacenters", codes "delete")
needs (add_relationship p c t notes) = (codes "relationships", codes "create")
needs (update_notes p c t notes) = (codes "relationships", codes "update")
needs (remove_relationship p c t) = (codes "relationships", codes "delete")
needs (create_network n) = (codes "networks", codes "create")
needs (update_network n) = (codes "networks", codes "update")
needs (delete_network id) = (codes "networks", codes "delete")
needs (create_pool p) = (codes "pools", codes "create")
needs (update_pool p) = (codes "pools", codes "update")
needs (delete_pool id) = (codes "pools", codes "delete")
needs (create_reservation w req) = (codes "reservations", codes "create")
needs (update_reservation id req) = (codes "reservations", codes "update")
needs (delete_reservation id) = (codes "reservations", codes "delete")
needs (release_reservation id) = (codes "reservations", codes "update")
needs (create_user b req) = (codes "users", codes "create")
needs (delete_user id) = (codes "users", codes "delete")
needs (reset_password b id p) = (codes "users", codes "update")
needs (create_role r) = (codes "roles", codes "create")
needs (update_role id r) = (codes "roles", codes "update")
needs (delete_role id) = (codes "roles", codes "delete")
needs (grant_permission r p) = (codes "roles", codes "update")
needs (revoke_permission r p) = (codes "roles", codes "update")
needs (assign_role u r) = (codes "roles", codes "update")
needs (revoke_role u r) = (codes "roles", codes "update")

abbrev drop_value {ℓ} : {A : Type ℓ} → Result A × Store → Result (Unit {0}) × Store
drop_value (ok a, s) = (ok tt, s)
drop_value (err e, s) = (err e, s)

-- The service's method for an operation, without the value that it returns.
unfoldable pub perform : Env → Operation → Exec (Unit {0})
perform env (create_device w f d) s = drop_value (Devices.create w f env d s)
perform env (update_device w f d) s = drop_value (Devices.update w f env d s)
perform env (delete_device id) s = drop_value (Devices.delete env id s)
perform env (resolve_conflict r) s = drop_value (Conflicts.resolve env r s)
perform env detect_duplicate_ips s = drop_value (Conflicts.detect_duplicate_ips env s)
perform env detect_overlapping_subnets s = drop_value (Conflicts.detect_overlapping_subnets env s)
perform env (delete_conflict id) s = drop_value (Conflicts.delete env id s)
perform env (create_definition r) s = drop_value (CustomFields.create_definition env r s)
perform env (update_definition id r) s =
    drop_value (CustomFieldUpdates.update_definition env id r s)
perform env (delete_definition id) s = drop_value (CustomFields.delete_definition env id s)
perform env (set_value d v) s = drop_value (CustomFieldValues.set_value env d v s)
perform env (set_values d v) s = drop_value (CustomFieldValues.set_values env d v s)
perform env (delete_value d v) s = drop_value (CustomFieldValues.delete_value env d v s)
perform env (create_datacenter d) s = drop_value (Datacenters.create env d s)
perform env (update_datacenter d) s = drop_value (Datacenters.update env d s)
perform env (delete_datacenter id) s = drop_value (Datacenters.delete env id s)
perform env (add_relationship p c t notes) s = drop_value (Relationships.add env p c t notes s)
perform env (update_notes p c t notes) s = drop_value (Relationships.update_notes env p c t notes s)
perform env (remove_relationship p c t) s = drop_value (Relationships.remove env p c t s)
perform env (create_network n) s = drop_value (Networks.create env n s)
perform env (update_network n) s = drop_value (Networks.update env n s)
perform env (delete_network id) s = drop_value (Networks.delete env id s)
perform env (create_pool p) s = drop_value (Pools.create env p s)
perform env (update_pool p) s = drop_value (Pools.update env p s)
perform env (delete_pool id) s = drop_value (Pools.delete env id s)
perform env (create_reservation w req) s = drop_value (Reservations.create env w req s)
perform env (update_reservation id req) s = drop_value (Reservations.update env id req s)
perform env (delete_reservation id) s = drop_value (Reservations.delete env id s)
perform env (release_reservation id) s = drop_value (Reservations.release env id s)
perform env (create_user b req) s = drop_value (Users.create b env req s)
perform env (delete_user id) s = drop_value (Users.delete env id s)
perform env (reset_password b id p) s = drop_value (Users.reset_password b env id p s)
perform env (create_role r) s = drop_value (Roles.create env r s)
perform env (update_role id r) s = drop_value (Roles.update env id r s)
perform env (delete_role id) s = drop_value (Roles.delete env id s)
perform env (grant_permission r p) s = drop_value (Roles.grant_permission env r p s)
perform env (revoke_permission r p) s = drop_value (Roles.revoke_permission env r p s)
perform env (assign_role u r) s = drop_value (Roles.assign_to_user env u r s)
perform env (revoke_role u r) s = drop_value (Roles.revoke_from_user env u r s)

perform-first :
    (env : Env) (o : Operation) (s : Store) (e : Error)
    → (require_permission env (needs o).0 (needs o).1 s).0 ≡ err e
    → perform env o s ≡ (err e, s)
unfolding perform require_permission Devices.create Devices.update Devices.delete Conflicts.resolve
    Conflicts.detect_duplicate_ips Conflicts.detect_overlapping_subnets Conflicts.delete
    CustomFields.create_definition CustomFieldUpdates.update_definition
    CustomFields.delete_definition CustomFieldValues.set_value CustomFieldValues.set_values
    CustomFieldValues.delete_value Relationships.add Relationships.update_notes Relationships.remove
    Datacenters.create Datacenters.update Datacenters.delete Networks.create Networks.update
    Networks.delete Users.create Users.delete Users.reset_password Pools.create Pools.update
    Pools.delete Reservations.create Reservations.update Reservations.delete Reservations.release
    Roles.create Roles.update Roles.delete Roles.grant_permission Roles.revoke_permission
    Roles.assign_to_user Roles.revoke_from_user
perform-first env (create_device w f d) s e h = ground arith
perform-first env (update_device w f d) s e h = ground arith
perform-first env (delete_device id) s e h = ground arith
perform-first env (resolve_conflict r) s e h = ground arith
perform-first env detect_duplicate_ips s e h = ground arith
perform-first env detect_overlapping_subnets s e h = ground arith
perform-first env (delete_conflict id) s e h = ground arith
perform-first env (create_definition r) s e h = ground arith
perform-first env (update_definition id r) s e h = ground arith
perform-first env (delete_definition id) s e h = ground arith
perform-first env (set_value d v) s e h = ground arith
perform-first env (set_values d v) s e h = ground arith
perform-first env (delete_value d v) s e h = ground arith
perform-first env (create_datacenter d) s e h = ground arith
perform-first env (update_datacenter d) s e h = ground arith
perform-first env (delete_datacenter id) s e h = ground arith
perform-first env (add_relationship p c t notes) s e h = ground arith
perform-first env (update_notes p c t notes) s e h = ground arith
perform-first env (remove_relationship p c t) s e h = ground arith
perform-first env (create_network n) s e h = ground arith
perform-first env (update_network n) s e h = ground arith
perform-first env (delete_network id) s e h = ground arith
perform-first env (create_pool p) s e h = ground arith
perform-first env (update_pool p) s e h = ground arith
perform-first env (delete_pool id) s e h = ground arith
perform-first env (create_reservation w req) s e h = ground arith
perform-first env (update_reservation id req) s e h = ground arith
perform-first env (delete_reservation id) s e h = ground arith
perform-first env (release_reservation id) s e h = ground arith
perform-first env (create_user b req) s e h = ground arith
perform-first env (delete_user id) s e h = ground arith
perform-first env (reset_password b id p) s e h = ground arith
perform-first env (create_role r) s e h = ground arith
perform-first env (update_role id r) s e h = ground arith
perform-first env (delete_role id) s e h = ground arith
perform-first env (grant_permission r p) s e h = ground arith
perform-first env (revoke_permission r p) s e h = ground arith
perform-first env (assign_role u r) s e h = ground arith
perform-first env (revoke_role u r) s e h = ground arith

-- The error of a refusal.
abbrev pub refusal : Option Caller → Error
refusal none = unauthenticated
refusal (some c) = if is_empty c.user_id then unauthenticated else forbidden

refusal-Refusal : (c : Option Caller) (r : Result (Unit {0})) → Refusal c r → r ≡ err (refusal c)
refusal-Refusal none r h = h
refusal-Refusal (some c) r h = ground arith

-- Each operation that writes of the device, conflict, custom field, relationship, datacenter,
-- network, pool, reservation, role and user services, except the Claim and ExpireExpired of
-- reservations and the Update and ChangePassword of users, fails with ErrUnauthenticated or
-- ErrForbidden and leaves the store as it was, if the caller may not use its permission.
pub perform_refused :
    (env : Env) (o : Operation) (s : Store)
    → ¬ May env.ctx.caller (needs o).0 (needs o).1 s
    → perform env o s ≡ (err (refusal env.ctx.caller), s)
perform_refused env o s n =
    perform-first env o s (refusal env.ctx.caller) (
      refusal-Refusal env.ctx.caller _ (require_permission-Refusal env (needs o).0 (needs o).1 s n))
