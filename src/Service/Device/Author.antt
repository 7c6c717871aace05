-- ===== src/Service/Device/Author.antt =====
-- internal/service/device.go, Update: who is said to have changed the status.
use rackd.Prelude.{
  refl, ℕ, ◌+◌, List, [], ◌∷◌, length, keep, ◌||◌, if◌then◌else◌, ◌≡◌, subst, ap, ◌∙◌, Bool, true,
  false, some, arith, find,
}
use rackd.Text.{Text, ◌==◌, is_empty}
use rackd.Error.{ok}
use rackd.Model.{Caller, DeviceRow}
use rackd.Model.Device.{Device, Address}
use rackd.Model.Conflict.{Conflict}
use rackd.Storage.Conflict.{create_conflict, get_conflicts_by_ip}
use rackd.Storage.Device.{device_row}
use rackd.Storage.Device.RoundTrip.{update_device-row}
use rackd.Store.{Store, Env}
use rackd.Storage.Device.Change.{update_device, stamp_update}
use rackd.Storage.Device.Listing.{Seen, list_devices, no_filter}
use rackd.Service.Access.{require_permission, enrich_audit}
use rackd.Service.Device.{
  set_status_changed_by, update, check_ip, check_ips, check_for_ip_conflicts, ip_conflict, uses_ip,
}

update-stored :
    (watched : Bool) (seen : Seen) (env : Env) (device new : Device) (s : Store)
    → (update watched seen env device s).0 ≡ ok new
    → (update_device (enrich_audit env) (set_status_changed_by env device) s).0 ≡ ok new
unfolding update require_permission
update-stored watched seen env device new s h = ground arith

enrich-now : (env : Env) → (enrich_audit env).now ≡ env.now
unfolding enrich_audit
enrich-now env = ground arith

create_conflict-devices :
    (env : Env) (c : Conflict) (s : Store) → (create_conflict env c s).1.devices ≡ s.devices
unfolding create_conflict
create_conflict-devices env c s = ground arith

check_ip-devices :
    (seen : Seen) (env : Env) (uuid ip : Text) (s : Store)
    → (check_ip seen env uuid ip s).devices ≡ s.devices
unfolding check_ip get_conflicts_by_ip
check_ip-devices seen env uuid ip s =
    let kept = λ (c : Conflict). create_conflict-devices (record env { uuid = uuid }) c s in
    ground (arith, kept (ip_conflict ip (keep (uses_ip ip) (list_devices seen (some no_filter) s))))

check_ips-devices :
    (seen : Seen) (env : Env) (i : ℕ) (addresses : List Address) (s : Store)
    → (check_ips seen env i addresses s).devices ≡ s.devices
unfolding check_ips
check_ips-devices seen env i [] s = refl
check_ips-devices seen env i (a ∷ rest) s =
    check_ips-devices seen env (i + 1) rest (check_ip seen env (env.row_uuid i) a.ip s)
    ∙ check_ip-devices seen env (env.row_uuid i) a.ip s

-- The search for conflicts leaves the rows of devices.
check-devices :
    (watched : Bool) (seen : Seen) (env : Env) (d : Device) (s : Store)
    → (check_for_ip_conflicts watched seen env d s).devices ≡ s.devices
check-devices false seen env d s = refl
check-devices true seen env d s =
    check_ips-devices seen env (length d.addresses + length d.custom_fields) d.addresses s

update-left :
    (watched : Bool) (seen : Seen) (env : Env) (device new : Device) (s : Store)
    → (update watched seen env device s).0 ≡ ok new
    → (update watched seen env device s).1.devices
      ≡ (update_device (enrich_audit env) (set_status_changed_by env device) s).1.devices
unfolding update require_permission
update-left watched seen env device new s h =
    let left = (update_device (enrich_audit env) (set_status_changed_by env device) s).1 in
    ground (arith, check-devices watched seen env new left)

set_by :
    (env : Env) (c : Caller) (d : Device)
    → env.ctx.caller ≡ some c
    → is_empty c.user_id ≡ false
    → set_status_changed_by env d ≡ record d { status_changed_by = c.user_id }
set_by env c d e n = ground arith

stamp_update-by :
    (env : Env) (old : DeviceRow) (d : Device)
    → (stamp_update env old d).status_changed_by ≡ d.status_changed_by
stamp_update-by env old d = ground arith

stamp_update-status :
    (env : Env) (old : DeviceRow) (d : Device)
    → (stamp_update env old d).status ≡ (if is_empty d.status then old.status else d.status)
stamp_update-status env old d = ground arith

stamp_update-at :
    (env : Env) (old : DeviceRow) (d : Device)
    → (stamp_update env old d).status_changed_at
      ≡ (if is_empty d.status || d.status == old.status then d.status_changed_at else some env.now)
stamp_update-at env old d = ground arith

-- After a successful Update of a device by a caller with a user, the row that is stored names the
-- caller as the one who changed the status, has the given status or, if none is given, the status of
-- the row before, and has the present as the time of the change if a different status is given, else
-- the time that the input gives.
pub update_claims_status :
    (watched : Bool) (seen : Seen) (env : Env) (c : Caller) (device new : Device) (s : Store)
    → env.ctx.caller ≡ some c
    → is_empty c.user_id ≡ false
    → (update watched seen env device s).0 ≡ ok new
    → (old row : DeviceRow) × (find (λ d. d.id == device.id) s.devices ≡ some old)
      × (find (λ d. d.id == device.id) (update watched seen env device s).1.devices ≡ some row)
      × (row.status_changed_by ≡ c.user_id)
      × (row.status ≡ (if is_empty device.status then old.status else device.status))
      × (row.status_changed_at ≡ (
          if is_empty device.status || device.status == old.status
          then device.status_changed_at
          else some env.now))
update_claims_status watched seen env c device new s e n h =
    let by = set_by env c device e n in
    let given : Device = record device { status_changed_by = c.user_id } in
    let left = update_device-row (enrich_audit env) given new s (
      subst (λ d. (update_device (enrich_audit env) d s).0 ≡ ok new) by
        (update-stored watched seen env device new s h)) in
    let kept =
      update-left watched seen env device new s h
      ∙ ap (λ d. (update_device (enrich_audit env) d s).1.devices) by in
    (
      left.0,
      record (device_row new) { created_at = left.0.created_at },
      left.1,
      ap (find (λ d. d.id == device.id)) kept ∙ left.3,
      ap (λ (d : Device). d.status_changed_by) left.2
          ∙ stamp_update-by (enrich_audit env) left.0 given,
      ap (λ (d : Device). d.status) left.2 ∙ stamp_update-status (enrich_audit env) left.0 given,
      ap (λ (d : Device). d.status_changed_at) left.2
          ∙ stamp_update-at (enrich_audit env) left.0 given
          ∙ ap
              (λ t.
                if is_empty device.status || device.status == left.0.status
                then device.status_changed_at
                else some t)
              (enrich-now env),
    )
