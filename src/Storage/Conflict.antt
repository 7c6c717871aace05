-- ===== src/Storage/Conflict.antt =====
-- internal/storage/conflict_sqlite.go: the rows of conflicts, and the searches for addresses of several
-- devices and for subnets that overlap.
pub mod Overlap
pub mod Find
use rackd.Prelude.{
  ℕ, zero, suc, ◌+◌, ◌/◌, ◌%◌, Bool, true, false, not, ◌&&◌, ◌||◌, Option, none, some, List, [],
  ◌∷◌, ◌++◌, map, length, ltb, leb, nat_eq, if◌then◌else◌, any, keep, find,
}
use rackd.Text.{Text, codes, ◌==◌, is_empty}
use rackd.Error.{Result, ok, err, failed, unique_failed, invalid_id, conflict_not_found, or_error}
use rackd.Model.{Time, AddressRow, DeviceRow, Network}
use rackd.Model.Conflict.{Conflict}
use rackd.Store.{Store, Env, Exec, ◌>>=◌, ◌>>◌, fail_if, modify, or_uuid}
use rackd.Storage.Order.{Pagination, paginate, text_leb, sort_by}
use rackd.Storage.Network.{distinct}
use rackd.Storage.Rbac.{or_now}
use rackd.Net.IpNet.{IpNet, parse_net, contains}

-- model.ConflictType and model.ConflictStatus
abbrev pub duplicate_ip : Text
duplicate_ip = codes "duplicate_ip"

abbrev pub overlapping_subnet : Text
overlapping_subnet = codes "overlapping_subnet"

abbrev pub active : Text
active = codes "active"

abbrev pub resolved : Text
resolved = codes "resolved"

-- The conflict as CreateConflict completes it
abbrev pub stamp_conflict : Env → Conflict → Conflict
stamp_conflict env c = record c {
  id = or_uuid env c.id;
  detected_at = or_now env.now c.detected_at;
}

-- CreateConflict: the id is the primary key.
unfoldable pub create_conflict : Env → Conflict → Exec Conflict
create_conflict env c s =
    let new = stamp_conflict env c in
    if any (λ d. d.id == new.id) s.conflicts
    then (err (failed "failed to create conflict" unique_failed), s)
    else (ok new, record s { conflicts = s.conflicts ++ new ∷ [] })

-- GetConflict
unfoldable pub get_conflict : Text → Store → Result Conflict
get_conflict id s =
    if is_empty id
    then err invalid_id
    else or_error (find (λ c. c.id == id) s.conflicts) conflict_not_found

-- model.ConflictFilter
pub record ConflictFilter : Type 0 where
  pub page : Pagination
  pub type : Text
  pub status : Text

abbrev matches_conflict : Option ConflictFilter → Conflict → Bool
matches_conflict none c = true
matches_conflict (some f) c =
    (is_empty f.type || c.type == f.type) && (is_empty f.status || c.status == f.status)

abbrev page_of : Option ConflictFilter → Option Pagination
page_of none = none
page_of (some f) = some f.page

-- ORDER BY detected_at DESC
abbrev pub latest_first : List Conflict → List Conflict
latest_first cs = sort_by (λ a b. leb b.detected_at a.detected_at) cs

-- ListConflicts
unfoldable pub list_conflicts : Option ConflictFilter → Store → List Conflict
list_conflicts filter s =
    paginate (page_of filter) (latest_first (keep (matches_conflict filter) s.conflicts))

abbrev pub set_status : Env → Text → Text → Text → Text → Conflict → Conflict
set_status env id status by notes c =
    if c.id == id
    then record c {
      status = status;
      resolved_at = if status == resolved then some env.now else none;
      resolved_by = by;
      notes = notes;
    }
    else c

-- UpdateConflictStatus
unfoldable pub update_conflict_status : Env → Text → Text → Text → Text → Exec (Unit {0})
update_conflict_status env id status by notes = do
  fail_if (is_empty id) invalid_id
  modify (λ s. record s { conflicts = map (set_status env id status by notes) s.conflicts })

-- DeleteConflict
unfoldable pub delete_conflict : Text → Exec (Unit {0})
delete_conflict id = do
  fail_if (is_empty id) invalid_id
  modify (λ s. record s { conflicts = keep (λ c. not (c.id == id)) s.conflicts })

-- The JSON text of a list of ids has the id in it, by LIKE.
abbrev pub Mentions : Type 0
Mentions = List Text → Text → Bool

-- GetConflictsByDeviceID
unfoldable pub get_conflicts_by_device_id : Mentions → Text → Store → Result (List Conflict)
get_conflicts_by_device_id mentions device s =
    if is_empty device
    then err invalid_id
    else ok (
        latest_first
          (keep (λ c. c.type == duplicate_ip && mentions c.device_ids device) s.conflicts))

-- GetConflictsByIP
unfoldable pub get_conflicts_by_ip : Text → Store → Result (List Conflict)
get_conflicts_by_ip ip s =
    if is_empty ip
    then err invalid_id
    else ok (latest_first (keep (λ c. c.ip_address == ip) s.conflicts))

abbrev mark_resolved : Env → Text → Text → Conflict → Conflict
mark_resolved env by id c =
    if c.id == id
    then record c { status = resolved; resolved_at = some env.now; resolved_by = by }
    else c

-- The loop of MarkConflictsResolvedForDevice
unfoldable pub mark_all : Env → Text → List Conflict → Store → Store
mark_all env by [] s = s
mark_all env by (c ∷ cs) s = mark_all env by cs (
    if c.status == active
    then record s { conflicts = map (mark_resolved env by c.id) s.conflicts }
    else s)

-- MarkConflictsResolvedForDevice
unfoldable pub mark_conflicts_resolved_for_device : Mentions → Env → Text → Text → Exec (Unit {0})
mark_conflicts_resolved_for_device mentions env device by s =
    elim (get_conflicts_by_device_id mentions device s) [
      | err e ↦ (err e, s)
      | ok cs ↦ (ok tt, mark_all env by cs s)
    ]
