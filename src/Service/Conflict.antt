-- ===== src/Service/Conflict.antt =====
-- internal/service/conflict.go: finding conflicts and resolving them.
pub mod Taken
pub mod Resolve
pub mod Detect
pub mod Rounds
pub mod Notes
use rackd.Prelude.{
  ℕ, suc, ◌+◌, Bool, true, false, not, ◌&&◌, Option, none, some, List, [], ◌∷◌, length, nat_eq,
  if◌then◌else◌, any, keep, count,
}
use rackd.Text.{Text, codes, ◌==◌, is_empty}
use rackd.Error.{Error, Result, ok, err, not_found, invalid, map_error}
use rackd.Model.Device.{Address, Device}
use rackd.Model.Conflict.{Conflict}
use rackd.Store.{Store, Env, Exec, return, query, ask, ◌>>=◌, ◌>>◌, fail_if}
use rackd.Storage.Order.{pos}
use rackd.Storage.Device.Read.{get_device}
use rackd.Storage.Device.Change.{update_device}
use rackd.Storage.Conflict.{
  Mentions, ConflictFilter, duplicate_ip, overlapping_subnet, active, resolved, get_conflict,
  list_conflicts, create_conflict, update_conflict_status, delete_conflict, get_conflicts_by_ip,
  get_conflicts_by_device_id,
}
use rackd.Storage.Conflict.Find.{find_duplicate_ips, find_overlapping_subnets}
use rackd.Service.Access.{require_permission, enrich_audit}

abbrev permit : Env → Text → Exec (Unit {0})
permit env action = require_permission env (codes "conflicts") action

-- List
unfoldable pub list : Env → Option ConflictFilter → Exec (List Conflict)
list env filter = do permit env (codes "list"); ask (list_conflicts filter)

abbrev any_not_found : Error → Error
any_not_found e = not_found

-- Get
unfoldable pub get : Env → Text → Exec Conflict
get env id = do permit env (codes "read"); query (λ s. map_error any_not_found (get_conflict id s))

-- model.ConflictResolution
pub record ConflictResolution : Type 0 where
  pub conflict_id : Text
  pub keep_device_id : Text
  pub keep_network_id : Text
  pub notes : Text

abbrev pub user_of : Env → Text
user_of env = elim env.ctx.caller [ none ↦ [] | some c ↦ c.user_id ]

-- The device without the address
abbrev pub without_ip : Text → Device → Device
without_ip ip d = record d { addresses = keep {A = Address} (λ a. not (a.ip == ip)) d.addresses }

-- The body of the loop of resolveDuplicateIP
unfoldable pub take_ip : Env → Text → Text → Text → Exec (Unit {0})
take_ip env ip keeper id s = if id == keeper then (ok tt, s) else elim (get_device id s) [
  | err e ↦ (ok tt, s)
  | ok d ↦ (update_device (enrich_audit env) (without_ip ip d) >> return tt) s
]

-- The loop of resolveDuplicateIP
unfoldable pub take_ips : Env → Text → Text → List Text → Exec (Unit {0})
take_ips env ip keeper [] = return tt
take_ips env ip keeper (id ∷ ids) = take_ip env ip keeper id >> take_ips env ip keeper ids

-- resolveDuplicateIP
unfoldable pub resolve_duplicate_ip : Env → ConflictResolution → Exec (Unit {0})
resolve_duplicate_ip env resolution = do
  conflict ← query (get_conflict resolution.conflict_id)
  take_ips env conflict.ip_address resolution.keep_device_id conflict.device_ids

-- The call that Resolve makes for a conflict of an address
abbrev resolve_by_type : Env → ConflictResolution → Conflict → Exec (Unit {0})
resolve_by_type env resolution c s =
    if c.type == duplicate_ip && not (is_empty resolution.keep_device_id)
    then resolve_duplicate_ip env resolution s
    else (ok tt, s)

-- Resolve
unfoldable pub resolve : Env → ConflictResolution → Exec (Unit {0})
resolve env resolution = do
  permit env (codes "resolve")
  fail_if (is_empty resolution.conflict_id) (invalid "conflict_id" "Conflict ID is required")
  conflict ← query (λ s. map_error any_not_found (get_conflict resolution.conflict_id s))
  resolve_by_type env resolution conflict
  update_conflict_status (enrich_audit env) resolution.conflict_id resolved (user_of env)
      resolution.notes

-- The loop over the conflicts of an address that are there
unfoldable pub refresh : Env → List Conflict → Store → Store
refresh env [] s = s
refresh env (c ∷ cs) s =
    refresh env cs
      (if c.status == active then (update_conflict_status env c.id c.status [] [] s).1 else s)

-- The body of the loop of DetectDuplicateIPs
unfoldable pub record_duplicate : Env → Conflict → Exec (Unit {0})
record_duplicate env c s = elim (get_conflicts_by_ip c.ip_address s) [
  | err e ↦ (create_conflict env c >> return tt) s
  | ok existing ↦
      if nat_eq (length existing) 0
      then (create_conflict env c >> return tt) s
      else (ok tt, refresh env existing s)
]

-- The loop of DetectDuplicateIPs
unfoldable pub record_duplicates : Env → List Conflict → Exec (Unit {0})
record_duplicates env [] = return tt
record_duplicates env (c ∷ cs) = record_duplicate env c >> record_duplicates env cs

-- DetectDuplicateIPs
unfoldable pub detect_duplicate_ips : Env → Exec (List Conflict)
detect_duplicate_ips env = do
  permit env (codes "detect")
  conflicts ← ask (find_duplicate_ips env)
  record_duplicates env conflicts
  return conflicts

abbrev contains_id : List Text → Text → Bool
contains_id ids id = any (λ i. i == id) ids

abbrev all_in : List Text → List Text → Bool
all_in ids [] = true
all_in ids (id ∷ rest) = contains_id ids id && all_in ids rest

-- sameNetworks
abbrev pub same_networks : List Text → List Text → Bool
same_networks a b = nat_eq (length a) (length b) && all_in a b

abbrev active_overlaps : ConflictFilter
active_overlaps = record {
  page = record { limit = pos 0; offset = pos 0 };
  type = overlapping_subnet;
  status = active;
}

-- The body of the loop of DetectOverlappingSubnets
unfoldable pub record_overlap : Env → Conflict → Exec (Unit {0})
record_overlap env c s =
    if any (λ e. same_networks e.network_ids c.network_ids)
      (list_conflicts (some active_overlaps) s)
    then (ok tt, s)
    else (create_conflict env c >> return tt) s

-- The loop of DetectOverlappingSubnets
unfoldable pub record_overlaps : Env → List Conflict → Exec (Unit {0})
record_overlaps env [] = return tt
record_overlaps env (c ∷ cs) = record_overlap env c >> record_overlaps env cs

-- DetectOverlappingSubnets
unfoldable pub detect_overlapping_subnets : Env → Exec (List Conflict)
detect_overlapping_subnets env = do
  permit env (codes "detect")
  conflicts ← ask (find_overlapping_subnets env)
  record_overlaps env conflicts
  return conflicts

-- GetConflictsByDevice
unfoldable pub get_conflicts_by_device : Mentions → Env → Text → Exec (List Conflict)
get_conflicts_by_device mentions env device = do
  permit env (codes "read")
  query (get_conflicts_by_device_id mentions device)

-- Delete
unfoldable pub delete : Env → Text → Exec (Unit {0})
delete env id = do
  permit env (codes "delete")
  fail_if (is_empty id) (invalid "id" "ID is required")
  delete_conflict id

-- The map of GetSummary: the number of active conflicts of a type, on the first page of them
unfoldable pub get_summary : Env → Exec (Text → ℕ)
get_summary env = do
  permit env (codes "read")
  ask (λ s type.
      count {A = Conflict} (λ c. c.type == type)
        (list_conflicts (some (record active_overlaps { type = [] })) s))
