-- ===== src/Storage/Device/Kept.antt =====
-- internal/storage/device_sqlite.go: CreateDevice, UpdateDevice and DeleteDevice keep the foreign keys.
use rackd.Prelude.{
  ◌≡◌, refl, sym, subst, ap, ◌∙◌, true, false, not, ◌||◌, some, List, [], ◌∷◌, ◌++◌, map, any, keep,
  find, arith, Option-cases, inl, inr,
}
use rackd.Text.{Text, codes, ◌==◌, is_empty, eq_iff}
use rackd.Error.{Error, ok, err, Result-cases}
use rackd.Rows.{any-append, find-any}
use rackd.Model.{DeviceRow}
use rackd.Model.Device.{Device}
use rackd.Store.{Store, Env, enqueue}
use rackd.Storage.References.{refers-keep}
use rackd.Storage.Device.{has_device, device_row}
use rackd.Storage.Device.Change.{
  stamp_update, update_row, delete_parts, create_device, update_device, update_device_in_tx,
  rewrite_device, delete_device,
}
use rackd.Storage.Device.Parts.{with_parts, insert_parts-ok}
use rackd.Storage.Device.Delete.{without, delete_device-ok}
use rackd.Storage.Device.Owned.{
  Owned, enqueue-Owned, with_parts-Owned, devices-Owned, added, create_device-ok,
  create_device_failed,
}

pub added-has_device :
    (d : Device) (id : Text) (s : Store)
    → any (λ r. r.id == id) (s.devices ++ device_row d ∷ []) ≡ has_device id s || d.id == id
added-has_device d id s = any-append (λ r. r.id == id) s.devices (device_row d ∷ []) ∙ ground arith

pub create_device-Owned :
    (env : Env) (device : Device) (s : Store) → Owned s → Owned (create_device env device s).1
create_device-Owned env device s h = elim (Result-cases (create_device env device s).0) [
  | inl (d, e) ↦
      let left = create_device-ok env device d s e in
      subst Owned (sym left.2) (
        enqueue-Owned env (codes "create") (codes "device") d.id _ (
          with_parts-Owned env d (added d s)
            (devices-Owned (s.devices ++ device_row d ∷ []) s
              (λ id k. ground (arith, added-has_device d id s)) h)
            (ground (arith, added-has_device d d.id s, eq_iff d.id d.id))))
  | inr (x, e) ↦ subst Owned (sym (create_device_failed env device s x e)) h
]

pub update_row-ids :
    (new : Device) (id : Text) (rows : List DeviceRow)
    → any (λ d. d.id == id) (map (update_row new) rows) ≡ any (λ d. d.id == id) rows
update_row-ids new id [] = refl
update_row-ids new id (d ∷ rows) = ground (arith, update_row-ids new id rows, eq_iff d.id new.id)

delete_parts-Owned : (id : Text) (s : Store) → Owned s → Owned (delete_parts id s)
delete_parts-Owned id s h = record {
  addresses =
      refers-keep (λ a. has_device a.device_id s) (λ a. has_device a.device_id s)
        (λ a. not (a.device_id == id)) s.addresses h.addresses (λ a e k. e);
  tags =
      refers-keep (λ a. has_device a.device_id s) (λ a. has_device a.device_id s)
        (λ a. not (a.device_id == id)) s.tags h.tags (λ a e k. e);
  domains =
      refers-keep (λ a. has_device a.device_id s) (λ a. has_device a.device_id s)
        (λ a. not (a.device_id == id)) s.domains h.domains (λ a e k. e);
  values =
      refers-keep (λ a. has_device a.device_id s) (λ a. has_device a.device_id s)
        (λ a. not (a.device_id == id)) s.custom_field_values h.values (λ a e k. e);
  parents = h.parents;
  children = h.children;
}

-- The store with the row of a device rewritten and what belonged to it gone
abbrev pub rewritten : Device → Store → Store
rewritten new s = delete_parts new.id (record s { devices = map (update_row new) s.devices })

pub update_device-ok :
    (env : Env) (device new : Device) (s : Store)
    → (update_device env device s).0 ≡ ok new
    → (old : DeviceRow) × (find (λ d. d.id == device.id) s.devices ≡ some old)
      × (new ≡ stamp_update env old device)
      × (is_empty device.id ≡ false)
      × ((update_device env device s).1
          ≡ enqueue env
              (codes "update")
              (codes "device")
              device.id
              (with_parts env new (rewritten new s)))
unfolding update_device update_device_in_tx rewrite_device
update_device-ok env device new s h =
    elim (Option-cases (find (λ d. d.id == device.id) s.devices)) [
      | inl e ↦ absurd (ground arith)
      | inr (old, e) ↦
          let st = stamp_update env old device in
          let parts = insert_parts-ok env st (rewritten st s) in
          (old, e, ground (arith), ground (arith), ground (arith))
    ]

pub update_device_failed :
    (env : Env) (device : Device) (s : Store) (e : Error)
    → (update_device env device s).0 ≡ err e
    → (update_device env device s).1 ≡ s
unfolding update_device
update_device_failed env device s e h = ground arith

pub stamp_update-id :
    (env : Env) (old : DeviceRow) (d : Device) → (stamp_update env old d).id ≡ d.id
stamp_update-id env old d = ground arith

rewritten-Owned :
    (env : Env) (new : Device) (s : Store)
    → Owned s
    → has_device new.id s ≡ true
    → Owned (with_parts env new (rewritten new s))
rewritten-Owned env new s h e =
    let rows = map (update_row new) s.devices in
    with_parts-Owned env new (rewritten new s)
      (delete_parts-Owned new.id (record s { devices = rows })
        (devices-Owned rows s (λ id k. update_row-ids new id s.devices ∙ k) h))
      (update_row-ids new new.id s.devices ∙ e)

pub update_device-Owned :
    (env : Env) (device : Device) (s : Store) → Owned s → Owned (update_device env device s).1
update_device-Owned env device s h = elim (Result-cases (update_device env device s).0) [
  | inl (new, e) ↦
      let left = update_device-ok env device new s e in
      let there = (find-any (λ d. d.id == device.id) s.devices left.0 left.1).0 in
      let same = ap (λ (d : Device). d.id) left.2 ∙ stamp_update-id env left.0 device in
      subst Owned (sym left.4) (
        enqueue-Owned env (codes "update") (codes "device") device.id _
          (rewritten-Owned env new s h (subst (λ id. has_device id s ≡ true) (sym same) there)))
  | inr (x, e) ↦ subst Owned (sym (update_device_failed env device s x e)) h
]

-- A device that is not the one that goes stays.
pub has_device-kept :
    (id gone : Text) (s : Store)
    → id == gone ≡ false
    → has_device id s ≡ true
    → has_device id (without gone s) ≡ true
has_device-kept id gone s n e = go s.devices e
  where
    go :
        (rows : List DeviceRow)
        → any (λ d. d.id == id) rows ≡ true
        → any (λ d. d.id == id) (keep (λ d. not (d.id == gone)) rows) ≡ true
    go [] k = ground arith
    go (d ∷ rows) k = ground (arith, go rows, eq_iff d.id id, eq_iff d.id gone, eq_iff id gone, n)

without-Owned : (id : Text) (s : Store) → Owned s → Owned (without id s)
without-Owned id s h = record {
  addresses =
      refers-keep (λ a. has_device a.device_id s) (λ a. has_device a.device_id (without id s))
        (λ a. not (a.device_id == id)) s.addresses h.addresses
        (λ a e k. has_device-kept a.device_id id s (ground arith) e);
  tags =
      refers-keep (λ a. has_device a.device_id s) (λ a. has_device a.device_id (without id s))
        (λ a. not (a.device_id == id)) s.tags h.tags
        (λ a e k. has_device-kept a.device_id id s (ground arith) e);
  domains =
      refers-keep (λ a. has_device a.device_id s) (λ a. has_device a.device_id (without id s))
        (λ a. not (a.device_id == id)) s.domains h.domains
        (λ a e k. has_device-kept a.device_id id s (ground arith) e);
  values =
      refers-keep (λ a. has_device a.device_id s) (λ a. has_device a.device_id (without id s))
        (λ a. not (a.device_id == id)) s.custom_field_values h.values
        (λ a e k. has_device-kept a.device_id id s (ground arith) e);
  parents =
      refers-keep (λ r. has_device r.parent_id s) (λ r. has_device r.parent_id (without id s))
        (λ r. not (r.parent_id == id || r.child_id == id)) s.relationships h.parents
        (λ r e k. has_device-kept r.parent_id id s (ground arith) e);
  children =
      refers-keep (λ r. has_device r.child_id s) (λ r. has_device r.child_id (without id s))
        (λ r. not (r.parent_id == id || r.child_id == id)) s.relationships h.children
        (λ r e k. has_device-kept r.child_id id s (ground arith) e);
}

pub delete_device_failed :
    (env : Env) (id : Text) (s : Store) (e : Error)
    → (delete_device env id s).0 ≡ err e
    → (delete_device env id s).1 ≡ s
unfolding delete_device
delete_device_failed env id s e h = ground arith

pub delete_device-Owned :
    (env : Env) (id : Text) (s : Store) → Owned s → Owned (delete_device env id s).1
delete_device-Owned env id s h = elim (Result-cases (delete_device env id s).0) [
  | inl (u, e) ↦
      subst Owned (sym (delete_device-ok env id s e).0)
        (enqueue-Owned env (codes "delete") (codes "device") id _ (without-Owned id s h))
  | inr (x, e) ↦ subst Owned (sym (delete_device_failed env id s x e)) h
]
