-- ===== src/Storage/Device/Promoted.antt =====
-- internal/storage/device_sqlite.go, relationship_sqlite.go and custom_field_sqlite.go: the devices that
-- discovered devices were promoted to.
use rackd.Prelude.{
  ◌≡◌, refl, sym, subst, ap, ◌∙◌, true, false, List, [], ◌∷◌, any, map, arith, Bool-cases, inl, inr,
}
use rackd.Text.{Text, codes, ◌==◌, eq_iff}
use rackd.Error.{Result-cases, ok}
use rackd.Rows.{any-append}
use rackd.Model.{DeviceRow}
use rackd.Model.Device.{Device}
use rackd.Store.{Store, Env, enqueue}
use rackd.Storage.References.{enqueue-cases}
use rackd.Storage.Relationship.{
  upsert, add_relationship, remove_relationship, update_relationship_notes,
}
use rackd.Storage.CustomField.{
  set_custom_field_value, delete_custom_field_value, delete_custom_field_definition,
  create_custom_field_definition, update_custom_field_definition,
}
use rackd.Storage.Device.{has_device, device_row}
use rackd.Storage.Device.Change.{
  create_device, update_device, delete_device, delete_device_row, update_row,
}
use rackd.Storage.Device.Parts.{with_parts}
use rackd.Storage.Device.Owned.{added, create_device-ok, create_device_failed}
use rackd.Storage.Device.Kept.{
  rewritten, update_device-ok, update_device_failed, has_device-kept, delete_device_failed,
}
use rackd.Storage.Device.Delete.{without, delete_device-ok}
use rackd.Storage.Device.Steps.{
  Step, creates, updates, deletes, relates, renotes, parts, sets_value, deletes_value,
  creates_field, updates_field, deletes_field, Reach, here, next,
}

-- A discovered device was promoted to the device, which is there.
pub record IsPromoted (id : Text) (s : Store) : Type 0 where
  pub promoted : any (λ d. d == id) s.promoted_devices ≡ true
  pub there : has_device id s ≡ true

-- A change of other tables
moved :
    (id : Text) (s t : Store)
    → t.promoted_devices ≡ s.promoted_devices
    → t.devices ≡ s.devices
    → IsPromoted id s
    → IsPromoted id t
moved id s t p d h = record {
  promoted = ap (any (λ d. d == id)) p ∙ h.promoted;
  there = ap (any (λ (r : DeviceRow). r.id == id)) d ∙ h.there;
}

enqueue-IsPromoted :
    (env : Env) (action resource key id : Text) (s : Store)
    → IsPromoted id s
    → IsPromoted id (enqueue env action resource key s)
enqueue-IsPromoted env action resource key id s h = elim (enqueue-cases env action resource key s) [
  | inl e ↦ subst (IsPromoted id) (sym e) h
  | inr (q, e) ↦
      subst (IsPromoted id) (sym e) (moved id s (record s { audit_queue = q }) refl refl h)
]

create_device-IsPromoted :
    (env : Env) (d : Device) (id : Text) (s : Store)
    → IsPromoted id s
    → IsPromoted id (create_device env d s).1
create_device-IsPromoted env d id s h = elim (Result-cases (create_device env d s).0) [
  | inl (new, e) ↦
      let made = create_device-ok env d new s e in
      let more : has_device id (added new s) ≡ true =
        any-append (λ (r : DeviceRow). r.id == id) s.devices (device_row new ∷ [])
        ∙ ground (arith, h.there) in
      subst (IsPromoted id) (sym made.2) (
        enqueue-IsPromoted env (codes "create") (codes "device") new.id id
          (with_parts env new (added new s)) (record { promoted = h.promoted; there = more }))
  | inr (x, e) ↦ subst (IsPromoted id) (sym (create_device_failed env d s x e)) h
]

has_device-updated :
    (id : Text) (new : Device) (rows : List DeviceRow)
    → any (λ d. d.id == id) (map (update_row new) rows) ≡ any (λ d. d.id == id) rows
has_device-updated id new [] = refl
has_device-updated id new (d ∷ rows) =
    ground (arith, has_device-updated id new rows, eq_iff d.id new.id)

update_device-IsPromoted :
    (env : Env) (d : Device) (id : Text) (s : Store)
    → IsPromoted id s
    → IsPromoted id (update_device env d s).1
update_device-IsPromoted env d id s h = elim (Result-cases (update_device env d s).0) [
  | inl (new, e) ↦
      let left = update_device-ok env d new s e in
      subst (IsPromoted id) (sym left.4) (
        enqueue-IsPromoted env (codes "update") (codes "device") d.id id
          (with_parts env new (rewritten new s))
          (record { promoted = h.promoted; there = has_device-updated id new s.devices ∙ h.there }))
  | inr (x, e) ↦ subst (IsPromoted id) (sym (update_device_failed env d s x e)) h
]

-- A device that DeleteDevice takes away was not promoted.
deleted_other :
    (env : Env) (gone id : Text) (s : Store)
    → IsPromoted id s
    → (delete_device env gone s).0 ≡ ok tt
    → id == gone ≡ false
unfolding delete_device delete_device_row
deleted_other env gone id s h e = elim (Bool-cases (id == gone)) [
  | inl same ↦
      let held =
        subst (λ i. any (λ d. d == i) s.promoted_devices ≡ true) ((eq_iff id gone).0 same)
          h.promoted in
      absurd (ground arith)
  | inr other ↦ other
]

delete_device-IsPromoted :
    (env : Env) (gone id : Text) (s : Store)
    → IsPromoted id s
    → IsPromoted id (delete_device env gone s).1
delete_device-IsPromoted env gone id s h = elim (Result-cases (delete_device env gone s).0) [
  | inl (u, e) ↦ subst (IsPromoted id) (sym (delete_device-ok env gone s e).0) (
      enqueue-IsPromoted env (codes "delete") (codes "device") gone id (without gone s) (record {
        promoted = h.promoted;
        there = has_device-kept id gone s (deleted_other env gone id s h e) h.there;
      }))
  | inr (x, e) ↦ subst (IsPromoted id) (sym (delete_device_failed env gone s x e)) h
]

Step-IsPromoted : {s t : Store} → (id : Text) → Step s t → IsPromoted id s → IsPromoted id t
unfolding add_relationship upsert remove_relationship update_relationship_notes
    set_custom_field_value delete_custom_field_value create_custom_field_definition
    update_custom_field_definition delete_custom_field_definition enqueue
Step-IsPromoted id (creates env d s) h = create_device-IsPromoted env d id s h
Step-IsPromoted id (updates env d s) h = update_device-IsPromoted env d id s h
Step-IsPromoted id (deletes env gone s) h = delete_device-IsPromoted env gone id s h
Step-IsPromoted id (relates env parent child type notes s) h =
    moved id s _ (ground arith) (ground arith) h
Step-IsPromoted id (renotes env parent child type notes s) h =
    moved id s _ (ground arith) (ground arith) h
Step-IsPromoted id (parts env parent child type s) h = moved id s _ (ground arith) (ground arith) h
Step-IsPromoted id (sets_value env v s) h = moved id s _ (ground arith) (ground arith) h
Step-IsPromoted id (deletes_value device field s) h = moved id s _ (ground arith) (ground arith) h
Step-IsPromoted id (creates_field env d s) h = moved id s _ (ground arith) (ground arith) h
Step-IsPromoted id (updates_field env d s) h = moved id s _ (ground arith) (ground arith) h
Step-IsPromoted id (deletes_field field s) h = moved id s _ (ground arith) (ground arith) h

-- A device that is there and that a discovered device was promoted to is still there, and so is the
-- reference to it, after every history of CreateDevice, UpdateDevice, DeleteDevice, of changes of
-- relationships, of custom field definitions and of custom field values.
pub Reach-IsPromoted :
    (id : Text) (start s : Store) → IsPromoted id start → Reach start s → IsPromoted id s
Reach-IsPromoted id start s h here = h
Reach-IsPromoted id start s h (next r st) = Step-IsPromoted id st (Reach-IsPromoted id start _ h r)
