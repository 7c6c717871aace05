-- ===== src/Storage/Device/RoundTrip.antt =====
-- internal/storage/device_sqlite.go: GetDevice after CreateDevice and UpdateDevice.
use rackd.Prelude.{
  inl, inr, ◌≡◌, sym, subst, ap, ◌∙◌, false, not, some, List, [], ◌∷◌, map, find, arith,
}
use rackd.Text.{Text, codes, ◌==◌, is_empty, eq_iff}
use rackd.Error.{ok}
use rackd.Rows.{find-append}
use rackd.Rows.Parts.{keep-dropped}
use rackd.Model.{DeviceRow}
use rackd.Model.Device.{Device}
use rackd.Store.{Store, Env, enqueue}
use rackd.Storage.References.{enqueue-cases}
use rackd.Storage.Device.{device_row}
use rackd.Storage.Device.Read.{get_device}
use rackd.Storage.Device.Change.{
  create_device, update_device, update_row, stamp_device, stamp_update,
}
use rackd.Storage.Device.Parts.{with_parts}
use rackd.Storage.Device.Owned.{Owned, added, create_device-ok}
use rackd.Storage.Device.Kept.{rewritten, update_device-ok, stamp_update-id}
use rackd.Storage.Device.ReadBack.{IsBare, read_back, Owned-IsBare, read-logged}

-- If every address, tag, domain, custom field value and relationship refers to devices, a device
-- with an id that CreateDevice gives back is the stamped input, and GetDevice of its id gives that
-- device with the ids of its addresses filled in, its tags and domains in order, and the custom
-- field values that GetCustomFieldValuesWithDefinitions reads from the resulting store.
pub get_device-create_device :
    (env : Env) (device d : Device) (s : Store)
    → Owned s
    → (create_device env device s).0 ≡ ok d
    → is_empty d.id ≡ false
    → (d ≡ stamp_device env device)
      × (get_device d.id (create_device env device s).1
          ≡ ok (read_back env d (create_device env device s).1))
get_device-create_device env device d s h e n =
    let made = create_device-ok env device d s e in
    let bare = Owned-IsBare d.id s h made.1 in
    (
      made.0,
      read-logged env d (codes "create") (added d s) _ made.2 n
          (find-append (λ r. r.id == d.id) s.devices (device_row d) made.1
            (ground (arith, eq_iff d.id d.id)))
          (record { addresses = bare.addresses; tags = bare.tags; domains = bare.domains }),
    )

find-update_row :
    (new : Device) (old : DeviceRow) (rows : List DeviceRow)
    → find (λ r. r.id == new.id) rows ≡ some old
    → find (λ r. r.id == new.id) (map (update_row new) rows)
      ≡ some (record (device_row new) { created_at = old.created_at })
find-update_row new old [] f = absurd (ground arith)
find-update_row new old (r ∷ rows) f =
    ground (arith, find-update_row new old rows, eq_iff new.id new.id)

enqueue-devices :
    (env : Env) (action resource id : Text) (s : Store)
    → (enqueue env action resource id s).devices ≡ s.devices
enqueue-devices env action resource id s = elim (enqueue-cases env action resource id s) [
  | inl e ↦ ap (λ (t : Store). t.devices) e
  | inr (q, e) ↦ ap (λ (t : Store). t.devices) e
]

-- The row that UpdateDevice leaves
pub update_device-row :
    (env : Env) (device new : Device) (s : Store)
    → (update_device env device s).0 ≡ ok new
    → (old : DeviceRow) × (find (λ d. d.id == device.id) s.devices ≡ some old)
      × (new ≡ stamp_update env old device)
      × (find (λ d. d.id == device.id) (update_device env device s).1.devices
          ≡ some (record (device_row new) { created_at = old.created_at }))
update_device-row env device new s h =
    let made = update_device-ok env device new s h in
    let same : new.id ≡ device.id =
      ap (λ (d : Device). d.id) made.2 ∙ stamp_update-id env made.0 device in
    let rows : (update_device env device s).1.devices ≡ map (update_row new) s.devices =
      ap (λ (t : Store). t.devices) made.4
      ∙ enqueue-devices env (codes "update") (codes "device") device.id
          (with_parts env new (rewritten new s)) in
    let row : DeviceRow = record (device_row new) { created_at = made.0.created_at } in
    (
      made.0,
      made.1,
      made.2,
      ap (find (λ d. d.id == device.id)) rows
          ∙ subst (λ id. find (λ d. d.id == id) (map (update_row new) s.devices) ≡ some row) same
              (find-update_row new made.0 s.devices
                (subst (λ id. find (λ d. d.id == id) s.devices ≡ some made.0) (sym same) made.1)),
    )

rewritten-IsBare : (new : Device) (s : Store) → IsBare new.id (rewritten new s)
rewritten-IsBare new s = record {
  addresses =
      keep-dropped (λ a. a.device_id == new.id) (λ a. not (a.device_id == new.id)) s.addresses
        (λ a e. ground arith);
  tags =
      keep-dropped (λ a. a.device_id == new.id) (λ a. not (a.device_id == new.id)) s.tags
        (λ a e. ground arith);
  domains =
      keep-dropped (λ a. a.device_id == new.id) (λ a. not (a.device_id == new.id)) s.domains
        (λ a e. ground arith);
}

-- A device that UpdateDevice gives back is the input with its status and times completed from the
-- row that was there, and GetDevice of its id gives that device with the row's own creation time,
-- the ids of its addresses filled in, its tags and domains in order, and the custom field values
-- that GetCustomFieldValuesWithDefinitions reads from the resulting store.
pub get_device-update_device :
    (env : Env) (device new : Device) (s : Store)
    → (update_device env device s).0 ≡ ok new
    → (old : DeviceRow) × (find (λ d. d.id == device.id) s.devices ≡ some old)
      × (new ≡ stamp_update env old device)
      × (get_device device.id (update_device env device s).1
          ≡ ok (
              read_back env
                (record new { created_at = old.created_at })
                (update_device env device s).1))
get_device-update_device env device new s e =
    let made = update_device-ok env device new s e in
    let same : new.id ≡ device.id =
      ap (λ (d : Device). d.id) made.2 ∙ stamp_update-id env made.0 device in
    let read : get_device new.id (update_device env device s).1
        ≡ ok (
            read_back env (record new { created_at = made.0.created_at })
              (update_device env device s).1) =
      read-logged env (record new { created_at = made.0.created_at }) (codes "update")
        (rewritten new s) _
        (subst
          (λ id.
            (update_device env device s).1
            ≡ enqueue env (codes "update") (codes "device") id
                (with_parts env new (rewritten new s)))
          (sym same) made.4)
        (subst (λ id. is_empty id ≡ false) (sym same) made.3)
        (find-update_row new made.0 s.devices
          (subst (λ id. find (λ d. d.id == id) s.devices ≡ some made.0) (sym same) made.1))
        (rewritten-IsBare new s) in
    (
      made.0,
      made.1,
      made.2,
      ap (λ id. get_device id (update_device env device s).1) (sym same) ∙ read,
    )
