-- ===== src/Storage/Device/Delete.antt =====
-- internal/storage/device_sqlite.go, DeleteDevice: what is gone, and what stays.
use rackd.Prelude.{
  ◌≡◌, refl, sym, subst, ap, ◌∙◌, true, false, not, List, [], ◌∷◌, find, keep, map, arith,
  if◌then◌else◌, inl, inr, Bool-cases, Option-cases, ◌||◌,
}
use rackd.Text.{Text, codes, ◌==◌, is_empty, eq_iff}
use rackd.Error.{ok, err, device_not_found}
use rackd.Rows.{find-any}
use rackd.Rows.Parts.{keep-others, find-others, find-dropped}
use rackd.Model.{DeviceRow}
use rackd.Model.Device.{
  DeviceTag, DeviceDomain, CustomFieldValue, CustomFieldDefinition, CustomFieldValueInput,
}
use rackd.Store.{Store, Env, enqueue}
use rackd.Storage.Order.{sort_by, text_leb}
use rackd.Storage.CustomField.{is_value, by_name}
use rackd.Storage.CustomField.View.{
  with_value, CustomFieldWithDefinition, get_custom_field_values_with_definitions,
}
use rackd.Storage.Device.Read.{
  get_device, get_device_custom_fields, get_device_addresses, get_device_tags, get_device_domains,
  to_address, to_device,
}
use rackd.Storage.Device.Change.{delete_device, delete_device_row, delete_parts}
use rackd.Storage.References.{enqueue-cases}

pub get_device-enqueue :
    (id : Text) (env : Env) (action resource key : Text) (s : Store)
    → get_device id (enqueue env action resource key s) ≡ get_device id s
unfolding get_device get_custom_field_values_with_definitions
get_device-enqueue id env action resource key s = elim (enqueue-cases env action resource key s) [
  | inl e ↦ ap (get_device id) e
  | inr (q, e) ↦ ap (get_device id) e
]

-- The row of another device
other_row :
    (row other id : Text) → other == id ≡ false → row == other ≡ true → not (row == id) ≡ true
other_row row other id n e = ground (arith, eq_iff row other, eq_iff row id, eq_iff other id)

with_value-others :
    (id other : Text) (values : List CustomFieldValue) (defs : List CustomFieldDefinition)
    → other == id ≡ false
    → with_value other (keep (λ v. not (v.device_id == id)) values) defs
      ≡ with_value other values defs
with_value-others id other values [] n = refl
with_value-others id other values (d ∷ defs) n =
    let same =
      find-others (is_value other d.id) (λ v. not (v.device_id == id)) values
        (λ v e. other_row v.device_id other id n (ground arith)) in
    let rest = with_value-others id other values defs n in ground arith

-- The store without a device
abbrev pub without : Text → Store → Store
without id s = record (delete_parts id s) {
  devices = keep (λ d. not (d.id == id)) s.devices;
  relationships = keep (λ r. not (r.parent_id == id || r.child_id == id)) s.relationships;
}

custom-without :
    (id other : Text) (s : Store)
    → other == id ≡ false
    → get_device_custom_fields other (without id s) ≡ get_device_custom_fields other s
unfolding get_custom_field_values_with_definitions
custom-without id other s n =
    ap
      (λ (fs : List CustomFieldWithDefinition).
        map {B = CustomFieldValueInput}
          (λ f. record { field_id = f.definition.id; value = f.value }) fs)
      (with_value-others id other s.custom_field_values (by_name s.custom_field_definitions) n)

parts-without :
    (id other : Text) (s : Store)
    → other == id ≡ false
    → (get_device_addresses other (without id s) ≡ get_device_addresses other s)
      × (get_device_tags other (without id s) ≡ get_device_tags other s)
      × (get_device_domains other (without id s) ≡ get_device_domains other s)
parts-without id other s n = (
  ap (map to_address) (
      keep-others (λ a. a.device_id == other) (λ a. not (a.device_id == id)) s.addresses
        (λ a e. other_row a.device_id other id n e)),
  ap (λ (r : List DeviceTag). sort_by text_leb (map (λ (t : DeviceTag). t.tag) r))
      (keep-others (λ t. t.device_id == other) (λ t. not (t.device_id == id)) s.tags
        (λ t e. other_row t.device_id other id n e)),
  ap (λ (r : List DeviceDomain). sort_by text_leb (map (λ (d : DeviceDomain). d.domain) r))
      (keep-others (λ t. t.device_id == other) (λ t. not (t.device_id == id)) s.domains
        (λ t e. other_row t.device_id other id n e)),
)

to_device-parts :
    (s t : Store) (custom : List CustomFieldValueInput) (d : DeviceRow)
    → get_device_addresses d.id t ≡ get_device_addresses d.id s
    → get_device_tags d.id t ≡ get_device_tags d.id s
    → get_device_domains d.id t ≡ get_device_domains d.id s
    → to_device t custom d ≡ to_device s custom d
to_device-parts s t custom d a b c = cc

get_device-without :
    (id other : Text) (s : Store)
    → other == id ≡ false
    → get_device other (without id s) ≡ get_device other s
unfolding get_device
get_device-without id other s n = elim (Option-cases (find (λ d. d.id == other) s.devices)) [
  | inl e ↦
      let f =
        find-others (λ d. d.id == other) (λ d. not (d.id == id)) s.devices
          (λ d k. other_row d.id other id n k) in
      ground arith
  | inr (d, e) ↦
      let f =
        find-others (λ d. d.id == other) (λ d. not (d.id == id)) s.devices
          (λ d k. other_row d.id other id n k) in
      let at = (eq_iff d.id other).0 (find-any (λ d. d.id == other) s.devices d e).1 in
      let p = parts-without id d.id s (subst (λ o. o == id ≡ false) (sym at) n) in
      let c = custom-without id other s n in
      let parts =
        to_device-parts s (without id s) (get_device_custom_fields other s) d p.0 p.1 p.2 in
      ground arith
]

get_device-gone :
    (id : Text) (s : Store)
    → is_empty id ≡ false
    → get_device id (without id s) ≡ err device_not_found
unfolding get_device
get_device-gone id s n =
    ground (
      arith,
      find-dropped (λ d. d.id == id) (λ d. not (d.id == id)) s.devices (λ d e. ground arith),
    )

pub delete_device-ok :
    (env : Env) (id : Text) (s : Store)
    → (delete_device env id s).0 ≡ ok tt
    → ((delete_device env id s).1 ≡ enqueue env (codes "delete") (codes "device") id (without id s))
      × (is_empty id ≡ false)
unfolding delete_device delete_device_row
delete_device-ok env id s h = ground arith

-- After a successful DeleteDevice, GetDevice of its id fails with ErrDeviceNotFound, and GetDevice
-- of any other id gives what it gave before.
pub delete_device-get :
    (env : Env) (id other : Text) (s : Store)
    → (delete_device env id s).0 ≡ ok tt
    → get_device other (delete_device env id s).1
      ≡ (if other == id then err device_not_found else get_device other s)
delete_device-get env id other s h =
    let left = delete_device-ok env id s h in
    let seen =
      ap (get_device other) left.0
      ∙ get_device-enqueue other env (codes "delete") (codes "device") id (without id s) in
    elim (Bool-cases (other == id)) [
      | inl e ↦
          let same = (eq_iff other id).0 e in
          seen
          ∙ rw e (
              subst (λ o. get_device o (without id s) ≡ err device_not_found) (sym same)
                (get_device-gone id s left.1))
      | inr n ↦ seen ∙ rw n (get_device-without id other s n)
    ]
