-- ===== src/Storage/Device/Owned.antt =====
-- Addresses, tags, domains, custom field values and relationships refer to devices: the foreign keys of
-- these tables.
use rackd.Prelude.{
  ◌≡◌, refl, sym, subst, ◌∙◌, Bool, true, false, not, List, [], ◌∷◌, ◌++◌, any, arith, ℕ, ◌+◌,
  length, Option-cases, inl, inr,
}
use rackd.Text.{Text, codes, ◌==◌}
use rackd.Error.{Error, ok, err}
use rackd.Rows.{any-append}
use rackd.Model.{DeviceRow}
use rackd.Model.Device.{Address, Device, CustomFieldValueInput}
use rackd.Store.{Store, Env, enqueue}
use rackd.Storage.References.{refers_mono, enqueue-cases}
use rackd.Storage.CustomField.{find_definition}
use rackd.Storage.Device.{has_device, device_row, insert_device}
use rackd.Storage.Device.Change.{stamp_device, create_device}
use rackd.Storage.Device.Parts.{
  address_rows, tag_rows, domain_rows, value_row, value_rows, with_parts, insert_parts-ok,
}

pub record Owned (s : Store) : Type 0 where
  pub addresses : any (λ a. not (has_device a.device_id s)) s.addresses ≡ false
  pub tags : any (λ t. not (has_device t.device_id s)) s.tags ≡ false
  pub domains : any (λ d. not (has_device d.device_id s)) s.domains ≡ false
  pub values : any (λ v. not (has_device v.device_id s)) s.custom_field_values ≡ false
  pub parents : any (λ r. not (has_device r.parent_id s)) s.relationships ≡ false
  pub children : any (λ r. not (has_device r.child_id s)) s.relationships ≡ false

pub enqueue-Owned :
    (env : Env) (action resource id : Text) (s : Store)
    → Owned s
    → Owned (enqueue env action resource id s)
enqueue-Owned env action resource id s h = elim (enqueue-cases env action resource id s) [
  | inl e ↦ subst Owned (sym e) h
  | inr (q, e) ↦ subst Owned (sym e) (record {
    addresses = h.addresses;
    tags = h.tags;
    domains = h.domains;
    values = h.values;
    parents = h.parents;
    children = h.children;
  })
]

module _ (env : Env) (device : Text) (here : Text → Bool) (is_here : here device ≡ true) where
  address_rows-here :
      (i : ℕ) (addresses : List Address)
      → any (λ a. not (here a.device_id)) (address_rows env device i addresses) ≡ false
  address_rows-here i [] = refl
  address_rows-here i (a ∷ rest) = ground (arith, address_rows-here (i + 1) rest)

  tag_rows-here :
      (tags : List Text) → any (λ t. not (here t.device_id)) (tag_rows device tags) ≡ false
  tag_rows-here [] = refl
  tag_rows-here (t ∷ rest) = ground (arith, tag_rows-here rest)

  domain_rows-here :
      (domains : List Text) → any (λ d. not (here d.device_id)) (domain_rows device domains) ≡ false
  domain_rows-here [] = refl
  domain_rows-here (d ∷ rest) = ground (arith, domain_rows-here rest)

  value_row-here :
      (i : ℕ) (cf : CustomFieldValueInput) (s : Store)
      → any (λ v. not (here v.device_id)) (value_row env device i cf s) ≡ false
  value_row-here i cf s = elim (Option-cases (find_definition cf.field_id s)) [
    | inl e ↦ ground arith
    | inr (d, e) ↦ ground arith
  ]

  value_rows-here :
      (i : ℕ) (fields : List CustomFieldValueInput) (s : Store)
      → any (λ v. not (here v.device_id)) (value_rows env device i fields s) ≡ false
  value_rows-here i [] s = refl
  value_rows-here i (cf ∷ rest) s = ground (
    arith,
    value_row-here i cf s,
    value_rows-here (i + 1) rest s,
    any-append (λ v. not (here v.device_id)) (value_row env device i cf s)
        (value_rows env device (i + 1) rest s),
  )

-- The rows of a device that is there keep the foreign keys.
pub with_parts-Owned :
    (env : Env) (d : Device) (s : Store)
    → Owned s
    → has_device d.id s ≡ true
    → Owned (with_parts env d s)
with_parts-Owned env d s h e = record {
  addresses =
      any-append (λ a. not (has_device a.device_id s)) s.addresses
        (address_rows env d.id 0 d.addresses)
      ∙ ground
          (arith, h.addresses, address_rows-here env d.id (λ i. has_device i s) e 0 d.addresses);
  tags =
      any-append (λ t. not (has_device t.device_id s)) s.tags (tag_rows d.id d.tags)
      ∙ ground (arith, h.tags, tag_rows-here env d.id (λ i. has_device i s) e d.tags);
  domains =
      any-append (λ t. not (has_device t.device_id s)) s.domains (domain_rows d.id d.domains)
      ∙ ground (arith, h.domains, domain_rows-here env d.id (λ i. has_device i s) e d.domains);
  values =
      any-append (λ t. not (has_device t.device_id s)) s.custom_field_values
        (value_rows env d.id (length d.addresses) d.custom_fields s)
      ∙ ground (
        arith,
        h.values,
        value_rows-here env d.id (λ i. has_device i s) e (length d.addresses) d.custom_fields s,
      );
  parents = h.parents;
  children = h.children;
}

-- More devices, or the same ones rewritten
pub devices-Owned :
    (rows : List DeviceRow) (s : Store)
    → ((id : Text) → has_device id s ≡ true → any (λ d. d.id == id) rows ≡ true)
    → Owned s
    → Owned (record s { devices = rows })
devices-Owned rows s k h = record {
  addresses =
      refers_mono (λ a. has_device a.device_id s) (λ a. any (λ d. d.id == a.device_id) rows)
        s.addresses h.addresses (λ a e. k a.device_id e);
  tags =
      refers_mono (λ a. has_device a.device_id s) (λ a. any (λ d. d.id == a.device_id) rows) s.tags
        h.tags (λ a e. k a.device_id e);
  domains =
      refers_mono (λ a. has_device a.device_id s) (λ a. any (λ d. d.id == a.device_id) rows)
        s.domains h.domains (λ a e. k a.device_id e);
  values =
      refers_mono (λ a. has_device a.device_id s) (λ a. any (λ d. d.id == a.device_id) rows)
        s.custom_field_values h.values (λ a e. k a.device_id e);
  parents =
      refers_mono (λ r. has_device r.parent_id s) (λ r. any (λ d. d.id == r.parent_id) rows)
        s.relationships h.parents (λ r e. k r.parent_id e);
  children =
      refers_mono (λ r. has_device r.child_id s) (λ r. any (λ d. d.id == r.child_id) rows)
        s.relationships h.children (λ r e. k r.child_id e);
}

-- The store with the row of a new device
abbrev pub added : Device → Store → Store
added d s = record s { devices = s.devices ++ device_row d ∷ [] }

pub create_device-ok :
    (env : Env) (device d : Device) (s : Store)
    → (create_device env device s).0 ≡ ok d
    → (d ≡ stamp_device env device)
      × (has_device d.id s ≡ false)
      × ((create_device env device s).1
          ≡ enqueue env (codes "create") (codes "device") d.id (with_parts env d (added d s)))
unfolding create_device insert_device
create_device-ok env device d s h =
    let st = stamp_device env device in ground (arith, insert_parts-ok env st (added st s))

pub create_device_failed :
    (env : Env) (device : Device) (s : Store) (e : Error)
    → (create_device env device s).0 ≡ err e
    → (create_device env device s).1 ≡ s
unfolding create_device
create_device_failed env device s e h = ground arith
