-- ===== src/Storage/Device/Parts.antt =====
-- internal/storage/device_sqlite.go: what the loops of inserts leave, when they succeed.
use rackd.Prelude.{
  ℕ, ◌+◌, ◌≡◌, refl, ap, ◌∙◌, none, some, List, [], ◌∷◌, ◌++◌, map, append_assoc, append-nil,
  length, arith, if◌then◌else◌, Option-cases, inl, inr,
}
use rackd.Text.{Text, is_empty}
use rackd.Error.{ok}
use rackd.Model.{AddressRow}
use rackd.Model.Device.{
  Address, Device, DeviceTag, DeviceDomain, CustomFieldValue, CustomFieldValueInput,
  CustomFieldDefinition,
}
use rackd.Store.{Store, Env}
use rackd.Storage.CustomField.{find_definition}
use rackd.Model.CustomField.{new_value}
use rackd.Storage.Device.{
  address_row, insert_address, insert_device_addresses, insert_device_tag, insert_device_tags,
  insert_device_domain, insert_device_domains, insert_custom_field_value,
  insert_device_custom_field, insert_device_custom_fields, insert_parts,
}

abbrev pub address_rows : Env → Text → ℕ → List Address → List AddressRow
address_rows env device i [] = []
address_rows env device i (a ∷ addresses) =
    address_row env device i a ∷ address_rows env device (i + 1) addresses

abbrev pub tag_rows : Text → List Text → List DeviceTag
tag_rows device tags = map (λ t. record { device_id = device; tag = t }) tags

abbrev pub domain_rows : Text → List Text → List DeviceDomain
domain_rows device domains = map (λ d. record { device_id = device; domain = d }) domains

-- The row of an input, where its field is there
abbrev pub value_row : Env → Text → ℕ → CustomFieldValueInput → Store → List CustomFieldValue
value_row env device i cf s =
    if is_empty cf.field_id then [] else elim (find_definition cf.field_id s) [
      | none ↦ []
      | some d ↦ new_value (env.row_uuid i) device cf.field_id d.type cf.value ∷ []
    ]

abbrev pub value_rows : Env → Text → ℕ → List CustomFieldValueInput → Store → List CustomFieldValue
value_rows env device i [] s = []
value_rows env device i (cf ∷ fields) s =
    value_row env device i cf s ++ value_rows env device (i + 1) fields s

abbrev pub with_addresses : List AddressRow → Store → Store
with_addresses rows s = record s { addresses = s.addresses ++ rows }

insert_device_addresses-ok :
    (env : Env) (device : Text) (i : ℕ) (addresses : List Address) (s : Store)
    → (insert_device_addresses env device i addresses s).0 ≡ ok tt
    → (insert_device_addresses env device i addresses s).1
      ≡ with_addresses (address_rows env device i addresses) s
unfolding insert_device_addresses insert_address
insert_device_addresses-ok env device i [] s h = ground (arith, append-nil s.addresses)
insert_device_addresses-ok env device i (a ∷ rest) s h =
    let row = address_row env device i a in
    let t = with_addresses (row ∷ []) s in
    ground (
      arith,
      insert_device_addresses-ok env device (i + 1) rest t,
      append_assoc s.addresses (row ∷ []) (address_rows env device (i + 1) rest),
    )

abbrev pub with_tags : List DeviceTag → Store → Store
with_tags rows s = record s { tags = s.tags ++ rows }

insert_device_tags-ok :
    (device : Text) (tags : List Text) (s : Store)
    → (insert_device_tags device tags s).0 ≡ ok tt
    → (insert_device_tags device tags s).1 ≡ with_tags (tag_rows device tags) s
unfolding insert_device_tags insert_device_tag
insert_device_tags-ok device [] s h = ground (arith, append-nil s.tags)
insert_device_tags-ok device (tag ∷ rest) s h =
    let row : DeviceTag = record { device_id = device; tag = tag } in
    let t = with_tags (row ∷ []) s in
    ground (
      arith,
      insert_device_tags-ok device rest t,
      append_assoc s.tags (row ∷ []) (tag_rows device rest),
    )

abbrev pub with_domains : List DeviceDomain → Store → Store
with_domains rows s = record s { domains = s.domains ++ rows }

insert_device_domains-ok :
    (device : Text) (domains : List Text) (s : Store)
    → (insert_device_domains device domains s).0 ≡ ok tt
    → (insert_device_domains device domains s).1 ≡ with_domains (domain_rows device domains) s
unfolding insert_device_domains insert_device_domain
insert_device_domains-ok device [] s h = ground (arith, append-nil s.domains)
insert_device_domains-ok device (domain ∷ rest) s h =
    let row : DeviceDomain = record { device_id = device; domain = domain } in
    let t = with_domains (row ∷ []) s in
    ground (
      arith,
      insert_device_domains-ok device rest t,
      append_assoc s.domains (row ∷ []) (domain_rows device rest),
    )

abbrev pub with_values : List CustomFieldValue → Store → Store
with_values rows s = record s { custom_field_values = s.custom_field_values ++ rows }

insert_device_custom_field-ok :
    (env : Env) (device : Text) (i : ℕ) (cf : CustomFieldValueInput) (s : Store)
    → (insert_device_custom_field env device i cf s).0 ≡ ok tt
    → (insert_device_custom_field env device i cf s).1 ≡ with_values (value_row env device i cf s) s
unfolding insert_device_custom_field insert_custom_field_value
insert_device_custom_field-ok env device i cf s h =
    elim (Option-cases (find_definition cf.field_id s)) [
      | inl e ↦ ground (arith, append-nil s.custom_field_values)
      | inr (d, e) ↦ ground (arith, append-nil s.custom_field_values)
    ]

value_row-kept :
    (env : Env) (device : Text) (i : ℕ) (cf : CustomFieldValueInput) (s t : Store)
    → t.custom_field_definitions ≡ s.custom_field_definitions
    → value_row env device i cf t ≡ value_row env device i cf s
value_row-kept env device i cf s t e =
    ap
      (λ (defs : List CustomFieldDefinition).
        value_row env device i cf (record s { custom_field_definitions = defs }))
      e

value_rows-kept :
    (env : Env) (device : Text) (i : ℕ) (fields : List CustomFieldValueInput) (s t : Store)
    → t.custom_field_definitions ≡ s.custom_field_definitions
    → value_rows env device i fields t ≡ value_rows env device i fields s
value_rows-kept env device i [] s t e = refl
value_rows-kept env device i (cf ∷ fields) s t e =
    ap (λ (r : List CustomFieldValue). r ++ value_rows env device (i + 1) fields t)
      (value_row-kept env device i cf s t e)
    ∙ ap (λ (r : List CustomFieldValue). value_row env device i cf s ++ r)
        (value_rows-kept env device (i + 1) fields s t e)

insert_device_custom_fields-ok :
    (env : Env) (device : Text) (i : ℕ) (fields : List CustomFieldValueInput) (s : Store)
    → (insert_device_custom_fields env device i fields s).0 ≡ ok tt
    → (insert_device_custom_fields env device i fields s).1
      ≡ with_values (value_rows env device i fields s) s
unfolding insert_device_custom_fields
insert_device_custom_fields-ok env device i [] s h =
    ground (arith, append-nil s.custom_field_values)
insert_device_custom_fields-ok env device i (cf ∷ rest) s h =
    let row = value_row env device i cf s in
    let t = with_values row s in
    ground (
      arith,
      insert_device_custom_field-ok env device i cf s,
      insert_device_custom_fields-ok env device (i + 1) rest t,
      value_rows-kept env device (i + 1) rest s t refl,
      append_assoc s.custom_field_values row (value_rows env device (i + 1) rest s),
    )

-- The store with the rows of what belongs to the device
abbrev pub with_parts : Env → Device → Store → Store
with_parts env d s = record s {
  addresses = s.addresses ++ address_rows env d.id 0 d.addresses;
  tags = s.tags ++ tag_rows d.id d.tags;
  domains = s.domains ++ domain_rows d.id d.domains;
  custom_field_values =
      s.custom_field_values ++ value_rows env d.id (length d.addresses) d.custom_fields s;
}

pub insert_parts-ok :
    (env : Env) (d : Device) (s : Store)
    → (insert_parts env d s).0 ≡ ok tt
    → (insert_parts env d s).1 ≡ with_parts env d s
unfolding insert_parts
insert_parts-ok env d s h =
    let a = with_addresses (address_rows env d.id 0 d.addresses) s in
    let t = with_tags (tag_rows d.id d.tags) a in
    let m = with_domains (domain_rows d.id d.domains) t in
    ground (
      arith,
      insert_device_addresses-ok env d.id 0 d.addresses s,
      insert_device_tags-ok d.id d.tags a,
      insert_device_domains-ok d.id d.domains t,
      insert_device_custom_fields-ok env d.id (length d.addresses) d.custom_fields m,
      value_rows-kept env d.id (length d.addresses) d.custom_fields s m refl,
    )
