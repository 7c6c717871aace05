-- ===== src/Storage/Device/ReadBack.antt =====
-- internal/storage/device_sqlite.go: what GetDevice reads of a device whose parts were just inserted.
use rackd.Prelude.{
  ◌≡◌, refl, sym, subst, ap, ◌∙◌, true, false, not, some, List, [], ◌∷◌, ◌++◌, map, keep, find,
  arith, ℕ, ◌+◌, inl, inr, if◌then◌else◌,
}
use rackd.Text.{Text, codes, ◌==◌, is_empty, eq_iff}
use rackd.Error.{ok}
use rackd.Rows.{keep-none, any_none}
use rackd.Rows.Parts.{keep-append}
use rackd.Model.{AddressRow}
use rackd.Model.Device.{Address, Device, DeviceTag, DeviceDomain, CustomFieldValueInput}
use rackd.Store.{Store, Env, enqueue}
use rackd.Storage.Order.{sort_by, text_leb}
use rackd.Storage.Reservation.{null_string}
use rackd.Storage.Device.{has_device, device_row}
use rackd.Storage.Device.Read.{
  to_address, text_of, get_device, get_device_addresses, get_device_tags, get_device_domains,
  get_device_custom_fields,
}
use rackd.Storage.Device.Parts.{address_rows, tag_rows, domain_rows, with_parts}
use rackd.Storage.Device.Delete.{get_device-enqueue}
use rackd.Storage.Device.Owned.{Owned}
use rackd.Storage.References.{enqueue-cases}
use rackd.Storage.CustomField.View.{get_custom_field_values_with_definitions}

-- The addresses with the ids that the loop of inserts gives
abbrev pub numbered : Env → ℕ → List Address → List Address
numbered env i [] = []
numbered env i (a ∷ addresses) =
    record a { id = if is_empty a.id then env.row_uuid i else a.id }
    ∷ numbered env (i + 1) addresses

text_of-null_string : (t : Text) → text_of (null_string t) ≡ t
text_of-null_string [] = refl
text_of-null_string (c ∷ t) = refl

module _ (id : Text) where
  kept_addresses :
      (env : Env) (i : ℕ) (addresses : List Address)
      → map to_address (keep (λ a. a.device_id == id) (address_rows env id i addresses))
        ≡ numbered env i addresses
  kept_addresses env i [] = refl
  kept_addresses env i (a ∷ rest) = ground (
    arith,
    kept_addresses env (i + 1) rest,
    eq_iff id id,
    text_of-null_string a.network_id,
    text_of-null_string a.switch_port,
    text_of-null_string a.pool_id,
  )

  kept_tags :
      (tags : List Text)
      → map (λ (t : DeviceTag). t.tag) (keep (λ t. t.device_id == id) (tag_rows id tags)) ≡ tags
  kept_tags [] = refl
  kept_tags (t ∷ rest) = ground (arith, kept_tags rest, eq_iff id id)

  kept_domains :
      (domains : List Text)
      → map
          (λ (d : DeviceDomain). d.domain)
          (keep (λ d. d.device_id == id) (domain_rows id domains))
        ≡ domains
  kept_domains [] = refl
  kept_domains (d ∷ rest) = ground (arith, kept_domains rest, eq_iff id id)

-- No row of addresses, tags or domains belongs to the device.
pub record IsBare (id : Text) (s : Store) : Type 0 where
  pub addresses : keep (λ a. a.device_id == id) s.addresses ≡ []
  pub tags : keep (λ t. t.device_id == id) s.tags ≡ []
  pub domains : keep (λ d. d.device_id == id) s.domains ≡ []

-- The device as it is read back
abbrev pub read_back : Env → Device → Store → Device
read_back env d s = record d {
  tags = sort_by text_leb d.tags;
  domains = sort_by text_leb d.domains;
  addresses = numbered env 0 d.addresses;
  custom_fields = get_device_custom_fields d.id s;
}

parts_read :
    (env : Env) (d : Device) (s : Store)
    → IsBare d.id s
    → (get_device_addresses d.id (with_parts env d s) ≡ numbered env 0 d.addresses)
      × (get_device_tags d.id (with_parts env d s) ≡ sort_by text_leb d.tags)
      × (get_device_domains d.id (with_parts env d s) ≡ sort_by text_leb d.domains)
parts_read env d s b = (
  ap (map to_address) (
        keep-append (λ a. a.device_id == d.id) s.addresses (address_rows env d.id 0 d.addresses)
        ∙ ap
            (λ (r : List AddressRow).
              r ++ keep (λ a. a.device_id == d.id) (address_rows env d.id 0 d.addresses))
            b.addresses)
      ∙ kept_addresses d.id env 0 d.addresses,
  ap (λ (r : List DeviceTag). sort_by text_leb (map (λ (t : DeviceTag). t.tag) r))
        (keep-append (λ t. t.device_id == d.id) s.tags (tag_rows d.id d.tags)
          ∙ ap (λ (r : List DeviceTag). r ++ keep (λ t. t.device_id == d.id) (tag_rows d.id d.tags))
              b.tags)
      ∙ ap (sort_by text_leb) (kept_tags d.id d.tags),
  ap (λ (r : List DeviceDomain). sort_by text_leb (map (λ (t : DeviceDomain). t.domain) r))
        (keep-append (λ t. t.device_id == d.id) s.domains (domain_rows d.id d.domains)
          ∙ ap
              (λ (r : List DeviceDomain).
                r ++ keep (λ t. t.device_id == d.id) (domain_rows d.id d.domains))
              b.domains)
      ∙ ap (sort_by text_leb) (kept_domains d.id d.domains),
)

-- GetDevice of the row with the parts that were inserted
read-parts :
    (env : Env) (d : Device) (s : Store)
    → is_empty d.id ≡ false
    → find (λ r. r.id == d.id) s.devices ≡ some (device_row d)
    → IsBare d.id s
    → get_device d.id (with_parts env d s) ≡ ok (read_back env d (with_parts env d s))
unfolding get_device
read-parts env d s n f b = let parts = parts_read env d s b in ground arith

pub absent_device :
    (id i : Text) (s : Store)
    → has_device id s ≡ false
    → i == id ≡ true
    → not (has_device i s) ≡ true
absent_device id i s n e =
    subst (λ j. not (has_device j s) ≡ true) (sym ((eq_iff i id).0 e)) (ground arith)

pub Owned-IsBare : (id : Text) (s : Store) → Owned s → has_device id s ≡ false → IsBare id s
Owned-IsBare id s h n = record {
  addresses =
      keep-none (λ a. a.device_id == id) s.addresses
        (any_none (λ a. not (has_device a.device_id s)) (λ a. a.device_id == id) s.addresses
          (λ a e. absent_device id a.device_id s n e) h.addresses);
  tags =
      keep-none (λ t. t.device_id == id) s.tags
        (any_none (λ t. not (has_device t.device_id s)) (λ t. t.device_id == id) s.tags
          (λ t e. absent_device id t.device_id s n e) h.tags);
  domains =
      keep-none (λ d. d.device_id == id) s.domains
        (any_none (λ d. not (has_device d.device_id s)) (λ d. d.device_id == id) s.domains
          (λ d e. absent_device id d.device_id s n e) h.domains);
}

custom-enqueue :
    (id : Text) (env : Env) (action resource key : Text) (s : Store)
    → get_device_custom_fields id (enqueue env action resource key s)
      ≡ get_device_custom_fields id s
unfolding get_custom_field_values_with_definitions
custom-enqueue id env action resource key s = elim (enqueue-cases env action resource key s) [
  | inl e ↦ ap (get_device_custom_fields id) e
  | inr (q, e) ↦ ap (get_device_custom_fields id) e
]

-- The same through the audit entry
pub read-logged :
    (env : Env) (d : Device) (action : Text) (s t : Store)
    → t ≡ enqueue env action (codes "device") d.id (with_parts env d s)
    → is_empty d.id ≡ false
    → find (λ r. r.id == d.id) s.devices ≡ some (device_row d)
    → IsBare d.id s
    → get_device d.id t ≡ ok (read_back env d t)
read-logged env d action s t e n f b =
    let read =
      ap (get_device d.id) e
      ∙ get_device-enqueue d.id env action (codes "device") d.id (with_parts env d s)
      ∙ read-parts env d s n f b in
    let custom =
      ap (get_device_custom_fields d.id) e
      ∙ custom-enqueue d.id env action (codes "device") d.id (with_parts env d s) in
    let with_custom : List CustomFieldValueInput → Device =
      λ c. record (read_back env d t) { custom_fields = c } in
    read ∙ ap (λ c. ok (with_custom c)) (sym custom)
