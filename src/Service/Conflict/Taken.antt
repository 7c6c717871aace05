-- ===== src/Service/Conflict/Taken.antt =====
-- internal/service/conflict.go, resolveDuplicateIP: the update that takes an address away from a device.
use rackd.Prelude.{
  ◌≡◌, refl, ap, ◌∙◌, Bool, true, false, not, ◌&&◌, ◌||◌, List, [], ◌∷◌, ◌++◌, ℕ, ◌+◌, any, keep,
  find, map, arith, Bool-cases, Option-cases, inl, inr,
}
use rackd.Text.{Text, codes, ◌==◌, eq_iff}
use rackd.Error.{ok, Result-cases}
use rackd.Rows.{any-append, find-any}
use rackd.Model.{AddressRow, DeviceRow}
use rackd.Model.Device.{Address, Device}
use rackd.Store.{Store, Env, enqueue}
use rackd.Storage.Device.{has_device}
use rackd.Storage.Device.Read.{get_device}
use rackd.Storage.Device.Change.{update_device, stamp_update, update_row}
use rackd.Storage.Device.Parts.{address_rows, with_parts}
use rackd.Storage.Device.Kept.{
  update_device-ok, update_device_failed, update_row-ids, rewritten, stamp_update-id,
}
use rackd.Storage.References.{enqueue-cases}
use rackd.Service.Conflict.{without_ip}

-- The device has the address.
abbrev pub holds_ip : Text → Text → AddressRow → Bool
holds_ip device ip a = a.device_id == device && a.ip == ip

enqueue-tables :
    (env : Env) (action resource id : Text) (s : Store)
    → ((enqueue env action resource id s).addresses ≡ s.addresses)
      × ((enqueue env action resource id s).devices ≡ s.devices)
enqueue-tables env action resource id s = elim (enqueue-cases env action resource id s) [
  | inl e ↦ (ap (λ (t : Store). t.addresses) e, ap (λ (t : Store). t.devices) e)
  | inr (q, e) ↦ (ap (λ (t : Store). t.addresses) e, ap (λ (t : Store). t.devices) e)
]

stamp_update-addresses :
    (env : Env) (old : DeviceRow) (d : Device) → (stamp_update env old d).addresses ≡ d.addresses
stamp_update-addresses env old d = ground arith

-- The addresses and the devices after an update
update_device-tables :
    (env : Env) (device new : Device) (s : Store)
    → (update_device env device s).0 ≡ ok new
    → ((update_device env device s).1.addresses
        ≡ keep (λ a. not (a.device_id == device.id)) s.addresses
          ++ address_rows env device.id 0 device.addresses)
      × ((update_device env device s).1.devices ≡ map (update_row new) s.devices)
update_device-tables env device new s h =
    let made = update_device-ok env device new s h in
    let id = ap (λ (d : Device). d.id) made.2 ∙ stamp_update-id env made.0 device in
    let addresses =
      ap (λ (d : Device). d.addresses) made.2 ∙ stamp_update-addresses env made.0 device in
    let logged =
      enqueue-tables env (codes "update") (codes "device") device.id
        (with_parts env new (rewritten new s)) in
    (
      ap (λ (t : Store). t.addresses) made.4
          ∙ logged.0
          ∙ ap
              (λ i.
                keep (λ a. not (a.device_id == i)) s.addresses
                ++ address_rows env i 0 new.addresses)
              id
          ∙ ap
              (λ (l : List Address).
                keep (λ a. not (a.device_id == device.id)) s.addresses
                ++ address_rows env device.id 0 l)
              addresses,
      ap (λ (t : Store). t.devices) made.4 ∙ logged.1,
    )

-- No row that is made of addresses without the address has it.
rows_without :
    (env : Env) (owner device ip : Text) (i : ℕ) (addresses : List Address)
    → any
        (holds_ip device ip)
        (address_rows env owner i (keep {A = Address} (λ a. not (a.ip == ip)) addresses))
      ≡ false
rows_without env owner device ip i [] = refl
rows_without env owner device ip i (a ∷ rest) = elim (Bool-cases (a.ip == ip)) [
  | inl e ↦ ground (arith, rows_without env owner device ip i rest)
  | inr n ↦ ground (arith, rows_without env owner device ip (i + 1) rest)
]

kept_without :
    (device gone ip : Text) (rows : List AddressRow)
    → any (holds_ip device ip) rows ≡ false
    → any (holds_ip device ip) (keep (λ a. not (a.device_id == gone)) rows) ≡ false
kept_without device gone ip [] h = refl
kept_without device gone ip (a ∷ rows) h = ground (arith, kept_without device gone ip rows)

pub kept_own :
    (device ip : Text) (rows : List AddressRow)
    → any (holds_ip device ip) (keep (λ a. not (a.device_id == device)) rows) ≡ false
kept_own device ip [] = refl
kept_own device ip (a ∷ rows) = ground (arith, kept_own device ip rows)

pub get_device-id : (id : Text) (d : Device) (s : Store) → get_device id s ≡ ok d → d.id ≡ id
unfolding get_device
get_device-id id d s h = elim (Option-cases (find (λ r. r.id == id) s.devices)) [
  | inl e ↦ absurd (ground arith)
  | inr (r, e) ↦
      let at = (eq_iff r.id id).0 (find-any (λ q. q.id == id) s.devices r e).1 in ground arith
]

-- The update that takes the address away, on its two ends
module _ (env : Env) (ip other : Text) (d : Device) (s : Store)
    (g : get_device other s ≡ ok d) where
  pub taken_addresses :
      (new : Device)
      → (update_device env (without_ip ip d) s).0 ≡ ok new
      → (device : Text)
      → any (holds_ip device ip) (update_device env (without_ip ip d) s).1.addresses
        ≡ any (holds_ip device ip) (keep (λ a. not (a.device_id == other)) s.addresses)
  taken_addresses new h device =
      let tables = update_device-tables env (without_ip ip d) new s h in
      let left = keep (λ a. not (a.device_id == d.id)) s.addresses in
      let rows = address_rows env d.id 0 (without_ip ip d).addresses in
      ap (any (holds_ip device ip)) tables.0
      ∙ any-append (holds_ip device ip) left rows
      ∙ ap (λ b. any (holds_ip device ip) left || b) (rows_without env d.id device ip 0 d.addresses)
      ∙ ground (arith, get_device-id other d s g)

  pub taken_devices :
      (device : Text)
      → has_device device s ≡ true
      → has_device device (update_device env (without_ip ip d) s).1 ≡ true
  taken_devices device h = elim (Result-cases (update_device env (without_ip ip d) s).0) [
    | inl (new, e) ↦
        ap (any (λ r. r.id == device)) (update_device-tables env (without_ip ip d) new s e).1
        ∙ update_row-ids new device s.devices
        ∙ h
    | inr (x, e) ↦ ap (has_device device) (update_device_failed env (without_ip ip d) s x e) ∙ h
  ]

  pub taken_keeps :
      (device : Text)
      → any (holds_ip device ip) s.addresses ≡ false
      → any (holds_ip device ip) (update_device env (without_ip ip d) s).1.addresses ≡ false
  taken_keeps device h = elim (Result-cases (update_device env (without_ip ip d) s).0) [
    | inl (new, e) ↦ taken_addresses new e device ∙ kept_without device other ip s.addresses h
    | inr (x, e) ↦
        ap (λ (t : Store). any (holds_ip device ip) t.addresses)
          (update_device_failed env (without_ip ip d) s x e)
        ∙ h
  ]
