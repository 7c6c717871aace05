-- ===== src/Service/Conflict/Resolve.antt =====
-- internal/service/conflict.go, Resolve: who still has the address of a conflict that is resolved.
use rackd.Prelude.{
  ◌≡◌, ◌⊎◌, sym, subst, ap, ◌∙◌, true, false, List, [], ◌∷◌, any, find, arith, Bool-cases,
  Option-cases, inl, inr,
}
use rackd.Text.{Text, ◌==◌, is_empty, eq_iff}
use rackd.Error.{ok, Result-cases}
use rackd.Rows.{any_of_find}
use rackd.Model.Device.{Device}
use rackd.Model.Conflict.{Conflict}
use rackd.Store.{Store, Env}
use rackd.Storage.Device.{has_device}
use rackd.Storage.Device.Read.{get_device}
use rackd.Storage.Device.Change.{update_device}
use rackd.Storage.Conflict.{duplicate_ip, resolved, get_conflict, update_conflict_status}
use rackd.Service.Access.{require_permission, enrich_audit}
use rackd.Service.Conflict.{
  user_of, ConflictResolution, without_ip, take_ip, take_ips, resolve_duplicate_ip, resolve,
}
use rackd.Service.Conflict.Taken.{holds_ip, kept_own, taken_addresses, taken_devices, taken_keeps}

take_ip-cases :
    (env : Env) (ip keeper id : Text) (s : Store)
    → ((take_ip env ip keeper id s).1 ≡ s)
      ⊎ ((d : Device) × (get_device id s ≡ ok d)
          × ((take_ip env ip keeper id s).1
              ≡ (update_device (enrich_audit env) (without_ip ip d) s).1))
unfolding take_ip
take_ip-cases env ip keeper id s = elim (Result-cases (get_device id s)) [
  | inl (d, g) ↦ elim (Bool-cases (id == keeper)) [
    | inl e ↦ inl (ground arith)
    | inr e ↦ inr (d, g, ground (arith))
  ]
  | inr (x, g) ↦ inl (ground arith)
]

take_ip-keeps :
    (env : Env) (ip keeper id device : Text) (s : Store)
    → any (holds_ip device ip) s.addresses ≡ false
    → any (holds_ip device ip) (take_ip env ip keeper id s).1.addresses ≡ false
take_ip-keeps env ip keeper id device s h = elim (take_ip-cases env ip keeper id s) [
  | inl e ↦ ap (λ (t : Store). any (holds_ip device ip) t.addresses) e ∙ h
  | inr (d, g, e) ↦
      ap (λ (t : Store). any (holds_ip device ip) t.addresses) e
      ∙ taken_keeps (enrich_audit env) ip id d s g device h
]

take_ip-has_device :
    (env : Env) (ip keeper id device : Text) (s : Store)
    → has_device device s ≡ true
    → has_device device (take_ip env ip keeper id s).1 ≡ true
take_ip-has_device env ip keeper id device s h = elim (take_ip-cases env ip keeper id s) [
  | inl e ↦ ap (has_device device) e ∙ h
  | inr (d, g, e) ↦ ap (has_device device) e ∙ taken_devices (enrich_audit env) ip id d s g device h
]

get_device_there :
    (id : Text) (s : Store)
    → is_empty id ≡ false
    → has_device id s ≡ true
    → (d : Device) × (get_device id s ≡ ok d)
unfolding get_device
get_device_there id s n h = elim (Result-cases (get_device id s)) [
  | inl (d, g) ↦ (d, g)
  | inr (x, g) ↦ elim (Option-cases (find (λ r. r.id == id) s.devices)) [
    | inl e ↦ absurd (ground (arith, any_of_find (λ r. r.id == id) s.devices))
    | inr (r, e) ↦ absurd (ground arith)
  ]
]

take_ip-clears :
    (env : Env) (ip keeper id : Text) (s : Store)
    → (take_ip env ip keeper id s).0 ≡ ok tt
    → id == keeper ≡ false
    → is_empty id ≡ false
    → has_device id s ≡ true
    → any (holds_ip id ip) (take_ip env ip keeper id s).1.addresses ≡ false
unfolding take_ip
take_ip-clears env ip keeper id s h k n there =
    let (d, g) = get_device_there id s n there in
    elim (Result-cases (update_device (enrich_audit env) (without_ip ip d) s).0) [
      | inl (new, e) ↦
          let left = taken_addresses (enrich_audit env) ip id d s g new e id in
          let none_left = kept_own id ip s.addresses in ground arith
      | inr (x, e) ↦ absurd (ground arith)
    ]

take_ips-keeps :
    (env : Env) (ip keeper device : Text) (ids : List Text) (s : Store)
    → any (holds_ip device ip) s.addresses ≡ false
    → any (holds_ip device ip) (take_ips env ip keeper ids s).1.addresses ≡ false
unfolding take_ips
take_ips-keeps env ip keeper device [] s h = h
take_ips-keeps env ip keeper device (id ∷ ids) s h =
    let kept = take_ip-keeps env ip keeper id device s h in
    ground (arith, take_ips-keeps env ip keeper device ids (take_ip env ip keeper id s).1 kept)

take_ips-clears :
    (env : Env) (ip keeper device : Text) (ids : List Text) (s : Store)
    → (take_ips env ip keeper ids s).0 ≡ ok tt
    → any (λ i. i == device) ids ≡ true
    → device == keeper ≡ false
    → is_empty device ≡ false
    → has_device device s ≡ true
    → any (holds_ip device ip) (take_ips env ip keeper ids s).1.addresses ≡ false
unfolding take_ips
take_ips-clears env ip keeper device [] s h m k n there = absurd (ground arith)
take_ips-clears env ip keeper device (id ∷ ids) s h m k n there =
    let t = (take_ip env ip keeper id s).1 in
    elim (Result-cases (take_ip env ip keeper id s).0) [
      | inl (tt, e) ↦ elim (Bool-cases (id == device)) [
        | inl same ↦
            let own =
              subst (λ i. any (holds_ip device ip) (take_ip env ip keeper i s).1.addresses ≡ false)
                (sym ((eq_iff id device).0 same))
                (take_ip-clears env ip keeper device s
                  (subst (λ i. (take_ip env ip keeper i s).0 ≡ ok tt) ((eq_iff id device).0 same) e)
                  k n there) in
            ground (arith, take_ips-keeps env ip keeper device ids t own)
        | inr other ↦
            let still = take_ip-has_device env ip keeper id device s there in
            ground (arith, take_ips-clears env ip keeper device ids t)
      ]
      | inr (x, e) ↦ absurd (ground arith)
    ]

update_conflict_status-addresses :
    (env : Env) (id status by notes : Text) (s : Store)
    → (update_conflict_status env id status by notes s).1.addresses ≡ s.addresses
unfolding update_conflict_status
update_conflict_status-addresses env id status by notes s = ground arith

-- After a successful Resolve of a duplicate IP conflict with a device that keeps the address, no
-- other device that the conflict lists and that was there, with an id, has the address.
pub resolve_leaves_one :
    (env : Env) (r : ConflictResolution) (c : Conflict) (device : Text) (s : Store)
    → (resolve env r s).0 ≡ ok tt
    → get_conflict r.conflict_id s ≡ ok c
    → c.type ≡ duplicate_ip
    → is_empty r.keep_device_id ≡ false
    → any (λ i. i == device) c.device_ids ≡ true
    → device == r.keep_device_id ≡ false
    → is_empty device ≡ false
    → has_device device s ≡ true
    → any (holds_ip device c.ip_address) (resolve env r s).1.addresses ≡ false
unfolding resolve resolve_duplicate_ip require_permission
resolve_leaves_one env r c device s h g t k m other n there =
    let taken = take_ips-clears env c.ip_address r.keep_device_id device c.device_ids s in
    let after = (take_ips env c.ip_address r.keep_device_id c.device_ids s).1 in
    let kind : c.type == duplicate_ip ≡ true = (eq_iff c.type duplicate_ip).1 t in
    ground (
      arith,
      taken,
      update_conflict_status-addresses (enrich_audit env) r.conflict_id resolved (user_of env)
          r.notes after,
    )
