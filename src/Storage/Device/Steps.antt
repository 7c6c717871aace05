-- ===== src/Storage/Device/Steps.antt =====
-- Histories of the methods that write devices, relationships and custom field values
-- (internal/storage/device_sqlite.go, relationship_sqlite.go and custom_field_sqlite.go).
use rackd.Prelude.{
  ◌≡◌, ◌⊎◌, refl, sym, subst, ◌∙◌, Bool, true, false, not, ◌&&◌, ◌||◌, none, some, List, [], ◌∷◌,
  ◌++◌, map, any, keep, find, arith, Bool-cases, inl, inr,
}
use rackd.Text.{Text, codes, ◌==◌}
use rackd.Error.{Result-cases}
use rackd.Rows.{any-append}
use rackd.Model.{DeviceRelationship}
use rackd.Model.Device.{Device, CustomFieldValue, CustomFieldDefinition}
use rackd.Store.{Store, Env, or_uuid}
use rackd.Storage.References.{refers-keep}
use rackd.Storage.Relationship.{
  is_edge, device_exists, set_notes, upsert, edge_name, add_relationship, remove_relationship,
  update_relationship_notes,
}
use rackd.Storage.CustomField.{
  set_custom_field_value, delete_custom_field_value, delete_custom_field_definition,
  create_custom_field_definition, update_custom_field_definition, is_value, refers,
}
use rackd.Storage.Device.{has_device}
use rackd.Storage.Device.Change.{create_device, update_device, delete_device}
use rackd.Storage.Device.Owned.{Owned, enqueue-Owned}
use rackd.Storage.Device.Kept.{create_device-Owned, update_device-Owned, delete_device-Owned}

-- The stores before and after one method
pub data Step : Store → Store → Type 0 where
  creates : (env : Env) (d : Device) (s : Store) → Step s (create_device env d s).1
  updates : (env : Env) (d : Device) (s : Store) → Step s (update_device env d s).1
  deletes : (env : Env) (id : Text) (s : Store) → Step s (delete_device env id s).1
  relates :
      (env : Env) (parent child type notes : Text) (s : Store)
      → Step s (add_relationship env parent child type notes s).1
  renotes :
      (env : Env) (parent child type notes : Text) (s : Store)
      → Step s (update_relationship_notes env parent child type notes s).1
  parts :
      (env : Env) (parent child type : Text) (s : Store)
      → Step s (remove_relationship env parent child type s).1
  sets_value :
      (env : Env) (v : CustomFieldValue) (s : Store) → Step s (set_custom_field_value env v s).1
  deletes_value :
      (device field : Text) (s : Store) → Step s (delete_custom_field_value device field s).1
  creates_field :
      (env : Env) (d : CustomFieldDefinition) (s : Store)
      → Step s (create_custom_field_definition env d s).1
  updates_field :
      (env : Env) (d : CustomFieldDefinition) (s : Store)
      → Step s (update_custom_field_definition env d s).1
  deletes_field : (id : Text) (s : Store) → Step s (delete_custom_field_definition id s).1

pub data Reach (start : Store) : Store → Type 0 where
  here : Reach start start
  next : {s t : Store} → Reach start s → Step s t → Reach start t

relationships-Owned :
    (rows : List DeviceRelationship) (s : Store)
    → any (λ r. not (has_device r.parent_id s)) rows ≡ false
    → any (λ r. not (has_device r.child_id s)) rows ≡ false
    → Owned s
    → Owned (record s { relationships = rows })
relationships-Owned rows s p c h = record {
  addresses = h.addresses;
  tags = h.tags;
  domains = h.domains;
  values = h.values;
  parents = p;
  children = c;
}

set_notes-refers :
    (parent child type notes : Text) (found : Text → Bool) (rows : List DeviceRelationship)
    → (any (λ r. not (found r.parent_id)) (map (set_notes parent child type notes) rows)
        ≡ any (λ r. not (found r.parent_id)) rows)
      × (any (λ r. not (found r.child_id)) (map (set_notes parent child type notes) rows)
          ≡ any (λ r. not (found r.child_id)) rows)
set_notes-refers parent child type notes found [] = (refl, refl)
set_notes-refers parent child type notes found (r ∷ rows) =
    let rest = set_notes-refers parent child type notes found rows in
    (ground (arith), ground (arith))

renoted-Owned :
    (parent child type notes : Text) (s : Store)
    → Owned s
    → Owned (record s { relationships = map (set_notes parent child type notes) s.relationships })
renoted-Owned parent child type notes s h =
    let r = set_notes-refers parent child type notes (λ id. has_device id s) s.relationships in
    relationships-Owned (map (set_notes parent child type notes) s.relationships) s
      (r.0 ∙ h.parents) (r.1 ∙ h.children) h

upsert-Owned : (r : DeviceRelationship) (s : Store) → Owned s → Owned (upsert r s).1
unfolding upsert
upsert-Owned r s h =
    elim (Bool-cases (any (is_edge r.parent_id r.child_id r.type) s.relationships)) [
      | inl e ↦
          subst Owned (ground (arith)) (renoted-Owned r.parent_id r.child_id r.type r.notes s h)
      | inr n ↦ elim (Bool-cases (device_exists r.parent_id s && device_exists r.child_id s)) [
        | inl e ↦
            let made =
              relationships-Owned (s.relationships ++ r ∷ []) s
                (any-append (λ q. not (has_device q.parent_id s)) s.relationships (r ∷ [])
                  ∙ ground (arith, h.parents))
                (any-append (λ q. not (has_device q.child_id s)) s.relationships (r ∷ [])
                  ∙ ground (arith, h.children))
                h in
            subst Owned (ground (arith)) made
        | inr m ↦ subst Owned (ground (arith)) h
      ]
    ]

add_relationship-Owned :
    (env : Env) (parent child type notes : Text) (s : Store)
    → Owned s
    → Owned (add_relationship env parent child type notes s).1
unfolding add_relationship
add_relationship-Owned env parent child type notes s h =
    let r : DeviceRelationship = record {
      parent_id = parent;
      child_id = child;
      type = type;
      notes = notes;
      created_at = env.now;
    } in
    let kept = upsert-Owned r s h in
    elim (Result-cases (upsert r s).0) [
      | inl (u, e) ↦
          subst Owned (ground (arith))
            (enqueue-Owned env (codes "add") (codes "relationship") (edge_name parent child) _ kept)
      | inr (x, e) ↦ subst Owned (ground (arith)) kept
    ]

values-Owned :
    (rows : List CustomFieldValue) (s : Store)
    → any (λ v. not (has_device v.device_id s)) rows ≡ false
    → Owned s
    → Owned (record s { custom_field_values = rows })
values-Owned rows s v h = record {
  addresses = h.addresses;
  tags = h.tags;
  domains = h.domains;
  values = v;
  parents = h.parents;
  children = h.children;
}

definitions-Owned :
    (rows : List CustomFieldDefinition) (s : Store)
    → Owned s
    → Owned (record s { custom_field_definitions = rows })
definitions-Owned rows s h = record {
  addresses = h.addresses;
  tags = h.tags;
  domains = h.domains;
  values = h.values;
  parents = h.parents;
  children = h.children;
}

keep_values-Owned :
    (p : CustomFieldValue → Bool) (s : Store)
    → Owned s
    → Owned (record s { custom_field_values = keep p s.custom_field_values })
keep_values-Owned p s h =
    values-Owned (keep p s.custom_field_values) s
      (refers-keep (λ v. has_device v.device_id s) (λ v. has_device v.device_id s) p
        s.custom_field_values h.values (λ v e k. e))
      h

set_custom_field_value-cases :
    (env : Env) (v : CustomFieldValue) (s : Store)
    → ((set_custom_field_value env v s).1 ≡ s)
      ⊎ ((p : CustomFieldValue → Bool) × (id : Text) × (has_device v.device_id s ≡ true)
          × ((set_custom_field_value env v s).1 ≡ record s {
            custom_field_values = keep p s.custom_field_values ++ record v { id = id } ∷ [];
          }))
unfolding set_custom_field_value
set_custom_field_value-cases env v s = elim (Bool-cases (refers v s)) [
  | inl e ↦
      let id : Text = elim (find (is_value v.device_id v.field_id) s.custom_field_values) [
        | none ↦ or_uuid env v.id
        | some old ↦ old.id
      ] in
      inr (
        λ w. not (w.id == id || is_value v.device_id v.field_id w),
        id,
        ground (arith),
        ground (arith),
      )
  | inr e ↦ inl (ground arith)
]

set_custom_field_value-Owned :
    (env : Env) (v : CustomFieldValue) (s : Store)
    → Owned s
    → Owned (set_custom_field_value env v s).1
set_custom_field_value-Owned env v s h = elim (set_custom_field_value-cases env v s) [
  | inl e ↦ subst Owned (sym e) h
  | inr (p, id, there, e) ↦
      let fewer = keep_values-Owned p s h in
      let row : CustomFieldValue = record v { id = id } in
      subst Owned (sym e) (
        values-Owned (keep p s.custom_field_values ++ row ∷ []) s
          (any-append (λ w. not (has_device w.device_id s)) (keep p s.custom_field_values)
              (row ∷ [])
            ∙ ground (arith, fewer.values))
          h)
]

Step-Owned : {s t : Store} → Step s t → Owned s → Owned t
unfolding remove_relationship update_relationship_notes delete_custom_field_value
    create_custom_field_definition update_custom_field_definition delete_custom_field_definition
Step-Owned (creates env d s) h = create_device-Owned env d s h
Step-Owned (updates env d s) h = update_device-Owned env d s h
Step-Owned (deletes env id s) h = delete_device-Owned env id s h
Step-Owned (relates env parent child type notes s) h =
    add_relationship-Owned env parent child type notes s h
Step-Owned (renotes env parent child type notes s) h =
    enqueue-Owned env (codes "update") (codes "relationship") (edge_name parent child) _
      (renoted-Owned parent child type notes s h)
Step-Owned (parts env parent child type s) h =
    enqueue-Owned env (codes "remove") (codes "relationship") (edge_name parent child) _ (
      relationships-Owned (keep (λ r. not (is_edge parent child type r)) s.relationships) s
        (refers-keep (λ r. has_device r.parent_id s) (λ r. has_device r.parent_id s)
          (λ r. not (is_edge parent child type r)) s.relationships h.parents (λ r e k. e))
        (refers-keep (λ r. has_device r.child_id s) (λ r. has_device r.child_id s)
          (λ r. not (is_edge parent child type r)) s.relationships h.children (λ r e k. e))
        h)
Step-Owned (sets_value env v s) h = set_custom_field_value-Owned env v s h
Step-Owned (deletes_value device field s) h =
    let fewer = keep_values-Owned (λ v. not (is_value device field v)) s h in
    elim (Bool-cases (any (is_value device field) s.custom_field_values)) [
      | inl e ↦ subst Owned (ground (arith)) fewer
      | inr e ↦ subst Owned (ground (arith)) h
    ]
Step-Owned (creates_field env d s) h =
    let rows = (create_custom_field_definition env d s).1.custom_field_definitions in
    let same : record s { custom_field_definitions = rows }
        ≡ (create_custom_field_definition env d s).1 =
      ground arith in
    subst Owned same (definitions-Owned rows s h)
Step-Owned (updates_field env d s) h =
    let rows = (update_custom_field_definition env d s).1.custom_field_definitions in
    let same : record s { custom_field_definitions = rows }
        ≡ (update_custom_field_definition env d s).1 =
      ground arith in
    subst Owned same (definitions-Owned rows s h)
Step-Owned (deletes_field id s) h =
    let fewer = keep_values-Owned (λ v. not (v.field_id == id)) s h in
    let rows = keep (λ d. not (d.id == id)) s.custom_field_definitions in
    elim (Bool-cases (any (λ d. d.id == id) s.custom_field_definitions)) [
      | inl e ↦ subst Owned (ground (arith)) (definitions-Owned rows _ fewer)
      | inr e ↦ subst Owned (ground (arith)) h
    ]

-- Every history of CreateDevice, UpdateDevice, DeleteDevice, of changes of relationships, of custom
-- field definitions and of custom field values, from a store where each address, tag, domain and
-- custom field value refers to a device and each relationship to two devices, ends in such a store.
pub Reach-Owned : (start s : Store) → Owned start → Reach start s → Owned s
Reach-Owned start s h here = h
Reach-Owned start s h (next r st) = Step-Owned st (Reach-Owned start _ h r)
