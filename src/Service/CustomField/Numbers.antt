-- ===== src/Service/CustomField/Numbers.antt =====
-- internal/service/custom_field.go, SetValue: numbers that come from JSON.
use rackd.Prelude.{
  ◌≡◌, refl, subst, ap, ◌∙◌, Bool, true, false, not, ◌||◌, none, some, List, [], ◌∷◌, find, any,
  keep, arith, Bool-cases, inl, inr,
}
use rackd.Text.{Text, ◌==◌, eq_iff}
use rackd.Error.{Result, ok}
use rackd.Rows.{find-append}
use rackd.Model.Device.{
  Value, text, float, CustomFieldDefinition, CustomFieldValue, CustomFieldValueInput,
}
use rackd.Store.{Store, Env, or_uuid}
use rackd.Storage.CustomField.{
  is_value, refers, find_definition, set_custom_field_value, get_custom_field_value,
  get_custom_field_definition,
}
use rackd.Model.CustomField.{number_type, new_value}
use rackd.Service.Access.{require_permission}
use rackd.Service.CustomField.Values.{set_value}

-- A float64, as which JSON brings a number, or a text
abbrev pub is_float_or_text : Value → Bool
is_float_or_text float = true
is_float_or_text (text s) = true
is_float_or_text value = false

dropped_rows :
    (id device field : Text) (values : List CustomFieldValue)
    → any (is_value device field) (keep (λ v. not (v.id == id || is_value device field v)) values)
      ≡ false
dropped_rows id device field [] = refl
dropped_rows id device field (v ∷ values) = ground (arith, dropped_rows id device field values)

-- The row that SetCustomFieldValue writes is the one that is read.
get-set_custom_field_value :
    (env : Env) (v : CustomFieldValue) (s : Store)
    → (set_custom_field_value env v s).0 ≡ ok tt
    → (id : Text) × (get_custom_field_value v.device_id v.field_id
          (set_custom_field_value env v s).1
        ≡ ok (record v { id = id }))
unfolding set_custom_field_value get_custom_field_value
get-set_custom_field_value env v s h =
    let id : Text = elim (find (is_value v.device_id v.field_id) s.custom_field_values) [
      | none ↦ or_uuid env v.id
      | some old ↦ old.id
    ] in
    let row : CustomFieldValue = record v { id = id } in
    let left =
      keep (λ w. not (w.id == id || is_value v.device_id v.field_id w)) s.custom_field_values in
    let found =
      find-append (is_value v.device_id v.field_id) left row
        (dropped_rows id v.device_id v.field_id s.custom_field_values)
        (ground (arith, eq_iff v.device_id v.device_id, eq_iff v.field_id v.field_id)) in
    (id, elim (Bool-cases (refers v s)) [ inl e ↦ ground arith | inr e ↦ absurd (ground arith) ])

new_number :
    (device field : Text) (value : Value)
    → is_float_or_text value ≡ true
    → new_value [] device field number_type value ≡ record {
      id = [];
      device_id = device;
      field_id = field;
      string_value = [];
      number_value = none;
      bool_value = none;
    }
unfolding ◌==◌
new_number device field float h = refl
new_number device field (text s) h = refl
new_number device field value h = absurd (ground arith)

set_value-stored :
    (env : Env) (device : Text) (input : CustomFieldValueInput) (d : CustomFieldDefinition)
    (s : Store)
    → find_definition input.field_id s ≡ some d
    → (set_value env device input s).0 ≡ ok tt
    → set_value env device input s
      ≡ set_custom_field_value env (new_value [] device input.field_id d.type input.value) s
unfolding set_value require_permission get_custom_field_definition
set_value-stored env device input d s f h = ground arith

-- A successful SetValue of a floating point number or a text for a field of type number stores a
-- value without a number.
pub set_value_number_lost :
    (env : Env) (device : Text) (input : CustomFieldValueInput) (d : CustomFieldDefinition)
    (s : Store)
    → find_definition input.field_id s ≡ some d
    → d.type ≡ number_type
    → is_float_or_text input.value ≡ true
    → (set_value env device input s).0 ≡ ok tt
    → (v : CustomFieldValue) × (get_custom_field_value device input.field_id
          (set_value env device input s).1
        ≡ ok v)
      × (v.number_value ≡ none)
set_value_number_lost env device input d s f t k h =
    let empty : CustomFieldValue = record {
      id = [];
      device_id = device;
      field_id = input.field_id;
      string_value = [];
      number_value = none;
      bool_value = none;
    } in
    let same =
      set_value-stored env device input d s f h
      ∙ ap
          (λ (type : Text).
            set_custom_field_value env (new_value [] device input.field_id type input.value) s)
          t
      ∙ ap (λ v. set_custom_field_value env v s) (new_number device input.field_id input.value k) in
    let read =
      get-set_custom_field_value env empty s
        (subst (λ (r : Result (Unit {0}) × Store). r.0 ≡ ok tt) same h) in
    (
      record empty { id = read.0 },
      ap (λ (r : Result (Unit {0}) × Store). get_custom_field_value device input.field_id r.1) same
          ∙ read.1,
      refl,
    )
