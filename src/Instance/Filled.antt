-- ===== src/Instance/Filled.antt =====
-- What a deployment's config values are after the fields are resolved.
use innerstack.Prelude.{
  ◌≡◌, refl, sym, ap, ◌∙◌, ◌⊎◌, inl, inr, false, [], Option, none, some, Text, if◌then◌else◌, by_if,
  ◌==◌, text_key, Bool-cases, Option-cases, same_refl, text_eq_iff, arith,
}
use innerstack.Config.{
  AutoFill, SpecConfigItem, SpecConfigItems, spec_item, no_spec, spec_then, DeployConfigItems,
  deploy_item, no_deploy, deploy_then,
}
use innerstack.Instance.Fill.{
  auto_value, set_value, resolve_grouped, is_grouped, resolve_field, resolve_fields,
}

-- The value of the first item of a name.
abbrev pub value_of : Text → DeployConfigItems → Option Text
value_of name no_deploy = none
value_of name (deploy_then (deploy_item n v items) rest) =
    let later = value_of name rest in if n == name then some v else later

abbrev pub filled : Text → Option Text → Option Text
filled val none = if val == [] then none else some val
filled val (some v) = some (if v == [] then val else v)

value-set_value_self :
    (name val : Text) (dst : DeployConfigItems)
    → value_of name (set_value name val dst) ≡ filled val (value_of name dst)
unfolding set_value
value-set_value_self name val no_deploy = ground (arith, same_refl name)
value-set_value_self name val (deploy_then (deploy_item n v items) rest) =
    ground (arith, value-set_value_self name val rest, text_eq_iff n name)

value-set_value_other :
    (name k val : Text) (dst : DeployConfigItems)
    → name == k ≡ false
    → value_of k (set_value name val dst) ≡ value_of k dst
unfolding set_value
value-set_value_other name k val no_deploy other = ground (arith, text_eq_iff name k)
value-set_value_other name k val (deploy_then (deploy_item n v items) rest) other = ground (
  arith,
  value-set_value_other name k val rest other,
  text_eq_iff name k,
  text_eq_iff n name,
  text_eq_iff n k,
)

value-resolve_grouped :
    (generated : Text → Option Text) (name kind : Text) (fields : SpecConfigItems) (k : Text)
    (dst : DeployConfigItems)
    → value_of k (resolve_grouped generated name kind fields dst) ≡ value_of k dst
unfolding resolve_grouped
value-resolve_grouped generated name kind fields k no_deploy = refl
value-resolve_grouped generated name kind fields k (deploy_then (deploy_item n v items) rest) =
    ground (arith, value-resolve_grouped generated name kind fields k rest)

-- A field that has a value keeps it.
abbrev Kept : Text → Text → DeployConfigItems → Type 0
Kept k v configs = value_of k configs ≡ some v

filled_kept :
    (val v : Text) (o : Option Text) → o ≡ some v → v == [] ≡ false → filled val o ≡ some v
filled_kept val v none h full = cc
filled_kept val v (some w) h full = ground (arith)

set_value-Kept :
    (name val k v : Text) (configs : DeployConfigItems)
    → v == [] ≡ false
    → Kept k v configs
    → Kept k v (set_value name val configs)
set_value-Kept name val k v configs full h = elim (Bool-cases (name == k)) [
  | inl same ↦
      let e : name ≡ k = (text_eq_iff name k).0 same in
      rw (sym e) (
        value-set_value_self name val configs
        ∙ filled_kept val v (value_of name configs) (ap (λ n. value_of n configs) e ∙ h) full)
  | inr other ↦ value-set_value_other name k val configs other ∙ h
]

resolve_field-Kept :
    (generated : Text → Option Text) (f : SpecConfigItem) (k v : Text) (configs : DeployConfigItems)
    → v == [] ≡ false
    → Kept k v configs
    → Kept k v (resolve_field generated f configs)
unfolding resolve_field
resolve_field-Kept generated (spec_item name kind unique key fill items) k v configs full h =
    by_if (Kept k v) (name == []) configs _ (λ q. h)
      (λ named.
        by_if (Kept k v) (is_grouped kind) (resolve_grouped generated name kind items configs)
          (set_value name (auto_value generated fill) configs)
          (λ q. value-resolve_grouped generated name kind items k configs ∙ h)
          (λ q. set_value-Kept name (auto_value generated fill) k v configs full h))

-- Resolving the fields of a spec keeps the value of every name that has one that is not empty.
pub resolve_fields_kept :
    (generated : Text → Option Text) (fields : SpecConfigItems) (k v : Text)
    (configs : DeployConfigItems)
    → v == [] ≡ false
    → value_of k configs ≡ some v
    → value_of k (resolve_fields generated fields configs) ≡ some v
unfolding resolve_fields
resolve_fields_kept generated no_spec k v configs full h = h
resolve_fields_kept generated (spec_then f rest) k v configs full h =
    resolve_fields_kept generated rest k v (resolve_field generated f configs) full
      (resolve_field-Kept generated f k v configs full h)

-- A field of a spec.
abbrev pub IsFieldOf : SpecConfigItem → SpecConfigItems → Type 0
IsFieldOf f no_spec = ⊥
IsFieldOf f (spec_then g rest) = (f ≡ g) ⊎ IsFieldOf f rest

-- A value that is not empty.
abbrev pub HasValue : Text → DeployConfigItems → Type 0
HasValue k configs = (v : Text) × (value_of k configs ≡ some v) × (v == [] ≡ false)

set_value-HasValue :
    (name val : Text) (configs : DeployConfigItems)
    → val == [] ≡ false
    → HasValue name (set_value name val configs)
set_value-HasValue name val configs full = elim (Option-cases (value_of name configs)) [
  | inl absent ↦ (val, value-set_value_self name val configs ∙ rw (absent, full) refl, full)
  | inr (v, present) ↦ elim (Bool-cases (v == [])) [
    | inl empty ↦ (val, value-set_value_self name val configs ∙ rw (present, empty) refl, full)
    | inr some_text ↦
        (v, value-set_value_self name val configs ∙ rw (present, some_text) refl, some_text)
  ]
]

-- After the fields of a spec are resolved, each flat field with a name has a value that is not empty if
-- `configFieldAutoValue` gives one that is not empty for it: from its expression, or from its default
-- where it has no expression or the expression makes the empty text. (A field whose expression fails is
-- given nothing, even with a default.)
pub resolve_fields-HasValue :
    (generated : Text → Option Text) (fields : SpecConfigItems) (name kind unique key : Text)
    (fill : AutoFill) (items : SpecConfigItems) (configs : DeployConfigItems)
    → IsFieldOf (spec_item name kind unique key fill items) fields
    → name == [] ≡ false
    → is_grouped kind ≡ false
    → auto_value generated fill == [] ≡ false
    → HasValue name (resolve_fields generated fields configs)
unfolding resolve_fields resolve_field
resolve_fields-HasValue generated no_spec name kind unique key fill items configs m named flat
      full =
    absurd m
resolve_fields-HasValue generated (spec_then f rest) name kind unique key fill items configs (inr m)
      named flat full =
    resolve_fields-HasValue generated rest name kind unique key fill items
      (resolve_field generated f configs) m named flat full
resolve_fields-HasValue generated (spec_then f rest) name kind unique key fill items configs
      (inl same) named flat full =
    let (v, at, v_full) = set_value-HasValue name (auto_value generated fill) configs full in
    let step : resolve_field generated f configs
        ≡ set_value name (auto_value generated fill) configs =
      rw (sym same, named, flat) refl in
    (
      v,
      resolve_fields_kept generated rest name v (resolve_field generated f configs) v_full
          (ap (value_of name) step ∙ at),
      v_full,
    )
