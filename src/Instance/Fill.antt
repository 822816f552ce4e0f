-- ===== src/Instance/Fill.antt =====
-- The values of config fields that a deployment leaves open: auto-filled, or the defaults. `generated`
-- is what internal/inutil/autofill makes of an expression, if it does not fail; the values that a
-- random expression gets at different fields are not told apart.
use innerstack.Prelude.{
  Bool, true, false, ◌||◌, [], Option, none, some, Text, if◌then◌else◌, ◌==◌, text_key,
}
use innerstack.Config.{
  AutoFill, SpecConfigItem, SpecConfigItems, spec_item, no_spec, spec_then, DeployConfigItems,
  deploy_item, no_deploy, deploy_then, spec_field_type_group, spec_field_type_array_group,
}
use innerstack.Instance.{AppSpec, AppDeploy}

-- `configFieldAutoValue`
unfoldable pub auto_value : (Text → Option Text) → AutoFill → Text
auto_value generated f = if f.auto_fill == [] then f.default else elim (generated f.auto_fill) [
  | none ↦ []
  | some val ↦ if val == [] then f.default else val
]

-- The first item of a name gets the value if it has none, and a name without an item gets one.
unfoldable pub set_value : Text → Text → DeployConfigItems → DeployConfigItems
set_value name val no_deploy =
    if val == [] then no_deploy else deploy_then (deploy_item name val no_deploy) no_deploy
set_value name val (deploy_then (deploy_item n v items) rest) =
    let later = set_value name val rest in
    if n == name
    then deploy_then (deploy_item n (if v == [] then val else v) items) rest
    else deploy_then (deploy_item n v items) later

-- `resolveChildConfigFields`
unfoldable pub resolve_children :
    (Text → Option Text) → SpecConfigItems → DeployConfigItems → DeployConfigItems
unfolding auto_value set_value
resolve_children generated no_spec dst = dst
resolve_children generated (spec_then (spec_item name kind unique key fill items) rest) dst =
    resolve_children generated rest
      (if name == [] then dst else set_value name (auto_value generated fill) dst)

-- The fields of every instance of an array group.
unfoldable pub resolve_instances :
    (Text → Option Text) → SpecConfigItems → DeployConfigItems → DeployConfigItems
unfolding resolve_children
resolve_instances generated fields no_deploy = no_deploy
resolve_instances generated fields (deploy_then (deploy_item n v items) rest) =
    deploy_then (deploy_item n v (resolve_children generated fields items))
      (resolve_instances generated fields rest)

abbrev resolve_items :
    (Text → Option Text) → Text → SpecConfigItems → DeployConfigItems → DeployConfigItems
resolve_items generated kind fields items =
    if kind == spec_field_type_array_group
    then resolve_instances generated fields items
    else resolve_children generated fields items

abbrev is_no_spec : SpecConfigItems → Bool
is_no_spec no_spec = true
is_no_spec (spec_then f rest) = false

-- `resolveGroupedConfigField`, at the first item of the group's name.
unfoldable pub resolve_grouped :
    (Text → Option Text) → Text → Text → SpecConfigItems → DeployConfigItems → DeployConfigItems
unfolding resolve_instances resolve_children
resolve_grouped generated name kind fields no_deploy = no_deploy
resolve_grouped generated name kind fields (deploy_then (deploy_item n v items) rest) =
    let later = resolve_grouped generated name kind fields rest in
    if n == name
    then deploy_then
        (deploy_item n v
          (if is_no_spec fields then items else resolve_items generated kind fields items))
        rest
    else deploy_then (deploy_item n v items) later

abbrev pub is_grouped : Text → Bool
is_grouped kind = kind == spec_field_type_group || kind == spec_field_type_array_group

-- One round of `resolveDeployConfigFields`.
unfoldable pub resolve_field :
    (Text → Option Text) → SpecConfigItem → DeployConfigItems → DeployConfigItems
unfolding resolve_grouped auto_value set_value
resolve_field generated (spec_item name kind unique key fill items) configs =
    if name == []
    then configs
    else if is_grouped kind
    then resolve_grouped generated name kind items configs
    else set_value name (auto_value generated fill) configs

-- `resolveDeployConfigFields`, over the fields of a spec.
unfoldable pub resolve_fields :
    (Text → Option Text) → SpecConfigItems → DeployConfigItems → DeployConfigItems
unfolding resolve_field
resolve_fields generated no_spec configs = configs
resolve_fields generated (spec_then f rest) configs =
    resolve_fields generated rest (resolve_field generated f configs)

unfoldable pub resolve_config : (Text → Option Text) → Option AppSpec → AppDeploy → AppDeploy
unfolding resolve_fields
resolve_config generated none d = d
resolve_config generated (some spec) d = record d {
  configs = resolve_fields generated spec.configs d.configs;
}
