-- ===== src/Config/Examples.antt =====
-- A schema with one array group, "servers", keyed by "host", and two deployed instances.
use innerstack.Prelude.{text_eq, ◌≡◌, refl, ◌↔◌, true, bytes, [], none, some, Text, inl}
use innerstack.Config.{
  AutoFill, SpecConfigItems, no_spec, spec_then, spec_item, DeployConfigItem, DeployConfigItems,
  deploy_item, no_deploy, deploy_then, deploy_items, check_instances, field_value,
  check_array_group_unique, deploy_config_item, validate_deploy_config_items,
}
use innerstack.Config.Distinct.{
  NoRepeat, AllSet, values, set_values, IsField, HasKeys, array_group, check_array_group_unique_iff,
  validate_deploy_config_items-HasKeys,
}

abbrev no_fill : AutoFill
no_fill = record { auto_fill = []; default = [] }

abbrev host_field : SpecConfigItems
host_field = spec_then (spec_item (bytes "host") (bytes "string") [] [] no_fill no_spec) no_spec

abbrev schema : SpecConfigItems
schema = spec_then (array_group (bytes "servers") [] (bytes "host") no_fill host_field) no_spec

abbrev server : Text → DeployConfigItem
server name = deploy_item [] [] (deploy_then (deploy_item (bytes "host") name no_deploy) no_deploy)

abbrev servers : DeployConfigItem
servers =
    deploy_item (bytes "servers") []
      (deploy_then (server (bytes "a")) (deploy_then (server (bytes "b")) no_deploy))

abbrev given : DeployConfigItems
given = deploy_then servers no_deploy

accepted : validate_deploy_config_items schema given ≡ none
unfolding validate_deploy_config_items deploy_config_item check_array_group_unique text_eq
    check_instances field_value
accepted = refl

is_field : IsField (array_group (bytes "servers") [] (bytes "host") no_fill host_field) schema
unfolding IsField
is_field = inl refl

found : deploy_config_item given (bytes "servers") ≡ some servers
unfolding deploy_config_item text_eq
found = refl

validate_deploy_config_items-HasKeys_example : HasKeys (bytes "host") servers
validate_deploy_config_items-HasKeys_example =
    validate_deploy_config_items-HasKeys schema given (bytes "servers") [] (bytes "host") no_fill
      host_field servers accepted is_field found (λ p. cc)

check_array_group_unique_iff_example :
    (check_array_group_unique servers (bytes "host") true ≡ none) ↔ (
      AllSet true (values (bytes "host") (deploy_items servers))
      × NoRepeat (set_values (values (bytes "host") (deploy_items servers))))
check_array_group_unique_iff_example = check_array_group_unique_iff servers (bytes "host") true
