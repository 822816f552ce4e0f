-- ===== src/Config.antt =====
-- pkg/inapi/valid.go: the checks of an app's configuration, of its schema and of deployed values.
-- A nil item, which every loop skips, is not represented. Errors keep what they name.
mod Examples
pub mod Distinct
use innerstack.Prelude.{
  ℕ, suc, ◌+◌, ◌≡◌, Bool, true, false, not, ◌&&◌, ◌||◌, List, [], ◌∷◌, ◌++◌, Option, none, some,
  Text, bytes, if◌then◌else◌, ◌==◌, text_key, contains, ltb, eqb, length,
}
use innerstack.Prelude.Int.{ℤ, pos, ltb_ℤ}
use innerstack.Prelude.Map.{Map, lookup, insert}

abbrev pub spec_field_type_group : Text
spec_field_type_group = bytes "group"

abbrev pub spec_field_type_array_group : Text
spec_field_type_array_group = bytes "array_group"

abbrev pub spec_config_unique_array_group : Text
spec_config_unique_array_group = bytes "array_group"

abbrev pub spec_config_unique_app : Text
spec_config_unique_app = bytes "app"

-- How the value of a field is derived: its auto-fill expression and its default.
pub record AutoFill : Type 0 where
  pub auto_fill : Text
  pub default : Text

-- AppSpecConfigItem: its name, type, unique scope, key item, derived value and items.
mutual
  pub data SpecConfigItem : Type 0 where
    spec_item : Text → Text → Text → Text → AutoFill → SpecConfigItems → SpecConfigItem

  pub data SpecConfigItems : Type 0 where
    no_spec : SpecConfigItems
    spec_then : SpecConfigItem → SpecConfigItems → SpecConfigItems

-- AppDeployConfigItem: its name, value and items.
mutual
  pub data DeployConfigItem : Type 0 where
    deploy_item : Text → Text → DeployConfigItems → DeployConfigItem

  pub data DeployConfigItems : Type 0 where
    no_deploy : DeployConfigItems
    deploy_then : DeployConfigItem → DeployConfigItems → DeployConfigItems

abbrev pub spec_name : SpecConfigItem → Text
spec_name (spec_item name kind unique key_item fill items) = name

abbrev pub deploy_name : DeployConfigItem → Text
deploy_name (deploy_item name value items) = name

abbrev pub deploy_value : DeployConfigItem → Text
deploy_value (deploy_item name value items) = value

abbrev pub deploy_items : DeployConfigItem → DeployConfigItems
deploy_items (deploy_item name value items) = items

pub data ConfigError : Type 0 where
  nil_field name_required sub_name_required : ConfigError
  duplicate_sub_name no_key_item no_such_key_item bad_unique no_items : Text → ConfigError
  missing_key duplicate_value duplicate_app_value : Text → Text → ConfigError

-- if err := …; err != nil { return err }
infixr 20 ◌or_err◌
abbrev pub ◌or_err◌ : Option ConfigError → Option ConfigError → Option ConfigError
none or_err later = later
(some e) or_err later = some e

unfoldable pub spec_config_item_contains_name : SpecConfigItems → Text → Bool
spec_config_item_contains_name no_spec name = false
spec_config_item_contains_name (spec_then it rest) name =
    spec_name it == name || spec_config_item_contains_name rest name

abbrev is_empty_spec : SpecConfigItems → Bool
is_empty_spec no_spec = true
is_empty_spec (spec_then it rest) = false

-- The end of the check of a field, after its items.
check_shape : Text → Text → Text → Text → SpecConfigItems → Option ConfigError
unfolding spec_config_item_contains_name
check_shape name kind unique key_item items =
    if not (unique == [])
      && not (unique == spec_config_unique_array_group)
      && not (unique == spec_config_unique_app)
    then some (bad_unique name)
    else if kind == spec_field_type_group
    then (if is_empty_spec items then some (no_items name) else none)
    else if not (kind == spec_field_type_array_group)
    then none
    else if is_empty_spec items
    then some (no_items name)
    else if key_item == []
    then some (no_key_item name)
    else if not (spec_config_item_contains_name items key_item)
    then some (no_such_key_item name)
    else none

-- `seen` holds the names of the items before.
unfoldable mutual
  unfolding check_shape

  pub validate_item : SpecConfigItem → Option ConfigError
  validate_item (spec_item name kind unique key_item fill items) =
      let inside = validate_sub_items [] items in
      if name == []
      then some name_required
      else (inside or_err check_shape name kind unique key_item items)

  pub validate_sub_items : List Text → SpecConfigItems → Option ConfigError
  validate_sub_items seen no_spec = none
  validate_sub_items seen (spec_then sub rest) =
      let here = validate_item sub in
      let later = validate_sub_items (spec_name sub ∷ seen) rest in
      if spec_name sub == []
      then some sub_name_required
      else if contains seen (spec_name sub)
      then some (duplicate_sub_name (spec_name sub))
      else (here or_err later)

unfoldable pub validate_spec_config_field : Option SpecConfigItem → Option ConfigError
validate_spec_config_field none = some nil_field
validate_spec_config_field (some field) = validate_item field

-- `AppDeployConfigItem.Item` and `deployConfigItem`: the first item with a name.
unfoldable pub deploy_config_item : DeployConfigItems → Text → Option DeployConfigItem
deploy_config_item no_deploy name = none
deploy_config_item (deploy_then it rest) name =
    let later = deploy_config_item rest name in if deploy_name it == name then some it else later

-- The value of a field in one instance of an array group, empty if it is not there.
unfoldable pub field_value : DeployConfigItem → Text → Text
unfolding deploy_config_item
field_value inst field = elim (deploy_config_item (deploy_items inst) field) [
  | none ↦ []
  | some it ↦ deploy_value it
]

-- The loop of `checkArrayGroupUnique` over the instances.
unfoldable pub check_instances :
    Text → Text → Bool → List Text → DeployConfigItems → Option ConfigError
check_instances name field required seen no_deploy = none
check_instances name field required seen (deploy_then inst rest) =
    let v = field_value inst field in
    let skipped = check_instances name field required seen rest in
    let later = check_instances name field required (v ∷ seen) rest in
    if v == []
    then (if required then some (missing_key name field) else skipped)
    else if contains seen v
    then some (duplicate_value name field)
    else later

unfoldable pub check_array_group_unique : DeployConfigItem → Text → Bool → Option ConfigError
check_array_group_unique di field required =
    check_instances (deploy_name di) field required [] (deploy_items di)

-- The loop of `checkDistinctAppScoped` over the values.
unfoldable pub check_values : Text → List Text → List Text → Option ConfigError
check_values name seen [] = none
check_values name seen (v ∷ rest) =
    let skipped = check_values name seen rest in
    let later = check_values name (v ∷ seen) rest in
    if v == []
    then skipped
    else if contains seen v
    then some (duplicate_app_value name v)
    else later

unfoldable pub check_distinct_app_scoped : Text → List Text → Option ConfigError
check_distinct_app_scoped name vals = check_values name [] vals

-- The names declared unique for the app anywhere in the schema.
unfoldable mutual
  pub app_unique_names_of : SpecConfigItem → List Text
  app_unique_names_of (spec_item name kind unique key_item fill items) =
      let below = collect_app_unique_names items in
      if unique == spec_config_unique_app && not (name == []) then name ∷ below else below

  pub collect_app_unique_names : SpecConfigItems → List Text
  collect_app_unique_names no_spec = []
  collect_app_unique_names (spec_then it rest) =
      app_unique_names_of it ++ collect_app_unique_names rest

-- `record` in `collectDeployValues`
abbrev pub record_value : List Text → Text → Text → Map Text (List Text) → Map Text (List Text)
record_value names name value pool =
    if not (name == []) && contains names name
    then insert name ((elim (lookup name pool) [ none ↦ [] | some vs ↦ vs ]) ++ value ∷ []) pool
    else pool

record_fields : List Text → DeployConfigItems → Map Text (List Text) → Map Text (List Text)
record_fields names no_deploy pool = pool
record_fields names (deploy_then f rest) pool =
    record_fields names rest (record_value names (deploy_name f) (deploy_value f) pool)

record_instances : List Text → DeployConfigItems → Map Text (List Text) → Map Text (List Text)
unfolding record_fields
record_instances names no_deploy pool = pool
record_instances names (deploy_then inst rest) pool =
    record_instances names rest (record_fields names (deploy_items inst) pool)

abbrev pub spec_kind : Option SpecConfigItem → Text
spec_kind none = []
spec_kind (some (spec_item name kind unique key_item fill items)) = kind

unfoldable pub collect_deploy_values :
    DeployConfigItem
    → Option SpecConfigItem
    → Map Text (List Text)
    → List Text
    → Map Text (List Text)
unfolding record_instances record_fields
collect_deploy_values di sf pool names =
    if spec_kind sf == spec_field_type_array_group
    then record_instances names (deploy_items di) pool
    else if spec_kind sf == spec_field_type_group
    then record_fields names (deploy_items di) pool
    else record_value names (deploy_name di) (deploy_value di) pool

-- The children of an array group that are declared unique in it, besides its key.
unfoldable pub check_children : DeployConfigItem → Text → SpecConfigItems → Option ConfigError
unfolding check_array_group_unique
check_children di key_item no_spec = none
check_children di key_item (spec_then (spec_item name kind unique key fill items) rest) =
    let later = check_children di key_item rest in
    if name == [] || not (unique == spec_config_unique_array_group) || name == key_item
    then later
    else (check_array_group_unique di name false or_err later)

check_array_group : DeployConfigItem → Text → SpecConfigItems → Option ConfigError
unfolding check_children check_array_group_unique
check_array_group di key_item items =
    (if not (key_item == []) then check_array_group_unique di key_item true else none)
    or_err check_children di key_item items

-- The first part of `ValidateDeployConfigItems`.
unfoldable pub check_array_groups : DeployConfigItems → SpecConfigItems → Option ConfigError
unfolding check_array_group deploy_config_item
check_array_groups given no_spec = none
check_array_groups given (spec_then (spec_item name kind unique key_item fill items) rest) =
    let later = check_array_groups given rest in
    if not (kind == spec_field_type_array_group)
    then later
    else elim (deploy_config_item given name) [
      | none ↦ later
      | some di ↦ check_array_group di key_item items or_err later
    ]

-- specByName: of items with the same name the last one counts.
index_specs : SpecConfigItems → Map Text SpecConfigItem → Map Text SpecConfigItem
index_specs no_spec table = table
index_specs (spec_then it rest) table =
    index_specs rest (if spec_name it == [] then table else insert (spec_name it) it table)

collect_all :
    Map Text SpecConfigItem
    → List Text
    → DeployConfigItems
    → Map Text (List Text)
    → Map Text (List Text)
unfolding collect_deploy_values
collect_all table names no_deploy pool = pool
collect_all table names (deploy_then di rest) pool =
    collect_all table names rest
      (collect_deploy_values di (lookup (deploy_name di) table) pool names)

check_pool : Map Text (List Text) → Option ConfigError
unfolding check_distinct_app_scoped
check_pool [] = none
check_pool ((name, vals) ∷ rest) = check_distinct_app_scoped name vals or_err check_pool rest

-- The second part.
unfoldable pub check_app_scope : SpecConfigItems → DeployConfigItems → Option ConfigError
unfolding collect_app_unique_names index_specs collect_all check_pool
check_app_scope spec given =
    let names = collect_app_unique_names spec in
    if eqb (length names) 0
    then none
    else check_pool (collect_all (index_specs spec []) names given [])

unfoldable pub validate_deploy_config_items :
    SpecConfigItems → DeployConfigItems → Option ConfigError
unfolding check_array_groups check_app_scope
validate_deploy_config_items no_spec _ = none
validate_deploy_config_items (spec_then it rest) no_deploy = none
validate_deploy_config_items (spec_then it rest) (deploy_then di others) =
    check_array_groups (deploy_then di others) (spec_then it rest)
    or_err check_app_scope (spec_then it rest) (deploy_then di others)

-- AppSpecTask's triggers.
pub record TaskTrigger : Type 0 where
  pub on_startup : Bool
  pub on_shutdown : Bool
  pub interval_seconds : ℤ
  pub cron : Text

pub data TriggerError : Type 0 where
  nil_task no_trigger many_triggers : TriggerError

abbrev one_if : Bool → ℕ
one_if b = if b then 1 else 0

unfoldable pub validate_task_trigger : Option TaskTrigger → Option TriggerError
validate_task_trigger none = some nil_task
validate_task_trigger (some task) =
    let triggers =
      one_if task.on_startup
      + one_if task.on_shutdown
      + one_if (ltb_ℤ (pos 0) task.interval_seconds)
      + one_if (not (task.cron == [])) in
    if eqb triggers 0 then some no_trigger else if ltb 1 triggers then some many_triggers else none
