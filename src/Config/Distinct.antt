-- ===== src/Config/Distinct.antt =====
-- What the checks of deployed values accept.
use innerstack.Prelude.{
  ◌≡◌, ◌⊎◌, subst, refl, ◌↔◌, ◌≢◌, Bool, true, false, not, ◌&&◌, List, [], ◌∷◌, Option, none, some,
  Text, ◌==◌, text_key, text_eq, text_eq_iff, contains, keep_if, arith, Bool-cases, Option-cases,
  inl, inr, All,
}
use innerstack.Config.{
  AutoFill, SpecConfigItem, SpecConfigItems, spec_item, no_spec, spec_then,
  spec_field_type_array_group, ConfigError, ◌or_err◌, DeployConfigItem, DeployConfigItems,
  no_deploy, deploy_then, deploy_name, deploy_items, field_value, deploy_config_item,
  check_instances, check_array_group_unique, check_values, check_distinct_app_scoped,
  check_array_groups, check_array_group, validate_deploy_config_items,
}

-- No text stands twice.
pub NoRepeat : List Text → Type 0
NoRepeat [] = Unit {0}
NoRepeat (v ∷ vs) = (contains vs v ≡ false) × NoRepeat vs

abbrev is_set : Text → Bool
is_set v = not (v == [])

-- The values that are not empty.
abbrev pub set_values : List Text → List Text
set_values = keep_if is_set

-- The loops' own order: each text is new to `seen` and to those before it.
Fresh : List Text → List Text → Type 0
Fresh seen [] = Unit {0}
Fresh seen (v ∷ vs) = (contains seen v ≡ false) × Fresh (v ∷ seen) vs

Apart : List Text → List Text → Type 0
Apart seen vs = All (λ v. contains seen v ≡ false) vs

Apart-cons :
    (seen vs : List Text) (v : Text)
    → Apart (v ∷ seen) vs ↔ (Apart seen vs × (contains vs v ≡ false))
unfolding Apart
Apart-cons seen [] v = (λ _. (tt, refl), λ _. tt)
Apart-cons seen (x ∷ vs) v = ground (arith, Apart-cons seen vs v, text_eq_iff x v, text_eq_iff v x)

Fresh-Apart : (seen vs : List Text) → Fresh seen vs ↔ (NoRepeat vs × Apart seen vs)
unfolding Fresh NoRepeat Apart
Fresh-Apart seen [] = (λ _. (tt, tt), λ _. tt)
Fresh-Apart seen (v ∷ vs) = ground (arith, Fresh-Apart (v ∷ seen) vs, Apart-cons seen vs v)

Apart-nil : (vs : List Text) → Apart [] vs
unfolding Apart
Apart-nil [] = tt
Apart-nil (v ∷ vs) = (refl, Apart-nil vs)

check_values_lem :
    (name : Text) (seen vals : List Text)
    → (check_values name seen vals ≡ none) ↔ Fresh seen (set_values vals)
unfolding check_values Fresh
check_values_lem name seen [] = (λ _. tt, λ _. refl)
check_values_lem name seen (v ∷ vals) =
    ground (arith, check_values_lem name seen vals, check_values_lem name (v ∷ seen) vals)

-- The values of a name that is unique in the app are accepted exactly if no value that is set stands
-- twice among them.
pub check_distinct_app_scoped_iff :
    (name : Text) (vals : List Text)
    → (check_distinct_app_scoped name vals ≡ none) ↔ NoRepeat (set_values vals)
unfolding check_distinct_app_scoped
check_distinct_app_scoped_iff name vals =
    let c = check_values_lem name [] vals in
    let f = Fresh-Apart [] (set_values vals) in
    (λ e. (f.0 (c.0 e)).0, λ d. c.1 (f.1 (d, Apart-nil (set_values vals))))

-- The values of a field in the instances of an array group.
pub values : Text → DeployConfigItems → List Text
values field no_deploy = []
values field (deploy_then inst rest) = field_value inst field ∷ values field rest

-- A field that is required has a value in each instance.
abbrev pub AllSet : Bool → List Text → Type 0
AllSet required vs = All (λ v. (required && v == []) ≡ false) vs

check_instances_lem :
    (name field : Text) (required : Bool) (seen : List Text) (items : DeployConfigItems)
    → (check_instances name field required seen items ≡ none)
      ↔ (AllSet required (values field items) × Fresh seen (set_values (values field items)))
unfolding check_instances values Fresh
check_instances_lem name field required seen no_deploy = (λ _. (tt, tt), λ _. refl)
check_instances_lem name field required seen (deploy_then inst rest) = ground (
  arith,
  check_instances_lem name field required seen rest,
  check_instances_lem name field required (field_value inst field ∷ seen) rest,
)

-- A field of an array group is accepted exactly if it has a value in each instance, where that is
-- required, and no value that is set stands twice.
pub check_array_group_unique_iff :
    (di : DeployConfigItem) (field : Text) (required : Bool)
    → (check_array_group_unique di field required ≡ none) ↔ (
        AllSet required (values field (deploy_items di))
        × NoRepeat (set_values (values field (deploy_items di))))
unfolding check_array_group_unique
check_array_group_unique_iff di field required =
    let vs = values field (deploy_items di) in
    let c = check_instances_lem (deploy_name di) field required [] (deploy_items di) in
    let f = Fresh-Apart [] (set_values vs) in
    (
      λ e. let (a, b) = c.0 e in (a, (f.0 b).0),
      λ (a, d). c.1 (a, f.1 (d, Apart-nil (set_values vs))),
    )

-- A field of a schema, at its top level.
unfoldable pub IsField : SpecConfigItem → SpecConfigItems → Type 0
IsField sf no_spec = ⊥
IsField sf (spec_then it rest) = (it ≡ sf) ⊎ IsField sf rest

or_err_none : (a b : Option ConfigError) → (a or_err b) ≡ none → (a ≡ none) × (b ≡ none)
or_err_none none b h = (refl, h)
or_err_none (some e) b h = cc

-- The keys of an array group's instances.
abbrev pub HasKeys : Text → DeployConfigItem → Type 0
HasKeys key di =
    AllSet true (values key (deploy_items di))
    × NoRepeat (set_values (values key (deploy_items di)))

check_array_group-HasKeys :
    (di : DeployConfigItem) (key : Text) (items : SpecConfigItems)
    → key ≢ []
    → check_array_group di key items ≡ none
    → HasKeys key di
unfolding check_array_group text_eq
check_array_group-HasKeys di [] items ne h = absurd (ne refl)
check_array_group-HasKeys di (c ∷ key) items ne h =
    (check_array_group_unique_iff di (c ∷ key) true).0 (or_err_none _ _ h).0

abbrev pub array_group : Text → Text → Text → AutoFill → SpecConfigItems → SpecConfigItem
array_group name unique key fill items =
    spec_item name spec_field_type_array_group unique key fill items

module _ (given : DeployConfigItems) (name unique key : Text) (fill : AutoFill)
    (items : SpecConfigItems) (di : DeployConfigItem) where
  head-HasKeys :
      (rest : SpecConfigItems)
      → check_array_groups given (spec_then (array_group name unique key fill items) rest) ≡ none
      → deploy_config_item given name ≡ some di
      → key ≢ []
      → HasKeys key di
  unfolding check_array_groups text_eq
  head-HasKeys rest h e ne =
      check_array_group-HasKeys di key items ne
        (or_err_none (check_array_group di key items) (check_array_groups given rest)
          (ground (arith, h, e))).0

  tail-none :
      (it : SpecConfigItem) (rest : SpecConfigItems)
      → check_array_groups given (spec_then it rest) ≡ none
      → check_array_groups given rest ≡ none
  unfolding check_array_groups
  tail-none (spec_item n k u y f its) rest h =
      elim (Bool-cases (k == spec_field_type_array_group)) [
        | inr other ↦ ground (arith, other, h)
        | inl same ↦ elim (Option-cases (deploy_config_item given n)) [
          | inl e ↦ ground (arith, same, e, h)
          | inr (d, e) ↦
              (or_err_none (check_array_group d y its) (check_array_groups given rest)
                (ground (arith, same, e, h))).1
        ]
      ]

  check_array_groups-HasKeys :
      (spec : SpecConfigItems)
      → check_array_groups given spec ≡ none
      → IsField (array_group name unique key fill items) spec
      → deploy_config_item given name ≡ some di
      → key ≢ []
      → HasKeys key di
  unfolding IsField
  check_array_groups-HasKeys no_spec h m e ne = absurd m
  check_array_groups-HasKeys (spec_then it rest) h (inl same) e ne =
      head-HasKeys rest
        (subst (λ (x : SpecConfigItem). check_array_groups given (spec_then x rest) ≡ none) same h)
        e ne
  check_array_groups-HasKeys (spec_then it rest) h (inr m) e ne =
      check_array_groups-HasKeys rest (tail-none it rest h) m e ne

-- If deployed values are accepted, then in each array group of the schema that names a key item and
-- has deployed instances, every instance has a key, and no two instances have the same one.
pub validate_deploy_config_items-HasKeys :
    (spec : SpecConfigItems) (given : DeployConfigItems) (name unique key : Text) (fill : AutoFill)
    (items : SpecConfigItems) (di : DeployConfigItem)
    → validate_deploy_config_items spec given ≡ none
    → IsField (array_group name unique key fill items) spec
    → deploy_config_item given name ≡ some di
    → key ≢ []
    → HasKeys key di
unfolding validate_deploy_config_items deploy_config_item IsField
validate_deploy_config_items-HasKeys no_spec given name unique key fill items di h m e ne = absurd m
validate_deploy_config_items-HasKeys (spec_then it rest) no_deploy name unique key fill items di h m
      e ne =
    cc
validate_deploy_config_items-HasKeys (spec_then it rest) (deploy_then d others) name unique key fill
      items di h m e ne =
    check_array_groups-HasKeys (deploy_then d others) name unique key fill items di
      (spec_then it rest)
      (or_err_none (check_array_groups (deploy_then d others) (spec_then it rest)) _ h).0 m e ne
