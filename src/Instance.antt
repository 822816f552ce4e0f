-- ===== src/Instance.antt =====
-- internal/zonelet/service_instance.go: the calls that deploy, change and delete an app's instance.
-- The data store is a map of entries with versions; a handler is a function from the state to its
-- result and the new state. A message's nil elements, which every loop skips, are not represented, nor
-- are the fields of an instance that no function here reads: its id, times and replicas.
pub mod Resources
pub mod Names
pub mod Version
pub mod Packages
pub mod Fill
pub mod Refs
pub mod Checks
pub mod Changes
pub mod Handlers
pub mod Ends
pub mod Ranges
pub mod Sound
pub mod Checked
pub mod Keeps
pub mod Found
pub mod Invariant
pub mod ReadOnly
pub mod Deleted
pub mod Revision
pub mod Release
pub mod Filled
pub mod Listed
pub mod Told
pub mod Linked
pub mod Kept
mod Examples
use innerstack.Prelude.{
  ℕ, suc, ◌+◌, ◌≡◌, refl, sym, ◌∙◌, ◌⊎◌, inl, inr, Bool, true, false, List, [], ◌∷◌, Option, none,
  some, Text, bytes, if◌then◌else◌, text_key, eqb, map, is_some,
}
use innerstack.Prelude.Int.{ℤ}
use innerstack.Prelude.Map.{Map, lookup, insert}
use innerstack.Config.{SpecConfigItems, DeployConfigItems, TaskTrigger, ConfigError}
use innerstack.Stages as stages

-- AppDeployDepend
pub record Depend : Type 0 where
  pub spec_name : Text
  pub instance_name : Text

-- AppSpecPackage
pub record SpecPackage : Type 0 where
  pub name : Text
  pub version : Text

-- Package; an empty state or name stands for a package without a file or without metadata.
pub record Package : Type 0 where
  pub name : Text
  pub file_state : Text
  pub release : Option Text

-- AppSpec; `depends` are the names of the specs that it needs.
pub record AppSpec : Type 0 where
  pub name : Text
  pub version : Text
  pub resources : Option stages.Resources
  pub tasks : List TaskTrigger
  pub configs : SpecConfigItems
  pub depends : List Text
  pub packages : List SpecPackage

-- AppDeploy; `progress` holds its revision and its stages.
pub record AppDeploy : Type 0 where
  pub action : Text
  pub cpu_limit : ℤ
  pub memory_limit : ℤ
  pub volume_limit : ℤ
  pub replica_cap : ℕ
  pub configs : DeployConfigItems
  pub depends : List Depend
  pub progress : stages.Deploy

-- AppInstance
pub record AppInstance : Type 0 where
  pub name : Text
  pub spec : Option AppSpec
  pub deploy : Option AppDeploy
  pub ref_by_instances : List Text

-- A value in the data store, its Meta.Version, and the time to live that it was written with.
pub record Entry : Type 0 where
  pub value : AppInstance
  pub version : ℕ
  pub ttl : Option ℕ

-- The data store's instances and specs, the leader's set in memory with the versions it knows, the
-- flag that asks for a full pass, and the count of what was asked of the data store.
pub record State : Type 0 where
  pub instances : Map Text Entry
  pub specs : Map Text (AppSpec × ℕ)
  pub packages : List Package
  pub cached : Map Text (AppInstance × ℕ)
  pub force_refresh : Bool
  pub tick : ℕ

pub data Error : Type 0 where
  permission_denied not_leader name_required spec_required resources_required : Error
  spec_name_invalid bad_version bad_task self_reference not_found cannot_override : Error
  store_failed : Error
  bad_name name_in_use is_deleted no_dependency bad_dependency : Text → Error
  bad_resource out_of_range package_invalid : Text → Error
  bad_config : ConfigError → Error

-- What a call meets: the rights and the role of the server, the readings of the clock, the failures of
-- reads, the version that a write gives or its failure, and the checks and readers that other code
-- provides.
pub record Outside : Type 0 where
  pub allowed : Bool
  pub is_leader : Bool
  pub clock : ℕ → ℤ
  pub read_fails : ℕ → Bool
  pub answer : ℕ → Option ℕ
  pub generated : Text → Option Text
  pub semver_is_valid : Text → Bool
  pub semver_compare : Text → Text → ℤ
  pub parse_cpus : Text → Option ℤ
  pub parse_bytes : Text → Option ℤ

-- The end of a call, or of a part of it.
pub data Ran {ℓ} (A : Type ℓ) : Type ℓ where
  returns : A → State → Ran A
  fails : Error → State → Ran A

abbrev pub Op {ℓ} : Type ℓ → Type ℓ
Op A = State → Ran A

infixl 5 ◌then_run◌
abbrev pub ◌then_run◌ {ℓ κ} : {A : Type ℓ} {B : Type κ} → Ran A → (A → Op B) → Ran B
(returns a t) then_run f = f a t
(fails e t) then_run f = fails e t

infixl 5 ◌>>=◌ ◌>>◌
abbrev pub ◌>>=◌ {ℓ κ} : {A : Type ℓ} {B : Type κ} → Op A → (A → Op B) → Op B
(m >>= f) s = m s then_run f

abbrev pub ◌>>◌ {ℓ} : {B : Type ℓ} → Op (Unit {0}) → Op B → Op B
m >> k = m >>= λ _. k

abbrev pub pure {ℓ} : {A : Type ℓ} → A → Op A
pure a s = returns a s

abbrev pub fail {ℓ} : {A : Type ℓ} → Error → Op A
fail e s = fails e s

abbrev pub guard : Bool → Error → Op (Unit {0})
guard true e s = returns tt s
guard false e s = fails e s

abbrev pub ticked : State → State
ticked s = record s { tick = suc s.tick }

-- A read of the data store, which may fail.
abbrev pub read {ℓ} : {A : Type ℓ} → Outside → (State → A) → Op A
read out f s =
    if out.read_fails s.tick then fails store_failed (ticked s) else returns (f s) (ticked s)

-- `loadInstanceByName`
unfoldable pub load_instance : Outside → Text → Op (Option Entry)
load_instance out name s =
    let found = read out (λ t. lookup name t.instances) s in
    elim name [ [] ↦ returns none s | c ∷ rest ↦ found ]

-- The scan of all instances, of which there are at most Zonelet_MaxInstances. Its error is not looked
-- at: there are no items then.
unfoldable pub scan_instances : Outside → State → List AppInstance × State
scan_instances out s = (
  if out.read_fails s.tick then [] else map (λ (p : Text × Entry). p.1.value) s.instances,
  ticked s,
)

abbrev version_of : Option Entry → Option ℕ
version_of none = none
version_of (some e) = some e.version

abbrev pub is_at : ℕ → Option Entry → Bool
is_at v none = false
is_at v (some e) = eqb v e.version

abbrev pub stored : Text → AppInstance → ℕ → Option ℕ → Op ℕ
stored name value v ttl s = returns v (record (ticked s) {
  instances = insert name (record { value = value; version = v; ttl = ttl }) s.instances;
})

-- A write with SetPrevVersion: the data store refuses it unless the entry has that version.
unfoldable pub write_instance : Outside → Text → AppInstance → ℕ → Option ℕ → Op ℕ
write_instance out name value prev ttl s = elim (out.answer s.tick) [
  | none ↦ fails store_failed (ticked s)
  | some v ↦
      if is_at prev (lookup name s.instances)
      then stored name value v ttl s
      else fails store_failed (ticked s)
]

-- A write with SetCreateOnly: the data store refuses it if there is an entry.
unfoldable pub create_instance : Outside → Text → AppInstance → Op ℕ
create_instance out name value s = elim (out.answer s.tick) [
  | none ↦ fails store_failed (ticked s)
  | some v ↦
      if is_some (lookup name s.instances)
      then fails store_failed (ticked s)
      else stored name value v none s
]

-- Inversion of a successful bind.
pub then_run-returns {ℓ κ} :
    {A : Type ℓ} {B : Type κ} (r : Ran A) (f : A → Op B) {b : B} {t : State}
    → (r then_run f) ≡ returns b t
    → (a : A) × (u : State) × (r ≡ returns a u) × (f a u ≡ returns b t)
then_run-returns (returns a u) f h = (a, u, refl, h)
then_run-returns (fails e u) f h = cc
