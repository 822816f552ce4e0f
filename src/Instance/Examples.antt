-- ===== src/Instance/Examples.antt =====
-- An instance `app` that depends on `store1`, and calls on them. The example's readers of resources read plain
-- numbers, and its order of versions makes all equal.
use innerstack.Prelude.{
  false≢true, text_eq_iff, suc, arith, ◌≡◌, refl, true, false, List, [], ◌∷◌, Option, none, some,
  Text, bytes, text_key, text_eq, by_if, ◌==◌, inl, subst,
}
use innerstack.Prelude.Int.{ℤ, pos}
use innerstack.Prelude.Map.{Map, lookup}
use innerstack.Decimal.{value_from}
use innerstack.Config.{SpecConfigItems, spec_item, no_spec, spec_then, no_deploy}
use innerstack.Stages as stages
use innerstack.Instance.{Depend, AppSpec, AppDeploy, Entry, State, Outside}
use innerstack.Instance.Resources.{
  ParsedResources, no_resources, parse_spec_resources, read_range, in_bounds,
}
use innerstack.Instance.Names.{semver_valid, dns_label_valid, matches_label, label_rest}
use innerstack.Instance.Deleted.{IsMarked, app_instance_delete-IsMarked}
use innerstack.Instance.Version.{
  split_version, split_last, atoi, all_digits, compare_main, resolve_version,
}
use innerstack.Instance.Fill.{auto_value, resolve_fields}
use innerstack.Instance.Refs.{update_reverse_refs}
use innerstack.Instance.Checks.{DeployRequest}
use innerstack.Instance.Handlers.{app_instance_delete, update_instance, deploy, handle}
use innerstack.Instance.Ends.{Ends}
use innerstack.Instance.Sound.{HasRanges, Allocated}
use innerstack.Instance.Checked.{Unchanged}
use innerstack.Instance.Keeps.{Every, EndsEvery}
use innerstack.Instance.Invariant.{handle-Allocated}
use innerstack.Instance.ReadOnly.{Refused, handle-Refused}
use innerstack.Instance.Filled.{HasValue, resolve_fields-HasValue}
use innerstack.Instance.Listed.{lists, Reliable}
use innerstack.Instance.Linked.{linked, update_reverse_refs-Linked}
use innerstack.Instance.Kept.{StillListed, update_instance-StillListed}
use innerstack.Instance.Release.{resolve_version-Next}

abbrev read_number : Text → Option ℤ
read_number t = some (pos (value_from 0 t))

abbrev outside : Outside
outside = record {
  allowed = true;
  is_leader = true;
  clock = λ n. pos 1000;
  read_fails = λ n. false;
  answer = λ n. some 7;
  generated = λ t. none;
  semver_is_valid = λ t. true;
  semver_compare = λ a b. pos 0;
  parse_cpus = read_number;
  parse_bytes = read_number;
}

abbrev limits : Text → Text → stages.Limits
limits low high = record { low = low; high = high; legacy = [] }

abbrev needs : stages.Resources
needs = record {
  cpu = limits (bytes "100") (bytes "200");
  memory = limits (bytes "16777216") (bytes "33554432");
  volume = limits (bytes "104857600") (bytes "209715200");
}

abbrev ranges : ParsedResources
ranges = record {
  cpu = record { low = pos 100; high = pos 200 };
  mem = record { low = pos 16777216; high = pos 33554432 };
  vol = record { low = pos 104857600; high = pos 209715200 };
}

abbrev web : AppSpec
web = record {
  name = bytes "web";
  version = bytes "1.0.0";
  resources = some needs;
  tasks = [];
  configs = no_spec;
  depends = [];
  packages = [];
}

abbrev running : Text → List Depend → AppDeploy
running action depends = record {
  action = action;
  cpu_limit = pos 100;
  memory_limit = pos 16777216;
  volume_limit = pos 104857600;
  replica_cap = 1;
  configs = no_deploy;
  depends = depends;
  progress = record { revision = 1; stages = none };
}

abbrev on_db : List Depend
on_db = record { spec_name = bytes "store"; instance_name = bytes "store1" } ∷ []

abbrev entry_of : Text → Text → List Text → Entry
entry_of name action refs = record {
  value = record {
    name = name;
    spec = some web;
    deploy = some (running action on_db);
    ref_by_instances = refs;
  };
  version = 3;
  ttl = none;
}

abbrev state_of : Map Text Entry → State
state_of m = record {
  instances = m;
  specs = [];
  packages = [];
  cached = [];
  force_refresh = false;
  tick = 0;
}

abbrev request : DeployRequest
request = record { name = bytes "app"; spec = none; deploy = some (running [] []); replica_cap = 2 }

web-HasRanges : HasRanges outside (some web) ranges
unfolding stages.normalize_legacy stages.norm_legacy_pair parse_spec_resources read_range in_bounds
    value_from text_eq
web-HasRanges = (web, needs, refl, refl, refl, refl)

entry_of-Allocated :
    (name action : Text) (refs : List Text) → Allocated outside (entry_of name action refs).value
entry_of-Allocated name action refs =
    (ranges, running action on_db, web-HasRanges, refl, ground arith)

abbrev Holds : Option Entry → Type 0
Holds none = Unit {0}
Holds (some e) = Allocated outside e.value

only-Every :
    (name : Text) (e : Entry)
    → Allocated outside e.value
    → Every (Allocated outside) (state_of ((name, e) ∷ []))
unfolding lookup
only-Every name e h k f found =
    by_if (λ o. o ≡ some f → Allocated outside f.value) (name == k) (some e) none
      (λ same eq. subst Holds eq h) (λ other eq. subst Holds eq tt) found

handle-Allocated_example :
    EndsEvery (Allocated outside) (
      handle outside (deploy request) (state_of ((bytes "app", entry_of (bytes "app") [] []) ∷ [])))
handle-Allocated_example =
    handle-Allocated outside (deploy request)
      (state_of ((bytes "app", entry_of (bytes "app") [] []) ∷ []))
      (only-Every (bytes "app") (entry_of (bytes "app") [] [])
        (entry_of-Allocated (bytes "app") [] []))

handle-Refused_example :
    Refused (state_of ((bytes "app", entry_of (bytes "app") (bytes "delete") []) ∷ [])) (
      handle outside
        (deploy request)
        (state_of ((bytes "app", entry_of (bytes "app") (bytes "delete") []) ∷ [])))
unfolding lookup text_eq
handle-Refused_example =
    handle-Refused outside (deploy request)
      (state_of ((bytes "app", entry_of (bytes "app") (bytes "delete") []) ∷ []))
      (entry_of (bytes "app") (bytes "delete") []) (running (bytes "delete") on_db) refl refl refl

abbrev port : SpecConfigItems
port =
    spec_then
      (spec_item (bytes "port") [] [] [] (record { auto_fill = []; default = bytes "80" }) no_spec)
      no_spec

resolve_fields-HasValue_example :
    HasValue (bytes "port") (resolve_fields outside.generated port no_deploy)
unfolding text_eq auto_value
resolve_fields-HasValue_example =
    resolve_fields-HasValue outside.generated port (bytes "port") [] [] []
      (record { auto_fill = []; default = bytes "80" }) no_spec no_deploy (inl refl) refl refl refl

abbrev two : State
two = state_of (
    (bytes "app", entry_of (bytes "app") [] [])
    ∷ (bytes "store1", entry_of (bytes "store1") [] [])
    ∷ (bytes "old", entry_of (bytes "old") [] (bytes "app" ∷ []))
    ∷ [])

update_reverse_refs-Linked_example :
    Ends
      (λ a t.
        (k : Text)
        → lists (bytes "app") (lookup k t.instances)
          ≡ linked
              (bytes "old" ∷ [])
              (bytes "store1" ∷ [])
              k
              (lists (bytes "app") (lookup k two.instances)))
      (λ e t. ¬ Reliable outside)
      (update_reverse_refs outside (bytes "app") (bytes "old" ∷ []) (bytes "store1" ∷ []) two)
update_reverse_refs-Linked_example =
    update_reverse_refs-Linked outside (bytes "app") (bytes "old" ∷ []) (bytes "store1" ∷ []) two

update_instance-StillListed_example :
    Ends
      (λ a t. StillListed (bytes "app") two t)
      (Unchanged two)
      (update_instance outside request no_resources (entry_of (bytes "app") [] []) two)
unfolding lookup text_eq
update_instance-StillListed_example =
    update_instance-StillListed outside request no_resources (entry_of (bytes "app") [] []) two
      ((λ n. refl), (λ n. refl)) refl

resolve_version-Next_example :
    (v : Text) × (resolve_version outside.semver_is_valid outside.semver_compare
        (bytes "1.0.0")
        (some (bytes "1.0.0-3"))
      ≡ some v)
    × (split_version v
        ≡ ((split_version (bytes "1.0.0-3")).0, suc (split_version (bytes "1.0.0-3")).1))
unfolding text_eq semver_valid compare_main split_version split_last atoi all_digits value_from
resolve_version-Next_example =
    resolve_version-Next outside.semver_is_valid outside.semver_compare (bytes "1.0.0")
      (bytes "1.0.0-3") refl refl refl refl (omega arith)

app_instance_delete-IsMarked_example :
    Ends
      (λ a t. IsMarked (bytes "app") (entry_of (bytes "app") [] []) t)
      (λ q t. ⊥)
      (app_instance_delete outside (bytes "app") two)
unfolding lookup text_eq dns_label_valid matches_label label_rest
app_instance_delete-IsMarked_example =
    app_instance_delete-IsMarked outside (bytes "app") two (entry_of (bytes "app") [] []) refl refl
      refl ((λ n. refl), (λ n. refl)) refl (λ h. false≢true ((text_eq_iff [] (bytes "delete")).1 h))
