-- ===== src/Alerts/Examples.antt =====
-- A host that stops reporting: its alert fires at once and resolves after two passes without a breach.
use innerstack.Prelude.{
  text_key, text_eq, ◌≡◌, refl, true, false, bytes, [], ◌∷◌, none, some, Text, arith, length,
  if◌then◌else◌, leb, ◌+◌, ℕ,
}
use innerstack.Prelude.Int.{ℤ, pos}
use innerstack.Prelude.Map.{lookup, insert, lookup-insert_self}
use innerstack.Alerts.{
  AlertRuleSpec, AlertEntry, Alerts, alert_rule_host_down, alert_rule_disk_full, alert_state_firing,
  alert_id, is_firing, new_entry,
}
use innerstack.Alerts.Streaks.{sent_by, evaluations, breaches_fire, clears_keep}

abbrev zone : Text
zone = bytes "z1"

abbrev target : Text
target = bytes "host1"

abbrev disk_full : AlertRuleSpec
disk_full = record { id = alert_rule_disk_full; fire_streak = 2; resolve_streak = 1 }

abbrev host_down : AlertRuleSpec
host_down = record { id = alert_rule_host_down; fire_streak = 1; resolve_streak = 2 }

abbrev quiet : Alerts
quiet = record {
  webhook = bytes "http://h";
  in_flight = λ n. 3;
  notify_calls = 0;
  entries = [];
  writes = [];
  notices = [];
}

abbrev pass : ℕ → ℤ × Text
pass n = (pos n, bytes "disk free 3%")

quiet_entry : lookup (alert_id alert_rule_disk_full target) quiet.entries ≡ none
unfolding lookup
quiet_entry = refl

breaches_fire_example :
    let n = length (pass 5 ∷ pass 10 ∷ []) in
    let t =
      evaluations true disk_full zone alert_rule_disk_full target (pass 5 ∷ pass 10 ∷ []) quiet in
    (e : AlertEntry) × (lookup (alert_id alert_rule_disk_full target) t.entries ≡ some e)
    × (e.pos_run ≡ n)
    × (is_firing e ≡ leb 2 n)
    × (length t.notices ≡ length quiet.notices + (if leb 2 n then sent_by quiet else 0))
breaches_fire_example =
    breaches_fire disk_full zone alert_rule_disk_full target (pass 5) (pass 10 ∷ []) quiet
      (omega arith) quiet_entry

abbrev firing : AlertEntry
firing = record {
  alert = record (new_entry zone alert_rule_host_down target).alert { state = alert_state_firing };
  pos_run = 1;
  neg_run = 0;
  last_write_sec = pos 5;
}

abbrev down : Alerts
down = record {
  webhook = bytes "http://h";
  in_flight = λ n. 3;
  notify_calls = 0;
  entries = insert (alert_id alert_rule_host_down target) firing [];
  writes = [];
  notices = [];
}

firing_example : is_firing firing ≡ true
unfolding text_eq
firing_example = refl

clears_keep_example :
    let t = evaluations false host_down zone alert_rule_host_down target (pass 10 ∷ []) down in
    (e' : AlertEntry) × (lookup (alert_id alert_rule_host_down target) t.entries ≡ some e')
    × (is_firing e' ≡ true)
    × (e'.neg_run ≡ 0 + length (pass 10 ∷ []))
    × (t.notices ≡ down.notices)
clears_keep_example =
    clears_keep host_down zone alert_rule_host_down target (pass 10 ∷ []) down firing
      (lookup-insert_self (alert_id alert_rule_host_down target) firing []) firing_example
      (omega arith)
