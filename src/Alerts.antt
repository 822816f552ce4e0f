-- ===== src/Alerts.antt =====
-- internal/zonelet/alerts.go: the alert state machine of one (rule, target) pair.
-- The data store and the webhook are outside: `writes` and `notices` list what is sent to them, the
-- latest first. How many deliveries are in flight, which end on their own, is a function of the number
-- of the call of `alertNotify`. Counters of evaluations are plain numbers: they go up by one in five seconds.
mod Examples
pub mod Streaks
pub mod Passes
use innerstack.Prelude.{
  ℕ, zero, suc, ◌+◌, ◌*◌, ◌≤◌, ◌≡◌, Bool, true, false, not, ◌&&◌, ◌||◌, List, [], ◌∷◌, ◌++◌, Option,
  none, some, Text, bytes, if◌then◌else◌, ◌==◌, text_key, leb, find?,
}
use innerstack.Prelude.Int.{ℤ, pos, sub64, leb_ℤ}
use innerstack.Prelude.Map.{Map, lookup, insert, delete}

abbrev pub alert_state_firing : Text
alert_state_firing = bytes "firing"

abbrev pub alert_state_resolved : Text
alert_state_resolved = bytes "resolved"

abbrev pub alert_rule_host_down : Text
alert_rule_host_down = bytes "host_down"

abbrev pub alert_rule_disk_full : Text
alert_rule_disk_full = bytes "disk_full"

abbrev pub alert_rule_replica_crashloop : Text
alert_rule_replica_crashloop = bytes "replica_crashloop"

-- 30 days in milliseconds, and one minute in seconds.
abbrev pub alert_resolved_ttl_ms : ℕ
alert_resolved_ttl_ms = 30 * 86400 * 1000

abbrev pub alert_firing_refresh_sec : ℤ
alert_firing_refresh_sec = pos 60

pub record AlertRuleSpec : Type 0 where
  pub id : Text
  pub fire_streak : ℕ
  pub resolve_streak : ℕ

abbrev pub alert_rule_specs : List AlertRuleSpec
alert_rule_specs =
    record { id = alert_rule_host_down; fire_streak = 1; resolve_streak = 2 }
    ∷ record { id = alert_rule_disk_full; fire_streak = 2; resolve_streak = 1 }
    ∷ record { id = alert_rule_replica_crashloop; fire_streak = 1; resolve_streak = 1 }
    ∷ []

unfoldable pub alert_rule_spec_of : Text → Option AlertRuleSpec
alert_rule_spec_of rule = find? (λ spec. spec.id == rule) alert_rule_specs

-- inapi.Alert
pub record Alert : Type 0 where
  pub zone : Text
  pub rule : Text
  pub target : Text
  pub state : Text
  pub message : Text
  pub start_time : ℤ
  pub update_time : ℤ
  pub breach_count : ℕ

pub record AlertEntry : Type 0 where
  pub alert : Alert
  pub pos_run : ℕ
  pub neg_run : ℕ
  pub last_write_sec : ℤ

-- A record that is written, with its time to live; 0 is none.
pub record Write : Type 0 where
  pub alert : Alert
  pub ttl_ms : ℕ

-- The alerts, with the webhook's address, which is empty where none is configured.
pub record Alerts : Type 0 where
  pub webhook : Text
  pub in_flight : ℕ → ℕ
  pub notify_calls : ℕ
  pub entries : Map Text AlertEntry
  pub writes : List Write
  pub notices : List Alert

abbrev pub alert_id : Text → Text → Text
alert_id rule target = rule ++ (b'/' ∷ target)

abbrev pub is_firing : AlertEntry → Bool
is_firing e = e.alert.state == alert_state_firing

abbrev or_old : Text → Text → Text
or_old message old = if message == [] then old else message

abbrev pub alerts_write : Alert → ℕ → Alerts → Alerts
alerts_write a ttl s = record s { writes = record { alert = a; ttl_ms = ttl } ∷ s.writes }

abbrev pub alert_notify_max_in_flight : ℕ
alert_notify_max_in_flight = 16

-- Whether a notice is sent: a webhook is configured, and not too many deliveries are in flight.
unfoldable pub can_notify : Alerts → Bool
can_notify s =
    not (s.webhook == []) && not (leb alert_notify_max_in_flight (s.in_flight s.notify_calls))

-- `alertNotify`
abbrev pub alert_notify : Alert → Alerts → Alerts
alert_notify a s = record s {
  notify_calls = suc s.notify_calls;
  notices = if can_notify s then a ∷ s.notices else s.notices;
}

abbrev pub put_entry : Text → AlertEntry → Alerts → Alerts
put_entry id e s = record s { entries = insert id e s.entries }

unfoldable pub alert_resolve : Text → AlertEntry → ℤ → Text → Alerts → Alerts
alert_resolve id e now message s =
    let a = record e.alert {
      state = alert_state_resolved;
      update_time = now;
      message = or_old message e.alert.message;
    } in
    let t = alert_notify a (alerts_write a alert_resolved_ttl_ms s) in
    record t { entries = delete id t.entries }

-- The entry that a first breach makes.
abbrev pub new_entry : Text → Text → Text → AlertEntry
new_entry zone rule target = record {
  alert = record {
    zone = zone;
    rule = rule;
    target = target;
    state = [];
    message = [];
    start_time = pos 0;
    update_time = pos 0;
    breach_count = 0;
  };
  pos_run = 0;
  neg_run = 0;
  last_write_sec = pos 0;
}

-- A breach: the streak goes on.
abbrev pub touched : ℤ → Text → AlertEntry → AlertEntry
touched now message e = record {
  alert = record e.alert { update_time = now; message = or_old message e.alert.message };
  pos_run = e.pos_run + 1;
  neg_run = 0;
  last_write_sec = e.last_write_sec;
}

-- A steady breach is counted, and written about once a minute.
abbrev pub is_write_due : ℤ → AlertEntry → Bool
is_write_due now e = leb_ℤ alert_firing_refresh_sec (sub64 now e.last_write_sec)

abbrev pub stay_entry : ℤ → AlertEntry → AlertEntry
stay_entry now e = record e {
  alert = record e.alert { breach_count = e.alert.breach_count + 1 };
  last_write_sec = if is_write_due now e then now else e.last_write_sec;
}

unfoldable pub stay_firing : Text → ℤ → AlertEntry → Alerts → Alerts
stay_firing id now e s =
    let e' = stay_entry now e in
    put_entry id e' (if is_write_due now e then alerts_write e'.alert 0 s else s)

-- The breach that completes the streak.
abbrev pub firing_entry : ℤ → AlertEntry → AlertEntry
firing_entry now e = record e {
  alert = record e.alert { state = alert_state_firing; start_time = now; breach_count = 1 };
  last_write_sec = now;
}

unfoldable pub start_firing : Text → ℤ → AlertEntry → Alerts → Alerts
start_firing id now e s =
    let e' = firing_entry now e in
    put_entry id e' (alert_notify e'.alert (alerts_write e'.alert 0 s))

unfoldable pub on_positive : AlertRuleSpec → Text → ℤ → Text → AlertEntry → Alerts → Alerts
on_positive spec id now message old s =
    let e = touched now message old in
    if is_firing e
    then stay_firing id now e s
    else if leb spec.fire_streak e.pos_run
    then start_firing id now e s
    else put_entry id e s

unfoldable pub on_negative : AlertRuleSpec → Text → ℤ → AlertEntry → Alerts → Alerts
unfolding alert_resolve
on_negative spec id now old s =
    let e = record old { pos_run = 0 } in
    if not (is_firing e)
    then record s { entries = delete id s.entries }
    else let e' = record e { neg_run = e.neg_run + 1 } in
      if leb spec.resolve_streak e'.neg_run
      then alert_resolve id e' now (bytes "condition cleared") s
      else put_entry id e' s

-- One evaluation of a rule that is known.
unfoldable pub eval_spec : AlertRuleSpec → Text → Text → Text → Bool → ℤ → Text → Alerts → Alerts
unfolding on_positive on_negative stay_firing start_firing
eval_spec spec zone rule target positive now message s =
    let id = alert_id rule target in
    elim (lookup id s.entries) [
      | none ↦
          if positive then on_positive spec id now message (new_entry zone rule target) s else s
      | some e ↦
          if positive then on_positive spec id now message e s else on_negative spec id now e s
    ]

unfoldable pub alert_eval_condition : Text → Text → Text → Bool → ℤ → Text → Alerts → Alerts
unfolding alert_rule_spec_of eval_spec
alert_eval_condition zone rule target positive now message s = elim (alert_rule_spec_of rule) [
  | none ↦ s
  | some spec ↦ eval_spec spec zone rule target positive now message s
]
