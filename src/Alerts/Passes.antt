-- ===== src/Alerts/Passes.antt =====
-- internal/zonelet/alerts.go: the evaluation passes over the hosts and the replicas.
-- What the pass reads elsewhere is in `World`; the texts of the messages, which print sizes as
-- floats, are its functions. A container's name is split by `instance_of` (`ParseContainerName`).
use innerstack.Prelude.{
  ℕ, zero, suc, ◌-◌, Bool, true, false, not, ◌&&◌, ◌||◌, List, [], ◌∷◌, ◌++◌, Option, none, some,
  Text, bytes, if◌then◌else◌, ◌==◌, text_key, leb, ltb, length, contains, keep_if,
}
use innerstack.Prelude.Int.{ℤ, pos, sub64, mul64, leb_ℤ, ltb_ℤ}
use innerstack.Prelude.Map.{Map, lookup, insert, delete}
use innerstack.Alerts.{
  alert_rule_host_down, alert_rule_disk_full, alert_rule_replica_crashloop, alert_state_firing,
  Alert, AlertEntry, Alerts, alert_id, alert_resolve, alert_eval_condition,
}

pub record HostStatus : Type 0 where
  pub updated : ℤ
  pub disk_total_bytes : ℤ
  pub disk_free_bytes : ℤ

pub record RestartTracker : Type 0 where
  pub of_instance : Text
  pub seen : Bool
  pub last_count : ℕ
  pub events : List ℤ

-- What a pass reads: the configuration, the caches of the zone leader and the data store.
pub record World : Type 0 where
  pub zone_name : Text
  pub is_leader : Bool
  pub hosts : List Text
  pub live_status : Map Text HostStatus
  pub read_status : Text → Option HostStatus
  pub restart_counts : Map Text ℕ
  pub instances : List Text
  pub stored_alerts : Option (List Alert)
  pub down_limit : ℤ
  pub disk_limit : ℤ
  pub window : ℤ
  pub threshold : ℕ
  pub down_message : ℤ → ℤ → Text
  pub disk_message : HostStatus → ℤ → Text
  pub crashloop_message : ℕ → ℤ → Text
  pub instance_of : Text → Option Text

pub record AlertsRuntime : Type 0 where
  pub loaded : Bool
  pub alerts : Alerts
  pub kv_status : Map Text (Option HostStatus)
  pub restarts : Map Text RestartTracker

-- The zero value; what was written and sent stays.
unfoldable pub reset : AlertsRuntime → AlertsRuntime
reset r = record {
  loaded = false;
  alerts = record r.alerts { entries = [] };
  kv_status = [];
  restarts = [];
}

-- Firing records of the store become entries, with their breaches as the streak.
unfoldable pub load_entries : List Alert → Map Text AlertEntry → Map Text AlertEntry
load_entries [] entries = entries
load_entries (a ∷ rest) entries = load_entries rest (
    if not (a.state == alert_state_firing) || a.rule == [] || a.target == []
    then entries
    else insert (alert_id a.rule a.target)
        (record {
          alert = a;
          pos_run = a.breach_count;
          neg_run = 0;
          last_write_sec = a.update_time;
        })
        entries)

-- `false` is the error of the read.
unfoldable pub alerts_load_from_store : World → AlertsRuntime → Bool × AlertsRuntime
unfolding reset
alerts_load_from_store w r =
    let empty = record (reset r) { loaded = r.loaded } in
    elim w.stored_alerts [
      | none ↦ (false, empty)
      | some stored ↦
          (true, record empty { alerts = record empty.alerts { entries = load_entries stored [] } })
    ]

-- The live report, then the cache of the store, then one read of the store, whose miss is kept too.
read_and_cache : Text → Option HostStatus → AlertsRuntime → Option HostStatus × AlertsRuntime
read_and_cache id answer r =
    let usable : Option HostStatus = elim answer [
      | none ↦ none
      | some hs ↦ if ltb_ℤ (pos 0) hs.updated then some hs else none
    ] in
    (usable, record r { kv_status = insert id usable r.kv_status })

unfoldable pub alert_host_status : World → Text → AlertsRuntime → Option HostStatus × AlertsRuntime
unfolding read_and_cache
alert_host_status w id r = elim (lookup id w.live_status) [
  | some hs ↦ (some hs, r)
  | none ↦ elim (lookup id r.kv_status) [
    | some cached ↦ (cached, r)
    | none ↦ read_and_cache id (w.read_status id) r
  ]
]

-- host_down: the last report is older than the limit.
unfoldable pub down_breach : World → ℤ → Option HostStatus → Bool × Text
down_breach w now none = (false, [])
down_breach w now (some hs) =
    let age = sub64 now hs.updated in
    if ltb_ℤ w.down_limit age then (true, w.down_message age w.down_limit) else (false, [])

-- disk_full: the free share is below the limit, in whole percent.
unfoldable pub disk_breach : World → Option HostStatus → Bool × Text
disk_breach w none = (false, [])
disk_breach w (some hs) =
    if ltb_ℤ (pos 0) hs.disk_total_bytes
      && ltb_ℤ (mul64 hs.disk_free_bytes (pos 100)) (mul64 w.disk_limit hs.disk_total_bytes)
    then (true, w.disk_message hs w.disk_limit)
    else (false, [])

eval_rule : World → Text → Text → ℤ → Bool × Text → AlertsRuntime → AlertsRuntime
eval_rule w rule target now (breach, message) r = record r {
  alerts = alert_eval_condition w.zone_name rule target breach now message r.alerts;
}

eval_host : World → ℤ → Text → AlertsRuntime → AlertsRuntime
unfolding eval_rule
eval_host w now id r =
    let (hs, r') = alert_host_status w id r in
    eval_rule w alert_rule_disk_full id now (disk_breach w hs)
      (eval_rule w alert_rule_host_down id now (down_breach w now hs) r')

eval_host_list : World → ℤ → List Text → AlertsRuntime → AlertsRuntime
unfolding eval_host
eval_host_list w now [] r = r
eval_host_list w now (id ∷ rest) r =
    eval_host_list w now rest (if id == [] then r else eval_host w now id r)

-- The alerts of hosts that left the zone resolve at once; those of replicas do not stand here.
unfoldable pub sweep_removed : List Text → ℤ → Map Text AlertEntry → Alerts → Alerts
sweep_removed hosts now [] s = s
sweep_removed hosts now ((id, e) ∷ rest) s = sweep_removed hosts now rest (
    if e.alert.rule == alert_rule_replica_crashloop || contains hosts e.alert.target
    then s
    else alert_resolve id e now (bytes "target removed from zone") s)

unfoldable pub alerts_eval_hosts : World → ℤ → AlertsRuntime → AlertsRuntime
unfolding eval_host_list
alerts_eval_hosts w now r =
    let r' = eval_host_list w now w.hosts r in
    let known = keep_if (λ id. not (id == [])) w.hosts in
    record r' { alerts = sweep_removed known now r'.alerts.entries r'.alerts }

repeat_event : ℕ → ℤ → List ℤ → List ℤ
repeat_event zero now events = events
repeat_event (suc n) now events = repeat_event n now (events ++ now ∷ [])

-- The counter, which is not negative, against the last one: the first sight sets the base, a rise is that many events, a
-- fall starts a new window.
unfoldable pub observe : ℤ → ℕ → RestartTracker → RestartTracker
unfolding repeat_event
observe now count tracker =
    if not tracker.seen
    then record tracker { seen = true; last_count = count }
    else if ltb tracker.last_count count
    then record tracker {
      events = repeat_event (count - tracker.last_count) now tracker.events;
      last_count = count;
    }
    else if ltb count tracker.last_count
    then record tracker { events = []; last_count = count }
    else tracker

tracker_of : Text → Option RestartTracker → RestartTracker
tracker_of inst none = record { of_instance = inst; seen = false; last_count = 0; events = [] }
tracker_of inst (some tracker) = tracker

unfoldable pub observe_all :
    World → ℤ → Map Text ℕ → Map Text RestartTracker → Map Text RestartTracker
unfolding tracker_of observe
observe_all w now [] trackers = trackers
observe_all w now ((name, count) ∷ rest) trackers =
    observe_all w now rest (elim (w.instance_of name) [
      | none ↦ trackers
      | some inst ↦
          insert name (observe now count (tracker_of inst (lookup name trackers))) trackers
    ])

-- Events that aged out of the window are dropped.
unfoldable pub fresh_events : ℤ → ℤ → List ℤ → List ℤ
fresh_events now window = keep_if (λ ts. leb_ℤ (sub64 now ts) window)

eval_tracker : World → ℤ → Text → RestartTracker → AlertsRuntime → AlertsRuntime
unfolding eval_rule
eval_tracker w now name tracker r =
    if contains w.instances tracker.of_instance
    then (let fresh = fresh_events now w.window tracker.events in
        let breach = leb w.threshold (length fresh) in
        let message = if breach then w.crashloop_message (length fresh) w.window else [] in
        eval_rule w alert_rule_replica_crashloop name now (breach, message)
          (record r { restarts = insert name (record tracker { events = fresh }) r.restarts }))
    else let r' = record r { restarts = delete name r.restarts } in
      let id = alert_id alert_rule_replica_crashloop name in
      elim (lookup id r.alerts.entries) [
        | none ↦ r'
        | some e ↦ record r' { alerts = alert_resolve id e now (bytes "replica removed") r.alerts }
      ]

eval_trackers : World → ℤ → Map Text RestartTracker → AlertsRuntime → AlertsRuntime
unfolding eval_tracker
eval_trackers w now [] r = r
eval_trackers w now ((name, tracker) ∷ rest) r =
    eval_trackers w now rest (eval_tracker w now name tracker r)

unfoldable pub alerts_eval_crashloop : World → ℤ → AlertsRuntime → AlertsRuntime
unfolding eval_trackers observe_all
alerts_eval_crashloop w now r =
    let trackers = observe_all w now w.restart_counts r.restarts in
    eval_trackers w now trackers (record r { restarts = trackers })

-- The work of a leader whose state is loaded, unless no host is registered yet.
eval_all : World → ℤ → AlertsRuntime → AlertsRuntime
eval_all w now r =
    if ltb (length w.hosts) 1 then r else alerts_eval_crashloop w now (alerts_eval_hosts w now r)

unfoldable pub alerts_refresh : World → ℤ → AlertsRuntime → AlertsRuntime
unfolding eval_all
alerts_refresh w now r =
    if w.zone_name == []
    then r
    else if not w.is_leader
    then (if r.loaded then reset r else r)
    else if r.loaded
    then eval_all w now r
    else let (loaded, r') = alerts_load_from_store w r in
      if loaded then eval_all w now (record r' { loaded = true; restarts = [] }) else r'
