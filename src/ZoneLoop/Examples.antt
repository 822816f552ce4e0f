-- ===== src/ZoneLoop/Examples.antt =====
-- Passes over two apps: "web" is live, "old" is being deleted.
use innerstack.Prelude.{
  ◌≡◌, refl, ◌≢◌, true, false, List, [], ◌∷◌, Option, none, some, Text, text_eq, text_eq_iff,
  text_key, bytes, arith, sym, ◌∙◌, inl, Bool-cases, inr,
}
use innerstack.Prelude.Int.{ℤ, pos}
use innerstack.Prelude.Map.{lookup}
use innerstack.Inet.{Quad, Cidr, not_a_cidr}
use innerstack.Sort.Insertion.{insertion}
use innerstack.Scheduler.{ScheduleHostItem}
use innerstack.Network.Ipam.{NetworkManager}
use innerstack.Network.Ipam.Zone.{not_found}
use innerstack.ZoneLoop.{
  SpecPort, Replica, App, HostEntry, HostReport, Outside, ZoneState, op_action_delete,
}
use innerstack.ZoneLoop.Ports.{Binding, bind_ports, bind_replicas}
use innerstack.ZoneLoop.Addresses.{address_replicas}
use innerstack.ZoneLoop.Place.{sched_item, count_apps}
use innerstack.ZoneLoop.Pass.{ZoneInfo, Reads, schedule_loaded}
use innerstack.ZoneLoop.Steady.{WellNamed, Steady}
use innerstack.ZoneLoop.Deleted.{IsDeleted, schedule_loaded-Steady}
use innerstack.ZoneLoop.FreePorts.{IsStep, bind_ports-IsStep}
use innerstack.ZoneLoop.Count.{item_of, alloc_all, all_on_host, item_of-count_apps}
use innerstack.ZoneLoop.Revision.{IsAt, bind_rounds-IsAt}

abbrev replica : Replica
replica = record { id = 0; host_id = bytes "h1"; vpc_ipv4 = []; service_ports = [] }

abbrev http : SpecPort
http = record { name = bytes "http"; port = 80 }

abbrev app_of : Text → Text → App
app_of name action = record {
  name = name;
  spec_ports = http ∷ [];
  action = action;
  replica_cap = 1;
  cpu_limit = pos 100;
  memory_limit = pos 200;
  volume_limit = pos 300;
  replicas = replica ∷ [];
  deploy = record { revision = 1; stages = none };
}

abbrev web : App
web = app_of (bytes "web") (bytes "start")

abbrev old : App
old = app_of (bytes "old") op_action_delete

abbrev host1 : HostEntry
host1 = record {
  host = record { id = bytes "h1"; peer_addr = []; deploy = none };
  port_used = 20000 ∷ [];
}

abbrev manager : NetworkManager
manager = record {
  zone_map = none;
  version = 0;
  bridge = 0;
  instance_net = 0;
  host_peer_ipv4 = [];
  hosts = [];
  changed = false;
  zone_name = [];
  ready = false;
  stored = none;
}

abbrev state : ZoneState
state = record {
  hosts = (bytes "h1", host1) ∷ [];
  apps = (bytes "web", web) ∷ (bytes "old", old) ∷ [];
  app_versions = [];
  apps_ready = true;
  operate = [];
  net = manager;
  stored_hosts = [];
  stored_apps = (bytes "old", old) ∷ [];
  bumped = [];
  tick = 0;
}

abbrev outside : Outside
outside = record { answer = λ n. some n; clock = λ n. pos n; rand = λ n i. i }

abbrev report : HostReport
report = record {
  cpu_cores = pos 4;
  cpu_sys = pos 0;
  cpu_user = pos 60;
  mem_total = pos 1000;
  mem_used = pos 10;
  disk_total_bytes = pos 9000;
  disk_free_bytes = pos 8000;
}

abbrev no_network : ZoneInfo
no_network = record { vpc_bridge_cidr = []; vpc_instance_cidr = []; vpc_network_domain = [] }

abbrev reads : Reads
reads = record {
  is_leader = true;
  forced = false;
  zone_name = bytes "z1";
  config = no_network;
  network_read = not_found;
  zone_info = some no_network;
  host_list = some [];
  app_list = some [];
  reports = (bytes "h1", report) ∷ [];
}

abbrev no_ipv6 : Text → Option Quad
no_ipv6 s = none

abbrev no_cidr6 : Text → Cidr
no_cidr6 s = not_a_cidr

abbrev same : ℤ → ℤ
same z = z

state-WellNamed : WellNamed state.apps
unfolding lookup
state-WellNamed name app h = elim (Bool-cases (text_eq (bytes "web") name)) [
  | inl e ↦
      let q : web ≡ app = ground (arith, e, h) in rw (← q) ((text_eq_iff (bytes "web") name).0 e)
  | inr e ↦ elim (Bool-cases (text_eq (bytes "old") name)) [
    | inl f ↦
        let q : old ≡ app = ground (arith, e, f, h) in
        rw (← q) ((text_eq_iff (bytes "old") name).0 f)
    | inr f ↦ absurd (ground (arith, e, f, h))
  ]
]

names_differ : text_eq (bytes "web") (bytes "old") ≡ false
unfolding text_eq
names_differ = refl

web_is_not_old : bytes "web" ≢ bytes "old"
web_is_not_old p =
    let t = (text_eq_iff (bytes "web") (bytes "old")).1 p in
    let u : true ≡ false = sym t ∙ names_differ in cc

old-IsDeleted : IsDeleted (bytes "old") state.apps
unfolding text_eq
old-IsDeleted = ((λ p. absurd (web_is_not_old p)), ((λ p. refl), tt))

schedule_loaded-Steady_example :
    Steady
      (bytes "old")
      state
      (schedule_loaded no_ipv6 no_cidr6 insertion same same outside reads state).1
schedule_loaded-Steady_example =
    schedule_loaded-Steady (bytes "old") no_ipv6 no_cidr6 insertion same same outside reads state
      state-WellNamed old-IsDeleted

abbrev unbound : Binding
unbound = record { set = []; used = 20000 ∷ []; flush = false; asked = 0 }

bind_ports-IsStep_example : IsStep unbound (bind_ports outside ((80, http) ∷ []) unbound)
bind_ports-IsStep_example = bind_ports-IsStep outside ((80, http) ∷ []) unbound

abbrev counted : List ScheduleHostItem
counted = sched_item (bytes "h1") report ∷ []

h1_named : bytes "h1" ≢ []
h1_named p = cc

item_of-count_apps_example :
    item_of (bytes "h1") (count_apps (bytes "web" ∷ []) state.apps counted)
    ≡ alloc_all
        (all_on_host (bytes "h1") (bytes "web" ∷ []) state.apps)
        (item_of (bytes "h1") counted)
item_of-count_apps_example =
    item_of-count_apps (bytes "h1") h1_named (bytes "web" ∷ []) state.apps counted

bind_rounds-IsAt_example :
    let b = bind_replicas outside [] web.replicas web state in
    let a = address_replicas no_ipv6 outside [] b.app.replicas b.app b.state in
    IsAt (bytes "web") 1 a.app a.state
bind_rounds-IsAt_example = bind_rounds-IsAt no_ipv6 outside web state refl
