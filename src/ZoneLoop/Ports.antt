-- ===== src/ZoneLoop/Ports.antt =====
-- The host ports of the pass in internal/zonelet/task_scheduler.go.
use innerstack.Prelude.{
  ℕ, suc, Bool, true, false, not, ◌&&◌, ◌||◌, List, [], ◌∷◌, ◌++◌, Option, none, some, Text,
  if◌then◌else◌, ◌==◌, text_key, number_key, contains, any, length, ltb, leb, is_some,
}
use innerstack.Prelude.Map.{Map, lookup, insert}
use innerstack.Sort.Insertion.{insertion_sort}
use innerstack.Network.HostPort.{host_port_alloc}
use innerstack.ZoneLoop.{
  SpecPort, ServicePort, Replica, App, HostEntry, Outside, ZoneState, Fault, Outcome, ◌then_do◌,
  put_app, put_host, flush_app, write_host, bump_revision, stamp_stage, is_live, is_unplaced,
  name_port_alloc,
}

-- slices.Sort; of numbers, every algorithm gives the same list.
abbrev pub sort_ports : List ℕ → List ℕ
sort_ports ports = insertion_sort ltb ports

unfoldable pub add_used : List ServicePort → List ℕ → List ℕ
add_used [] used = used
add_used (sp ∷ rest) used = add_used rest (
    if ltb 0 sp.host_port && not (contains used sp.host_port)
    then used ++ sp.host_port ∷ []
    else used)

abbrev pub or_nil : Option (List ℕ) → List ℕ
or_nil none = []
or_nil (some xs) = xs

unfoldable pub collect_replicas : List Replica → Map Text (List ℕ) → Map Text (List ℕ)
unfolding add_used
collect_replicas [] table = table
collect_replicas (rep ∷ rest) table = collect_replicas rest (
    if is_unplaced rep
    then table
    else insert rep.host_id (add_used rep.service_ports (or_nil (lookup rep.host_id table))) table)

-- hostPortMap: the ports that the replicas of the live apps have, by host.
unfoldable pub collect_ports : Map Text App → Map Text (List ℕ) → Map Text (List ℕ)
unfolding collect_replicas
collect_ports [] table = table
collect_ports ((name, app) ∷ rest) table =
    collect_ports rest (if is_live app then collect_replicas app.replicas table else table)

unfoldable pub ports_eq : List ℕ → List ℕ → Bool
ports_eq [] [] = true
ports_eq [] (y ∷ ys) = false
ports_eq (x ∷ xs) [] = false
ports_eq (x ∷ xs) (y ∷ ys) = x == y && ports_eq xs ys

-- One round of the loop that brings a host's list up to date.
unfoldable pub sync_host : Outside → Text → List ℕ → ZoneState → Outcome
unfolding ports_eq
sync_host out id ports s = elim (lookup id s.hosts) [
  | none ↦ (none, s)
  | some h ↦
      let wanted = sort_ports ports in
      let h' = record h { port_used = wanted } in
      if ports_eq (sort_ports h.port_used) wanted
      then (none, put_host id (record h { port_used = sort_ports h.port_used }) s)
      else write_host out id h' (put_host id h' s)
]

unfoldable pub sync_hosts : Outside → Map Text (List ℕ) → ZoneState → Outcome
unfolding sync_host
sync_hosts out [] s = (none, s)
sync_hosts out ((id, ports) ∷ rest) s = sync_host out id ports s then_do sync_hosts out rest

-- The ports of the spec, by number; of equal numbers the last counts.
unfoldable pub valid_ports : List SpecPort → Map ℕ SpecPort → Map ℕ SpecPort
valid_ports [] table = table
valid_ports (sp ∷ rest) table =
    valid_ports rest (if ltb sp.port 1 || leb 65536 sp.port then table else insert sp.port sp table)

abbrev pub has_port : List ServicePort → ℕ → Bool
has_port set p = any (λ sp. sp.port == p) set

-- setPorts: the ports of a replica that stay, each number once.
unfoldable pub kept_ports : Map ℕ SpecPort → List ServicePort → List ServicePort → List ServicePort
kept_ports ports [] set = set
kept_ports ports (sp ∷ rest) set = kept_ports ports rest (
    if is_some (lookup sp.port ports) && ltb 0 sp.host_port && not (has_port set sp.port)
    then set ++ sp ∷ []
    else set)

-- The state of the allocating loop: the ports set, the host's list, whether one was added, and the
-- questions asked.
pub record Binding : Type 0 where
  pub set : List ServicePort
  pub used : List ℕ
  pub flush : Bool
  pub asked : ℕ

-- One round: a port that is set is left alone, one that cannot get a host port is left out.
unfoldable pub bind_port : Outside → SpecPort → Binding → Binding
bind_port out sp b =
    let hp = host_port_alloc (out.rand b.asked) b.used 0 in
    if has_port b.set sp.port
    then b
    else if hp == 0
    then record b { asked = suc b.asked }
    else record {
      set = b.set ++ record { name = sp.name; port = sp.port; host_port = hp } ∷ [];
      used = sort_ports (b.used ++ hp ∷ []);
      flush = true;
      asked = suc b.asked;
    }

unfoldable pub bind_ports : Outside → Map ℕ SpecPort → Binding → Binding
unfolding bind_port
bind_ports out [] b = b
bind_ports out ((p, sp) ∷ rest) b = bind_ports out rest (bind_port out sp b)

-- An app, one of its replicas and the state, after one round of a loop over the replicas.
pub record Round : Type 0 where
  pub fault : Option Fault
  pub rep : Replica
  pub app : App
  pub state : ZoneState

-- The app with a replica between those before and those after it.
abbrev pub with_replica : List Replica → Replica → List Replica → App → App
with_replica before rep rest app = record app { replicas = before ++ rep ∷ rest }

-- The end of a round in which ports were added: the app and then the host are written.
unfoldable pub save_ports :
    Outside
    → List Replica
    → Replica
    → List Replica
    → App
    → Text
    → HostEntry
    → Binding
    → ZoneState
    → Round
save_ports out before rep rest app id h b s =
    let rep' = record rep { service_ports = b.set } in
    let h' = record h { port_used = b.used } in
    let (app₁, bumped) = bump_revision (with_replica before rep' rest app) s.bumped in
    let app₂ = stamp_stage (out.clock b.asked) rep.id name_port_alloc [] app₁ in
    let s₁ = put_app app₂ (put_host id h' (record s { bumped = bumped; tick = b.asked })) in
    let (e, s₂) = flush_app out app₂ s₁ then_do write_host out id h' in
    record { fault = e; rep = rep'; app = app₂; state = s₂ }

-- What a round makes of the ports that were bound on the replica's host.
unfoldable pub bind_on_host :
    Outside → List Replica → Replica → List Replica → App → HostEntry → ZoneState → Binding → Round
unfolding save_ports
bind_on_host out before rep rest app h s b =
    if b.flush
    then save_ports out before rep rest app rep.host_id h b s
    else record { fault = none; rep = rep; app = app; state = record s { tick = b.asked } }

-- One round: `before` and `rest` are the replicas around this one.
unfoldable pub bind_replica :
    Outside → List Replica → Replica → List Replica → App → ZoneState → Round
unfolding bind_on_host
bind_replica out before rep rest app s =
    let ports = valid_ports app.spec_ports [] in
    let set = kept_ports ports rep.service_ports [] in
    let idle : Round = record { fault = none; rep = rep; app = app; state = s } in
    if is_unplaced rep then idle else elim (lookup rep.host_id s.hosts) [
      | none ↦ idle
      | some h ↦
          if length set == length ports
          then idle
          else bind_on_host out before rep rest app h s (
              bind_ports out ports
                (record { set = set; used = h.port_used; flush = false; asked = s.tick }))
    ]

pub record AppOutcome : Type 0 where
  pub fault : Option Fault
  pub app : App
  pub state : ZoneState

unfoldable pub bind_replicas : Outside → List Replica → List Replica → App → ZoneState → AppOutcome
unfolding bind_replica
bind_replicas out before [] app s = record { fault = none; app = app; state = s }
bind_replicas out before (rep ∷ rest) app s =
    let r = bind_replica out before rep rest app s in
    let later = bind_replicas out (before ++ r.rep ∷ []) rest r.app r.state in
    elim r.fault [ none ↦ later | some e ↦ record { fault = some e; app = r.app; state = r.state } ]
