-- ===== src/ZoneLoop/Addresses.antt =====
-- The addresses of the pass in internal/zonelet/task_scheduler.go: a placed replica gets one, and one
-- that is no longer its own is given up.
use innerstack.Prelude.{
  Bool, not, ◌&&◌, ◌||◌, List, [], ◌∷◌, ◌++◌, Option, none, some, Text, if◌then◌else◌, ◌==◌,
  text_key, is_some,
}
use innerstack.Inet.{Quad}
use innerstack.Network.Ipam.{
  NetworkManager, replica_key, host_network, vpc_instance_of, alloc_host_sub_network,
}
use innerstack.ZoneLoop.{
  Replica, App, Outside, ZoneState, ticked, put_app, flush_app, bump_revision, stamp_stage,
  is_unplaced, name_ipam_alloc,
}
use innerstack.ZoneLoop.Ports.{Round, AppOutcome, with_replica}

-- The replica has an address, and the table of addresses says that it is its own.
unfoldable pub owns_address : (Text → Option Quad) → App → Replica → NetworkManager → Bool
owns_address parse_ipv6 app rep net =
    not (rep.vpc_ipv4 == [])
    && vpc_instance_of parse_ipv6 net rep.vpc_ipv4 == replica_key app.name rep.id

-- The end of a round in which an address was given: the app is written.
unfoldable pub save_address :
    Outside → List Replica → Replica → List Replica → App → ZoneState → Round
save_address out before rep rest app s =
    let (app₁, bumped) = bump_revision (with_replica before rep rest app) s.bumped in
    let app₂ = stamp_stage (out.clock s.tick) rep.id name_ipam_alloc rep.vpc_ipv4 app₁ in
    let (e, t) = flush_app out app₂ (put_app app₂ (record s { bumped = bumped })) in
    record { fault = e; rep = rep; app = app₂; state = t }

-- The round of a replica that has no address of its own. Even where none can be given, the old one
-- is gone from the set.
unfoldable pub give_address :
    Outside → List Replica → Replica → List Replica → App → ZoneState → Round
unfolding save_address
give_address out before rep rest app s =
    let bare = record rep { vpc_ipv4 = [] } in
    let app' = with_replica before bare rest app in
    let idle : Round = record { fault = none; rep = bare; app = app'; state = put_app app' s } in
    if not (is_some (host_network s.net rep.host_id))
    then idle
    else (let (ip, net) =
          alloc_host_sub_network (out.clock s.tick) (out.answer s.tick) rep.host_id app.name rep.id
            s.net in
        let s' = record (ticked s) { net = net } in
        if ip == []
        then record idle { state = put_app app' s' }
        else save_address out before (record rep { vpc_ipv4 = ip }) rest app s')

unfoldable pub address_replica :
    (Text → Option Quad) → Outside → List Replica → Replica → List Replica → App → ZoneState → Round
unfolding owns_address give_address
address_replica parse_ipv6 out before rep rest app s =
    if is_unplaced rep || owns_address parse_ipv6 app rep s.net
    then record { fault = none; rep = rep; app = app; state = s }
    else give_address out before rep rest app s

unfoldable pub address_replicas :
    (Text → Option Quad) → Outside → List Replica → List Replica → App → ZoneState → AppOutcome
unfolding address_replica
address_replicas parse_ipv6 out before [] app s = record { fault = none; app = app; state = s }
address_replicas parse_ipv6 out before (rep ∷ rest) app s =
    let r = address_replica parse_ipv6 out before rep rest app s in
    let later = address_replicas parse_ipv6 out (before ++ r.rep ∷ []) rest r.app r.state in
    elim r.fault [ none ↦ later | some e ↦ record { fault = some e; app = r.app; state = r.state } ]
