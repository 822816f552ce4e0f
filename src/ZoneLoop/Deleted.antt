-- ===== src/ZoneLoop/Deleted.antt =====
-- A pass leaves a deleted app alone.
use innerstack.Prelude.{
  ℕ, ◌≡◌, refl, sym, ◌∙◌, ◌≢◌, inl, inr, false, not, ◌&&◌, List, [], ◌∷◌, Option, none, some, Text,
  text_key, eqb, length, arith, Bool-cases, is_some, by_if, by_option, All,
}
use innerstack.Prelude.Int.{ℤ}
use innerstack.Prelude.Map.{Map, lookup}
use innerstack.Inet.{Quad, Cidr}
use innerstack.Sort.{SliceSort}
use innerstack.Scheduler.{ScheduleHostItem, ScheduleHitItem, Result, ok, err}
use innerstack.Network.Ipam.{host_network}
use innerstack.ZoneLoop.{
  Replica, App, HostEntry, Outside, ZoneState, Outcome, ticked, put_app, put_host, flush_app,
  write_host, at_replica_child, is_live, needs_host, live_names, active_name, reconcile_app,
}
use innerstack.ZoneLoop.Ports.{
  with_replica, sort_ports, ports_eq, collect_ports, sync_host, sync_hosts, bind_replicas,
}
use innerstack.ZoneLoop.Addresses.{address_replicas}
use innerstack.ZoneLoop.Place.{
  start_stage, fail_stage, hit_stage, instant_child, deliver_stages, raise_operate, save_placed,
  hit_address, open_ports, settle, place_replica, fill_replicas, split_unplaced, place_app,
  sched_hosts, count_apps, store_operate,
}
use innerstack.ZoneLoop.Pass.{
  Reads, reconcile_apps, bind_app, bind_apps, schedule_active, schedule_loaded,
}
use innerstack.ZoneLoop.Steady.{
  WellNamed, Steady, Steady-refl, Steady-trans, Steady-same, put_app-Steady, flush_app-Steady,
  write_host-Steady, then_do-Steady, reconcile_app-Steady,
}
use innerstack.ZoneLoop.Rounds.{bind_replicas-IsRound, address_replicas-IsRound}

module _ (k : Text) where
  abbrev Calm : ZoneState → Outcome → Type 0
  Calm s r = Steady k s r.1

  sync_host-Steady :
      (out : Outside) (id : Text) (ports : List ℕ) (s : ZoneState)
      → Calm s (sync_host out id ports s)
  unfolding sync_host
  sync_host-Steady out id ports s =
      by_option (Calm s) (lookup id s.hosts) _ _ (λ n. Steady-refl k s)
        (λ h n.
          let h' : HostEntry = record h { port_used = sort_ports ports } in
          let h'' : HostEntry = record h { port_used = sort_ports h.port_used } in
          by_if (Calm s) (ports_eq (sort_ports h.port_used) (sort_ports ports))
            (none, put_host id h'' s) (write_host out id h' (put_host id h' s))
            (λ q. Steady-same k s (put_host id h'' s) refl refl)
            (λ q.
              Steady-trans k s (put_host id h' s) _ (Steady-same k s (put_host id h' s) refl refl)
                (write_host-Steady k out id h' (put_host id h' s))))

  sync_hosts-Steady :
      (out : Outside) (table : Map Text (List ℕ)) (s : ZoneState) → Calm s (sync_hosts out table s)
  unfolding sync_hosts
  sync_hosts-Steady out [] s = Steady-refl k s
  sync_hosts-Steady out ((id, ports) ∷ rest) s =
      then_do-Steady k s (sync_host out id ports s) (sync_hosts out rest)
        (sync_host-Steady out id ports s) (λ t p. sync_hosts-Steady out rest t)

  raise_operate-Steady :
      (app : App) (id : Text) (s : ZoneState) → Steady k s (raise_operate app id s)
  unfolding raise_operate
  raise_operate-Steady app id s =
      by_option (λ t. Steady k s t) (lookup id s.operate) s _ (λ n. Steady-refl k s)
        (λ op n. Steady-same k s _ refl refl)

  save_placed-Steady :
      (out : Outside) (app : App) (id : Text) (h : HostEntry) (s : ZoneState)
      → app.name ≢ k
      → Calm s (save_placed out app id h s)
  unfolding save_placed
  save_placed-Steady out app id h s other =
      let s₁ : ZoneState = put_host id h s in
      let s₂ : ZoneState = put_app app s₁ in
      let first : Steady k s s₂ =
        Steady-trans k s s₁ s₂ (Steady-same k s s₁ refl refl) (put_app-Steady k app other s₁) in
      Steady-trans k s s₂ _ first (
        then_do-Steady k s₂ (flush_app out app s₂)
          (λ t. write_host out id h (raise_operate app id t)) (flush_app-Steady k app other out s₂)
          (λ t p.
            Steady-trans k t (raise_operate app id t) _ (raise_operate-Steady app id t)
              (write_host-Steady k out id h (raise_operate app id t))))

  hit_address-Steady :
      (out : Outside) (id : Text) (app : App) (rep : Replica) (s : ZoneState)
      → Steady k s (hit_address out id app rep s).1
  unfolding hit_address
  hit_address-Steady out id app rep s =
      by_if (λ (r : Text × ZoneState). Steady k s r.1)
        (s.net.ready && is_some (host_network s.net id)) _ _ (λ e. Steady-same k s _ refl refl)
        (λ e. Steady-refl k s)

  module _ (out : Outside) (before : List Replica) (rep : Replica) (rest : List Replica) (app : App)
      (other : app.name ≢ k) where
    settle-Steady :
        (now : ℤ) (id : Text) (h : HostEntry) (s : ZoneState)
        → Calm s (settle out now before rep rest app id h s)
    unfolding settle deliver_stages instant_child at_replica_child
    settle-Steady now id h s =
        let a = hit_address out id app rep s in
        let o = open_ports out app.spec_ports [] h.port_used a.1.tick in
        let rep' : Replica = record rep { host_id = id; vpc_ipv4 = a.0; service_ports = o.0 } in
        let s₁ : ZoneState = record a.1 { tick = o.2 } in
        Steady-trans k s s₁ _
          (Steady-trans k s a.1 s₁ (hit_address-Steady out id app rep s)
            (Steady-same k a.1 s₁ refl refl))
          (save_placed-Steady out (deliver_stages now rep' (with_replica before rep' rest app)) id
            (record h { port_used = o.1 }) s₁ other)

    -- The state with the app put into it after a question.
    ticked-Steady :
        (app' : App) (s : ZoneState) → app'.name ≡ app.name → Steady k s (put_app app' (ticked s))
    ticked-Steady app' s e =
        Steady-trans k s (ticked s) (put_app app' (ticked s)) (Steady-same k s (ticked s) refl refl)
          (put_app-Steady k app' (λ p. other (sym e ∙ p)) (ticked s))

  place_replica-Steady :
      (out : Outside) (before : List Replica) (rep : Replica) (rest : List Replica) (app : App)
      (hit : Result ScheduleHitItem) (s : ZoneState)
      → app.name ≢ k
      → Calm s (place_replica out before rep rest app hit s)
  unfolding place_replica start_stage fail_stage hit_stage at_replica_child
  place_replica-Steady out before rep rest app (err e) s other =
      let now = out.clock s.tick in
      let app' = fail_stage now rep e (start_stage now rep app) in
      Steady-trans k s (put_app app' (ticked s)) _
        (ticked-Steady out before rep rest app other app' s refl)
        (flush_app-Steady k app' other out (put_app app' (ticked s)))
  place_replica-Steady out before rep rest app (ok best) s other =
      let now = out.clock s.tick in
      let app' = hit_stage now rep best.host_id (start_stage now rep app) in
      let s' : ZoneState = put_app app' (ticked s) in
      let first : Steady k s s' = ticked-Steady out before rep rest app other app' s refl in
      by_option (Calm s) (lookup best.host_id s.hosts) (none, s') _ (λ n. first)
        (λ h n.
          Steady-trans k s s' _ first
            (settle-Steady out before rep rest app' other now best.host_id h s'))

  place_app-Steady :
      (sort : SliceSort) (cpu_cap mem_cap : ℤ → ℤ) (out : Outside) (app : App)
      (hosts : List ScheduleHostItem) (s : ZoneState)
      → app.name ≢ k
      → Calm s (place_app sort cpu_cap mem_cap out app hosts s)
  unfolding place_app fill_replicas
  place_app-Steady sort cpu_cap mem_cap out app hosts s other =
      let app' = fill_replicas sort app in
      by_option (Calm s) (split_unplaced app'.replicas) (none, put_app app' s) _
        (λ n. put_app-Steady k app' other s)
        (λ (before, rep, rest) n. place_replica-Steady out before rep rest app' _ s other)

  abbrev pub Apart : List Text → Type 0
  Apart names = All (λ name. name ≢ k) names

  reconcile_apps-Steady :
      (out : Outside) (names : List Text) (s : ZoneState)
      → Apart names
      → WellNamed s.apps
      → Steady k s (reconcile_apps out names s)
  unfolding reconcile_apps
  reconcile_apps-Steady out [] s h w = Steady-refl k s
  reconcile_apps-Steady out (name ∷ rest) s h w =
      let t : ZoneState = elim (lookup name s.apps) [
        | none ↦ s
        | some app ↦ reconcile_app out app s
      ] in
      let a : Steady k s t =
        by_option (λ u. Steady k s u) (lookup name s.apps) s _ (λ n. Steady-refl k s)
          (λ app n. reconcile_app-Steady k out app s (λ p. h.0 (sym (w name app n) ∙ p))) in
      Steady-trans k s t _ a (reconcile_apps-Steady out rest t h.1 (a.named w))

  bind_app-Steady :
      (parse_ipv6 : Text → Option Quad) (out : Outside) (app : App) (s : ZoneState)
      → app.name ≢ k
      → Calm s (bind_app parse_ipv6 out app s)
  unfolding bind_app
  bind_app-Steady parse_ipv6 out app s other =
      let b = bind_replicas out [] app.replicas app s in
      let i = bind_replicas-IsRound k out [] app.replicas app s other in
      let a = address_replicas parse_ipv6 out [] b.app.replicas b.app b.state in
      let j =
        address_replicas-IsRound k parse_ipv6 out [] b.app.replicas b.app b.state
          (λ p. other (sym i.name ∙ p)) in
      by_option (Calm s) b.fault _ _
        (λ n.
          by_if (Calm s) b.state.net.ready (a.fault, a.state) (none, b.state)
            (λ e. Steady-trans k s b.state a.state i.steady j.steady) (λ e. i.steady))
        (λ e n. i.steady)

  bind_apps-Steady :
      (parse_ipv6 : Text → Option Quad) (out : Outside) (names : List Text) (s : ZoneState)
      → Apart names
      → WellNamed s.apps
      → Calm s (bind_apps parse_ipv6 out names s)
  unfolding bind_apps
  bind_apps-Steady parse_ipv6 out [] s h w = Steady-refl k s
  bind_apps-Steady parse_ipv6 out (name ∷ rest) s h w =
      let r : Outcome = elim (lookup name s.apps) [
        | none ↦ (none, s)
        | some app ↦ bind_app parse_ipv6 out app s
      ] in
      then_do-Steady k s r (bind_apps parse_ipv6 out rest)
        (by_option (Calm s) (lookup name s.apps) (none, s) _ (λ n. Steady-refl k s)
          (λ app n. bind_app-Steady parse_ipv6 out app s (λ p. h.0 (sym (w name app n) ∙ p))))
        (λ t p. bind_apps-Steady parse_ipv6 out rest t h.1 (p.named w))

  schedule_active-Steady :
      (sort : SliceSort) (cpu_cap mem_cap : ℤ → ℤ) (out : Outside) (reads : Reads)
      (names : List Text) (active : Option Text) (s : ZoneState)
      → ((name : Text) → active ≡ some name → name ≢ k)
      → WellNamed s.apps
      → Calm s (schedule_active sort cpu_cap mem_cap out reads names active s)
  unfolding schedule_active
  schedule_active-Steady sort cpu_cap mem_cap out reads names active s h w =
      let hosts = sched_hosts reads.reports s.hosts in
      let counted = count_apps names s.apps hosts in
      let s' : ZoneState = record s { operate = store_operate counted s.operate } in
      let first : Steady k s s' = Steady-same k s s' refl refl in
      by_if (Calm s) (not (is_some active) && not (eqb (length s.operate) 0)) (none, s) _
        (λ e. Steady-refl k s)
        (λ e.
          by_if (Calm s) (eqb (length hosts) 0) (none, s) _ (λ e. Steady-refl k s)
            (λ e.
              by_option (Calm s) active (none, s') _ (λ n. first)
                (λ name n.
                  by_option (Calm s) (lookup name s'.apps) (none, s') _ (λ m. first)
                    (λ app m. Steady-trans k s s' _ first (
                      place_app-Steady sort cpu_cap mem_cap out app counted s'
                        (λ p. h name n (sym (w name app m) ∙ p)))))))

  -- Every entry under `k` is one of a deleted app.
  abbrev pub IsDeleted : Map Text App → Type 0
  IsDeleted apps = All (λ (p : Text × App). p.0 ≡ k → is_live p.1 ≡ false) apps

  live_names-Apart : (apps : Map Text App) → IsDeleted apps → Apart (live_names apps)
  unfolding live_names
  live_names-Apart [] h = tt
  live_names-Apart ((name, app) ∷ rest) h = elim (Bool-cases (is_live app)) [
    | inl e ↦ rw e ((λ p. let d = h.0 p in cc), live_names-Apart rest h.1)
    | inr e ↦ rw e (live_names-Apart rest h.1)
  ]

  active_name-Apart :
      (apps : Map Text App) (found : Text)
      → IsDeleted apps
      → active_name apps ≡ some found
      → found ≢ k
  unfolding active_name
  active_name-Apart [] found h e p = cc
  active_name-Apart ((name, app) ∷ rest) found h e p =
      elim (Bool-cases (is_live app && needs_host app)) [
        | inl t ↦
            let same : name ≡ found = ground (arith, t, e) in
            let d = h.0 (same ∙ p) in ground (arith, t, d)
        | inr t ↦ active_name-Apart rest found h.1 (ground (arith, t, e)) p
      ]

  -- A pass over the sets that were loaded, whatever it meets, changes a deleted app neither in memory
  -- nor in the data store, so a time to live that the store keeps with it stays. The apps stand under
  -- their names.
  pub schedule_loaded-Steady :
      (parse_ipv6 : Text → Option Quad) (cidr6 : Text → Cidr) (sort : SliceSort)
      (cpu_cap mem_cap : ℤ → ℤ) (out : Outside) (reads : Reads) (s : ZoneState)
      → WellNamed s.apps
      → IsDeleted s.apps
      → Steady k s (schedule_loaded parse_ipv6 cidr6 sort cpu_cap mem_cap out reads s).1
  unfolding schedule_loaded
  schedule_loaded-Steady parse_ipv6 cidr6 sort cpu_cap mem_cap out reads s w d =
      let names = live_names s.apps in
      let active = active_name s.apps in
      let apart = live_names-Apart s.apps d in
      let table = collect_ports s.apps [] in
      then_do-Steady k s _ (schedule_active sort cpu_cap mem_cap out reads names active)
        (then_do-Steady k s (sync_hosts out table s)
          (λ t. bind_apps parse_ipv6 out names (reconcile_apps out names t))
          (sync_hosts-Steady out table s)
          (λ t p.
            let u = reconcile_apps-Steady out names t apart (p.named w) in
            Steady-trans k t (reconcile_apps out names t) _ u (
              bind_apps-Steady parse_ipv6 out names (reconcile_apps out names t) apart
                (u.named (p.named w)))))
        (λ t p.
          schedule_active-Steady sort cpu_cap mem_cap out reads names active t
            (λ name e. active_name-Apart s.apps name d e) (p.named w))
