-- ===== src/ZoneLoop/Rounds.antt =====
-- The rounds of a pass work on one app, and keep its name.
use innerstack.Prelude.{
  ◌≡◌, refl, sym, ◌∙◌, ◌≢◌, false, not, List, [], ◌∷◌, ◌++◌, Option, none, some, Text, ◌==◌,
  text_key, number_key, length, is_some, by_if, by_option,
}
use innerstack.Prelude.Map.{lookup}
use innerstack.Inet.{Quad}
use innerstack.Network.Ipam.{host_network, alloc_host_sub_network}
use innerstack.ZoneLoop.{
  Replica, App, HostEntry, Outside, ZoneState, ticked, put_app, put_host, flush_app, write_host,
  bump_revision, stamp_stage, is_unplaced, name_port_alloc, name_ipam_alloc,
}
use innerstack.ZoneLoop.Ports.{
  Binding, Round, AppOutcome, with_replica, valid_ports, kept_ports, bind_ports, save_ports,
  bind_on_host, bind_replica, bind_replicas,
}
use innerstack.ZoneLoop.Addresses.{save_address, give_address, address_replica, address_replicas}
use innerstack.ZoneLoop.Steady.{
  Steady, Steady-refl, Steady-trans, Steady-same, put_app-Steady, flush_app-Steady,
  write_host-Steady, then_do-Steady, bump_revision-name, stamp_stage-name,
}

-- A round keeps the name of its app, and touches no other app.
pub record IsRound (k : Text) (app : App) (s : ZoneState) (app' : App) (t : ZoneState)
    : Type 0 where
  pub steady : Steady k s t
  pub name : app'.name ≡ app.name

abbrev pub RoundOf : Text → App → ZoneState → Round → Type 0
RoundOf k app s r = IsRound k app s r.app r.state

module _ (k : Text) (out : Outside) (before : List Replica) (rep : Replica) (rest : List Replica)
    (app : App) where
  idle-IsRound : (s : ZoneState) → IsRound k app s app s
  idle-IsRound s = record { steady = Steady-refl k s; name = refl }

  module _ (other : app.name ≢ k) where
    save_ports-IsRound :
        (id : Text) (h : HostEntry) (b : Binding) (s : ZoneState)
        → RoundOf k app s (save_ports out before rep rest app id h b s)
    unfolding save_ports
    save_ports-IsRound id h b s =
        let rep' : Replica = record rep { service_ports = b.set } in
        let h' : HostEntry = record h { port_used = b.used } in
        let app₀ = with_replica before rep' rest app in
        let app₁ = (bump_revision app₀ s.bumped).0 in
        let app₂ = stamp_stage (out.clock b.asked) rep.id name_port_alloc [] app₁ in
        let s₀ : ZoneState =
          put_host id h' (record s { bumped = (bump_revision app₀ s.bumped).1; tick = b.asked }) in
        let same : app₂.name ≡ app.name =
          stamp_stage-name (out.clock b.asked) rep.id name_port_alloc [] app₁
          ∙ bump_revision-name app₀ s.bumped in
        let other₂ : app₂.name ≢ k = λ p. other (sym same ∙ p) in
        record {
          steady =
              Steady-trans k s (put_app app₂ s₀) _
                (Steady-trans k s s₀ (put_app app₂ s₀) (Steady-same k s s₀ refl refl)
                  (put_app-Steady k app₂ other₂ s₀))
                (then_do-Steady k (put_app app₂ s₀) (flush_app out app₂ (put_app app₂ s₀))
                  (write_host out id h') (flush_app-Steady k app₂ other₂ out (put_app app₂ s₀))
                  (λ t p. write_host-Steady k out id h' t));
          name = same;
        }

    bind_on_host-IsRound :
        (h : HostEntry) (s : ZoneState) (b : Binding)
        → RoundOf k app s (bind_on_host out before rep rest app h s b)
    unfolding bind_on_host
    bind_on_host-IsRound h s b =
        by_if (RoundOf k app s) b.flush _ _ (λ e. save_ports-IsRound rep.host_id h b s)
          (λ e. record {
            steady = Steady-same k s (record s { tick = b.asked }) refl refl;
            name = refl;
          })

    bind_replica-IsRound :
        (s : ZoneState) → RoundOf k app s (bind_replica out before rep rest app s)
    unfolding bind_replica
    bind_replica-IsRound s =
        let ports = valid_ports app.spec_ports [] in
        let set = kept_ports ports rep.service_ports [] in
        let idle : Round = record { fault = none; rep = rep; app = app; state = s } in
        by_if (RoundOf k app s) (is_unplaced rep) _ _ (λ e. idle-IsRound s)
          (λ e.
            by_option (RoundOf k app s) (lookup rep.host_id s.hosts) _ _ (λ n. idle-IsRound s)
              (λ h n.
                let b =
                  bind_ports out ports
                    (record { set = set; used = h.port_used; flush = false; asked = s.tick }) in
                by_if (RoundOf k app s) (length set == length ports) idle
                  (bind_on_host out before rep rest app h s b) (λ q. idle-IsRound s)
                  (λ q. bind_on_host-IsRound h s b)))

    save_address-IsRound :
        (rep' : Replica) (s : ZoneState) → RoundOf k app s (save_address out before rep' rest app s)
    unfolding save_address
    save_address-IsRound rep' s =
        let app₀ = with_replica before rep' rest app in
        let app₁ = (bump_revision app₀ s.bumped).0 in
        let app₂ = stamp_stage (out.clock s.tick) rep'.id name_ipam_alloc rep'.vpc_ipv4 app₁ in
        let s₀ : ZoneState = record s { bumped = (bump_revision app₀ s.bumped).1 } in
        let same : app₂.name ≡ app.name =
          stamp_stage-name (out.clock s.tick) rep'.id name_ipam_alloc rep'.vpc_ipv4 app₁
          ∙ bump_revision-name app₀ s.bumped in
        let other₂ : app₂.name ≢ k = λ p. other (sym same ∙ p) in
        record {
          steady =
              Steady-trans k s (put_app app₂ s₀) _
                (Steady-trans k s s₀ (put_app app₂ s₀) (Steady-same k s s₀ refl refl)
                  (put_app-Steady k app₂ other₂ s₀))
                (flush_app-Steady k app₂ other₂ out (put_app app₂ s₀));
          name = same;
        }

    give_address-IsRound :
        (s : ZoneState) → RoundOf k app s (give_address out before rep rest app s)
    unfolding give_address
    give_address-IsRound s =
        let bare : Replica = record rep { vpc_ipv4 = [] } in
        let app' = with_replica before bare rest app in
        let r =
          alloc_host_sub_network (out.clock s.tick) (out.answer s.tick) rep.host_id app.name rep.id
            s.net in
        let s' : ZoneState = record (ticked s) { net = r.1 } in
        by_if (RoundOf k app s) (not (is_some (host_network s.net rep.host_id))) _ _
          (λ e. record { steady = put_app-Steady k app' other s; name = refl })
          (λ e.
            by_if (RoundOf k app s) (r.0 == []) _ _
              (λ q. record {
                steady =
                    Steady-trans k s s' (put_app app' s') (Steady-same k s s' refl refl)
                      (put_app-Steady k app' other s');
                name = refl;
              })
              (λ q.
                let i = save_address-IsRound (record rep { vpc_ipv4 = r.0 }) s' in
                record {
                  steady = Steady-trans k s s' _ (Steady-same k s s' refl refl) i.steady;
                  name = i.name;
                }))

    address_replica-IsRound :
        (parse_ipv6 : Text → Option Quad) (s : ZoneState)
        → RoundOf k app s (address_replica parse_ipv6 out before rep rest app s)
    unfolding address_replica
    address_replica-IsRound parse_ipv6 s =
        by_if (RoundOf k app s) _ _ _ (λ e. idle-IsRound s) (λ e. give_address-IsRound s)

abbrev pub LoopOf : Text → App → ZoneState → AppOutcome → Type 0
LoopOf k app s r = IsRound k app s r.app r.state

IsRound-trans :
    (k : Text) (app app₁ app₂ : App) (s t u : ZoneState)
    → IsRound k app s app₁ t
    → IsRound k app₁ t app₂ u
    → IsRound k app s app₂ u
IsRound-trans k app app₁ app₂ s t u a b = record {
  steady = Steady-trans k s t u a.steady b.steady;
  name = b.name ∙ a.name;
}

-- A round, and then the rest of the loop or, after a fault, nothing.
after_round :
    (k : Text) (app : App) (s : ZoneState) (r : Round) (later : AppOutcome)
    → RoundOf k app s r
    → LoopOf k r.app r.state later
    → LoopOf k app s (elim r.fault [
      | none ↦ later
      | some e ↦ record { fault = some e; app = r.app; state = r.state }
    ])
after_round k app s r later a b =
    by_option (LoopOf k app s) r.fault later
      (λ e. record { fault = some e; app = r.app; state = r.state })
      (λ e. IsRound-trans k app r.app later.app s r.state later.state a b) (λ f e. a)

pub bind_replicas-IsRound :
    (k : Text) (out : Outside) (before reps : List Replica) (app : App) (s : ZoneState)
    → app.name ≢ k
    → LoopOf k app s (bind_replicas out before reps app s)
unfolding bind_replicas
bind_replicas-IsRound k out before [] app s other = record { steady = Steady-refl k s; name = refl }
bind_replicas-IsRound k out before (rep ∷ rest) app s other =
    let r = bind_replica out before rep rest app s in
    let a = bind_replica-IsRound k out before rep rest app other s in
    after_round k app s r _ a (
      bind_replicas-IsRound k out (before ++ r.rep ∷ []) rest r.app r.state
        (λ p. other (sym a.name ∙ p)))

pub address_replicas-IsRound :
    (k : Text) (parse_ipv6 : Text → Option Quad) (out : Outside) (before reps : List Replica)
    (app : App) (s : ZoneState)
    → app.name ≢ k
    → LoopOf k app s (address_replicas parse_ipv6 out before reps app s)
unfolding address_replicas
address_replicas-IsRound k parse_ipv6 out before [] app s other = record {
  steady = Steady-refl k s;
  name = refl;
}
address_replicas-IsRound k parse_ipv6 out before (rep ∷ rest) app s other =
    let r = address_replica parse_ipv6 out before rep rest app s in
    let a = address_replica-IsRound k out before rep rest app other parse_ipv6 s in
    after_round k app s r _ a (
      address_replicas-IsRound k parse_ipv6 out (before ++ r.rep ∷ []) rest r.app r.state
        (λ p. other (sym a.name ∙ p)))
