-- ===== src/ZoneLoop/Revision.antt =====
-- The rounds of a pass raise an app's revision at most once.
use innerstack.Prelude.{
  ℕ, ◌+◌, ◌%◌, ◌^◌, ◌≡◌, refl, sym, ap, ◌∙◌, inl, inr, false, not, ◌||◌, List, [], ◌∷◌, ◌++◌,
  Option, none, some, Text, if◌then◌else◌, ◌==◌, text_key, number_key, text_eq_iff, contains,
  length, arith, Bool-cases, by_if, by_option, is_some,
}
use innerstack.Prelude.Int.{ℤ}
use innerstack.Prelude.Map.{lookup}
use innerstack.Inet.{Quad}
use innerstack.Network.Ipam.{host_network, alloc_host_sub_network}
use innerstack.ZoneLoop.{
  Replica, App, HostEntry, Outside, ZoneState, Outcome, ◌then_do◌, ticked, put_app, put_host,
  flush_app, write_host, bump_revision, stamp_stage, at_replica_child, is_unplaced, name_port_alloc,
  name_ipam_alloc,
}
use innerstack.ZoneLoop.Ports.{
  Binding, Round, AppOutcome, with_replica, valid_ports, kept_ports, bind_ports, save_ports,
  bind_on_host, bind_replica, bind_replicas,
}
use innerstack.ZoneLoop.Addresses.{
  owns_address, save_address, give_address, address_replica, address_replicas,
}

-- The revision that an app has in a pass that found it at `rev`: that, or the next one once the app is
-- among those raised.
pub record IsAt (name : Text) (rev : ℕ) (app : App) (s : ZoneState) : Type 0 where
  pub same_name : app.name ≡ name
  pub revision : app.deploy.revision ≡ (if contains s.bumped name then (rev + 1) % 2 ^ 64 else rev)

flush_app-bumped :
    (out : Outside) (app : App) (s : ZoneState) → (flush_app out app s).1.bumped ≡ s.bumped
unfolding flush_app
flush_app-bumped out app s =
    by_option (λ (r : Outcome). r.1.bumped ≡ s.bumped) (out.answer s.tick) _ _ (λ n. refl)
      (λ v n. refl)

write_host-bumped :
    (out : Outside) (id : Text) (h : HostEntry) (s : ZoneState)
    → (write_host out id h s).1.bumped ≡ s.bumped
unfolding write_host
write_host-bumped out id h s =
    by_option (λ (r : Outcome). r.1.bumped ≡ s.bumped) (out.answer s.tick) _ _ (λ n. refl)
      (λ v n. refl)

then_do-bumped :
    (l : List Text) (r : Outcome) (next : ZoneState → Outcome)
    → r.1.bumped ≡ l
    → ((t : ZoneState) → (next t).1.bumped ≡ t.bumped)
    → (r then_do next).1.bumped ≡ l
then_do-bumped l (none, t) next a f = f t ∙ a
then_do-bumped l (some e, t) next a f = a

-- Raising the revision in a state where the app stands at its revision.
bump_revision_lem :
    (name : Text) (rev : ℕ) (app : App) (bumped : List Text)
    → app.name ≡ name
    → app.deploy.revision ≡ (if contains bumped name then (rev + 1) % 2 ^ 64 else rev)
    → let r = bump_revision app bumped in
      (r.0.name ≡ name)
      × (r.0.deploy.revision ≡ (if contains r.1 name then (rev + 1) % 2 ^ 64 else rev))
unfolding bump_revision
bump_revision_lem name rev app bumped e h = elim (Bool-cases (contains bumped app.name)) [
  | inl old ↦ rw old (e, h)
  | inr new ↦
      let k : contains bumped name ≡ false = ap (contains bumped) (sym e) ∙ new in
      rw new (e, ground (arith, h, k, (text_eq_iff app.name name).1 e))
]

stamp_stage-deploy :
    (now : ℤ) (rep_id : ℕ) (stage_name msg : Text) (app : App)
    → ((stamp_stage now rep_id stage_name msg app).name ≡ app.name)
      × ((stamp_stage now rep_id stage_name msg app).deploy.revision ≡ app.deploy.revision)
unfolding stamp_stage at_replica_child
stamp_stage-deploy now rep_id stage_name msg app = (refl, refl)

IsAt-bumped :
    (name : Text) (rev : ℕ) (app : App) (s t : ZoneState)
    → t.bumped ≡ s.bumped
    → IsAt name rev app s
    → IsAt name rev app t
IsAt-bumped name rev app s t e a = record { same_name = a.same_name; revision = rw e a.revision }

module _ (name : Text) (rev : ℕ) (out : Outside) (before : List Replica) (rep : Replica)
    (rest : List Replica) (app : App) where
  abbrev At : Round → Type 0
  At r = IsAt name rev r.app r.state

  save_ports-IsAt :
      (id : Text) (h : HostEntry) (b : Binding) (s : ZoneState)
      → IsAt name rev app s
      → At (save_ports out before rep rest app id h b s)
  unfolding save_ports
  save_ports-IsAt id h b s a =
      let rep' : Replica = record rep { service_ports = b.set } in
      let h' : HostEntry = record h { port_used = b.used } in
      let app₀ = with_replica before rep' rest app in
      let bump = bump_revision app₀ s.bumped in
      let raised = bump_revision_lem name rev app₀ s.bumped a.same_name a.revision in
      let now = out.clock b.asked in
      let app₂ = stamp_stage now rep.id name_port_alloc [] bump.0 in
      let stamped = stamp_stage-deploy now rep.id name_port_alloc [] bump.0 in
      let s₁ : ZoneState =
        put_app app₂ (put_host id h' (record s { bumped = bump.1; tick = b.asked })) in
      let same : (flush_app out app₂ s₁ then_do write_host out id h').1.bumped ≡ bump.1 =
        then_do-bumped bump.1 (flush_app out app₂ s₁) (write_host out id h')
          (flush_app-bumped out app₂ s₁) (λ t. write_host-bumped out id h' t) in
      record { same_name = stamped.0 ∙ raised.0; revision = rw same (stamped.1 ∙ raised.1) }

  bind_replica-IsAt :
      (s : ZoneState) → IsAt name rev app s → At (bind_replica out before rep rest app s)
  unfolding bind_replica bind_on_host
  bind_replica-IsAt s a =
      let ports = valid_ports app.spec_ports [] in
      let set = kept_ports ports rep.service_ports [] in
      let idle : Round = record { fault = none; rep = rep; app = app; state = s } in
      by_if At (is_unplaced rep) idle _ (λ e. a)
        (λ e.
          by_option At (lookup rep.host_id s.hosts) idle _ (λ n. a)
            (λ h n.
              let b =
                bind_ports out ports
                  (record { set = set; used = h.port_used; flush = false; asked = s.tick }) in
              by_if At (length set == length ports) idle
                (bind_on_host out before rep rest app h s b) (λ q. a)
                (λ q.
                  by_if At b.flush (save_ports out before rep rest app rep.host_id h b s)
                    (record {
                      fault = none;
                      rep = rep;
                      app = app;
                      state = record s { tick = b.asked };
                    })
                    (λ q. save_ports-IsAt rep.host_id h b s a)
                    (λ q. record { same_name = a.same_name; revision = a.revision }))))

  save_address-IsAt :
      (rep' : Replica) (s : ZoneState)
      → IsAt name rev app s
      → At (save_address out before rep' rest app s)
  unfolding save_address
  save_address-IsAt rep' s a =
      let app₀ = with_replica before rep' rest app in
      let bump = bump_revision app₀ s.bumped in
      let raised = bump_revision_lem name rev app₀ s.bumped a.same_name a.revision in
      let now = out.clock s.tick in
      let app₂ = stamp_stage now rep'.id name_ipam_alloc rep'.vpc_ipv4 bump.0 in
      let stamped = stamp_stage-deploy now rep'.id name_ipam_alloc rep'.vpc_ipv4 bump.0 in
      let s₁ : ZoneState = put_app app₂ (record s { bumped = bump.1 }) in
      record {
        same_name = stamped.0 ∙ raised.0;
        revision = rw (flush_app-bumped out app₂ s₁) (stamped.1 ∙ raised.1);
      }

  address_replica-IsAt :
      (parse_ipv6 : Text → Option Quad) (s : ZoneState)
      → IsAt name rev app s
      → At (address_replica parse_ipv6 out before rep rest app s)
  unfolding address_replica give_address
  address_replica-IsAt parse_ipv6 s a =
      let bare : Replica = record rep { vpc_ipv4 = [] } in
      let app' = with_replica before bare rest app in
      let r =
        alloc_host_sub_network (out.clock s.tick) (out.answer s.tick) rep.host_id app.name rep.id
          s.net in
      let s' : ZoneState = record (ticked s) { net = r.1 } in
      let same : Round = record { fault = none; rep = rep; app = app; state = s } in
      let idle : Round = record { fault = none; rep = bare; app = app'; state = put_app app' s } in
      by_if At (is_unplaced rep || owns_address parse_ipv6 app rep s.net) same
        (give_address out before rep rest app s) (λ e. a)
        (λ e.
          by_if At (not (is_some (host_network s.net rep.host_id))) idle _
            (λ e. record { same_name = a.same_name; revision = a.revision })
            (λ e.
              by_if At (r.0 == []) (record idle { state = put_app app' s' })
                (save_address out before (record rep { vpc_ipv4 = r.0 }) rest app s')
                (λ q. record { same_name = a.same_name; revision = a.revision })
                (λ q.
                  save_address-IsAt (record rep { vpc_ipv4 = r.0 }) s'
                    (IsAt-bumped name rev app s s' refl a))))

abbrev AtLoop : Text → ℕ → AppOutcome → Type 0
AtLoop name rev r = IsAt name rev r.app r.state

after_round-IsAt :
    (name : Text) (rev : ℕ) (r : Round) (later : AppOutcome)
    → IsAt name rev r.app r.state
    → AtLoop name rev later
    → AtLoop name rev (elim r.fault [
      | none ↦ later
      | some e ↦ record { fault = some e; app = r.app; state = r.state }
    ])
after_round-IsAt name rev r later a b =
    by_option (AtLoop name rev) r.fault later
      (λ e. record { fault = some e; app = r.app; state = r.state }) (λ e. b) (λ f e. a)

bind_replicas-IsAt :
    (name : Text) (rev : ℕ) (out : Outside) (before reps : List Replica) (app : App) (s : ZoneState)
    → IsAt name rev app s
    → AtLoop name rev (bind_replicas out before reps app s)
unfolding bind_replicas
bind_replicas-IsAt name rev out before [] app s a = a
bind_replicas-IsAt name rev out before (rep ∷ rest) app s a =
    let r = bind_replica out before rep rest app s in
    let b = bind_replica-IsAt name rev out before rep rest app s a in
    after_round-IsAt name rev r _ b
      (bind_replicas-IsAt name rev out (before ++ r.rep ∷ []) rest r.app r.state b)

address_replicas-IsAt :
    (name : Text) (rev : ℕ) (parse_ipv6 : Text → Option Quad) (out : Outside)
    (before reps : List Replica) (app : App) (s : ZoneState)
    → IsAt name rev app s
    → AtLoop name rev (address_replicas parse_ipv6 out before reps app s)
unfolding address_replicas
address_replicas-IsAt name rev parse_ipv6 out before [] app s a = a
address_replicas-IsAt name rev parse_ipv6 out before (rep ∷ rest) app s a =
    let r = address_replica parse_ipv6 out before rep rest app s in
    let b = address_replica-IsAt name rev out before rep rest app parse_ipv6 s a in
    after_round-IsAt name rev r _ b
      (address_replicas-IsAt name rev parse_ipv6 out (before ++ r.rep ∷ []) rest r.app r.state b)

-- However many replicas of an app get ports and addresses in a pass, the app's revision goes up by at
-- most one, as a uint64: by one if it ends up among the apps raised, and not at all otherwise.
pub bind_rounds-IsAt :
    (parse_ipv6 : Text → Option Quad) (out : Outside) (app : App) (s : ZoneState)
    → contains s.bumped app.name ≡ false
    → let b = bind_replicas out [] app.replicas app s in
      let a = address_replicas parse_ipv6 out [] b.app.replicas b.app b.state in
      IsAt app.name app.deploy.revision a.app a.state
bind_rounds-IsAt parse_ipv6 out app s new =
    let b = bind_replicas out [] app.replicas app s in
    address_replicas-IsAt app.name app.deploy.revision parse_ipv6 out [] b.app.replicas b.app
      b.state
      (bind_replicas-IsAt app.name app.deploy.revision out [] app.replicas app s
        (record { same_name = refl; revision = rw new refl }))
