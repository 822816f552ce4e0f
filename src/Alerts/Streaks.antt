-- ===== src/Alerts/Streaks.antt =====
-- When an alert fires and when it resolves.
use innerstack.Prelude.{
  ℕ, ◌+◌, ◌<◌, ◌≡◌, refl, inl, inr, Bool, true, false, not, ◌&&◌, ◌||◌, List, [], ◌∷◌, Option, none,
  some, Text, if◌then◌else◌, text_key, text_eq, leb, length, arith, Bool-cases,
}
use innerstack.Prelude.Int.{ℤ}
use innerstack.Prelude.Map.{lookup, lookup-insert_self}
use innerstack.Alerts.{
  alert_state_firing, alert_resolved_ttl_ms, can_notify, alert_state_resolved, AlertRuleSpec, Alert,
  AlertEntry, Alerts, alert_id, is_firing, new_entry, touched, stay_entry, firing_entry,
  stay_firing, start_firing, put_entry, alerts_write, on_positive, on_negative, eval_spec,
}

firing_is_firing : text_eq alert_state_firing alert_state_firing ≡ true
unfolding text_eq
firing_is_firing = refl

unset_is_quiet : text_eq [] alert_state_firing ≡ false
unfolding text_eq
unset_is_quiet = refl

-- The notices that a call of `alertNotify` sends.
unfoldable pub sent_by : Alerts → ℕ
sent_by s = if can_notify s then 1 else 0

-- A write of the record, which is not due at every breach, leaves it open what can be sent.
sent_by_write :
    (id : Text) (e : AlertEntry) (s : Alerts) (due : Bool)
    → sent_by (put_entry id e (if due then alerts_write e.alert 0 s else s)) ≡ sent_by s
unfolding sent_by can_notify
sent_by_write id e s true = refl
sent_by_write id e s false = refl

-- What one breach makes of the entry at `id`.
pub record IsTouched (spec : AlertRuleSpec) (id : Text) (old : AlertEntry) (s t : Alerts)
    : Type 0 where
  pub e : AlertEntry
  pub at_id : lookup id t.entries ≡ some e
  pub streak : e.pos_run ≡ old.pos_run + 1
  pub no_pause : e.neg_run ≡ 0
  pub firing : is_firing e ≡ (is_firing old || leb spec.fire_streak (old.pos_run + 1))
  pub notices :
      length t.notices
      ≡ length s.notices
        + (if not (is_firing old) && leb spec.fire_streak (old.pos_run + 1) then sent_by s else 0)
  pub unsent :
      (if not (is_firing old) && leb spec.fire_streak (old.pos_run + 1) then 0 else sent_by t)
      ≡ (if not (is_firing old) && leb spec.fire_streak (old.pos_run + 1) then 0 else sent_by s)

module _ (spec : AlertRuleSpec) (id : Text) (now : ℤ) (message : Text) (old : AlertEntry)
    (s : Alerts) where
  stay_firing-IsTouched :
      is_firing old ≡ true
      → IsTouched spec id old s (stay_firing id now (touched now message old) s)
  unfolding stay_firing
  stay_firing-IsTouched f = record {
    e = stay_entry now (touched now message old);
    at_id = lookup-insert_self id _ _;
    streak = refl;
    no_pause = refl;
    firing = ground (arith, f);
    notices = ground (arith, f);
    unsent = rw f (sent_by_write id (stay_entry now (touched now message old)) s _);
  }

  start_firing-IsTouched :
      is_firing old ≡ false
      → leb spec.fire_streak (old.pos_run + 1) ≡ true
      → IsTouched spec id old s (start_firing id now (touched now message old) s)
  unfolding start_firing sent_by can_notify
  start_firing-IsTouched f due = record {
    e = firing_entry now (touched now message old);
    at_id = lookup-insert_self id _ _;
    streak = refl;
    no_pause = refl;
    firing = ground (arith, f, due, firing_is_firing);
    notices = ground (arith, f, due);
    unsent = rw (f, due) refl;
  }

  put_entry-IsTouched :
      is_firing old ≡ false
      → leb spec.fire_streak (old.pos_run + 1) ≡ false
      → IsTouched spec id old s (put_entry id (touched now message old) s)
  unfolding sent_by can_notify
  put_entry-IsTouched f due = record {
    e = touched now message old;
    at_id = lookup-insert_self id _ _;
    streak = refl;
    no_pause = refl;
    firing = ground (arith, f, due);
    notices = ground (arith, f, due);
    unsent = rw (f, due) refl;
  }

  on_positive-IsTouched : IsTouched spec id old s (on_positive spec id now message old s)
  unfolding on_positive
  on_positive-IsTouched = elim (Bool-cases (is_firing old)) [
    | inl f ↦ rw (f, on_positive) (stay_firing-IsTouched f)
    | inr f ↦ elim (Bool-cases (leb spec.fire_streak (old.pos_run + 1))) [
      | inl due ↦ rw (f, due, on_positive) (start_firing-IsTouched f due)
      | inr due ↦ rw (f, due, on_positive) (put_entry-IsTouched f due)
    ]
  ]

-- A series of evaluations of one pair that all find a breach, or that all find none; each has its
-- time and its message.
pub evaluations : Bool → AlertRuleSpec → Text → Text → Text → List (ℤ × Text) → Alerts → Alerts
evaluations positive spec zone rule target [] s = s
evaluations positive spec zone rule target ((now, message) ∷ rest) s =
    evaluations positive spec zone rule target rest
      (eval_spec spec zone rule target positive now message s)

module _ (spec : AlertRuleSpec) (zone rule target : Text) where
  abbrev entry : Alerts → Option AlertEntry
  entry s = lookup (alert_id rule target) s.entries

  breach_known :
      (now : ℤ) (message : Text) (s : Alerts) (e : AlertEntry)
      → entry s ≡ some e
      → IsTouched spec
          (alert_id rule target)
          e
          s
          (eval_spec spec zone rule target true now message s)
  unfolding eval_spec
  breach_known now message s e h =
      rw (h, eval_spec) (on_positive-IsTouched spec (alert_id rule target) now message e s)

  breach_first :
      (now : ℤ) (message : Text) (s : Alerts)
      → entry s ≡ none
      → IsTouched spec
          (alert_id rule target)
          (new_entry zone rule target)
          s
          (eval_spec spec zone rule target true now message s)
  unfolding eval_spec
  breach_first now message s h =
      rw (h, eval_spec)
        (on_positive-IsTouched spec (alert_id rule target) now message (new_entry zone rule target)
          s)

  -- After a series of breaches from an entry with a streak of `run`.
  record IsStreak (run : ℕ) (ts : List (ℤ × Text)) (s t : Alerts) : Type 0 where
    e : AlertEntry
    at_id : entry t ≡ some e
    streak : e.pos_run ≡ run + length ts
    firing : is_firing e ≡ leb spec.fire_streak (run + length ts)
    notices :
        length t.notices
        ≡ length s.notices
          + (if not (leb spec.fire_streak run) && leb spec.fire_streak (run + length ts)
              then sent_by s
              else 0)

  breaches_known :
      (ts : List (ℤ × Text)) (s : Alerts) (e : AlertEntry)
      → entry s ≡ some e
      → is_firing e ≡ leb spec.fire_streak e.pos_run
      → IsStreak e.pos_run ts s (evaluations true spec zone rule target ts s)
  unfolding evaluations
  breaches_known [] s e h f = record {
    e = e;
    at_id = h;
    streak = omega arith;
    firing = ground (arith, f);
    notices = ground arith;
  }
  breaches_known ((now, message) ∷ ts) s e h f =
      let t = breach_known now message s e h in
      let r =
        breaches_known ts (eval_spec spec zone rule target true now message s) t.e t.at_id
          (ground (arith, t.firing, t.streak, f)) in
      record {
        e = r.e;
        at_id = r.at_id;
        streak = omega (arith, r.streak, t.streak);
        firing = ground (arith, r.firing, t.streak);
        notices = ground (arith, r.notices, t.notices, t.unsent, t.streak, f);
      }

  -- From no entry, a series of breaches leaves an alert that fires exactly if the series is at least
  -- as long as the rule's fire streak, which is not 0. If it fires, one notice is sent in the whole
  -- series where a webhook is configured and fewer than 16 deliveries are in flight at that call, and
  -- none where not; if it does not fire, none is sent.
  pub breaches_fire :
      (b : ℤ × Text) (rest : List (ℤ × Text)) (s : Alerts)
      → 0 < spec.fire_streak
      → entry s ≡ none
      → let n = length (b ∷ rest) in
        let t = evaluations true spec zone rule target (b ∷ rest) s in
        (e : AlertEntry) × (lookup (alert_id rule target) t.entries ≡ some e)
        × (e.pos_run ≡ n)
        × (is_firing e ≡ leb spec.fire_streak n)
        × (length t.notices ≡ length s.notices + (if leb spec.fire_streak n then sent_by s else 0))
  unfolding evaluations
  breaches_fire (now, message) rest s h none_yet =
      let t = breach_first now message s none_yet in
      let r =
        breaches_known rest (eval_spec spec zone rule target true now message s) t.e t.at_id
          (ground (arith, t.firing, t.streak, unset_is_quiet)) in
      (
        r.e,
        r.at_id,
        omega (arith, r.streak, t.streak),
        ground (arith, r.firing, t.streak),
        ground (arith, r.notices, t.notices, t.unsent, t.streak, unset_is_quiet),
      )

  -- The end of an incident: the entry is gone, a resolved alert was written with the time to live of
  -- 30 days, and it was sent as a notice if one can be sent.
  pub record IsResolved (s t : Alerts) : Type 0 where
    pub gone : lookup (alert_id rule target) t.entries ≡ none
    pub a : Alert
    pub written : t.writes ≡ record { alert = a; ttl_ms = alert_resolved_ttl_ms } ∷ s.writes
    pub sent : t.notices ≡ (if can_notify s then a ∷ s.notices else s.notices)
    pub resolved : a.state ≡ alert_state_resolved

  -- A pass with no breach, on a firing alert.
  clear_known :
      (now : ℤ) (message : Text) (s : Alerts) (e : AlertEntry)
      → entry s ≡ some e
      → eval_spec spec zone rule target false now message s
        ≡ on_negative spec (alert_id rule target) now e s
  unfolding eval_spec
  clear_known now message s e h = ground (arith, h)

  abbrev paused : AlertEntry → AlertEntry
  paused e = record e { pos_run = 0; neg_run = e.neg_run + 1 }

  clear_step :
      (now : ℤ) (message : Text) (s : Alerts) (e : AlertEntry)
      → entry s ≡ some e
      → is_firing e ≡ true
      → e.neg_run + 1 < spec.resolve_streak
      → eval_spec spec zone rule target false now message s
        ≡ put_entry (alert_id rule target) (paused e) s
  unfolding on_negative
  clear_step now message s e h f k = rw (clear_known now message s e h) (ground (arith, f))

  -- While a firing alert has had fewer passes without a breach than the rule's resolve streak, it
  -- still fires, and no notice is sent.
  pub clears_keep :
      (ts : List (ℤ × Text)) (s : Alerts) (e : AlertEntry)
      → entry s ≡ some e
      → is_firing e ≡ true
      → e.neg_run + length ts < spec.resolve_streak
      → let t = evaluations false spec zone rule target ts s in
        (e' : AlertEntry) × (lookup (alert_id rule target) t.entries ≡ some e')
        × (is_firing e' ≡ true)
        × (e'.neg_run ≡ e.neg_run + length ts)
        × (t.notices ≡ s.notices)
  unfolding evaluations
  clears_keep [] s e h f k = (e, h, f, omega arith, refl)
  clears_keep ((now, message) ∷ ts) s e h f k =
      rw (clear_step now message s e h f (omega arith), evaluations)
        (let (e', at_id, fires, run, sent) =
            clears_keep ts (put_entry (alert_id rule target) (paused e) s) (paused e)
              (lookup-insert_self (alert_id rule target) (paused e) s.entries) f (omega arith) in
          (e', at_id, fires, omega (arith, run), sent))
