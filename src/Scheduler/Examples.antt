-- ===== src/Scheduler/Examples.antt =====
-- Runs of the scheduler, and its theorems at two hosts: "a" is half full, "b" is nearly empty.
use innerstack.Prelude.{
  ◌≡◌, refl, List, [], ◌∷◌, none, some, Text, bytes, All, IsIn, inl, inr, arith, ℕ, ◌*◌, ◌≤◌, ◌≢◌,
  text_eq,
}
use innerstack.Prelude.Int.{ℤ, pos, ◌*ℤ◌, ◌≤ℤ◌, ◌+ℤ◌, max_ℤ, add64, wrap64, mul64, quot_ℤ}
use innerstack.Sort.Insertion.{insertion, insertion_sort, insert_sorted}
use innerstack.Scheduler.{
  ScheduleAppReplica, ScheduleHostVolume, ScheduleHostItem, ScheduleHitItem, host_setup_start, ok,
  schedule_host, calculate_occupancy, calculate_percentage, vol_fit,
}
use innerstack.Scheduler.Fit.{IsSmallVolume, IsSmallReplica, IsSmallHost, Fits}
use innerstack.Scheduler.Choice.{occupancy, HasNames}
use innerstack.Scheduler.Correct.{
  IsPlaced, schedule_host-IsPlaced, schedule_host_total, schedule_host_least,
}

abbrev triple : ℤ → ℤ
triple z = z *ℤ pos 3

abbrev unscaled : ℤ → ℤ
unscaled z = z

abbrev replica : ScheduleAppReplica
replica = record { rep_id = 0; cpu = pos 100; mem = pos 64; vol = pos 10 }

abbrev disk : ℕ → ScheduleHostVolume
disk used = record { name = bytes "default"; total = pos 100; used = pos used; alloc = pos 0 }

abbrev host : Text → ℕ → ScheduleHostItem
host id used = record {
  id = id;
  op_action = host_setup_start ∷ [];
  cpu_total = pos 1000;
  cpu_used = pos (used * 10);
  cpu_alloc = pos 0;
  mem_total = pos 1000;
  mem_used = pos (used * 10);
  mem_alloc = pos 0;
  volumes = disk used ∷ [];
}

abbrev half_full : ScheduleHostItem
half_full = host (bytes "a") 50

abbrev nearly_empty : ScheduleHostItem
nearly_empty = host (bytes "b") 5

abbrev zone : List ScheduleHostItem
zone = half_full ∷ nearly_empty ∷ []

abbrev expected : ScheduleHitItem
expected = record {
  host_id = bytes "b";
  volumes = record { name = bytes "default"; size = pos 10 } ∷ [];
  host = nearly_empty;
}

schedule_host-zone :
    (schedule_host insertion triple unscaled (some replica) zone none).0 ≡ ok expected
unfolding schedule_host vol_fit calculate_percentage calculate_occupancy add64 wrap64 mul64 quot_ℤ
    max_ℤ ◌+ℤ◌ ◌*ℤ◌ insertion_sort insert_sorted text_eq
schedule_host-zone = refl

replica-IsSmall : IsSmallReplica replica
replica-IsSmall = omega arith

disk-IsSmall :
    (used : ℕ)
    → used ≤ 100
    → (vp : ScheduleHostVolume) → IsIn vp (disk used ∷ [])
    → IsSmallVolume vp
disk-IsSmall used h vp (inl e) = rw e (omega arith)
disk-IsSmall used h vp (inr m) = elim m [ ]

host-IsSmall : (id : Text) (used : ℕ) → used ≤ 100 → IsSmallHost (host id used)
host-IsSmall id used h = record {
  cpu_used = omega arith;
  cpu_alloc = omega arith;
  mem_used = omega arith;
  mem_alloc = omega arith;
  volumes = disk-IsSmall used h;
}

zone-IsSmall : All IsSmallHost zone
zone-IsSmall =
    (host-IsSmall (bytes "a") 50 (omega arith), (host-IsSmall (bytes "b") 5 (omega arith), tt))

disk-HasNames : (used : ℕ) (vp : ScheduleHostVolume) → IsIn vp (disk used ∷ []) → vp.name ≢ []
disk-HasNames used vp (inl e) = rw e (λ p. cc)
disk-HasNames used vp (inr m) = elim m [ ]

zone-HasNames : All HasNames zone
zone-HasNames = (disk-HasNames 50, (disk-HasNames 5, tt))

half_full-Fits : Fits triple unscaled replica [] half_full
unfolding ◌+ℤ◌ ◌*ℤ◌ max_ℤ
half_full-Fits = record {
  is_set_up = inl refl;
  is_allowed = λ m. m;
  capacity = omega arith;
  volume = (disk 50, inl refl, omega arith);
}

schedule_host-IsPlaced_example : IsPlaced triple unscaled replica [] zone expected
schedule_host-IsPlaced_example =
    schedule_host-IsPlaced insertion triple unscaled replica zone none replica-IsSmall zone-IsSmall
      expected schedule_host-zone

schedule_host_total_example :
    (hit : ScheduleHitItem) × ((schedule_host insertion triple unscaled (some replica) zone none).0
      ≡ ok hit)
schedule_host_total_example =
    schedule_host_total insertion triple unscaled replica zone none replica-IsSmall zone-IsSmall
      zone-HasNames half_full (inl refl) half_full-Fits

schedule_host_least_example :
    (v : ScheduleHostItem) × IsIn v zone
    × (expected.host_id ≡ v.id)
    × (occupancy triple unscaled v ≤ℤ occupancy triple unscaled half_full)
schedule_host_least_example =
    schedule_host_least insertion triple unscaled replica zone none replica-IsSmall zone-IsSmall
      zone-HasNames half_full (inl refl) half_full-Fits expected schedule_host-zone

half_full_use : max_ℤ (pos 0) (pos 500) ≡ pos 500
unfolding max_ℤ
half_full_use = refl

half_full_cap : pos 500 ≤ℤ pos 1000 *ℤ pos 3
unfolding ◌*ℤ◌
half_full_cap = omega arith
