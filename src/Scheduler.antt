-- ===== src/Scheduler.antt =====
-- internal/zonelet/scheduler: the choice of a host for a replica.
-- The parameters are what the code takes from elsewhere: `sort.Slice` of the library, and the two
-- products of an int64 by a float64 constant (`cpuOverAlloc`, `memOverAlloc`), truncated to int64.
-- int64 values are integers, and their arithmetic wraps as written in Prelude/Int.antt.
pub mod Fit
pub mod Choice
pub mod Correct
pub mod Score
mod Examples
use innerstack.Prelude.{
  ℕ, ◌≡◌, Bool, true, false, not, ◌||◌, List, [], ◌∷◌, map, Option, none, some, Text, bytes,
  contains, length, ltb, if◌then◌else◌, is_some, find?, ◌==◌, text_key,
}
use innerstack.Prelude.Int.{ℤ, pos, max_ℤ, add64, sub64, mul64, quot_ℤ, ltb_ℤ, leb_ℤ}
use innerstack.Sort.{SliceSort}

-- inapi.HostSetupStart
abbrev pub host_setup_start : Text
host_setup_start = bytes "start"

pub record ScheduleAppReplica : Type 0 where
  pub rep_id : ℕ
  pub cpu : ℤ
  pub mem : ℤ
  pub vol : ℤ

pub record ScheduleHostVolume : Type 0 where
  pub name : Text
  pub total : ℤ
  pub used : ℤ
  pub alloc : ℤ

pub record ScheduleHostItem : Type 0 where
  pub id : Text
  pub op_action : List Text
  pub cpu_total : ℤ
  pub cpu_used : ℤ
  pub cpu_alloc : ℤ
  pub mem_total : ℤ
  pub mem_used : ℤ
  pub mem_alloc : ℤ
  pub volumes : List ScheduleHostVolume

pub record ScheduleOptions : Type 0 where
  pub host_excludes : List Text

pub record ScheduleHitVolume : Type 0 where
  pub name : Text
  pub size : ℤ

pub record ScheduleHitItem : Type 0 where
  pub host_id : Text
  pub volumes : List ScheduleHitVolume
  pub host : ScheduleHostItem

pub record HostFit : Type 0 where
  pub id : Text
  pub cpu_alloc : ℤ
  pub cpu_total : ℤ
  pub cpu_used : ℤ
  pub mem_alloc : ℤ
  pub mem_total : ℤ
  pub mem_used : ℤ
  pub volume : Text

pub record HostPriority : Type 0 where
  pub id : Text
  pub score : ℤ
  pub volume : Text

pub data Error : Type 0 where
  bad_argument no_host_found no_host_scheduled no_resource_fit : Error

pub data Result {ℓ} (A : Type ℓ) : Type ℓ where
  ok : A → Result A
  err : Error → Result A

infixl 5 ◌>>=◌
abbrev pub ◌>>=◌ {ℓ κ} : {A : Type ℓ} {B : Type κ} → Result A → (A → Result B) → Result B
ok a >>= f = f a
err e >>= f = err e

unfoldable pub calculate_percentage : ℤ → ℤ → ℤ
calculate_percentage numerator denominator =
    if leb_ℤ denominator (pos 0) then pos 0 else quot_ℤ (mul64 numerator (pos 100)) denominator

unfoldable pub calculate_occupancy : HostFit → HostPriority
calculate_occupancy host =
    let cpu_used_p = calculate_percentage (max_ℤ host.cpu_alloc host.cpu_used) host.cpu_total in
    let mem_used_p = calculate_percentage (max_ℤ host.mem_alloc host.mem_used) host.mem_total in
    record {
      id = host.id;
      score = quot_ℤ (add64 cpu_used_p mem_used_p) (pos 2);
      volume = host.volume;
    }

-- The comparison that ranks hosts.
abbrev pub less_score : HostPriority → HostPriority → Bool
less_score i j = ltb_ℤ i.score j.score

-- The comparison that ranks volumes: more free space comes first.
abbrev pub free_space : ScheduleHostVolume → ℤ
free_space v = sub64 v.total (max_ℤ v.used v.alloc)

abbrev pub more_free : ScheduleHostVolume → ScheduleHostVolume → Bool
more_free i j = ltb_ℤ (free_space j) (free_space i)

-- The volume loop of `findHostListThatFit`: the name of the first volume with room, or "".
pub volume_fits : ℤ → ScheduleHostVolume → Bool
volume_fits vol vp = leb_ℤ (add64 (max_ℤ vp.used vp.alloc) vol) vp.total

unfoldable pub vol_fit : ℤ → List ScheduleHostVolume → Text
unfolding volume_fits
vol_fit vol vs = elim (find? (volume_fits vol) vs) [ none ↦ [] | some vp ↦ vp.name ]

abbrev pub excludes_of : Option ScheduleOptions → List Text
excludes_of none = []
excludes_of (some opts) = opts.host_excludes

module _ (cpu_cap mem_cap : ℤ → ℤ) where
  -- The resource test that `findHostListThatFit` and `ScheduleHostValid` share in the source.
  pub over_capacity : ScheduleAppReplica → ScheduleHostItem → Bool
  over_capacity rep v =
      ltb_ℤ (cpu_cap v.cpu_total) (add64 rep.cpu (max_ℤ v.cpu_used v.cpu_alloc))
      || ltb_ℤ (mem_cap v.mem_total) (add64 rep.mem (max_ℤ v.mem_used v.mem_alloc))

  abbrev pub fit_of : ScheduleHostItem → Text → HostFit
  fit_of v name = record {
    id = v.id;
    cpu_alloc = v.cpu_alloc;
    cpu_total = cpu_cap v.cpu_total;
    cpu_used = v.cpu_used;
    mem_alloc = v.mem_alloc;
    mem_total = mem_cap v.mem_total;
    mem_used = v.mem_used;
    volume = name;
  }

abbrev pub hit_at : ScheduleAppReplica → HostPriority → ScheduleHostItem → ScheduleHitItem
hit_at rep best v = record {
  host_id = v.id;
  host = v;
  volumes = record { name = best.volume; size = rep.vol } ∷ [];
}

-- The last loop of `ScheduleHost`.
pub hit_of : ScheduleAppReplica → HostPriority → List ScheduleHostItem → Result ScheduleHitItem
hit_of rep best [] = err no_host_scheduled
hit_of rep best (v ∷ vs) = if v.id == best.id then ok (hit_at rep best v) else hit_of rep best vs

pub pick : ScheduleAppReplica → List ScheduleHostItem → List HostPriority → Result ScheduleHitItem
unfolding hit_of
pick rep hosts [] = err no_host_scheduled
pick rep hosts (best ∷ rest) = hit_of rep best hosts

-- `prioritizer` ranks the fits by their occupancy, the least first.
unfoldable pub prioritizer : SliceSort → List HostFit → Result (List HostPriority)
prioritizer sort [] = err no_host_found
prioritizer sort (h ∷ hs) =
    ok (sort.slice HostPriority less_score (map calculate_occupancy (h ∷ hs)))

abbrev pub push_fit : Option HostFit → List HostFit → List HostFit
push_fit none fits = fits
push_fit (some f) fits = f ∷ fits

module _ (sort : SliceSort) (cpu_cap mem_cap : ℤ → ℤ) where
  -- The end of one round: the volumes are sorted in place, so the caller's host changes.
  pub fit_volumes : ScheduleAppReplica → ScheduleHostItem → ScheduleHostItem × Option HostFit
  fit_volumes rep v =
      let sorted = sort.slice ScheduleHostVolume more_free v.volumes in
      let name = vol_fit rep.vol sorted in
      (
        record v { volumes = sorted },
        if name == [] then none else some (fit_of cpu_cap mem_cap v name),
      )

  -- One round of the loop of `findHostListThatFit`.
  pub fit_host :
      ScheduleAppReplica → List Text → ScheduleHostItem → ScheduleHostItem × Option HostFit
  fit_host rep excludes v =
      if not (contains v.op_action host_setup_start) || ltb (length v.volumes) 1
      then (v, none)
      else if contains excludes v.id
      then (v, none)
      else if over_capacity cpu_cap mem_cap rep v
      then (v, none)
      else fit_volumes rep v

  -- The hosts as the loop leaves them, and the fits in the hosts' order.
  pub find_host_list_that_fit :
      ScheduleAppReplica → List Text → List ScheduleHostItem → List ScheduleHostItem × List HostFit
  find_host_list_that_fit rep excludes [] = ([], [])
  find_host_list_that_fit rep excludes (v ∷ vs) =
      let (v', fit) = fit_host rep excludes v in
      let (vs', fits) = find_host_list_that_fit rep excludes vs in (v' ∷ vs', push_fit fit fits)

  -- The result, and the hosts with the volumes that were sorted on the way.
  pub schedule_host :
      Option ScheduleAppReplica
      → List ScheduleHostItem
      → Option ScheduleOptions
      → Result ScheduleHitItem × List ScheduleHostItem
  unfolding find_host_list_that_fit fit_host over_capacity fit_volumes prioritizer pick
  schedule_host none hosts opts = (err bad_argument, hosts)
  schedule_host (some rep) [] opts = (err bad_argument, [])
  schedule_host (some rep) (h ∷ hs) opts =
      let (hosts, fits) = find_host_list_that_fit rep (excludes_of opts) (h ∷ hs) in
      (prioritizer sort fits >>= pick rep hosts, hosts)

module _ (cpu_cap mem_cap : ℤ → ℤ) where
  -- `none` is the nil error.
  pub schedule_host_valid : ScheduleHostItem → ScheduleAppReplica → Option Error
  unfolding over_capacity
  schedule_host_valid host entry =
      if over_capacity cpu_cap mem_cap entry host then some no_resource_fit else none
