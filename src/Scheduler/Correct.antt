-- ===== src/Scheduler/Correct.antt =====
-- The promises of `ScheduleHost` and `ScheduleHostValid` to the zone's scheduling loop.
use innerstack.Prelude.{
  ◌≡◌, refl, sym, ap, subst, ◌∙◌, ◌↔◌, List, [], ◌∷◌, map, Option, none, some, Text, All, IsIn,
  IsIn-map, arith,
}
use innerstack.Prelude.Int.{ℤ, ◌≤ℤ◌}
use innerstack.Sort.{SliceSort}
use innerstack.Scheduler.{
  ScheduleAppReplica, ScheduleHostVolume, ScheduleHostItem, ScheduleHitItem, ScheduleOptions,
  HostFit, HostPriority, Result, ok, err, excludes_of, fit_of, prioritizer, calculate_occupancy,
  hit_of, pick, schedule_host, schedule_host_valid, ◌>>=◌,
}
use innerstack.Scheduler.Fit.{
  IsSmallReplica, IsSmallHost, HasRoom, HasCapacity, Fits, over_capacity_iff,
}
use innerstack.Scheduler.Choice.{
  occupancy, HasNames, find, find_sound, find_complete, ids-find, hit_of_inv, hit_of_total,
  prioritizer-IsBest, prioritizer_total,
}

-- What the caller of `ScheduleHost` relies on: the hit names a host of the list that fits the
-- replica, and one volume of that host with room for the replica's size.
pub record IsPlaced (cpu_cap mem_cap : ℤ → ℤ) (rep : ScheduleAppReplica) (excludes : List Text)
    (hosts : List ScheduleHostItem) (hit : ScheduleHitItem) : Type 0 where
  pub v : ScheduleHostItem
  pub listed : IsIn v hosts
  pub chosen : hit.host_id ≡ v.id
  pub fits : Fits cpu_cap mem_cap rep excludes v
  pub vp : ScheduleHostVolume
  pub volume_listed : IsIn vp v.volumes
  pub room : HasRoom rep.vol vp
  pub volumes : hit.volumes ≡ record { name = vp.name; size = rep.vol } ∷ []

-- A run with no error chose the head of the ranked list.
schedule_host_inv :
    (sort : SliceSort) (cpu_cap mem_cap : ℤ → ℤ) (rep : ScheduleAppReplica)
    (hosts : List ScheduleHostItem) (opts : Option ScheduleOptions) (hit : ScheduleHitItem)
    → (schedule_host sort cpu_cap mem_cap (some rep) hosts opts).0 ≡ ok hit
    → let found = find sort cpu_cap mem_cap rep (excludes_of opts) hosts in
      (best : HostPriority) × (rest : List HostPriority) × (prioritizer sort found.1
        ≡ ok (best ∷ rest))
      × (hit_of rep best found.0 ≡ ok hit)
unfolding schedule_host
schedule_host_inv sort cpu_cap mem_cap rep [] opts hit e = cc
schedule_host_inv sort cpu_cap mem_cap rep (h ∷ hs) opts hit e = go _ refl e
  where
    found : List ScheduleHostItem × List HostFit
    found = find sort cpu_cap mem_cap rep (excludes_of opts) (h ∷ hs)

    go :
        (r : Result (List HostPriority))
        → prioritizer sort found.1 ≡ r
        → (r >>= pick rep found.0) ≡ ok hit
        → (best : HostPriority) × (rest : List HostPriority) × (prioritizer sort found.1
            ≡ ok (best ∷ rest))
          × (hit_of rep best found.0 ≡ ok hit)
    go (err x) p q = cc
    go (ok []) p q = cc
    go (ok (best ∷ rest)) p q = (best, rest, p, q)

schedule_host_run :
    (sort : SliceSort) (cpu_cap mem_cap : ℤ → ℤ) (rep : ScheduleAppReplica)
    (hosts : List ScheduleHostItem) (opts : Option ScheduleOptions) (best : HostPriority)
    (rest : List HostPriority) (hit : ScheduleHitItem) (w : ScheduleHostItem)
    → IsIn w hosts
    → let found = find sort cpu_cap mem_cap rep (excludes_of opts) hosts in
      prioritizer sort found.1 ≡ ok (best ∷ rest)
      → hit_of rep best found.0 ≡ ok hit
      → (schedule_host sort cpu_cap mem_cap (some rep) hosts opts).0 ≡ ok hit
unfolding schedule_host
schedule_host_run sort cpu_cap mem_cap rep [] opts best rest hit w m p q = elim m [ ]
schedule_host_run sort cpu_cap mem_cap rep (h ∷ hs) opts best rest hit w m p q = rw p q

module _ (sort : SliceSort) (cpu_cap mem_cap : ℤ → ℤ) (rep : ScheduleAppReplica)
    (hosts : List ScheduleHostItem) (opts : Option ScheduleOptions) (r : IsSmallReplica rep)
    (h : All IsSmallHost hosts) where
  -- A hit names a listed host that fits the replica (set up, not excluded, cpu and memory under the
  -- two caps, as exact sums), and a volume of that host with room for the replica. The replica's and
  -- the hosts' figures lie in half the range of an int64.
  pub schedule_host-IsPlaced :
      (hit : ScheduleHitItem)
      → (schedule_host sort cpu_cap mem_cap (some rep) hosts opts).0 ≡ ok hit
      → IsPlaced cpu_cap mem_cap rep (excludes_of opts) hosts hit
  unfolding calculate_occupancy
  schedule_host-IsPlaced hit e =
      let (best, rest, ranked, last) =
        schedule_host_inv sort cpu_cap mem_cap rep hosts opts hit e in
      let b = prioritizer-IsBest sort _ best rest ranked in
      let s = find_sound sort cpu_cap mem_cap rep (excludes_of opts) r hosts b.f h b.listed in
      let is_v : best ≡ calculate_occupancy (fit_of cpu_cap mem_cap s.v s.vp.name) =
        b.is_f ∙ ap calculate_occupancy s.entry in
      let (id, volumes) = hit_of_inv rep best _ hit last in
      record {
        v = s.v;
        listed = s.listed;
        chosen = id ∙ ap (λ p. p.id) is_v;
        fits = s.fits;
        vp = s.vp;
        volume_listed = s.volume_listed;
        room = s.room;
        volumes =
            volumes
            ∙ ap (λ (p : HostPriority). record { name = p.volume; size = rep.vol } ∷ []) is_v;
      }

  module _ (names : All HasNames hosts) (w : ScheduleHostItem) (m : IsIn w hosts)
      (fits : Fits cpu_cap mem_cap rep (excludes_of opts) w) where
    -- If some listed host `w` fits the replica (set up, not excluded, the exact sums under
    -- the two caps, a volume with room), a host is chosen. The replica's and the
    -- hosts' figures lie in half the range of an int64, and the hosts' volumes have names.
    pub schedule_host_total :
        (hit : ScheduleHitItem) × ((schedule_host sort cpu_cap mem_cap (some rep) hosts opts).0
          ≡ ok hit)
    unfolding calculate_occupancy
    schedule_host_total =
        let (name, n) =
          find_complete sort cpu_cap mem_cap rep (excludes_of opts) r hosts w h names m fits in
        let (best, rest, ranked) =
          prioritizer_total sort (find sort cpu_cap mem_cap rep (excludes_of opts) hosts).1 _ n in
        let b = prioritizer-IsBest sort _ best rest ranked in
        let s = find_sound sort cpu_cap mem_cap rep (excludes_of opts) r hosts b.f h b.listed in
        let is_v : best.id ≡ s.v.id = ap (λ p. p.id) (b.is_f ∙ ap calculate_occupancy s.entry) in
        let known : IsIn best.id (map (λ (v : ScheduleHostItem). v.id) hosts) =
          subst (λ i. IsIn i (map (λ (v : ScheduleHostItem). v.id) hosts)) (sym is_v)
            (IsIn-map (λ v. v.id) s.v hosts s.listed) in
        let (hit, found) =
          hit_of_total rep best (find sort cpu_cap mem_cap rep (excludes_of opts) hosts).0 (
            subst (IsIn best.id) (sym (ids-find sort cpu_cap mem_cap rep (excludes_of opts) hosts))
              known) in
        (hit, schedule_host_run sort cpu_cap mem_cap rep hosts opts best rest hit w m ranked found)

    -- The host that a hit names has at most the occupancy of any listed host `w` that fits the replica,
    -- where the replica's and the hosts' figures lie in half the range of an int64, and the hosts'
    -- volumes have names.
    pub schedule_host_least :
        (hit : ScheduleHitItem)
        → (schedule_host sort cpu_cap mem_cap (some rep) hosts opts).0 ≡ ok hit
        → (v : ScheduleHostItem) × IsIn v hosts
          × (hit.host_id ≡ v.id)
          × (occupancy cpu_cap mem_cap v ≤ℤ occupancy cpu_cap mem_cap w)
    unfolding occupancy calculate_occupancy
    schedule_host_least hit e =
        let (best, rest, ranked, last) =
          schedule_host_inv sort cpu_cap mem_cap rep hosts opts hit e in
        let b = prioritizer-IsBest sort _ best rest ranked in
        let s = find_sound sort cpu_cap mem_cap rep (excludes_of opts) r hosts b.f h b.listed in
        let (id, volumes) = hit_of_inv rep best _ hit last in
        let is_v : best ≡ calculate_occupancy (fit_of cpu_cap mem_cap s.v s.vp.name) =
          b.is_f ∙ ap calculate_occupancy s.entry in
        let (name, n) =
          find_complete sort cpu_cap mem_cap rep (excludes_of opts) r hosts w h names m fits in
        (
          s.v,
          s.listed,
          id ∙ ap (λ p. p.id) is_v,
          ground (arith, b.least (fit_of cpu_cap mem_cap w name) n, ap (λ p. p.score) is_v),
        )

-- `ScheduleHostValid` accepts a host exactly when the exact sums stay under the two caps.
pub schedule_host_valid_iff :
    (cpu_cap mem_cap : ℤ → ℤ) (host : ScheduleHostItem) (entry : ScheduleAppReplica)
    → IsSmallHost host
    → IsSmallReplica entry
    → (schedule_host_valid cpu_cap mem_cap host entry ≡ none)
      ↔ HasCapacity cpu_cap mem_cap entry host
unfolding schedule_host_valid
schedule_host_valid_iff cpu_cap mem_cap host entry h r =
    ground (arith, over_capacity_iff cpu_cap mem_cap entry host r h)
