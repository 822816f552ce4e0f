-- ===== src/Scheduler/Fit.antt =====
-- The filter of the scheduler (`findHostListThatFit`), against what it means that a host fits.
use mathlib.Core.List.Permᴰ
use innerstack.Prelude.{
  ap, ltb, if-none-some, ◌≡◌, ◌↔◌, sym, ◌∙◌, ◌≢◌, true, false, List, [], ◌∷◌, some, Text, IsIn,
  arith, inl, inr, length, contains, contains_iff, find?, find?_sound, find?-none, Bool-cases,
  Option-cases, ◌==◌, text_key, text_eq, text_eq_iff, All-at,
}
use innerstack.Prelude.Int.{ℤ, leb_ℤ, ltb_ℤ, max_ℤ, ◌+ℤ◌, ◌≤ℤ◌, add64_exact, IsI63, max_ℤ-IsI63}
use innerstack.Sort.{SliceSort}
use innerstack.Sort.Facts.{IsIn-perm}
use innerstack.Scheduler.{
  ScheduleAppReplica, ScheduleHostVolume, ScheduleHostItem, HostFit, host_setup_start, more_free,
  fit_of, volume_fits, vol_fit, over_capacity, fit_volumes, fit_host,
}

-- The sums of the code stay inside an int64 when each part uses at most half of its range.
pub record IsSmallReplica (rep : ScheduleAppReplica) : Type 0 where
  pub cpu : IsI63 rep.cpu
  pub mem : IsI63 rep.mem
  pub vol : IsI63 rep.vol

abbrev pub IsSmallVolume : ScheduleHostVolume → Type 0
IsSmallVolume vp = IsI63 vp.used × IsI63 vp.alloc

pub record IsSmallHost (v : ScheduleHostItem) : Type 0 where
  pub cpu_used : IsI63 v.cpu_used
  pub cpu_alloc : IsI63 v.cpu_alloc
  pub mem_used : IsI63 v.mem_used
  pub mem_alloc : IsI63 v.mem_alloc
  pub volumes : (vp : ScheduleHostVolume) → IsIn vp v.volumes → IsSmallVolume vp

-- A volume has room for `vol` more bytes.
abbrev pub HasRoom : ℤ → ScheduleHostVolume → Type 0
HasRoom vol vp = max_ℤ vp.used vp.alloc +ℤ vol ≤ℤ vp.total

module _ (cpu_cap mem_cap : ℤ → ℤ) (rep : ScheduleAppReplica) where
  -- The replica's cpu and memory fit under the host's two caps.
  pub record HasCapacity (v : ScheduleHostItem) : Type 0 where
    pub cpu_fits : rep.cpu +ℤ max_ℤ v.cpu_used v.cpu_alloc ≤ℤ cpu_cap v.cpu_total
    pub mem_fits : rep.mem +ℤ max_ℤ v.mem_used v.mem_alloc ≤ℤ mem_cap v.mem_total

  -- A host that is set up, is not excluded, and has the resources that the replica asks for.
  pub record Fits (excludes : List Text) (v : ScheduleHostItem) : Type 0 where
    pub is_set_up : IsIn host_setup_start v.op_action
    pub is_allowed : ¬ IsIn v.id excludes
    pub capacity : HasCapacity v
    pub volume : (vp : ScheduleHostVolume) × IsIn vp v.volumes × HasRoom rep.vol vp

leb_ℤ_iff : (a b : ℤ) → (leb_ℤ a b ≡ true) ↔ (a ≤ℤ b)
leb_ℤ_iff a b = ground arith

ltb_ℤ_iff : (a b : ℤ) → (ltb_ℤ a b ≡ false) ↔ (b ≤ℤ a)
ltb_ℤ_iff a b = ground arith

module _ (vol : ℤ) (vp : ScheduleHostVolume) (small : IsSmallVolume vp) (fine : IsI63 vol) where
  volume_fits_iff : (volume_fits vol vp ≡ true) ↔ HasRoom vol vp
  unfolding volume_fits
  volume_fits_iff =
      rw (add64_exact _ _ (max_ℤ-IsI63 _ _ small.0 small.1) fine)
        (leb_ℤ_iff (max_ℤ vp.used vp.alloc +ℤ vol) vp.total)

module _ (cpu_cap mem_cap : ℤ → ℤ) (rep : ScheduleAppReplica) (v : ScheduleHostItem)
    (r : IsSmallReplica rep) (h : IsSmallHost v) where
  -- The test of the code is the comparison of the exact sums.
  pub over_capacity_iff :
      (over_capacity cpu_cap mem_cap rep v ≡ false) ↔ HasCapacity cpu_cap mem_cap rep v
  unfolding over_capacity
  over_capacity_iff =
      rw
        (
          add64_exact _ _ r.cpu (max_ℤ-IsI63 _ _ h.cpu_used h.cpu_alloc),
          add64_exact _ _ r.mem (max_ℤ-IsI63 _ _ h.mem_used h.mem_alloc),
        )
        (ground arith)

-- The volume loop returns "" or the name of a volume that passes its test.
vol_fit_found :
    (vol : ℤ) (vs : List ScheduleHostVolume)
    → (vol_fit vol vs == []) ≡ false
    → (vp : ScheduleHostVolume) × IsIn vp vs
      × (volume_fits vol vp ≡ true)
      × (vol_fit vol vs ≡ vp.name)
unfolding vol_fit text_eq
vol_fit_found vol vs e = elim (Option-cases (find? (volume_fits vol) vs)) [
  | inl p ↦ absurd (ground (arith, p))
  | inr (vp, p) ↦ let (m, t) = find?_sound (volume_fits vol) vs vp p in (vp, m, t, rw (p, vol_fit))
]

-- It returns "" only if no volume passes, or if the one that it stops at has that name.
vol_fit_none :
    (vol : ℤ) (vs : List ScheduleHostVolume) (vp : ScheduleHostVolume)
    → IsIn vp vs
    → volume_fits vol vp ≡ true
    → ((w : ScheduleHostVolume) → IsIn w vs → w.name ≢ [])
    → (vol_fit vol vs == []) ≡ false
unfolding vol_fit
vol_fit_none vol vs vp m t named = elim (Option-cases (find? (volume_fits vol) vs)) [
  | inl p ↦ absurd (ground (arith, All-at _ vp vs (find?-none (volume_fits vol) vs p) m))
  | inr (w, p) ↦
      let (n, _) = find?_sound (volume_fits vol) vs w p in
      rw (p, vol_fit) (ground (arith, named w n, text_eq_iff w.name []))
]

nonempty :
    (vs : List ScheduleHostVolume) (vp : ScheduleHostVolume)
    → IsIn vp vs
    → ltb (length vs) 1 ≡ false
nonempty [] vp m = elim m [ ]
nonempty (v ∷ vs) vp m = ground arith

module _ (sort : SliceSort) (cpu_cap mem_cap : ℤ → ℤ) (rep : ScheduleAppReplica)
    (excludes : List Text) (r : IsSmallReplica rep) where
  -- A round gives an entry exactly for a host that fits, and the entry is that of the host.
  fit_volumes-some :
      (v : ScheduleHostItem) (f : HostFit)
      → IsSmallHost v
      → (fit_volumes sort cpu_cap mem_cap rep v).1 ≡ some f
      → (vp : ScheduleHostVolume) × IsIn vp v.volumes
        × HasRoom rep.vol vp
        × (f ≡ fit_of cpu_cap mem_cap v vp.name)
  unfolding fit_volumes
  fit_volumes-some v f h e =
      let vs = sort.slice ScheduleHostVolume more_free v.volumes in
      elim (Bool-cases (vol_fit rep.vol vs == [])) [
        | inl p ↦ absurd (ground (arith, p))
        | inr p ↦
            let (vp, m, t, n) = vol_fit_found rep.vol vs p in
            let m' = IsIn-perm vp (sort.permutes ScheduleHostVolume more_free v.volumes) m in
            (
              vp,
              m',
              (volume_fits_iff rep.vol vp (h.volumes vp m') r.vol).0 t,
              sym (if-none-some _ _ f e).1 ∙ ap (fit_of cpu_cap mem_cap v) n,
            )
      ]

  fit_host_inv :
      (v : ScheduleHostItem) (f : HostFit)
      → (fit_host sort cpu_cap mem_cap rep excludes v).1 ≡ some f
      → (contains v.op_action host_setup_start ≡ true)
        × (contains excludes v.id ≡ false)
        × (over_capacity cpu_cap mem_cap rep v ≡ false)
        × ((fit_volumes sort cpu_cap mem_cap rep v).1 ≡ some f)
  unfolding fit_host
  fit_host_inv v f e = ground arith

  pub fit_host-Fits :
      (v : ScheduleHostItem) (f : HostFit)
      → IsSmallHost v
      → (fit_host sort cpu_cap mem_cap rep excludes v).1 ≡ some f
      → Fits cpu_cap mem_cap rep excludes v
        × (vp : ScheduleHostVolume) × IsIn vp v.volumes
        × HasRoom rep.vol vp
        × (f ≡ fit_of cpu_cap mem_cap v vp.name)
  fit_host-Fits v f h e =
      let (started, allowed, room, some_fit) = fit_host_inv v f e in
      let (vp, m, t, n) = fit_volumes-some v f h some_fit in
      (
        record {
          is_set_up = (contains_iff v.op_action host_setup_start).0 started;
          is_allowed = λ x. ground (arith, contains_iff excludes v.id);
          capacity = (over_capacity_iff cpu_cap mem_cap rep v r h).0 room;
          volume = (vp, m, t);
        },
        vp,
        m,
        t,
        n,
      )

  -- Every host that fits has an entry, when its volumes have names.
  pub Fits-fit_host :
      (v : ScheduleHostItem)
      → IsSmallHost v
      → ((w : ScheduleHostVolume) → IsIn w v.volumes → w.name ≢ [])
      → Fits cpu_cap mem_cap rep excludes v
      → (name : Text) × ((fit_host sort cpu_cap mem_cap rep excludes v).1
          ≡ some (fit_of cpu_cap mem_cap v name))
  unfolding fit_host fit_volumes
  Fits-fit_host v h named fits =
      let vs = sort.slice ScheduleHostVolume more_free v.volumes in
      let p = sort.permutes ScheduleHostVolume more_free v.volumes in
      let (vp, m, room) = fits.volume in
      (
        vol_fit rep.vol vs,
        ground (
          arith,
          contains_iff v.op_action host_setup_start,
          contains_iff excludes v.id,
          over_capacity_iff cpu_cap mem_cap rep v r h,
          fits.is_set_up,
          fits.is_allowed,
          fits.capacity,
          nonempty v.volumes vp m,
          vol_fit_none rep.vol vs vp (IsIn-perm vp (Permᴰ.symm p) m)
              ((volume_fits_iff rep.vol vp (h.volumes vp m) r.vol).1 room)
              (λ w n. named w (IsIn-perm w p n)),
        ),
      )
