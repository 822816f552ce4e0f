-- ===== src/Scheduler/Choice.antt =====
-- `ScheduleHost`: which host is chosen, and when there is one.
use mathlib.Core.List.Permᴰ
use innerstack.Prelude.{
  ◌≡◌, refl, sym, ap, subst, ◌∙◌, ◌≢◌, ◌⊎◌, false, List, [], ◌∷◌, map, Option, none, some, Text,
  All, All-at, IsIn, IsIn-map, IsIn-map_inv, arith, inl, inr, Bool-cases, ◌==◌, text_key,
  text_eq_iff,
}
use innerstack.Prelude.Int.{ℤ, ltb_ℤ}
use innerstack.Sort.{SliceSort, IsWeakOrder, IsSorted}
use innerstack.Sort.Facts.{IsIn-perm}
use innerstack.Scheduler.{
  ScheduleAppReplica, ScheduleHostVolume, ScheduleHostItem, ScheduleHitItem, HostFit, HostPriority,
  ok, less_score, calculate_occupancy, fit_of, fit_host, fit_volumes, push_fit,
  find_host_list_that_fit, prioritizer, hit_at, hit_of,
}
use innerstack.Scheduler.Fit.{
  IsSmallReplica, IsSmallHost, HasRoom, Fits, fit_host-Fits, Fits-fit_host,
}

less_score-IsWeakOrder : IsWeakOrder less_score
less_score-IsWeakOrder = record {
  asym = λ a b h. ground arith;
  neg_trans = λ a b c h k. ground arith;
}

-- The score by which a host is ranked, from the host itself.
unfoldable pub occupancy : (ℤ → ℤ) → (ℤ → ℤ) → ScheduleHostItem → ℤ
occupancy cpu_cap mem_cap v = (calculate_occupancy (fit_of cpu_cap mem_cap v [])).score

module _ (f : HostFit) where
  IsIn-push_inv :
      (o : Option HostFit) (fits : List HostFit)
      → IsIn f (push_fit o fits)
      → (o ≡ some f) ⊎ IsIn f fits
  IsIn-push_inv none fits m = inr m
  IsIn-push_inv (some g) fits (inl e) = inl (ap some (sym e))
  IsIn-push_inv (some g) fits (inr m) = inr m

  IsIn-push : (o : Option HostFit) (fits : List HostFit) → o ≡ some f → IsIn f (push_fit o fits)
  IsIn-push o fits e = rw e (inl refl)

  IsIn-push_rest :
      (o : Option HostFit) (fits : List HostFit) → IsIn f fits → IsIn f (push_fit o fits)
  IsIn-push_rest none fits m = m
  IsIn-push_rest (some g) fits m = inr m

-- Every volume of the host has a name.
abbrev pub HasNames : ScheduleHostItem → Type 0
HasNames v = (w : ScheduleHostVolume) → IsIn w v.volumes → w.name ≢ []

module _ (sort : SliceSort) (cpu_cap mem_cap : ℤ → ℤ) (rep : ScheduleAppReplica)
    (excludes : List Text) where
  -- What an entry of the list of fits says: a host of the list fits, and the entry is its entry.
  pub record IsFitOf (hosts : List ScheduleHostItem) (f : HostFit) : Type 0 where
    pub v : ScheduleHostItem
    pub listed : IsIn v hosts
    pub fits : Fits cpu_cap mem_cap rep excludes v
    pub vp : ScheduleHostVolume
    pub volume_listed : IsIn vp v.volumes
    pub room : HasRoom rep.vol vp
    pub entry : f ≡ fit_of cpu_cap mem_cap v vp.name

  abbrev pub find : List ScheduleHostItem → List ScheduleHostItem × List HostFit
  find = find_host_list_that_fit sort cpu_cap mem_cap rep excludes

  IsFitOf-more :
      (v : ScheduleHostItem) (vs : List ScheduleHostItem) (f : HostFit)
      → IsFitOf vs f
      → IsFitOf (v ∷ vs) f
  IsFitOf-more v vs f h = record {
    v = h.v;
    listed = inr h.listed;
    fits = h.fits;
    vp = h.vp;
    volume_listed = h.volume_listed;
    room = h.room;
    entry = h.entry;
  }

  module _ (r : IsSmallReplica rep) where
    pub find_sound :
        (hosts : List ScheduleHostItem) (f : HostFit)
        → All IsSmallHost hosts
        → IsIn f (find hosts).1
        → IsFitOf hosts f
    unfolding find_host_list_that_fit
    find_sound [] f h m = elim m [ ]
    find_sound (v ∷ vs) f h m =
        elim (IsIn-push_inv f (fit_host sort cpu_cap mem_cap rep excludes v).1 (find vs).1 m) [
          | inl e ↦
              let (fits, vp, n, room, entry) =
                fit_host-Fits sort cpu_cap mem_cap rep excludes r v f h.0 e in
              record {
                v = v;
                listed = inl refl;
                fits = fits;
                vp = vp;
                volume_listed = n;
                room = room;
                entry = entry;
              }
          | inr n ↦ IsFitOf-more v vs f (find_sound vs f h.1 n)
        ]

    -- A host that fits has its entry in the list.
    pub find_complete :
        (hosts : List ScheduleHostItem) (w : ScheduleHostItem)
        → All IsSmallHost hosts
        → All HasNames hosts
        → IsIn w hosts
        → Fits cpu_cap mem_cap rep excludes w
        → (name : Text) × IsIn (fit_of cpu_cap mem_cap w name) (find hosts).1
    unfolding find_host_list_that_fit
    find_complete [] w h k m fits = elim m [ ]
    find_complete (v ∷ vs) w h k (inl e) fits =
        let (name, p) =
          Fits-fit_host sort cpu_cap mem_cap rep excludes r v h.0 k.0
            (subst (Fits cpu_cap mem_cap rep excludes) e fits) in
        (
          name,
          IsIn-push _ (fit_host sort cpu_cap mem_cap rep excludes v).1 (find vs).1
              (p ∙ ap (λ x. some (fit_of cpu_cap mem_cap x name)) (sym e)),
        )
    find_complete (v ∷ vs) w h k (inr m) fits =
        let (name, n) = find_complete vs w h.1 k.1 m fits in
        (name, IsIn-push_rest _ (fit_host sort cpu_cap mem_cap rep excludes v).1 (find vs).1 n)

  id-fit_host : (v : ScheduleHostItem) → (fit_host sort cpu_cap mem_cap rep excludes v).0.id ≡ v.id
  unfolding fit_host fit_volumes
  id-fit_host v = ground arith

  -- The pass keeps the hosts' ids and their order.
  pub ids-find :
      (hosts : List ScheduleHostItem) → map (λ v. v.id) (find hosts).0 ≡ map (λ v. v.id) hosts
  unfolding find_host_list_that_fit
  ids-find [] = refl
  ids-find (v ∷ vs) = cc (id-fit_host v, ids-find vs)

-- The last loop finds the host of the best entry.
pub hit_of_inv :
    (rep : ScheduleAppReplica) (best : HostPriority) (hosts : List ScheduleHostItem)
    (hit : ScheduleHitItem)
    → hit_of rep best hosts ≡ ok hit
    → (hit.host_id ≡ best.id) × (hit.volumes ≡ record { name = best.volume; size = rep.vol } ∷ [])
unfolding hit_of
hit_of_inv rep best [] hit e = cc
hit_of_inv rep best (v ∷ vs) hit e =
    ground (arith, text_eq_iff v.id best.id, hit_of_inv rep best vs hit)

pub hit_of_total :
    (rep : ScheduleAppReplica) (best : HostPriority) (hosts : List ScheduleHostItem)
    → IsIn best.id (map (λ v. v.id) hosts)
    → (hit : ScheduleHitItem) × (hit_of rep best hosts ≡ ok hit)
unfolding hit_of
hit_of_total rep best [] m = elim m [ ]
hit_of_total rep best (v ∷ vs) (inl e) =
    (hit_at rep best v, rw ((text_eq_iff v.id best.id).1 (sym e)))
hit_of_total rep best (v ∷ vs) (inr m) = elim (Bool-cases (v.id == best.id)) [
  | inl p ↦ (hit_at rep best v, rw p)
  | inr p ↦ rw p (hit_of_total rep best vs m)
]

-- The head of a sorted list of priorities is one of the fits, and no fit scores less.
pub record IsBest (fits : List HostFit) (best : HostPriority) : Type 0 where
  pub f : HostFit
  pub listed : IsIn f fits
  pub is_f : best ≡ calculate_occupancy f
  pub least : (g : HostFit) → IsIn g fits → ltb_ℤ (calculate_occupancy g).score best.score ≡ false

head_least :
    (best : HostPriority) (rest : List HostPriority)
    → IsSorted less_score (best ∷ rest)
    → (p : HostPriority) → IsIn p (best ∷ rest)
    → ltb_ℤ p.score best.score ≡ false
head_least best rest h p (inl e) = rw e (ground arith)
head_least best rest h p (inr m) = All-at (λ y. less_score y best ≡ false) p rest h.0 m

pub prioritizer-IsBest :
    (sort : SliceSort) (fits : List HostFit) (best : HostPriority) (rest : List HostPriority)
    → prioritizer sort fits ≡ ok (best ∷ rest)
    → IsBest fits best
unfolding prioritizer
prioritizer-IsBest sort [] best rest e = cc
prioritizer-IsBest sort (x ∷ xs) best rest e =
    let ps = map calculate_occupancy (x ∷ xs) in
    let q : sort.slice HostPriority less_score ps ≡ best ∷ rest = cc in
    let p = sort.permutes HostPriority less_score ps in
    let (f, m, is_f) =
      IsIn-map_inv calculate_occupancy best (x ∷ xs) (IsIn-perm best p (rw q (inl refl))) in
    let ranked =
      subst (IsSorted less_score) q
        (sort.sorted HostPriority less_score ps less_score-IsWeakOrder) in
    record {
      f = f;
      listed = m;
      is_f = is_f;
      least = λ g n. head_least best rest ranked (calculate_occupancy g) (
          subst (IsIn (calculate_occupancy g)) q (
            IsIn-perm (calculate_occupancy g) (Permᴰ.symm p)
              (IsIn-map calculate_occupancy g (x ∷ xs) n)));
    }

uncons : {A : Type 0} (a : A) (xs : List A) → IsIn a xs → (y : A) × (ys : List A) × (xs ≡ y ∷ ys)
uncons a [] m = elim m [ ]
uncons a (x ∷ xs) m = (x, xs, refl)

-- Where there is a fit, the ranked list has a head.
pub prioritizer_total :
    (sort : SliceSort) (fits : List HostFit) (f : HostFit)
    → IsIn f fits
    → (best : HostPriority) × (rest : List HostPriority) × (prioritizer sort fits
        ≡ ok (best ∷ rest))
unfolding prioritizer
prioritizer_total sort [] f m = elim m [ ]
prioritizer_total sort (x ∷ xs) f m =
    let ps = map calculate_occupancy (x ∷ xs) in
    let p = sort.permutes HostPriority less_score ps in
    let (best, rest, e) = uncons (calculate_occupancy f) (sort.slice HostPriority less_score ps) (
      IsIn-perm (calculate_occupancy f) (Permᴰ.symm p)
        (IsIn-map calculate_occupancy f (x ∷ xs) m)) in
    (best, rest, ap ok e)
