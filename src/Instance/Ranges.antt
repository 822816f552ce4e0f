-- ===== src/Instance/Ranges.antt =====
-- The limits of a deployment lie in the ranges of its spec, and these in the ranges of the system.
use innerstack.Prelude.{
  ◌≡◌, refl, subst, Bool, true, false, not, ◌&&◌, ◌||◌, Option, none, some, Text, if◌then◌else◌,
  arith, by_if,
}
use innerstack.Prelude.Int.{ℤ, pos, ltb_ℤ, leb_ℤ, ◌≤ℤ◌}
use innerstack.Stages as stages
use innerstack.Instance.{AppDeploy, Error, out_of_range}
use innerstack.Instance.Resources.{
  Range, ParsedResources, cpu_bounds, memory_bounds, volume_bounds, Judged, accept, reject, ◌>>=◌,
  check, is_within, is_ordered, read_range, in_bounds, parse_spec_resources, resolve_in_range,
  require_in_range, update_limit, Asked, asked_of, has_override, update_limits, create_limits,
}

abbrev pub InRange : Range → ℤ → Type 0
InRange r v = (r.low ≤ℤ v) × (v ≤ℤ r.high)

-- A range whose ends are in order and within those of the system.
abbrev pub Sound : Range → Range → Type 0
Sound bounds r = (bounds.low ≤ℤ r.low) × (r.low ≤ℤ r.high) × (r.high ≤ℤ bounds.high)

abbrev pub AllSound : ParsedResources → Type 0
AllSound p = Sound cpu_bounds p.cpu × Sound memory_bounds p.mem × Sound volume_bounds p.vol

-- The ranges of a spec are in order.
abbrev pub AllOrdered : ParsedResources → Type 0
AllOrdered p = (p.cpu.low ≤ℤ p.cpu.high) × (p.mem.low ≤ℤ p.mem.high) × (p.vol.low ≤ℤ p.vol.high)

abbrev pub Limited : ParsedResources → Asked → Type 0
Limited p a = InRange p.cpu a.cpu × InRange p.mem a.mem × InRange p.vol a.vol

-- What holds of the value of a result, if it has one.
abbrev pub Gives {ℓ κ} : {A : Type ℓ} → (A → Type κ) → Judged A → Type κ
Gives P (accept a) = P a
Gives P (reject e) = Unit

pub bind-Gives {ℓ κ ι} :
    {A : Type ℓ} {B : Type κ} (P : B → Type ι) (r : Judged A) (f : A → Judged B)
    → ((a : A) → r ≡ accept a → Gives P (f a))
    → Gives P (r >>= f)
bind-Gives P (accept a) f g = g a refl
bind-Gives P (reject e) f g = tt

pub value-Gives {ℓ κ} :
    {A : Type ℓ} (P : A → Type κ) {r : Judged A} {a : A} → Gives P r → r ≡ accept a → P a
value-Gives P g same = subst (Gives P) same g

of_ok {ℓ κ} : {A : Type ℓ} (P : A → Type κ) {a b : A} → accept a ≡ accept b → P a → P b
of_ok P same h = value-Gives P h same

check-accept : (b : Bool) (e : Error) {u : Unit {0}} → check b e ≡ accept u → b ≡ true
check-accept true e h = refl
check-accept false e h = cc

require_in_range-InRange :
    (name : Text) (v : ℤ) (r : Range) {w : ℤ}
    → r.low ≤ℤ r.high
    → require_in_range name v r ≡ accept w
    → InRange r w
unfolding require_in_range
require_in_range-InRange name v r {w} ordered h =
    by_if (λ q. q ≡ accept w → InRange r w) (leb_ℤ v (pos 0) && leb_ℤ (pos 0) v) (accept r.low)
      (if ltb_ℤ v r.low || ltb_ℤ r.high v then reject (out_of_range name) else accept v)
      (λ zero same. of_ok (InRange r) same ground arith)
      (λ nonzero.
        by_if (λ q. q ≡ accept w → InRange r w) (ltb_ℤ v r.low || ltb_ℤ r.high v)
          (reject (out_of_range name)) (accept v) (λ out same. cc)
          (λ inside same. of_ok (InRange r) same ground arith))
      h

resolve_in_range-InRange : (v : ℤ) (r : Range) → r.low ≤ℤ r.high → InRange r (resolve_in_range v r)
unfolding resolve_in_range
resolve_in_range-InRange v r ordered = ground arith

update_limit-InRange :
    (name : Text) (asked current : ℤ) (r : Range) {w : ℤ}
    → r.low ≤ℤ r.high
    → update_limit name true asked current r ≡ accept w
    → InRange r w
unfolding update_limit
update_limit-InRange name asked current r {w} ordered h =
    by_if (λ q. q ≡ accept w → InRange r w) (ltb_ℤ (pos 0) asked) (require_in_range name asked r)
      (accept (resolve_in_range current r))
      (λ given same. require_in_range-InRange name asked r ordered same)
      (λ none_given same. of_ok (InRange r) same (resolve_in_range-InRange current r ordered)) h

pub create_limits-Limited :
    (deploy : Option AppDeploy) (p : ParsedResources)
    → AllOrdered p
    → Gives (Limited p) (create_limits deploy p)
unfolding create_limits
create_limits-Limited none p ordered = ground arith
create_limits-Limited (some d) p ordered =
    bind-Gives _ (require_in_range _ d.cpu_limit p.cpu) _ (λ cpu h_cpu.
      bind-Gives _ (require_in_range _ d.memory_limit p.mem) _ (λ mem h_mem.
        bind-Gives _ (require_in_range _ d.volume_limit p.vol) _ (λ vol h_vol. (
          require_in_range-InRange _ d.cpu_limit p.cpu ordered.0 h_cpu,
          require_in_range-InRange _ d.memory_limit p.mem ordered.1 h_mem,
          require_in_range-InRange _ d.volume_limit p.vol ordered.2 h_vol,
        ))))

pub update_limits-Limited :
    (asked : Asked) (p : ParsedResources) (d : AppDeploy)
    → AllOrdered p
    → Gives (λ e. Limited p (asked_of (some e))) (update_limits true asked p d)
unfolding update_limits
update_limits-Limited asked p d ordered =
    bind-Gives _ (update_limit _ true asked.cpu d.cpu_limit p.cpu) _ (λ cpu h_cpu.
      bind-Gives _ (update_limit _ true asked.mem d.memory_limit p.mem) _ (λ mem h_mem.
        bind-Gives _ (update_limit _ true asked.vol d.volume_limit p.vol) _ (λ vol h_vol. (
          update_limit-InRange _ asked.cpu d.cpu_limit p.cpu ordered.0 h_cpu,
          update_limit-InRange _ asked.mem d.memory_limit p.mem ordered.1 h_mem,
          update_limit-InRange _ asked.vol d.volume_limit p.vol ordered.2 h_vol,
        ))))

range-Sound :
    (bounds r : Range)
    → (is_within bounds r.low && is_within bounds r.high) ≡ true
    → is_ordered r ≡ true
    → Sound bounds r
range-Sound bounds r inside ordered = ground arith

update_limit_kept-InRange :
    (name : Text) (has_spec : Bool) (asked current : ℤ) (r : Range) {w : ℤ}
    → r.low ≤ℤ r.high
    → InRange r current
    → update_limit name has_spec asked current r ≡ accept w
    → InRange r w
unfolding update_limit
update_limit_kept-InRange name true asked current r ordered kept h =
    update_limit-InRange name asked current r ordered h
update_limit_kept-InRange name false asked current r {w} ordered kept h =
    by_if (λ q. q ≡ accept w → InRange r w) (ltb_ℤ (pos 0) asked) (require_in_range name asked r)
      (accept current) (λ given same. require_in_range-InRange name asked r ordered same)
      (λ none_given same. value-Gives (InRange r) kept same) h

pub update_limits_kept-Limited :
    (has_spec : Bool) (asked : Asked) (p : ParsedResources) (d : AppDeploy)
    → AllOrdered p
    → Limited p (asked_of (some d))
    → Gives (λ e. Limited p (asked_of (some e))) (update_limits has_spec asked p d)
unfolding update_limits
update_limits_kept-Limited has_spec asked p d ordered kept =
    by_if (Gives (λ (e : AppDeploy). Limited p (asked_of (some e))))
      (not (has_spec || has_override asked)) (accept d) _ (λ none_given. kept)
      (λ given. bind-Gives _ (update_limit _ has_spec asked.cpu d.cpu_limit p.cpu) _ (λ cpu h_cpu.
        bind-Gives _ (update_limit _ has_spec asked.mem d.memory_limit p.mem) _ (λ mem h_mem.
          bind-Gives _ (update_limit _ has_spec asked.vol d.volume_limit p.vol) _ (λ vol h_vol. (
            update_limit_kept-InRange _ has_spec asked.cpu d.cpu_limit p.cpu ordered.0 kept.0 h_cpu,
            update_limit_kept-InRange _ has_spec asked.mem d.memory_limit p.mem ordered.1 kept.1
                h_mem,
            update_limit_kept-InRange _ has_spec asked.vol d.volume_limit p.vol ordered.2 kept.2
                h_vol,
          )))))

-- Resources that are parsed give ranges of CPU, memory and volume whose ends are in order and lie within
-- the bounds of the system, whatever the readers of the texts return.
pub parse_spec_resources-AllSound :
    (parse_cpus parse_bytes : Text → Option ℤ) (res : stages.Resources)
    → Gives AllSound (parse_spec_resources parse_cpus parse_bytes res)
unfolding parse_spec_resources in_bounds
parse_spec_resources-AllSound parse_cpus parse_bytes res =
    bind-Gives _ (read_range _ _ parse_cpus res.cpu) _ (λ cpu h_cpu.
      bind-Gives _ (read_range _ _ parse_bytes res.memory) _ (λ mem h_mem.
        bind-Gives _ (read_range _ _ parse_bytes res.volume) _ (λ vol h_vol.
          bind-Gives _ (in_bounds _ cpu_bounds cpu) _ (λ u1 b_cpu.
            bind-Gives _ (in_bounds _ memory_bounds mem) _ (λ u2 b_mem.
              bind-Gives _ (in_bounds _ volume_bounds vol) _ (λ u3 b_vol.
                bind-Gives _ (check (is_ordered cpu) _) _ (λ u4 o_cpu.
                  bind-Gives _ (check (is_ordered mem) _) _ (λ u5 o_mem.
                    bind-Gives _ (check (is_ordered vol) _) _ (λ u6 o_vol. (
                      range-Sound cpu_bounds cpu (check-accept _ _ b_cpu) (check-accept _ _ o_cpu),
                      range-Sound memory_bounds mem (check-accept _ _ b_mem)
                          (check-accept _ _ o_mem),
                      range-Sound volume_bounds vol (check-accept _ _ b_vol)
                          (check-accept _ _ o_vol),
                    ))))))))))
