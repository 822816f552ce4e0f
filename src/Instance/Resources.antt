-- ===== src/Instance/Resources.antt =====
-- The resources of a deployment: the ranges that a spec gives, and the values within them.
-- `ParseCPUs` and `ParseBytes` of internal/inutil, which calculate with floating-point numbers, are
-- arguments.
use innerstack.Prelude.{
  Bool, true, false, not, ◌&&◌, ◌||◌, Option, none, some, Text, bytes, if◌then◌else◌, text_key,
}
use innerstack.Prelude.Int.{ℤ, pos, ltb_ℤ, leb_ℤ}
use innerstack.Instance.{AppDeploy, Error, bad_resource, out_of_range}
use innerstack.Stages as stages

-- The smallest and the largest value; `parsedResources` holds three.
pub record Range : Type 0 where
  pub low : ℤ
  pub high : ℤ

pub record ParsedResources : Type 0 where
  pub cpu : Range
  pub mem : Range
  pub vol : Range

-- The zero value.
abbrev pub no_range : Range
no_range = record { low = pos 0; high = pos 0 }

abbrev pub no_resources : ParsedResources
no_resources = record { cpu = no_range; mem = no_range; vol = no_range }

abbrev pub cpu_bounds : Range
cpu_bounds = record { low = pos 10; high = pos 128_000 }

abbrev pub memory_bounds : Range
memory_bounds = record { low = pos 16_777_216; high = pos 549_755_813_888 }

abbrev pub volume_bounds : Range
volume_bounds = record { low = pos 104_857_600; high = pos 10_995_116_277_760 }

pub data Judged {ℓ} (A : Type ℓ) : Type ℓ where
  reject : Error → Judged A
  accept : A → Judged A

infixl 5 ◌>>=◌ ◌>>◌
abbrev pub ◌>>=◌ {ℓ κ} : {A : Type ℓ} {B : Type κ} → Judged A → (A → Judged B) → Judged B
reject e >>= f = reject e
accept a >>= f = f a

abbrev pub ◌>>◌ {ℓ} : {B : Type ℓ} → Judged (Unit {0}) → Judged B → Judged B
m >> k = m >>= λ _. k

abbrev pub check : Bool → Error → Judged (Unit {0})
check true e = accept tt
check false e = reject e

abbrev pub parsed_or : Text → Option ℤ → Judged ℤ
parsed_or name none = reject (bad_resource name)
parsed_or name (some v) = accept v

abbrev pub is_within : Range → ℤ → Bool
is_within r v = not (ltb_ℤ v r.low) && not (ltb_ℤ r.high v)

-- One resource, read with a reader; `bounds` are those of the system.
unfoldable pub read_range : Text → Text → (Text → Option ℤ) → stages.Limits → Judged Range
read_range low_name high_name reader limits = do
  low ← parsed_or low_name (reader limits.low)
  high ← parsed_or high_name (reader limits.high)
  accept (record { low = low; high = high })

unfoldable pub in_bounds : Text → Range → Range → Judged (Unit {0})
in_bounds name bounds r =
    check (is_within bounds r.low && is_within bounds r.high) (bad_resource name)

abbrev pub is_ordered : Range → Bool
is_ordered r = not (ltb_ℤ r.high r.low)

unfoldable pub parse_spec_resources :
    (Text → Option ℤ) → (Text → Option ℤ) → stages.Resources → Judged ParsedResources
unfolding read_range in_bounds
parse_spec_resources parse_cpus parse_bytes res = do
  cpu ← read_range (bytes "cpu_min") (bytes "cpu_max") parse_cpus res.cpu
  mem ← read_range (bytes "memory_min") (bytes "memory_max") parse_bytes res.memory
  vol ← read_range (bytes "volume_min") (bytes "volume_max") parse_bytes res.volume
  in_bounds (bytes "cpu_min/cpu_max") cpu_bounds cpu
  in_bounds (bytes "memory_min/memory_max") memory_bounds mem
  in_bounds (bytes "volume_min/volume_max") volume_bounds vol
  check (is_ordered cpu) (bad_resource (bytes "cpu_min"))
  check (is_ordered mem) (bad_resource (bytes "memory_min"))
  check (is_ordered vol) (bad_resource (bytes "volume_min"))
  accept (record { cpu = cpu; mem = mem; vol = vol })

unfoldable pub resolve_in_range : ℤ → Range → ℤ
resolve_in_range v r =
    if leb_ℤ v (pos 0)
    then r.low
    else if ltb_ℤ v r.low
    then r.low
    else if ltb_ℤ r.high v
    then r.high
    else v

unfoldable pub require_in_range : Text → ℤ → Range → Judged ℤ
require_in_range name v r =
    if leb_ℤ v (pos 0) && leb_ℤ (pos 0) v
    then accept r.low
    else if ltb_ℤ v r.low || ltb_ℤ r.high v
    then reject (out_of_range name)
    else accept v

-- A resource of an update: an explicit value must lie in the range, and otherwise a new spec moves the
-- value that is there into its range.
unfoldable pub update_limit : Text → Bool → ℤ → ℤ → Range → Judged ℤ
unfolding require_in_range resolve_in_range
update_limit name has_spec asked current r =
    if ltb_ℤ (pos 0) asked
    then require_in_range name asked r
    else if has_spec
    then accept (resolve_in_range current r)
    else accept current

-- The three limits that a request asks for; zero stands for none.
pub record Asked : Type 0 where
  pub cpu : ℤ
  pub mem : ℤ
  pub vol : ℤ

abbrev pub asked_of : Option AppDeploy → Asked
asked_of none = record { cpu = pos 0; mem = pos 0; vol = pos 0 }
asked_of (some d) = record { cpu = d.cpu_limit; mem = d.memory_limit; vol = d.volume_limit }

abbrev pub has_override : Asked → Bool
has_override a = ltb_ℤ (pos 0) a.cpu || ltb_ℤ (pos 0) a.mem || ltb_ℤ (pos 0) a.vol

unfoldable pub update_limits : Bool → Asked → ParsedResources → AppDeploy → Judged AppDeploy
unfolding update_limit
update_limits has_spec asked p d = if not (has_spec || has_override asked) then accept d else do
  cpu ← update_limit (bytes "deploy.cpu_limit") has_spec asked.cpu d.cpu_limit p.cpu
  mem ← update_limit (bytes "deploy.memory_limit") has_spec asked.mem d.memory_limit p.mem
  vol ← update_limit (bytes "deploy.volume_limit") has_spec asked.vol d.volume_limit p.vol
  accept (record d { cpu_limit = cpu; memory_limit = mem; volume_limit = vol })

-- The limits of a new instance: the least values, unless the request gives a deployment.
unfoldable pub create_limits : Option AppDeploy → ParsedResources → Judged Asked
unfolding require_in_range
create_limits none p = accept (record { cpu = p.cpu.low; mem = p.mem.low; vol = p.vol.low })
create_limits (some d) p = do
  cpu ← require_in_range (bytes "deploy.cpu_limit") d.cpu_limit p.cpu
  mem ← require_in_range (bytes "deploy.memory_limit") d.memory_limit p.mem
  vol ← require_in_range (bytes "deploy.volume_limit") d.volume_limit p.vol
  accept (record { cpu = cpu; mem = mem; vol = vol })
