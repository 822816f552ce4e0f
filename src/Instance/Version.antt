-- ===== src/Instance/Version.antt =====
-- internal/zonelet/service_appspec.go: the version of an app spec, a main version and a release number.
-- `is_valid` and `semver_compare` are IsValid and Compare of golang.org/x/mod/semver.
use innerstack.Prelude.{
  ℕ, ◌+◌, ◌^◌, Bool, true, not, ◌&&◌, ◌||◌, [], ◌∷◌, ◌++◌, Option, none, some, Text, bytes,
  if◌then◌else◌, text_key, number_key, ◌==◌, ltb,
}
use innerstack.Prelude.Int.{ℤ, pos, ltb_ℤ, leb_ℤ}
use innerstack.Instance.Names.{semver_valid}
use innerstack.Decimal.{decimal, is_digit, value_from}

-- The text before the last '-' and the text after it.
unfoldable pub split_last : Text → Option (Text × Text)
split_last [] = none
split_last (c ∷ rest) = elim (split_last rest) [
  | some p ↦ some (c ∷ p.0, p.1)
  | none ↦ if c == 45 then some ([], rest) else none
]

unfoldable pub all_digits : Text → Bool
all_digits [] = true
all_digits (c ∷ rest) = is_digit c && all_digits rest

abbrev pub digits_of : Text → Text
digits_of [] = []
digits_of (c ∷ rest) = if c == 43 then rest else c ∷ rest

-- strconv.Atoi of a text without '-'.
unfoldable pub atoi : Text → Option ℕ
unfolding all_digits
atoi s =
    let digits = digits_of s in
    if digits == [] || not (all_digits digits)
    then none
    else if ltb (value_from 0 digits) (2 ^ 63)
    then some (value_from 0 digits)
    else none

abbrev pub numbered : Text → Text → Option ℕ → Text × ℕ
numbered v main none = (v, 0)
numbered v main (some n) = (main, n)

abbrev pub split_at : Text → Option (Text × Text) → Text × ℕ
split_at v none = (v, 0)
split_at v (some p) = numbered v p.0 (atoi p.1)

-- `appSpecSplitVersion`
unfoldable pub split_version : Text → Text × ℕ
unfolding split_last atoi
split_version v = split_at v (split_last v)

-- A version without the letter 'v' in front gets one, as `appSpecCompareMain` does it.
unfoldable pub with_v : Text → Text
with_v [] = bytes "v"
with_v (c ∷ rest) = if c == 118 then c ∷ rest else 118 ∷ c ∷ rest

unfoldable pub compare_main : (Text → Text → ℤ) → Text → Text → ℤ
unfolding with_v
compare_main semver_compare a b = semver_compare (with_v a) (with_v b)

abbrev pub is_zero : ℤ → Bool
is_zero z = leb_ℤ z (pos 0) && leb_ℤ (pos 0) z

-- The next release of a main version.
unfoldable pub release : Text → ℕ → Text
release main n = main ++ 45 ∷ decimal n

-- What is made of a version and the one that is persisted, in the order of their main versions.
unfoldable pub next_version : ℤ → Text → Text → Option Text
unfolding split_version release
next_version order v p =
    if p == []
    then some v
    else if is_zero order
    then some (release (split_version p).0 ((split_version p).1 + 1))
    else if ltb_ℤ (pos 0) order
    then some v
    else none

abbrev after_persisted : (Text → Text → ℤ) → Text → Option Text → Option Text
after_persisted semver_compare v none = some v
after_persisted semver_compare v (some p) =
    next_version (compare_main semver_compare (split_version v).0 (split_version p).0) v p

-- `appSpecResolveVersion`; the version of the spec that is persisted, if any. The number of a release
-- is an int, and would take 2^63 deployments to wrap.
unfoldable pub resolve_version :
    (Text → Bool) → (Text → Text → ℤ) → Text → Option Text → Option Text
unfolding split_version compare_main next_version
resolve_version is_valid semver_compare asked prev =
    if asked == []
    then after_persisted semver_compare (bytes "0.0.1") prev
    else if not (semver_valid is_valid asked)
    then none
    else after_persisted semver_compare asked prev
