-- ===== src/Instance/Release.antt =====
-- The release number of an app spec's version.
use innerstack.Prelude.{
  ℕ, suc, ◌+◌, ◌^◌, ◌/◌, ◌%◌, ◌<◌, ◌≡◌, refl, ap, ◌∙◌, Bool, true, false, [], ◌∷◌, ◌++◌, none, some,
  Text, text_key, number_key, ◌==◌, ltb, All, Bool-cases, inl, inr, arith, text_eq_iff,
}
use innerstack.Prelude.Int.{ℤ, pos}
use innerstack.Instance.Names.{semver_valid}
use innerstack.Decimal.{decimal, decimal_fuel, is_digit, All-decimal, value_from-decimal}
use innerstack.Instance.Version.{
  split_last, all_digits, digits_of, atoi, split_version, split_at, numbered, compare_main, release,
  next_version, resolve_version,
}

split_last-digits : (s : Text) → All (λ c. is_digit c ≡ true) s → split_last s ≡ none
unfolding split_last
split_last-digits [] h = refl
split_last-digits (c ∷ s) h =
    let later : split_last s ≡ none = split_last-digits s h.1 in
    let other : c == 45 ≡ false = ground (arith, h.0) in rw (later, other) refl

split_last-append :
    (main s : Text) → split_last s ≡ none → split_last (main ++ 45 ∷ s) ≡ some (main, s)
unfolding split_last
split_last-append [] s h = rw h refl
split_last-append (c ∷ main) s h = rw (split_last-append main s h) refl

all_digits-decimal : (s : Text) → All (λ c. is_digit c ≡ true) s → all_digits s ≡ true
unfolding all_digits
all_digits-decimal [] h = refl
all_digits-decimal (c ∷ s) h = rw (h.0, all_digits-decimal s h.1) refl

digits_of_lem : (s : Text) → All (λ c. is_digit c ≡ true) s → digits_of s ≡ s
digits_of_lem [] h = refl
digits_of_lem (c ∷ s) h = let other : c == 43 ≡ false = ground (arith, h.0) in rw other refl

append_ne : (s : Text) (c : ℕ) → (s ++ c ∷ []) == [] ≡ false
append_ne [] c = ground (arith, text_eq_iff (c ∷ []) [])
append_ne (x ∷ s) c = ground (arith, text_eq_iff (x ∷ (s ++ c ∷ [])) [])

decimal_ne : (n : ℕ) → decimal n == [] ≡ false
unfolding decimal decimal_fuel
decimal_ne n = elim (Bool-cases (ltb n 10)) [
  | inl small ↦ rw small (append_ne [] (48 + n))
  | inr large ↦ rw large (append_ne (decimal_fuel n (n / 10)) (48 + n % 10))
]

atoi-decimal : (n : ℕ) → n < 2 ^ 63 → atoi (decimal n) ≡ some n
unfolding atoi
atoi-decimal n small =
    let digits = All-decimal n in
    let fits : ltb n (2 ^ 63) ≡ true = ground arith in
    rw
      (
        digits_of_lem (decimal n) digits,
        decimal_ne n,
        all_digits-decimal (decimal n) digits,
        value_from-decimal n,
        fits,
      )
      refl

split_version_by :
    (v main digits : Text) (n : ℕ)
    → split_last v ≡ some (main, digits)
    → atoi digits ≡ some n
    → split_version v ≡ (main, n)
unfolding split_version
split_version_by v main digits n h k = ap (split_at v) h ∙ ap (numbered v main) k

-- Splitting the version of a release gives its main version and its number back, for every number that
-- an int of 64 bits holds and every main version, with '-' in it or not.
pub split_version-release :
    (main : Text) (n : ℕ) → n < 2 ^ 63 → split_version (release main n) ≡ (main, n)
unfolding release
split_version-release main n small =
    split_version_by (release main n) main (decimal n) n
      (split_last-append main (decimal n) (split_last-digits (decimal n) (All-decimal n)))
      (atoi-decimal n small)

next_version_same :
    (order : ℤ) (v p : Text)
    → p == [] ≡ false
    → order ≡ pos 0
    → next_version order v p ≡ some (release (split_version p).0 ((split_version p).1 + 1))
unfolding next_version
next_version_same order v p there same = rw (there, same) refl

-- A request for a version that is given and is a valid semantic version, and whose main version compares
-- equal to that of the persisted spec, gets the persisted main version with the next release number: the
-- version that is written splits into that main version and one more than the persisted number. The
-- persisted version is not empty, and its number is below the largest int.
pub resolve_version-Next :
    (is_valid : Text → Bool) (semver_compare : Text → Text → ℤ) (asked prev : Text)
    → semver_valid is_valid asked ≡ true
    → asked == [] ≡ false
    → prev == [] ≡ false
    → compare_main semver_compare (split_version asked).0 (split_version prev).0 ≡ pos 0
    → suc (split_version prev).1 < 2 ^ 63
    → (v : Text) × (resolve_version is_valid semver_compare asked (some prev) ≡ some v)
      × (split_version v ≡ ((split_version prev).0, suc (split_version prev).1))
unfolding resolve_version
resolve_version-Next is_valid semver_compare asked prev valid given there same small =
    let number = (split_version prev).1 in
    (
      release (split_version prev).0 (number + 1),
      (rw (given, valid) (next_version_same _ asked prev there same)),
      split_version-release (split_version prev).0 (number + 1) (omega arith)
          ∙ ap (λ n. ((split_version prev).0, n)) (omega arith),
    )
