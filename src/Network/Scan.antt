-- ===== src/Network/Scan.antt =====
-- A loop `for n := a; n < a + count; n++` that stops at the first number that passes a test.
use innerstack.Prelude.{
  ℕ, zero, suc, ◌+◌, ◌≤◌, ◌<◌, ◌≡◌, refl, Bool, true, false, not, List, [], ◌∷◌, Option, none, some,
  arith, length, contains, eqb, eqb_iff, if◌then◌else◌, Bool-cases, keep_if, number_key, ap, inl,
  inr, Option-cases,
}

unfoldable pub first_from : (ℕ → Bool) → ℕ → ℕ → Option ℕ
first_from p a zero = none
first_from p a (suc count) = let rest = first_from p (suc a) count in if p a then some a else rest

-- The number found is in range and passes, and none below it does.
pub first_from_sound :
    (p : ℕ → Bool) (a count r : ℕ)
    → first_from p a count ≡ some r
    → (a ≤ r) × (r < a + count) × (p r ≡ true)
unfolding first_from
first_from_sound p a zero r h = cc
first_from_sound p a (suc count) r h = elim (Bool-cases (p a)) [
  | inl e ↦ let same : a ≡ r = ground arith in (omega arith, omega arith, rw (← same) e)
  | inr e ↦
      let (low, high, passes) = first_from_sound p (suc a) count r (ground arith) in
      (omega arith, omega arith, passes)
]

pub first_from_least :
    (p : ℕ → Bool) (a count r q : ℕ) → first_from p a count ≡ some r → a ≤ q → q < r → p q ≡ false
unfolding first_from
first_from_least p a zero r q h low below = cc
first_from_least p a (suc count) r q h low below = elim (Bool-cases (eqb a q)) [
  | inl e ↦ let same : a ≡ q = (eqb_iff a q).0 e in ground (arith, ap p same)
  | inr e ↦
      let ne : suc a ≤ q = ground (arith, eqb_iff a q) in
      ground (arith, first_from_least p (suc a) count r q, ne)
]

pub first_from-none :
    (p : ℕ → Bool) (a count q : ℕ)
    → first_from p a count ≡ none
    → a ≤ q
    → q < a + count
    → p q ≡ false
unfolding first_from
first_from-none p a zero q h low high = absurd (omega arith)
first_from-none p a (suc count) q h low high = elim (Bool-cases (eqb a q)) [
  | inl e ↦ let same : a ≡ q = (eqb_iff a q).0 e in ground (arith, ap p same)
  | inr e ↦
      let ne : suc a ≤ q = ground (arith, eqb_iff a q) in
      ground (arith, first_from-none p (suc a) count q, ne)
]

-- Where some number of the range passes, the loop stops.
pub first_from_total :
    (p : ℕ → Bool) (a count q : ℕ)
    → a ≤ q
    → q < a + count
    → p q ≡ true
    → (r : ℕ) × (first_from p a count ≡ some r)
first_from_total p a count q low high passes = elim (Option-cases (first_from p a count)) [
  | inl e ↦ absurd (ground (arith, first_from-none p a count q e low high))
  | inr (r, e) ↦ (r, e)
]

-- A list that holds every number of a range is at least as long as the range.
without : ℕ → List ℕ → List ℕ
without p used = keep_if (λ x. not (eqb x p)) used

contains-without : (p q : ℕ) (used : List ℕ) → p < q → contains (without p used) q ≡ contains used q
unfolding without
contains-without p q [] h = refl
contains-without p q (x ∷ xs) h = ground (arith, contains-without p q xs h)

length-without-le : (p : ℕ) (used : List ℕ) → length (without p used) ≤ length used
unfolding without
length-without-le p [] = omega arith
length-without-le p (x ∷ xs) = ground (arith, length-without-le p xs)

length-without-lt :
    (p : ℕ) (used : List ℕ) → contains used p ≡ true → length (without p used) < length used
unfolding without
length-without-lt p [] h = cc
length-without-lt p (x ∷ xs) h =
    ground (arith, length-without-lt p xs, length-without-le p xs, eqb_iff x p)

pub pigeonhole :
    (count a : ℕ) (used : List ℕ)
    → ((q : ℕ) → a ≤ q → q < a + count → contains used q ≡ true)
    → count ≤ length used
pigeonhole zero a used h = omega arith
pigeonhole (suc count) a used h =
    let here = length-without-lt a used (h a (omega arith) (omega arith)) in
    let rest = pigeonhole count (suc a) (without a used) (λ q low high.
      rw (contains-without a q used (omega arith)) (h q (omega arith) (omega arith))) in
    omega arith
