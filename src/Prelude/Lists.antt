-- ===== src/Prelude/Lists.antt =====
-- Lists measured by native numbers, with the predicates and searches that the components share.
use Prim.Native.Nat.{ℕ, suc, ◌+◌}
use mathlib.Core.Path.{◌≡◌, refl, sym, subst, ap}
use mathlib.Core.Logic.{◌⊎◌, inl, inr}
use mathlib.Core.Bool.{Bool, true, false, ◌||◌}
use mathlib.Core.List.{List, [], ◌∷◌, ◌++◌, map}
use mathlib.Core.Option.{Option, none, some}
use native.Mathlib.Omega.{arith}
use innerstack.Prelude.Tests.{if◌then◌else◌, Bool-cases}

module _ {ℓ} {A : Type ℓ} where
  abbrev pub length : List A → ℕ
  length [] = 0
  length (x ∷ xs) = suc (length xs)

  -- The elements that pass a test, in their order.
  abbrev pub keep_if : (A → Bool) → List A → List A
  keep_if p [] = []
  keep_if p (x ∷ xs) = let rest = keep_if p xs in if p x then x ∷ rest else rest

  abbrev pub any : (A → Bool) → List A → Bool
  any p [] = false
  any p (x ∷ xs) = p x || any p xs

  -- The first element that passes a test.
  abbrev pub find? : (A → Bool) → List A → Option A
  find? p [] = none
  find? p (x ∷ xs) = if p x then some x else find? p xs

  pub length-append : (xs ys : List A) → length (xs ++ ys) ≡ length xs + length ys
  length-append [] ys = omega arith
  length-append (x ∷ xs) ys = omega (arith, length-append xs ys)

module _ {ℓ κ} {A : Type ℓ} where
  -- A predicate at every element, and at one of them, with the witness kept.
  abbrev pub All : (A → Type κ) → List A → Type κ
  All P [] = Unit
  All P (x ∷ xs) = P x × All P xs

module _ {A : Type 0} where
  abbrev pub IsIn : A → List A → Type 0
  IsIn a [] = ⊥
  IsIn a (x ∷ xs) = (a ≡ x) ⊎ IsIn a xs

module _ {κ} {A : Type 0} (P : A → Type κ) where
  pub All-at : (a : A) (xs : List A) → All P xs → IsIn a xs → P a
  All-at a [] h m = elim m [ ]
  All-at a (x ∷ xs) h (inl e) = subst P (sym e) h.0
  All-at a (x ∷ xs) h (inr m) = All-at a xs h.1 m

  pub All-intro : (xs : List A) → ((a : A) → IsIn a xs → P a) → All P xs
  All-intro [] f = tt
  All-intro (x ∷ xs) f = (f x (inl refl), All-intro xs (λ a m. f a (inr m)))

module _ {A : Type 0} (p : A → Bool) where
  -- The search finds an element that passes, and fails only if none does.
  pub find?_sound : (xs : List A) (a : A) → find? p xs ≡ some a → IsIn a xs × (p a ≡ true)
  find?_sound [] a h = cc
  find?_sound (x ∷ xs) a h = elim (Bool-cases (p x)) [
    | inl e ↦ let same : x ≡ a = ground arith in (inl (sym same), rw (← same) e)
    | inr e ↦ let (m, t) = find?_sound xs a (ground arith) in (inr m, t)
  ]

  pub find?-none : (xs : List A) → find? p xs ≡ none → All (λ a. p a ≡ false) xs
  find?-none [] h = tt
  find?-none (x ∷ xs) h = (ground arith, find?-none xs (ground arith))

module _ {A B : Type 0} (f : A → B) where
  -- A member of a mapped list is the image of a member, and the other way round.
  pub IsIn-map_inv : (b : B) (xs : List A) → IsIn b (map f xs) → (a : A) × IsIn a xs × (b ≡ f a)
  IsIn-map_inv b [] m = elim m [ ]
  IsIn-map_inv b (x ∷ xs) (inl e) = (x, inl refl, e)
  IsIn-map_inv b (x ∷ xs) (inr m) = let (a, n, e) = IsIn-map_inv b xs m in (a, inr n, e)

  pub IsIn-map : (a : A) (xs : List A) → IsIn a xs → IsIn (f a) (map f xs)
  IsIn-map a [] m = elim m [ ]
  IsIn-map a (x ∷ xs) (inl e) = inl (ap f e)
  IsIn-map a (x ∷ xs) (inr m) = inr (IsIn-map a xs m)
