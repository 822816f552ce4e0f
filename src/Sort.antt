-- ===== src/Sort.antt =====
-- `sort.Slice` of the Go library, as an interface: what the library documents of it, and no more.
-- It is not stable, so nothing is said of the order of equal elements.
pub mod Facts
pub mod Insertion
use mathlib.Core.List.{Permᴰ}
use innerstack.Prelude.{
  ◌≡◌, Bool, true, false, List, [], ◌∷◌, All, IsIn, ◌⊎◌, inl, inr, refl, sym, ◌∙◌, arith, ap,
}

-- `less` orders by a total preorder, as `sort.Slice` asks.
pub record IsWeakOrder {A : Type 0} (less : A → A → Bool) : Type 0 where
  pub asym : (a b : A) → less a b ≡ true → less b a ≡ false
  pub neg_trans : (a b c : A) → less a b ≡ false → less b c ≡ false → less a c ≡ false

-- No later element is less than an earlier one.
abbrev pub IsSorted : {A : Type 0} → (A → A → Bool) → List A → Type 0
IsSorted less [] = Unit
IsSorted less (x ∷ xs) = All (λ y. less y x ≡ false) xs × IsSorted less xs

pub record SliceSort : Type 1 where
  pub slice : (A : Type 0) → (A → A → Bool) → List A → List A
  pub sorted :
      (A : Type 0) (less : A → A → Bool) (xs : List A)
      → IsWeakOrder less
      → IsSorted less (slice A less xs)
  pub permutes : (A : Type 0) (less : A → A → Bool) (xs : List A) → Permᴰ (slice A less xs) xs
