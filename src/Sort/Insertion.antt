-- ===== src/Sort/Insertion.antt =====
-- An insertion sort, which meets the interface: it shows that the interface can be met, and it is
-- what the tests run.
use mathlib.Core.List.{Permᴰ}
use mathlib.Core.List.Permᴰ
use innerstack.Prelude.{
  ◌≡◌, refl, Bool, false, List, [], ◌∷◌, inl, inr, if◌then◌else◌, Bool-cases, All-at, All-intro,
}
use innerstack.Sort.{IsWeakOrder, IsSorted, SliceSort}
use innerstack.Sort.Facts.{All-perm}

module _ {A : Type 0} (less : A → A → Bool) where
  -- `x` goes before the first element that is not less than it.
  unfoldable pub insert_sorted : A → List A → List A
  insert_sorted x [] = x ∷ []
  insert_sorted x (y ∷ ys) = if less y x then y ∷ insert_sorted x ys else x ∷ y ∷ ys

  unfoldable pub insertion_sort : List A → List A
  insertion_sort [] = []
  insertion_sort (x ∷ xs) = insert_sorted x (insertion_sort xs)

  insert_sorted-perm : (x : A) (xs : List A) → Permᴰ (insert_sorted x xs) (x ∷ xs)
  unfolding insert_sorted
  insert_sorted-perm x [] = Permᴰ.refl (x ∷ [])
  insert_sorted-perm x (y ∷ ys) = elim (Bool-cases (less y x)) [
    | inl p ↦ rw p (Permᴰ.trans (Permᴰ.cons refl (insert_sorted-perm x ys)) (Permᴰ.swap refl refl))
    | inr p ↦ rw p (Permᴰ.refl (x ∷ y ∷ ys))
  ]

  pub insertion_sort-perm : (xs : List A) → Permᴰ (insertion_sort xs) xs
  unfolding insertion_sort
  insertion_sort-perm [] = Permᴰ.nil
  insertion_sort-perm (x ∷ xs) =
      Permᴰ.trans (insert_sorted-perm x (insertion_sort xs))
        (Permᴰ.cons refl (insertion_sort-perm xs))

  module _ (w : IsWeakOrder less) where
    insert_sorted-IsSorted :
        (x : A) (xs : List A) → IsSorted less xs → IsSorted less (insert_sorted x xs)
    unfolding insert_sorted
    insert_sorted-IsSorted x [] h = (tt, tt)
    insert_sorted-IsSorted x (y ∷ ys) h = elim (Bool-cases (less y x)) [
      | inl p ↦ rw p (
        All-perm (λ z. less z y ≡ false) (insert_sorted-perm x ys) (w.asym y x p, h.0),
        insert_sorted-IsSorted x ys h.1,
      )
      | inr p ↦ rw p (
        (
          p,
          All-intro (λ z. less z x ≡ false) ys
              (λ z m. w.neg_trans z y x (All-at (λ z. less z y ≡ false) z ys h.0 m) p),
        ),
        h,
      )
    ]

    pub insertion_sort-IsSorted : (xs : List A) → IsSorted less (insertion_sort xs)
    unfolding insertion_sort
    insertion_sort-IsSorted [] = tt
    insertion_sort-IsSorted (x ∷ xs) =
        insert_sorted-IsSorted x (insertion_sort xs) (insertion_sort-IsSorted xs)

abbrev pub insertion : SliceSort
insertion = record {
  slice = λ A less xs. insertion_sort less xs;
  sorted = λ A less xs w. insertion_sort-IsSorted less w xs;
  permutes = λ A less xs. insertion_sort-perm less xs;
}
