-- ===== src/Sort/Facts.antt =====
-- What a permutation and a sorted list carry over.
use mathlib.Core.List.{Permᴰ}
use innerstack.Prelude.{List, All, IsIn, inl, inr, sym, ◌∙◌, subst}

module _ {A : Type 0} where
  pub All-perm : (P : A → Type 0) {xs ys : List A} → Permᴰ xs ys → All P ys → All P xs
  All-perm P Permᴰ.nil h = h
  All-perm P (Permᴰ.cons e d) h = (subst P (sym e) h.0, All-perm P d h.1)
  All-perm P (Permᴰ.swap e f) h = (subst P (sym e) h.1.0, (subst P (sym f) h.0, h.1.1))
  All-perm P (Permᴰ.trans d f) h = All-perm P d (All-perm P f h)

  pub IsIn-perm : (a : A) {xs ys : List A} → Permᴰ xs ys → IsIn a xs → IsIn a ys
  IsIn-perm a Permᴰ.nil m = m
  IsIn-perm a (Permᴰ.cons e d) (inl p) = inl (p ∙ e)
  IsIn-perm a (Permᴰ.cons e d) (inr m) = inr (IsIn-perm a d m)
  IsIn-perm a (Permᴰ.swap e f) (inl p) = inr (inl (p ∙ e))
  IsIn-perm a (Permᴰ.swap e f) (inr (inl p)) = inl (p ∙ f)
  IsIn-perm a (Permᴰ.swap e f) (inr (inr m)) = inr (inr m)
  IsIn-perm a (Permᴰ.trans d f) m = IsIn-perm a f (IsIn-perm a d m)
