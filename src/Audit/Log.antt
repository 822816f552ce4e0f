-- ===== src/Audit/Log.antt =====
-- The log that the writer makes: `Verify` accepts it, and its head fixes all of it.
use innerstack.Prelude.{
  ◌≡◌, ◌⊎◌, refl, sym, ◌∙◌, ap, subst, ◌≢◌, true, List, [], ◌∷◌, ◌++◌, Option, none, some, Text,
  arith, IsIn, inl, inr, text_eq, text_eq_iff, text_key,
}
use innerstack.Prelude.Int.{ℤ, pos}
use innerstack.Audit.{AuditRecord, cleared}
use innerstack.Audit.Verify.{is_linked, tail_explained}
use innerstack.Audit.Chain.{head_of, IsSealed, IsChain, Linked, last_of}

abbrev pub oldest_first : List AuditRecord → List AuditRecord
oldest_first [] = []
oldest_first (rec ∷ rest) = oldest_first rest ++ rec ∷ []

abbrev pub newest : List AuditRecord → Option AuditRecord
newest [] = none
newest (rec ∷ rest) = some rec

last_of_snoc :
    (xs : List AuditRecord) (prev : Option AuditRecord) (rec : AuditRecord)
    → last_of prev (xs ++ rec ∷ []) ≡ some rec
last_of_snoc [] prev rec = refl
last_of_snoc (x ∷ xs) prev rec = last_of_snoc xs (some x) rec

pub last_of_log : (log : List AuditRecord) → last_of none (oldest_first log) ≡ newest log
last_of_log [] = refl
last_of_log (rec ∷ rest) = last_of_snoc (oldest_first rest) none rec

module _ (digest : AuditRecord → Option Text) where
  module _ (anchors : List Text) (retention now : ℤ) where
    Linked-snoc :
        (xs : List AuditRecord) (prev : Option AuditRecord) (rec : AuditRecord)
        → Linked digest anchors retention now prev xs
        → IsSealed digest rec
        → is_linked anchors retention now rec (last_of prev xs) ≡ true
        → Linked digest anchors retention now prev (xs ++ rec ∷ [])
    Linked-snoc [] prev rec l s h = (s, h, tt)
    Linked-snoc (x ∷ xs) prev rec (a, b, c) s h = (a, b, Linked-snoc xs (some x) rec c s h)

    pub Linked-snoc_inv :
        (xs : List AuditRecord) (prev : Option AuditRecord) (rec : AuditRecord)
        → Linked digest anchors retention now prev (xs ++ rec ∷ [])
        → Linked digest anchors retention now prev xs
          × IsSealed digest rec
          × (is_linked anchors retention now rec (last_of prev xs) ≡ true)
    Linked-snoc_inv [] prev rec (s, h, t) = (tt, s, h)
    Linked-snoc_inv (x ∷ xs) prev rec (a, b, c) =
        let (l, s, h) = Linked-snoc_inv xs (some x) rec c in ((a, b, l), s, h)

    is_linked-newest :
        (rec : AuditRecord) (rest : List AuditRecord)
        → rec.prev_hash ≡ head_of rest
        → is_linked anchors retention now rec (newest rest) ≡ true
    unfolding is_linked tail_explained text_eq
    is_linked-newest rec [] e = rw e refl
    is_linked-newest rec (r ∷ rest) e = (text_eq_iff rec.prev_hash r.hash).1 e

    pub Linked-IsChain :
        (log : List AuditRecord)
        → IsChain digest log
        → Linked digest anchors retention now none (oldest_first log)
    Linked-IsChain [] c = tt
    Linked-IsChain (rec ∷ rest) (s, e, c) =
        Linked-snoc (oldest_first rest) none rec (Linked-IsChain rest c) s
          (rw (last_of_log rest) (is_linked-newest rec rest e))

  -- Where nothing expires and no anchor is known, only a record without a hash before it comes first.
  is_linked_inv :
      (now : ℤ) (rec : AuditRecord) (rest : List AuditRecord)
      → is_linked [] (pos 0) now rec (newest rest) ≡ true
      → rec.prev_hash ≡ head_of rest
  unfolding is_linked tail_explained
  is_linked_inv now rec [] h = (text_eq_iff rec.prev_hash []).0 (ground (arith, h))
  is_linked_inv now rec (r ∷ rest) h = (text_eq_iff rec.prev_hash r.hash).0 h

  pub IsChain-Linked :
      (now : ℤ) (log : List AuditRecord)
      → Linked digest [] (pos 0) now none (oldest_first log)
      → IsChain digest log
  IsChain-Linked now [] l = tt
  IsChain-Linked now (rec ∷ rest) l =
      let (back, s, h) = Linked-snoc_inv [] (pos 0) now (oldest_first rest) none rec l in
      let h' = subst (λ p. is_linked [] (pos 0) now rec p ≡ true) (last_of_log rest) h in
      (s, is_linked_inv now rec rest h', IsChain-Linked now rest back)

  -- No record of one list is taken for a different one of the other.
  abbrev pub NoCollision : List AuditRecord → List AuditRecord → Type 0
  NoCollision xs ys =
      (a b : AuditRecord)
      → IsIn a xs
      → IsIn b ys
      → digest (cleared a) ≡ digest (cleared b)
      → cleared a ≡ cleared b

  -- A record that names the hash of the one before it, where there is one.
  abbrev pub Follows : AuditRecord → List AuditRecord → Type 0
  Follows rec [] = Unit
  Follows rec (r ∷ rest) = rec.prev_hash ≡ r.hash

  -- A log that may have lost its oldest records, the latest first: the first that is left names any hash.
  abbrev pub IsTrail : List AuditRecord → Type 0
  IsTrail [] = Unit
  IsTrail (rec ∷ rest) = IsSealed digest rec × Follows rec rest × IsTrail rest

  Follows-is_linked :
      (anchors : List Text) (retention now : ℤ) (rec : AuditRecord) (rest : List AuditRecord)
      → is_linked anchors retention now rec (newest rest) ≡ true
      → Follows rec rest
  unfolding is_linked
  Follows-is_linked anchors retention now rec [] h = tt
  Follows-is_linked anchors retention now rec (r ∷ rest) h = (text_eq_iff rec.prev_hash r.hash).0 h

  pub IsTrail-Linked :
      (anchors : List Text) (retention now : ℤ) (log : List AuditRecord)
      → Linked digest anchors retention now none (oldest_first log)
      → IsTrail log
  IsTrail-Linked anchors retention now [] l = tt
  IsTrail-Linked anchors retention now (rec ∷ rest) l =
      let (back, s, h) = Linked-snoc_inv anchors retention now (oldest_first rest) none rec l in
      let h' = subst (λ p. is_linked anchors retention now rec p ≡ true) (last_of_log rest) h in
      (
        s,
        Follows-is_linked anchors retention now rec rest h',
        IsTrail-Linked anchors retention now rest back,
      )

  -- Two sealed records with the same hash are the same, when their digests are not shared.
  same_sealed :
      (x y : AuditRecord)
      → (digest (cleared x) ≡ digest (cleared y) → cleared x ≡ cleared y)
      → IsSealed digest x
      → IsSealed digest y
      → x.hash ≡ y.hash
      → x ≡ y
  same_sealed x y nc sx sy e =
      let same = nc (sx ∙ ap some e ∙ sym sy) in
      ap (λ (r : AuditRecord). record r { hash = x.hash }) same
      ∙ ap (λ (h : Text). record y { hash = h }) e

  -- Two logs of which one holds the other, but for older records.
  abbrev pub Agree : List AuditRecord → List AuditRecord → Type 0
  Agree xs ys = (older : List AuditRecord) × ((ys ≡ xs ++ older) ⊎ (xs ≡ ys ++ older))

  Agree-cons :
      (x y : AuditRecord) (xs ys : List AuditRecord) → x ≡ y → Agree xs ys → Agree (x ∷ xs) (y ∷ ys)
  Agree-cons x y xs ys e (older, inl a) = (older, inl cc)
  Agree-cons x y xs ys e (older, inr b) = (older, inr cc)

  pub IsTrail-head_of :
      (xs ys : List AuditRecord)
      → NoCollision xs ys
      → IsTrail xs
      → IsTrail ys
      → head_of xs ≡ head_of ys
      → Agree xs ys
  IsTrail-head_of [] ys nc cx cy e = (ys, inl refl)
  IsTrail-head_of (x ∷ xs) [] nc cx cy e = (x ∷ xs, inr refl)
  IsTrail-head_of (x ∷ []) (y ∷ ys) nc cx cy e =
      Agree-cons x y [] ys (same_sealed x y (nc x y (inl refl) (inl refl)) cx.0 cy.0 e)
        (ys, inl refl)
  IsTrail-head_of (x ∷ x' ∷ xs) (y ∷ []) nc cx cy e =
      Agree-cons x y (x' ∷ xs) [] (same_sealed x y (nc x y (inl refl) (inl refl)) cx.0 cy.0 e)
        (x' ∷ xs, inr refl)
  IsTrail-head_of (x ∷ x' ∷ xs) (y ∷ y' ∷ ys) nc (sx, fx, cx) (sy, fy, cy) e =
      let one = same_sealed x y (nc x y (inl refl) (inl refl)) sx sy e in
      let back : x'.hash ≡ y'.hash = sym fx ∙ ap (λ (r : AuditRecord). r.prev_hash) one ∙ fy in
      Agree-cons x y (x' ∷ xs) (y' ∷ ys) one
        (IsTrail-head_of (x' ∷ xs) (y' ∷ ys) (λ a b m n. nc a b (inr m) (inr n)) cx cy back)

  head_nonempty :
      (rec : AuditRecord)
      → ((r : AuditRecord) → digest r ≢ some [])
      → IsSealed digest rec
      → rec.hash ≢ []
  head_nonempty rec ne s e = ne (cleared rec) (s ∙ ap some e)

  -- Tamper evidence: two chains from the start with the same head hash are the same log, so long as
  -- no two of their records share a digest and no digest is empty.
  pub IsChain-head_of :
      (xs ys : List AuditRecord)
      → ((r : AuditRecord) → digest r ≢ some [])
      → NoCollision xs ys
      → IsChain digest xs
      → IsChain digest ys
      → head_of xs ≡ head_of ys
      → xs ≡ ys
  IsChain-head_of [] [] ne nc cx cy e = refl
  IsChain-head_of [] (y ∷ ys) ne nc cx (s, l, cy) e = absurd (head_nonempty y ne s (sym e))
  IsChain-head_of (x ∷ xs) [] ne nc (s, l, cx) cy e = absurd (head_nonempty x ne s e)
  IsChain-head_of (x ∷ xs) (y ∷ ys) ne nc (sx, lx, cx) (sy, ly, cy) e =
      let same = nc x y (inl refl) (inl refl) (sx ∙ ap some e ∙ sym sy) in
      let back : head_of xs ≡ head_of ys =
        sym lx ∙ ap (λ (r : AuditRecord). r.prev_hash) same ∙ ly in
      let rest = IsChain-head_of xs ys ne (λ a b m n. nc a b (inr m) (inr n)) cx cy back in
      let one : x ≡ y =
        ap (λ (r : AuditRecord). record r { hash = x.hash }) same
        ∙ ap (λ (h : Text). record y { hash = h }) e in
      cc
